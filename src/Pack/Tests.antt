-- ===== src/Pack/Tests.antt =====
-- A post with an author, an embedded base and a composite key.
use trails.Base.{
  has_prefix, map, ◌≡◌, refl, arith, true, false, none, some, List, [], ◌∷◌, Text, codes, Result,
  ok, err, All, ◌===◌,
}
use trails.Pack.Errors.{SchemaError}
use trails.Web.Header.{to_lower, lower, join}
use trails.Pack.Snake.{to_snake_case}
use trails.Pack.Snake.Words.{capitalised, acronym, to_snake_case-identifier}
use trails.Pack.Tags.{
  is_option_like, bare_column_option, column_option, parse_struct_tag, struct_option, column_tag,
  no_options, parse_field_tag, is_empty,
}
use trails.Pack.Tags.Laws.{
  ColumnOption, is_unique, defaults_to, column_raw, apply_all, HasPlainValue, IsName,
  parse_field_tag-column_raw,
}
use trails.Pack.Tags.Relations.{RelationOption, foreign_key}
use trails.Pack.Types.{
  int64_kind, string_kind, struct_kind, to_type, no_method, by_pointer, StructFacts, GoType, basic,
  struct_, pointer, GoFields, no_fields, field_then,
}
use trails.Pack.Walk.{build_relation, Field, Relation}
use trails.Pack.Schema.{Schema, build}
use trails.Pack.Schema.Walked.{Located, RelationLocated}
use trails.Pack.Schema.Located.{root_of, build-Located}

user_id : to_snake_case (codes "UserID") ≡ codes "user_id"
unfolding to_snake_case codes
user_id = refl

http_server : to_snake_case (codes "HTTPServer2Go") ≡ codes "http_server2_go"
unfolding to_snake_case codes
http_server = refl

to_snake_case-identifier_example : to_snake_case (codes "HTTPServer2") ≡ codes "http_server2"
unfolding codes to_lower lower join
to_snake_case-identifier_example =
    to_snake_case-identifier (acronym b'H' (codes "TTP"))
      (capitalised b'S' b'e' (codes "rver2") ∷ [])
      (
        (refl, (refl, (refl, (refl, tt)))),
        refl,
        ((refl, refl, (refl, (refl, (refl, (refl, (refl, tt)))))), refl, tt),
      )

abbrev email : Text
email = codes "email"

abbrev email_options : List ColumnOption
email_options = is_unique ∷ defaults_to (codes "'x'") ∷ []

email-IsName : IsName email
unfolding codes is_option_like bare_column_option has_prefix
email-IsName = record { plain = ground arith; no_option = refl; no_relation = refl }

email_options_plain : All HasPlainValue email_options
unfolding codes
email_options_plain = (tt, ((ground arith, (ground arith, (ground arith, tt))), tt))

abbrev base : GoType
base =
    struct_
      (record {
        name = codes "Base";
        is_time = false;
        is_valuer = false;
        is_scanner = false;
        table_name = none;
        receiver = λ h. no_method;
      })
      (field_then (codes "CreatedBy") false true none (basic string_kind) no_fields)

abbrev key : GoType
key =
    struct_
      (record {
        name = codes "Key";
        is_time = false;
        is_valuer = false;
        is_scanner = false;
        table_name = none;
        receiver = λ h. no_method;
      })
      (field_then (codes "TenantID") false true none (basic int64_kind)
        (field_then (codes "PostID") false true (some (codes "id")) (basic int64_kind) no_fields))

abbrev post : StructFacts
post = record {
  name = codes "Post";
  is_time = false;
  is_valuer = false;
  is_scanner = false;
  table_name = none;
  receiver = λ h. by_pointer;
}

abbrev post_fields : GoFields
post_fields = field_then (codes "Base") true true (some (codes "table:posts")) base (
    field_then (codes "Key") false true (some (codes ",pk")) key (
      field_then (codes "Author") false true (some (codes "rel:belongs_to"))
        (pointer (to_type struct_kind (codes "User")))
        (field_then (codes "note") false false none (basic string_kind) no_fields)))

abbrev columns : Result (List SchemaError) Schema → List Text
columns (ok t) = map (λ (f : Field). f.column) t.fields
columns (err es) = []

abbrev keys : Result (List SchemaError) Schema → List Text
keys (ok t) = map (λ (r : Relation). r.fk) t.relations
keys (err es) = []

columns_of_post :
    columns (build post post_fields) ≡ codes "created_by" ∷ codes "tenant_id" ∷ codes "id" ∷ []
unfolding build codes parse_field_tag build_relation bare_column_option column_option
    parse_struct_tag struct_option to_snake_case is_option_like
columns_of_post = refl

keys_of_post : keys (build post post_fields) ≡ codes "user_id" ∷ []
unfolding build codes parse_field_tag build_relation bare_column_option column_option
    parse_struct_tag struct_option to_snake_case is_option_like
keys_of_post = refl

parse_field_tag-column_raw_example :
    parse_field_tag (codes "User") (codes "Email") (column_raw email email_options)
    ≡ ok (record column_tag {
      column = apply_all email_options no_options;
      name_slot = email;
      has_leading_comma = is_empty email;
    })
unfolding codes ◌===◌
parse_field_tag-column_raw_example =
    parse_field_tag-column_raw (codes "User") (codes "Email") email email_options email-IsName
      email_options_plain refl refl

abbrev by_author : List RelationOption
by_author = foreign_key (codes "author") ∷ []

abbrev unnamed : Schema
unnamed = record {
  name = [];
  alias = [];
  fields = [];
  fields_by_column = [];
  pk = [];
  pk_is_composite = false;
  relations = [];
  hooks = λ h. false;
}

abbrev table_of : Result (List SchemaError) Schema → Schema
table_of (ok t) = t
table_of (err es) = unnamed

abbrev post_table : Schema
post_table = table_of (build post post_fields)

post_table_built : build post post_fields ≡ ok post_table
unfolding build codes parse_field_tag build_relation bare_column_option column_option
    parse_struct_tag struct_option to_snake_case is_option_like
post_table_built = refl

build-Located_example :
    All (Located (root_of post post_fields)) post_table.fields
    × All (RelationLocated (root_of post post_fields)) post_table.relations
build-Located_example = build-Located post post_fields post_table post_table_built
