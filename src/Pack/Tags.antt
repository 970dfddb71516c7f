-- ===== src/Pack/Tags.antt =====
-- pack/internal/schema/tags.go: the grammar of `db:"..."` struct tags.
pub mod Laws
pub mod Relations
use trails.Base.{
  Bool, true, false, not, ◌&&◌, ◌||◌, List, [], ◌∷◌, if◌then◌else◌, Text, codes, ◌===◌, ◌+◌, ℕ,
  split_comma, has_prefix, trim_prefix, Result, ok, err, ◌>>=◌,
}
use trails.Web.Header.{contains}
use trails.Pack.Errors.{
  RelationKind, belongs_to, has_one, has_many, SchemaError, ambiguous_column_slot,
  misplaced_rel_prefix, unknown_relation_kind, option_wrong_grammar, unknown_option,
  field_option_on_struct_tag, struct_option_on_field_tag,
}

pub data FieldKind : Type 0 where
  kind_column kind_relation : FieldKind

pub record ColumnOptions : Type 0 where
  pub pk : Bool
  pub auto_increment : Bool
  pub null_zero : Bool
  pub unique : Bool
  pub not_null : Bool
  pub default_ : Text
  pub has_default : Bool
  pub sql_type : Text
  pub skip : Bool

pub record RelationOptions : Type 0 where
  pub kind : RelationKind
  pub fk : Text
  pub ref : Text

pub record ParsedTag : Type 0 where
  pub kind : FieldKind
  pub column : ColumnOptions
  pub relation : RelationOptions
  pub name_slot : Text
  pub has_leading_comma : Bool

pub record StructOptions : Type 0 where
  pub table : Text
  pub has_table : Bool
  pub alias : Text
  pub has_alias : Bool

-- The zero values.
abbrev pub no_options : ColumnOptions
no_options = record {
  pk = false;
  auto_increment = false;
  null_zero = false;
  unique = false;
  not_null = false;
  default_ = [];
  has_default = false;
  sql_type = [];
  skip = false;
}

abbrev pub no_relation : RelationOptions
no_relation = record { kind = belongs_to; fk = []; ref = [] }

abbrev pub column_tag : ParsedTag
column_tag = record {
  kind = kind_column;
  column = no_options;
  relation = no_relation;
  name_slot = [];
  has_leading_comma = false;
}

abbrev pub no_struct_options : StructOptions
no_struct_options = record { table = []; has_table = false; alias = []; has_alias = false }

abbrev pub is_empty : Text → Bool
is_empty [] = true
is_empty (c ∷ s) = false

unfoldable pub bare_column_option : Text → Bool
unfolding contains codes ◌===◌
bare_column_option s = contains s (
    codes "pk"
    ∷ codes "auto_increment"
    ∷ codes "null_zero"
    ∷ codes "unique"
    ∷ codes "not_null"
    ∷ [])

abbrev pub any_prefix : List Text → Text → Bool
any_prefix [] s = false
any_prefix (p ∷ ps) s = has_prefix p s || any_prefix ps s

abbrev pub prefix_column_options : List Text
prefix_column_options = codes "default:" ∷ codes "type:" ∷ codes "fk:" ∷ codes "ref:" ∷ []

unfoldable pub is_option_like : Text → Bool
unfolding has_prefix codes
is_option_like elem = bare_column_option elem || any_prefix prefix_column_options elem

-- One round of the loop over the options of a column tag.
unfoldable pub column_option : Text → Text → Text → ColumnOptions → Result SchemaError ColumnOptions
unfolding codes has_prefix
column_option st f opt c =
    if is_empty opt
    then ok c
    else if opt === codes "pk"
    then ok (record c { pk = true })
    else if opt === codes "auto_increment"
    then ok (record c { auto_increment = true })
    else if opt === codes "null_zero"
    then ok (record c { null_zero = true })
    else if opt === codes "unique"
    then ok (record c { unique = true })
    else if opt === codes "not_null"
    then ok (record c { not_null = true })
    else if has_prefix (codes "default:") opt
    then ok (record c { default_ = trim_prefix (codes "default:") opt; has_default = true })
    else if has_prefix (codes "type:") opt
    then ok (record c { sql_type = trim_prefix (codes "type:") opt })
    else if has_prefix (codes "fk:") opt || has_prefix (codes "ref:") opt
    then err (option_wrong_grammar st f opt (codes "column"))
    else if has_prefix (codes "table:") opt || has_prefix (codes "alias:") opt
    then err (struct_option_on_field_tag st f opt)
    else err (unknown_option st f opt)

unfoldable pub column_options :
    Text → Text → List Text → ColumnOptions → Result SchemaError ColumnOptions
column_options st f [] c = ok c
column_options st f (o ∷ os) c = do c' ← column_option st f o c; column_options st f os c'

-- `len(elems) == 2 && elems[1] == ""`, on what stands behind elems[0].
abbrev pub is_deliberate_escape : List Text → Bool
is_deliberate_escape ([] ∷ []) = true
is_deliberate_escape _ = false

unfoldable pub parse_column_tag :
    Text → Text → Text → Text → List Text → Result SchemaError ParsedTag
unfolding column_options is_option_like
parse_column_tag st f raw slot opts =
    if is_empty raw
    then ok column_tag
    else if is_option_like slot && not (is_deliberate_escape opts)
    then err (ambiguous_column_slot st f slot)
    else do
      c ← column_options st f (if is_deliberate_escape opts then [] else opts) no_options
      ok (record column_tag { column = c; name_slot = slot; has_leading_comma = is_empty slot })

unfoldable pub relation_kind : Text → Text → Text → Result SchemaError RelationKind
unfolding codes ◌===◌
relation_kind st f s =
    if s === codes "belongs_to"
    then ok belongs_to
    else if s === codes "has_one"
    then ok has_one
    else if s === codes "has_many"
    then ok has_many
    else err (unknown_relation_kind st f s)

-- One round of the loop over the options of a relation tag.
unfoldable pub relation_option :
    Text → Text → Text → RelationOptions → Result SchemaError RelationOptions
unfolding codes has_prefix
relation_option st f opt r =
    if is_empty opt
    then ok r
    else if has_prefix (codes "fk:") opt
    then ok (record r { fk = trim_prefix (codes "fk:") opt })
    else if has_prefix (codes "ref:") opt
    then ok (record r { ref = trim_prefix (codes "ref:") opt })
    else if bare_column_option opt
        || (has_prefix (codes "default:") opt || has_prefix (codes "type:") opt)
    then err (option_wrong_grammar st f opt (codes "relation"))
    else if has_prefix (codes "table:") opt || has_prefix (codes "alias:") opt
    then err (struct_option_on_field_tag st f opt)
    else err (unknown_option st f opt)

unfoldable pub relation_options :
    Text → Text → List Text → RelationOptions → Result SchemaError RelationOptions
relation_options st f [] r = ok r
relation_options st f (o ∷ os) r = do r' ← relation_option st f o r; relation_options st f os r'

unfoldable pub parse_relation_tag : Text → Text → Text → List Text → Result SchemaError ParsedTag
unfolding relation_kind relation_options trim_prefix codes
parse_relation_tag st f first opts = do
  k ← relation_kind st f (trim_prefix (codes "rel:") first)
  r ← relation_options st f opts (record no_relation { kind = k })
  ok (record column_tag { kind = kind_relation; relation = r })

-- The loop that looks for `rel:` behind the first element; `i` is the index of the head.
unfoldable pub misplaced_rel : Text → Text → ℕ → List Text → Result SchemaError (Unit {0})
unfolding has_prefix codes
misplaced_rel st f i [] = ok tt
misplaced_rel st f i (e ∷ es) =
    let rest = misplaced_rel st f (i + 1) es in
    if has_prefix (codes "rel:") e then err (misplaced_rel_prefix st f e i) else rest

-- On the elements of the tag, of which there is always one.
unfoldable pub parse_elements : Text → Text → Text → List Text → Result SchemaError ParsedTag
unfolding misplaced_rel parse_relation_tag parse_column_tag
parse_elements st f raw [] = parse_column_tag st f raw [] []
parse_elements st f raw (first ∷ opts) = do
  _ ← misplaced_rel st f 1 opts
  if has_prefix (codes "rel:") first
      then parse_relation_tag st f first opts
      else parse_column_tag st f raw first opts

unfoldable pub parse_field_tag : Text → Text → Text → Result SchemaError ParsedTag
unfolding split_comma parse_elements codes ◌===◌
parse_field_tag st f raw =
    if raw === codes "-"
    then ok (record column_tag { column = record no_options { skip = true } })
    else parse_elements st f raw (split_comma raw)

unfoldable pub struct_option : Text → Text → StructOptions → Result SchemaError StructOptions
unfolding has_prefix codes
struct_option st elem o =
    if is_empty elem
    then ok o
    else if has_prefix (codes "table:") elem
    then ok (record o { table = trim_prefix (codes "table:") elem; has_table = true })
    else if has_prefix (codes "alias:") elem
    then ok (record o { alias = trim_prefix (codes "alias:") elem; has_alias = true })
    else if (bare_column_option elem || elem === codes "-")
        || any_prefix
            (codes "default:" ∷ codes "type:" ∷ codes "fk:" ∷ codes "ref:" ∷ codes "rel:" ∷ []) elem
    then err (field_option_on_struct_tag st elem)
    else err (unknown_option st [] elem)

unfoldable pub struct_options : Text → List Text → StructOptions → Result SchemaError StructOptions
struct_options st [] o = ok o
struct_options st (e ∷ es) o = do o' ← struct_option st e o; struct_options st es o'

unfoldable pub parse_struct_tag : Text → Text → Result SchemaError StructOptions
unfolding struct_options split_comma
parse_struct_tag st raw =
    if is_empty raw
    then ok no_struct_options
    else struct_options st (split_comma raw) no_struct_options
