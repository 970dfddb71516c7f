-- ===== src/Pack/Errors.antt =====
-- pack/internal/schema/errors.go: what a model's tags can get wrong, and how it is reported. The
-- verb `%q`, strconv.Quote, is a parameter.
use trails.Base.{concat, ℕ, [], ◌∷◌, Text, codes}
use trails.Base.Decimal.{format_ℕ}

pub data RelationKind : Type 0 where
  belongs_to has_one has_many : RelationKind

abbrev pub relation_kind_string : RelationKind → Text
relation_kind_string belongs_to = codes "belongs_to"
relation_kind_string has_one = codes "has_one"
relation_kind_string has_many = codes "has_many"

-- Each error names the struct first, then the field where it has one.
pub data SchemaError : Type 0 where
  ambiguous_column_slot : (struct_ field element : Text) → SchemaError
  misplaced_rel_prefix : (struct_ field element : Text) (index : ℕ) → SchemaError
  unknown_relation_kind : (struct_ field kind : Text) → SchemaError
  option_wrong_grammar : (struct_ field option expected : Text) → SchemaError
  unknown_option : (struct_ field option : Text) → SchemaError
  field_option_on_struct_tag : (struct_ option : Text) → SchemaError
  struct_option_on_field_tag : (struct_ field option : Text) → SchemaError
  missing_table_name : (struct_ : Text) → SchemaError
  pointer_embed : (struct_ field : Text) → SchemaError
  composite_key_shape : (struct_ field reason : Text) → SchemaError
  relation_field_shape : (struct_ field : Text) (kind : RelationKind) (reason : Text) → SchemaError
  value_receiver_hook : (struct_ method : Text) → SchemaError

-- Its three bytes in UTF-8.
abbrev em_dash : Text
em_dash = 226 ∷ 128 ∷ 148 ∷ []

-- "pack: <struct>.<field>: "
abbrev of_field : Text → Text → Text
of_field s f = concat (codes "pack: " ∷ s ∷ codes "." ∷ f ∷ codes ": " ∷ [])

abbrev unknown_option_message : (Text → Text) → Text → Text → Text → Text
unknown_option_message quote s [] o =
    concat (codes "pack: " ∷ s ∷ codes ": unknown option " ∷ quote o ∷ [])
unknown_option_message quote s (c ∷ f) o =
    concat (of_field s (c ∷ f) ∷ codes "unknown option " ∷ quote o ∷ [])

-- The method `Error` of each error type.
pub message : (Text → Text) → SchemaError → Text
message quote (ambiguous_column_slot s f e) = concat (
    of_field s f
    ∷ codes "tag element "
    ∷ quote e
    ∷ codes " is a recognized option but sits in the column-name slot (no leading comma) "
    ∷ em_dash
    ∷ codes " write `db:\","
    ∷ e
    ∷ codes "\"` to apply it as an option, or `db:\""
    ∷ e
    ∷ codes ",\"` to name the column "
    ∷ quote e
    ∷ codes " deliberately"
    ∷ [])
message quote (misplaced_rel_prefix s f e i) = concat (
    of_field s f
    ∷ codes "`rel:` must be the tag's first element; found "
    ∷ quote e
    ∷ codes " at position "
    ∷ format_ℕ i
    ∷ codes ". Relation tags take no leading comma: write `db:\"rel:<kind>,...\"`"
    ∷ [])
message quote (unknown_relation_kind s f k) = concat (
    codes "db: "
    ∷ s
    ∷ codes "."
    ∷ f
    ∷ codes ": unknown relation kind "
    ∷ quote k
    ∷ codes "; recognized kinds are belongs_to, has_one, has_many"
    ∷ [])
message quote (option_wrong_grammar s f o x) =
    concat (
      of_field s f
      ∷ codes "option "
      ∷ quote o
      ∷ codes " is not valid on a "
      ∷ x
      ∷ codes " tag"
      ∷ [])
message quote (unknown_option s f o) = unknown_option_message quote s f o
message quote (field_option_on_struct_tag s o) = concat (
    codes "pack: "
    ∷ s
    ∷ codes ": option "
    ∷ quote o
    ∷ codes " is a field-level option and is not valid on the struct-level tag"
    ∷ [])
message quote (struct_option_on_field_tag s f o) = concat (
    of_field s f
    ∷ codes "option "
    ∷ quote o
    ∷ codes " is a struct-level option and is not valid on a field tag"
    ∷ [])
message quote (missing_table_name s) = concat (
    codes "pack: "
    ∷ s
    ∷ codes ": no table name: define a TableName() string method or set `table:<name>` on the "
    ∷ codes "embedded model tag"
    ∷ [])
message quote (pointer_embed s f) =
    concat (of_field s f ∷ codes "embedded fields must not be pointers" ∷ [])
message quote (composite_key_shape s f r) =
    concat (of_field s f ∷ codes "invalid composite key type: " ∷ r ∷ [])
message quote (relation_field_shape s f k r) = concat (
    of_field s f
    ∷ codes "invalid shape for "
    ∷ relation_kind_string k
    ∷ codes " relation: "
    ∷ r
    ∷ [])
message quote (value_receiver_hook s m) = concat (
    codes "pack: "
    ∷ s
    ∷ codes "."
    ∷ m
    ∷ codes " must use a pointer receiver (func (m *"
    ∷ s
    ∷ codes ") "
    ∷ m
    ∷ codes "(...)) "
    ∷ em_dash
    ∷ codes " a value-receiver hook's mutations are silently discarded"
    ∷ [])
