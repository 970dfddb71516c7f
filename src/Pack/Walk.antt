-- ===== src/Pack/Walk.antt =====
-- pack/internal/schema/schema.go, the walk over the fields of a model struct.
use trails.Base.{
  ℕ, ◌+◌, Bool, true, false, Option, none, some, List, [], ◌∷◌, ◌++◌, if◌then◌else◌, Text, codes,
  Result, ok, err,
}
use trails.Pack.Snake.{to_snake_case}
use trails.Pack.Errors.{
  RelationKind, belongs_to, has_one, has_many, SchemaError, pointer_embed, relation_field_shape,
}
use trails.Pack.Tags.{
  ColumnOptions, StructOptions, RelationOptions, ParsedTag, FieldKind, kind_column, kind_relation,
  is_empty, parse_field_tag, parse_struct_tag,
}
use trails.Pack.Types.{
  Kind, struct_kind, to_type, to_pointer, GoType, struct_, pointer, slice, GoFields, no_fields,
  field_then, is_pointer,
}

pub record Field : Type 0 where
  pub go_name : Text
  pub column : Text
  pub index : List ℕ
  pub type : GoType
  pub options : ColumnOptions

-- `target` is the name of the target type.
pub record Relation : Type 0 where
  pub go_name : Text
  pub index : List ℕ
  pub kind : RelationKind
  pub target : Text
  pub slice_ : Bool
  pub fk : Text
  pub ref : Text

-- What `build` accumulates: the errors of `buildCtx`, the table's fields and relations, and the
-- struct options, once one is seen.
pub record Build : Type 0 where
  pub errs : List SchemaError
  pub fields : List Field
  pub relations : List Relation
  pub struct_opts : Option StructOptions
  pub pk_is_composite : Bool

abbrev pub fail : SchemaError → Build → Build
fail e b = record b { errs = b.errs ++ e ∷ [] }

abbrev pub add_field : Field → Build → Build
add_field f b = record b { fields = b.fields ++ f ∷ [] }

abbrev pub tag_text : Option Text → Text
tag_text none = []
tag_text (some raw) = raw

abbrev or_else : Option StructOptions → StructOptions → StructOptions
or_else none opts = opts
or_else (some o) opts = o

-- The tag of an embedded field: the first one without an error counts.
abbrev pub keep_first : Result SchemaError StructOptions → Build → Build
keep_first (err e) b = fail e b
keep_first (ok opts) b = record b { struct_opts = some (or_else b.struct_opts opts) }

unfoldable pub embedded_tag : Text → Option Text → Build → Build
embedded_tag st none b = b
embedded_tag st (some raw) b = keep_first (parse_struct_tag st raw) b

abbrev is_struct : Kind → Bool
is_struct struct_kind = true
is_struct _ = false

-- Whether the field's type has the shape of the relation, and the target's name where it has.
unfoldable pub relation_target : RelationKind → GoType → Option Text
relation_target has_many (slice (to_pointer k n)) = if is_struct k then some n else none
relation_target has_many _ = none
relation_target belongs_to (pointer (to_type k n)) = if is_struct k then some n else none
relation_target belongs_to _ = none
relation_target has_one (pointer (to_type k n)) = if is_struct k then some n else none
relation_target has_one _ = none

abbrev expected_shape : RelationKind → Text
expected_shape has_many = codes "expected a slice of pointer to struct"
expected_shape _ = codes "expected a pointer to struct"

abbrev is_slice : RelationKind → Bool
is_slice has_many = true
is_slice _ = false

-- On what `relation_target` has found.
abbrev pub add_relation : Option Text → Text → Text → List ℕ → RelationOptions → Build → Build
add_relation none st name index r b =
    fail (relation_field_shape st name r.kind (expected_shape r.kind)) b
add_relation (some target) st name index r b = record b {
  relations =
      b.relations
      ++ (record {
        go_name = name;
        index = index;
        kind = r.kind;
        target = target;
        slice_ = is_slice r.kind;
        fk = r.fk;
        ref = r.ref;
      })
        ∷ [];
}

unfoldable pub build_relation : Text → Text → List ℕ → GoType → RelationOptions → Build → Build
unfolding relation_target
build_relation st name index t r b = add_relation (relation_target r.kind t) st name index r b

abbrev pub column_name : Text → Text → Text
column_name slot name = if is_empty slot then to_snake_case name else slot

abbrev pub add_tagged : FieldKind → Text → Text → List ℕ → GoType → ParsedTag → Build → Build
add_tagged kind_relation st name index t tag b = build_relation st name index t tag.relation b
add_tagged kind_column st name index t tag b =
    if tag.column.skip
    then b
    else add_field
        (record {
          go_name = name;
          column = column_name tag.name_slot name;
          index = index;
          type = t;
          options = tag.column;
        })
        b

abbrev pub add_parsed : Result SchemaError ParsedTag → Text → Text → List ℕ → GoType → Build → Build
add_parsed (err e) st name index t b = fail e b
add_parsed (ok tag) st name index t b = add_tagged tag.kind st name index t tag b

unfoldable pub plain_field : Text → Text → List ℕ → GoType → Option Text → Build → Build
plain_field st name index t raw b =
    add_parsed (parse_field_tag st name (tag_text raw)) st name index t b

-- The fields from number `i` on, of a struct that stands at `prefix`.
unfoldable mutual
  unfolding embedded_tag plain_field

  pub walk_fields : Text → List ℕ → ℕ → GoFields → Build → Build
  walk_fields st prefix i no_fields b = b
  walk_fields st prefix i (field_then name anonymous exported tag t rest) b =
      let index = prefix ++ i ∷ [] in
      let inner = walk_type st index t (embedded_tag st tag b) in
      walk_fields st prefix (i + 1) rest (
        if anonymous
        then if is_pointer t then fail (pointer_embed st name) b else inner
        else if exported
        then plain_field st name index t tag b
        else b)

  -- Only a struct is walked into.
  pub walk_type : Text → List ℕ → GoType → Build → Build
  walk_type st index (struct_ facts fs) b = walk_fields st index 0 fs b
  walk_type st index _ b = b

abbrev pub empty_build : Build
empty_build = record {
  errs = [];
  fields = [];
  relations = [];
  struct_opts = none;
  pk_is_composite = false;
}
