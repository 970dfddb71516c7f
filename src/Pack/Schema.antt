-- ===== src/Pack/Schema.antt =====
-- pack/internal/schema/schema.go: the table that a model struct describes. The cache of `For`,
-- which builds each type once, is not modelled.
pub mod Walked
pub mod Located
pub mod Columns
use trails.Base.{
  ℕ, ◌+◌, Bool, true, false, not, ◌&&◌, ◌||◌, Option, none, some, List, [], ◌∷◌, ◌++◌, map,
  if◌then◌else◌, Text, codes, ◌===◌, Table, insert, keep, Result, ok, err,
}
use trails.Pack.Snake.{to_snake_case}
use trails.Pack.Errors.{
  RelationKind, belongs_to, has_one, has_many, SchemaError, missing_table_name, pointer_embed,
  composite_key_shape, relation_field_shape, value_receiver_hook,
}
use trails.Pack.Tags.{
  ColumnOptions, StructOptions, RelationOptions, ParsedTag, FieldKind, kind_column, kind_relation,
  no_options, no_struct_options, is_empty, parse_field_tag, parse_struct_tag,
}
use trails.Pack.Types.{
  Kind, struct_kind, pointer_kind, slice_kind, Target, to_type, to_pointer, Hook, before_insert,
  after_insert, before_update, after_update, before_delete, after_delete, after_scan, Receiver,
  no_method, by_value, by_pointer, StructFacts, GoType, basic, struct_, pointer, slice, GoFields,
  no_fields, field_then, kind_of, is_pointer, kind_string,
}
use trails.Pack.Walk.{
  Field, Relation, Build, fail, add_field, tag_text, column_name, walk_fields, empty_build,
}

pub record Schema : Type 0 where
  pub name : Text
  pub alias : Text
  pub fields : List Field
  pub fields_by_column : Table Field
  pub pk : List Field
  pub pk_is_composite : Bool
  pub relations : List Relation
  pub hooks : Hook → Bool

abbrev pub table_name_of : Text → Option Text → Option StructOptions → Build → Text × Build
table_name_of st (some name) o b = (name, b)
table_name_of st none none b = ([], fail (missing_table_name st) b)
table_name_of st none (some o) b =
    if o.has_table then (o.table, b) else ([], fail (missing_table_name st) b)

-- The name of the method, else of the tag; no name is an error.
unfoldable pub resolve_table_name : StructFacts → Build → Text × Build
resolve_table_name facts b = table_name_of facts.name facts.table_name b.struct_opts b

unfoldable pub resolve_alias : Text → Option StructOptions → Text
resolve_alias name none = name
resolve_alias name (some o) = if o.has_alias then o.alias else name

unfoldable pub is_composite_key_candidate : StructFacts → Bool
is_composite_key_candidate facts = not (facts.is_time || (facts.is_valuer || facts.is_scanner))

-- Neither a struct, a pointer nor a slice.
abbrev pub is_flat : Kind → Bool
is_flat struct_kind = false
is_flat pointer_kind = false
is_flat slice_kind = false
is_flat _ = true

abbrev pub key_part : Text → Text → List ℕ → GoType → Result SchemaError ParsedTag → Build → Build
key_part name owner index t (err e) b = fail e b
key_part name owner index t (ok tag) b =
    add_field
      (record {
        go_name = name;
        column = column_name tag.name_slot name;
        index = index;
        type = t;
        options = record no_options { pk = true };
      })
      b

abbrev shape_reason : Text → GoType → Text
shape_reason name t =
    codes "composite key fields must be flat scalars; found "
    ++ (kind_string (kind_of t) ++ (codes " field " ++ name))

-- The fields of a composite key, from number `i` on, of the key `f`.
unfoldable pub expand_parts : Text → Field → Text → ℕ → GoFields → Build → Build
expand_parts st f owner i no_fields b = b
expand_parts st f owner i (field_then name anonymous exported tag t rest) b =
    expand_parts st f owner (i + 1) rest (
      if not exported
      then b
      else if not (is_flat (kind_of t))
      then fail (composite_key_shape st f.go_name (shape_reason name t)) b
      else key_part name owner (f.index ++ i ∷ []) t (parse_field_tag owner name (tag_text tag)) b)

unfoldable pub expand_struct : Text → Field → GoType → Build → Build
unfolding expand_parts is_composite_key_candidate
expand_struct st f (struct_ facts fs) b =
    let parts = expand_parts st f facts.name 0 fs (record b { pk_is_composite = true }) in
    if is_composite_key_candidate facts then parts else add_field f b
expand_struct st f _ b = add_field f b

-- The loop over the fields; `b.fields` holds the expanded ones.
unfoldable pub expand_all : Text → List Field → Build → Build
unfolding expand_struct
expand_all st [] b = b
expand_all st (f ∷ fs) b =
    expand_all st fs (if f.options.pk then expand_struct st f f.type b else add_field f b)

unfoldable pub expand_composite_keys : Text → Build → Build
unfolding expand_all
expand_composite_keys st b = expand_all st b.fields (record b { fields = [] })

unfoldable pub resolve_fk : Text → Relation → Relation
unfolding codes
resolve_fk owner r = if not (is_empty r.fk) then r else record r {
  fk = elim r.kind [
    | belongs_to ↦ to_snake_case r.target ++ codes "_id"
    | has_one ↦ to_snake_case owner ++ codes "_id"
    | has_many ↦ to_snake_case owner ++ codes "_id"
  ];
}

abbrev hook_name : Hook → Text
hook_name before_insert = codes "BeforeInsert"
hook_name after_insert = codes "AfterInsert"
hook_name before_update = codes "BeforeUpdate"
hook_name after_update = codes "AfterUpdate"
hook_name before_delete = codes "BeforeDelete"
hook_name after_delete = codes "AfterDelete"
hook_name after_scan = codes "AfterScan"

abbrev detect_hook : StructFacts → Hook → List SchemaError
detect_hook facts h = elim (facts.receiver h) [
  | by_value ↦ value_receiver_hook facts.name (hook_name h) ∷ []
  | _ ↦ []
]

abbrev has_hook : Receiver → Bool
has_hook by_pointer = true
has_hook _ = false

abbrev pub all_hooks : List Hook
all_hooks =
    before_insert ∷ after_insert ∷ before_update ∷ after_update ∷ before_delete ∷ after_delete
    ∷ after_scan ∷ []

abbrev hook_errors : StructFacts → List Hook → List SchemaError
hook_errors facts [] = []
hook_errors facts (h ∷ hs) = detect_hook facts h ++ hook_errors facts hs

unfoldable pub detect_hooks : StructFacts → Build → Build
detect_hooks facts b = record b { errs = b.errs ++ hook_errors facts all_hooks }

-- The last loop of `build`: the map by column.
unfoldable pub by_column : List Field → Table Field → Table Field
by_column [] m = m
by_column (f ∷ fs) m = by_column fs (insert f.column f m)

-- The walk, the name, the composite keys and the hooks, in this order.
unfoldable pub build_state : StructFacts → GoFields → Text × Build
unfolding walk_fields resolve_table_name expand_composite_keys detect_hooks
build_state facts fs =
    let (name, b) = resolve_table_name facts (walk_fields facts.name [] 0 fs empty_build) in
    (name, detect_hooks facts (expand_composite_keys facts.name b))

abbrev pub finish_with :
    List SchemaError → StructFacts → Text → Build → Result (List SchemaError) Schema
finish_with (e ∷ es) facts name b = err (e ∷ es)
finish_with [] facts name b = ok (record {
  name = name;
  alias = resolve_alias name b.struct_opts;
  fields = b.fields;
  fields_by_column = by_column b.fields [];
  pk = keep (λ (f : Field). f.options.pk) b.fields;
  pk_is_composite = b.pk_is_composite;
  relations = map (resolve_fk facts.name) b.relations;
  hooks = λ h. has_hook (facts.receiver h);
})

unfoldable pub finish : StructFacts → Text → Build → Result (List SchemaError) Schema
unfolding by_column resolve_fk resolve_alias
finish facts name b = finish_with b.errs facts name b

unfoldable pub build : StructFacts → GoFields → Result (List SchemaError) Schema
unfolding build_state finish
build facts fs = let (name, b) = build_state facts fs in finish facts name b
