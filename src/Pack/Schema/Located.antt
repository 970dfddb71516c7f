-- ===== src/Pack/Schema/Located.antt =====
-- The `Index` of a field leads reflection to that field, in the whole table.
use trails.Base.{
  if-elim, subst, ℕ, ◌+◌, ◌≡◌, refl, ap, ◌∙◌, true, Option, none, some, List, [], ◌∷◌, ◌++◌, map,
  Text, All, Result, ok, err, not,
}
use trails.Pack.Types.{
  StructFacts, GoType, basic, struct_, pointer, slice, GoFields, no_fields, field_then, kind_of,
}
use trails.Pack.Errors.{SchemaError}
use trails.Pack.Tags.{ParsedTag, StructOptions, is_empty, parse_field_tag}
use trails.Pack.Walk.{Field, Relation, Build, tag_text, walk_fields, empty_build}
use trails.Pack.Schema.{
  Schema, resolve_table_name, is_flat, key_part, is_composite_key_candidate, expand_parts,
  expand_struct, expand_all, expand_composite_keys, detect_hooks, build_state, resolve_fk, finish,
  finish_with, table_name_of, build,
}
use trails.Pack.Schema.Walked.{
  descend, Located, RelationLocated, AllLocated, FieldsAt, add_field-AllLocated, here, next, inside,
  walk_fields-AllLocated,
}

abbrev table_fields : Result (List SchemaError) Schema → List Field
table_fields (ok t) = t.fields
table_fields (err es) = []

abbrev table_relations : Result (List SchemaError) Schema → List Relation
table_relations (ok t) = t.relations
table_relations (err es) = []

module _ (root : Option (Text × GoType)) where
  key_part-AllLocated :
      (name owner : Text) (index : List ℕ) (t : GoType) (parsed : Result SchemaError ParsedTag)
      (b : Build)
      → descend root index ≡ some (name, t)
      → AllLocated root b
      → AllLocated root (key_part name owner index t parsed b)
  key_part-AllLocated name owner index t (err e) b l h = h
  key_part-AllLocated name owner index t (ok tag) b l h = add_field-AllLocated root _ b l h

  expand_parts-AllLocated :
      (st : Text) (f : Field) (owner : Text) (i : ℕ) (fs : GoFields) (b : Build)
      → FieldsAt root f.index i fs
      → AllLocated root b
      → AllLocated root (expand_parts st f owner i fs b)
  unfolding expand_parts
  expand_parts-AllLocated st f owner i no_fields b at h = h
  expand_parts-AllLocated st f owner i (field_then name a e tag t rest) b at h =
      let l = here root f.index i (field_then name a e tag t rest) at in
      expand_parts-AllLocated st f owner (i + 1) rest _ (next root f.index i name a e tag t rest at)
        (if-elim (AllLocated root) (not e) b _ h (
          if-elim (AllLocated root) (not (is_flat (kind_of t))) _ _ h (
            key_part-AllLocated name owner (f.index ++ i ∷ []) t
              (parse_field_tag owner name (tag_text tag)) b l h)))

  expand_struct-AllLocated :
      (st : Text) (f : Field) (t : GoType) (b : Build)
      → f.type ≡ t
      → Located root f
      → AllLocated root b
      → AllLocated root (expand_struct st f t b)
  unfolding expand_struct
  expand_struct-AllLocated st f (struct_ facts fs) b e l h =
      if-elim (AllLocated root) (is_composite_key_candidate facts) _ _
        (expand_parts-AllLocated st f facts.name 0 fs (record b { pk_is_composite = true })
          (inside root f.index f.go_name facts fs (l ∙ ap (λ t. some (f.go_name, t)) e)) h)
        (add_field-AllLocated root f b l h)
  expand_struct-AllLocated st f (basic k) b e l h = add_field-AllLocated root f b l h
  expand_struct-AllLocated st f (pointer t) b e l h = add_field-AllLocated root f b l h
  expand_struct-AllLocated st f (slice t) b e l h = add_field-AllLocated root f b l h

  expand_all-AllLocated :
      (st : Text) (fs : List Field) (b : Build)
      → All (Located root) fs
      → AllLocated root b
      → AllLocated root (expand_all st fs b)
  unfolding expand_all
  expand_all-AllLocated st [] b l h = h
  expand_all-AllLocated st (f ∷ fs) b (l, ls) h = expand_all-AllLocated st fs _ ls (
      if-elim (AllLocated root) f.options.pk _ _ (expand_struct-AllLocated st f f.type b refl l h)
        (add_field-AllLocated root f b l h))

  table_name_of-AllLocated :
      (st : Text) (m : Option Text) (o : Option StructOptions) (b : Build)
      → AllLocated root b
      → AllLocated root (table_name_of st m o b).1
  table_name_of-AllLocated st (some name) o b h = h
  table_name_of-AllLocated st none none b h = h
  table_name_of-AllLocated st none (some o) b h =
      if-elim (λ (p : Text × Build). AllLocated root p.1) o.has_table _ _ h h

  map-RelationLocated :
      (owner : Text) (rs : List Relation)
      → All (RelationLocated root) rs
      → All (RelationLocated root) (map (resolve_fk owner) rs)
  unfolding resolve_fk
  map-RelationLocated owner [] h = tt
  map-RelationLocated owner (r ∷ rs) (h, hs) = (
    if-elim (RelationLocated root) (not (is_empty r.fk)) _ _ h h,
    map-RelationLocated owner rs hs,
  )

  finish_with-Located :
      (es : List SchemaError) (facts : StructFacts) (name : Text) (b : Build) (t : Schema)
      → finish_with es facts name b ≡ ok t
      → AllLocated root b
      → All (Located root) t.fields × All (RelationLocated root) t.relations
  finish_with-Located (e ∷ es) facts name b t p h = absurd (cc)
  finish_with-Located [] facts name b t p (h, k) =
      subst
        (λ r. All (Located root) (table_fields r) × All (RelationLocated root) (table_relations r))
        p (h, map-RelationLocated facts.name b.relations k)

abbrev pub root_of : StructFacts → GoFields → Option (Text × GoType)
root_of facts fs = some (facts.name, struct_ facts fs)

-- In the table of a model, the index of each field and relation leads reflection, through embedded
-- structs and composite keys, to the struct field of that name, and for a field of that type.
pub build-Located :
    (facts : StructFacts) (fs : GoFields) (t : Schema)
    → build facts fs ≡ ok t
    → let root = root_of facts fs in
      All (Located root) t.fields × All (RelationLocated root) t.relations
unfolding build build_state finish resolve_table_name expand_composite_keys detect_hooks descend
build-Located facts fs t e =
    let root = root_of facts fs in
    let walked = walk_fields facts.name [] 0 fs empty_build in
    let walked_located =
      walk_fields-AllLocated root facts.name [] 0 fs empty_build
        (inside root [] facts.name facts fs refl) (tt, tt) in
    let named = table_name_of facts.name facts.table_name walked.struct_opts walked in
    let named_located =
      table_name_of-AllLocated root facts.name facts.table_name walked.struct_opts walked
        walked_located in
    finish_with-Located root _ facts named.0 _ t e (
      expand_all-AllLocated root facts.name named.1.fields (record named.1 { fields = [] })
        named_located.0 (tt, named_located.1))
