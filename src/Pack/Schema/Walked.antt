-- ===== src/Pack/Schema/Walked.antt =====
-- The walk gives each field and relation the index that leads reflection to it.
use trails.Base.{
  if-elim, ℕ, suc, ◌+◌, ◌≡◌, refl, ap, ◌∙◌, arith, Bool, Option, none, some, List, [], ◌∷◌, ◌++◌,
  Text, All, All-append, Result, ok, err,
}
use trails.Pack.Types.{
  StructFacts, GoType, basic, struct_, pointer, slice, GoFields, no_fields, field_then, nth_field,
  is_pointer,
}
use trails.Pack.Errors.{SchemaError}
use trails.Pack.Tags.{
  RelationOptions, ParsedTag, StructOptions, FieldKind, kind_column, kind_relation, parse_field_tag,
  parse_struct_tag,
}
use trails.Pack.Walk.{
  Field, Relation, Build, add_field, tag_text, embedded_tag, keep_first, add_relation, add_parsed,
  relation_target, build_relation, add_tagged, plain_field, walk_fields, walk_type,
}

-- reflect's FieldByIndex, from a field on: each index leads into a struct.
unfoldable pub descend : Option (Text × GoType) → List ℕ → Option (Text × GoType)
descend o [] = o
descend none (i ∷ is) = none
descend (some (name, struct_ facts fs)) (i ∷ is) = descend (nth_field fs i) is
descend (some (name, basic k)) (i ∷ is) = none
descend (some (name, pointer t)) (i ∷ is) = none
descend (some (name, slice t)) (i ∷ is) = none

descend-append :
    (o : Option (Text × GoType)) (is js : List ℕ) → descend o (is ++ js) ≡ descend (descend o is) js
unfolding descend
descend-append o [] js = refl
descend-append none (i ∷ is) [] = refl
descend-append none (i ∷ is) (j ∷ js) = refl
descend-append (some (name, struct_ facts fs)) (i ∷ is) js = descend-append (nth_field fs i) is js
descend-append (some (name, basic k)) (i ∷ is) [] = refl
descend-append (some (name, basic k)) (i ∷ is) (j ∷ js) = refl
descend-append (some (name, pointer t)) (i ∷ is) [] = refl
descend-append (some (name, pointer t)) (i ∷ is) (j ∷ js) = refl
descend-append (some (name, slice t)) (i ∷ is) [] = refl
descend-append (some (name, slice t)) (i ∷ is) (j ∷ js) = refl

module _ (root : Option (Text × GoType)) where
  abbrev pub Located : Field → Type 0
  Located f = descend root f.index ≡ some (f.go_name, f.type)

  abbrev pub RelationLocated : Relation → Type 0
  RelationLocated r = (t : GoType) × (descend root r.index ≡ some (r.go_name, t))

  abbrev pub AllLocated : Build → Type 0
  AllLocated b = All Located b.fields × All RelationLocated b.relations

  -- The fields `fs` are those from number `i` on, of the struct at `prefix`.
  abbrev pub FieldsAt : List ℕ → ℕ → GoFields → Type 0
  FieldsAt prefix i fs = (k : ℕ) → descend root (prefix ++ (i + k) ∷ []) ≡ nth_field fs k

  pub add_field-AllLocated :
      (f : Field) (b : Build) → Located f → AllLocated b → AllLocated (add_field f b)
  add_field-AllLocated f b l (h, k) = (All-append Located b.fields (f ∷ []) h (l, tt), k)

  keep_first-AllLocated :
      (parsed : Result SchemaError StructOptions) (b : Build)
      → AllLocated b
      → AllLocated (keep_first parsed b)
  keep_first-AllLocated (err e) b h = h
  keep_first-AllLocated (ok o) b h = h

  embedded_tag-AllLocated :
      (st : Text) (tag : Option Text) (b : Build)
      → AllLocated b
      → AllLocated (embedded_tag st tag b)
  unfolding embedded_tag
  embedded_tag-AllLocated st none b h = h
  embedded_tag-AllLocated st (some raw) b h = keep_first-AllLocated (parse_struct_tag st raw) b h

  add_relation-AllLocated :
      (target : Option Text) (st name : Text) (index : List ℕ) (r : RelationOptions) (t : GoType)
      (b : Build)
      → descend root index ≡ some (name, t)
      → AllLocated b
      → AllLocated (add_relation target st name index r b)
  add_relation-AllLocated none st name index r t b l h = h
  add_relation-AllLocated (some target) st name index r t b l (h, k) =
      (h, All-append RelationLocated b.relations _ k ((t, l), tt))

  add_tagged-AllLocated :
      (kind : FieldKind) (st name : Text) (index : List ℕ) (t : GoType) (tag : ParsedTag)
      (b : Build)
      → descend root index ≡ some (name, t)
      → AllLocated b
      → AllLocated (add_tagged kind st name index t tag b)
  unfolding build_relation
  add_tagged-AllLocated kind_relation st name index t tag b l h =
      add_relation-AllLocated (relation_target tag.relation.kind t) st name index tag.relation t b l
        h
  add_tagged-AllLocated kind_column st name index t tag b l h =
      if-elim AllLocated tag.column.skip b _ h (add_field-AllLocated _ b l h)

  add_parsed-AllLocated :
      (parsed : Result SchemaError ParsedTag) (st name : Text) (index : List ℕ) (t : GoType)
      (b : Build)
      → descend root index ≡ some (name, t)
      → AllLocated b
      → AllLocated (add_parsed parsed st name index t b)
  add_parsed-AllLocated (err e) st name index t b l h = h
  add_parsed-AllLocated (ok tag) st name index t b l h =
      add_tagged-AllLocated tag.kind st name index t tag b l h

  plain_field-AllLocated :
      (st name : Text) (index : List ℕ) (t : GoType) (raw : Option Text) (b : Build)
      → descend root index ≡ some (name, t)
      → AllLocated b
      → AllLocated (plain_field st name index t raw b)
  unfolding plain_field
  plain_field-AllLocated st name index t raw b =
      add_parsed-AllLocated (parse_field_tag st name (tag_text raw)) st name index t b

  pub here :
      (prefix : List ℕ) (i : ℕ) (fs : GoFields)
      → FieldsAt prefix i fs
      → descend root (prefix ++ i ∷ []) ≡ nth_field fs 0
  here prefix i fs at = ap (λ (n : ℕ). descend root (prefix ++ n ∷ [])) (omega arith) ∙ at 0

  pub next :
      (prefix : List ℕ) (i : ℕ) (name : Text) (a e : Bool) (tag : Option Text) (t : GoType)
      (fs : GoFields)
      → FieldsAt prefix i (field_then name a e tag t fs)
      → FieldsAt prefix (i + 1) fs
  next prefix i name a e tag t fs at k =
      ap (λ (n : ℕ). descend root (prefix ++ n ∷ [])) (omega arith) ∙ at (suc k)

  pub inside :
      (index : List ℕ) (name : Text) (facts : StructFacts) (fs : GoFields)
      → descend root index ≡ some (name, struct_ facts fs)
      → FieldsAt index 0 fs
  unfolding descend
  inside index name facts fs l k =
      descend-append root index ((0 + k) ∷ [])
      ∙ (ap (λ o. descend o ((0 + k) ∷ [])) l ∙ ap (nth_field fs) (omega arith))

  mutual
    unfolding walk_fields

    pub walk_fields-AllLocated :
        (st : Text) (prefix : List ℕ) (i : ℕ) (fs : GoFields) (b : Build)
        → FieldsAt prefix i fs
        → AllLocated b
        → AllLocated (walk_fields st prefix i fs b)
    walk_fields-AllLocated st prefix i no_fields b at h = h
    walk_fields-AllLocated st prefix i (field_then name a e tag t rest) b at h =
        let l = here prefix i (field_then name a e tag t rest) at in
        let index = prefix ++ i ∷ [] in
        walk_fields-AllLocated st prefix (i + 1) rest _ (next prefix i name a e tag t rest at) (
          if-elim AllLocated a _ _
            (if-elim AllLocated (is_pointer t) _ _ h (
              walk_type-AllLocated st name index t (embedded_tag st tag b) l
                (embedded_tag-AllLocated st tag b h)))
            (if-elim AllLocated e _ b (plain_field-AllLocated st name index t tag b l h) h))

    walk_type-AllLocated :
        (st name : Text) (index : List ℕ) (t : GoType) (b : Build)
        → descend root index ≡ some (name, t)
        → AllLocated b
        → AllLocated (walk_type st index t b)
    walk_type-AllLocated st name index (struct_ facts fs) b l h =
        walk_fields-AllLocated st index 0 fs b (inside index name facts fs l) h
    walk_type-AllLocated st name index (basic k) b l h = h
    walk_type-AllLocated st name index (pointer t) b l h = h
    walk_type-AllLocated st name index (slice t) b l h = h
