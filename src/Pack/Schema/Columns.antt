-- ===== src/Pack/Schema/Columns.antt =====
-- The map by column finds the last field of a column.
use trails.Base.{
  ◌≡◌, refl, ap, ◌∙◌, Bool, true, false, Option, none, some, List, [], ◌∷◌, if◌then◌else◌, Text,
  ◌===◌, Table, lookup, insert, lookup-insert, Result, ok, err, subst,
}
use trails.Pack.Types.{StructFacts, GoFields}
use trails.Pack.Errors.{SchemaError}
use trails.Pack.Walk.{Field, Build}
use trails.Pack.Schema.{Schema, by_column, finish_with, finish, build_state, build}

abbrev or_else : Option Field → Option Field → Option Field
or_else none o = o
or_else (some f) o = some f

-- The last field of the column.
abbrev pub last_of : Text → List Field → Option Field
last_of c [] = none
last_of c (f ∷ fs) = or_else (last_of c fs) (if f.column === c then some f else none)

or_else-none : (o : Option Field) → or_else o none ≡ o
or_else-none none = refl
or_else-none (some f) = refl

found :
    (b : Bool) (f : Field) (o : Option Field)
    → (if b then some f else o) ≡ or_else (if b then some f else none) o
found true f o = refl
found false f o = refl

or_else_assoc : (o p q : Option Field) → or_else o (or_else p q) ≡ or_else (or_else o p) q
or_else_assoc none p q = refl
or_else_assoc (some f) p q = refl

lookup-by_column :
    (c : Text) (fs : List Field) (m : Table Field)
    → lookup c (by_column fs m) ≡ or_else (last_of c fs) (lookup c m)
unfolding by_column
lookup-by_column c [] m = refl
lookup-by_column c (f ∷ fs) m =
    lookup-by_column c fs (insert f.column f m)
    ∙ (ap (or_else (last_of c fs))
          (lookup-insert c f.column f m ∙ found (f.column === c) f (lookup c m))
        ∙ or_else_assoc (last_of c fs) (if f.column === c then some f else none) (lookup c m))

abbrev Indexed : Result (List SchemaError) Schema → Type 0
Indexed (err es) = Unit
Indexed (ok t) = (c : Text) → lookup c t.fields_by_column ≡ last_of c t.fields

finish_with-Indexed :
    (es : List SchemaError) (facts : StructFacts) (name : Text) (b : Build)
    → Indexed (finish_with es facts name b)
unfolding lookup
finish_with-Indexed (e ∷ es) facts name b = tt
finish_with-Indexed [] facts name b =
    λ c. lookup-by_column c b.fields [] ∙ or_else-none (last_of c b.fields)

-- In the table of a model, looking a column up finds the last field that has it, if there is one,
-- also where embedded structs and composite keys give several fields one column.
pub build-last_of :
    (facts : StructFacts) (fs : GoFields) (t : Schema) (c : Text)
    → build facts fs ≡ ok t
    → lookup c t.fields_by_column ≡ last_of c t.fields
unfolding build finish
build-last_of facts fs t c e =
    subst Indexed e
      (finish_with-Indexed (build_state facts fs).1.errs facts (build_state facts fs).0
        (build_state facts fs).1)
      c
