-- ===== src/Sql/Ddl/Defined.antt =====
-- Which tables a dialect can define, and how it fails on the others.
use trails.Base.{
  is_some, ap₂, ◌≡◌, refl, ap, ◌∙◌, Bool, true, not, ◌&&◌, Option, none, some, List, [], ◌∷◌, ◌++◌,
  Text, codes, if◌then◌else◌, Result, ok, err, ◌>>=◌,
}
use trails.Sql.Dialect.{Dialect}
use trails.Sql.Ddl.{DdlError, Ddl}
use trails.Sql.Ddl.Engines.{Engine, dialect_of, ddl_of}
use trails.Sql.Ddl.Tables.{
  DdlColumn, CreateTableBuilder, is_trailing_key, column_parts, render_columns, render_create_table,
}
use trails.Sql.Ddl.Mapped.{is_ok, error_of, is_definable, definition-is_definable}

abbrev pub all_definable : Engine → List DdlColumn → Bool
all_definable e [] = true
all_definable e (c ∷ cs) = is_definable e c.go_type c.spec && all_definable e cs

abbrev or_first : Result DdlError Text → Option DdlError → Option DdlError
or_first (err x) later = some x
or_first (ok def) later = later

-- The error of the first column that cannot be defined.
abbrev pub first_error : Ddl → List DdlColumn → Option DdlError
first_error ddl [] = none
first_error ddl (c ∷ cs) = or_first (ddl.column_definition c.go_type c.spec) (first_error ddl cs)

module _ (d : Dialect) (ddl : Ddl) where
  with_definition :
      DdlColumn
      → Result DdlError Text
      → Result DdlError (List Text × List Text)
      → Result DdlError (List Text × List Text)
  with_definition c def rest = def >>= (λ x. rest >>= (λ (parts, keys). ok (
    (d.quote_ident c.name ++ (codes " " ++ x)) ∷ parts,
    if is_trailing_key d ddl c.spec then c.name ∷ keys else keys,
  )))

  with_definition-error_of :
      (c : DdlColumn) (def : Result DdlError Text) (rest : Result DdlError (List Text × List Text))
      → error_of (with_definition c def rest) ≡ or_first def (error_of rest)
  unfolding with_definition
  with_definition-error_of c (err x) rest = refl
  with_definition-error_of c (ok x) (err y) = refl
  with_definition-error_of c (ok x) (ok p) = refl

  column_parts-error_of :
      (cs : List DdlColumn) → error_of (column_parts d ddl cs) ≡ first_error ddl cs
  unfolding column_parts with_definition
  column_parts-error_of [] = refl
  column_parts-error_of (c ∷ cs) =
      with_definition-error_of c (ddl.column_definition c.go_type c.spec) (column_parts d ddl cs)
      ∙ ap (or_first (ddl.column_definition c.go_type c.spec)) (column_parts-error_of cs)

  bound-error_of :
      {A B : Type 0} (r : Result DdlError A) (f : A → B)
      → error_of (r >>= λ a. ok (f a)) ≡ error_of r
  bound-error_of (ok a) f = refl
  bound-error_of (err e) f = refl

  render_columns-error_of :
      (b : CreateTableBuilder) → error_of (render_columns d ddl b) ≡ first_error ddl b.columns
  unfolding render_columns
  render_columns-error_of b =
      bound-error_of (column_parts d ddl b.columns) _ ∙ column_parts-error_of b.columns

is_ok-error_of : {A : Type 0} (r : Result DdlError A) → is_ok r ≡ not (is_some (error_of r))
is_ok-error_of (ok a) = refl
is_ok-error_of (err e) = refl

or_first-is_some :
    (r : Result DdlError Text) (later : Option DdlError)
    → not (is_some (or_first r later)) ≡ (is_ok r && not (is_some later))
or_first-is_some (ok x) later = refl
or_first-is_some (err x) later = refl

first_error-all_definable :
    (e : Engine) (cs : List DdlColumn)
    → not (is_some (first_error (ddl_of e) cs)) ≡ all_definable e cs
first_error-all_definable e [] = refl
first_error-all_definable e (c ∷ cs) =
    or_first-is_some ((ddl_of e).column_definition c.go_type c.spec) (first_error (ddl_of e) cs)
    ∙ ap₂ (λ (x : Bool) (y : Bool). x && y) (definition-is_definable e c.go_type c.spec)
        (first_error-all_definable e cs)

-- On every engine, CREATE TABLE renders exactly if each column is definable, and fails with the
-- error of the first column that is not.
pub render_create_table-is_ok :
    (e : Engine) (b : CreateTableBuilder)
    → let rendered = render_create_table (dialect_of e) (some (ddl_of e)) b in
      (is_ok rendered ≡ all_definable e b.columns)
      × (error_of rendered ≡ first_error (ddl_of e) b.columns)
unfolding render_create_table
render_create_table-is_ok e b =
    let failed = render_columns-error_of (dialect_of e) (ddl_of e) b in
    (
      is_ok-error_of (render_columns (dialect_of e) (ddl_of e) b)
          ∙ (ap (λ o. not (is_some o)) failed ∙ first_error-all_definable e b.columns),
      failed,
    )
