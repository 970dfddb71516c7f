-- ===== src/Sql/Spec/Parts.antt =====
-- Which clauses of a statement render, whatever has been bound before.
use trails.Base.{
  ◌≡◌, ap, subst, ◌∙◌, if◌then◌else◌, Bool, true, false, List, [], ◌∷◌, ◌++◌, Text, length, Result,
  ok, Bool-cases, inl, inr, codes, not, ◌&&◌,
}
use trails.Web.Header.{join}
use trails.Sql.Dialect.{Dialect}
use trails.Sql.Types.{Assignment, set, set_expr, Predicate, is_zero, Join, BuildError}
use trails.Sql.Render.{Render, pieces, render_predicate, quote_table}
use trails.Sql.Clauses.{
  render_value, render_assignment, render_assignments, render_join, render_joins, render_condition,
  column_of, join_word,
}
use trails.Sql.Insert.{
  InsertBuilder, render_row, render_rows, render_values, column_names, update_sets, conflict_clause,
  has_conflict, mysql_style_conflict, conflict_target,
}
use trails.Sql.Spec.{Printed, Tok}
use trails.Sql.Spec.Total.{
  AreBound, IsRenderable, Succeeds, return-Succeeds, map-Succeeds, two-Succeeds, bind-total,
  raw-total, render_predicate-total,
}

abbrev pub IsAssignable : {V : Type 0} → Assignment V → Type 0
IsAssignable (set c v) = Unit {0}
IsAssignable (set_expr c raw_sql raw_args) = AreBound (length raw_args) (pieces raw_sql)

abbrev pub AreAssignable : {V : Type 0} → List (Assignment V) → Type 0
AreAssignable [] = Unit {0}
AreAssignable (a ∷ as') = IsAssignable a × AreAssignable as'

abbrev pub RowsAssignable : {V : Type 0} → List (List (Assignment V)) → Type 0
RowsAssignable [] = Unit {0}
RowsAssignable (row ∷ rows) = AreAssignable row × RowsAssignable rows

abbrev pub JoinsRenderable : {V : Type 0} → Dialect → List (Join V) → Type 0
JoinsRenderable d [] = Unit {0}
JoinsRenderable d (j ∷ js) = IsRenderable d j.on × JoinsRenderable d js

module _ (d : Dialect) {V : Type 0} where
  pub shown :
      (r : Result BuildError (Text × List V)) (ts : List (Tok V)) (s : Text) (bound vs : List V)
      → r ≡ ok (s, bound)
      → bound ≡ vs
      → Printed d bound ts s
      → (out : Text) × (r ≡ ok (out, vs)) × Printed d vs ts out
  shown r ts s bound vs e q p =
      (s, e ∙ ap (λ bs. ok (s, bs)) q, subst (λ bs. Printed d bs ts s) q p)

  pub render_value-total :
      (a : Assignment V) → IsAssignable a → (args : List V) → Succeeds (render_value d a) args
  unfolding render_value
  render_value-total (set c v) h args = bind-total d v args
  render_value-total (set_expr c raw_sql raw_args) h args = raw-total d raw_sql raw_args h args

  pub render_assignments-total :
      (as' : List (Assignment V))
      → AreAssignable as'
      → (args : List V) → Succeeds (render_assignments d as') args
  unfolding render_assignments render_assignment
  render_assignments-total [] h args = return-Succeeds _ args
  render_assignments-total (a ∷ as') (h, k) args =
      two-Succeeds (render_assignment d a) (render_assignments d as') (λ s rest. s ∷ rest) args
        (map-Succeeds (render_value d a)
          (λ expr. d.quote_ident (column_of a).name ++ (codes " = " ++ expr)) args
          (render_value-total a h args))
        (render_assignments-total as' k)

  pub render_condition-total :
      (word : Text) (p : Predicate V)
      → IsRenderable d p
      → (args : List V) → Succeeds (render_condition d word p) args
  unfolding render_condition
  render_condition-total word p h args = elim (Bool-cases (is_zero p)) [
    | inl z ↦ rw z (return-Succeeds [] args)
    | inr n ↦ rw n (
        map-Succeeds (render_predicate d p) (λ s. word ++ s) args
          (render_predicate-total d p h args))
  ]

  pub render_joins-total :
      (js : List (Join V))
      → JoinsRenderable d js
      → (args : List V) → Succeeds (render_joins d js) args
  unfolding render_joins render_join
  render_joins-total [] h args = return-Succeeds _ args
  render_joins-total (j ∷ js) (h, k) args =
      two-Succeeds (render_join d j) (render_joins d js) (λ s rest. s ++ rest) args
        (map-Succeeds (render_predicate d j.on)
          (λ on. join_word j.kind ++ (quote_table d j.table ++ (codes " ON " ++ on))) args
          (render_predicate-total d j.on h args))
        (render_joins-total js k)

  pub render_row-total :
      (row : List (Assignment V))
      → AreAssignable row
      → (args : List V) → Succeeds (render_row d row) args
  unfolding render_row
  render_row-total [] h args = return-Succeeds _ args
  render_row-total (a ∷ as') (h, k) args =
      two-Succeeds (render_value d a) (render_row d as') (λ s rest. s ∷ rest) args
        (render_value-total a h args) (render_row-total as' k)

  pub render_rows-total :
      (rows : List (List (Assignment V)))
      → RowsAssignable rows
      → (args : List V) → Succeeds (render_rows d rows) args
  unfolding render_rows
  render_rows-total [] h args = return-Succeeds _ args
  render_rows-total (row ∷ rows) (h, k) args =
      two-Succeeds (render_row d row) (render_rows d rows)
        (λ vals rest. (codes "(" ++ (join (codes ", ") vals ++ codes ")")) ∷ rest) args
        (render_row-total row h args) (render_rows-total rows k)

  pub render_values-total :
      (rows : List (List (Assignment V)))
      → RowsAssignable rows
      → (args : List V) → Succeeds (render_values d rows) args
  unfolding render_values
  render_values-total [] h args = return-Succeeds _ args
  render_values-total (row ∷ rows) h args =
      map-Succeeds (render_rows d (row ∷ rows))
        (λ strs.
          codes " ("
          ++ (join (codes ", ") (column_names d row)
              ++ (codes ") VALUES " ++ join (codes ", ") strs)))
        args (render_rows-total (row ∷ rows) h args)

  pub update_sets-total :
      (word : Text) (b : InsertBuilder V)
      → AreAssignable b.conflict_update
      → (args : List V) → Succeeds (update_sets d word b) args
  unfolding update_sets
  update_sets-total word b h args =
      map-Succeeds (render_assignments d b.conflict_update) (λ sets. word ++ join (codes ", ") sets)
        args (render_assignments-total b.conflict_update h args)

  pub if-Succeeds :
      (c : Bool) {m n : Render V Text} (args : List V)
      → Succeeds m args
      → Succeeds n args
      → Succeeds (if c then m else n) args
  if-Succeeds true args h k = h
  if-Succeeds false args h k = k

  pub conflict_clause-total :
      (b : InsertBuilder V)
      → AreAssignable b.conflict_update
      → (args : List V) → Succeeds (conflict_clause d b) args
  unfolding conflict_clause
  conflict_clause-total b h args =
      if-Succeeds (has_conflict d b && not (mysql_style_conflict d b)) args
        (if-Succeeds b.conflict_do_nothing args
          (return-Succeeds (conflict_target d b ++ codes " DO NOTHING") args)
          (update_sets-total (conflict_target d b ++ codes " DO UPDATE SET ") b h args))
        (if-Succeeds (mysql_style_conflict d b && not b.conflict_do_nothing) args
          (update_sets-total (codes " ON DUPLICATE KEY UPDATE ") b h args)
          (return-Succeeds [] args))
