-- ===== src/Sql/Spec/Statements.antt =====
-- The four statements, as text and values.
use trails.Base.{
  ◌≡◌, refl, List, [], ◌∷◌, ◌++◌, map, arith, Text, codes, ok, Bool-cases, inl, inr, if◌then◌else◌,
}
use trails.Web.Header.{join}
use trails.Sql.Dialect.{Dialect}
use trails.Sql.Types.{Assignment, set, set_expr, Predicate, is_zero}
use trails.Sql.Render.{◌>>=◌, return, pieces, quote_table, render_predicate}
use trails.Sql.Clauses.{
  render_value, render_assignment, render_assignments, column_of, render_condition,
}
use trails.Sql.Update.{UpdateBuilder, DeleteBuilder, render_update, render_delete}
use trails.Sql.Spec.{
  Tok, chunk, value, piece_tok, separate, predicate_toks, Printed, Printed-append, Printed-join,
}
use trails.Sql.Spec.Faithful.{
  bind-Faithful, Faithful, FaithfulAll, Faithful-return, Faithful-map, FaithfulAll-map,
  Faithful-two, FaithfulAll-nil, FaithfulAll-cons,
}
use trails.Sql.Spec.Conditions.{raw-Faithful, render_predicate-Faithful}
use trails.Sql.Spec.Values.{values_of}

module _ {V : Type 0} where
  abbrev pub assigned : Assignment V → List V
  assigned (set c v) = v ∷ []
  assigned (set_expr c raw_sql raw_args) = raw_args

  abbrev pub all_assigned : List (Assignment V) → List V
  all_assigned [] = []
  all_assigned (a ∷ as') = assigned a ++ all_assigned as'

  abbrev pub value_toks : Assignment V → List (Tok V)
  value_toks (set c v) = value v ∷ []
  value_toks (set_expr c raw_sql raw_args) = map (piece_tok raw_args) (pieces raw_sql)

  abbrev pub condition_values : Predicate V → List V
  condition_values p = if is_zero p then [] else values_of p

  module _ (d : Dialect) where
    abbrev pub assignment_toks : Assignment V → List (Tok V)
    assignment_toks a =
        chunk (d.quote_ident (column_of a).name) ∷ chunk (codes " = ") ∷ value_toks a

    abbrev pub assignments_toks : List (Assignment V) → List (List (Tok V))
    assignments_toks [] = []
    assignments_toks (a ∷ as') = assignment_toks a ∷ assignments_toks as'

    abbrev pub condition_toks : Text → Predicate V → List (Tok V)
    condition_toks word p = if is_zero p then [] else chunk word ∷ predicate_toks d p

    pub render_value-Faithful :
        (a : Assignment V) → Faithful d (render_value d a) (value_toks a) (assigned a)
    unfolding render_value
    render_value-Faithful (set c v) = bind-Faithful d v
    render_value-Faithful (set_expr c raw_sql raw_args) = raw-Faithful d raw_sql raw_args

    render_assignment-Faithful :
        (a : Assignment V) → Faithful d (render_assignment d a) (assignment_toks a) (assigned a)
    unfolding render_assignment
    render_assignment-Faithful a =
        Faithful-map d (render_value d a) _ {us = assignment_toks a} (render_value-Faithful a)
          (λ args s p. (_, refl, (_, refl, p)))

    pub render_assignments-Faithful :
        (as' : List (Assignment V))
        → FaithfulAll d (render_assignments d as') (assignments_toks as') (all_assigned as')
    unfolding render_assignments
    render_assignments-Faithful [] = FaithfulAll-nil d
    render_assignments-Faithful (a ∷ as') =
        FaithfulAll-cons d (render_assignment d a) (render_assignments d as') (λ s. s)
          (render_assignment-Faithful a) (render_assignments-Faithful as') (λ args s p. p)

    pub render_condition-Faithful :
        (word : Text) (p : Predicate V)
        → Faithful d (render_condition d word p) (condition_toks word p) (condition_values p)
    unfolding render_condition
    render_condition-Faithful word p = elim (Bool-cases (is_zero p)) [
      | inl z ↦ rw z (Faithful-return d [] [] (λ args. refl))
      | inr n ↦ rw n (
          Faithful-map d (render_predicate d p) _ (render_predicate-Faithful d p)
            (λ args s q. (_, refl, q)))
    ]

    abbrev pub delete_toks : DeleteBuilder V → List (Tok V)
    delete_toks b =
        chunk (codes "DELETE FROM ")
        ∷ chunk (quote_table d b.table)
        ∷ condition_toks (codes " WHERE ") b.where_

    -- A DELETE that renders carries the values of its condition, and its text prints the statement.
    pub render_delete-Printed :
        (b : DeleteBuilder V) (s : Text) (args : List V)
        → render_delete d b ≡ ok (s, args)
        → (args ≡ condition_values b.where_) × Printed d args (delete_toks b) s
    unfolding render_delete
    render_delete-Printed b s args e =
        (Faithful-map d (render_condition d (codes " WHERE ") b.where_) _ {us = delete_toks b}
            (render_condition-Faithful (codes " WHERE ") b.where_)
            (λ args s p. (_, refl, (_, refl, p)))).renders
          [] args s e

    abbrev pub update_toks : UpdateBuilder V → List (Tok V)
    update_toks b =
        chunk (codes "UPDATE ")
        ∷ chunk (quote_table d b.table)
        ∷ chunk (codes " SET ")
        ∷ (separate (codes ", ") (assignments_toks b.assignments)
            ++ condition_toks (codes " WHERE ") b.where_)

    -- `SET` parts joined by commas, as one rendering.
    pub sets-Faithful :
        (as' : List (Assignment V))
        → Faithful d
            (do ss ← render_assignments d as'; return (join (codes ", ") ss))
            (separate (codes ", ") (assignments_toks as'))
            (all_assigned as')
    sets-Faithful as' =
        FaithfulAll-map d (render_assignments d as') (join (codes ", "))
          (render_assignments-Faithful as')
          (λ args. Printed-join d args (codes ", ") (assignments_toks as'))

    -- An UPDATE that renders carries the assigned values, then those of its condition.
    pub render_update-Printed :
        (b : UpdateBuilder V) (s : Text) (args : List V)
        → render_update d b ≡ ok (s, args)
        → (args ≡ all_assigned b.assignments ++ condition_values b.where_)
          × Printed d args (update_toks b) s
    unfolding render_update
    render_update-Printed b s args e =
        (Faithful-two d (do ss ← render_assignments d b.assignments; return (join (codes ", ") ss))
            (render_condition d (codes " WHERE ") b.where_)
            (λ sets condition.
              codes "UPDATE " ++ (quote_table d b.table ++ (codes " SET " ++ (sets ++ condition))))
            {ws = update_toks b} (sets-Faithful b.assignments)
            (render_condition-Faithful (codes " WHERE ") b.where_)
            (λ args sets condition p q. (
              _,
              refl,
              (
                _,
                refl,
                (
                  _,
                  refl,
                  Printed-append d args (separate (codes ", ") (assignments_toks b.assignments)) _ _
                      _ p q,
                ),
              ),
            ))).renders
          [] args s (ground arith)
