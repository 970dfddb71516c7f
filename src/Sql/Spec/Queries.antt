-- ===== src/Sql/Spec/Queries.antt =====
-- SELECT, as text and values.
use trails.Base.{
  ◌≡◌, refl, List, [], ◌∷◌, ◌++◌, map, arith, Text, codes, ok, inl, inr, if◌then◌else◌, none,
  Option-cases,
}
use trails.Sql.Dialect.{Dialect}
use trails.Sql.Types.{Join}
use trails.Sql.Render.{quote_column, quote_table, render_predicate}
use trails.Sql.Clauses.{
  render_join, render_joins, join_word, render_condition, listed, counted, render_order_term,
}
use trails.Sql.Select
use trails.Sql.Select.{SelectBuilder, lock_error, select_list, lock_clause}
use trails.Sql.Spec.{Tok, chunk, predicate_toks, Printed, Printed-append}
use trails.Sql.Spec.Faithful.{Faithful, Faithful-return, Faithful-map, Faithful-two, Faithful-three}
use trails.Sql.Spec.Conditions.{render_predicate-Faithful, alone}
use trails.Sql.Spec.Values.{values_of}
use trails.Sql.Spec.Statements.{condition_toks, condition_values, render_condition-Faithful}

module _ (d : Dialect) {V : Type 0} where
  abbrev pub join_toks : Join V → List (Tok V)
  join_toks j =
      chunk (join_word j.kind)
      ∷ chunk (quote_table d j.table)
      ∷ chunk (codes " ON ")
      ∷ predicate_toks d j.on

  abbrev pub joins_toks : List (Join V) → List (Tok V)
  joins_toks [] = []
  joins_toks (j ∷ js) = join_toks j ++ joins_toks js

  render_join-Faithful : (j : Join V) → Faithful d (render_join d j) (join_toks j) (values_of j.on)
  unfolding render_join
  render_join-Faithful j =
      Faithful-map d (render_predicate d j.on) _ {us = join_toks j}
        (render_predicate-Faithful d j.on) (λ args s p. (_, refl, (_, refl, (_, refl, p))))

abbrev pub joins_values : {V : Type 0} → List (Join V) → List V
joins_values [] = []
joins_values (j ∷ js) = values_of j.on ++ joins_values js

module _ (d : Dialect) {V : Type 0} where
  render_joins-Faithful :
      (js : List (Join V)) → Faithful d (render_joins d js) (joins_toks d js) (joins_values js)
  unfolding render_joins
  render_joins-Faithful [] = Faithful-return d [] [] (λ args. refl)
  render_joins-Faithful (j ∷ js) =
      Faithful-two d (render_join d j) (render_joins d js) (λ s rest. s ++ rest)
        (render_join-Faithful d j) (render_joins-Faithful js)
        (λ args s t. Printed-append d args (join_toks d j) (joins_toks d js) s t)

  -- The clauses in the order of the statement; the values stand in the joins, in WHERE and HAVING.
  abbrev pub select_toks : SelectBuilder V → List (Tok V)
  select_toks b =
      chunk (codes "SELECT ")
      ∷ chunk (if b.distinct then codes "DISTINCT " else [])
      ∷ chunk (select_list d b)
      ∷ chunk (codes " FROM ")
      ∷ chunk (quote_table d b.table)
      ∷ (joins_toks d b.joins
          ++ (condition_toks d (codes " WHERE ") b.where_
              ++ chunk (listed (codes " GROUP BY ") (map (quote_column d) b.group_by))
                ∷ (condition_toks d (codes " HAVING ") b.having
                    ++ chunk (listed (codes " ORDER BY ") (map (render_order_term d) b.order))
                      ∷ chunk (counted (codes " LIMIT ") b.limit)
                      ∷ chunk (counted (codes " OFFSET ") b.offset)
                      ∷ chunk (lock_clause b)
                      ∷ [])))

abbrev pub select_values : {V : Type 0} → SelectBuilder V → List V
select_values b = joins_values b.joins ++ (condition_values b.where_ ++ condition_values b.having)

module _ (d : Dialect) {V : Type 0} where
  select_clauses-Faithful :
      (b : SelectBuilder V)
      → Faithful d (Select.render_clauses d b) (select_toks d b) (select_values b)
  unfolding Select.render_clauses
  select_clauses-Faithful b =
      Faithful-three d (render_joins d b.joins) (render_condition d (codes " WHERE ") b.where_)
        (render_condition d (codes " HAVING ") b.having) _ {ws = select_toks d b}
        (render_joins-Faithful d b.joins) (render_condition-Faithful d (codes " WHERE ") b.where_)
        (render_condition-Faithful d (codes " HAVING ") b.having)
        (λ args r s t p q h. (
          _,
          refl,
          (
            _,
            refl,
            (
              _,
              refl,
              (
                _,
                refl,
                (
                  _,
                  refl,
                  Printed-append d args (joins_toks d b.joins) _ r _ p (
                      Printed-append d args (condition_toks d (codes " WHERE ") b.where_) _ s _ q (
                        _,
                        refl,
                        Printed-append d args (condition_toks d (codes " HAVING ") b.having) _ t _ h
                            (_, refl, (_, refl, (_, refl, alone d args (lock_clause b)))),
                      )),
                ),
              ),
            ),
          ),
        ))

  -- A SELECT that renders has consistent lock clauses, carries the values of its joins, of WHERE and
  -- of HAVING in this order, and its text prints the statement.
  pub render_select-Printed :
      (b : SelectBuilder V) (s : Text) (args : List V)
      → Select.render d b ≡ ok (s, args)
      → (lock_error d b ≡ none) × (args ≡ select_values b) × Printed d args (select_toks d b) s
  unfolding Select.render
  render_select-Printed b s args e = elim (Option-cases (lock_error d b)) [
    | inl q ↦
        let (v, p) = (select_clauses-Faithful b).renders [] args s (ground (arith, q)) in (q, v, p)
    | inr (x, q) ↦ absurd (ground (arith, q))
  ]
