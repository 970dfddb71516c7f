-- ===== src/Sql/Clauses.antt =====
-- pack/internal/sqlbuild/render.go, the clauses that are shared by the statements: assignments,
-- joins, orderings, and the WHERE and HAVING conditions.
use trails.Base.{List, [], ◌∷◌, ◌++◌, if◌then◌else◌, Text, codes, ◌===◌, Option, none, some, ℤ}
use trails.Base.Decimal.{format_int}
use trails.Web.Header.{join}
use trails.Sql.Dialect.{Dialect}
use trails.Sql.Types.{
  Column, Assignment, set, set_expr, OrderTerm, Predicate, is_zero, JoinKind, inner_join, left_join,
  Join,
}
use trails.Sql.Render.{
  Render, ◌>>=◌, return, bind, render_raw_fragment, quote_column, quote_table, render_predicate,
}

abbrev pub join_word : JoinKind → Text
join_word left_join = codes " LEFT JOIN "
join_word inner_join = codes " JOIN "

abbrev pub column_of : {V : Type 0} → Assignment V → Column
column_of (set c v) = c
column_of (set_expr c raw_sql raw_args) = c

module _ (d : Dialect) {V : Type 0} where
  -- The value of an assignment, as an INSERT row and an UPDATE render it.
  unfoldable pub render_value : Assignment V → Render V Text
  render_value (set c v) = bind d v
  render_value (set_expr c raw_sql raw_args) = render_raw_fragment d raw_sql raw_args

  unfoldable pub render_assignment : Assignment V → Render V Text
  unfolding render_value
  render_assignment a = do
    expr ← render_value a
    return (d.quote_ident (column_of a).name ++ (codes " = " ++ expr))

  unfoldable pub render_assignments : List (Assignment V) → Render V (List Text)
  unfolding render_assignment
  render_assignments [] = return []
  render_assignments (a ∷ as') = do
    s ← render_assignment a
    rest ← render_assignments as'
    return (s ∷ rest)

  unfoldable pub render_join : Join V → Render V Text
  render_join j = do
    on ← render_predicate d j.on
    return (join_word j.kind ++ (quote_table d j.table ++ (codes " ON " ++ on)))

  -- The loop over the joins, whose renderings follow one another.
  unfoldable pub render_joins : List (Join V) → Render V Text
  unfolding render_join
  render_joins [] = return []
  render_joins (j ∷ js) = do s ← render_join j; rest ← render_joins js; return (s ++ rest)

  -- " WHERE …" or " HAVING …", and nothing for an absent condition.
  unfoldable pub render_condition : Text → Predicate V → Render V Text
  render_condition word p =
      if is_zero p then return [] else do s ← render_predicate d p; return (word ++ s)

unfoldable pub render_order_term : Dialect → OrderTerm → Text
render_order_term d o =
    if o.raw === []
    then if o.desc
      then quote_column d o.col ++ codes " DESC"
      else quote_column d o.col ++ codes " ASC"
    else o.raw

-- A keyword and a list behind it, and nothing for an empty list.
abbrev pub listed : Text → List Text → Text
listed word [] = []
listed word (s ∷ ss) = word ++ join (codes ", ") (s ∷ ss)

abbrev pub counted : Text → Option ℤ → Text
counted word none = []
counted word (some n) = word ++ format_int n
