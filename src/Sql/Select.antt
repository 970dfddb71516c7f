-- ===== src/Sql/Select.antt =====
-- pack/internal/sqlbuild/select.go. A method returns a new builder, as the Go methods do by
-- `clone` and `appendFresh`.
use trails.Base.{
  Bool, true, false, not, ◌&&◌, ◌||◌, List, [], ◌∷◌, ◌++◌, map, if◌then◌else◌, Text, codes, Option,
  none, some, Result, err, ℤ,
}
use trails.Web.Header.{join}
use trails.Sql.Dialect.{Dialect}
use trails.Sql.Types.{
  Table, Column, OrderTerm, Predicate, absent, and_join, inner_join, left_join, Join, BuildError,
  conflicting_lock_clause, skip_locked_requires_lock_clause, row_locking_unsupported,
}
use trails.Sql.Render.{Render, ◌>>=◌, return, quote_column, quote_table}
use trails.Sql.Clauses.{render_joins, render_condition, render_order_term, listed, counted}

pub record SelectBuilder (V : Type 0) : Type 0 where
  pub table : Table
  pub joins : List (Join V)
  pub distinct : Bool
  pub columns : List Column
  pub select_raw : List Text
  pub where_ : Predicate V
  pub group_by : List Column
  pub having : Predicate V
  pub order : List OrderTerm
  pub limit : Option ℤ
  pub offset : Option ℤ
  pub for_update : Bool
  pub for_share : Bool
  pub skip_locked : Bool

unfoldable pub select : {V : Type 0} → Table → SelectBuilder V
select t = record {
  table = t;
  joins = [];
  distinct = false;
  columns = [];
  select_raw = [];
  where_ = absent;
  group_by = [];
  having = absent;
  order = [];
  limit = none;
  offset = none;
  for_update = false;
  for_share = false;
  skip_locked = false;
}

abbrev star_if_empty : List Text → Text
star_if_empty [] = codes "*"
star_if_empty (s ∷ ss) = join (codes ", ") (s ∷ ss)

module _ {V : Type 0} where
  pub add_columns : List Column → SelectBuilder V → SelectBuilder V
  add_columns cols b = record b { columns = b.columns ++ cols }

  pub add_select_raw : Text → SelectBuilder V → SelectBuilder V
  add_select_raw fragment b = record b { select_raw = b.select_raw ++ fragment ∷ [] }

  pub set_distinct : SelectBuilder V → SelectBuilder V
  set_distinct b = record b { distinct = true }

  pub add_join : Table → Predicate V → SelectBuilder V → SelectBuilder V
  add_join t on b = record b {
    joins = b.joins ++ record { kind = inner_join; table = t; on = on } ∷ [];
  }

  pub add_left_join : Table → Predicate V → SelectBuilder V → SelectBuilder V
  add_left_join t on b = record b {
    joins = b.joins ++ record { kind = left_join; table = t; on = on } ∷ [];
  }

  unfoldable pub add_where : Predicate V → SelectBuilder V → SelectBuilder V
  add_where p b = record b { where_ = and_join b.where_ p }

  pub add_group_by : List Column → SelectBuilder V → SelectBuilder V
  add_group_by cols b = record b { group_by = b.group_by ++ cols }

  pub add_having : Predicate V → SelectBuilder V → SelectBuilder V
  add_having p b = record b { having = and_join b.having p }

  pub add_order_by : List OrderTerm → SelectBuilder V → SelectBuilder V
  add_order_by terms b = record b { order = b.order ++ terms }

  pub set_limit : ℤ → SelectBuilder V → SelectBuilder V
  set_limit n b = record b { limit = some n }

  pub set_offset : ℤ → SelectBuilder V → SelectBuilder V
  set_offset n b = record b { offset = some n }

  pub set_for_update : SelectBuilder V → SelectBuilder V
  set_for_update b = record b { for_update = true }

  pub set_for_share : SelectBuilder V → SelectBuilder V
  set_for_share b = record b { for_share = true }

  pub set_skip_locked : SelectBuilder V → SelectBuilder V
  set_skip_locked b = record b { skip_locked = true }

  -- The three refusals that stand before any rendering.
  unfoldable pub lock_error : Dialect → SelectBuilder V → Option BuildError
  lock_error d b =
      if b.for_update && b.for_share
      then some conflicting_lock_clause
      else if b.skip_locked && (not b.for_update && not b.for_share)
      then some skip_locked_requires_lock_clause
      else if (b.for_update || b.for_share) && not d.supports_row_locking
      then some (row_locking_unsupported d.name)
      else none

  unfoldable pub select_list : Dialect → SelectBuilder V → Text
  select_list d b = star_if_empty (map (quote_column d) b.columns ++ b.select_raw)

  unfoldable pub lock_clause : SelectBuilder V → Text
  lock_clause b =
      (if b.for_update then codes " FOR UPDATE" else if b.for_share then codes " FOR SHARE" else [])
      ++ (if b.skip_locked then codes " SKIP LOCKED" else [])

  -- The statement around its three rendered parts.
  abbrev pub select_text : Dialect → SelectBuilder V → Text → Text → Text → Text
  select_text d b joins condition having =
      codes "SELECT "
      ++ ((if b.distinct then codes "DISTINCT " else [])
          ++ (select_list d b
              ++ (codes " FROM "
                  ++ (quote_table d b.table
                      ++ (joins
                          ++ (condition
                              ++ (listed (codes " GROUP BY ") (map (quote_column d) b.group_by)
                                  ++ (having
                                      ++ (listed (codes " ORDER BY ")
                                            (map (render_order_term d) b.order)
                                          ++ (counted (codes " LIMIT ") b.limit
                                              ++ (counted (codes " OFFSET ") b.offset
                                                  ++ lock_clause b)))))))))))

  -- The statement, clause by clause, once the lock clauses have been judged.
  unfoldable pub render_clauses : Dialect → SelectBuilder V → Render V Text
  unfolding select_list lock_clause
  render_clauses d b = do
    joins ← render_joins d b.joins
    condition ← render_condition d (codes " WHERE ") b.where_
    having ← render_condition d (codes " HAVING ") b.having
    return (select_text d b joins condition having)

  unfoldable pub render : Dialect → SelectBuilder V → Result BuildError (Text × List V)
  unfolding lock_error render_clauses
  render d b = elim (lock_error d b) [ some e ↦ err e | none ↦ render_clauses d b [] ]
