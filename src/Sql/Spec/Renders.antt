-- ===== src/Sql/Spec/Renders.antt =====
-- Which statements render, what they carry, and what their texts print: pack/internal/sqlbuild's
-- `Build` methods, errors excluded.
use trails.Base.{◌≡◌, false, none, List, [], ◌++◌, arith, Text, length, ok, codes, not, ltb, ◌&&◌}
use trails.Web.Header.{join}
use trails.Sql.Dialect.{Dialect}
use trails.Sql.Render.{◌>>=◌, return, quote_table}
use trails.Sql.Clauses.{render_assignments, render_joins, render_condition}
use trails.Sql.Select
use trails.Sql.Insert
use trails.Sql.Update.{
  UpdateBuilder, DeleteBuilder, render_update, render_delete, update_clauses, delete_clauses,
}
use trails.Sql.Select.{SelectBuilder, lock_error}
use trails.Sql.Insert.{
  InsertBuilder, render_row, render_rows, render_values, column_names, update_sets, conflict_clause,
  has_conflict, mysql_style_conflict, conflict_target,
}
use trails.Sql.Spec.{Printed}
use trails.Sql.Spec.Statements.{
  condition_values, all_assigned, delete_toks, update_toks, render_delete-Printed,
  render_update-Printed,
}
use trails.Sql.Spec.Queries.{select_toks, select_values, render_select-Printed}
use trails.Sql.Spec.Conflicts.{conflict_values}
use trails.Sql.Spec.Inserts.{insert_toks, rows_values, render_insert-Printed}
use trails.Sql.Spec.Total.{IsRenderable, Succeeds, bind-Succeeds, map-Succeeds, two-Succeeds}
use trails.Sql.Spec.Parts.{
  AreAssignable, RowsAssignable, JoinsRenderable, shown, render_assignments-total,
  render_condition-total, render_joins-total, render_values-total, conflict_clause-total,
}

module _ (d : Dialect) {V : Type 0} where
  select-total :
      (b : SelectBuilder V)
      → JoinsRenderable d b.joins
      → IsRenderable d b.where_
      → IsRenderable d b.having
      → (args : List V) → Succeeds (Select.render_clauses d b) args
  unfolding Select.render_clauses
  select-total b j w h args =
      bind-Succeeds (render_joins d b.joins)
        (λ joins. do
          condition ← render_condition d (codes " WHERE ") b.where_
          having ← render_condition d (codes " HAVING ") b.having
          return (Select.select_text d b joins condition having))
        args (render_joins-total d b.joins j args)
        (λ joins later.
          two-Succeeds (render_condition d (codes " WHERE ") b.where_)
            (render_condition d (codes " HAVING ") b.having) (Select.select_text d b joins) later
            (render_condition-total d (codes " WHERE ") b.where_ w later)
            (render_condition-total d (codes " HAVING ") b.having h))

  -- A SELECT with consistent lock clauses that the dialect has, over renderable conditions,
  -- renders: it carries the values of its joins, of WHERE and of HAVING in this order, and its
  -- text prints the statement.
  pub render_select_lem :
      (b : SelectBuilder V)
      → lock_error d b ≡ none
      → JoinsRenderable d b.joins
      → IsRenderable d b.where_
      → IsRenderable d b.having
      → (s : Text) × (Select.render d b ≡ ok (s, select_values b))
        × Printed d (select_values b) (select_toks d b) s
  unfolding Select.render
  render_select_lem b e j w h =
      let done = select-total b j w h [] in
      let runs : Select.render d b ≡ ok (done.result, done.bound) = ground (arith, e, done.runs) in
      let (q, bound, printed) = render_select-Printed d b done.result done.bound runs in
      shown d (Select.render d b) (select_toks d b) done.result done.bound (select_values b) runs
        bound printed

  -- A DELETE over a renderable condition renders: it carries the values of its condition, and its
  -- text prints the statement.
  pub render_delete_lem :
      (b : DeleteBuilder V)
      → IsRenderable d b.where_
      → (s : Text) × (render_delete d b ≡ ok (s, condition_values b.where_))
        × Printed d (condition_values b.where_) (delete_toks d b) s
  unfolding render_delete delete_clauses
  render_delete_lem b h =
      let done =
        map-Succeeds (render_condition d (codes " WHERE ") b.where_)
          (λ condition. codes "DELETE FROM " ++ (quote_table d b.table ++ condition)) []
          (render_condition-total d (codes " WHERE ") b.where_ h []) in
      let (bound, printed) = render_delete-Printed d b done.result done.bound done.runs in
      shown d (render_delete d b) (delete_toks d b) done.result done.bound
        (condition_values b.where_) done.runs bound printed

  -- An UPDATE whose assignments and condition are renderable renders: it carries the assigned
  -- values, then those of its condition, and its text prints the statement.
  pub render_update_lem :
      (b : UpdateBuilder V)
      → AreAssignable b.assignments
      → IsRenderable d b.where_
      → (s : Text) × (render_update d b
          ≡ ok (s, all_assigned b.assignments ++ condition_values b.where_))
        × Printed d (all_assigned b.assignments ++ condition_values b.where_) (update_toks d b) s
  unfolding render_update update_clauses
  render_update_lem b a h =
      let done =
        two-Succeeds (render_assignments d b.assignments)
          (render_condition d (codes " WHERE ") b.where_)
          (λ sets condition.
            codes "UPDATE "
            ++ (quote_table d b.table ++ (codes " SET " ++ (join (codes ", ") sets ++ condition))))
          [] (render_assignments-total d b.assignments a [])
          (render_condition-total d (codes " WHERE ") b.where_ h) in
      let (bound, printed) = render_update-Printed d b done.result done.bound done.runs in
      shown d (render_update d b) (update_toks d b) done.result done.bound
        (all_assigned b.assignments ++ condition_values b.where_) done.runs bound printed

  -- An INSERT whose values are renderable, with a RETURNING clause only where the dialect has one,
  -- renders: it carries the values of its rows, then those of its conflict's update, and its text
  -- prints the statement.
  pub render_insert_lem :
      (b : InsertBuilder V)
      → (ltb 0 (length b.returning) && not d.supports_returning) ≡ false
      → RowsAssignable b.rows
      → AreAssignable b.conflict_update
      → (s : Text) × (Insert.render d b ≡ ok (s, rows_values b.rows ++ conflict_values b))
        × Printed d (rows_values b.rows ++ conflict_values b) (insert_toks d b) s
  unfolding Insert.render Insert.render_clauses
  render_insert_lem b e r u =
      let done =
        two-Succeeds (render_values d b.rows) (conflict_clause d b) (Insert.insert_text d b) []
          (render_values-total d b.rows r []) (conflict_clause-total d b u) in
      let runs : Insert.render d b ≡ ok (done.result, done.bound) = ground (arith, e, done.runs) in
      let (bound, printed) = render_insert-Printed d b done.result done.bound runs in
      shown d (Insert.render d b) (insert_toks d b) done.result done.bound
        (rows_values b.rows ++ conflict_values b) runs bound printed
