-- ===== src/Sql/Update.antt =====
-- pack/internal/sqlbuild/update.go and delete.go.
use trails.Base.{List, [], ◌++◌, Text, codes, Result}
use trails.Web.Header.{join}
use trails.Sql.Dialect.{Dialect}
use trails.Sql.Types.{Table, Assignment, Predicate, absent, and_join, BuildError}
use trails.Sql.Render.{Render, ◌>>=◌, return, quote_table}
use trails.Sql.Clauses.{render_assignments, render_condition}

pub record UpdateBuilder (V : Type 0) : Type 0 where
  pub table : Table
  pub assignments : List (Assignment V)
  pub where_ : Predicate V

pub record DeleteBuilder (V : Type 0) : Type 0 where
  pub table : Table
  pub where_ : Predicate V

pub update : {V : Type 0} → Table → UpdateBuilder V
update t = record { table = t; assignments = []; where_ = absent }

pub delete : {V : Type 0} → Table → DeleteBuilder V
delete t = record { table = t; where_ = absent }

module _ {V : Type 0} where
  pub add_set : List (Assignment V) → UpdateBuilder V → UpdateBuilder V
  add_set a b = record b { assignments = b.assignments ++ a }

  pub add_update_where : Predicate V → UpdateBuilder V → UpdateBuilder V
  add_update_where p b = record b { where_ = and_join b.where_ p }

  pub add_delete_where : Predicate V → DeleteBuilder V → DeleteBuilder V
  add_delete_where p b = record b { where_ = and_join b.where_ p }

  unfoldable pub update_clauses : Dialect → UpdateBuilder V → Render V Text
  update_clauses d b = do
    sets ← render_assignments d b.assignments
    condition ← render_condition d (codes " WHERE ") b.where_
    return (
        codes "UPDATE "
        ++ (quote_table d b.table ++ (codes " SET " ++ (join (codes ", ") sets ++ condition))))

  unfoldable pub render_update : Dialect → UpdateBuilder V → Result BuildError (Text × List V)
  unfolding update_clauses
  render_update d b = update_clauses d b []

  unfoldable pub delete_clauses : Dialect → DeleteBuilder V → Render V Text
  delete_clauses d b = do
    condition ← render_condition d (codes " WHERE ") b.where_
    return (codes "DELETE FROM " ++ (quote_table d b.table ++ condition))

  unfoldable pub render_delete : Dialect → DeleteBuilder V → Result BuildError (Text × List V)
  unfolding delete_clauses
  render_delete d b = delete_clauses d b []
