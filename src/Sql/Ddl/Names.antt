-- ===== src/Sql/Ddl/Names.antt =====
-- A database that takes a schema statement apart finds the names that the builder was given.
use trails.Base.{◌≡◌, refl, Option, none, some, List, [], ◌∷◌, Text, codes, ◌===◌, Result, ok, err}
use trails.Sql.Types.{Table}
use trails.Sql.Dialect.{postgres, mysql, sqlite}
use trails.Sql.Ddl.{DdlError}
use trails.Sql.Ddl.Statements.{
  DropColumnBuilder, RenameBuilder, CreateConstraintBuilder, DropConstraintBuilder,
  CreateIndexBuilder, DropIndexBuilder, RenameTableBuilder, render_drop_column,
  render_rename_column, render_create_constraint, render_drop_constraint, render_create_index,
  render_drop_index, render_rename_index, render_drop_table, render_rename_table, quote_ident_list,
}
use trails.Sql.Ddl.Engines.{Engine, on_postgres, on_mysql, on_sqlite, dialect_of, ddl_of, quote_of}
use trails.Sql.Ddl.Engines.Postgres.{postgres_ddl}
use trails.Sql.Ddl.Engines.Mysql.{mysql_ddl}
use trails.Sql.Ddl.Engines.Sqlite.{sqlite_ddl}
use trails.Sql.Ddl.Scan.{Token, name, scan, scan-print}
use trails.Sql.Ddl.Listed.{
  w, index_tokens, constraint_tokens, quoted_list, index_scanned, constraint_scanned,
  index-Alternates, constraint-Alternates,
}

-- The statements that name things but define no column.
pub data Statement : Type 0 where
  drop_column : DropColumnBuilder → Statement
  rename_column : RenameBuilder → Statement
  drop_constraint : DropConstraintBuilder → Statement
  drop_index : DropIndexBuilder → Statement
  rename_index : RenameBuilder → Statement
  create_constraint : CreateConstraintBuilder → Statement
  create_index : CreateIndexBuilder → Statement
  drop_table : Table → Statement
  rename_table : RenameTableBuilder → Statement

pub render : Engine → Statement → Result DdlError Text
render e (drop_column b) = render_drop_column (dialect_of e) b
render e (rename_column b) = render_rename_column (dialect_of e) b
render e (drop_constraint b) = render_drop_constraint (dialect_of e) b
render e (drop_index b) = render_drop_index (dialect_of e) (some (ddl_of e)) b
render e (rename_index b) = render_rename_index (dialect_of e) (some (ddl_of e)) b
render e (create_constraint b) = render_create_constraint (dialect_of e) b
render e (create_index b) = render_create_index (dialect_of e) b
render e (drop_table t) = render_drop_table (dialect_of e) t
render e (rename_table b) = render_rename_table (dialect_of e) b

-- What the statement should say on the engine; `none` where the engine has no such statement.
pub shape : Engine → Statement → Option (List Token)
shape e (drop_column b) =
    some (w "ALTER TABLE " ∷ name b.table.name ∷ w " DROP COLUMN " ∷ name b.column ∷ [])
shape e (rename_column b) = some (
    w "ALTER TABLE "
    ∷ name b.table.name
    ∷ w " RENAME COLUMN "
    ∷ name b.old_name
    ∷ w " TO "
    ∷ name b.new_name
    ∷ [])
shape on_postgres (drop_constraint b) =
    some (w "ALTER TABLE " ∷ name b.table.name ∷ w " DROP CONSTRAINT " ∷ name b.name ∷ [])
shape on_mysql (drop_constraint b) =
    some (w "ALTER TABLE " ∷ name b.table.name ∷ w " DROP FOREIGN KEY " ∷ name b.name ∷ [])
shape on_sqlite (drop_constraint b) = none
shape on_postgres (drop_index b) = some (w "DROP INDEX " ∷ name b.index ∷ [])
shape on_mysql (drop_index b) =
    some (w "DROP INDEX " ∷ name b.index ∷ w " ON " ∷ name b.table.name ∷ [])
shape on_sqlite (drop_index b) = some (w "DROP INDEX " ∷ name b.index ∷ [])
shape on_postgres (rename_index b) =
    some (w "ALTER INDEX " ∷ name b.old_name ∷ w " RENAME TO " ∷ name b.new_name ∷ [])
shape on_mysql (rename_index b) = some (
    w "ALTER TABLE "
    ∷ name b.table.name
    ∷ w " RENAME INDEX "
    ∷ name b.old_name
    ∷ w " TO "
    ∷ name b.new_name
    ∷ [])
shape on_sqlite (rename_index b) = none
shape on_sqlite (create_constraint b) = none
shape on_postgres (create_constraint b) = some (constraint_tokens b)
shape on_mysql (create_constraint b) = some (constraint_tokens b)
shape e (create_index b) = some (index_tokens b.unique b)
shape e (drop_table t) = some (w "DROP TABLE " ∷ name t.name ∷ [])
shape e (rename_table b) =
    some (w "ALTER TABLE " ∷ name b.table.name ∷ w " RENAME TO " ∷ name b.new_name ∷ [])

-- What the database makes of a rendered statement; `none` where there is none.
abbrev pub understood : Engine → Result DdlError Text → Option (List Token)
understood e (err x) = none
understood e (ok text) = scan (quote_of e) text

-- On every engine, a database that takes a rendered statement apart finds the words of the
-- statement and exactly the names it was given, whatever bytes these hold; SQLite has no statement
-- to drop or create a constraint or to rename an index.
pub scan-render : (e : Engine) (s : Statement) → understood e (render e s) ≡ shape e s
unfolding quoted_list quote_ident_list render_create_index render_create_constraint render shape
    render_drop_column render_rename_column render_drop_constraint render_drop_index
    render_rename_index render_drop_table render_rename_table codes ◌===◌ postgres mysql sqlite
    postgres_ddl mysql_ddl sqlite_ddl
scan-render on_postgres (drop_column b) = scan-print b'"' _ (refl, (refl, tt))
scan-render on_mysql (drop_column b) = scan-print b'`' _ (refl, (refl, tt))
scan-render on_sqlite (drop_column b) = scan-print b'"' _ (refl, (refl, tt))
scan-render on_postgres (rename_column b) = scan-print b'"' _ (refl, (refl, (refl, tt)))
scan-render on_mysql (rename_column b) = scan-print b'`' _ (refl, (refl, (refl, tt)))
scan-render on_sqlite (rename_column b) = scan-print b'"' _ (refl, (refl, (refl, tt)))
scan-render on_postgres (drop_constraint b) = scan-print b'"' _ (refl, (refl, tt))
scan-render on_mysql (drop_constraint b) = scan-print b'`' _ (refl, (refl, tt))
scan-render on_sqlite (drop_constraint b) = refl
scan-render on_postgres (drop_index b) = scan-print b'"' _ (refl, tt)
scan-render on_mysql (drop_index b) = scan-print b'`' _ (refl, (refl, tt))
scan-render on_sqlite (drop_index b) = scan-print b'"' _ (refl, tt)
scan-render on_postgres (rename_index b) = scan-print b'"' _ (refl, (refl, tt))
scan-render on_mysql (rename_index b) = scan-print b'`' _ (refl, (refl, (refl, tt)))
scan-render on_sqlite (rename_index b) = refl
scan-render on_postgres (drop_table t) = scan-print b'"' _ (refl, tt)
scan-render on_mysql (drop_table t) = scan-print b'`' _ (refl, tt)
scan-render on_sqlite (drop_table t) = scan-print b'"' _ (refl, tt)
scan-render on_postgres (rename_table b) = scan-print b'"' _ (refl, (refl, tt))
scan-render on_mysql (rename_table b) = scan-print b'`' _ (refl, (refl, tt))
scan-render on_sqlite (rename_table b) = scan-print b'"' _ (refl, (refl, tt))
scan-render on_postgres (create_constraint b) = constraint_scanned b'"' b (
    constraint-Alternates b'"' b
      (refl, (refl, (refl, (refl, (refl, (refl, (refl, (refl, (refl, tt))))))))))
scan-render on_postgres (create_index b) =
    index_scanned b'"' b.unique b
      (index-Alternates b'"' b.unique b (refl, (refl, (refl, (refl, (refl, (refl, (refl, tt))))))))
scan-render on_mysql (create_constraint b) = constraint_scanned b'`' b (
    constraint-Alternates b'`' b
      (refl, (refl, (refl, (refl, (refl, (refl, (refl, (refl, (refl, tt))))))))))
scan-render on_mysql (create_index b) =
    index_scanned b'`' b.unique b
      (index-Alternates b'`' b.unique b (refl, (refl, (refl, (refl, (refl, (refl, (refl, tt))))))))
scan-render on_sqlite (create_constraint b) = refl
scan-render on_sqlite (create_index b) =
    index_scanned b'"' b.unique b
      (index-Alternates b'"' b.unique b (refl, (refl, (refl, (refl, (refl, (refl, (refl, tt))))))))
