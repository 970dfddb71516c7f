-- ===== src/Sql/Ddl/Tests.antt =====
-- Tables of the three engines.
use trails.Base.{◌≡◌, refl, Bool, true, false, some, [], ◌∷◌, codes, ok}
use trails.Web.Header.{join}
use trails.Pack.Types.{int64_kind, string_kind, basic}
use trails.Sql.Ddl.Engines.Postgres.{postgres_ddl}
use trails.Sql.Ddl.Engines.Sqlite.{sqlite_ddl}
use trails.Sql.Dialect.{sqlite, postgres, quote_with}
use trails.Sql.Ddl.{ColumnSpec}
use trails.Sql.Ddl.Engines.{on_sqlite, on_postgres, on_mysql, dialect_of, ddl_of}
use trails.Sql.Ddl.Tables.{CreateTableBuilder, render_create_table}
use trails.Sql.Ddl.Mapped.{is_ok, error_of}
use trails.Sql.Ddl.Defined.{all_definable, first_error, render_create_table-is_ok}
use trails.Sql.Ddl.Names.{Statement, create_index, render, shape, understood, scan-render}

abbrev key_spec : Bool → ColumnSpec
key_spec auto = record {
  primary_key = true;
  auto_increment = auto;
  not_null = true;
  unique = false;
  has_default = false;
  default_ = [];
  sql_type = [];
}

abbrev members : CreateTableBuilder
members = record {
  table = record { name = codes "t"; alias = [] };
  if_not_exists = false;
  columns =
      (record { name = codes "id"; go_type = basic int64_kind; spec = key_spec true })
      ∷ (record { name = codes "team"; go_type = basic string_kind; spec = key_spec false })
      ∷ [];
}

-- Two primary keys, which SQLite refuses.
sqlite_keys :
    render_create_table (dialect_of on_sqlite) (some (ddl_of on_sqlite)) members
    ≡ ok (
        codes
          "CREATE TABLE \"t\" (\"id\" INTEGER PRIMARY KEY AUTOINCREMENT, \"team\" TEXT NOT NULL, PRIMARY KEY (\"team\"))")
unfolding codes sqlite render_create_table sqlite_ddl quote_with join
sqlite_keys = refl

postgres_keys :
    render_create_table (dialect_of on_postgres) (some (ddl_of on_postgres)) members
    ≡ ok (
        codes
          "CREATE TABLE \"t\" (\"id\" BIGSERIAL NOT NULL, \"team\" TEXT NOT NULL, PRIMARY KEY (\"id\", \"team\"))")
unfolding codes postgres render_create_table postgres_ddl quote_with join
postgres_keys = refl

-- SERIAL is no type that a column can be altered to.
postgres_serial :
    (ddl_of on_postgres).alter_column_sql
      (codes "t")
      (codes "id")
      (basic int64_kind)
      (key_spec true)
    ≡ ok (
        codes
          "ALTER TABLE \"t\" ALTER COLUMN \"id\" TYPE BIGSERIAL, ALTER COLUMN \"id\" SET NOT NULL, ALTER COLUMN \"id\" DROP DEFAULT")
unfolding codes postgres render_create_table postgres_ddl quote_with join
postgres_serial = refl

render_create_table-is_ok_example :
    let rendered = render_create_table (dialect_of on_sqlite) (some (ddl_of on_sqlite)) members in
    (is_ok rendered ≡ all_definable on_sqlite members.columns)
    × (error_of rendered ≡ first_error (ddl_of on_sqlite) members.columns)
render_create_table-is_ok_example = render_create_table-is_ok on_sqlite members

abbrev by_name : Statement
by_name = create_index (record {
  table = record { name = codes "a\"; DROP TABLE b; --"; alias = [] };
  name = codes "by_name";
  columns = codes "name" ∷ codes "id" ∷ [];
  unique = true;
})

scan-render_example : understood on_mysql (render on_mysql by_name) ≡ shape on_mysql by_name
scan-render_example = scan-render on_mysql by_name
