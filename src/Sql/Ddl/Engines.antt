-- ===== src/Sql/Ddl/Engines.antt =====
-- The file ddl.go of each of pack/dialect/pgdialect, mysqldialect and sqlitedialect.
pub mod Postgres
pub mod Mysql
pub mod Sqlite
use trails.Base.{ℕ}
use trails.Sql.Dialect.{Dialect, postgres, mysql, sqlite}
use trails.Sql.Ddl.{Ddl}
use trails.Sql.Ddl.Engines.Postgres.{postgres_ddl}
use trails.Sql.Ddl.Engines.Mysql.{mysql_ddl}
use trails.Sql.Ddl.Engines.Sqlite.{sqlite_ddl}

pub data Engine : Type 0 where
  on_postgres on_mysql on_sqlite : Engine

abbrev pub dialect_of : Engine → Dialect
dialect_of on_postgres = postgres
dialect_of on_mysql = mysql
dialect_of on_sqlite = sqlite

abbrev pub ddl_of : Engine → Ddl
ddl_of on_postgres = postgres_ddl
ddl_of on_mysql = mysql_ddl
ddl_of on_sqlite = sqlite_ddl

-- The byte that quotes a name.
abbrev pub quote_of : Engine → ℕ
quote_of on_postgres = b'"'
quote_of on_mysql = b'`'
quote_of on_sqlite = b'"'
