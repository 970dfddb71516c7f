-- ===== src/Sql.antt =====
-- pack/dialect and pack/internal/sqlbuild: the dialects, and the builders of SQL statements.
pub mod Dialect
pub mod Types
pub mod Render
pub mod Clauses
pub mod Select
pub mod Insert
pub mod Update
pub mod Spec
pub mod Ddl
mod Tests
