-- ===== src/Sql/Ddl.antt =====
-- pack/dialect/ddl.go: the schema-definition half of a dialect. The kinds of Go types arrive by
-- reflection, as in Pack/Types.
pub mod Engines
pub mod Statements
pub mod Tables
pub mod Scan
pub mod Listed
pub mod Names
pub mod Mapped
pub mod Defined
mod Tests
use trails.Base.{
  Bool, true, false, Option, none, some, List, [], ◌∷◌, ◌++◌, if◌then◌else◌, Text, codes, Result,
  ok,
}
use trails.Pack.Types.{GoType}

pub record ColumnSpec : Type 0 where
  pub primary_key : Bool
  pub auto_increment : Bool
  pub not_null : Bool
  pub unique : Bool
  pub has_default : Bool
  pub default_ : Text
  pub sql_type : Text

-- The errors of the dialects and of the builders; the first names the dialect.
pub data DdlError : Type 0 where
  no_type_mapping : Text → GoType → DdlError
  not_an_integer : GoType → DdlError
  requires_table_rebuild rename_index_unsupported : DdlError
  ddl_unsupported constraints_unsupported : Text → DdlError

-- The queries return their text and the values that they bind.
pub record Ddl : Type 0 where
  pub column_definition : GoType → ColumnSpec → Result DdlError Text
  pub inlines_primary_key : ColumnSpec → Bool
  pub alter_column_sql : Text → Text → GoType → ColumnSpec → Result DdlError Text
  pub drop_index_sql : Text → Text → Text
  pub rename_index_sql : Text → Text → Text → Result DdlError Text
  pub has_table_sql : Text → Text × List Text
  pub has_column_sql : Text → Text → Text × List Text
  pub has_index_sql : Text → Text → Text × List Text
  pub has_constraint_sql : Text → Text → Text × List Text
  pub get_tables_sql : Text
  pub column_types_sql : Text → Text × List Text
  pub current_database_sql : Text

-- `def += s` under a condition.
abbrev pub text_if : Bool → Text → Text
text_if b s = if b then s else []

abbrev pub not_null_sql : ColumnSpec → Text
not_null_sql spec = text_if spec.not_null (codes " NOT NULL")

abbrev pub unique_sql : ColumnSpec → Text
unique_sql spec = text_if spec.unique (codes " UNIQUE")

abbrev pub default_sql : ColumnSpec → Text
default_sql spec = text_if spec.has_default (codes " DEFAULT " ++ spec.default_)

abbrev given_or : Text → Result DdlError Text → Result DdlError Text
given_or [] inferred = inferred
given_or (c ∷ s) inferred = ok (c ∷ s)

-- The type of the tag, if there is one, else the one that the dialect infers.
abbrev pub sql_type_of : ColumnSpec → Result DdlError Text → Result DdlError Text
sql_type_of spec inferred = given_or spec.sql_type inferred
