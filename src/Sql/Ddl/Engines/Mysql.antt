-- ===== src/Sql/Ddl/Engines/Mysql.antt =====
-- pack/dialect/mysqldialect/ddl.go.
use trails.Base.{false, [], ◌∷◌, ◌++◌, if◌then◌else◌, Text, codes, concat, Result, ok, err, ◌>>=◌}
use trails.Pack.Types.{
  Kind, bool_kind, int_kind, int8_kind, int16_kind, int32_kind, int64_kind, uint_kind, uint8_kind,
  uint16_kind, uint32_kind, uint64_kind, float32_kind, float64_kind, string_kind, to_type, GoType,
  basic, struct_, slice,
}
use trails.Sql.Dialect.{mysql}
use trails.Sql.Ddl.{
  ColumnSpec, DdlError, no_type_mapping, Ddl, text_if, not_null_sql, unique_sql, default_sql,
  sql_type_of,
}

abbrev quote : Text → Text
quote s = mysql.quote_ident s

abbrev no_mapping : GoType → Result DdlError Text
no_mapping t = err (no_type_mapping (codes "mysqldialect") t)

abbrev pub basic_type : Kind → Result DdlError Text
basic_type bool_kind = ok (codes "TINYINT(1)")
basic_type int8_kind = ok (codes "INT")
basic_type int16_kind = ok (codes "INT")
basic_type int32_kind = ok (codes "INT")
basic_type uint8_kind = ok (codes "INT")
basic_type uint16_kind = ok (codes "INT")
basic_type uint32_kind = ok (codes "INT")
basic_type int_kind = ok (codes "BIGINT")
basic_type int64_kind = ok (codes "BIGINT")
basic_type uint_kind = ok (codes "BIGINT")
basic_type uint64_kind = ok (codes "BIGINT")
basic_type string_kind = ok (codes "VARCHAR(255)")
basic_type float32_kind = ok (codes "FLOAT")
basic_type float64_kind = ok (codes "DOUBLE")
basic_type k = no_mapping (basic k)

unfoldable pub base_type : GoType → Result DdlError Text
base_type (basic k) = basic_type k
base_type (slice (to_type uint8_kind n)) = ok (codes "BLOB")
base_type (struct_ facts fs) =
    if facts.is_time then ok (codes "DATETIME") else no_mapping (struct_ facts fs)
base_type t = no_mapping t

unfoldable pub column_definition : GoType → ColumnSpec → Result DdlError Text
unfolding base_type
column_definition t spec = do
  sql_type ← sql_type_of spec (base_type t)
  ok (
      concat (
        sql_type
        ∷ not_null_sql spec
        ∷ text_if spec.auto_increment (codes " AUTO_INCREMENT")
        ∷ unique_sql spec
        ∷ default_sql spec
        ∷ []))

unfoldable pub alter_column_sql : Text → Text → GoType → ColumnSpec → Result DdlError Text
unfolding column_definition
alter_column_sql table column t spec = do
  def ← column_definition t spec
  ok (
      concat (
        codes "ALTER TABLE "
        ∷ quote table
        ∷ codes " MODIFY COLUMN "
        ∷ quote column
        ∷ codes " "
        ∷ def
        ∷ []))

unfoldable pub mysql_ddl : Ddl
unfolding column_definition alter_column_sql
mysql_ddl = record {
  column_definition = column_definition;
  inlines_primary_key = λ spec. false;
  alter_column_sql = alter_column_sql;
  drop_index_sql =
      λ table index. concat (codes "DROP INDEX " ∷ quote index ∷ codes " ON " ∷ quote table ∷ []);
  rename_index_sql = λ table old new. ok (
      concat (
        codes "ALTER TABLE "
        ∷ quote table
        ∷ codes " RENAME INDEX "
        ∷ quote old
        ∷ codes " TO "
        ∷ quote new
        ∷ []));
  has_table_sql = λ table. (
    codes "SELECT EXISTS (SELECT 1 FROM information_schema.tables WHERE table_schema = "
        ++ codes "DATABASE() AND table_name = ?)",
    table ∷ [],
  );
  has_column_sql = λ table column. (
    codes "SELECT EXISTS (SELECT 1 FROM information_schema.columns WHERE table_schema = "
        ++ codes "DATABASE() AND table_name = ? AND column_name = ?)",
    table ∷ column ∷ [],
  );
  has_index_sql = λ table index. (
    codes "SELECT EXISTS (SELECT 1 FROM information_schema.statistics WHERE table_schema = "
        ++ codes "DATABASE() AND table_name = ? AND index_name = ?)",
    table ∷ index ∷ [],
  );
  has_constraint_sql = λ table name. (
    codes "SELECT EXISTS (SELECT 1 FROM information_schema.table_constraints WHERE table_schema = "
        ++ codes "DATABASE() AND table_name = ? AND constraint_name = ?)",
    table ∷ name ∷ [],
  );
  get_tables_sql =
      codes "SELECT table_name FROM information_schema.tables WHERE table_schema = DATABASE() "
      ++ codes "ORDER BY table_name";
  column_types_sql = λ table. (
    concat (
        codes "SELECT column_name, data_type, (is_nullable = 'YES') AS nullable, "
        ∷ codes "(column_key = 'PRI') AS is_primary_key\n"
        ∷ codes "\t\tFROM information_schema.columns\n"
        ∷ codes "\t\tWHERE table_schema = DATABASE() AND table_name = ?\n"
        ∷ codes "\t\tORDER BY ordinal_position"
        ∷ []),
    table ∷ [],
  );
  current_database_sql = codes "SELECT DATABASE()";
}
