-- ===== src/Sql/Ddl/Engines/Postgres.antt =====
-- pack/dialect/pgdialect/ddl.go.
use trails.Base.{
  concat, Bool, false, List, [], ◌∷◌, ◌++◌, if◌then◌else◌, Text, codes, Result, ok, err, ◌>>=◌,
}
use trails.Web.Header.{join}
use trails.Pack.Types.{
  Kind, bool_kind, int_kind, int8_kind, int16_kind, int32_kind, int64_kind, uint_kind, uint8_kind,
  uint16_kind, uint32_kind, uint64_kind, float32_kind, float64_kind, string_kind, to_type, GoType,
  basic, struct_, slice,
}
use trails.Sql.Dialect.{postgres}
use trails.Sql.Ddl.{
  ColumnSpec, DdlError, no_type_mapping, Ddl, not_null_sql, unique_sql, default_sql, sql_type_of,
}

abbrev quote : Text → Text
quote s = postgres.quote_ident s

abbrev no_mapping : GoType → Result DdlError Text
no_mapping t = err (no_type_mapping (codes "pgdialect") t)

abbrev integer : Bool → Result DdlError Text
integer auto_increment = ok (if auto_increment then codes "SERIAL" else codes "INTEGER")

abbrev big_integer : Bool → Result DdlError Text
big_integer auto_increment = ok (if auto_increment then codes "BIGSERIAL" else codes "BIGINT")

abbrev pub basic_type : Bool → Kind → Result DdlError Text
basic_type a bool_kind = ok (codes "BOOLEAN")
basic_type a int8_kind = integer a
basic_type a int16_kind = integer a
basic_type a int32_kind = integer a
basic_type a uint8_kind = integer a
basic_type a uint16_kind = integer a
basic_type a uint32_kind = integer a
basic_type a int_kind = big_integer a
basic_type a int64_kind = big_integer a
basic_type a uint_kind = big_integer a
basic_type a uint64_kind = big_integer a
basic_type a string_kind = ok (codes "TEXT")
basic_type a float32_kind = ok (codes "REAL")
basic_type a float64_kind = ok (codes "DOUBLE PRECISION")
basic_type a k = no_mapping (basic k)

unfoldable pub base_type : Bool → GoType → Result DdlError Text
base_type a (basic k) = basic_type a k
base_type a (slice (to_type uint8_kind n)) = ok (codes "BYTEA")
base_type a (struct_ facts fs) =
    if facts.is_time then ok (codes "TIMESTAMPTZ") else no_mapping (struct_ facts fs)
base_type a t = no_mapping t

unfoldable pub column_definition : GoType → ColumnSpec → Result DdlError Text
unfolding base_type
column_definition t spec = do
  sql_type ← sql_type_of spec (base_type spec.auto_increment t)
  ok (sql_type ++ (not_null_sql spec ++ (unique_sql spec ++ default_sql spec)))

abbrev nullability : Bool → Text
nullability not_null = if not_null then codes " SET NOT NULL" else codes " DROP NOT NULL"

abbrev new_default : ColumnSpec → Text
new_default spec =
    if spec.has_default then codes " SET DEFAULT " ++ spec.default_ else codes " DROP DEFAULT"

abbrev alter_actions : Text → Text → ColumnSpec → List Text
alter_actions column sql_type spec =
    let action = codes "ALTER COLUMN " ++ quote column in
    (action ++ (codes " TYPE " ++ sql_type))
    ∷ (action ++ nullability spec.not_null)
    ∷ (action ++ new_default spec)
    ∷ []

unfoldable pub alter_column_sql : Text → Text → GoType → ColumnSpec → Result DdlError Text
unfolding base_type
alter_column_sql table column t spec = do
  sql_type ← sql_type_of spec (base_type spec.auto_increment t)
  ok (
      codes "ALTER TABLE "
      ++ (quote table ++ (codes " " ++ join (codes ", ") (alter_actions column sql_type spec))))

unfoldable pub postgres_ddl : Ddl
unfolding column_definition alter_column_sql
postgres_ddl = record {
  column_definition = column_definition;
  inlines_primary_key = λ spec. false;
  alter_column_sql = alter_column_sql;
  drop_index_sql = λ table index. concat (codes "DROP INDEX " ∷ quote index ∷ []);
  rename_index_sql = λ table old new.
      ok (concat (codes "ALTER INDEX " ∷ quote old ∷ codes " RENAME TO " ∷ quote new ∷ []));
  has_table_sql = λ table. (
    codes "SELECT EXISTS (SELECT 1 FROM information_schema.tables WHERE table_schema = "
        ++ codes "current_schema() AND table_name = $1)",
    table ∷ [],
  );
  has_column_sql = λ table column. (
    codes "SELECT EXISTS (SELECT 1 FROM information_schema.columns WHERE table_schema = "
        ++ codes "current_schema() AND table_name = $1 AND column_name = $2)",
    table ∷ column ∷ [],
  );
  has_index_sql = λ table index. (
    codes "SELECT EXISTS (SELECT 1 FROM pg_indexes WHERE schemaname = current_schema() AND "
        ++ codes "tablename = $1 AND indexname = $2)",
    table ∷ index ∷ [],
  );
  has_constraint_sql = λ table name. (
    codes "SELECT EXISTS (SELECT 1 FROM information_schema.table_constraints WHERE table_schema = "
        ++ codes "current_schema() AND table_name = $1 AND constraint_name = $2)",
    table ∷ name ∷ [],
  );
  get_tables_sql =
      codes "SELECT table_name FROM information_schema.tables WHERE table_schema = "
      ++ codes "current_schema() ORDER BY table_name";
  column_types_sql = λ table. (
    concat (
        codes "SELECT c.column_name, c.data_type, (c.is_nullable = 'YES') AS nullable,\n"
        ∷ codes "\t\tEXISTS (\n"
        ∷ codes "\t\t\tSELECT 1 FROM information_schema.table_constraints tc\n"
        ∷ codes "\t\t\tJOIN information_schema.key_column_usage kcu\n"
        ∷ codes "\t\t\t\tON tc.constraint_name = kcu.constraint_name "
        ∷ codes "AND tc.table_schema = kcu.table_schema\n"
        ∷ codes "\t\t\tWHERE tc.table_schema = current_schema() "
        ∷ codes "AND tc.table_name = c.table_name\n"
        ∷ codes "\t\t\t\tAND tc.constraint_type = 'PRIMARY KEY' "
        ∷ codes "AND kcu.column_name = c.column_name\n"
        ∷ codes "\t\t) AS is_primary_key\n"
        ∷ codes "\t\tFROM information_schema.columns c\n"
        ∷ codes "\t\tWHERE c.table_schema = current_schema() AND c.table_name = $1\n"
        ∷ codes "\t\tORDER BY c.ordinal_position"
        ∷ []),
    table ∷ [],
  );
  current_database_sql = codes "SELECT current_database()";
}
