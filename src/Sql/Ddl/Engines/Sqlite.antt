-- ===== src/Sql/Ddl/Engines/Sqlite.antt =====
-- pack/dialect/sqlitedialect/ddl.go.
use trails.Base.{
  Bool, true, false, not, ◌&&◌, [], ◌∷◌, ◌++◌, if◌then◌else◌, Text, codes, concat, Result, ok, err,
  ◌>>=◌,
}
use trails.Pack.Types.{
  Kind, bool_kind, int_kind, int8_kind, int16_kind, int32_kind, int64_kind, uint_kind, uint8_kind,
  uint16_kind, uint32_kind, uint64_kind, float32_kind, float64_kind, string_kind, to_type, GoType,
  basic, struct_, slice, kind_of,
}
use trails.Sql.Dialect.{sqlite}
use trails.Sql.Ddl.{
  ColumnSpec, DdlError, no_type_mapping, not_an_integer, requires_table_rebuild,
  rename_index_unsupported, Ddl, not_null_sql, unique_sql, default_sql, sql_type_of,
}

abbrev quote : Text → Text
quote s = sqlite.quote_ident s

abbrev no_mapping : GoType → Result DdlError Text
no_mapping t = err (no_type_mapping (codes "sqlitedialect") t)

abbrev pub is_integer_kind : Kind → Bool
is_integer_kind int_kind = true
is_integer_kind int8_kind = true
is_integer_kind int16_kind = true
is_integer_kind int32_kind = true
is_integer_kind int64_kind = true
is_integer_kind uint_kind = true
is_integer_kind uint8_kind = true
is_integer_kind uint16_kind = true
is_integer_kind uint32_kind = true
is_integer_kind uint64_kind = true
is_integer_kind _ = false

abbrev real_or_text : Kind → Result DdlError Text
real_or_text string_kind = ok (codes "TEXT")
real_or_text float32_kind = ok (codes "REAL")
real_or_text float64_kind = ok (codes "REAL")
real_or_text k = no_mapping (basic k)

abbrev pub basic_type : Kind → Result DdlError Text
basic_type bool_kind = ok (codes "INTEGER")
basic_type k = if is_integer_kind k then ok (codes "INTEGER") else real_or_text k

unfoldable pub base_type : GoType → Result DdlError Text
base_type (basic k) = basic_type k
base_type (slice (to_type uint8_kind n)) = ok (codes "BLOB")
base_type (struct_ facts fs) =
    if facts.is_time then ok (codes "TEXT") else no_mapping (struct_ facts fs)
base_type t = no_mapping t

abbrev pub inlines_primary_key : ColumnSpec → Bool
inlines_primary_key spec = spec.primary_key && spec.auto_increment

abbrev pub inline_key : GoType → Result DdlError Text
inline_key t =
    if not (is_integer_kind (kind_of t))
    then err (not_an_integer t)
    else ok (codes "INTEGER PRIMARY KEY AUTOINCREMENT")

abbrev plain_definition : GoType → ColumnSpec → Result DdlError Text
plain_definition t spec = do
  sql_type ← sql_type_of spec (base_type t)
  ok (sql_type ++ (not_null_sql spec ++ (unique_sql spec ++ default_sql spec)))

unfoldable pub column_definition : GoType → ColumnSpec → Result DdlError Text
unfolding base_type
column_definition t spec =
    if spec.primary_key && spec.auto_increment then inline_key t else plain_definition t spec

abbrev exists_in_master : Text → Text
exists_in_master kind = concat (
    codes "SELECT EXISTS (SELECT 1 FROM sqlite_master WHERE type = '"
    ∷ kind
    ∷ codes "' AND name = "
    ∷ sqlite.placeholder 1
    ∷ codes ")"
    ∷ [])

unfoldable pub sqlite_ddl : Ddl
unfolding column_definition
sqlite_ddl = record {
  column_definition = column_definition;
  inlines_primary_key = inlines_primary_key;
  alter_column_sql = λ table column t spec. err requires_table_rebuild;
  drop_index_sql = λ table index. concat (codes "DROP INDEX " ∷ quote index ∷ []);
  rename_index_sql = λ table old new. err rename_index_unsupported;
  has_table_sql = λ table. (exists_in_master (codes "table"), table ∷ []);
  has_column_sql = λ table column. (
    concat (
        codes "SELECT EXISTS (SELECT 1 FROM pragma_table_info("
        ∷ sqlite.placeholder 1
        ∷ codes ") WHERE name = "
        ∷ sqlite.placeholder 2
        ∷ codes ")"
        ∷ []),
    table ∷ column ∷ [],
  );
  has_index_sql = λ table index. (exists_in_master (codes "index"), index ∷ []);
  has_constraint_sql = λ table name. (
    concat (
        codes "SELECT EXISTS (SELECT 1 FROM pragma_foreign_key_list("
        ∷ sqlite.placeholder 1
        ∷ codes ") WHERE "
        ∷ sqlite.placeholder 2
        ∷ codes " = 'fk_' || "
        ∷ sqlite.placeholder 3
        ∷ codes " || '_' || \"from\")"
        ∷ []),
    table ∷ name ∷ table ∷ [],
  );
  get_tables_sql =
      codes "SELECT name FROM sqlite_master WHERE type = 'table' AND name NOT LIKE 'sqlite_%' "
      ++ codes "ORDER BY name";
  column_types_sql = λ table. (
    concat (
        codes "SELECT name, type, (\"notnull\" = 0) AS nullable, (pk > 0) AS is_primary_key "
        ∷ codes "FROM pragma_table_info("
        ∷ sqlite.placeholder 1
        ∷ codes ") ORDER BY cid"
        ∷ []),
    table ∷ [],
  );
  current_database_sql = codes "SELECT file FROM pragma_database_list WHERE name = 'main'";
}
