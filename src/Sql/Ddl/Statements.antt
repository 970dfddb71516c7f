-- ===== src/Sql/Ddl/Statements.antt =====
-- pack/internal/sqlbuild/column.go, constraint.go, index.go and table.go: the statements that change
-- a schema, but for CREATE TABLE. A dialect may implement the interface DDL or not; none of these
-- statements binds a value.
use trails.Base.{
  Bool, Option, none, some, List, [], ◌∷◌, map, if◌then◌else◌, Text, codes, concat, ◌===◌, Result,
  ok, err, ◌>>=◌,
}
use trails.Web.Header.{join}
use trails.Pack.Types.{GoType}
use trails.Sql.Types.{Table}
use trails.Sql.Dialect.{Dialect}
use trails.Sql.Ddl.{ColumnSpec, DdlError, ddl_unsupported, constraints_unsupported, Ddl, text_if}

pub record AddColumnBuilder : Type 0 where
  pub table : Table
  pub column : Text
  pub go_type : GoType
  pub spec : ColumnSpec

pub record DropColumnBuilder : Type 0 where
  pub table : Table
  pub column : Text

-- Also RenameIndexBuilder, which has the same fields.
pub record RenameBuilder : Type 0 where
  pub table : Table
  pub old_name : Text
  pub new_name : Text

pub record AlterColumnBuilder : Type 0 where
  pub table : Table
  pub column : Text
  pub go_type : GoType
  pub spec : ColumnSpec

pub record CreateConstraintBuilder : Type 0 where
  pub table : Table
  pub name : Text
  pub local_cols : List Text
  pub ref_table : Text
  pub ref_cols : List Text

pub record DropConstraintBuilder : Type 0 where
  pub table : Table
  pub name : Text

pub record CreateIndexBuilder : Type 0 where
  pub table : Table
  pub name : Text
  pub columns : List Text
  pub unique : Bool

pub record DropIndexBuilder : Type 0 where
  pub table : Table
  pub index : Text

pub record RenameTableBuilder : Type 0 where
  pub table : Table
  pub new_name : Text

pub create_index : Table → Text → List Text → CreateIndexBuilder
create_index t name columns = record {
  table = t;
  name = name;
  columns = columns;
  unique = Bool.false;
}

pub set_unique : CreateIndexBuilder → CreateIndexBuilder
set_unique b = record b { unique = Bool.true }

module _ (d : Dialect) where
  abbrev q : Text → Text
  q s = d.quote_ident s

  unfoldable pub quote_ident_list : List Text → Text
  quote_ident_list names = join (codes ", ") (map q names)

  abbrev alter_table : Table → List Text → Text
  alter_table t rest = concat (codes "ALTER TABLE " ∷ q t.name ∷ rest)

  -- A type assertion `d.(dialect.DDL)`.
  abbrev pub with_ddl : Option Ddl → (Ddl → Result DdlError Text) → Result DdlError Text
  with_ddl none f = err (ddl_unsupported d.name)
  with_ddl (some ddl) f = f ddl

  unfoldable pub render_add_column : Option Ddl → AddColumnBuilder → Result DdlError Text
  render_add_column engine b = with_ddl engine (λ ddl. do
    def ← ddl.column_definition b.go_type b.spec
    ok (alter_table b.table (codes " ADD COLUMN " ∷ q b.column ∷ codes " " ∷ def ∷ [])))

  unfoldable pub render_drop_column : DropColumnBuilder → Result DdlError Text
  render_drop_column b = ok (alter_table b.table (codes " DROP COLUMN " ∷ q b.column ∷ []))

  unfoldable pub render_rename_column : RenameBuilder → Result DdlError Text
  render_rename_column b = ok (
      alter_table b.table
        (codes " RENAME COLUMN " ∷ q b.old_name ∷ codes " TO " ∷ q b.new_name ∷ []))

  unfoldable pub render_alter_column : Option Ddl → AlterColumnBuilder → Result DdlError Text
  render_alter_column engine b =
      with_ddl engine (λ ddl. ddl.alter_column_sql b.table.name b.column b.go_type b.spec)

  unfoldable pub render_create_constraint : CreateConstraintBuilder → Result DdlError Text
  unfolding codes ◌===◌ quote_ident_list
  render_create_constraint b =
      if d.name === codes "sqlite"
      then err (constraints_unsupported d.name)
      else ok (
          alter_table b.table (
            codes " ADD CONSTRAINT "
            ∷ q b.name
            ∷ codes " FOREIGN KEY ("
            ∷ quote_ident_list b.local_cols
            ∷ codes ") REFERENCES "
            ∷ q b.ref_table
            ∷ codes " ("
            ∷ quote_ident_list b.ref_cols
            ∷ codes ")"
            ∷ []))

  abbrev pub drop_verb : Text
  drop_verb = if d.name === codes "mysql" then codes "DROP FOREIGN KEY" else codes "DROP CONSTRAINT"

  unfoldable pub render_drop_constraint : DropConstraintBuilder → Result DdlError Text
  unfolding codes ◌===◌
  render_drop_constraint b =
      if d.name === codes "sqlite"
      then err (constraints_unsupported d.name)
      else ok (alter_table b.table (codes " " ∷ drop_verb ∷ codes " " ∷ q b.name ∷ []))

  unfoldable pub render_create_index : CreateIndexBuilder → Result DdlError Text
  unfolding codes quote_ident_list
  render_create_index b = ok (
      concat (
        codes "CREATE "
        ∷ text_if b.unique (codes "UNIQUE ")
        ∷ codes "INDEX "
        ∷ q b.name
        ∷ codes " ON "
        ∷ q b.table.name
        ∷ codes " ("
        ∷ quote_ident_list b.columns
        ∷ codes ")"
        ∷ []))

  unfoldable pub render_drop_index : Option Ddl → DropIndexBuilder → Result DdlError Text
  render_drop_index engine b = with_ddl engine (λ ddl. ok (ddl.drop_index_sql b.table.name b.index))

  unfoldable pub render_rename_index : Option Ddl → RenameBuilder → Result DdlError Text
  render_rename_index engine b =
      with_ddl engine (λ ddl. ddl.rename_index_sql b.table.name b.old_name b.new_name)

  unfoldable pub render_drop_table : Table → Result DdlError Text
  render_drop_table t = ok (concat (codes "DROP TABLE " ∷ q t.name ∷ []))

  unfoldable pub render_rename_table : RenameTableBuilder → Result DdlError Text
  render_rename_table b = ok (alter_table b.table (codes " RENAME TO " ∷ q b.new_name ∷ []))
