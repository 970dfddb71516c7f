-- ===== src/Sql/Ddl/Tables.antt =====
-- pack/internal/sqlbuild/create_table.go.
use trails.Base.{
  Bool, true, false, not, ◌&&◌, Option, List, [], ◌∷◌, ◌++◌, map, if◌then◌else◌, Text, codes,
  concat, Result, ok, ◌>>=◌,
}
use trails.Web.Header.{join}
use trails.Pack.Types.{GoType}
use trails.Sql.Types.{Table}
use trails.Sql.Dialect.{Dialect}
use trails.Sql.Ddl.{ColumnSpec, DdlError, Ddl, text_if}
use trails.Sql.Ddl.Statements.{with_ddl}

pub record DdlColumn : Type 0 where
  pub name : Text
  pub go_type : GoType
  pub spec : ColumnSpec

pub record CreateTableBuilder : Type 0 where
  pub table : Table
  pub if_not_exists : Bool
  pub columns : List DdlColumn

pub create_table : Table → CreateTableBuilder
create_table t = record { table = t; if_not_exists = false; columns = [] }

pub set_if_not_exists : CreateTableBuilder → CreateTableBuilder
set_if_not_exists b = record b { if_not_exists = true }

pub add_column : DdlColumn → CreateTableBuilder → CreateTableBuilder
add_column c b = record b { columns = b.columns ++ c ∷ [] }

module _ (d : Dialect) (ddl : Ddl) where
  -- A key column that does not stand in its own definition.
  abbrev pub is_trailing_key : ColumnSpec → Bool
  is_trailing_key spec = spec.primary_key && not (ddl.inlines_primary_key spec)

  -- The loop over the columns: their parts, and the names of the trailing keys.
  unfoldable pub column_parts : List DdlColumn → Result DdlError (List Text × List Text)
  column_parts [] = ok ([], [])
  column_parts (c ∷ cs) = do
    def ← ddl.column_definition c.go_type c.spec
    (parts, keys) ← column_parts cs
    ok (
      (d.quote_ident c.name ++ (codes " " ++ def)) ∷ parts,
      if is_trailing_key c.spec then c.name ∷ keys else keys,
    )

  unfoldable pub key_part : List Text → List Text
  unfolding codes
  key_part [] = []
  key_part (k ∷ ks) =
      (codes "PRIMARY KEY ("
        ++ (join (codes ", ") (map (λ c. d.quote_ident c) (k ∷ ks)) ++ codes ")"))
      ∷ []

  unfoldable pub render_columns : CreateTableBuilder → Result DdlError Text
  unfolding column_parts key_part
  render_columns b = do
    (parts, keys) ← column_parts b.columns
    ok (
        concat (
          codes "CREATE TABLE "
          ∷ text_if b.if_not_exists (codes "IF NOT EXISTS ")
          ∷ d.quote_ident b.table.name
          ∷ codes " ("
          ∷ join (codes ", ") (parts ++ key_part keys)
          ∷ codes ")"
          ∷ []))

unfoldable pub render_create_table :
    Dialect → Option Ddl → CreateTableBuilder → Result DdlError Text
unfolding render_columns
render_create_table d engine b = with_ddl d engine (λ ddl. render_columns d ddl b)
