-- ===== src/Sql/Insert.antt =====
-- pack/internal/sqlbuild/insert.go.
use trails.Base.{
  Bool, true, false, not, ◌&&◌, List, [], ◌∷◌, ◌++◌, map, if◌then◌else◌, Text, codes, Result, err,
  ltb, length,
}
use trails.Web.Header.{join}
use trails.Sql.Dialect.{Dialect}
use trails.Sql.Types.{Table, Column, Assignment, BuildError, returning_unsupported}
use trails.Sql.Render.{Render, ◌>>=◌, return, quote_column}
use trails.Sql.Clauses.{render_value, column_of, render_assignments, listed}

pub record InsertBuilder (V : Type 0) : Type 0 where
  pub table : Table
  pub rows : List (List (Assignment V))
  pub returning : List Column
  pub conflict_cols : List Column
  pub conflict_do_nothing : Bool
  pub conflict_update : List (Assignment V)

pub insert : {V : Type 0} → Table → InsertBuilder V
insert t = record {
  table = t;
  rows = [];
  returning = [];
  conflict_cols = [];
  conflict_do_nothing = false;
  conflict_update = [];
}

module _ {V : Type 0} where
  pub values : List (Assignment V) → InsertBuilder V → InsertBuilder V
  values a b = record b { rows = b.rows ++ a ∷ [] }

  pub add_returning : List Column → InsertBuilder V → InsertBuilder V
  add_returning cols b = record b { returning = b.returning ++ cols }

  pub on_conflict_do_nothing : List Column → InsertBuilder V → InsertBuilder V
  on_conflict_do_nothing cols b = record b {
    conflict_cols = cols;
    conflict_do_nothing = true;
    conflict_update = [];
  }

  pub on_conflict_do_update : List Column → List (Assignment V) → InsertBuilder V → InsertBuilder V
  on_conflict_do_update cols assignments b = record b {
    conflict_cols = cols;
    conflict_do_nothing = false;
    conflict_update = assignments;
  }

  module _ (d : Dialect) where
    unfoldable pub render_row : List (Assignment V) → Render V (List Text)
    render_row [] = return []
    render_row (a ∷ as') = do s ← render_value d a; rest ← render_row as'; return (s ∷ rest)

    unfoldable pub render_rows : List (List (Assignment V)) → Render V (List Text)
    unfolding render_row
    render_rows [] = return []
    render_rows (row ∷ rows) = do
      vals ← render_row row
      rest ← render_rows rows
      return ((codes "(" ++ (join (codes ", ") vals ++ codes ")")) ∷ rest)

    unfoldable pub column_names : List (Assignment V) → List Text
    column_names row = map (λ a. d.quote_ident (column_of a).name) row

    -- The columns are those of the first row.
    unfoldable pub render_values : List (List (Assignment V)) → Render V Text
    unfolding render_rows column_names
    render_values [] = return []
    render_values (row ∷ rows) = do
      row_strs ← render_rows (row ∷ rows)
      return (
          codes " ("
          ++ (join (codes ", ") (column_names row)
              ++ (codes ") VALUES " ++ join (codes ", ") row_strs)))

    unfoldable pub has_conflict : InsertBuilder V → Bool
    has_conflict b = ltb 0 (length b.conflict_cols)

    unfoldable pub mysql_style_conflict : InsertBuilder V → Bool
    unfolding has_conflict
    mysql_style_conflict b = has_conflict b && not d.supports_on_conflict

    unfoldable pub update_sets : Text → InsertBuilder V → Render V Text
    update_sets word b = do
      sets ← render_assignments d b.conflict_update
      return (word ++ join (codes ", ") sets)

    unfoldable pub conflict_target : InsertBuilder V → Text
    conflict_target b =
        codes " ON CONFLICT ("
        ++ (join (codes ", ") (map (λ (c : Column). d.quote_ident c.name) b.conflict_cols)
            ++ codes ")")

    unfoldable pub conflict_clause : InsertBuilder V → Render V Text
    unfolding update_sets
    conflict_clause b =
        let target = conflict_target b in
        if has_conflict b && not (mysql_style_conflict b)
        then if b.conflict_do_nothing
          then return (target ++ codes " DO NOTHING")
          else update_sets (target ++ codes " DO UPDATE SET ") b
        else if mysql_style_conflict b && not b.conflict_do_nothing
        then update_sets (codes " ON DUPLICATE KEY UPDATE ") b
        else return []

    unfoldable pub insert_word : InsertBuilder V → Text
    insert_word b =
        if mysql_style_conflict b && b.conflict_do_nothing
        then codes "INSERT IGNORE INTO "
        else codes "INSERT INTO "

    -- The statement around its two rendered parts.
    abbrev pub insert_text : InsertBuilder V → Text → Text → Text
    insert_text b rows conflict =
        insert_word b
        ++ (d.quote_ident b.table.name
            ++ (rows
                ++ (conflict ++ listed (codes " RETURNING ") (map (quote_column d) b.returning))))

    unfoldable pub render_clauses : InsertBuilder V → Render V Text
    unfolding render_values conflict_clause insert_word mysql_style_conflict
    render_clauses b = do
      rows ← render_values b.rows
      conflict ← conflict_clause b
      return (insert_text b rows conflict)

    unfoldable pub render : InsertBuilder V → Result BuildError (Text × List V)
    unfolding render_clauses
    render b =
        if ltb 0 (length b.returning) && not d.supports_returning
        then err (returning_unsupported d.name)
        else render_clauses b []
