-- ===== src/Sql/Spec/Inserts.antt =====
-- INSERT, as text and values.
use trails.Base.{
  ◌≡◌, refl, ap, List, [], ◌∷◌, ◌++◌, map, arith, Text, codes, ok, if◌then◌else◌, ltb, length,
}
use trails.Web.Header.{join}
use trails.Sql.Dialect.{Dialect}
use trails.Sql.Types.{Assignment}
use trails.Sql.Render.{◌>>=◌, return, quote_column}
use trails.Sql.Clauses.{column_of, render_value, listed}
use trails.Sql.Insert
use trails.Sql.Insert.{
  InsertBuilder, render_row, render_rows, render_values, column_names, has_conflict,
  mysql_style_conflict, update_sets, conflict_target, conflict_clause, insert_word,
}
use trails.Sql.Spec.{Tok, chunk, separate, Printed, Printed-append, Printed-join}
use trails.Sql.Spec.Faithful.{
  Faithful, FaithfulAll, Faithful-return, FaithfulAll-map, Faithful-two, FaithfulAll-nil,
  FaithfulAll-cons,
}
use trails.Sql.Spec.Conditions.{alone}
use trails.Sql.Spec.Conflicts.{conflict_values, conflict_toks, conflict_clause-Faithful}
use trails.Sql.Spec.Names.{chunks, listed_toks, chunks-Printed, listed-Printed}
use trails.Sql.Spec.Statements.{all_assigned, value_toks, render_value-Faithful}

abbrev in_parens : List Text → Text
in_parens vals = codes "(" ++ (join (codes ", ") vals ++ codes ")")

module _ {V : Type 0} where
  abbrev pub values_toks : List (Assignment V) → List (List (Tok V))
  values_toks [] = []
  values_toks (a ∷ as') = value_toks a ∷ values_toks as'

  abbrev pub row_toks : List (Assignment V) → List (Tok V)
  row_toks row =
      chunk (codes "(") ∷ (separate (codes ", ") (values_toks row) ++ chunk (codes ")") ∷ [])

  abbrev pub rows_toks : List (List (Assignment V)) → List (List (Tok V))
  rows_toks [] = []
  rows_toks (row ∷ rows) = row_toks row ∷ rows_toks rows

  abbrev pub rows_values : List (List (Assignment V)) → List V
  rows_values [] = []
  rows_values (row ∷ rows) = all_assigned row ++ rows_values rows

module _ (d : Dialect) {V : Type 0} where
  abbrev pub insert_rows_toks : List (List (Assignment V)) → List (Tok V)
  insert_rows_toks [] = []
  insert_rows_toks (row ∷ rows) =
      chunk (codes " (")
      ∷ (separate (codes ", ") (chunks (map (λ a. d.quote_ident (column_of a).name) row))
          ++ chunk (codes ") VALUES ") ∷ separate (codes ", ") (rows_toks (row ∷ rows)))

  render_row-Faithful :
      (row : List (Assignment V))
      → FaithfulAll d (render_row d row) (values_toks row) (all_assigned row)
  unfolding render_row
  render_row-Faithful [] = FaithfulAll-nil d
  render_row-Faithful (a ∷ as') =
      FaithfulAll-cons d (render_value d a) (render_row d as') (λ s. s) (render_value-Faithful d a)
        (render_row-Faithful as') (λ args s p. p)

  row-Faithful :
      (row : List (Assignment V))
      → Faithful d
          (do vals ← render_row d row; return (in_parens vals))
          (row_toks row)
          (all_assigned row)
  row-Faithful row =
      FaithfulAll-map d (render_row d row) in_parens {us = row_toks row} (render_row-Faithful row)
        (λ args ss p. (
          _,
          refl,
          Printed-append d args (separate (codes ", ") (values_toks row)) _ _ _
              (Printed-join d args (codes ", ") (values_toks row) ss p) (alone d args (codes ")")),
        ))

  render_rows-Faithful :
      (rows : List (List (Assignment V)))
      → FaithfulAll d (render_rows d rows) (rows_toks rows) (rows_values rows)
  unfolding render_rows
  render_rows-Faithful [] = FaithfulAll-nil d
  render_rows-Faithful (row ∷ rows) = record {
    renders = λ args args' ss e.
        (FaithfulAll-cons d (do vals ← render_row d row; return (in_parens vals))
            (render_rows d rows) (λ s. s) {us = row_toks row} (row-Faithful row)
            (render_rows-Faithful rows) (λ args s p. p)).renders
          args args' ss (ground arith);
  }

  render_values-Faithful :
      (rows : List (List (Assignment V)))
      → Faithful d (render_values d rows) (insert_rows_toks rows) (rows_values rows)
  unfolding render_values column_names
  render_values-Faithful [] = Faithful-return d [] [] (λ args. refl)
  render_values-Faithful (row ∷ rows) =
      FaithfulAll-map d (render_rows d (row ∷ rows)) _ {us = insert_rows_toks (row ∷ rows)}
        (render_rows-Faithful (row ∷ rows))
        (λ args ss p. (
          _,
          refl,
          Printed-append d args
              (separate (codes ", ") (chunks (map (λ a. d.quote_ident (column_of a).name) row))) _ _
              _ (chunks-Printed d args (map (λ a. d.quote_ident (column_of a).name) row))
              (_, refl, Printed-join d args (codes ", ") (rows_toks (row ∷ rows)) ss p),
        ))

  -- IGNORE where a conflict is to do nothing, and the dialect has no clause to say so.
  abbrev pub first_words : InsertBuilder V → Text
  first_words b =
      if ltb 0 (length b.conflict_cols)
      then if d.supports_on_conflict
        then codes "INSERT INTO "
        else if b.conflict_do_nothing
        then codes "INSERT IGNORE INTO "
        else codes "INSERT INTO "
      else codes "INSERT INTO "

  first_words-insert_word : (b : InsertBuilder V) → insert_word d b ≡ first_words b
  unfolding insert_word mysql_style_conflict has_conflict
  first_words-insert_word b = ground arith

  starts_with :
      (b : InsertBuilder V) (rest : Text) → insert_word d b ++ rest ≡ first_words b ++ rest
  starts_with b rest = ap (λ (w : Text). w ++ rest) (first_words-insert_word b)

  abbrev pub insert_toks : InsertBuilder V → List (Tok V)
  insert_toks b =
      chunk (first_words b)
      ∷ chunk (d.quote_ident b.table.name)
      ∷ (insert_rows_toks b.rows
          ++ (conflict_toks d b
              ++ listed_toks (codes " RETURNING ") (map (quote_column d) b.returning)))

  -- An INSERT that renders carries the values of its rows, then those of its conflict's update, and
  -- its text prints the statement.
  pub render_insert-Printed :
      (b : InsertBuilder V) (s : Text) (args : List V)
      → Insert.render d b ≡ ok (s, args)
      → (args ≡ rows_values b.rows ++ conflict_values b) × Printed d args (insert_toks b) s
  unfolding Insert.render Insert.render_clauses
  render_insert-Printed b s args e =
      (Faithful-two d (render_values d b.rows) (conflict_clause d b) (Insert.insert_text d b)
          {ws = insert_toks b} (render_values-Faithful b.rows) (conflict_clause-Faithful d b)
          (λ args r t p q. (
            _,
            starts_with b (
                d.quote_ident b.table.name
                ++ (r ++ (t ++ listed (codes " RETURNING ") (map (quote_column d) b.returning)))),
            (
              _,
              refl,
              Printed-append d args (insert_rows_toks b.rows) _ r _ p (
                  Printed-append d args (conflict_toks d b) _ t _ q (
                    listed-Printed d args (codes " RETURNING ")
                      (map (quote_column d) b.returning))),
            ),
          ))).renders
        [] args s (ground arith)
