-- ===== src/Sql/Spec/Conflicts.antt =====
-- What an INSERT does on a conflict, as text and values.
use trails.Base.{
  refl, sym, subst, append_assoc, List, [], ◌∷◌, ◌++◌, arith, Text, codes, if◌then◌else◌, ltb,
  length,
}
use trails.Web.Header.{join}
use trails.Sql.Dialect.{Dialect}
use trails.Sql.Render.{return}
use trails.Sql.Clauses.{render_assignments}
use trails.Sql.Insert.{
  InsertBuilder, has_conflict, mysql_style_conflict, update_sets, conflict_target, conflict_clause,
}
use trails.Sql.Spec.{Tok, chunk, separate, Printed, Printed-append, Printed-join}
use trails.Sql.Spec.Faithful.{Faithful, Faithful-return, FaithfulAll-map}
use trails.Sql.Spec.Conditions.{alone}
use trails.Sql.Spec.Names.{target_toks, target-Printed}
use trails.Sql.Spec.Statements.{all_assigned, assignments_toks, render_assignments-Faithful}

module _ {V : Type 0} where
  -- A conflict's values are bound whenever a conflict is to be answered by an update.
  abbrev pub conflict_values : InsertBuilder V → List V
  conflict_values b =
      if ltb 0 (length b.conflict_cols)
      then if b.conflict_do_nothing then [] else all_assigned b.conflict_update
      else []

module _ (d : Dialect) {V : Type 0} where
  abbrev pub sets_toks : Text → InsertBuilder V → List (Tok V)
  sets_toks word b = chunk word ∷ separate (codes ", ") (assignments_toks d b.conflict_update)

  -- ON CONFLICT where the dialect has it; otherwise MySQL's update clause, and nothing for INSERT
  -- IGNORE, which the first word says.
  abbrev pub conflict_toks : InsertBuilder V → List (Tok V)
  conflict_toks b =
      if ltb 0 (length b.conflict_cols)
      then if d.supports_on_conflict
        then if b.conflict_do_nothing
          then target_toks d b.conflict_cols ++ chunk (codes " DO NOTHING") ∷ []
          else target_toks d b.conflict_cols ++ sets_toks (codes " DO UPDATE SET ") b
        else if b.conflict_do_nothing
        then []
        else sets_toks (codes " ON DUPLICATE KEY UPDATE ") b
      else []

  update_sets-Faithful :
      (word : Text) (b : InsertBuilder V)
      → Faithful d (update_sets d word b) (sets_toks word b) (all_assigned b.conflict_update)
  unfolding update_sets
  update_sets-Faithful word b =
      FaithfulAll-map d (render_assignments d b.conflict_update) _ {us = sets_toks word b}
        (render_assignments-Faithful d b.conflict_update)
        (λ args ss p.
          (_, refl, Printed-join d args (codes ", ") (assignments_toks d b.conflict_update) ss p))

  -- The same behind the target of ON CONFLICT.
  do_update-Faithful :
      (b : InsertBuilder V)
      → Faithful d
          (update_sets d (conflict_target d b ++ codes " DO UPDATE SET ") b)
          (target_toks d b.conflict_cols ++ sets_toks (codes " DO UPDATE SET ") b)
          (all_assigned b.conflict_update)
  unfolding update_sets
  do_update-Faithful b =
      FaithfulAll-map d (render_assignments d b.conflict_update) _
        {us = target_toks d b.conflict_cols ++ sets_toks (codes " DO UPDATE SET ") b}
        (render_assignments-Faithful d b.conflict_update)
        (λ args ss p.
          subst
            (Printed d args
              (target_toks d b.conflict_cols ++ sets_toks (codes " DO UPDATE SET ") b))
            (sym
              (append_assoc (conflict_target d b) (codes " DO UPDATE SET ") (join (codes ", ") ss)))
            (Printed-append d args (target_toks d b.conflict_cols) _ (conflict_target d b) _
              (target-Printed d args b)
              (
                _,
                refl,
                Printed-join d args (codes ", ") (assignments_toks d b.conflict_update) ss p,
              )))

  do_nothing-Faithful :
      (b : InsertBuilder V)
      → Faithful d {V = V}
          (return (conflict_target d b ++ codes " DO NOTHING"))
          (target_toks d b.conflict_cols ++ chunk (codes " DO NOTHING") ∷ [])
          []
  do_nothing-Faithful b = Faithful-return d (conflict_target d b ++ codes " DO NOTHING") _ (λ args.
      Printed-append d args (target_toks d b.conflict_cols) _ (conflict_target d b) _
        (target-Printed d args b) (alone d args (codes " DO NOTHING")))

  pub conflict_clause-Faithful :
      (b : InsertBuilder V) → Faithful d (conflict_clause d b) (conflict_toks b) (conflict_values b)
  unfolding conflict_clause mysql_style_conflict has_conflict
  conflict_clause-Faithful b = ground (
    arith,
    Faithful-return d {V = V} [] [] (λ args. refl),
    do_update-Faithful b,
    update_sets-Faithful (codes " ON DUPLICATE KEY UPDATE ") b,
    do_nothing-Faithful b,
  )
