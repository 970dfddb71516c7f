-- ===== src/Sql/Spec/Names.antt =====
-- Lists of names in a statement, which bind no values.
use trails.Base.{refl, List, [], ◌∷◌, ◌++◌, map, Text, codes}
use trails.Web.Header.{join}
use trails.Sql.Dialect.{Dialect}
use trails.Sql.Types.{Column}
use trails.Sql.Clauses.{listed}
use trails.Sql.Insert.{InsertBuilder, conflict_target}
use trails.Sql.Spec.{Tok, chunk, separate, Printed, PrintedAll, Printed-append, Printed-join}
use trails.Sql.Spec.Conditions.{alone}

module _ {V : Type 0} where
  abbrev pub chunks : List Text → List (List (Tok V))
  chunks [] = []
  chunks (s ∷ ss) = (chunk s ∷ []) ∷ chunks ss

  -- A list behind a keyword, and nothing for an empty list.
  abbrev pub listed_toks : Text → List Text → List (Tok V)
  listed_toks word [] = []
  listed_toks word (s ∷ ss) = chunk word ∷ separate (codes ", ") (chunks (s ∷ ss))

module _ (d : Dialect) {V : Type 0} where
  chunks-PrintedAll : (args : List V) (ss : List Text) → PrintedAll d args (chunks ss) ss
  chunks-PrintedAll args [] = tt
  chunks-PrintedAll args (s ∷ ss) = (alone d args s, chunks-PrintedAll args ss)

  pub chunks-Printed :
      (args : List V) (ss : List Text)
      → Printed d args (separate (codes ", ") (chunks ss)) (join (codes ", ") ss)
  chunks-Printed args ss =
      Printed-join d args (codes ", ") (chunks ss) ss (chunks-PrintedAll args ss)

  pub listed-Printed :
      (args : List V) (word : Text) (ss : List Text)
      → Printed d args (listed_toks word ss) (listed word ss)
  listed-Printed args word [] = refl
  listed-Printed args word (s ∷ ss) = (_, refl, chunks-Printed args (s ∷ ss))

  -- The columns in parentheses, in front of DO NOTHING or DO UPDATE.
  abbrev pub target_toks : List Column → List (Tok V)
  target_toks cols =
      chunk (codes " ON CONFLICT (")
      ∷ (separate (codes ", ") (chunks (map (λ (c : Column). d.quote_ident c.name) cols))
          ++ chunk (codes ")") ∷ [])

  pub target-Printed :
      (args : List V) (b : InsertBuilder V)
      → Printed d args (target_toks b.conflict_cols) (conflict_target d b)
  unfolding conflict_target
  target-Printed args b =
      let names = map (λ (c : Column). d.quote_ident c.name) b.conflict_cols in
      (
        _,
        refl,
        Printed-append d args (separate (codes ", ") (chunks names)) _ (join (codes ", ") names) _
            (chunks-Printed args names) (alone d args (codes ")")),
      )
