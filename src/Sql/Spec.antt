-- ===== src/Sql/Spec.antt =====
-- What a rendered text says, with no renderer: a list of chunks of text and of values, and when a
-- text with placeholders prints such a list.
pub mod Faithful
pub mod Values
pub mod Conditions
pub mod Statements
pub mod Queries
pub mod Names
pub mod Conflicts
pub mod Inserts
pub mod Total
pub mod Parts
pub mod Renders
pub mod Positional
use trails.Base.{
  ℕ, zero, suc, ◌+◌, ◌-◌, ◌≡◌, refl, sym, ap, ◌∙◌, Bool, true, false, Option, none, some, List, [],
  ◌∷◌, ◌++◌, map, append_assoc, append-nil, arith, Text, codes, get_elem?, length, Result, ok, err,
}
use trails.Web.Header.{join}
use trails.Sql.Dialect.{Dialect}
use trails.Sql.Types.{
  Column, Predicate, Predicates, absent, eq, ne, gt, gte, lt, lte, like, ilike, not_like, is_in,
  not_in, is_null, is_not_null, between, all_of, any_of, negation, raw, eq_col, nil, cons,
  BuildError,
}
use trails.Sql.Render.{Render, ◌>>=◌, Piece, byte, ref, pieces, quote_column}

pub data Tok (V : Type 0) : Type 0 where
  chunk : Text → Tok V
  value : V → Tok V

module _ {V : Type 0} where
  -- The value that `$k` names.
  abbrev pub piece_tok : List V → Piece → Tok V
  piece_tok args (byte c) = chunk (c ∷ [])
  piece_tok args (ref k) = elim (get_elem? args (k - 1)) [ some v ↦ value v | none ↦ chunk [] ]

  abbrev pub separate : Text → List (List (Tok V)) → List (Tok V)
  separate sep [] = []
  separate sep (t ∷ []) = t
  separate sep (t ∷ u ∷ ts) = t ++ chunk sep ∷ separate sep (u ∷ ts)

  abbrev pub comma_values : List V → List (List (Tok V))
  comma_values [] = []
  comma_values (v ∷ vs) = (value v ∷ []) ∷ comma_values vs

  module _ (d : Dialect) where
    abbrev pub comparison : Column → Text → V → List (Tok V)
    comparison c op v = chunk (quote_column d c) ∷ chunk op ∷ value v ∷ []

    abbrev pub bracket : Predicate V → List (Tok V) → List (Tok V)
    bracket (all_of ps) ts = chunk (codes "(") ∷ (ts ++ chunk (codes ")") ∷ [])
    bracket (any_of ps) ts = chunk (codes "(") ∷ (ts ++ chunk (codes ")") ∷ [])
    bracket (negation p) ts = chunk (codes "(") ∷ (ts ++ chunk (codes ")") ∷ [])
    bracket _ ts = ts

    -- The condition as text and values: a conjunction, disjunction or negation that is an operand
    -- stands in parentheses.
    unfoldable mutual
      pub predicate_toks : Predicate V → List (Tok V)
      predicate_toks absent = chunk (codes "TRUE") ∷ []
      predicate_toks (eq c v) = comparison c (codes " = ") v
      predicate_toks (ne c v) = comparison c (codes " <> ") v
      predicate_toks (gt c v) = comparison c (codes " > ") v
      predicate_toks (gte c v) = comparison c (codes " >= ") v
      predicate_toks (lt c v) = comparison c (codes " < ") v
      predicate_toks (lte c v) = comparison c (codes " <= ") v
      predicate_toks (like c v) = comparison c (codes " LIKE ") v
      predicate_toks (ilike c v) = comparison c (codes " ILIKE ") v
      predicate_toks (not_like c v) = comparison c (codes " NOT LIKE ") v
      predicate_toks (is_in c []) = chunk (codes "FALSE") ∷ []
      predicate_toks (is_in c (v ∷ vs)) =
          chunk (quote_column d c)
          ∷ chunk (codes " IN (")
          ∷ (separate (codes ", ") (comma_values (v ∷ vs)) ++ chunk (codes ")") ∷ [])
      predicate_toks (not_in c []) = chunk (codes "TRUE") ∷ []
      predicate_toks (not_in c (v ∷ vs)) =
          chunk (quote_column d c)
          ∷ chunk (codes " NOT IN (")
          ∷ (separate (codes ", ") (comma_values (v ∷ vs)) ++ chunk (codes ")") ∷ [])
      predicate_toks (is_null c) = chunk (quote_column d c) ∷ chunk (codes " IS NULL") ∷ []
      predicate_toks (is_not_null c) = chunk (quote_column d c) ∷ chunk (codes " IS NOT NULL") ∷ []
      predicate_toks (between c lo hi) =
          chunk (quote_column d c)
          ∷ chunk (codes " BETWEEN ")
          ∷ value lo
          ∷ chunk (codes " AND ")
          ∷ value hi
          ∷ []
      predicate_toks (all_of nil) = chunk (codes "TRUE") ∷ []
      predicate_toks (all_of (cons p ps)) = separate (codes " AND ") (children_toks (cons p ps))
      predicate_toks (any_of nil) = chunk (codes "FALSE") ∷ []
      predicate_toks (any_of (cons p ps)) = separate (codes " OR ") (children_toks (cons p ps))
      predicate_toks (negation p) = chunk (codes "NOT ") ∷ bracket p (predicate_toks p)
      predicate_toks (raw fragment args) = map (piece_tok args) (pieces fragment)
      predicate_toks (eq_col left right) =
          chunk (quote_column d left) ∷ chunk (codes " = ") ∷ chunk (quote_column d right) ∷ []

      pub children_toks : Predicates V → List (List (Tok V))
      children_toks nil = []
      children_toks (cons p ps) = bracket p (predicate_toks p) ∷ children_toks ps

    -- `Printed args ts s`: s prints ts, each value as a placeholder whose number is a position in
    -- args at which that value stands.
    abbrev pub Printed : List V → List (Tok V) → Text → Type 0
    Printed args [] s = s ≡ []
    Printed args (chunk c ∷ ts) s = (t : Text) × (s ≡ c ++ t) × Printed args ts t
    Printed args (value v ∷ ts) s =
        (n : ℕ) × (t : Text) × (get_elem? args n ≡ some v)
        × (s ≡ d.placeholder (suc n) ++ t)
        × Printed args ts t

    pub Printed-append :
        (args : List V) (ts us : List (Tok V)) (s t : Text)
        → Printed args ts s
        → Printed args us t
        → Printed args (ts ++ us) (s ++ t)
    Printed-append args [] us s t p q = rw p q
    Printed-append args (chunk c ∷ ts) us s t (s', e, p) q =
        (s' ++ t, rw e (append_assoc c s' t), Printed-append args ts us s' t p q)
    Printed-append args (value v ∷ ts) us s t (n, s', g, e, p) q = (
      n,
      s' ++ t,
      g,
      rw e (append_assoc (d.placeholder (suc n)) s' t),
      Printed-append args ts us s' t p q,
    )

    get_elem?-append :
        (args more : List V) (n : ℕ) (v : V)
        → get_elem? args n ≡ some v
        → get_elem? (args ++ more) n ≡ some v
    get_elem?-append [] more n v g = absurd (cc)
    get_elem?-append (a ∷ args) more zero v g = g
    get_elem?-append (a ∷ args) more (suc n) v g = get_elem?-append args more n v g

    -- Values that are bound later do not disturb what has been printed.
    pub Printed-more :
        (args more : List V) (ts : List (Tok V)) (s : Text)
        → Printed args ts s
        → Printed (args ++ more) ts s
    Printed-more args more [] s p = p
    Printed-more args more (chunk c ∷ ts) s (t, e, p) = (t, e, Printed-more args more ts t p)
    Printed-more args more (value v ∷ ts) s (n, t, g, e, p) =
        (n, t, get_elem?-append args more n v g, e, Printed-more args more ts t p)

    abbrev pub PrintedAll : List V → List (List (Tok V)) → List Text → Type 0
    PrintedAll args [] [] = Unit {0}
    PrintedAll args (ts ∷ tss) (s ∷ ss) = Printed args ts s × PrintedAll args tss ss
    PrintedAll args _ _ = ⊥

    pub Printed-join :
        (args : List V) (sep : Text) (tss : List (List (Tok V))) (ss : List Text)
        → PrintedAll args tss ss
        → Printed args (separate sep tss) (join sep ss)
    unfolding join
    Printed-join args sep [] [] p = refl
    Printed-join args sep (t ∷ []) (s ∷ []) p = p.0
    Printed-join args sep (t ∷ u ∷ ts) (s ∷ r ∷ ss) (p, q) =
        Printed-append args t (chunk sep ∷ separate sep (u ∷ ts)) s (sep ++ join sep (r ∷ ss)) p
          (join sep (r ∷ ss), refl, Printed-join args sep (u ∷ ts) (r ∷ ss) q)
    Printed-join args sep [] (s ∷ ss) p = absurd p
    Printed-join args sep (t ∷ []) [] p = absurd p
    Printed-join args sep (t ∷ u ∷ ts) [] p = absurd p
    Printed-join args sep (t ∷ []) (s ∷ r ∷ ss) p = absurd p.1
    Printed-join args sep (t ∷ u ∷ ts) (s ∷ []) p = absurd p.1
