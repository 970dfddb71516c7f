-- ===== src/Sql/Render.antt =====
-- pack/internal/sqlbuild/render.go. The renderer's state is the list of values bound so far; an
-- error ends the rendering, and the values bound until then are dropped with it.
use trails.Base.{
  ℕ, ◌+◌, ◌-◌, ◌*◌, ◌^◌, Bool, ◌&&◌, List, [], ◌∷◌, ◌++◌, ◌==◌, leb, ltb, if◌then◌else◌, Text,
  codes, ◌===◌, length, Result, ok, err,
}
use trails.Web.Header.{join}
use trails.Sql.Dialect.{Dialect}
use trails.Sql.Types.{
  Table, Column, Predicate, Predicates, absent, eq, ne, gt, gte, lt, lte, like, ilike, not_like,
  is_in, not_in, is_null, is_not_null, between, all_of, any_of, negation, raw, eq_col, nil, cons,
  BuildError, raw_placeholder_out_of_range, ilike_unsupported,
}

abbrev pub Render : Type 0 → Type 0 → Type 0
Render V A = List V → Result BuildError (A × List V)

infixl 5 ◌>>=◌
abbrev pub ◌>>=◌ : {V A B : Type 0} → Render V A → (A → Render V B) → Render V B
◌>>=◌ m f args = elim (m args) [ err e ↦ err e | ok (a, args') ↦ f a args' ]

abbrev pub return : {V A : Type 0} → A → Render V A
return a args = ok (a, args)

-- A raw fragment, cut at its references `$1`, `$2`, …: the longest match of `\$([0-9]+)` counts.
pub data Piece : Type 0 where
  byte : ℕ → Piece
  ref : ℕ → Piece

-- Between two bytes: outside a match, behind a dollar, or behind digits that make k.
pub data Mode : Type 0 where
  outside dollar : Mode
  digits : ℕ → Mode

abbrev is_digit : ℕ → Bool
is_digit c = leb b'0' c && leb c b'9'

next_mode : Mode → ℕ → Mode
next_mode outside c = if c == b'$' then dollar else outside
next_mode dollar c = if is_digit c then digits (c - b'0') else if c == b'$' then dollar else outside
next_mode (digits k) c =
    if is_digit c then digits (k * 10 + (c - b'0')) else if c == b'$' then dollar else outside

-- What is settled before the byte c is read, and what c itself settles.
settle : Mode → List Piece
settle outside = []
settle dollar = byte b'$' ∷ []
settle (digits k) = ref k ∷ []

emit : Mode → ℕ → List Piece
unfolding settle
emit outside c = if c == b'$' then [] else byte c ∷ []
emit dollar c =
    if is_digit c then [] else if c == b'$' then byte b'$' ∷ [] else byte b'$' ∷ byte c ∷ []
emit (digits k) c = if is_digit c then [] else if c == b'$' then ref k ∷ [] else ref k ∷ byte c ∷ []

pieces_from : Mode → Text → List Piece
pieces_from m [] = settle m
pieces_from m (c ∷ s) = emit m c ++ pieces_from (next_mode m c) s

unfoldable pub pieces : Text → List Piece
unfolding pieces_from emit settle next_mode
pieces s = pieces_from outside s

-- The value that `strconv.Atoi` returns, also where it overflows.
abbrev pub atoi : ℕ → ℕ
atoi k = if ltb k (2 ^ 63) then k else 2 ^ 63 - 1

abbrev pub is_bound : ℕ → ℕ → Bool
is_bound k num_args = ltb k (2 ^ 63) && (leb 1 k && leb k num_args)

module _ (d : Dialect) where
  open d use {quote_ident, placeholder}

  -- The callback of `ReplaceAllStringFunc` at each match, and the first error that it met.
  unfoldable pub replace_pieces : Text → ℕ → ℕ → List Piece → Result BuildError Text
  replace_pieces fragment base num_args [] = ok []
  replace_pieces fragment base num_args (byte c ∷ ps) =
      elim (replace_pieces fragment base num_args ps) [ ok out ↦ ok (c ∷ out) | err e ↦ err e ]
  replace_pieces fragment base num_args (ref k ∷ ps) =
      let rest = replace_pieces fragment base num_args ps in
      if is_bound k num_args
      then elim rest [ ok out ↦ ok (placeholder (base + k) ++ out) | err e ↦ err e ]
      else err (raw_placeholder_out_of_range fragment (atoi k) num_args)

  module _ {V : Type 0} where
    unfoldable pub bind : V → Render V Text
    bind v args = ok (placeholder (length (args ++ v ∷ [])), args ++ v ∷ [])

    unfoldable pub bind_list : List V → Render V (List Text)
    bind_list [] = return []
    bind_list (v ∷ vs) = do part ← bind v; parts ← bind_list vs; return (part ∷ parts)

    unfoldable pub render_raw_fragment : Text → List V → Render V Text
    unfolding replace_pieces pieces
    render_raw_fragment fragment raw_args args =
        elim (replace_pieces fragment (length args) (length raw_args) (pieces fragment)) [
          | err e ↦ err e
          | ok out ↦ ok (out, args ++ raw_args)
        ]

  unfoldable pub quote_column : Column → Text
  quote_column c =
      if c.table === []
      then quote_ident c.name
      else quote_ident c.table ++ (codes "." ++ quote_ident c.name)

  unfoldable pub quote_table : Table → Text
  quote_table t =
      if t.alias === []
      then quote_ident t.name
      else quote_ident t.name ++ (codes " AS " ++ quote_ident t.alias)

  -- `r.quoteColumn(c) + op + r.bind(v)`.
  unfoldable pub compare_to : {V : Type 0} → Column → Text → V → Render V Text
  unfolding bind
  compare_to c op v = do hole ← bind v; return (quote_column c ++ (op ++ hole))

  unfoldable pub parenthesize : {V : Type 0} → Predicate V → Text → Text
  parenthesize (all_of ps) s = codes "(" ++ (s ++ codes ")")
  parenthesize (any_of ps) s = codes "(" ++ (s ++ codes ")")
  parenthesize (negation p) s = codes "(" ++ (s ++ codes ")")
  parenthesize _ s = s

  -- `renderChild` is the parenthesised rendering of an operand.
  unfoldable mutual
    pub render_predicate : {V : Type 0} → Predicate V → Render V Text
    render_predicate absent = return (codes "TRUE")
    render_predicate (eq c v) = compare_to c (codes " = ") v
    render_predicate (ne c v) = compare_to c (codes " <> ") v
    render_predicate (gt c v) = compare_to c (codes " > ") v
    render_predicate (gte c v) = compare_to c (codes " >= ") v
    render_predicate (lt c v) = compare_to c (codes " < ") v
    render_predicate (lte c v) = compare_to c (codes " <= ") v
    render_predicate (is_in c []) = return (codes "FALSE")
    render_predicate (is_in c (v ∷ vs)) = do
      parts ← bind_list (v ∷ vs)
      return (quote_column c ++ (codes " IN (" ++ (join (codes ", ") parts ++ codes ")")))
    render_predicate (not_in c []) = return (codes "TRUE")
    render_predicate (not_in c (v ∷ vs)) = do
      parts ← bind_list (v ∷ vs)
      return (quote_column c ++ (codes " NOT IN (" ++ (join (codes ", ") parts ++ codes ")")))
    render_predicate (is_null c) = return (quote_column c ++ codes " IS NULL")
    render_predicate (is_not_null c) = return (quote_column c ++ codes " IS NOT NULL")
    render_predicate (between c lo hi) = do
      low ← bind lo
      high ← bind hi
      return (quote_column c ++ (codes " BETWEEN " ++ (low ++ (codes " AND " ++ high))))
    render_predicate (like c pattern) = compare_to c (codes " LIKE ") pattern
    render_predicate (ilike c pattern) =
        if d.supports_ilike
        then compare_to c (codes " ILIKE ") pattern
        else (λ _. err (ilike_unsupported d.name))
    render_predicate (not_like c pattern) = compare_to c (codes " NOT LIKE ") pattern
    render_predicate (all_of nil) = return (codes "TRUE")
    render_predicate (all_of (cons p ps)) = do
      parts ← render_children (cons p ps)
      return (join (codes " AND ") parts)
    render_predicate (any_of nil) = return (codes "FALSE")
    render_predicate (any_of (cons p ps)) = do
      parts ← render_children (cons p ps)
      return (join (codes " OR ") parts)
    render_predicate (negation p) = do
      s ← render_predicate p
      return (codes "NOT " ++ parenthesize p s)
    render_predicate (raw fragment args) = render_raw_fragment fragment args
    render_predicate (eq_col left right) =
        return (quote_column left ++ (codes " = " ++ quote_column right))

    pub render_children : {V : Type 0} → Predicates V → Render V (List Text)
    render_children nil = return []
    render_children (cons p ps) = do
      s ← render_predicate p
      parts ← render_children ps
      return (parenthesize p s ∷ parts)
