-- ===== src/Sql/Dialect/Laws.antt =====
-- A quoted identifier ends where its name ends, whatever bytes the name holds.
use trails.Base.{
  ℕ, ◌≡◌, ◌≢◌, ap, Bool, true, false, Option, none, some, [], ◌∷◌, ◌++◌, arith, ◌==◌, ==_iff,
  if◌then◌else◌, Text, append_assoc, Bool-cases, inl, inr, sym, ◌∙◌, ==_refl,
}
use trails.Sql.Dialect.{double_quotes, quote_with}

abbrev pub push : ℕ → Option (Text × Text) → Option (Text × Text)
push c none = none
push c (some (s, rest)) = some (c ∷ s, rest)

-- How a database reads the inside of a quoted identifier: two quotes in a row stand for one, and a
-- single quote ends it. `open` says that the byte before was a quote that is still to be judged.
pub read_inside : ℕ → Bool → Text → Option (Text × Text)
read_inside q false [] = none
read_inside q true [] = some ([], [])
read_inside q false (c ∷ s) =
    let quote = read_inside q true s in
    let byte = push c (read_inside q false s) in if c == q then quote else byte
read_inside q true (c ∷ s) =
    let pair = push q (read_inside q false s) in if c == q then pair else some ([], c ∷ s)

pub read_ident : ℕ → Text → Option (Text × Text)
unfolding read_inside
read_ident q [] = none
read_ident q (c ∷ s) = if c == q then read_inside q false s else none

-- Text that does not go on with the quote.
abbrev pub Stops : ℕ → Text → Type 0
Stops q [] = Unit {0}
Stops q (c ∷ s) = c ≢ q

read_inside-double_quotes :
    (q : ℕ) (s rest : Text)
    → Stops q rest
    → read_inside q false (double_quotes q s ++ q ∷ rest) ≡ some (s, rest)
unfolding read_inside double_quotes
read_inside-double_quotes q [] [] h = ground arith
read_inside-double_quotes q [] (c ∷ rest) h = ground arith
read_inside-double_quotes q (c ∷ s) rest h =
    let ih = read_inside-double_quotes q s rest h in
    elim (Bool-cases (c == q)) [
      | inl hit ↦
          let e : q ≡ c = sym ((==_iff c q).0 hit) in
          rw hit (rw (==_refl q) (ap (push q) ih ∙ ap (λ (b : ℕ). some (b ∷ s, rest)) e))
      | inr miss ↦ rw miss (rw miss (ap (push c) ih))
    ]

-- An identifier, quoted and followed by text that does not go on with the quote, is read back as
-- it was, whatever bytes it holds: no name can end its quotes early.
pub read_ident-quote_with :
    (q : ℕ) (name rest : Text)
    → Stops q rest
    → read_ident q (quote_with q name ++ rest) ≡ some (name, rest)
unfolding read_ident quote_with
read_ident-quote_with q name rest h = rw (==_refl q) (
    ap (read_inside q false) (append_assoc (double_quotes q name) (q ∷ []) rest)
    ∙ read_inside-double_quotes q name rest h)
