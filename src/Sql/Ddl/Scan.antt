-- ===== src/Sql/Ddl/Scan.antt =====
-- How a database takes a statement apart into words and quoted names, and that it finds what was
-- printed.
use trails.Base.{
  ℕ, ◌≡◌, refl, ap, sym, ◌∙◌, arith, Bool, true, false, not, ◌&&◌, Option, none, some, List, [],
  ◌∷◌, ◌++◌, ◌==◌, ==_refl, ==_iff, if◌then◌else◌, Text, append_assoc, Bool-cases, inl, inr,
}
use trails.Sql.Dialect.{double_quotes, quote_with}

pub data Token : Type 0 where
  word : Text → Token
  name : Text → Token

abbrev pub print : ℕ → List Token → Text
print q [] = []
print q (word w ∷ ts) = w ++ print q ts
print q (name n ∷ ts) = quote_with q n ++ print q ts

-- A byte in front of the first word, or a word of its own.
abbrev push_word : ℕ → Option (List Token) → Option (List Token)
push_word c none = none
push_word c (some (word w ∷ ts)) = some (word (c ∷ w) ∷ ts)
push_word c (some (name n ∷ ts)) = some (word (c ∷ []) ∷ name n ∷ ts)
push_word c (some []) = some (word (c ∷ []) ∷ [])

abbrev push_name : ℕ → Option (Text × List Token) → Option (Text × List Token)
push_name c none = none
push_name c (some (n, ts)) = some (c ∷ n, ts)

abbrev close : Option (Text × List Token) → Option (List Token)
close none = none
close (some (n, ts)) = some (name n ∷ ts)

abbrev end_name : Option (List Token) → Option (Text × List Token)
end_name none = none
end_name (some ts) = some ([], ts)

-- Outside quotes, and inside them: there `true` says that the byte before was a quote, which ends
-- the name unless another one follows.
unfoldable mutual
  pub scan : ℕ → Text → Option (List Token)
  scan q [] = some []
  scan q (c ∷ s) =
      let inside = close (scan_name q false s) in
      let outside = push_word c (scan q s) in if c == q then inside else outside

  pub scan_name : ℕ → Bool → Text → Option (Text × List Token)
  scan_name q false [] = none
  scan_name q true [] = some ([], [])
  scan_name q false (c ∷ s) =
      let quote = scan_name q true s in
      let byte = push_name c (scan_name q false s) in if c == q then quote else byte
  scan_name q true (c ∷ s) =
      let pair = push_name q (scan_name q false s) in
      let after = end_name (push_word c (scan q s)) in if c == q then pair else after

-- A word that is not empty and holds no quote.
abbrev lacks : ℕ → Text → Bool
lacks q [] = true
lacks q (c ∷ s) = not (c == q) && lacks q s

abbrev pub is_word : ℕ → Text → Bool
is_word q [] = false
is_word q (c ∷ s) = not (c == q) && lacks q s

-- Words and names in turn, a word first.
abbrev pub Alternates : ℕ → List Token → Type 0
Alternates q [] = Unit
Alternates q (name n ∷ ts) = ⊥
Alternates q (word w ∷ []) = is_word q w ≡ true
Alternates q (word w ∷ word v ∷ ts) = ⊥
Alternates q (word w ∷ name n ∷ ts) = (is_word q w ≡ true) × Alternates q ts

abbrev StartsNoWord : List Token → Type 0
StartsNoWord (word w ∷ ts) = ⊥
StartsNoWord _ = Unit

push_word-first :
    (c : ℕ) (ts : List Token) → StartsNoWord ts → push_word c (some ts) ≡ some (word (c ∷ []) ∷ ts)
push_word-first c [] h = refl
push_word-first c (name n ∷ ts) h = refl
push_word-first c (word w ∷ ts) h = absurd h

scan-word :
    (q c : ℕ) (w s : Text) (ts : List Token)
    → is_word q (c ∷ w) ≡ true
    → StartsNoWord ts
    → scan q s ≡ some ts
    → scan q (c ∷ (w ++ s)) ≡ some (word (c ∷ w) ∷ ts)
unfolding scan
scan-word q c [] s ts h n e = elim (Bool-cases (c == q)) [
  | inl hit ↦ absurd (ground (arith, hit, h))
  | inr miss ↦ rw miss (ap (push_word c) e ∙ push_word-first c ts n)
]
scan-word q c (d ∷ w) s ts h n e = elim (Bool-cases (c == q)) [
  | inl hit ↦ absurd (ground (arith, hit, h))
  | inr miss ↦
      let rest : is_word q (d ∷ w) ≡ true = ground (arith, miss, h) in
      rw miss (ap (push_word c) (scan-word q d w s ts rest n e))
]

-- What is behind a name does not go on with the quote.
abbrev Stops : ℕ → Text → Type 0
Stops q [] = Unit {0}
Stops q (c ∷ s) = (c == q) ≡ false

scan_name-end :
    (q : ℕ) (s : Text) (ts : List Token)
    → Stops q s
    → scan q s ≡ some ts
    → scan_name q true s ≡ some ([], ts)
unfolding scan
scan_name-end q [] ts h e = ap end_name e
scan_name-end q (c ∷ s) ts h e = rw h (ap end_name (sym (rw h refl) ∙ e))

scan_name-double_quotes :
    (q : ℕ) (n s : Text) (ts : List Token)
    → Stops q s
    → scan q s ≡ some ts
    → scan_name q false (double_quotes q n ++ q ∷ s) ≡ some (n, ts)
unfolding scan double_quotes
scan_name-double_quotes q [] s ts h e = rw (==_refl q) (scan_name-end q s ts h e)
scan_name-double_quotes q (c ∷ n) s ts h e =
    let ih = scan_name-double_quotes q n s ts h e in
    elim (Bool-cases (c == q)) [
      | inl hit ↦
          let same : q ≡ c = sym ((==_iff c q).0 hit) in
          rw hit (rw (==_refl q) (ap (push_name q) ih ∙ ap (λ (b : ℕ). some (b ∷ n, ts)) same))
      | inr miss ↦ rw miss (rw miss (ap (push_name c) ih))
    ]

scan-quote_with :
    (q : ℕ) (n s : Text) (ts : List Token)
    → Stops q s
    → scan q s ≡ some ts
    → scan q (quote_with q n ++ s) ≡ some (name n ∷ ts)
unfolding scan quote_with
scan-quote_with q n s ts h e = rw (==_refl q) (
    ap (λ (r : Text). close (scan_name q false r)) (append_assoc (double_quotes q n) (q ∷ []) s)
    ∙ ap close (scan_name-double_quotes q n s ts h e))

is_word-lacks : (q c : ℕ) (w : Text) → is_word q (c ∷ w) ≡ true → (c == q) ≡ false
is_word-lacks q c w h = ground (arith, h)

print-Stops : (q : ℕ) (ts : List Token) → Alternates q ts → Stops q (print q ts)
print-Stops q [] a = tt
print-Stops q (name n ∷ ts) a = absurd a
print-Stops q (word [] ∷ []) a = tt
print-Stops q (word (c ∷ w) ∷ []) a = is_word-lacks q c w a
print-Stops q (word w ∷ word v ∷ ts) a = absurd a
print-Stops q (word [] ∷ name n ∷ ts) (a, b) = absurd (cc)
print-Stops q (word (c ∷ w) ∷ name n ∷ ts) (a, b) = is_word-lacks q c w a

-- Words and names in turn are scanned as they were printed.
pub scan-print : (q : ℕ) (ts : List Token) → Alternates q ts → scan q (print q ts) ≡ some ts
unfolding scan
scan-print q [] a = refl
scan-print q (name n ∷ ts) a = absurd a
scan-print q (word [] ∷ []) a = absurd (cc)
scan-print q (word (c ∷ w) ∷ []) a = scan-word q c w [] [] a tt refl
scan-print q (word w ∷ word v ∷ ts) a = absurd a
scan-print q (word [] ∷ name n ∷ ts) (a, b) = absurd (cc)
scan-print q (word (c ∷ w) ∷ name n ∷ ts) (a, b) =
    scan-word q c w (print q (name n ∷ ts)) (name n ∷ ts) a tt
      (scan-quote_with q n (print q ts) ts (print-Stops q ts b) (scan-print q ts b))
