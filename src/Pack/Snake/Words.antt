-- ===== src/Pack/Snake/Words.antt =====
-- Identifiers that are spelled as words, and the column names that they get.
use trails.Base.{
  ℕ, ◌≡◌, ◌⊎◌, inl, inr, refl, sym, ap, ◌∙◌, append-nil, arith, Bool, true, false, ◌&&◌, ◌||◌,
  Option, none, some, List, [], ◌∷◌, ◌++◌, if◌then◌else◌, Text,
}
use trails.Web.Header.{to_lower, lower, join}
use trails.Pack.Snake.{
  is_upper, is_lower, is_digit, next_is_lower, starts_word, snake_from, to_snake_case,
}

-- "Server", a capital with small letters behind it, then small letters and digits; or "HTTP".
pub data Word : Type 0 where
  capitalised : ℕ → ℕ → Text → Word
  acronym : ℕ → Text → Word

abbrev pub is_small : ℕ → Bool
is_small c = is_lower c || is_digit c

abbrev pub AllSmall : Text → Type 0
AllSmall [] = Unit
AllSmall (c ∷ s) = (is_small c ≡ true) × AllSmall s

abbrev pub AllUpper : Text → Type 0
AllUpper [] = Unit
AllUpper (c ∷ s) = (is_upper c ≡ true) × AllUpper s

abbrev pub IsWord : Word → Type 0
IsWord (capitalised u l s) = (is_upper u ≡ true) × (is_lower l ≡ true) × AllSmall s
IsWord (acronym u s) = (is_upper u ≡ true) × AllUpper s

-- Behind an acronym comes no other: nobody could tell where it ends.
abbrev pub starts_acronym : List Word → Bool
starts_acronym [] = false
starts_acronym (capitalised u l s ∷ ws) = false
starts_acronym (acronym u s ∷ ws) = true

abbrev pub ends_open : Word → Bool
ends_open (capitalised u l s) = false
ends_open (acronym u s) = true

abbrev pub IsSpelled : List Word → Type 0
IsSpelled [] = Unit
IsSpelled (w ∷ ws) = IsWord w × ((ends_open w && starts_acronym ws) ≡ false) × IsSpelled ws

abbrev pub text_of : Word → Text
text_of (capitalised u l s) = u ∷ l ∷ s
text_of (acronym u s) = u ∷ s

abbrev pub identifier : List Word → Text
identifier [] = []
identifier (w ∷ ws) = text_of w ++ identifier ws

abbrev pub words_lowered : List Word → List Text
words_lowered [] = []
words_lowered (w ∷ ws) = lower (text_of w) ∷ words_lowered ws

abbrev head_of : Word → ℕ
head_of (capitalised u l s) = u
head_of (acronym u s) = u

abbrev behind : Word → Text
behind (capitalised u l s) = l ∷ s
behind (acronym u s) = s

-- The words behind the first, each behind an underscore.
abbrev tail_of : List Word → Text
tail_of [] = []
tail_of (w ∷ ws) = b'_' ∷ (lower (text_of w) ++ tail_of ws)

abbrev last : ℕ → Text → ℕ
last p [] = p
last p (c ∷ s) = last c s

last-is_small : (p : ℕ) (s : Text) → is_small p ≡ true → AllSmall s → is_small (last p s) ≡ true
last-is_small p [] h k = h
last-is_small p (c ∷ s) h (k, ks) = last-is_small c s k ks

last-is_upper : (p : ℕ) (s : Text) → is_upper p ≡ true → AllUpper s → is_upper (last p s) ≡ true
last-is_upper p [] h k = h
last-is_upper p (c ∷ s) h (k, ks) = last-is_upper c s k ks

upper_not_lower : (c : ℕ) → is_upper c ≡ true → is_lower c ≡ false
upper_not_lower c h = ground (arith, h)

next-append : (s t : Text) → AllUpper s → next_is_lower t ≡ false → next_is_lower (s ++ t) ≡ false
next-append [] t h k = k
next-append (c ∷ s) t (h, hs) k = upper_not_lower c h

next-identifier : (ws : List Word) → IsSpelled ws → next_is_lower (identifier ws) ≡ false
next-identifier [] h = refl
next-identifier (capitalised u l s ∷ ws) ((h, k, hs), x, r) = upper_not_lower u h
next-identifier (acronym u s ∷ ws) ((h, k), x, r) = upper_not_lower u h

to_lower_small : (c : ℕ) → is_small c ≡ true → to_lower c ≡ c
unfolding to_lower
to_lower_small c h = ground (arith, h)

small_stays : (p c : ℕ) (rest : Text) → is_small c ≡ true → starts_word (some p) c rest ≡ false
unfolding starts_word
small_stays p c rest h = ground (arith, h)

upper_stays :
    (p c : ℕ) (rest : Text)
    → is_upper p ≡ true
    → next_is_lower rest ≡ false
    → starts_word (some p) c rest ≡ false
unfolding starts_word
upper_stays p c rest h k = ground (arith, h, k)

small_run :
    (p : ℕ) (s t : Text)
    → AllSmall s
    → snake_from (some p) (s ++ t) ≡ lower s ++ snake_from (some (last p s)) t
unfolding snake_from lower
small_run p [] t h = refl
small_run p (c ∷ s) t (h, hs) =
    rw (small_stays p c (s ++ t) h) (ap (◌∷◌ (to_lower c)) (small_run c s t hs))

upper_run :
    (p : ℕ) (s t : Text)
    → is_upper p ≡ true
    → AllUpper s
    → next_is_lower t ≡ false
    → snake_from (some p) (s ++ t) ≡ lower s ++ snake_from (some (last p s)) t
unfolding snake_from lower
upper_run p [] t u h k = refl
upper_run p (c ∷ s) t u (h, hs) k =
    rw (upper_stays p c (s ++ t) u (next-append s t hs k))
      (ap (◌∷◌ (to_lower c)) (upper_run c s t h hs k))

-- A word starts behind `p`: with any capital behind a small letter or digit, and with a capitalised
-- word only behind another capital.
abbrev Breaks : ℕ → List Word → Type 0
Breaks p ws = (is_small p ≡ true) ⊎ ((is_upper p ≡ true) × (starts_acronym ws ≡ false))

small_breaks :
    (p c : ℕ) (t : Text) → is_small p ≡ true → is_upper c ≡ true → starts_word (some p) c t ≡ true
unfolding starts_word
small_breaks p c t h k = ground (arith, h, k)

upper_breaks :
    (p c l : ℕ) (t : Text)
    → is_upper p ≡ true
    → is_upper c ≡ true
    → is_lower l ≡ true
    → starts_word (some p) c (l ∷ t) ≡ true
unfolding starts_word
upper_breaks p c l t h k j = ground (arith, h, k, j)

lower_is_small : (c : ℕ) → is_lower c ≡ true → is_small c ≡ true
lower_is_small c h = ground (arith, h)

-- A word starts, and the rest is behind its last letter.
word_run :
    (prev : Option ℕ) (w : Word) (ws : List Word)
    → IsSpelled (w ∷ ws)
    → (p : ℕ) × (snake_from prev (text_of w ++ identifier ws) ≡ (
        if starts_word prev (head_of w) (behind w ++ identifier ws)
        then b'_' ∷ (lower (text_of w) ++ snake_from (some p) (identifier ws))
        else lower (text_of w) ++ snake_from (some p) (identifier ws)))
      × Breaks p ws
unfolding snake_from lower
word_run prev (capitalised u l s) ws ((h, k, hs), x, r) = (
  last l s,
  rw (small_stays u l (s ++ identifier ws) (lower_is_small l k), small_run l s (identifier ws) hs)
      refl,
  inl (last-is_small l s (lower_is_small l k) hs),
)
word_run prev (acronym u s) ws ((h, hs), x, r) = (
  last u s,
  rw (upper_run u s (identifier ws) h hs (next-identifier ws r)) refl,
  inr (last-is_upper u s h hs, x),
)

starts :
    (p : ℕ) (w : Word) (ws : List Word) (t : Text)
    → IsWord w
    → Breaks p (w ∷ ws)
    → starts_word (some p) (head_of w) (behind w ++ t) ≡ true
starts p (capitalised u l s) ws t (h, k, hs) (inl a) = small_breaks p u (l ∷ s ++ t) a h
starts p (capitalised u l s) ws t (h, k, hs) (inr (a, b)) = upper_breaks p u l (s ++ t) a h k
starts p (acronym u s) ws t (h, hs) (inl a) = small_breaks p u (s ++ t) a h
starts p (acronym u s) ws t (h, hs) (inr (a, b)) = absurd (cc)

snake_from-words :
    (p : ℕ) (ws : List Word)
    → IsSpelled ws
    → Breaks p ws
    → snake_from (some p) (identifier ws) ≡ tail_of ws
unfolding snake_from
snake_from-words p [] h b = refl
snake_from-words p (w ∷ ws) (h, x, r) b =
    let (q, e, c) = word_run (some p) w ws (h, x, r) in
    e ∙ rw (starts p w ws (identifier ws) h b, snake_from-words q ws r c) refl

join-tail : (t : Text) (ws : List Word) → join (b'_' ∷ []) (t ∷ words_lowered ws) ≡ t ++ tail_of ws
unfolding join
join-tail t [] = sym (append-nil t)
join-tail t (w ∷ ws) = ap (λ s. t ++ (b'_' ∷ s)) (join-tail (lower (text_of w)) ws)

-- An identifier that is spelled as capitalised words and acronyms, no acronym directly behind
-- another, gets as its column name these words in small letters, joined by underscores: "UserID"
-- becomes "user_id" and "HTTPServer2" "http_server2".
pub to_snake_case-identifier :
    (w : Word) (ws : List Word)
    → IsSpelled (w ∷ ws)
    → to_snake_case (identifier (w ∷ ws)) ≡ join (b'_' ∷ []) (words_lowered (w ∷ ws))
unfolding to_snake_case starts_word
to_snake_case-identifier w ws (h, x, r) =
    let (q, e, c) = word_run none w ws (h, x, r) in
    e
    ∙ (ap (λ t. lower (text_of w) ++ t) (snake_from-words q ws r c)
        ∙ sym (join-tail (lower (text_of w)) ws))
