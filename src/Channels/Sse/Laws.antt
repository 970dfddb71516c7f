-- ===== src/Channels/Sse/Laws.antt =====
-- A client that reads the stream by the rules of text/event-stream finds the event that was written.
use trails.Base.{
  subst, ℕ, ◌≡◌, ◌≢◌, refl, sym, ap, ◌∙◌, arith, Bool, true, false, Option, none, some, List, [],
  ◌∷◌, ◌++◌, append_assoc, append-nil, ◌==◌, ==_iff, if◌then◌else◌, Text, codes, drop, has_prefix,
  All, Bool-cases, inl, inr, ap₂,
}
use trails.Channels.Sse.{push_line, split_lines, data_lines, write_sse_event}

-- The lines of a stream: each ends with CR, LF or both. The flag says that the byte before was CR.
unfoldable pub stream_lines : Bool → Text → List Text
stream_lines cr [] = [] ∷ []
stream_lines cr (c ∷ s) =
    let behind_cr = stream_lines true s in
    let behind = stream_lines false s in
    if c == b'\r'
    then [] ∷ behind_cr
    else if c == b'\n'
    then (if cr then behind else [] ∷ behind)
    else push_line c behind

-- The value of a field, without one space in front.
abbrev value : Text → Text
value [] = []
value (c ∷ s) = if c == b' ' then s else c ∷ s

abbrev is_blank : Text → Bool
is_blank [] = true
is_blank (c ∷ s) = false

abbrev pub join_lines : List Text → Text
join_lines [] = []
join_lines (l ∷ []) = l
join_lines (l ∷ m ∷ ls) = l ++ b'\n' ∷ join_lines (m ∷ ls)

-- The first event of these lines: a blank line ends it.
unfoldable pub process : Text → List Text → List Text → Option (Text × Text)
process event ds [] = none
process event ds (l ∷ ls) =
    let named = process (value (drop 6 l)) ds ls in
    let more = process event (ds ++ value (drop 5 l) ∷ []) ls in
    let other = process event ds ls in
    if is_blank l
    then some (event, join_lines ds)
    else if has_prefix (codes "event:") l
    then named
    else if has_prefix (codes "data:") l
    then more
    else other

unfoldable pub read_event : Text → Option (Text × Text)
read_event s = process [] [] (stream_lines false s)

abbrev pub LacksReturn : Text → Type 0
LacksReturn [] = Unit
LacksReturn (c ∷ s) = (c ≢ b'\r') × LacksReturn s

abbrev pub LacksBreak : Text → Type 0
LacksBreak [] = Unit
LacksBreak (c ∷ s) = (c ≢ b'\r') × ((c ≢ b'\n') × LacksBreak s)

stream_lines-append :
    (l s : Text) → LacksBreak l → stream_lines false (l ++ b'\n' ∷ s) ≡ l ∷ stream_lines false s
unfolding stream_lines
stream_lines-append [] s h = ground arith
stream_lines-append (c ∷ l) s (r, (n, h)) = ground (arith, stream_lines-append l s h)

-- There is always a line.
split_lines-cons : (s : Text) → (l : Text) × (ls : List Text) × (split_lines s ≡ l ∷ ls)
unfolding split_lines
split_lines-cons [] = ([], [], refl)
split_lines-cons (c ∷ s) =
    let (l, ls, e) = split_lines-cons s in
    elim (Bool-cases (c == b'\n')) [
      | inl hit ↦ ([], split_lines s, ground (arith, hit))
      | inr miss ↦ (c ∷ l, ls, ground (arith, miss, e))
    ]

join_lines-push_line :
    (c : ℕ) (l : Text) (ls : List Text)
    → join_lines (push_line c (l ∷ ls)) ≡ c ∷ join_lines (l ∷ ls)
join_lines-push_line c l [] = refl
join_lines-push_line c l (m ∷ ls) = refl

join_lines-blank :
    (l : Text) (ls : List Text) → join_lines ([] ∷ l ∷ ls) ≡ b'\n' ∷ join_lines (l ∷ ls)
join_lines-blank l ls = refl

join_lines-split_lines : (s : Text) → join_lines (split_lines s) ≡ s
unfolding split_lines
join_lines-split_lines [] = refl
join_lines-split_lines (c ∷ s) =
    let (l, ls, e) = split_lines-cons s in
    let ih : join_lines (l ∷ ls) ≡ s = ap join_lines (sym e) ∙ join_lines-split_lines s in
    elim (Bool-cases (c == b'\n')) [
      | inl hit ↦ rw hit (
          ap (λ ms. join_lines ([] ∷ ms)) e
          ∙ ap₂ (λ (b : ℕ) (t : Text). b ∷ t) (sym ((==_iff c b'\n').0 hit)) ih)
      | inr miss ↦
          rw miss (
            ap (λ ms. join_lines (push_line c ms)) e
            ∙ (join_lines-push_line c l ls ∙ ap (◌∷◌ c) ih))
    ]

not_newline : (c : ℕ) → (c == b'\n') ≡ false → c ≢ b'\n'
not_newline c miss = ground (arith, miss)

split_lines-LacksBreak : (s : Text) → LacksReturn s → All LacksBreak (split_lines s)
unfolding split_lines
split_lines-LacksBreak [] h = (tt, tt)
split_lines-LacksBreak (c ∷ s) (r, h) =
    let (l, ls, e) = split_lines-cons s in
    let ih = split_lines-LacksBreak s h in
    elim (Bool-cases (c == b'\n')) [
      | inl hit ↦ rw hit (tt, ih)
      | inr miss ↦
          let split : All LacksBreak (l ∷ ls) = subst (All LacksBreak) e ih in
          let pushed : All LacksBreak (push_line c (l ∷ ls)) =
            ((r, (not_newline c miss, split.0)), split.1) in
          rw miss (subst (All LacksBreak) (sym (ap (push_line c) e)) pushed)
    ]

prefixed-LacksBreak : (l : Text) → LacksBreak l → LacksBreak (codes "data: " ++ l)
unfolding codes
prefixed-LacksBreak l h = ground arith

named-LacksBreak : (l : Text) → LacksBreak l → LacksBreak (codes "event: " ++ l)
unfolding codes
named-LacksBreak l h = ground arith

-- The lines of the data, behind the lines `ds`, up to the blank line.
process-data :
    (event : Text) (ds ls : List Text)
    → All LacksBreak ls
    → process event ds (stream_lines false (data_lines ls ++ codes "\n"))
      ≡ some (event, join_lines (ds ++ ls))
unfolding data_lines codes process stream_lines has_prefix
process-data event ds [] h = ap (λ ms. some (event, join_lines ms)) (sym (append-nil ds))
process-data event ds (l ∷ ls) (h, hs) =
    let behind = data_lines ls ++ codes "\n" in
    ap (λ (x : Text). process event ds (stream_lines false (codes "data: " ++ x)))
      (append_assoc l (b'\n' ∷ data_lines ls) (codes "\n"))
    ∙ (ap (process event ds)
          (stream_lines-append (codes "data: " ++ l) behind (prefixed-LacksBreak l h))
        ∙ (process-data event (ds ++ l ∷ []) ls hs
            ∙ ap (λ ms. some (event, join_lines ms)) (append_assoc ds (l ∷ []) ls)))

-- An event whose name has no line break, with a payload that has no CR, is read back from the frame
-- that was written for it, whatever lines the payload has.
pub read_event-write_sse_event :
    (event payload : Text)
    → LacksBreak event
    → LacksReturn payload
    → read_event (write_sse_event event payload) ≡ some (event, payload)
unfolding read_event write_sse_event process has_prefix codes
read_event-write_sse_event event payload h r =
    let behind = data_lines (split_lines payload) ++ codes "\n" in
    ap (process [] [])
      (stream_lines-append (codes "event: " ++ event) behind (named-LacksBreak event h))
    ∙ (process-data event [] (split_lines payload) (split_lines-LacksBreak payload r)
        ∙ ap (λ (d : Text). some (event, d)) (join_lines-split_lines payload))
