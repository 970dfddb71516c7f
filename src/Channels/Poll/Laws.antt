-- ===== src/Channels/Poll/Laws.antt =====
-- The poll ends, and delivers each row once, in the order of the ids.
use trails.Base.{ℕ, ◌≡◌, ◌<◌, arith, true, List, [], ◌∷◌, ltb, All}
use trails.Channels.Poll.{Row, pending}

abbrev Above : ℕ → Row → Type 0
Above c r = c < r.id

-- Each id is above those in front of it.
abbrev pub Ascends : List Row → Type 0
Ascends [] = Unit
Ascends (r ∷ rs) = All (Above r.id) rs × Ascends rs

All-mono : {P Q : Row → Type 0} (f : (r : Row) → P r → Q r) (rs : List Row) → All P rs → All Q rs
All-mono f [] h = tt
All-mono f (r ∷ rs) (h, hs) = (f r h, All-mono f rs hs)

due : (c : ℕ) (r : Row) (rs : List Row) → ltb c r.id ≡ true → pending c (r ∷ rs) ≡ r ∷ pending c rs
due c r rs e = ground (arith, e)
