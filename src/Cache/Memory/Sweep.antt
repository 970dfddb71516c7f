-- ===== src/Cache/Memory/Sweep.antt =====
-- The background sweep of the in-memory backend, and the one entry to a key of a Go map.
use trails.Base.{
  All, ℕ, ◌≤◌, ◌≡◌, refl, ◌∙◌, Option, none, some, List, [], ◌∷◌, arith, ℤ, Text, ◌===◌, ===_iff,
  Table, lookup, erase, lookup-erase, HasUniqueKeys, insert-HasUniqueKeys, erase-HasUniqueKeys,
  if◌then◌else◌,
}
use trails.Cache.Store.{Entry, unless_expired}
use trails.Cache.Memory.{
  Backend, expired, read, write, delete, exist, increment, clear, sweep, sweep_from, run,
}
use trails.Cache.Memory.Refines.{live}

abbrev pub IsMap : Backend → Type 0
IsMap b = HasUniqueKeys b.entries

-- Sweeping forgets a key of the snapshot if one of its entries there has expired.
abbrev swept : ℕ → Table Entry → Text → Option Entry → Option Entry
swept now [] k o = o
swept now ((j, e) ∷ rest) k o =
    swept now rest k (if expired e now then (if j === k then none else o) else o)

lookup-sweep_from :
    (now : ℕ) (snapshot m : Table Entry) (k : Text)
    → lookup k (sweep_from now snapshot m) ≡ swept now snapshot k (lookup k m)
unfolding sweep_from
lookup-sweep_from now [] m k = refl
lookup-sweep_from now ((j, e) ∷ rest) m k =
    lookup-sweep_from now rest (if expired e now then erase j m else m) k
    ∙ ground (arith, lookup-erase k j m)

swept_absent :
    (now : ℕ) (snapshot : Table Entry) (k : Text) (o : Option Entry)
    → lookup k snapshot ≡ none
    → swept now snapshot k o ≡ o
unfolding lookup
swept_absent now [] k o h = refl
swept_absent now ((j, e) ∷ rest) k o h = ground (arith, swept_absent now rest k o)

swept_self :
    (now : ℕ) (m : Table Entry) (k : Text)
    → HasUniqueKeys m
    → swept now m k (lookup k m) ≡ unless_expired now (lookup k m)
unfolding lookup expired
swept_self now [] k u = refl
swept_self now ((j, e) ∷ rest) k (f, u) = ground (
  arith,
  ===_iff j k,
  swept_absent now rest k none,
  swept_absent now rest k (some e),
  swept_self now rest k u,
)

-- With one entry to a key, after a sweep the map holds exactly the entries that had not expired,
-- under their keys.
pub lookup-sweep :
    (now : ℕ) (b : Backend) (k : Text)
    → IsMap b
    → lookup k (sweep now b).entries ≡ unless_expired now (lookup k b.entries)
unfolding sweep
lookup-sweep now b k u = lookup-sweep_from now b.entries b.entries k ∙ swept_self now b.entries k u

sweep_from-IsMap :
    (now : ℕ) (snapshot m : Table Entry)
    → HasUniqueKeys m
    → HasUniqueKeys (sweep_from now snapshot m)
unfolding sweep_from
sweep_from-IsMap now [] m u = u
sweep_from-IsMap now ((j, e) ∷ rest) m u =
    sweep_from-IsMap now rest (if expired e now then erase j m else m)
      (ground (arith, erase-HasUniqueKeys j m u))

sweep-IsMap : (now : ℕ) (b : Backend) → IsMap b → IsMap (sweep now b)
unfolding sweep
sweep-IsMap now b u = sweep_from-IsMap now b.entries b.entries u

-- With one entry to a key, however often the backend has swept up to time t, a reader at t finds
-- what it found without.
pub live-run :
    (ticks : List ℕ) (b : Backend) (t : ℕ) (k : Text)
    → IsMap b
    → All (λ tick. tick ≤ t) ticks
    → live (run ticks b) t k ≡ live b t k
unfolding run
live-run [] b t k u h = refl
live-run (tick ∷ ticks) b t k u (h, hs) =
    live-run ticks (sweep tick b) t k (sweep-IsMap tick b u) hs
    ∙ ground (arith, lookup-sweep tick b k u)

-- A history of calls.
pub data Call : Type 0 where
  reads exists : Text → ℕ → Call
  writes : Text → Text → ℤ → ℕ → Call
  deletes : Text → Call
  increments : Text → ℤ → ℤ → ℕ → Call
  clears : Call
  sweeps : ℕ → Call

pub step : Backend → Call → Backend
step b (reads k now) = (read k now b).0
step b (exists k now) = (exist k now b).0
step b (writes k v ttl now) = write k v ttl now b
step b (deletes k) = delete k b
step b (increments k delta ttl now) = (increment k delta ttl now b).0
step b clears = clear b
step b (sweeps now) = sweep now b

-- Every method keeps one entry to a key.
pub step-IsMap : (b : Backend) (c : Call) → IsMap b → IsMap (step b c)
unfolding step
step-IsMap b (reads k now) u = unfold read in ground (arith, erase-HasUniqueKeys k b.entries u)
step-IsMap b (exists k now) u = unfold exist in ground (arith, erase-HasUniqueKeys k b.entries u)
step-IsMap b (writes k v ttl now) u = unfold write in insert-HasUniqueKeys k _ b.entries u
step-IsMap b (deletes k) u = unfold delete in erase-HasUniqueKeys k b.entries u
step-IsMap b (increments k delta ttl now) u =
    unfold increment in grind (arith, insert-HasUniqueKeys)
step-IsMap b clears u = unfold clear in tt
step-IsMap b (sweeps now) u = sweep-IsMap now b u
