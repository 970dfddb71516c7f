-- ===== src/Cache/Tests.antt =====
-- The in-memory backend with one counter, and typed values over it.
use trails.Base.{
  ℕ, ◌+◌, ◌≡◌, refl, arith, none, some, [], ◌∷◌, Text, codes, Result, ok, pos, lookup, ◌===◌,
}
use trails.Cache.Memory.{Backend, memory_store, run}
use trails.Cache.Memory.Refines.{live, memory_contract}
use trails.Cache.Memory.Sweep.{live-run}
use trails.Cache.Typed.{Codec, fetch, fetch_miss, cached}

abbrev backend : Backend
backend = record {
  entries =
      (codes "a", record { value = codes "1"; expires_at = some 50 })
      ∷ (codes "b", record { value = codes "2"; expires_at = none })
      ∷ [];
  cleanup_interval = pos 0;
}

live-run_example : live (run (60 ∷ 70 ∷ []) backend) 80 (codes "a") ≡ live backend 80 (codes "a")
unfolding lookup codes ◌===◌
live-run_example =
    live-run (60 ∷ 70 ∷ []) backend 80 (codes "a") (refl, (refl, tt))
      (omega arith, (omega arith, tt))

-- Texts as they are; an empty text does not decode.
abbrev plain : Codec Text
plain = record {
  marshal = λ v. some (b'.' ∷ v);
  unmarshal = λ bytes. elim bytes [ [] ↦ none | c ∷ cs ↦ some cs ];
}

-- Counts its calls.
abbrev fn : ℕ → ℕ × Result Text Text
fn calls = (calls + 1, ok (codes "new"))

fetch_miss_example :
    ((fetch memory_store plain fn (codes "a") (pos 9) 60 61 0 backend).0 ≡ 1)
    × ((fetch memory_store plain fn (codes "a") (pos 9) 60 61 0 backend).2 ≡ ok (codes "new"))
    × (cached plain (
          memory_contract.live
            (fetch memory_store plain fn (codes "a") (pos 9) 60 61 0 backend).1
            65
            (codes "a"))
        ≡ some (codes "new"))
unfolding lookup codes ◌===◌ memory_contract
fetch_miss_example =
    fetch_miss memory_store memory_contract plain fn (codes "a") (pos 9) 60 61 0 1 backend
      (codes "new") (codes ".new") 65 refl refl refl refl
