-- ===== src/Cache/Memory.antt =====
-- cache/backend/memory/memory.go: a map of entries behind a mutex. Each method runs under the
-- mutex, so it is one function on the map; `time.Now()` is its argument.
pub mod Sweep
pub mod Refines
use trails.Base.{
  ℕ, ◌+◌, Bool, true, false, Option, none, some, List, [], ◌∷◌, if◌then◌else◌, ltb, ℤ, pos, ltb_ℤ,
  pos_part, add_int64, Text, Table, lookup, insert, erase, Result, ok, err,
}
use trails.Base.Decimal.{format_int, parse_int}
use trails.Cache.Store.{Entry, Store}

unfoldable pub expired : Entry → ℕ → Bool
expired e now = elim e.expires_at [ none ↦ false | some t ↦ ltb t now ]

pub record Backend : Type 0 where
  pub entries : Table Entry
  pub cleanup_interval : ℤ

-- time.Minute
abbrev pub default_cleanup_interval : ℤ
default_cleanup_interval = pos 60000000000

abbrev pub MemoryOption : Type 0
MemoryOption = Backend → Backend

pub with_cleanup_interval : ℤ → MemoryOption
with_cleanup_interval d b = record b { cleanup_interval = d }

apply_options : List MemoryOption → Backend → Backend
apply_options [] b = b
apply_options (opt ∷ opts) b = apply_options opts (opt b)

unfoldable pub new : List MemoryOption → Backend
unfolding apply_options
new opts = apply_options opts (record { entries = []; cleanup_interval = default_cleanup_interval })

unfoldable pub read : Text → ℕ → Backend → Backend × Option Text
unfolding expired
read key now b = elim (lookup key b.entries) [
  | none ↦ (b, none)
  | some e ↦
      if expired e now
      then (record b { entries = erase key b.entries }, none)
      else (b, some e.value)
]

unfoldable pub write : Text → Text → ℤ → ℕ → Backend → Backend
write key value ttl now b = record b { entries = insert key entry b.entries }
  where
    expires_at : Option ℕ
    expires_at = if ltb_ℤ (pos 0) ttl then some (now + pos_part ttl) else none

    entry : Entry
    entry = record { value = value; expires_at = expires_at }

unfoldable pub delete : Text → Backend → Backend
delete key b = record b { entries = erase key b.entries }

unfoldable pub exist : Text → ℕ → Backend → Backend × Bool
unfolding expired
exist key now b = elim (lookup key b.entries) [
  | none ↦ (b, false)
  | some e ↦
      if expired e now then (record b { entries = erase key b.entries }, false) else (b, true)
]

-- The one way in which a call fails: "stored value is not an integer counter".
pub data NotACounter : Type 0 where
  not_a_counter : Text → NotACounter

create_counter : Text → ℤ → ℤ → ℕ → Backend → Backend × Result NotACounter (ℤ × Option ℕ)
create_counter key delta ttl now b = (
  record b {
    entries = insert key (record { value = format_int delta; expires_at = expires_at }) b.entries;
  },
  ok (delta, expires_at),
)
  where
    expires_at : Option ℕ
    expires_at = if ltb_ℤ (pos 0) ttl then some (now + pos_part ttl) else none

add_to_counter : Text → ℤ → Entry → Backend → Backend × Result NotACounter (ℤ × Option ℕ)
add_to_counter key delta e b = elim (parse_int e.value) [
  | none ↦ (b, err (not_a_counter key))
  | some cur ↦ (
    record b {
      entries =
          insert key
            (record { value = format_int (add_int64 cur delta); expires_at = e.expires_at })
            b.entries;
    },
    ok (add_int64 cur delta, e.expires_at),
  )
]

unfoldable pub increment : Text → ℤ → ℤ → ℕ → Backend → Backend × Result NotACounter (ℤ × Option ℕ)
unfolding create_counter add_to_counter expired
increment key delta ttl now b = elim (lookup key b.entries) [
  | none ↦ create_counter key delta ttl now b
  | some e ↦
      if expired e now then create_counter key delta ttl now b else add_to_counter key delta e b
]

unfoldable pub clear : Backend → Backend
clear b = record b { entries = [] }

-- The loop of `sweep`, over the entries as they stood when it began.
sweep_from : ℕ → Table Entry → Table Entry → Table Entry
sweep_from now [] m = m
sweep_from now ((key, e) ∷ rest) m = sweep_from now rest (if expired e now then erase key m else m)

unfoldable pub sweep : ℕ → Backend → Backend
unfolding sweep_from expired
sweep now b = record b { entries = sweep_from now b.entries b.entries }

-- `Run` sweeps at each tick until its context is cancelled.
unfoldable pub run : List ℕ → Backend → Backend
run [] b = b
run (tick ∷ ticks) b = run ticks (sweep tick b)

-- The backend as a `cache.Store`.
abbrev pub memory_store : Store
memory_store = record {
  State = Backend;
  Failure = NotACounter;
  read = λ k now b. let (b', v) = read k now b in (b', ok v);
  write = λ k v ttl now b. (write k v ttl now b, ok tt);
  delete = λ k now b. (delete k b, ok tt);
  exist = λ k now b. let (b', v) = exist k now b in (b', ok v);
  clear = λ now b. (clear b, ok tt);
  increment = increment;
}
