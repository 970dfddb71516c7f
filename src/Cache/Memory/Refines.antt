-- ===== src/Cache/Memory/Refines.antt =====
-- The in-memory backend keeps the contract of cache/store.go.
use trails.Base.{
  ===_iff, ℕ, ◌≤◌, ◌≡◌, refl, Option, none, some, arith, ℤ, Text, ◌===◌, lookup, lookup-insert,
  lookup-erase, ok, err, if◌then◌else◌, is_some, add_int64,
}
use trails.Base.Decimal.{format_int, parse_int}
use trails.Cache.Store.{Entry, Contract, unless_expired, value_of, expiry}
use trails.Cache.Memory.{
  Backend, read, write, delete, exist, increment, clear, memory_store, NotACounter,
}

abbrev pub live : Backend → ℕ → Text → Option Entry
live b t k = unless_expired t (lookup k b.entries)

pub expires :
    (b : Backend) (t u : ℕ) (k : Text) → t ≤ u → live b u k ≡ unless_expired u (live b t k)
expires b t u k h = ground arith

pub read_value :
    (k : Text) (now : ℕ) (b : Backend)
    → (memory_store.read k now b).1 ≡ ok (value_of (live b now k))
unfolding read
read_value k now b = ground arith

pub read_keeps :
    (k : Text) (now : ℕ) (b : Backend) (t : ℕ) (j : Text)
    → now ≤ t
    → live (memory_store.read k now b).0 t j ≡ live b t j
unfolding read
read_keeps k now b t j h = ground (arith, lookup-erase j k b.entries, ===_iff k j)

pub exist_value :
    (k : Text) (now : ℕ) (b : Backend)
    → (memory_store.exist k now b).1 ≡ ok (is_some (live b now k))
unfolding exist
exist_value k now b = ground arith

pub exist_keeps :
    (k : Text) (now : ℕ) (b : Backend) (t : ℕ) (j : Text)
    → now ≤ t
    → live (memory_store.exist k now b).0 t j ≡ live b t j
unfolding exist
exist_keeps k now b t j h = ground (arith, lookup-erase j k b.entries, ===_iff k j)

pub write_sets :
    (k v : Text) (ttl : ℤ) (now : ℕ) (b : Backend) (t : ℕ) (j : Text)
    → live (write k v ttl now b) t j ≡ (
        if k === j
        then unless_expired t (some (record { value = v; expires_at = expiry ttl now }))
        else live b t j)
unfolding write
write_sets k v ttl now b t j =
    ground (arith, lookup-insert j k (record { value = v; expires_at = expiry ttl now }) b.entries)

pub delete_removes :
    (k : Text) (b : Backend) (t : ℕ) (j : Text)
    → live (delete k b) t j ≡ (if k === j then none else live b t j)
unfolding delete
delete_removes k b t j = ground (arith, lookup-erase j k b.entries)

pub clear_empties : (b : Backend) (t : ℕ) (j : Text) → live (clear b) t j ≡ none
unfolding clear lookup
clear_empties b t j = refl

pub increment_fresh :
    (k : Text) (delta ttl : ℤ) (now : ℕ) (b : Backend)
    → live b now k ≡ none
    → (increment k delta ttl now b).1 ≡ ok (delta, expiry ttl now)
unfolding increment
increment_fresh k delta ttl now b h = ground arith

pub increment_counter :
    (k : Text) (delta ttl : ℤ) (now : ℕ) (b : Backend) (e : Entry) (n : ℤ)
    → live b now k ≡ some e
    → parse_int e.value ≡ some n
    → (increment k delta ttl now b).1 ≡ ok (add_int64 n delta, e.expires_at)
unfolding increment
increment_counter k delta ttl now b e n h p = ground arith

pub increment_sets :
    (k : Text) (delta ttl : ℤ) (now : ℕ) (b : Backend) (n : ℤ) (x : Option ℕ) (t : ℕ) (j : Text)
    → (increment k delta ttl now b).1 ≡ ok (n, x)
    → live (increment k delta ttl now b).0 t j ≡ (
        if k === j
        then unless_expired t (some (record { value = format_int n; expires_at = x }))
        else live b t j)
unfolding increment
increment_sets k delta ttl now b n x t j h =
    ground (arith, lookup-insert j k (record { value = format_int n; expires_at = x }) b.entries)

pub increment_fails :
    (k : Text) (delta ttl : ℤ) (now : ℕ) (b : Backend) (e : NotACounter) (t : ℕ) (j : Text)
    → (increment k delta ttl now b).1 ≡ err e
    → live (increment k delta ttl now b).0 t j ≡ live b t j
unfolding increment
increment_fails k delta ttl now b e t j h = ground arith

-- The contract, by the lemmas above.
unfoldable pub memory_contract : Contract memory_store
memory_contract = record {
  live = live;
  expires = expires;
  read_value = read_value;
  read_keeps = read_keeps;
  exist_value = exist_value;
  exist_keeps = exist_keeps;
  write_ok = λ k v ttl now b. refl;
  write_sets = write_sets;
  delete_removes = λ k now b t j. delete_removes k b t j;
  clear_empties = λ now b t j. clear_empties b t j;
  increment_fresh = increment_fresh;
  increment_counter = increment_counter;
  increment_sets = λ k delta ttl now b n x t j h _. increment_sets k delta ttl now b n x t j h;
  increment_fails = increment_fails;
}

-- The in-memory backend implements the store interface: each method answers from the entries that
-- have not expired, changes only its own key, and keeps a counter's expiry while it counts.
pub memory-Contract : Contract memory_store
memory-Contract = memory_contract
