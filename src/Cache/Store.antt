-- ===== src/Cache/Store.antt =====
-- cache/store.go: the interface `Store`, and the contract that its comments state. A store is a
-- state with operations; each is called at a time, in nanoseconds, and returns the new state.
use trails.Base.{
  ℕ, ◌+◌, ◌≤◌, ◌≡◌, Bool, false, Option, none, some, ltb, if◌then◌else◌, is_some, ℤ, pos, ltb_ℤ,
  pos_part, add_int64, Text, ◌===◌, Result, ok, err,
}
use trails.Base.Decimal.{format_int, parse_int}

-- A stored value with its expiry; `none` is the zero time, which never comes.
pub record Entry : Type 0 where
  pub value : Text
  pub expires_at : Option ℕ

abbrev pub is_after : ℕ → Option ℕ → Bool
is_after now none = false
is_after now (some t) = ltb t now

pub record Store : Type 1 where
  pub State : Type 0
  pub Failure : Type 0
  pub read : Text → ℕ → State → State × Result Failure (Option Text)
  pub write : Text → Text → ℤ → ℕ → State → State × Result Failure (Unit {0})
  pub delete : Text → ℕ → State → State × Result Failure (Unit {0})
  pub exist : Text → ℕ → State → State × Result Failure Bool
  pub clear : ℕ → State → State × Result Failure (Unit {0})
  pub increment : Text → ℤ → ℤ → ℕ → State → State × Result Failure (ℤ × Option ℕ)

-- "ttl <= 0 means never".
abbrev pub expiry : ℤ → ℕ → Option ℕ
expiry ttl now = if ltb_ℤ (pos 0) ttl then some (now + pos_part ttl) else none

abbrev pub unless_expired : ℕ → Option Entry → Option Entry
unless_expired t none = none
unless_expired t (some e) = if is_after t e.expires_at then none else some e

abbrev pub value_of : Option Entry → Option Text
value_of none = none
value_of (some e) = some e.value

-- What a key shows from time t on, after a call at `now`.
module _ (S : Store) where
  open S use {State, Failure, read, write, delete, exist, clear, increment}

  -- `live s t k` is the entry that a reader of `k` finds at time t.
  pub record Contract : Type 0 where
    pub live : State → ℕ → Text → Option Entry
    pub expires :
        (s : State) (t u : ℕ) (k : Text) → t ≤ u → live s u k ≡ unless_expired u (live s t k)
    pub read_value :
        (k : Text) (now : ℕ) (s : State) → (read k now s).1 ≡ ok (value_of (live s now k))
    pub read_keeps :
        (k : Text) (now : ℕ) (s : State) (t : ℕ) (j : Text)
        → now ≤ t
        → live (read k now s).0 t j ≡ live s t j
    pub exist_value :
        (k : Text) (now : ℕ) (s : State) → (exist k now s).1 ≡ ok (is_some (live s now k))
    pub exist_keeps :
        (k : Text) (now : ℕ) (s : State) (t : ℕ) (j : Text)
        → now ≤ t
        → live (exist k now s).0 t j ≡ live s t j
    pub write_ok : (k v : Text) (ttl : ℤ) (now : ℕ) (s : State) → (write k v ttl now s).1 ≡ ok tt
    pub write_sets :
        (k v : Text) (ttl : ℤ) (now : ℕ) (s : State) (t : ℕ) (j : Text)
        → live (write k v ttl now s).0 t j ≡ (
            if k === j
            then unless_expired t (some (record { value = v; expires_at = expiry ttl now }))
            else live s t j)
    pub delete_removes :
        (k : Text) (now : ℕ) (s : State) (t : ℕ) (j : Text)
        → live (delete k now s).0 t j ≡ (if k === j then none else live s t j)
    pub clear_empties : (now : ℕ) (s : State) (t : ℕ) (j : Text) → live (clear now s).0 t j ≡ none
    pub increment_fresh :
        (k : Text) (delta ttl : ℤ) (now : ℕ) (s : State)
        → live s now k ≡ none
        → (increment k delta ttl now s).1 ≡ ok (delta, expiry ttl now)
    pub increment_counter :
        (k : Text) (delta ttl : ℤ) (now : ℕ) (s : State) (e : Entry) (n : ℤ)
        → live s now k ≡ some e
        → parse_int e.value ≡ some n
        → (increment k delta ttl now s).1 ≡ ok (add_int64 n delta, e.expires_at)
    pub increment_sets :
        (k : Text) (delta ttl : ℤ) (now : ℕ) (s : State) (n : ℤ) (x : Option ℕ) (t : ℕ) (j : Text)
        → (increment k delta ttl now s).1 ≡ ok (n, x)
        → now ≤ t
        → live (increment k delta ttl now s).0 t j ≡ (
            if k === j
            then unless_expired t (some (record { value = format_int n; expires_at = x }))
            else live s t j)
    pub increment_fails :
        (k : Text) (delta ttl : ℤ) (now : ℕ) (s : State) (e : Failure) (t : ℕ) (j : Text)
        → (increment k delta ttl now s).1 ≡ err e
        → live (increment k delta ttl now s).0 t j ≡ live s t j
