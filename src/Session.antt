-- ===== src/Session.antt =====
-- session/session.go: a request's session data. J stands for the values that are not strings. The
-- mutex makes each method one step.
pub mod Cookie
pub mod Laws
mod Tests
use trails.Base.{
  ℕ, Bool, true, false, Option, none, some, List, [], ◌∷◌, if◌then◌else◌, ◌==◌, Text, codes, Table,
  lookup, insert, erase, length, is_some, ltb,
}
use trails.Web.Base64.{std_encoding, encode, decode}

pub data Value (J : Type 0) : Type 0 where
  text : Text → Value J
  other : J → Value J

pub record Session (J : Type 0) : Type 0 where
  pub data_ : Table (Value J)
  pub dirty : Bool

abbrev pub csrf_token_key : Text
csrf_token_key = codes "_csrf_token"

abbrev pub csrf_token_len : ℕ
csrf_token_len = 32

module _ {J : Type 0} where
  unfoldable pub new : Session J
  new = record { data_ = []; dirty = false }

  unfoldable pub get : Text → Session J → Option (Value J)
  unfolding lookup
  get key s = lookup key s.data_

  unfoldable pub set : Text → Value J → Session J → Session J
  unfolding insert
  set key val s = record { data_ = insert key val s.data_; dirty = true }

  unfoldable pub delete : Text → Session J → Session J
  unfolding lookup erase
  delete key s =
      if is_some (lookup key s.data_) then record { data_ = erase key s.data_; dirty = true } else s

  unfoldable pub clear : Session J → Session J
  clear s = if ltb 0 (length s.data_) then record { data_ = []; dirty = true } else s

  abbrev pub is_dirty : Session J → Bool
  is_dirty s = s.dirty

  abbrev pub is_empty : Session J → Bool
  is_empty s = length s.data_ == 0

  abbrev pub snapshot : Session J → Table (Value J)
  snapshot s = s.data_

  -- The token that is stored, if it is a text that decodes to the right length.
  unfoldable pub stored_token : Session J → Option (List ℕ)
  unfolding get decode
  stored_token s = elim (get csrf_token_key s) [
    | some (text raw) ↦ elim (decode std_encoding raw) [
      | some token ↦ if length token == csrf_token_len then some token else none
      | none ↦ none
    ]
    | some (other j) ↦ none
    | none ↦ none
  ]

  -- `fresh` is what `rand.Read` fills in, which is read only where no token is stored.
  unfoldable pub csrf_token : List ℕ → Session J → Session J × List ℕ
  unfolding stored_token set encode
  csrf_token fresh s = elim (stored_token s) [
    | some token ↦ (s, token)
    | none ↦ (set csrf_token_key (text (encode std_encoding fresh)) s, fresh)
  ]
