-- ===== src/Session/Cookie.antt =====
-- session/middleware.go: the session's cookie, read when a request comes in and written once, just
-- before the response's first byte. JSON of encoding/json is a parameter.
pub mod Laws
use trails.Base.{
  ℕ, ◌/◌, ◌^◌, Bool, true, false, not, ◌&&◌, Option, none, some, List, [], ◌∷◌, ◌++◌, if◌then◌else◌,
  Text, codes, Table, length, ℤ, pos, negsuc, ltb_ℤ, pos_part, ◌===◌,
}
use trails.Web.Header.{trim_space}
use trails.Credentials.{Aead, encrypt, decrypt}
use trails.Session.{Session, Value, new, is_dirty, is_empty, snapshot}

pub data SameSite : Type 0 where
  default_mode lax_mode strict_mode none_mode : SameSite

pub record Config : Type 0 where
  pub cookie_name : Text
  pub path : Text
  pub same_site : SameSite
  pub secure : Bool
  pub secure_set : Bool
  pub max_age : ℤ
  pub max_cookie_bytes : ℤ

abbrev pub SessionOption : Type 0
SessionOption = Config → Config

unfoldable pub with_cookie_name : Text → SessionOption
with_cookie_name name c = record c { cookie_name = name }

unfoldable pub with_path : Text → SessionOption
with_path path c = record c { path = path }

unfoldable pub with_same_site : SameSite → SessionOption
with_same_site s c = record c { same_site = s }

unfoldable pub with_secure : Bool → SessionOption
with_secure secure c = record c { secure = secure; secure_set = true }

unfoldable pub with_max_age : ℤ → SessionOption
with_max_age d c = record c { max_age = d }

unfoldable pub with_max_cookie_bytes : ℤ → SessionOption
with_max_cookie_bytes n c = record c { max_cookie_bytes = n }

apply_options : List SessionOption → Config → Config
apply_options [] c = c
apply_options (opt ∷ opts) c = apply_options opts (opt c)

default_secure : Text → Config → Config
default_secure environment c = if c.secure_set then c else record c {
  secure = not (environment === codes "development") && not (environment === codes "test");
}

-- `environment` is trails.Environment().
unfoldable pub new_config : Text → List SessionOption → Config
unfolding apply_options default_secure
new_config environment opts = default_secure environment (
    apply_options opts (record {
      cookie_name = codes "_trails_session";
      path = codes "/";
      same_site = lax_mode;
      secure = false;
      secure_set = false;
      max_age = pos 0;
      max_cookie_bytes = pos 4093;
    }))

-- net/http's Cookie; a `max_age` of 0 is left out, and a negative one deletes.
pub record Cookie : Type 0 where
  pub name : Text
  pub value : Text
  pub path : Text
  pub http_only : Bool
  pub secure : Bool
  pub same_site : SameSite
  pub max_age : ℤ

pub record Json (J : Type 0) : Type 0 where
  pub marshal : Table (Value J) → Option Text
  pub unmarshal : Text → Option (Table (Value J))

-- The response, with a cookie name that `http.SetCookie` takes: its Set-Cookie headers, its status,
-- its body, and whether the session is committed.
pub record CommitWriter : Type 0 where
  pub cookies : List Cookie
  pub status : Option ℕ
  pub body : Text
  pub committed : Bool

module _ (A : Aead) {J : Type 0} (json : Json J) (secret_key_base : Text) (cfg : Config) where
  -- `none` is a request without the cookie.
  unfoldable pub load : Option Text → Session J
  unfolding new decrypt
  load none = new
  load (some value) = elim (decrypt A secret_key_base value) [
    | none ↦ new
    | some plaintext ↦ elim (json.unmarshal plaintext) [
      | none ↦ new
      | some table ↦ record { data_ = table; dirty = false }
    ]
  ]

  abbrev pub deletion : Cookie
  deletion = record {
    name = cfg.cookie_name;
    value = [];
    path = cfg.path;
    http_only = true;
    secure = cfg.secure;
    same_site = cfg.same_site;
    max_age = negsuc 0;
  }

  abbrev pub cookie_of : Text → Cookie
  cookie_of value = record {
    name = cfg.cookie_name;
    value = value;
    path = cfg.path;
    http_only = true;
    secure = cfg.secure;
    same_site = cfg.same_site;
    max_age = if ltb_ℤ (pos 0) cfg.max_age then pos (pos_part cfg.max_age / 10 ^ 9) else pos 0;
  }

  -- The cookie to set, if any; the nonce is what `Encrypt` draws.
  unfoldable pub session_cookie : List ℕ → Session J → Option Cookie
  unfolding encrypt trim_space
  session_cookie nonce sess =
      if not (is_dirty sess)
      then none
      else if is_empty sess
      then some deletion
      else elim (json.marshal (snapshot sess)) [
        | none ↦ none
        | some plaintext ↦ elim (encrypt A secret_key_base nonce plaintext) [
          | none ↦ none
          | some encrypted ↦
              if ltb_ℤ cfg.max_cookie_bytes (pos (length (trim_space encrypted)))
              then none
              else some (cookie_of (trim_space encrypted))
        ]
      ]

  unfoldable pub persist : List ℕ → Session J → List Cookie → List Cookie
  unfolding session_cookie
  persist nonce sess cookies = elim (session_cookie nonce sess) [
    | none ↦ cookies
    | some c ↦ cookies ++ c ∷ []
  ]

  unfoldable pub commit_once : List ℕ → Session J → CommitWriter → CommitWriter
  unfolding persist
  commit_once nonce sess w =
      if w.committed
      then w
      else record w { cookies = persist nonce sess w.cookies; committed = true }

  -- The first status counts; a body without one has 200.
  unfoldable pub write_header : List ℕ → Session J → ℕ → CommitWriter → CommitWriter
  unfolding commit_once
  write_header nonce sess code w =
      let w' = commit_once nonce sess w in
      elim w'.status [ none ↦ record w' { status = some code } | some old ↦ w' ]

  unfoldable pub write : List ℕ → Session J → Text → CommitWriter → CommitWriter
  unfolding commit_once
  write nonce sess bytes w =
      let w' = commit_once nonce sess w in
      elim w'.status [
        | none ↦ record w' { status = some 200; body = w'.body ++ bytes }
        | some old ↦ record w' { body = w'.body ++ bytes }
      ]

  -- The handlers behind get the loaded session, and the response wrapped.
  unfoldable pub middleware :
      {R : Type 0} → (Session J → CommitWriter → R) → Option Text → CommitWriter → R
  unfolding load
  middleware next request_cookie w = next (load request_cookie) (record w { committed = false })
