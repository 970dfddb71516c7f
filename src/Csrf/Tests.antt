-- ===== src/Csrf/Tests.antt =====
-- A session with a token of 32 bytes, and a page that carries it.
use trails.Base.{
  ℕ, ◌≡◌, ◌≢◌, ◌⊎◌, ◌↔◌, refl, arith, true, false, none, List, [], ◌∷◌, codes, ok, err, lookup,
  ◌===◌,
}
use trails.Web.Base64.{std_encoding, encode, decode}
use trails.Web.Header.{contains, get as get_header}
use trails.Web.Context.{Context, Handler, http_error, invalid_token}
use trails.Session.{Session, text, stored_token, get, csrf_token_key}
use trails.Csrf.{Config, mask, verify, middleware, new_config}
use trails.Csrf.Laws.{verify-mask, middleware_unsafe}

abbrev token : List ℕ
token =
    0 ∷ 1 ∷ 2 ∷ 3 ∷ 4 ∷ 5 ∷ 6 ∷ 7 ∷ 8 ∷ 9 ∷ 10 ∷ 11 ∷ 12 ∷ 13 ∷ 14 ∷ 15 ∷ 16 ∷ 17 ∷ 18 ∷ 19 ∷ 20
    ∷ 21 ∷ 22 ∷ 23 ∷ 24 ∷ 25 ∷ 26 ∷ 27 ∷ 28 ∷ 29 ∷ 30 ∷ 255 ∷ []

abbrev noise : List ℕ
noise =
    9 ∷ 1 ∷ 2 ∷ 3 ∷ 4 ∷ 5 ∷ 6 ∷ 7 ∷ 8 ∷ 9 ∷ 10 ∷ 11 ∷ 12 ∷ 13 ∷ 14 ∷ 15 ∷ 16 ∷ 17 ∷ 18 ∷ 19 ∷ 20
    ∷ 21 ∷ 22 ∷ 23 ∷ 24 ∷ 25 ∷ 26 ∷ 27 ∷ 28 ∷ 29 ∷ 30 ∷ 200 ∷ []

verify-mask_example : (verify token (mask noise token) ≡ true) ↔ (token ≡ token)
verify-mask_example =
    verify-mask noise token token (omega arith) refl refl (ground arith) (ground arith)

abbrev session : Session ℕ
session = record { data_ = (csrf_token_key, text (encode std_encoding token)) ∷ []; dirty = false }

abbrev cfg : Config
cfg = new_config []

abbrev context : Context
context = record {
  request = record {
    method = codes "POST";
    path = codes "/";
    host = codes "localhost";
    remote_addr = codes "10.0.0.1:99";
    tls = false;
    header = [];
    form = λ name. mask noise token;
  };
  header = [];
  status = none;
  client_ip = [];
  scheme = [];
}

abbrev accept : Handler (Session ℕ × Unit {0})
accept c w = (c, w, ok tt)

middleware_unsafe_example :
    ((token ≡ token)
      × (middleware cfg [] accept context (session, tt) ≡ accept context (session, tt)))
    ⊎ ((token ≢ token)
        × (middleware cfg [] accept context (session, tt)
            ≡ (context, (session, tt), err (http_error 403 invalid_token))))
unfolding get_header codes contains ◌===◌ stored_token get lookup encode decode
middleware_unsafe_example =
    middleware_unsafe cfg [] noise token token accept context session tt refl refl refl
      (omega arith) refl refl (ground arith) (ground arith)
