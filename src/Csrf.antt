-- ===== src/Csrf.antt =====
-- csrf/csrf.go: a token of the session, masked in every page, and verified on every unsafe request.
pub mod Laws
mod Tests
use trails.Base.{
  ℕ, zero, suc, ◌+◌, ◌*◌, ◌/◌, ◌%◌, Bool, true, false, Option, none, some, List, [], ◌∷◌, ◌++◌,
  if◌then◌else◌, ◌==◌, Text, codes, ◌===◌, length, take, drop, Result, ok, err,
}
use trails.Web.Header.{get, contains}
use trails.Web.Base64.{url_encoding, encode, decode}
use trails.Web.Context.{Context, Request, Handler, MiddlewareFunc, http_error, invalid_token}
use trails.Session.{Session, csrf_token}

pub record Config : Type 0 where
  pub field_name : Text
  pub header_name : Text

abbrev pub CsrfOption : Type 0
CsrfOption = Config → Config

unfoldable pub with_field_name : Text → CsrfOption
with_field_name name c = record c { field_name = name }

unfoldable pub with_header_name : Text → CsrfOption
with_header_name name c = record c { header_name = name }

apply_options : List CsrfOption → Config → Config
apply_options [] c = c
apply_options (opt ∷ opts) c = apply_options opts (opt c)

unfoldable pub new_config : List CsrfOption → Config
unfolding apply_options
new_config opts =
    apply_options opts
      (record { field_name = codes "authenticity_token"; header_name = codes "X-CSRF-Token" })

abbrev pub safe_methods : List Text
safe_methods = codes "GET" ∷ codes "HEAD" ∷ codes "OPTIONS" ∷ codes "TRACE" ∷ []

-- Go's `^` on the lowest bits, by their number.
unfoldable pub xor_bits : ℕ → ℕ → ℕ → ℕ
xor_bits zero a b = 0
xor_bits (suc n) a b = (a % 2 + b % 2) % 2 + 2 * xor_bits n (a / 2) (b / 2)

-- The loop over two slices of one length.
unfoldable pub xor_bytes : List ℕ → List ℕ → List ℕ
unfolding xor_bits
xor_bytes (a ∷ as') (b ∷ bs) = xor_bits 8 a b ∷ xor_bytes as' bs
xor_bytes _ _ = []

-- `m` is what `rand.Read` fills in, as long as the token.
unfoldable pub mask : List ℕ → List ℕ → Text
unfolding xor_bytes encode
mask m real = encode url_encoding (m ++ xor_bytes m real)

unfoldable pub verify : List ℕ → Text → Bool
unfolding xor_bytes decode
verify real submitted = if submitted === [] then false else elim (decode url_encoding submitted) [
  | none ↦ false
  | some raw ↦
      if length raw == 2 * length real
      then xor_bytes (take (length real) raw) (drop (length real) raw) === real
      else false
]

abbrev pub submitted_token : Config → Request → Text
submitted_token cfg r =
    let submitted = get cfg.header_name r.header in
    if submitted === [] then r.form cfg.field_name else submitted

module _ {J W : Type 0} where
  -- The session is part of the state; `fresh` is what its token is made of where it has none.
  unfoldable pub middleware : Config → List ℕ → MiddlewareFunc (Session J × W)
  middleware cfg fresh next c (sess, w) =
      let (sess', token) = csrf_token fresh sess in
      if contains c.request.method safe_methods
      then next c (sess, w)
      else if verify token (submitted_token cfg c.request)
      then next c (sess', w)
      else (c, (sess', w), err (http_error 403 invalid_token))

-- The masked token that a page carries.
unfoldable pub page_token : {J : Type 0} → List ℕ → List ℕ → Session J → Session J × Text
unfolding csrf_token mask
page_token fresh m sess = let (sess', token) = csrf_token fresh sess in (sess', mask m token)

-- template.HTMLEscapeString
escape_byte : ℕ → Text
escape_byte c =
    if c == b'"'
    then codes "&#34;"
    else if c == b'\''
    then codes "&#39;"
    else if c == b'&'
    then codes "&amp;"
    else if c == b'<'
    then codes "&lt;"
    else if c == b'>'
    then codes "&gt;"
    else if c == 0
    then 239 ∷ 191 ∷ 189 ∷ []
    else c ∷ []

html_escape : Text → Text
unfolding escape_byte
html_escape [] = []
html_escape (c ∷ s) = escape_byte c ++ html_escape s

pub csrf_field : Config → Text → Text
unfolding html_escape
csrf_field cfg token =
    codes "<input type=\"hidden\" name=\""
    ++ (html_escape cfg.field_name ++ (codes "\" value=\"" ++ (token ++ codes "\">")))

pub csrf_meta_tag : Config → Text → Text
unfolding html_escape
csrf_meta_tag cfg token =
    codes "<meta name=\"csrf-param\" content=\""
    ++ (html_escape cfg.field_name
        ++ (codes "\"><meta name=\"csrf-token\" content=\"" ++ (token ++ codes "\">")))
