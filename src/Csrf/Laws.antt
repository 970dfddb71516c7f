-- ===== src/Csrf/Laws.antt =====
-- A masked token verifies exactly as the token that it masks.
use trails.Base.{
  ℕ, zero, suc, ◌+◌, ◌*◌, ◌/◌, ◌%◌, ◌<◌, ◌≡◌, ◌≢◌, ◌⊎◌, inl, inr, ◌↔◌, ◌∙◌, refl, sym, ap, ap₂,
  Bool, true, false, some, List, [], ◌∷◌, ◌++◌, arith, if◌then◌else◌, ◌==◌, ==_iff, Text, ◌===◌,
  ===_iff, All-append, length, length-append, take, drop, take-append_length, drop-append_length,
  Bool-cases, Result, err,
}
use trails.Web.Header.{contains}
use trails.Web.Base64.{url_encoding, encode, decode}
use trails.Web.Base64.Laws.{IsBytes, decode-encode, url_encoding-IsAlphabet}
use trails.Web.Context.{Context, Handler, Failure, http_error, invalid_token}
use trails.Session.{Session, stored_token}
use trails.Session.Laws.{csrf_token_stored}
use trails.Csrf.{
  Config, xor_bits, xor_bytes, mask, verify, middleware, safe_methods, submitted_token,
}

low_bits : ℕ → ℕ → ℕ
low_bits zero b = 0
low_bits (suc n) b = b % 2 + 2 * low_bits n (b / 2)

xor_bits_twice : (n a b : ℕ) → xor_bits n a (xor_bits n a b) ≡ low_bits n b
unfolding xor_bits low_bits
xor_bits_twice zero a b = refl
xor_bits_twice (suc n) a b =
    let x = xor_bits n (a / 2) (b / 2) in
    let low = (a % 2 + b % 2) % 2 in
    let half : (low + 2 * x) / 2 ≡ x = omega arith in
    let bit : (a % 2 + (low + 2 * x) % 2) % 2 ≡ b % 2 = omega arith in
    ap₂ (λ (i j : ℕ). i + 2 * j) bit
      (ap (xor_bits n (a / 2)) half ∙ xor_bits_twice n (a / 2) (b / 2))

xor_bits_involutive : (a b : ℕ) → b < 256 → xor_bits 8 a (xor_bits 8 a b) ≡ b
unfolding low_bits
xor_bits_involutive a b h = xor_bits_twice 8 a b ∙ omega arith

low_bits_bound : (b : ℕ) → low_bits 8 b < 256
unfolding low_bits
low_bits_bound b = omega arith

xor_bits-IsByte : (a b : ℕ) → xor_bits 8 a b < 256
unfolding xor_bits
xor_bits-IsByte a b = omega arith

xor_bytes-IsBytes : (m bs : List ℕ) → IsBytes (xor_bytes m bs)
unfolding xor_bytes
xor_bytes-IsBytes [] bs = tt
xor_bytes-IsBytes (a ∷ m) [] = tt
xor_bytes-IsBytes (a ∷ m) (b ∷ bs) = (xor_bits-IsByte a b, xor_bytes-IsBytes m bs)

length-xor_bytes : (m bs : List ℕ) → length m ≡ length bs → length (xor_bytes m bs) ≡ length m
unfolding xor_bytes
length-xor_bytes [] bs h = refl
length-xor_bytes (a ∷ m) [] h = absurd (omega arith)
length-xor_bytes (a ∷ m) (b ∷ bs) h = ap suc (length-xor_bytes m bs (omega arith))

xor_bytes_involutive :
    (m bs : List ℕ) → length m ≡ length bs → IsBytes bs → xor_bytes m (xor_bytes m bs) ≡ bs
unfolding xor_bytes
xor_bytes_involutive [] [] h u = refl
xor_bytes_involutive [] (b ∷ bs) h u = absurd (omega arith)
xor_bytes_involutive (a ∷ m) [] h u = absurd (omega arith)
xor_bytes_involutive (a ∷ m) (b ∷ bs) h (k, u) =
    ap₂ ◌∷◌ (xor_bits_involutive a b k) (xor_bytes_involutive m bs (omega arith) u)

mask_nonempty : (m token : List ℕ) → 0 < length m → (mask m token === []) ≡ false
unfolding mask encode ◌===◌ xor_bytes
mask_nonempty [] token h = absurd (omega arith)
mask_nonempty (a ∷ []) [] h = refl
mask_nonempty (a ∷ []) (b ∷ token) h = ground arith
mask_nonempty (a ∷ c ∷ []) [] h = refl
mask_nonempty (a ∷ c ∷ []) (b ∷ []) h = refl
mask_nonempty (a ∷ c ∷ []) (b ∷ d ∷ token) h = refl
mask_nonempty (a ∷ c ∷ e ∷ m) token h = refl

-- The bytes that a masked token decodes to, cut in two and combined again.
unmasked :
    (m token : List ℕ) (n : ℕ)
    → length m ≡ n
    → length token ≡ n
    → IsBytes token
    → xor_bytes (take n (m ++ xor_bytes m token)) (drop n (m ++ xor_bytes m token)) ≡ token
unmasked m token n lm lt bt =
    let masked = xor_bytes m token in
    let left : take n (m ++ masked) ≡ m =
      ap (λ i. take i (m ++ masked)) (sym lm) ∙ take-append_length m masked in
    let right : drop n (m ++ masked) ≡ masked =
      ap (λ i. drop i (m ++ masked)) (sym lm) ∙ drop-append_length m masked in
    ap₂ xor_bytes left right ∙ xor_bytes_involutive m token (lm ∙ sym lt) bt

verify_raw :
    (real : List ℕ) (submitted : Text) (raw : List ℕ)
    → (submitted === []) ≡ false
    → decode url_encoding submitted ≡ some raw
    → (length raw == 2 * length real) ≡ true
    → verify real submitted ≡ (xor_bytes (take (length real) raw) (drop (length real) raw) === real)
unfolding verify
verify_raw real submitted raw a b c = rw (a, b, c) refl

verify-mask_test :
    (m token real : List ℕ)
    → 0 < length real
    → length token ≡ length real
    → length m ≡ length real
    → IsBytes m
    → IsBytes token
    → verify real (mask m token) ≡ (token === real)
verify-mask_test m token real long lt lm bm bt =
    let n = length real in
    let raw = m ++ xor_bytes m token in
    let filled : (mask m token === []) ≡ false = mask_nonempty m token (omega arith) in
    let decoded : decode url_encoding (mask m token) ≡ some raw =
      unfold mask in
      decode-encode url_encoding url_encoding-IsAlphabet raw
        (All-append (λ x. x < 256) m (xor_bytes m token) bm (xor_bytes-IsBytes m token)) in
    let size : length raw ≡ 2 * n =
      omega (arith, length-append m (xor_bytes m token), length-xor_bytes m token (lm ∙ sym lt)) in
    verify_raw real (mask m token) raw filled decoded ((==_iff (length raw) (2 * n)).1 size)
    ∙ ap (λ t. t === real) (unmasked m token n lm lt bt)

-- A token that is not empty, masked by random bytes of its length, verifies against a token of
-- that length exactly if it is this token.
pub verify-mask :
    (m token real : List ℕ)
    → 0 < length real
    → length token ≡ length real
    → length m ≡ length real
    → IsBytes m
    → IsBytes token
    → (verify real (mask m token) ≡ true) ↔ (token ≡ real)
verify-mask m token real long lt lm bm bt =
    let e = verify-mask_test m token real long lt lm bm bt in
    (λ v. (===_iff token real).0 (sym e ∙ v), λ q. e ∙ (===_iff token real).1 q)

middleware_checks :
    {J W : Type 0} (cfg : Config) (fresh real : List ℕ) (next : Handler (Session J × W))
    (c : Context) (sess : Session J) (w : W)
    → contains c.request.method safe_methods ≡ false
    → stored_token sess ≡ some real
    → middleware cfg fresh next c (sess, w) ≡ (
        if verify real (submitted_token cfg c.request)
        then next c (sess, w)
        else (c, (sess, w), err (http_error 403 invalid_token)))
unfolding middleware
middleware_checks cfg fresh real next c sess w unsafe stored =
    rw (csrf_token_stored fresh real sess stored, unsafe) refl

-- An unsafe request of a session that has a token, which submits a token of that length masked by
-- as many random bytes: it runs the handlers behind if that is the session's token, and is
-- answered 403 if it is another; the session stays as it is.
pub middleware_unsafe :
    {J W : Type 0} (cfg : Config) (fresh m token real : List ℕ) (next : Handler (Session J × W))
    (c : Context) (sess : Session J) (w : W)
    → contains c.request.method safe_methods ≡ false
    → stored_token sess ≡ some real
    → submitted_token cfg c.request ≡ mask m token
    → 0 < length real
    → length token ≡ length real
    → length m ≡ length real
    → IsBytes m
    → IsBytes token
    → ((token ≡ real) × (middleware cfg fresh next c (sess, w) ≡ next c (sess, w)))
      ⊎ ((token ≢ real)
          × (middleware cfg fresh next c (sess, w)
              ≡ (c, (sess, w), err (http_error 403 invalid_token))))
middleware_unsafe {J} {W} cfg fresh m token real next c sess w unsafe stored sub long lt lm bm bt =
    let e : verify real (submitted_token cfg c.request) ≡ (token === real) =
      ap (verify real) sub ∙ verify-mask_test m token real long lt lm bm bt in
    let checks = middleware_checks cfg fresh real next c sess w unsafe stored in
    elim (Bool-cases (token === real)) [
      | inl hit ↦ inl ((===_iff token real).0 hit, checks ∙ branch (e ∙ hit))
      | inr miss ↦
          inr (λ q. differ (sym miss ∙ (===_iff token real).1 q), checks ∙ branch (e ∙ miss))
    ]
  where
    differ : ¬ (false ≡ true)
    differ q = absurd (cc)

    passed : Context × (Session J × W) × Result Failure (Unit {0})
    passed = next c (sess, w)

    refused : Context × (Session J × W) × Result Failure (Unit {0})
    refused = (c, (sess, w), err (http_error 403 invalid_token))

    branch :
        {b b' : Bool} → b ≡ b' → (if b then passed else refused) ≡ (if b' then passed else refused)
    branch q = ap (λ b. if b then passed else refused) q
