-- ===== src/SecureHeaders/Headers.antt =====
-- Which headers a response gets, header by header.
use trails.Base.{
  ℕ, ◌≡◌, ◌∙◌, refl, ap, append-nil, arith, Bool, true, false, ◌/◌, ◌^◌, List, [], ◌∷◌, ◌++◌, map,
  Text, codes, ◌===◌, Table, if◌then◌else◌, Bool-cases, inl, inr, ltb, length, pos, ltb_ℤ, pos_part,
}
use trails.Base.Decimal.{format_int}
use trails.Web.Header.{join, Header, get, canonical}
use trails.Web.Context.{Context, Handler}
use trails.SecureHeaders.{
  csp_value, hsts_value, Config, set_all, build_headers, middleware, is_given,
}
use trails.SecureHeaders.Layers.{
  is_secured, get-layered, layered_hsts, layered_nosniff, layered_frame, layered_referrer,
  layered_csp, layered_others,
}
use trails.SecureHeaders.Laws.{SameMap, IsAscending, csp_value-IsAscending, length-SameMap}

-- What Strict-Transport-Security says: the age in whole seconds, and the two flags.
abbrev pub hsts_text : ℕ → Bool → Bool → Text
hsts_text seconds false false = codes "max-age=" ++ format_int (pos seconds)
hsts_text seconds true false =
    codes "max-age=" ++ (format_int (pos seconds) ++ codes "; includeSubDomains")
hsts_text seconds false true = codes "max-age=" ++ (format_int (pos seconds) ++ codes "; preload")
hsts_text seconds true true =
    codes "max-age=" ++ (format_int (pos seconds) ++ codes "; includeSubDomains; preload")

-- What is written over the value before: nothing, where the text is empty.
abbrev pub given_or : Text → Text → Text
given_or [] old = old
given_or (c ∷ s) old = c ∷ s

abbrev pub directive_text : Text × List Text → Text
directive_text (name, sources) = name ++ (codes " " ++ join (codes " ") sources)

abbrev pub policy_or : Table (List Text) → Text → Text
policy_or [] old = old
policy_or (d ∷ ds) old = join (codes "; ") (map directive_text (d ∷ ds))

-- `h` is `old` with the headers that are configured; `policy` is the policy's directives in order.
pub record Secured (cfg : Config) (policy : Table (List Text)) (old h : Header) : Type 0 where
  pub hsts : get (codes "Strict-Transport-Security") h ≡ (
      if ltb_ℤ (pos 0) cfg.hsts_max_age
      then hsts_text
          (pos_part cfg.hsts_max_age / 10 ^ 9)
          cfg.hsts_include_sub_domains
          cfg.hsts_preload
      else get (codes "Strict-Transport-Security") old)
  pub nosniff : get (codes "X-Content-Type-Options") h ≡ (
      if cfg.content_type_nosniff
      then codes "nosniff"
      else get (codes "X-Content-Type-Options") old)
  pub frame :
      get (codes "X-Frame-Options") h
      ≡ given_or cfg.frame_options (get (codes "X-Frame-Options") old)
  pub referrer :
      get (codes "Referrer-Policy") h
      ≡ given_or cfg.referrer_policy (get (codes "Referrer-Policy") old)
  pub csp :
      get (codes "Content-Security-Policy") h
      ≡ policy_or policy (get (codes "Content-Security-Policy") old)
  pub others : (k : Text) → is_secured k ≡ false → get k h ≡ get k old

hsts_text-value :
    (cfg : Config)
    → hsts_value cfg
      ≡ hsts_text (pos_part cfg.hsts_max_age / 10 ^ 9) cfg.hsts_include_sub_domains cfg.hsts_preload
unfolding hsts_value codes
hsts_text-value cfg = elim (Bool-cases cfg.hsts_include_sub_domains) [
  | inl a ↦ elim (Bool-cases cfg.hsts_preload) [ inl b ↦ rw (a, b) refl | inr b ↦ rw (a, b) refl ]
  | inr a ↦ elim (Bool-cases cfg.hsts_preload) [
    | inl b ↦ rw (a, b) refl
    | inr b ↦ rw (a, b) (ap (λ t. codes "max-age=" ++ t) (append-nil _))
  ]
]

given_policy :
    (n : Table (List Text)) (old : Text)
    → (if ltb 0 (length n) then join (codes "; ") (map directive_text n) else old) ≡ policy_or n old
given_policy [] old = refl
given_policy (d ∷ ds) old = ground arith

policy_given :
    (m n : Table (List Text)) (old : Text)
    → SameMap m n
    → IsAscending n
    → (if ltb 0 (length m) then csp_value m else old) ≡ policy_or n old
policy_given m n old s a =
    rw (length-SameMap m n s, csp_value-IsAscending m n s a) (given_policy n old)

given : (t old : Text) → (if is_given t then t else old) ≡ given_or t old
given [] old = refl
given (c ∷ s) old = refl

secured :
    (cfg : Config) (policy : Table (List Text)) (old : Header)
    → SameMap cfg.csp policy
    → IsAscending policy
    → Secured cfg policy old (set_all (build_headers cfg) old)
unfolding codes canonical ◌===◌
secured cfg policy old s a = record {
  hsts =
      get-layered (codes "Strict-Transport-Security") cfg old
      ∙ (layered_hsts (codes "Strict-Transport-Security") cfg _ refl refl refl refl refl
          ∙ rw (hsts_text-value cfg) refl);
  nosniff =
      get-layered (codes "X-Content-Type-Options") cfg old
      ∙ layered_nosniff (codes "X-Content-Type-Options") cfg _ refl refl refl refl refl;
  frame =
      get-layered (codes "X-Frame-Options") cfg old
      ∙ (layered_frame (codes "X-Frame-Options") cfg _ refl refl refl refl refl
          ∙ given cfg.frame_options _);
  referrer =
      get-layered (codes "Referrer-Policy") cfg old
      ∙ (layered_referrer (codes "Referrer-Policy") cfg _ refl refl refl refl refl
          ∙ given cfg.referrer_policy _);
  csp =
      get-layered (codes "Content-Security-Policy") cfg old
      ∙ (layered_csp (codes "Content-Security-Policy") cfg _ refl refl refl refl refl
          ∙ policy_given cfg.csp policy _ s a);
  others = λ k e. get-layered k cfg old ∙ layered_others k cfg _ e;
}

-- The handlers behind run with the context as it was, but for its header: of the five names each
-- has the value that its setting says, or the one before where the setting is off or empty, with
-- the directives of the policy by name; every other name has the value that it had.
pub middleware_headers :
    {W : Type 0} (cfg : Config) (policy : Table (List Text)) (next : Handler W) (c : Context)
    (w : W)
    → SameMap cfg.csp policy
    → IsAscending policy
    → (h : Header) × (middleware cfg next c w ≡ next (record c { header = h }) w)
      × Secured cfg policy c.header h
unfolding middleware
middleware_headers cfg policy next c w s a =
    (set_all (build_headers cfg) c.header, refl, secured cfg policy c.header s a)
