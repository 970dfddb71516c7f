-- ===== src/SecureHeaders/Layers.antt =====
-- The headers that are set, as layers over those before.
use trails.Base.{
  ◌≡◌, ◌∙◌, refl, ap, arith, Bool, true, false, ◌&&◌, ◌||◌, [], ◌∷◌, ◌++◌, Text, codes,
  if◌then◌else◌, ltb, length, pos, ltb_ℤ,
}
use trails.Web.Header.{Header, get, set}
use trails.Web.Header.Laws.{same_name, get-set}
use trails.SecureHeaders.{
  csp_value, hsts_value, Config, HeaderSet, set_all, build_headers, entry_if, is_given,
}

-- The value that a header set gives a name, over the one before.
abbrev value_after : Text → HeaderSet → Text → Text
value_after k [] old = old
value_after k ((name, value) ∷ hs) old = value_after k hs (if same_name k name then value else old)

get-set_all :
    (k : Text) (hs : HeaderSet) (h : Header) → get k (set_all hs h) ≡ value_after k hs (get k h)
unfolding set_all
get-set_all k [] h = refl
get-set_all k ((name, value) ∷ hs) h =
    get-set_all k hs (set name value h) ∙ ap (value_after k hs) (get-set k name value h)

abbrev pub is_secured : Text → Bool
is_secured k =
    same_name k (codes "Strict-Transport-Security")
    || (same_name k (codes "X-Content-Type-Options")
        || (same_name k (codes "X-Frame-Options")
            || (same_name k (codes "Referrer-Policy")
                || same_name k (codes "Content-Security-Policy"))))

-- One entry of the set, over the value before.
abbrev pub over : Text → Bool → Text → Text → Text → Text
over k b name value old = if b && same_name k name then value else old

value_after-append :
    (k : Text) (hs gs : HeaderSet) (old : Text)
    → value_after k (hs ++ gs) old ≡ value_after k gs (value_after k hs old)
value_after-append k [] gs old = refl
value_after-append k ((name, value) ∷ hs) gs old = value_after-append k hs gs _

value_after-entry_if :
    (k : Text) (b : Bool) (name value old : Text)
    → value_after k (entry_if b name value) old ≡ over k b name value old
value_after-entry_if k true name value old = refl
value_after-entry_if k false name value old = refl

value_after-entry :
    (k : Text) (b : Bool) (name value old : Text) (hs : HeaderSet)
    → value_after k (entry_if b name value ++ hs) old ≡ value_after k hs (over k b name value old)
value_after-entry k b name value old hs =
    value_after-append k (entry_if b name value) hs old
    ∙ ap (value_after k hs) (value_after-entry_if k b name value old)

-- The value under one name, with the five headers over each other.
abbrev pub layered : Text → Config → Text → Text
layered k cfg old =
    over k (ltb 0 (length cfg.csp)) (codes "Content-Security-Policy") (csp_value cfg.csp) (
      over k (is_given cfg.referrer_policy) (codes "Referrer-Policy") cfg.referrer_policy (
        over k (is_given cfg.frame_options) (codes "X-Frame-Options") cfg.frame_options (
          over k cfg.content_type_nosniff (codes "X-Content-Type-Options") (codes "nosniff") (
            over k (ltb_ℤ (pos 0) cfg.hsts_max_age) (codes "Strict-Transport-Security")
              (hsts_value cfg) old))))

pub get-layered :
    (k : Text) (cfg : Config) (h : Header)
    → get k (set_all (build_headers cfg) h) ≡ layered k cfg (get k h)
unfolding build_headers
get-layered k cfg h =
    get-set_all k (build_headers cfg) h
    ∙ (value_after-entry k (ltb_ℤ (pos 0) cfg.hsts_max_age) (codes "Strict-Transport-Security")
          (hsts_value cfg) _ _
        ∙ (value_after-entry k cfg.content_type_nosniff (codes "X-Content-Type-Options")
              (codes "nosniff") _ _
            ∙ (value_after-entry k (is_given cfg.frame_options) (codes "X-Frame-Options")
                  cfg.frame_options _ _
                ∙ (value_after-entry k (is_given cfg.referrer_policy) (codes "Referrer-Policy")
                      cfg.referrer_policy _ _
                    ∙ value_after-entry_if k (ltb 0 (length cfg.csp))
                        (codes "Content-Security-Policy") (csp_value cfg.csp) _))))

over_same :
    (k : Text) (b : Bool) (name value old : Text)
    → same_name k name ≡ true
    → over k b name value old ≡ (if b then value else old)
over_same k true name value old e = rw e refl
over_same k false name value old e = refl

over_other :
    (k : Text) (b : Bool) (name value old : Text)
    → same_name k name ≡ false
    → over k b name value old ≡ old
over_other k true name value old e = rw e refl
over_other k false name value old e = refl

-- Where the five names are told apart, at most one layer counts.
module _ (k : Text) (cfg : Config) (x : Text) where
  pub layered_hsts :
      same_name k (codes "Strict-Transport-Security") ≡ true
      → same_name k (codes "X-Content-Type-Options") ≡ false
      → same_name k (codes "X-Frame-Options") ≡ false
      → same_name k (codes "Referrer-Policy") ≡ false
      → same_name k (codes "Content-Security-Policy") ≡ false
      → layered k cfg x ≡ (if (ltb_ℤ (pos 0) cfg.hsts_max_age) then (hsts_value cfg) else x)
  layered_hsts a b c d e =
      rw
        (
          over_same k (ltb_ℤ (pos 0) cfg.hsts_max_age) (codes "Strict-Transport-Security")
              (hsts_value cfg) x a,
          over_other k cfg.content_type_nosniff (codes "X-Content-Type-Options") (codes "nosniff")
              (if (ltb_ℤ (pos 0) cfg.hsts_max_age) then (hsts_value cfg) else x) b,
          over_other k (is_given cfg.frame_options) (codes "X-Frame-Options") cfg.frame_options
              (if (ltb_ℤ (pos 0) cfg.hsts_max_age) then (hsts_value cfg) else x) c,
          over_other k (is_given cfg.referrer_policy) (codes "Referrer-Policy") cfg.referrer_policy
              (if (ltb_ℤ (pos 0) cfg.hsts_max_age) then (hsts_value cfg) else x) d,
          over_other k (ltb 0 (length cfg.csp)) (codes "Content-Security-Policy")
              (csp_value cfg.csp) (if (ltb_ℤ (pos 0) cfg.hsts_max_age) then (hsts_value cfg) else x)
              e,
        )
        refl

  pub layered_nosniff :
      same_name k (codes "Strict-Transport-Security") ≡ false
      → same_name k (codes "X-Content-Type-Options") ≡ true
      → same_name k (codes "X-Frame-Options") ≡ false
      → same_name k (codes "Referrer-Policy") ≡ false
      → same_name k (codes "Content-Security-Policy") ≡ false
      → layered k cfg x ≡ (if cfg.content_type_nosniff then (codes "nosniff") else x)
  layered_nosniff a b c d e =
      rw
        (
          over_other k (ltb_ℤ (pos 0) cfg.hsts_max_age) (codes "Strict-Transport-Security")
              (hsts_value cfg) x a,
          over_same k cfg.content_type_nosniff (codes "X-Content-Type-Options") (codes "nosniff") x
              b,
          over_other k (is_given cfg.frame_options) (codes "X-Frame-Options") cfg.frame_options
              (if cfg.content_type_nosniff then (codes "nosniff") else x) c,
          over_other k (is_given cfg.referrer_policy) (codes "Referrer-Policy") cfg.referrer_policy
              (if cfg.content_type_nosniff then (codes "nosniff") else x) d,
          over_other k (ltb 0 (length cfg.csp)) (codes "Content-Security-Policy")
              (csp_value cfg.csp) (if cfg.content_type_nosniff then (codes "nosniff") else x) e,
        )
        refl

  pub layered_frame :
      same_name k (codes "Strict-Transport-Security") ≡ false
      → same_name k (codes "X-Content-Type-Options") ≡ false
      → same_name k (codes "X-Frame-Options") ≡ true
      → same_name k (codes "Referrer-Policy") ≡ false
      → same_name k (codes "Content-Security-Policy") ≡ false
      → layered k cfg x ≡ (if (is_given cfg.frame_options) then cfg.frame_options else x)
  layered_frame a b c d e =
      rw
        (
          over_other k (ltb_ℤ (pos 0) cfg.hsts_max_age) (codes "Strict-Transport-Security")
              (hsts_value cfg) x a,
          over_other k cfg.content_type_nosniff (codes "X-Content-Type-Options") (codes "nosniff") x
              b,
          over_same k (is_given cfg.frame_options) (codes "X-Frame-Options") cfg.frame_options x c,
          over_other k (is_given cfg.referrer_policy) (codes "Referrer-Policy") cfg.referrer_policy
              (if (is_given cfg.frame_options) then cfg.frame_options else x) d,
          over_other k (ltb 0 (length cfg.csp)) (codes "Content-Security-Policy")
              (csp_value cfg.csp) (if (is_given cfg.frame_options) then cfg.frame_options else x) e,
        )
        refl

  pub layered_referrer :
      same_name k (codes "Strict-Transport-Security") ≡ false
      → same_name k (codes "X-Content-Type-Options") ≡ false
      → same_name k (codes "X-Frame-Options") ≡ false
      → same_name k (codes "Referrer-Policy") ≡ true
      → same_name k (codes "Content-Security-Policy") ≡ false
      → layered k cfg x ≡ (if (is_given cfg.referrer_policy) then cfg.referrer_policy else x)
  layered_referrer a b c d e =
      rw
        (
          over_other k (ltb_ℤ (pos 0) cfg.hsts_max_age) (codes "Strict-Transport-Security")
              (hsts_value cfg) x a,
          over_other k cfg.content_type_nosniff (codes "X-Content-Type-Options") (codes "nosniff") x
              b,
          over_other k (is_given cfg.frame_options) (codes "X-Frame-Options") cfg.frame_options x c,
          over_same k (is_given cfg.referrer_policy) (codes "Referrer-Policy") cfg.referrer_policy x
              d,
          over_other k (ltb 0 (length cfg.csp)) (codes "Content-Security-Policy")
              (csp_value cfg.csp)
              (if (is_given cfg.referrer_policy) then cfg.referrer_policy else x) e,
        )
        refl

  pub layered_csp :
      same_name k (codes "Strict-Transport-Security") ≡ false
      → same_name k (codes "X-Content-Type-Options") ≡ false
      → same_name k (codes "X-Frame-Options") ≡ false
      → same_name k (codes "Referrer-Policy") ≡ false
      → same_name k (codes "Content-Security-Policy") ≡ true
      → layered k cfg x ≡ (if (ltb 0 (length cfg.csp)) then (csp_value cfg.csp) else x)
  layered_csp a b c d e =
      rw
        (
          over_other k (ltb_ℤ (pos 0) cfg.hsts_max_age) (codes "Strict-Transport-Security")
              (hsts_value cfg) x a,
          over_other k cfg.content_type_nosniff (codes "X-Content-Type-Options") (codes "nosniff") x
              b,
          over_other k (is_given cfg.frame_options) (codes "X-Frame-Options") cfg.frame_options x c,
          over_other k (is_given cfg.referrer_policy) (codes "Referrer-Policy") cfg.referrer_policy
              x d,
          over_same k (ltb 0 (length cfg.csp)) (codes "Content-Security-Policy") (csp_value cfg.csp)
              x e,
        )
        refl

  layered_none :
      same_name k (codes "Strict-Transport-Security") ≡ false
      → same_name k (codes "X-Content-Type-Options") ≡ false
      → same_name k (codes "X-Frame-Options") ≡ false
      → same_name k (codes "Referrer-Policy") ≡ false
      → same_name k (codes "Content-Security-Policy") ≡ false
      → layered k cfg x ≡ x
  layered_none a b c d e =
      rw
        (
          over_other k (ltb_ℤ (pos 0) cfg.hsts_max_age) (codes "Strict-Transport-Security")
              (hsts_value cfg) x a,
          over_other k cfg.content_type_nosniff (codes "X-Content-Type-Options") (codes "nosniff") x
              b,
          over_other k (is_given cfg.frame_options) (codes "X-Frame-Options") cfg.frame_options x c,
          over_other k (is_given cfg.referrer_policy) (codes "Referrer-Policy") cfg.referrer_policy
              x d,
          over_other k (ltb 0 (length cfg.csp)) (codes "Content-Security-Policy")
              (csp_value cfg.csp) x e,
        )
        refl

other : (a b : Bool) → (a || b) ≡ false → (a ≡ false) × (b ≡ false)
other a b e = ground (arith, e)

pub layered_others :
    (k : Text) (cfg : Config) (x : Text) → is_secured k ≡ false → layered k cfg x ≡ x
layered_others k cfg x e =
    let (a, e1) = other (same_name k (codes "Strict-Transport-Security")) _ e in
    let (b, e2) = other (same_name k (codes "X-Content-Type-Options")) _ e1 in
    let (c, e3) = other (same_name k (codes "X-Frame-Options")) _ e2 in
    let (d, f) = other (same_name k (codes "Referrer-Policy")) _ e3 in
    layered_none k cfg x a b c d f
