-- ===== src/SecureHeaders.antt =====
-- secureheaders/secureheaders.go: headers that every response gets, before its handler runs.
pub mod Laws
pub mod Layers
pub mod Headers
mod Tests
use trails.Base.{
  ℕ, ◌/◌, ◌^◌, Bool, true, false, List, [], ◌∷◌, ◌++◌, map, if◌then◌else◌, ◌==◌, ltb, Text, codes,
  ◌===◌, Table, length, ℤ, pos, ltb_ℤ, pos_part,
}
use trails.Base.Decimal.{format_int}
use trails.Web.Header.{Header, set, join}
use trails.Web.Context.{Context, MiddlewareFunc}

pub record Config : Type 0 where
  pub hsts_max_age : ℤ
  pub hsts_include_sub_domains : Bool
  pub hsts_preload : Bool
  pub content_type_nosniff : Bool
  pub frame_options : Text
  pub referrer_policy : Text
  pub csp : Table (List Text)

abbrev pub frame_options_deny : Text
frame_options_deny = codes "DENY"

abbrev pub frame_options_same_origin : Text
frame_options_same_origin = codes "SAMEORIGIN"

-- Two years.
abbrev pub default_hsts_max_age : ℤ
default_hsts_max_age = pos 63072000000000000

abbrev pub SecureOption : Type 0
SecureOption = Config → Config

unfoldable pub with_hsts_max_age : ℤ → SecureOption
with_hsts_max_age d c = record c { hsts_max_age = d }

unfoldable pub with_hsts_include_sub_domains : Bool → SecureOption
with_hsts_include_sub_domains b c = record c { hsts_include_sub_domains = b }

unfoldable pub with_hsts_preload : Bool → SecureOption
with_hsts_preload b c = record c { hsts_preload = b }

unfoldable pub with_content_type_nosniff : Bool → SecureOption
with_content_type_nosniff b c = record c { content_type_nosniff = b }

unfoldable pub with_frame_options : Text → SecureOption
with_frame_options o c = record c { frame_options = o }

unfoldable pub with_referrer_policy : Text → SecureOption
with_referrer_policy p c = record c { referrer_policy = p }

unfoldable pub with_csp : Table (List Text) → SecureOption
with_csp directives c = record c { csp = directives }

apply_options : List SecureOption → Config → Config
apply_options [] c = c
apply_options (opt ∷ opts) c = apply_options opts (opt c)

unfoldable pub new_config : List SecureOption → Config
unfolding apply_options
new_config opts = apply_options opts (record {
  hsts_max_age = default_hsts_max_age;
  hsts_include_sub_domains = true;
  hsts_preload = false;
  content_type_nosniff = true;
  frame_options = frame_options_deny;
  referrer_policy = codes "strict-origin-when-cross-origin";
  csp = [];
})

unfoldable pub hsts_value : Config → Text
hsts_value cfg =
    codes "max-age="
    ++ (format_int (pos (pos_part cfg.hsts_max_age / 10 ^ 9))
        ++ ((if cfg.hsts_include_sub_domains then codes "; includeSubDomains" else [])
            ++ (if cfg.hsts_preload then codes "; preload" else [])))

-- Go's `<` on strings.
unfoldable pub is_before : Text → Text → Bool
is_before [] [] = false
is_before [] (d ∷ t) = true
is_before (c ∷ s) [] = false
is_before (c ∷ s) (d ∷ t) = if ltb c d then true else if c == d then is_before s t else false

-- `slices.Sorted` on the directives, which have one entry to a name.
unfoldable pub insert_sorted : Text → List Text → Table (List Text) → Table (List Text)
unfolding is_before
insert_sorted k v [] = (k, v) ∷ []
insert_sorted k v ((j, w) ∷ m) =
    let rest = insert_sorted k v m in if is_before j k then (j, w) ∷ rest else (k, v) ∷ (j, w) ∷ m

unfoldable pub sorted : Table (List Text) → Table (List Text)
unfolding insert_sorted
sorted [] = []
sorted ((k, v) ∷ m) = insert_sorted k v (sorted m)

abbrev pub directive : Text × List Text → Text
directive (name, sources) = name ++ (codes " " ++ join (codes " ") sources)

unfoldable pub csp_value : Table (List Text) → Text
unfolding sorted
csp_value directives = join (codes "; ") (map directive (sorted directives))

abbrev pub HeaderSet : Type 0
HeaderSet = List (Text × Text)

abbrev pub entry_if : Bool → Text → Text → HeaderSet
entry_if true name value = (name, value) ∷ []
entry_if false name value = []

abbrev pub is_given : Text → Bool
is_given [] = false
is_given (c ∷ s) = true

unfoldable pub build_headers : Config → HeaderSet
unfolding hsts_value csp_value
build_headers cfg =
    entry_if (ltb_ℤ (pos 0) cfg.hsts_max_age) (codes "Strict-Transport-Security") (hsts_value cfg)
    ++ (entry_if cfg.content_type_nosniff (codes "X-Content-Type-Options") (codes "nosniff")
        ++ (entry_if (is_given cfg.frame_options) (codes "X-Frame-Options") cfg.frame_options
            ++ (entry_if (is_given cfg.referrer_policy) (codes "Referrer-Policy")
                  cfg.referrer_policy
                ++ entry_if (ltb 0 (length cfg.csp)) (codes "Content-Security-Policy")
                    (csp_value cfg.csp))))

unfoldable pub set_all : HeaderSet → Header → Header
set_all [] h = h
set_all ((name, value) ∷ hs) h = set_all hs (set name value h)

unfoldable pub middleware : {W : Type 0} → Config → MiddlewareFunc W
unfolding set_all
middleware cfg next c w = next (record c { header = set_all (build_headers cfg) c.header }) w
