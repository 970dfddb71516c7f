-- ===== src/Cors/Grants.antt =====
-- What the header writes of cors/cors.go leave in the two headers that grant access.
use trails.Base.{
  ◌≡◌, refl, ◌∙◌, true, false, arith, Text, codes, ◌===◌, if◌then◌else◌, ◌/◌, ◌^◌, pos, pos_part,
}
use trails.Web.Header.{Header, get, set, add, canonical, join}
use trails.Web.Header.Laws.{same_name, get-set, get-add_other}
use trails.Web.Context.{Request}
use trails.Base.Decimal.{format_int}
use trails.Cors.{
  Config, allow_origin_value, add_vary, set_credentials, set_allow_headers, set_max_age,
  grant_preflight, grant_actual,
}

abbrev pub allow_origin : Text
allow_origin = codes "Access-Control-Allow-Origin"

abbrev pub allow_credentials : Text
allow_credentials = codes "Access-Control-Allow-Credentials"

-- The names that the middleware writes, other than the two above.
pub data Other : Text → Type 0 where
  methods : Other (codes "Access-Control-Allow-Methods")
  headers : Other (codes "Access-Control-Allow-Headers")
  max_age : Other (codes "Access-Control-Max-Age")
  exposed : Other (codes "Access-Control-Expose-Headers")
  vary : Other (codes "Vary")

pub more_names :
    {k : Text}
    → Other k
    → (same_name allow_origin k ≡ false) × (same_name allow_credentials k ≡ false)
unfolding codes canonical ◌===◌
more_names methods = (refl, refl)
more_names headers = (refl, refl)
more_names max_age = (refl, refl)
more_names exposed = (refl, refl)
more_names vary = (refl, refl)

pub two_names :
    (same_name allow_origin allow_credentials ≡ false)
    × (same_name allow_credentials allow_origin ≡ false)
    × (same_name allow_origin allow_origin ≡ true)
    × (same_name allow_credentials allow_credentials ≡ true)
unfolding codes canonical ◌===◌
two_names = (refl, refl, refl, refl)

-- What a header says of the two.
pub record Grants (h : Header) (origin credentials : Text) : Type 0 where
  pub origin_is : get allow_origin h ≡ origin
  pub credentials_is : get allow_credentials h ≡ credentials

pub set-Grants :
    {k : Text} {h : Header} {o s : Text} (v : Text)
    → Other k
    → Grants h o s
    → Grants (set k v h) o s
set-Grants {k} {h} v n g =
    let (p, q) = more_names n in
    record {
      origin_is = ground (arith, get-set allow_origin k v h, p);
      credentials_is = ground (arith, get-set allow_credentials k v h, q);
    }

pub add-Grants :
    {k : Text} {h : Header} {o s : Text} (v : Text)
    → Other k
    → Grants h o s
    → Grants (add k v h) o s
add-Grants {k} {h} v n g =
    let (p, q) = more_names n in
    record {
      origin_is = get-add_other allow_origin k v h p ∙ g.origin_is;
      credentials_is = get-add_other allow_credentials k v h q ∙ g.credentials_is;
    }

pub as_is : (h : Header) → Grants h (get allow_origin h) (get allow_credentials h)
as_is h = record { origin_is = refl; credentials_is = refl }

abbrev pub credentials_after : Config → Header → Text
credentials_after cfg h = if cfg.allow_credentials then codes "true" else get allow_credentials h

pub set_origin_credentials-Grants :
    (cfg : Config) (v : Text) (h : Header)
    → Grants (set_credentials cfg (set allow_origin v h)) v (credentials_after cfg h)
unfolding set_credentials
set_origin_credentials-Grants cfg v h =
    let (p, q, r, s) = two_names in
    record {
      origin_is = ground (
        arith,
        get-set allow_origin allow_credentials (codes "true") (set allow_origin v h),
        get-set allow_origin allow_origin v h,
        p,
        r,
      );
      credentials_is = ground (
        arith,
        get-set allow_credentials allow_credentials (codes "true") (set allow_origin v h),
        get-set allow_credentials allow_origin v h,
        q,
        s,
      );
    }

pub add_vary-Grants : {h : Header} {o s : Text} → Grants h o s → Grants (add_vary h) o s
unfolding add_vary
add_vary-Grants g = add-Grants _ vary (add-Grants _ vary (add-Grants _ vary g))

pub set_allow_headers-Grants :
    (cfg : Config) (r : Request) {h : Header} {o s : Text}
    → Grants h o s
    → Grants (set_allow_headers cfg r h) o s
unfolding set_allow_headers
set_allow_headers-Grants cfg r g = ground (
  arith,
  set-Grants (get (codes "Access-Control-Request-Headers") r.header) headers g,
  set-Grants (join (codes ", ") cfg.allowed_headers) headers g,
)

pub set_max_age-Grants :
    (cfg : Config) {h : Header} {o s : Text} → Grants h o s → Grants (set_max_age cfg h) o s
unfolding set_max_age
set_max_age-Grants cfg g =
    ground (arith, set-Grants (format_int (pos (pos_part cfg.max_age / 10 ^ 9))) max_age g)

pub grant_preflight-Grants :
    (cfg : Config) (r : Request) (origin : Text) (h : Header)
    → Grants
        (grant_preflight cfg r origin h)
        (allow_origin_value cfg origin)
        (credentials_after cfg h)
unfolding grant_preflight
grant_preflight-Grants cfg r origin h = set_max_age-Grants cfg (
    set_allow_headers-Grants cfg r
      (set-Grants _ methods (set_origin_credentials-Grants cfg (allow_origin_value cfg origin) h)))

pub grant_actual-Grants :
    (cfg : Config) (origin : Text) (h : Header)
    → Grants (grant_actual cfg origin h) (allow_origin_value cfg origin) (credentials_after cfg h)
unfolding grant_actual
grant_actual-Grants cfg origin h =
    let h1 = add (codes "Vary") (codes "Origin") h in
    let g = set_origin_credentials-Grants cfg (allow_origin_value cfg origin) h1 in
    let same = (add-Grants (codes "Origin") vary (as_is h)).credentials_is in
    let v = join (codes ", ") cfg.exposed_headers in ground (arith, g, same, set-Grants v exposed g)
