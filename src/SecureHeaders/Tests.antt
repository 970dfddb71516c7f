-- ===== src/SecureHeaders/Tests.antt =====
-- A policy of two directives.
use trails.Base.{◌≡◌, none, false, List, [], ◌∷◌, Text, codes, ok, Table, refl}
use trails.Web.Header.{Header}
use trails.Web.Context.{Context, Handler}
use trails.SecureHeaders.{Config, new_config, with_csp, middleware, is_before}
use trails.SecureHeaders.Laws.{swapped}
use trails.SecureHeaders.Headers.{Secured, middleware_headers}

abbrev images : List Text
images = codes "'self'" ∷ codes "data:" ∷ []

abbrev default_sources : List Text
default_sources = codes "'self'" ∷ []

abbrev context : Context
context = record {
  request = record {
    method = codes "GET";
    path = codes "/";
    host = codes "localhost";
    remote_addr = codes "10.0.0.1:99";
    tls = false;
    header = [];
    form = λ name. [];
  };
  header = [];
  status = none;
  client_ip = [];
  scheme = [];
}

abbrev accept : Handler (Unit {0})
accept c w = (c, w, ok tt)

abbrev policy : Table (List Text)
policy = (codes "default-src", default_sources) ∷ (codes "img-src", images) ∷ []

abbrev cfg : Config
cfg =
    new_config
      (with_csp ((codes "img-src", images) ∷ (codes "default-src", default_sources) ∷ []) ∷ [])

middleware_headers_example :
    (h : Header) × (middleware cfg accept context tt ≡ accept (record context { header = h }) tt)
    × Secured cfg policy [] h
unfolding new_config with_csp codes is_before
middleware_headers_example =
    middleware_headers cfg policy accept context tt
      (swapped (codes "img-src") (codes "default-src") images default_sources [] (λ e. absurd (cc)))
      (refl, tt)
