-- ===== src/AllowedHosts/Tests.antt =====
-- A list with one domain.
use trails.Base.{◌≡◌, ◌⊎◌, false, none, List, [], ◌∷◌, Text, codes, ok, err}
use trails.Web.Context.{Context, Handler, http_error, host_not_permitted}
use trails.AllowedHosts.{strip_port, with_allowed_hosts, middleware}
use trails.AllowedHosts.Laws.{IsAllowed, middleware_lem}

abbrev hosts : List Text
hosts = codes ".example.com" ∷ []

abbrev context : Context
context = record {
  request = record {
    method = codes "GET";
    path = codes "/";
    host = codes "www.example.com:80";
    remote_addr = codes "10.0.0.1:99";
    tls = false;
    header = [];
    form = λ name. [];
  };
  header = [];
  status = none;
  client_ip = [];
  scheme = [];
}

abbrev accept : Handler (Unit {0})
accept c w = (c, w, ok tt)

middleware_lem_example :
    (IsAllowed hosts (strip_port context.request.host)
      × (middleware (with_allowed_hosts hosts ∷ []) accept context tt ≡ accept context tt))
    ⊎ ((¬ IsAllowed hosts (strip_port context.request.host))
        × (middleware (with_allowed_hosts hosts ∷ []) accept context tt ≡ (
          context,
          tt,
          err (http_error 400 (host_not_permitted (strip_port context.request.host))),
        )))
middleware_lem_example = middleware_lem hosts accept context tt (λ e. absurd (cc))
