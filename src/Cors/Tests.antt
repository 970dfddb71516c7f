-- ===== src/Cors/Tests.antt =====
-- One allowed origin.
use trails.Base.{refl, arith, false, none, [], ◌∷◌, Text, codes, ok, ◌===◌, lookup, insert}
use trails.Web.Header.{canonical, to_lower, to_upper}
use trails.Web.Header
use trails.Web.Context.{Context, Handler}
use trails.Cors.{Config, new_config, with_allowed_origins, is_preflight}
use trails.Cors.Laws.{IsAnswered, preflight_answer}

abbrev cfg : Config
cfg = new_config (with_allowed_origins (codes "https://a.example" ∷ []) ∷ [])

abbrev context : Text → Context
context method = record {
  request = record {
    method = method;
    path = codes "/";
    host = codes "localhost";
    remote_addr = codes "10.0.0.1:99";
    tls = false;
    header =
        Header.set (codes "Access-Control-Request-Method") (codes "PUT")
          (Header.set (codes "Origin") (codes "https://a.example") []);
    form = λ name. [];
  };
  header = [];
  status = none;
  client_ip = [];
  scheme = [];
}

abbrev accept : Handler (Unit {0})
accept c w = (c, w, ok tt)

preflight_answer_example : IsAnswered cfg accept (context (codes "OPTIONS")) tt
unfolding codes new_config with_allowed_origins is_preflight Header.get Header.set canonical
    to_lower to_upper insert lookup ◌===◌
preflight_answer_example =
    preflight_answer cfg accept (context (codes "OPTIONS")) tt (omega arith) refl refl
