-- ===== src/RateLimit/Tests.antt =====
-- One client with a limit of two a minute, over the in-memory store.
use trails.Base.{
  ℕ, ◌+◌, ◌≡◌, refl, arith, true, false, none, List, [], ◌∷◌, Text, codes, pos, ok, ◌===◌, lookup,
}
use trails.Cache.Memory.{Backend, NotACounter, not_a_counter, memory_store}
use trails.Cache.Memory.Refines.{memory_contract}
use trails.Web.Context.{Context, Request, Handler}
use trails.RateLimit.{Config, build_key}
use trails.RateLimit.Window.{Visit, admissions, window_admits}

abbrev request : Text → Request
request path = record {
  method = codes "GET";
  path = path;
  host = codes "localhost";
  remote_addr = codes "10.0.0.1:99";
  tls = false;
  header = [];
  form = λ name. [];
}

abbrev context : Text → Context
context path = record {
  request = request path;
  header = [];
  status = none;
  client_ip = codes "10.0.0.1";
  scheme = [];
}

abbrev per_path : Config (Backend × Unit {0})
per_path = record {
  period = pos 1000;
  key_func = λ c. c.request.path;
  name = [];
  on_limited = none;
}

abbrev empty : Backend
empty = record { entries = []; cleanup_interval = pos 0 }

abbrev describe : NotACounter → Text
describe (not_a_counter key) = key

abbrev visit : Text → ℕ → Visit
visit path now = record { context = context path; now = now; later = now + 1 }

-- Visits to /a, among one to /b.
abbrev later_visits : List Visit
later_visits =
    visit (codes "/a") 6
    ∷ visit (codes "/b") 7
    ∷ visit (codes "/a") 8
    ∷ visit (codes "/a") 1005
    ∷ []

window_admits_example :
    admissions memory_store memory_contract describe per_path 2
      (codes "/a")
      (visit (codes "/a") 5 ∷ later_visits)
      empty
    ≡ true ∷ true ∷ false ∷ false ∷ []
unfolding memory_contract lookup build_key codes ◌===◌
window_admits_example =
    window_admits memory_store memory_contract describe per_path 2 (visit (codes "/a") 5)
      later_visits empty 1000 refl refl (omega arith) refl
      (
        omega arith,
        omega arith,
        (omega arith, omega arith, (omega arith, omega arith, (omega arith, omega arith, tt))),
      )
      (omega arith)

abbrev accept : Handler (Backend × Unit {0})
accept c w = (c, w, ok tt)
