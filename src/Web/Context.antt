-- ===== src/Web/Context.antt =====
-- context.go and errors.go, as far as the middlewares use them: the request, the response's header
-- and status, the values that a middleware leaves for the handlers behind it, and handlers.
use trails.Base.{ℕ, Bool, Option, none, some, ℤ, Text, Result}
use trails.Web.Header.{Header}

pub record Request : Type 0 where
  pub method : Text
  pub path : Text
  pub host : Text
  pub remote_addr : Text
  pub tls : Bool
  pub header : Header
  -- The decoded form, which `FormValue` reads.
  pub form : Text → Text

pub record Context : Type 0 where
  pub request : Request
  -- The response's header, and its status once it has been written.
  pub header : Header
  pub status : Option ℕ
  -- `c.Set(ctxKeyClientIP, …)` and `c.Set(ctxKeyScheme, …)`; empty where nothing was set.
  pub client_ip : Text
  pub scheme : Text

-- The errors that the middlewares make; the text of a message is not modelled, its arguments are.
pub data Cause : Type 0 where
  host_not_permitted : Text → Cause
  rate_exceeded : ℤ → ℤ → Cause
  invalid_token : Cause

pub data Failure : Type 0 where
  http_error : ℕ → Cause → Failure
  other : Text → Failure

-- A handler acts on the context and on the rest of the program's state, W.
abbrev pub Handler : Type 0 → Type 0
Handler W = Context → W → Context × W × Result Failure (Unit {0})

abbrev pub MiddlewareFunc : Type 0 → Type 0
MiddlewareFunc W = Handler W → Handler W

-- The first `WriteHeader` of a response counts.
unfoldable pub write_header : ℕ → Context → Context
write_header code c = elim c.status [ none ↦ record c { status = some code } | some old ↦ c ]
