-- ===== src/Web.antt =====
-- What the middlewares share: requests and contexts of context.go, the chain of handlers, headers
-- of net/http, and addresses of net.
pub mod Header
pub mod Address
pub mod Context
pub mod Base64
