-- ===== src/HttpCache.antt =====
-- cache/httpcache/httpcache.go: the middleware that caches responses in a store. The gob codec of
-- a cached response, SHA-256 and the connection's `Write` are parameters; a handler acts on a
-- response writer and on the rest of the program's state, W.
pub mod Laws
mod Tests
use trails.Base.{
  ℕ, ◌+◌, ◌-◌, ◌/◌, ◌%◌, Bool, true, false, not, ◌&&◌, Option, none, some, List, [], ◌∷◌, ◌++◌,
  ◌==◌, if◌then◌else◌, ltb, take, Text, codes, ◌===◌, Result, ok, err, ℤ, pos,
}
use trails.Cache.Store.{Store}
use trails.Cache.Typed.{Codec}
use trails.Web.Header.{Header, get, set, add}
use trails.Web.Context.{Request}

abbrev pub default_ttl : ℤ
default_ttl = pos 300000000000

-- `*http.Request` with `URL.RawQuery`.
pub record Target : Type 0 where
  pub request : Request
  pub raw_query : Text

abbrev pub KeyFunc : Type 0
KeyFunc = Target → Text

unfoldable pub default_key_func : KeyFunc
default_key_func r =
    r.request.method ++ (codes " " ++ (r.request.path ++ (codes "?" ++ r.raw_query)))

pub record Config : Type 0 where
  pub ttl : ℤ
  pub key_func : KeyFunc

abbrev pub HttpCacheOption : Type 0
HttpCacheOption = Config → Config

unfoldable pub with_ttl : ℤ → HttpCacheOption
with_ttl d c = record c { ttl = d }

unfoldable pub with_key_func : KeyFunc → HttpCacheOption
with_key_func fn c = record c { key_func = fn }

apply_options : List HttpCacheOption → Config → Config
apply_options [] c = c
apply_options (opt ∷ opts) c = apply_options opts (opt c)

unfoldable pub new_config : List HttpCacheOption → Config
unfolding apply_options default_key_func
new_config opts = apply_options opts (record { ttl = default_ttl; key_func = default_key_func })

pub record CachedResponse : Type 0 where
  pub status : ℕ
  pub header : Header
  pub body : Text
  pub etag : Text

-- A recorder; the writer of a connection, too, shows its handler no more than this.
pub record Recorder : Type 0 where
  pub header : Header
  pub status : ℕ
  pub body : Text
  pub wrote_header : Bool

abbrev pub new_recorder : Recorder
new_recorder = record { header = []; status = 0; body = []; wrote_header = false }

unfoldable pub write_header : ℕ → Recorder → Recorder
write_header code r = if r.wrote_header then r else record r { status = code; wrote_header = true }

unfoldable pub write : Text → Recorder → Recorder
unfolding write_header
write b r =
    let k = if r.wrote_header then r else write_header 200 r in record k { body = k.body ++ b }

add_all : Text → List Text → Header → Header
unfolding add
add_all k [] dst = dst
add_all k (v ∷ vals) dst = add_all k vals (add k v dst)

-- The map's entries in the order of its table; Go takes them in any order.
unfoldable pub copy_header : Header → Header → Header
unfolding add_all
copy_header dst [] = dst
copy_header dst ((k, vals) ∷ src) = copy_header (add_all k vals dst) src

hex_digit : ℕ → ℕ
hex_digit n = if ltb n 10 then b'0' + n else b'a' + (n - 10)

-- hex.EncodeToString.
encode_to_string : List ℕ → Text
unfolding hex_digit
encode_to_string [] = []
encode_to_string (b ∷ bs) = hex_digit (b / 16) ∷ hex_digit (b % 16) ∷ encode_to_string bs

unfoldable pub compute_etag : (List ℕ → List ℕ) → Text → Text
unfolding encode_to_string
compute_etag sum256 body = codes "\"" ++ (encode_to_string (take 16 (sum256 body)) ++ codes "\"")

abbrev pub status_of : ℕ → ℕ
status_of status = if status == 0 then 200 else status

abbrev pub Handler : Type 0 → Type 0 → Type 0
Handler E W = Target → Recorder → W → Recorder × W × Result E (Unit {0})

module _ (S : Store) (gob : Codec CachedResponse) where
  open S use {State, Failure}

  abbrev decoded : Result Failure (Option Text) → Option CachedResponse
  decoded (err e) = none
  decoded (ok none) = none
  decoded (ok (some raw)) = gob.unmarshal raw

  unfoldable pub lookup_response : Text → ℕ → State → Option CachedResponse × State
  lookup_response key now s = let r = S.read key now s in (decoded r.1, r.0)

  abbrev stored : Option Text → Text → ℤ → ℕ → State → State
  stored none key ttl later s = s
  stored (some bytes) key ttl later s = (S.write key bytes ttl later s).0

  unfoldable pub store_response : CachedResponse → Text → ℤ → ℕ → State → State
  store_response cached key ttl later s = stored (gob.marshal cached) key ttl later s

module _ {E : Type 0} (send : Text → Recorder → Recorder × Result E (Unit {0})) where
  unfoldable pub serve_cached : Target → CachedResponse → Recorder → Recorder × Result E (Unit {0})
  unfolding write_header copy_header
  serve_cached r cached w =
      let match = get (codes "If-None-Match") r.request.header in
      if not (match === []) && match === cached.etag
      then (write_header 304 (record w { header = set (codes "ETag") cached.etag w.header }), ok tt)
      else send cached.body (
          write_header cached.status (record w {
            header = set (codes "ETag") cached.etag (copy_header w.header cached.header);
          }))

  -- A response other than 200, which is not cached.
  unfoldable pub flush : ℕ → Recorder → Recorder → Recorder × Result E (Unit {0})
  unfolding copy_header write_header
  flush status rec original =
      send rec.body
        (write_header status (record original { header = copy_header original.header rec.header }))

  unfoldable pub flush_with_etag : Text → Recorder → Recorder → Recorder × Result E (Unit {0})
  unfolding copy_header write_header
  flush_with_etag etag rec original = send rec.body (
      write_header 200 (record original {
        header = set (codes "ETag") etag (copy_header original.header rec.header);
      }))

abbrev pub made : (List ℕ → List ℕ) → Recorder → CachedResponse
made sum256 rec = record {
  status = 200;
  header = rec.header;
  body = rec.body;
  etag = compute_etag sum256 rec.body;
}

abbrev pub with_state : {A B T : Type 0} → T → A × B → T × A × B
with_state s (a, b) = (s, a, b)

module _ (S : Store) (gob : Codec CachedResponse) (sum256 : List ℕ → List ℕ) {E : Type 0}
    (send : Text → Recorder → Recorder × Result E (Unit {0})) where
  open S use {State}

  -- Behind the handler, which left its response in `rec`.
  unfoldable pub finish :
      Result E (Unit {0})
      → Recorder
      → Text
      → ℤ
      → ℕ
      → Recorder
      → State
      → State × Recorder × Result E (Unit {0})
  unfolding compute_etag store_response flush flush_with_etag
  finish (err e) rec key ttl later original s = (s, original, err e)
  finish (ok u) rec key ttl later original s =
      if status_of rec.status == 200
      then with_state (store_response S gob (made sum256 rec) key ttl later s)
          (flush_with_etag send (compute_etag sum256 rec.body) rec original)
      else with_state s (flush send (status_of rec.status) rec original)

  module _ {W : Type 0} (next : Handler E W) where
    unfoldable pub record_and_store :
        Text → ℤ → ℕ → Target → Recorder → W → State → W × State × Recorder × Result E (Unit {0})
    unfolding finish
    record_and_store key ttl later r original w s =
        let h = next r new_recorder w in
        let f = finish h.2 h.0 key ttl later original s in (h.1, f.0, f.1, f.2)

    -- What stands in the store decides.
    unfoldable pub serve_or_record :
        Option CachedResponse
        → Text
        → ℤ
        → ℕ
        → Target
        → Recorder
        → W
        → State
        → W × State × Recorder × Result E (Unit {0})
    unfolding serve_cached record_and_store
    serve_or_record (some cached) key ttl later r original w s =
        let a = serve_cached send r cached original in (w, s, a.0, a.1)
    serve_or_record none key ttl later r original w s =
        record_and_store key ttl later r original w s

    -- The store is read at `now` and written at `later`, when the handler has returned.
    unfoldable pub middleware :
        List HttpCacheOption
        → ℕ
        → ℕ
        → Target
        → Recorder
        → W
        → State
        → W × State × Recorder × Result E (Unit {0})
    unfolding new_config lookup_response serve_or_record
    middleware opts now later r original w s =
        let cfg = new_config opts in
        if not (r.request.method === codes "GET") && not (r.request.method === codes "HEAD")
        then (let h = next r original w in (h.1, s, h.0, h.2))
        else (let key = cfg.key_func r in
            let found = lookup_response S gob key now s in
            serve_or_record found.0 key cfg.ttl later r original w found.1)
