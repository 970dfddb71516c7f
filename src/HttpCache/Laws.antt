-- ===== src/HttpCache/Laws.antt =====
-- The theorems on the middleware of cache/httpcache, over any store that keeps the contract.
use trails.Base.{
  ℕ, ◌≤◌, ◌≡◌, refl, ap, ◌∙◌, arith, Bool, true, false, not, ◌&&◌, ◌||◌, Option, none, some, List,
  [], ◌==◌, Text, codes, ◌===◌, ===_refl, Result, ok, err, ℤ, Result-cases, inl, inr,
}
use trails.Cache.Store.{Store, Contract, expiry, is_after}
use trails.Cache.Typed.{Codec, cached, expired_cached}
use trails.Web.Header.{get, set}
use trails.HttpCache.{
  Target, HttpCacheOption, CachedResponse, Recorder, Handler, new_config, new_recorder,
  write_header, compute_etag, status_of, made, lookup_response, store_response, serve_cached,
  flush_with_etag, finish, record_and_store, serve_or_record, middleware,
}

-- A request that the cache answers or records.
abbrev pub IsCacheable : Target → Type 0
IsCacheable r = (r.request.method === codes "GET" || r.request.method === codes "HEAD") ≡ true

abbrev pub if_none_match : Target → Text
if_none_match r = get (codes "If-None-Match") r.request.header

goes_on : (a b : Bool) → (a || b) ≡ true → (not a && not b) ≡ false
goes_on a b e = ground (arith, e)

module _ (S : Store) (C : Contract S) (gob : Codec CachedResponse) where
  lookup_response_lem :
      (key : Text) (now : ℕ) (s : S.State)
      → (lookup_response S gob key now s).0 ≡ cached gob (C.live s now key)
  unfolding lookup_response
  lookup_response_lem key now s = elim (Result-cases (S.read key now s).1) [
    | inr (e, q) ↦ ground (arith, C.read_value key now s, q)
    | inl (none, q) ↦ ground (arith, C.read_value key now s, q)
    | inl (some bytes, q) ↦ ground (arith, C.read_value key now s, q)
  ]

module _ (S : Store) (C : Contract S) (gob : Codec CachedResponse) (sum256 : List ℕ → List ℕ)
    {E W : Type 0} (send : Text → Recorder → Recorder × Result E (Unit {0})) (next : Handler E W)
    (opts : List HttpCacheOption) where
  abbrev run :
      ℕ → ℕ → Target → Recorder → W → S.State → W × S.State × Recorder × Result E (Unit {0})
  run = middleware S gob sum256 send next opts

  middleware_cacheable :
      (now later : ℕ) (r : Target) (original : Recorder) (w : W) (s : S.State)
      (o : Option CachedResponse)
      → IsCacheable r
      → cached gob (C.live s now ((new_config opts).key_func r)) ≡ o
      → run now later r original w s
        ≡ serve_or_record S gob sum256 send next o
            ((new_config opts).key_func r)
            (new_config opts).ttl
            later
            r
            original
            w
            (S.read ((new_config opts).key_func r) now s).0
  unfolding middleware lookup_response
  middleware_cacheable now later r original w s o c h =
      let key = (new_config opts).key_func r in
      let skip = goes_on (r.request.method === codes "GET") (r.request.method === codes "HEAD") c in
      rw skip (
        ap
          (λ x.
            serve_or_record S gob sum256 send next x key (new_config opts).ttl later r original w
              (S.read key now s).0)
          (lookup_response_lem S C gob key now s ∙ h))

  abbrev key_of : Target → Text
  key_of r = (new_config opts).key_func r

  -- The first request finds nothing, and its handler returns a 200.
  recorded :
      (now later : ℕ) (r : Target) (original rec : Recorder) (w w' : W) (s : S.State)
      → IsCacheable r
      → cached gob (C.live s now (key_of r)) ≡ none
      → next r new_recorder w ≡ (rec, w', ok tt)
      → status_of rec.status ≡ 200
      → run now later r original w s ≡ (
        w',
        store_response S gob
            (made sum256 rec)
            (key_of r)
            (new_config opts).ttl
            later
            (S.read (key_of r) now s).0,
        (flush_with_etag send (compute_etag sum256 rec.body) rec original).0,
        (flush_with_etag send (compute_etag sum256 rec.body) rec original).1,
      )
  unfolding serve_or_record record_and_store finish
  recorded now later r original rec w w' s c h n e =
      middleware_cacheable now later r original w s none c h ∙ rw (n, e) refl

  -- What was recorded is shown until it expires.
  recorded_shown :
      (rec : Recorder) (key bytes : Text) (later t : ℕ) (s : S.State)
      → gob.marshal (made sum256 rec) ≡ some bytes
      → gob.unmarshal bytes ≡ some (made sum256 rec)
      → is_after t (expiry (new_config opts).ttl later) ≡ false
      → cached gob
          (C.live (store_response S gob (made sum256 rec) key (new_config opts).ttl later s) t key)
        ≡ some (made sum256 rec)
  unfolding store_response
  recorded_shown rec key bytes later t s m u l =
      rw (m, C.write_sets key bytes (new_config opts).ttl later s t key, ===_refl key)
        (expired_cached gob bytes (made sum256 rec) t (expiry (new_config opts).ttl later) u
          ∙ rw l refl)

  serve_cached-made :
      (r : Target) (rec original : Recorder)
      → if_none_match r ≡ []
      → serve_cached send r (made sum256 rec) original
        ≡ flush_with_etag send (compute_etag sum256 rec.body) rec original
  unfolding serve_cached flush_with_etag ◌===◌
  serve_cached-made r rec original e = rw e refl

  -- A GET or HEAD request that finds nothing in the cache, whose handler answers 200 with a response
  -- that gob carries: a later request of the same key, without If-None-Match and before the entry
  -- expires, gets on a writer in the same state the same response and the same result, and its
  -- handler does not run.
  pub replayed :
      (now later t u : ℕ) (r q : Target) (original rec : Recorder) (w w' : W) (s : S.State)
      (bytes : Text)
      → IsCacheable r
      → IsCacheable q
      → (new_config opts).key_func q ≡ (new_config opts).key_func r
      → if_none_match q ≡ []
      → cached gob (C.live s now ((new_config opts).key_func r)) ≡ none
      → next r new_recorder w ≡ (rec, w', ok tt)
      → status_of rec.status ≡ 200
      → gob.marshal (made sum256 rec) ≡ some bytes
      → gob.unmarshal bytes ≡ some (made sum256 rec)
      → is_after t (expiry (new_config opts).ttl later) ≡ false
      → let first = middleware S gob sum256 send next opts now later r original w s in
        let second = middleware S gob sum256 send next opts t u q original first.0 first.1 in
        (second.0 ≡ w') × (second.2 ≡ first.2) × (second.3 ≡ first.3)
  unfolding serve_or_record
  replayed now later t u r q original rec w w' s bytes c d k none_match h n e m g l =
      let k' =
        store_response S gob (made sum256 rec) (key_of r) (new_config opts).ttl later
          (S.read (key_of r) now s).0 in
      let shown : cached gob (C.live k' t (key_of q)) ≡ some (made sum256 rec) =
        rw k (recorded_shown rec (key_of r) bytes later t _ m g l) in
      rw
        (
          recorded now later r original rec w w' s c h n e,
          middleware_cacheable t u q original w' k' (some (made sum256 rec)) d shown,
          serve_cached-made q rec original none_match,
        )
        (refl, refl, refl)

  serve_cached-etag :
      (r : Target) (rec original : Recorder)
      → if_none_match r ≡ compute_etag sum256 rec.body
      → serve_cached send r (made sum256 rec) original ≡ (
        write_header 304 (record original {
          header = set (codes "ETag") (compute_etag sum256 rec.body) original.header;
        }),
        ok tt,
      )
  unfolding serve_cached compute_etag ◌===◌ codes
  serve_cached-etag r rec original e = rw (e, ===_refl (compute_etag sum256 rec.body)) refl

  -- A GET or HEAD request that finds nothing in the cache, whose handler answers 200 with a response
  -- that gob carries: a later request of the same key, before the entry expires, whose If-None-Match
  -- is the entity tag of the recorded body, is answered 304 with that ETag and without a body, and
  -- its handler does not run.
  pub not_modified :
      (now later t u : ℕ) (r q : Target) (original rec : Recorder) (w w' : W) (s : S.State)
      (bytes : Text)
      → IsCacheable r
      → IsCacheable q
      → (new_config opts).key_func q ≡ (new_config opts).key_func r
      → if_none_match q ≡ compute_etag sum256 rec.body
      → cached gob (C.live s now ((new_config opts).key_func r)) ≡ none
      → next r new_recorder w ≡ (rec, w', ok tt)
      → status_of rec.status ≡ 200
      → gob.marshal (made sum256 rec) ≡ some bytes
      → gob.unmarshal bytes ≡ some (made sum256 rec)
      → is_after t (expiry (new_config opts).ttl later) ≡ false
      → let first = middleware S gob sum256 send next opts now later r original w s in
        let second = middleware S gob sum256 send next opts t u q original first.0 first.1 in
        (second.0 ≡ w')
        × (second.2
            ≡ write_header 304 (record original {
              header = set (codes "ETag") (compute_etag sum256 rec.body) original.header;
            }))
        × (second.3 ≡ ok tt)
  unfolding serve_or_record
  not_modified now later t u r q original rec w w' s bytes c d k match h n e m g l =
      let k' =
        store_response S gob (made sum256 rec) (key_of r) (new_config opts).ttl later
          (S.read (key_of r) now s).0 in
      let shown : cached gob (C.live k' t (key_of q)) ≡ some (made sum256 rec) =
        rw k (recorded_shown rec (key_of r) bytes later t _ m g l) in
      rw
        (
          recorded now later r original rec w w' s c h n e,
          middleware_cacheable t u q original w' k' (some (made sum256 rec)) d shown,
          serve_cached-etag q rec original match,
        )
        (refl, refl, refl)

  finish_unstored :
      (x : Result E (Unit {0})) (rec original : Recorder) (key : Text) (ttl : ℤ) (later : ℕ)
      (s : S.State)
      → (x ≡ ok tt → (status_of rec.status == 200) ≡ false)
      → (finish S gob sum256 send x rec key ttl later original s).0 ≡ s
  unfolding finish
  finish_unstored (err e) rec original key ttl later s h = refl
  finish_unstored (ok u) rec original key ttl later s h = rw (h refl) refl

  -- A GET or HEAD request that finds nothing in the cache, whose handler fails or answers with a
  -- status other than 200: the store shows under every key what it showed before.
  pub unstored :
      (now later : ℕ) (r : Target) (original : Recorder) (w : W) (s : S.State) (t : ℕ) (j : Text)
      → IsCacheable r
      → cached gob (C.live s now ((new_config opts).key_func r)) ≡ none
      → ((next r new_recorder w).2 ≡ ok tt
          → (status_of (next r new_recorder w).0.status == 200) ≡ false)
      → now ≤ t
      → C.live (middleware S gob sum256 send next opts now later r original w s).1 t j
        ≡ C.live s t j
  unfolding serve_or_record record_and_store
  unstored now later r original w s t j c h n l =
      let x = next r new_recorder w in
      let k = (S.read (key_of r) now s).0 in
      rw
        (
          middleware_cacheable now later r original w s none c h,
          finish_unstored x.2 x.0 original (key_of r) (new_config opts).ttl later k n,
        )
        (C.read_keeps (key_of r) now s t j l)
