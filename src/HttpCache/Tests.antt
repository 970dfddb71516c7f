-- ===== src/HttpCache/Tests.antt =====
-- The middleware over the in-memory backend: a handler that counts its calls, one that fails, and a
-- codec that keeps the body, which determines the other fields here.
use trails.Base.{
  ℕ, ◌+◌, ◌≡◌, refl, arith, true, false, some, List, [], ◌∷◌, ◌++◌, Text, codes, Result, ok, err,
  pos, lookup, ◌===◌,
}
use trails.Cache.Memory.{Backend, memory_store}
use trails.Cache.Memory.Refines.{memory_contract}
use trails.Cache.Typed.{Codec}
use trails.Web.Header.{set, get, canonical}
use trails.HttpCache.{
  Target, CachedResponse, Recorder, Handler, HttpCacheOption, with_ttl, new_config, new_recorder,
  write, write_header, compute_etag, middleware, default_key_func,
}
use trails.HttpCache.Laws.{replayed, not_modified, unstored}

abbrev sum256 : List ℕ → List ℕ
sum256 bytes = bytes

abbrev plain : Codec CachedResponse
plain = record {
  marshal = λ x. some x.body;
  unmarshal = λ bytes.
      some (record { status = 200; header = []; body = bytes; etag = compute_etag sum256 bytes });
}

abbrev send : Text → Recorder → Recorder × Result Text (Unit {0})
send body r = (record r { body = r.body ++ body }, ok tt)

abbrev greet : Handler Text ℕ
greet r rec calls = (write (codes "hit") rec, calls + 1, ok tt)

abbrev failing : Handler Text ℕ
failing r rec calls = (write_header 200 rec, calls + 1, err (codes "down"))

abbrev opts : List HttpCacheOption
opts = with_ttl (pos 100) ∷ []

abbrev target : Text → Target
target none_match = record {
  request = record {
    method = codes "GET";
    path = codes "/greet";
    host = codes "localhost";
    remote_addr = codes "10.0.0.1:99";
    tls = false;
    header = (codes "If-None-Match", none_match ∷ []) ∷ [];
    form = λ name. [];
  };
  raw_query = codes "id=1";
}

abbrev tag : Text
tag = compute_etag sum256 (codes "hit")

abbrev empty : Backend
empty = record { entries = []; cleanup_interval = pos 0 }

abbrev recorded : Recorder
recorded = record { header = []; status = 200; body = codes "hit"; wrote_header = true }

replayed_example :
    let first =
      middleware memory_store plain sum256 send greet opts 10 20 (target []) new_recorder 0 empty in
    let second =
      middleware memory_store plain sum256 send greet opts 90 95
        (target [])
        new_recorder
        first.0
        first.1 in
    (second.0 ≡ 1) × (second.2 ≡ first.2) × (second.3 ≡ first.3)
unfolding codes ◌===◌ lookup get canonical new_config with_ttl default_key_func write write_header
    memory_contract compute_etag
replayed_example =
    replayed memory_store memory_contract plain sum256 send greet opts 10 20 90 95 (target [])
      (target []) new_recorder recorded 0 1 empty (codes "hit") refl refl refl refl refl refl refl
      refl refl refl

not_modified_example :
    let first =
      middleware memory_store plain sum256 send greet opts 10 20 (target []) new_recorder 0 empty in
    let second =
      middleware memory_store plain sum256 send greet opts 90 95
        (target tag)
        new_recorder
        first.0
        first.1 in
    (second.0 ≡ 1)
    × (second.2 ≡ write_header 304 (record new_recorder { header = set (codes "ETag") tag [] }))
    × (second.3 ≡ ok tt)
unfolding codes ◌===◌ lookup get canonical new_config with_ttl default_key_func write write_header
    memory_contract compute_etag
not_modified_example =
    not_modified memory_store memory_contract plain sum256 send greet opts 10 20 90 95 (target [])
      (target tag) new_recorder recorded 0 1 empty (codes "hit") refl refl refl refl refl refl refl
      refl refl refl

unstored_example :
    memory_contract.live
      (middleware memory_store plain sum256 send failing opts 10 20
        (target [])
        new_recorder
        0
        empty).1
      30
      (codes "a")
    ≡ memory_contract.live empty 30 (codes "a")
unfolding codes ◌===◌ lookup memory_contract
unstored_example =
    unstored memory_store memory_contract plain sum256 send failing opts 10 20 (target [])
      new_recorder 0 empty 30 (codes "a") refl refl (ground arith) (omega arith)
