-- ===== src/Cache/Typed.antt =====
-- cache/cache.go: `Fetch`, `Read` and `Write` of typed values over any store. The JSON codec of
-- the type is a parameter, and what `fn` does to the rest of the program is a state W.
use trails.Base.{
  ℕ, ◌≤◌, ◌≡◌, refl, Option, none, some, arith, Text, Result, ok, err, if◌then◌else◌, ℤ,
  Result-cases, Bool-cases, ===_refl, inl, inr,
}
use trails.Cache.Store.{Store, Contract, Entry, expiry, unless_expired, is_after}

pub data Error (F E : Type 0) : Type 0 where
  reading writing : F → Error F E
  decoding : Error F E
  encoding : Error F E
  generating : E → Error F E

pub record Codec (T : Type 0) : Type 0 where
  pub marshal : T → Option Text
  pub unmarshal : Text → Option T

module _ (S : Store) {T : Type 0} (codec : Codec T) where
  open S use {State, Failure}

  unfoldable pub write_typed :
      {E : Type 0} → Text → T → ℤ → ℕ → State → State × Result (Error Failure E) (Unit {0})
  write_typed key val ttl now s = elim (codec.marshal val) [
    | none ↦ (s, err encoding)
    | some bytes ↦
        let r = S.write key bytes ttl now s in
        (r.0, elim r.1 [ err e ↦ err (writing e) | ok u ↦ ok u ])
  ]

  unfoldable pub read_typed :
      {E : Type 0} → Text → ℕ → State → State × Result (Error Failure E) (Option T)
  read_typed key now s =
      let r = S.read key now s in
      (
        r.0,
        elim r.1 [
          | err e ↦ err (reading e)
          | ok none ↦ ok none
          | ok (some bytes) ↦ elim (codec.unmarshal bytes) [
            | none ↦ err decoding
            | some v ↦ ok (some v)
          ]
        ],
      )

  module _ {E W : Type 0} (fn : W → W × Result E T) where
    -- The part behind a miss.
    unfoldable pub generate : Text → ℤ → ℕ → W → State → W × State × Result (Error Failure E) T
    unfolding write_typed
    generate key ttl later w s =
        let g = fn w in
        elim g.1 [
          | err e ↦ (g.0, s, err (generating e))
          | ok v ↦
              let r = write_typed {E = E} key v ttl later s in
              (g.0, r.0, elim r.1 [ err e ↦ err e | ok u ↦ ok v ])
        ]

    unfoldable pub fetch : Text → ℤ → ℕ → ℕ → W → State → W × State × Result (Error Failure E) T
    unfolding generate
    fetch key ttl now later w s =
        let r = S.read key now s in
        elim r.1 [
          | err e ↦ (w, r.0, err (reading e))
          | ok none ↦ generate key ttl later w r.0
          | ok (some bytes) ↦ elim (codec.unmarshal bytes) [
            | none ↦ generate key ttl later w r.0
            | some v ↦ (w, r.0, ok v)
          ]
        ]

-- What the store shows of a key, decoded.
abbrev pub cached : {T : Type 0} → Codec T → Option Entry → Option T
cached codec none = none
cached codec (some e) = codec.unmarshal e.value

pub expired_cached :
    {T : Type 0} (codec : Codec T) (bytes : Text) (v : T) (t : ℕ) (x : Option ℕ)
    → codec.unmarshal bytes ≡ some v
    → cached codec (unless_expired t (some (record { value = bytes; expires_at = x })))
      ≡ (if is_after t x then none else some v)
expired_cached codec bytes v t x u = elim (Bool-cases (is_after t x)) [
  | inl p ↦ rw p refl
  | inr p ↦ rw p u
]

module _ (S : Store) (C : Contract S) {T : Type 0} (codec : Codec T) {E W : Type 0}
    (fn : W → W × Result E T) where
  -- A value that is cached and decodes is returned, and `fn` is not called.
  pub fetch_hit :
      (key : Text) (ttl : ℤ) (now later : ℕ) (w : W) (s : S.State) (v : T)
      → cached codec (C.live s now key) ≡ some v
      → fetch S codec fn key ttl now later w s ≡ (w, (S.read key now s).0, ok v)
  unfolding fetch
  fetch_hit key ttl now later w s v h = elim (Result-cases (S.read key now s).1) [
    | inr (e, q) ↦ ground (arith, C.read_value key now s, q)
    | inl (none, q) ↦ ground (arith, C.read_value key now s, q, h)
    | inl (some bytes, q) ↦ ground (arith, C.read_value key now s, q, h)
  ]

  missed :
      (key : Text) (ttl : ℤ) (now later : ℕ) (w : W) (s : S.State)
      → cached codec (C.live s now key) ≡ none
      → fetch S codec fn key ttl now later w s
        ≡ generate S codec fn key ttl later w (S.read key now s).0
  unfolding fetch
  missed key ttl now later w s h = elim (Result-cases (S.read key now s).1) [
    | inr (e, q) ↦ ground (arith, C.read_value key now s, q)
    | inl (none, q) ↦ ground (arith, q)
    | inl (some bytes, q) ↦ ground (arith, C.read_value key now s, q, h)
  ]

  -- Where nothing is cached, or what is does not decode, and `fn` returns a value that JSON
  -- carries: `fn` is called once; its value is returned, and is what the store then shows until
  -- it expires.
  pub fetch_miss :
      (key : Text) (ttl : ℤ) (now later : ℕ) (w w' : W) (s : S.State) (v : T) (bytes : Text) (t : ℕ)
      → cached codec (C.live s now key) ≡ none
      → fn w ≡ (w', ok v)
      → codec.marshal v ≡ some bytes
      → codec.unmarshal bytes ≡ some v
      → ((fetch S codec fn key ttl now later w s).0 ≡ w')
        × ((fetch S codec fn key ttl now later w s).2 ≡ ok v)
        × (cached codec (C.live (fetch S codec fn key ttl now later w s).1 t key)
            ≡ (if is_after t (expiry ttl later) then none else some v))
  unfolding fetch generate write_typed
  fetch_miss key ttl now later w w' s v bytes t h g m u =
      let s' = (S.read key now s).0 in
      let fetched = missed key ttl now later w s h in
      let made : generate S codec fn key ttl later w s'
          ≡ (w', (S.write key bytes ttl later s').0, ok v) =
        ground (arith, g, m, C.write_ok key bytes ttl later s') in
      let shown : cached codec (C.live (S.write key bytes ttl later s').0 t key)
          ≡ (if is_after t (expiry ttl later) then none else some v) =
        rw (C.write_sets key bytes ttl later s' t key, ===_refl key)
          (expired_cached codec bytes v t (expiry ttl later) u) in
      rw (fetched, made) (refl, refl, shown)

  -- Where nothing is cached, or what is does not decode, an error of `fn` is returned, and the
  -- store shows what it showed before.
  pub fetch_error :
      (key : Text) (ttl : ℤ) (now later : ℕ) (w w' : W) (s : S.State) (e : E) (t : ℕ) (j : Text)
      → cached codec (C.live s now key) ≡ none
      → fn w ≡ (w', err e)
      → now ≤ t
      → ((fetch S codec fn key ttl now later w s).2 ≡ err (generating e))
        × (C.live (fetch S codec fn key ttl now later w s).1 t j ≡ C.live s t j)
  unfolding fetch generate
  fetch_error key ttl now later w w' s e t j h g q =
      let failed : generate S codec fn key ttl later w (S.read key now s).0
          ≡ (w', (S.read key now s).0, err (generating e)) =
        ground (arith, g) in
      rw (missed key ttl now later w s h, failed) (refl, C.read_keeps key now s t j q)
