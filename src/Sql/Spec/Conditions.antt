-- ===== src/Sql/Spec/Conditions.antt =====
-- Every condition is rendered as it is specified: its text prints its chunks and values.
use trails.Base.{
  ℕ, zero, suc, ◌+◌, ◌-◌, ◌≤◌, ◌<◌, ◌≡◌, refl, sym, subst, ap, ◌∙◌, some, List, [], ◌∷◌, ◌++◌, map,
  append-nil, arith, Text, codes, get_elem?, length, ok, Bool-cases, inl, inr, Result-cases,
}
use trails.Web.Header.{join}
use trails.Sql.Dialect.{Dialect}
use trails.Sql.Types.{
  Column, Predicate, Predicates, absent, eq, ne, gt, gte, lt, lte, like, ilike, not_like, is_in,
  not_in, is_null, is_not_null, between, all_of, any_of, negation, raw, eq_col, nil, cons,
}
use trails.Sql.Render.{
  Piece, byte, ref, pieces, quote_column, bind, bind_list, compare_to, parenthesize, replace_pieces,
  render_raw_fragment, render_predicate, render_children,
}
use trails.Sql.Spec.Faithful.{
  bind-Faithful, Faithful, FaithfulAll, Faithful-return, Faithful-map, FaithfulAll-map,
  Faithful-two, FaithfulAll-nil, FaithfulAll-cons,
}
use trails.Sql.Spec.{
  Tok, chunk, value, piece_tok, separate, comma_values, comparison, bracket, predicate_toks,
  children_toks, Printed, PrintedAll, Printed-append, Printed-join,
}
use trails.Sql.Spec.Values.{values_of, children_values}

module _ {V : Type 0} where
  get_elem?-in_range : (xs : List V) (i : ℕ) → i < length xs → (v : V) × (get_elem? xs i ≡ some v)
  get_elem?-in_range [] i h = elim h [ ]
  get_elem?-in_range (x ∷ xs) zero h = (x, refl)
  get_elem?-in_range (x ∷ xs) (suc i) h = get_elem?-in_range xs i (omega arith)

  get_elem?-append_right :
      (xs ys : List V) (i : ℕ) → get_elem? (xs ++ ys) (length xs + i) ≡ get_elem? ys i
  get_elem?-append_right [] ys i = ap (get_elem? ys) (omega arith)
  get_elem?-append_right (x ∷ xs) ys i =
      let e : suc (length xs) + i ≡ suc (length xs + i) = omega arith in
      ap (get_elem? (x ∷ (xs ++ ys))) e ∙ get_elem?-append_right xs ys i

module _ (d : Dialect) {V : Type 0} where
  -- Each reference in a raw fragment is printed as the number of the value that it names.
  replace_pieces-Printed :
      (fragment : Text) (args raw_args : List V) (ps : List Piece) (out : Text)
      → replace_pieces d fragment (length args) (length raw_args) ps ≡ ok out
      → Printed d (args ++ raw_args) (map (piece_tok raw_args) ps) out
  unfolding replace_pieces
  replace_pieces-Printed fragment args raw_args [] out e = ground arith
  replace_pieces-Printed fragment args raw_args (byte c ∷ ps) out e =
      elim (Result-cases (replace_pieces d fragment (length args) (length raw_args) ps)) [
        | inl (o, q) ↦ (o, ground (arith, q), replace_pieces-Printed fragment args raw_args ps o q)
        | inr (x, q) ↦ absurd (ground (arith, q))
      ]
  replace_pieces-Printed fragment args raw_args (ref k ∷ ps) out e =
      elim (Result-cases (replace_pieces d fragment (length args) (length raw_args) ps)) [
        | inl (o, q) ↦
            let bound : (1 ≤ k) × (k ≤ length raw_args) = ground (arith, q) in
            let (v, g) = get_elem?-in_range raw_args (k - 1) (omega arith) in
            let h : out ≡ d.placeholder (length args + k) ++ o = ground (arith, q) in
            let n : length args + k ≡ suc (length args + (k - 1)) = omega arith in
            let t : value v ≡ piece_tok raw_args (ref k) = ground (arith, g) in
            subst (λ tk. Printed d (args ++ raw_args) (tk ∷ map (piece_tok raw_args) ps) out) t
              (
                length args + (k - 1),
                o,
                get_elem?-append_right args raw_args (k - 1) ∙ g,
                h ∙ ap (λ (m : ℕ). d.placeholder m ++ o) n,
                replace_pieces-Printed fragment args raw_args ps o q,
              )
        | inr (x, q) ↦ absurd (ground (arith, q))
      ]

  pub raw-Faithful :
      (fragment : Text) (raw_args : List V)
      → Faithful d
          (render_raw_fragment d fragment raw_args)
          (map (piece_tok raw_args) (pieces fragment))
          raw_args
  unfolding render_raw_fragment
  raw-Faithful fragment raw_args = record {
    renders = λ args args' s e.
        elim (Result-cases
          (replace_pieces d fragment (length args) (length raw_args) (pieces fragment))) [
            | inl (o, q) ↦
                let same : args ++ raw_args ≡ args' = ground (arith, q) in
                let shown : o ≡ s = ground (arith, q) in
                (
                  sym same,
                  rw (← same, ← shown)
                      (replace_pieces-Printed fragment args raw_args (pieces fragment) o q),
                )
            | inr (x, q) ↦ absurd (ground (arith, q))
          ];
  }

  compare_to-Faithful :
      (c : Column) (op : Text) (v : V)
      → Faithful d (compare_to d c op v) (comparison d c op v) (v ∷ [])
  unfolding compare_to
  compare_to-Faithful c op v =
      Faithful-map d (bind d v) (λ hole. quote_column d c ++ (op ++ hole)) (bind-Faithful d v)
        (λ args s p. (op ++ s, refl, (s, refl, p)))

  bind_list-Faithful : (vs : List V) → FaithfulAll d (bind_list d vs) (comma_values vs) vs
  unfolding bind_list
  bind_list-Faithful [] = FaithfulAll-nil d
  bind_list-Faithful (v ∷ vs) =
      FaithfulAll-cons d (bind d v) (bind_list d vs) (λ s. s) (bind-Faithful d v)
        (bind_list-Faithful vs) (λ args s p. p)

  ilike-Faithful :
      (c : Column) (v : V)
      → Faithful d (render_predicate d (ilike c v)) (comparison d c (codes " ILIKE ") v) (v ∷ [])
  unfolding render_predicate
  ilike-Faithful c v = record {
    renders = λ args args' s e. elim (Bool-cases d.supports_ilike) [
      | inl h ↦ (compare_to-Faithful c (codes " ILIKE ") v).renders args args' s (ground (arith, h))
      | inr h ↦ absurd (ground (arith, h))
    ];
  }

  bracket-Printed :
      (p : Predicate V) (args : List V) (ts : List (Tok V)) (s : Text)
      → Printed d args ts s
      → Printed d args (bracket d p ts) (parenthesize d p s)
  unfolding parenthesize
  bracket-Printed (all_of ps) args ts s p =
      (s ++ codes ")", refl, Printed-append d args ts _ s _ p (_, sym (append-nil _), refl))
  bracket-Printed (any_of ps) args ts s p =
      (s ++ codes ")", refl, Printed-append d args ts _ s _ p (_, sym (append-nil _), refl))
  bracket-Printed (negation q) args ts s p =
      (s ++ codes ")", refl, Printed-append d args ts _ s _ p (_, sym (append-nil _), refl))
  bracket-Printed _ args ts s p = p

  -- One chunk, and nothing behind it.
  pub alone : (args : List V) (s : Text) → Printed d args (chunk s ∷ []) s
  alone args s = ([], sym (append-nil s), refl)

  member-Printed :
      (c : Column) (word : Text) (vs : List V) (args : List V) (ss : List Text)
      → PrintedAll d args (comma_values vs) ss
      → Printed d args
          (chunk (quote_column d c)
            ∷ chunk word
            ∷ (separate (codes ", ") (comma_values vs) ++ chunk (codes ")") ∷ []))
          (quote_column d c ++ (word ++ (join (codes ", ") ss ++ codes ")")))
  member-Printed c word vs args ss p = (
    _,
    refl,
    (
      _,
      refl,
      Printed-append d args _ _ _ _ (Printed-join d args (codes ", ") (comma_values vs) ss p)
          (alone args (codes ")")),
    ),
  )

  mutual
    unfolding render_predicate render_children predicate_toks children_toks values_of
        children_values

    -- Rendering a condition binds its values in order, and its text prints its chunks and values.
    pub render_predicate-Faithful :
        (p : Predicate V) → Faithful d (render_predicate d p) (predicate_toks d p) (values_of p)
    render_predicate-Faithful absent = Faithful-return d _ _ (λ args. alone args _)
    render_predicate-Faithful (eq c v) = compare_to-Faithful c _ v
    render_predicate-Faithful (ne c v) = compare_to-Faithful c _ v
    render_predicate-Faithful (gt c v) = compare_to-Faithful c _ v
    render_predicate-Faithful (gte c v) = compare_to-Faithful c _ v
    render_predicate-Faithful (lt c v) = compare_to-Faithful c _ v
    render_predicate-Faithful (lte c v) = compare_to-Faithful c _ v
    render_predicate-Faithful (like c v) = compare_to-Faithful c _ v
    render_predicate-Faithful (ilike c v) = ilike-Faithful c v
    render_predicate-Faithful (not_like c v) = compare_to-Faithful c _ v
    render_predicate-Faithful (is_in c []) = Faithful-return d _ _ (λ args. alone args _)
    render_predicate-Faithful (is_in c (v ∷ vs)) =
        FaithfulAll-map d _ _ (bind_list-Faithful (v ∷ vs)) (member-Printed c _ (v ∷ vs))
    render_predicate-Faithful (not_in c []) = Faithful-return d _ _ (λ args. alone args _)
    render_predicate-Faithful (not_in c (v ∷ vs)) =
        FaithfulAll-map d _ _ (bind_list-Faithful (v ∷ vs)) (member-Printed c _ (v ∷ vs))
    render_predicate-Faithful (is_null c) = Faithful-return d _ _ (λ args. (_, refl, alone args _))
    render_predicate-Faithful (is_not_null c) =
        Faithful-return d _ _ (λ args. (_, refl, alone args _))
    render_predicate-Faithful (between c lo hi) =
        Faithful-two d (bind d lo) (bind d hi) _ (bind-Faithful d lo) (bind-Faithful d hi)
          (λ args s t p q. (
            _,
            refl,
            (
              _,
              refl,
              Printed-append d args (value lo ∷ []) (chunk (codes " AND ") ∷ value hi ∷ []) s _ p
                  (_, refl, q),
            ),
          ))
    render_predicate-Faithful (all_of nil) = Faithful-return d _ _ (λ args. alone args _)
    render_predicate-Faithful (all_of (cons p ps)) =
        FaithfulAll-map d _ _ (render_children-Faithful (cons p ps))
          (λ args. Printed-join d args (codes " AND ") (children_toks d (cons p ps)))
    render_predicate-Faithful (any_of nil) = Faithful-return d _ _ (λ args. alone args _)
    render_predicate-Faithful (any_of (cons p ps)) =
        FaithfulAll-map d _ _ (render_children-Faithful (cons p ps))
          (λ args. Printed-join d args (codes " OR ") (children_toks d (cons p ps)))
    render_predicate-Faithful (negation p) =
        Faithful-map d (render_predicate d p) _ (render_predicate-Faithful p)
          (λ args s q. (_, refl, bracket-Printed p args _ s q))
    render_predicate-Faithful (raw fragment args) = raw-Faithful fragment args
    render_predicate-Faithful (eq_col left right) =
        Faithful-return d _ _ (λ args. (_, refl, (_, refl, alone args _)))

    render_children-Faithful :
        (ps : Predicates V)
        → FaithfulAll d (render_children d ps) (children_toks d ps) (children_values ps)
    render_children-Faithful nil = FaithfulAll-nil d
    render_children-Faithful (cons p ps) =
        FaithfulAll-cons d (render_predicate d p) (render_children d ps) (parenthesize d p)
          (render_predicate-Faithful p) (render_children-Faithful ps)
          (λ args s. bracket-Printed p args _ s)
