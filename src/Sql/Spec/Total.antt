-- ===== src/Sql/Spec/Total.antt =====
-- Which conditions render, and that these do whatever has been bound before.
use trails.Base.{ℕ, ◌+◌, ◌≡◌, refl, true, List, [], ◌∷◌, ◌++◌, arith, Text, codes, length, ok}
use trails.Sql.Dialect.{Dialect}
use trails.Web.Header.{join}
use trails.Sql.Spec.{Printed, predicate_toks}
use trails.Sql.Spec.Conditions.{render_predicate-Faithful}
use trails.Sql.Spec.Values.{values_of}
use trails.Sql.Types.{
  Column, Predicate, Predicates, absent, eq, ne, gt, gte, lt, lte, like, ilike, not_like, is_in,
  not_in, is_null, is_not_null, between, all_of, any_of, negation, raw, eq_col, nil, cons,
}
use trails.Sql.Render.{
  Render, ◌>>=◌, return, Piece, byte, ref, pieces, bind, bind_list, compare_to, parenthesize,
  replace_pieces, render_raw_fragment, render_predicate, render_children, is_bound, quote_column,
}

abbrev pub AreBound : ℕ → List Piece → Type 0
AreBound n [] = Unit {0}
AreBound n (byte c ∷ ps) = AreBound n ps
AreBound n (ref k ∷ ps) = (is_bound k n ≡ true) × AreBound n ps

-- Every ILIKE stands in a dialect that has it, and every reference of a raw fragment has a value.
abbrev mutual
  pub IsRenderable : {V : Type 0} → Dialect → Predicate V → Type 0
  IsRenderable d (ilike c v) = d.supports_ilike ≡ true
  IsRenderable d (raw fragment args) = AreBound (length args) (pieces fragment)
  IsRenderable d (all_of ps) = AreRenderable d ps
  IsRenderable d (any_of ps) = AreRenderable d ps
  IsRenderable d (negation p) = IsRenderable d p
  IsRenderable d _ = Unit {0}

  pub AreRenderable : {V : Type 0} → Dialect → Predicates V → Type 0
  AreRenderable d nil = Unit {0}
  AreRenderable d (cons p ps) = IsRenderable d p × AreRenderable d ps

-- The rendering succeeds, whatever has been bound.
pub record Succeeds {V : Type 0} {A : Type 0} (m : Render V A) (args : List V) : Type 0 where
  pub result : A
  pub bound : List V
  pub runs : m args ≡ ok (result, bound)

pub bind-Succeeds :
    {V A B : Type 0} (m : Render V A) (f : A → Render V B) (args : List V)
    → Succeeds m args
    → ((a : A) (args' : List V) → Succeeds (f a) args')
    → Succeeds (m >>= f) args
bind-Succeeds m f args h g =
    let next = g h.result h.bound in
    record { result = next.result; bound = next.bound; runs = ground (arith, h.runs, next.runs) }

pub return-Succeeds : {V A : Type 0} (a : A) (args : List V) → Succeeds (return {V = V} a) args
return-Succeeds a args = record { result = a; bound = args; runs = refl }

pub map-Succeeds :
    {V A B : Type 0} (m : Render V A) (f : A → B) (args : List V)
    → Succeeds m args
    → Succeeds (m >>= λ a. return (f a)) args
map-Succeeds m f args h =
    bind-Succeeds m (λ a. return (f a)) args h (λ a later. return-Succeeds (f a) later)

pub two-Succeeds :
    {V A B C : Type 0} (m : Render V A) (n : Render V B) (f : A → B → C) (args : List V)
    → Succeeds m args
    → ((later : List V) → Succeeds n later)
    → Succeeds (do a ← m; b ← n; return (f a b)) args
two-Succeeds m n f args h k =
    bind-Succeeds m (λ a. do b ← n; return (f a b)) args h
      (λ a later. map-Succeeds n (f a) later (k later))

replace_pieces-total :
    (d : Dialect) (fragment : Text) (base n : ℕ) (ps : List Piece)
    → AreBound n ps
    → (out : Text) × (replace_pieces d fragment base n ps ≡ ok out)
unfolding replace_pieces
replace_pieces-total d fragment base n [] h = ([], refl)
replace_pieces-total d fragment base n (byte c ∷ ps) h =
    let (out, e) = replace_pieces-total d fragment base n ps h in (c ∷ out, ground (arith, e))
replace_pieces-total d fragment base n (ref k ∷ ps) (b, h) =
    let (out, e) = replace_pieces-total d fragment base n ps h in
    (d.placeholder (base + k) ++ out, rw (b, e) refl)

module _ (d : Dialect) {V : Type 0} where
  pub bind-total : (v : V) (args : List V) → Succeeds (bind d v) args
  unfolding bind
  bind-total v args = record { result = _; bound = _; runs = refl }

  compare_to-total :
      (c : Column) (op : Text) (v : V) (args : List V) → Succeeds (compare_to d c op v) args
  unfolding compare_to
  compare_to-total c op v args =
      map-Succeeds (bind d v) (λ hole. quote_column d c ++ (op ++ hole)) args (bind-total v args)

  bind_list-total : (vs args : List V) → Succeeds (bind_list d vs) args
  unfolding bind_list
  bind_list-total [] args = return-Succeeds _ args
  bind_list-total (v ∷ vs) args =
      two-Succeeds (bind d v) (bind_list d vs) (λ part parts. part ∷ parts) args (bind-total v args)
        (λ args'. (bind_list-total vs args'))

  pub raw-total :
      (fragment : Text) (raw_args : List V)
      → AreBound (length raw_args) (pieces fragment)
      → (args : List V) → Succeeds (render_raw_fragment d fragment raw_args) args
  unfolding render_raw_fragment
  raw-total fragment raw_args h args =
      let (out, e) =
        replace_pieces-total d fragment (length args) (length raw_args) (pieces fragment) h in
      record { result = out; bound = args ++ raw_args; runs = ground (arith, e) }

  mutual
    unfolding render_predicate render_children

    -- A renderable condition renders.
    pub render_predicate-total :
        (p : Predicate V)
        → IsRenderable d p
        → (args : List V) → Succeeds (render_predicate d p) args
    render_predicate-total absent h args = return-Succeeds _ args
    render_predicate-total (eq c v) h args = compare_to-total c _ v args
    render_predicate-total (ne c v) h args = compare_to-total c _ v args
    render_predicate-total (gt c v) h args = compare_to-total c _ v args
    render_predicate-total (gte c v) h args = compare_to-total c _ v args
    render_predicate-total (lt c v) h args = compare_to-total c _ v args
    render_predicate-total (lte c v) h args = compare_to-total c _ v args
    render_predicate-total (like c v) h args = compare_to-total c _ v args
    render_predicate-total (ilike c v) h args =
        let done = compare_to-total c (codes " ILIKE ") v args in
        record { result = done.result; bound = done.bound; runs = ground (arith, done.runs, h) }
    render_predicate-total (not_like c v) h args = compare_to-total c _ v args
    render_predicate-total (is_in c []) h args = return-Succeeds _ args
    render_predicate-total (is_in c (v ∷ vs)) h args =
        map-Succeeds (bind_list d (v ∷ vs))
          (λ parts. quote_column d c ++ (codes " IN (" ++ (join (codes ", ") parts ++ codes ")")))
          args (bind_list-total (v ∷ vs) args)
    render_predicate-total (not_in c []) h args = return-Succeeds _ args
    render_predicate-total (not_in c (v ∷ vs)) h args =
        map-Succeeds (bind_list d (v ∷ vs))
          (λ parts.
            quote_column d c ++ (codes " NOT IN (" ++ (join (codes ", ") parts ++ codes ")")))
          args (bind_list-total (v ∷ vs) args)
    render_predicate-total (is_null c) h args = return-Succeeds _ args
    render_predicate-total (is_not_null c) h args = return-Succeeds _ args
    render_predicate-total (between c lo hi) h args =
        two-Succeeds (bind d lo) (bind d hi)
          (λ low high. quote_column d c ++ (codes " BETWEEN " ++ (low ++ (codes " AND " ++ high))))
          args (bind-total lo args) (λ args'. (bind-total hi args'))
    render_predicate-total (all_of nil) h args = return-Succeeds _ args
    render_predicate-total (all_of (cons p ps)) h args =
        map-Succeeds (render_children d (cons p ps)) (join (codes " AND ")) args
          (render_children-total (cons p ps) h args)
    render_predicate-total (any_of nil) h args = return-Succeeds _ args
    render_predicate-total (any_of (cons p ps)) h args =
        map-Succeeds (render_children d (cons p ps)) (join (codes " OR ")) args
          (render_children-total (cons p ps) h args)
    render_predicate-total (negation p) h args =
        map-Succeeds (render_predicate d p) (λ s. codes "NOT " ++ parenthesize d p s) args
          (render_predicate-total p h args)
    render_predicate-total (raw fragment raw_args) h args = raw-total fragment raw_args h args
    render_predicate-total (eq_col left right) h args = return-Succeeds _ args

    render_children-total :
        (ps : Predicates V)
        → AreRenderable d ps
        → (args : List V) → Succeeds (render_children d ps) args
    render_children-total nil h args = return-Succeeds _ args
    render_children-total (cons p ps) (h, k) args =
        two-Succeeds (render_predicate d p) (render_children d ps)
          (λ s parts. parenthesize d p s ∷ parts) args (render_predicate-total p h args)
          (λ args'. (render_children-total ps k args'))

-- A condition whose ILIKEs the dialect has and whose raw references have values renders, whatever
-- has been bound before: its values are bound behind those, in order, and the text prints the
-- condition's chunks, and each value as the placeholder of its position.
pub render_predicate_lem :
    (d : Dialect) {V : Type 0} (p : Predicate V) (args : List V)
    → IsRenderable d p
    → (s : Text) × (render_predicate d p args ≡ ok (s, args ++ values_of p))
      × Printed d (args ++ values_of p) (predicate_toks d p) s
render_predicate_lem d p args h =
    let done = render_predicate-total d p h args in
    let (bound, printed) =
      (render_predicate-Faithful d p).renders args done.bound done.result done.runs in
    (done.result, rw (← bound) done.runs, rw (← bound) printed)
