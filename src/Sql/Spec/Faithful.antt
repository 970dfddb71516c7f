-- ===== src/Sql/Spec/Faithful.antt =====
-- Renderings that print what they should, and how they compose.
use trails.Base.{
  suc, ◌≡◌, refl, sym, subst, ap, ◌∙◌, some, List, [], ◌∷◌, ◌++◌, append_assoc, append-nil, arith,
  Text, get_elem?, length, length-append, ok, inl, inr, Result-cases,
}
use trails.Sql.Dialect.{Dialect}
use trails.Sql.Render.{Render, ◌>>=◌, return, bind}
use trails.Sql.Spec.{Tok, value, Printed, PrintedAll, Printed-more}

module _ (d : Dialect) {V : Type 0} where
  pub bind-inv :
      {A B : Type 0} (m : Render V A) (f : A → Render V B) (args : List V) {r : B × List V}
      → (m >>= f) args ≡ ok r
      → (a : A) × (args' : List V) × (m args ≡ ok (a, args')) × (f a args' ≡ ok r)
  bind-inv m f args e = elim (Result-cases (m args)) [
    | inl ((a, args'), q) ↦ (a, args', q, ground (arith, q))
    | inr (x, q) ↦ absurd (ground (arith, q))
  ]

  -- If m renders, it binds vs behind what was bound, and its text prints ts.
  pub record Faithful (m : Render V Text) (ts : List (Tok V)) (vs : List V) : Type 0 where
    pub renders :
        (args args' : List V) (s : Text)
        → m args ≡ ok (s, args')
        → (args' ≡ args ++ vs) × Printed d args' ts s

  pub record FaithfulAll (m : Render V (List Text)) (tss : List (List (Tok V))) (vs : List V)
      : Type 0 where
    pub renders :
        (args args' : List V) (ss : List Text)
        → m args ≡ ok (ss, args')
        → (args' ≡ args ++ vs) × PrintedAll d args' tss ss

  get_elem?-last : (args : List V) (v : V) → get_elem? (args ++ v ∷ []) (length args) ≡ some v
  get_elem?-last [] v = refl
  get_elem?-last (a ∷ args) v = get_elem?-last args v

  pub bind-Faithful : (v : V) → Faithful (bind d v) (value v ∷ []) (v ∷ [])
  unfolding bind
  bind-Faithful v = record {
    renders = λ args args' s e.
        let q : args' ≡ args ++ v ∷ [] = ground arith in
        let n = length (args ++ v ∷ []) in
        let h : s ≡ d.placeholder n = ground arith in
        let l : n ≡ suc (length args) = omega (arith, length-append args (v ∷ [])) in
        let shown = h ∙ ap d.placeholder l ∙ sym (append-nil (d.placeholder (suc (length args)))) in
        (q, (length args, [], rw q (get_elem?-last args v), shown, refl));
  }

  pub Faithful-return :
      (s : Text) (ts : List (Tok V))
      → ((args : List V) → Printed d args ts s)
      → Faithful (return s) ts []
  Faithful-return s ts p = record {
    renders = λ args args' r e.
        let q : args' ≡ args ++ [] = ground (arith, append-nil args) in
        let h : s ≡ r = ground arith in (q, rw (← h) (p args'));
  }

  pub Faithful-map :
      (m : Render V Text) (f : Text → Text) {ts us : List (Tok V)} {vs : List V}
      → Faithful m ts vs
      → ((args : List V) (s : Text) → Printed d args ts s → Printed d args us (f s))
      → Faithful (m >>= λ s. return (f s)) us vs
  Faithful-map m f faithful g = record {
    renders = λ args args' r e.
        let (s, args1, run, rest) = bind-inv m (λ s. return (f s)) args e in
        let (q, p) = faithful.renders args args1 s run in
        let same : args1 ≡ args' = ground arith in
        let shown : f s ≡ r = ground arith in (rw (← same) q, rw (← same, ← shown) (g args1 s p));
  }

  pub FaithfulAll-map :
      (m : Render V (List Text)) (f : List Text → Text) {tss : List (List (Tok V))}
      {us : List (Tok V)} {vs : List V}
      → FaithfulAll m tss vs
      → ((args : List V) (ss : List Text) → PrintedAll d args tss ss → Printed d args us (f ss))
      → Faithful (m >>= λ ss. return (f ss)) us vs
  FaithfulAll-map m f faithful g = record {
    renders = λ args args' r e.
        let (ss, args1, run, rest) = bind-inv m (λ ss. return (f ss)) args e in
        let (q, p) = faithful.renders args args1 ss run in
        let same : args1 ≡ args' = ground arith in
        let shown : f ss ≡ r = ground arith in (rw (← same) q, rw (← same, ← shown) (g args1 ss p));
  }

  pub Faithful-two :
      (m n : Render V Text) (f : Text → Text → Text) {ts us ws : List (Tok V)} {vs zs : List V}
      → Faithful m ts vs
      → Faithful n us zs
      → ((args : List V) (s t : Text)
          → Printed d args ts s
          → Printed d args us t
          → Printed d args ws (f s t))
      → Faithful (do s ← m; t ← n; return (f s t)) ws (vs ++ zs)
  Faithful-two m n f {ts} {us} {vs} {zs} mf nf g = record {
    renders = λ args args' r e.
        let (s, args1, run, rest) = bind-inv m (λ s. n >>= λ t. return (f s t)) args e in
        let (q, p) = mf.renders args args1 s run in
        let (t, args2, run', rest') = bind-inv n (λ t. return (f s t)) args1 rest in
        let (q', p') = nf.renders args1 args2 t run' in
        let same : args2 ≡ args' = ground arith in
        let shown : f s t ≡ r = ground arith in
        (
          rw (← same) (q' ∙ ap (λ (l : List V). l ++ zs) q ∙ append_assoc args vs zs),
          rw (← same, ← shown) (g args2 s t (rw q' (Printed-more d args1 zs ts s p)) p'),
        );
  }

  pub FaithfulAll-nil : FaithfulAll (return []) [] []
  FaithfulAll-nil = record {
    renders = λ args args' ss e.
        let q : [] ≡ ss = ground arith in (ground (arith, append-nil args), rw (← q) tt);
  }

  PrintedAll-more :
      (args more : List V) (tss : List (List (Tok V))) (ss : List Text)
      → PrintedAll d args tss ss
      → PrintedAll d (args ++ more) tss ss
  PrintedAll-more args more [] [] p = tt
  PrintedAll-more args more (ts ∷ tss) (s ∷ ss) (p, q) =
      (Printed-more d args more ts s p, PrintedAll-more args more tss ss q)
  PrintedAll-more args more [] (s ∷ ss) p = absurd p
  PrintedAll-more args more (ts ∷ tss) [] p = absurd p

  pub FaithfulAll-cons :
      (m : Render V Text) (rest : Render V (List Text)) (f : Text → Text) {ts us : List (Tok V)}
      {tss : List (List (Tok V))} {vs zs : List V}
      → Faithful m ts vs
      → FaithfulAll rest tss zs
      → ((args : List V) (s : Text) → Printed d args ts s → Printed d args us (f s))
      → FaithfulAll (do s ← m; ss ← rest; return (f s ∷ ss)) (us ∷ tss) (vs ++ zs)
  FaithfulAll-cons m n f {ts} {us} {tss} {vs} {zs} mf nf g = record {
    renders = λ args args' r e.
        let (s, args1, run, rest) = bind-inv m (λ s. n >>= λ ss. return (f s ∷ ss)) args e in
        let (q, p) = mf.renders args args1 s run in
        let (ss, args2, run', rest') = bind-inv n (λ ss. return (f s ∷ ss)) args1 rest in
        let (q', p') = nf.renders args1 args2 ss run' in
        let same : args2 ≡ args' = ground arith in
        let shown : f s ∷ ss ≡ r = ground arith in
        (
          rw (← same) (q' ∙ ap (λ (l : List V). l ++ zs) q ∙ append_assoc args vs zs),
          rw (← same, ← shown) (rw q' (Printed-more d args1 zs us (f s) (g args1 s p)), p'),
        );
  }

  Printed-later :
      (args more : List V) {args' : List V} (ts : List (Tok V)) (s : Text)
      → args' ≡ args ++ more
      → Printed d args ts s
      → Printed d args' ts s
  Printed-later args more ts s e p =
      subst (λ a. Printed d a ts s) (sym e) (Printed-more d args more ts s p)

  pub Faithful-three :
      (l m n : Render V Text) (f : Text → Text → Text → Text) {ks ts us ws : List (Tok V)}
      {xs ys zs : List V}
      → Faithful l ks xs
      → Faithful m ts ys
      → Faithful n us zs
      → ((args : List V) (r s t : Text)
          → Printed d args ks r
          → Printed d args ts s
          → Printed d args us t
          → Printed d args ws (f r s t))
      → Faithful (do r ← l; s ← m; t ← n; return (f r s t)) ws (xs ++ (ys ++ zs))
  Faithful-three l m n f {ks} {ts} {us} {xs} {ys} {zs} lf mf nf g = record {
    renders = λ args args' o e.
        let (r, args1, run1, rest1) = bind-inv l (λ r. do s ← m; t ← n; return (f r s t)) args e in
        let (q1, p1) = lf.renders args args1 r run1 in
        let (s, args2, run2, rest2) = bind-inv m (λ s. do t ← n; return (f r s t)) args1 rest1 in
        let (q2, p2) = mf.renders args1 args2 s run2 in
        let (t, args3, run3, rest3) = bind-inv n (λ t. return (f r s t)) args2 rest2 in
        let (q3, p3) = nf.renders args2 args3 t run3 in
        let same : args3 ≡ args' = ground arith in
        let shown : f r s t ≡ o = ground arith in
        let lk = Printed-later args2 zs ks r q3 (Printed-later args1 ys ks r q2 p1) in
        let lt = Printed-later args2 zs ts s q3 p2 in
        (
          sym same
              ∙ q3
              ∙ ap (λ (a : List V). a ++ zs) (q2 ∙ ap (λ (a : List V). a ++ ys) q1)
              ∙ simp append_assoc,
          rw (← same, ← shown) (g args3 r s t lk lt p3),
        );
  }
