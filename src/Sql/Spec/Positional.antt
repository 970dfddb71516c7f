-- ===== src/Sql/Spec/Positional.antt =====
-- Raw fragments on MySQL, whose placeholder `?` has no number (pack/internal/sqlbuild/render.go and
-- pack/dialect/mysqldialect/mysqldialect.go).
use trails.Base.{ℕ, ◌≡◌, refl, List, [], ◌∷◌, arith, Text, length}
use trails.Sql.Dialect.{mysql}
use trails.Sql.Render.{Piece, byte, ref, pieces, replace_pieces, render_raw_fragment}
use trails.Sql.Spec.Total.{AreBound}

-- The same bytes, with a reference in the same places, whatever their numbers.
abbrev pub SameShape : List Piece → List Piece → Type 0
SameShape [] [] = Unit {0}
SameShape (byte c ∷ ps) (byte e ∷ qs) = (c ≡ e) × SameShape ps qs
SameShape (ref j ∷ ps) (ref k ∷ qs) = SameShape ps qs
SameShape _ _ = ⊥

replace_pieces-mysql :
    (f g : Text) (base n : ℕ) (ps qs : List Piece)
    → SameShape ps qs
    → AreBound n ps
    → AreBound n qs
    → replace_pieces mysql f base n ps ≡ replace_pieces mysql g base n qs
unfolding replace_pieces mysql
replace_pieces-mysql f g base n [] [] h a b = refl
replace_pieces-mysql f g base n (byte c ∷ ps) (byte e ∷ qs) (q, h) a b =
    ground (arith, replace_pieces-mysql f g base n ps qs h a b, q)
replace_pieces-mysql f g base n (ref j ∷ ps) (ref k ∷ qs) h (x, a) (y, b) =
    ground (arith, x, y, replace_pieces-mysql f g base n ps qs h a b)
replace_pieces-mysql f g base n [] (q ∷ qs) h a b = absurd h
replace_pieces-mysql f g base n (byte c ∷ ps) [] h a b = absurd h
replace_pieces-mysql f g base n (ref k ∷ ps) [] h a b = absurd h
replace_pieces-mysql f g base n (byte c ∷ ps) (ref k ∷ qs) h a b = absurd h
replace_pieces-mysql f g base n (ref k ∷ ps) (byte c ∷ qs) h a b = absurd h

-- On MySQL, two raw fragments that differ only in the numbers of their references, all of which
-- have values, render alike, with the values in the same order: the numbers have no effect.
pub render_raw_fragment-mysql :
    {V : Type 0} (f g : Text) (raw_args args : List V)
    → SameShape (pieces f) (pieces g)
    → AreBound (length raw_args) (pieces f)
    → AreBound (length raw_args) (pieces g)
    → render_raw_fragment mysql f raw_args args ≡ render_raw_fragment mysql g raw_args args
unfolding render_raw_fragment
render_raw_fragment-mysql f g raw_args args h a b =
    ground
      (arith, replace_pieces-mysql f g (length args) (length raw_args) (pieces f) (pieces g) h a b)
