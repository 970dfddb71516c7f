-- ===== src/Web/Header/Laws.antt =====
-- Reading a header after a write.
use trails.Base.{
  All, ◌<◌, ◌++◌, refl, ap, ◌∙◌, ◌≡◌, Bool, false, [], ◌∷◌, ◌++◌, arith, Text, ◌===◌, lookup,
  lookup-insert, if◌then◌else◌,
}
use mathlib.Core.List.{reverse, reverse_aux, reverse-append, reverse-reverse}
use trails.Web.Header.{trim_left, trim_space, Header, canonical, get, set, add, values}

-- Two names of one header.
abbrev pub same_name : Text → Text → Bool
same_name j k = canonical k === canonical j

pub get-set :
    (j k v : Text) (h : Header) → get j (set k v h) ≡ (if same_name j k then v else get j h)
unfolding get set
get-set j k v h = ground (arith, lookup-insert (canonical j) (canonical k) (v ∷ []) h)

-- Adding a value under another name changes nothing.
pub get-add_other :
    (j k v : Text) (h : Header) → same_name j k ≡ false → get j (add k v h) ≡ get j h
unfolding get add
get-add_other j k v h e =
    ground (
      arith,
      lookup-insert (canonical j) (canonical k) (values (lookup (canonical k) h) ++ v ∷ []) h,
    )

-- No byte is a space or a control.
abbrev pub IsVisible : Text → Type 0
IsVisible s = All (λ c. b' ' < c) s

trim_left_visible : (s : Text) → IsVisible s → trim_left s ≡ s
unfolding trim_left
trim_left_visible [] h = refl
trim_left_visible (c ∷ s) (h, u) = ground (arith, h)

reverse_onto-IsVisible : (s t : Text) → IsVisible s → IsVisible t → IsVisible (reverse_aux s t)
reverse_onto-IsVisible [] t h k = k
reverse_onto-IsVisible (c ∷ s) t (h, u) k = reverse_onto-IsVisible s (c ∷ t) u (h, k)

reverse-IsVisible : (s : Text) → IsVisible s → IsVisible (reverse s)
reverse-IsVisible s h = reverse_onto-IsVisible s [] h tt

pub trim_space_visible : (s : Text) → IsVisible s → trim_space s ≡ s
unfolding trim_space
trim_space_visible s h =
    ap (λ t. reverse (trim_left (reverse t))) (trim_left_visible s h)
    ∙ ap reverse (trim_left_visible (reverse s) (reverse-IsVisible s h))
    ∙ reverse-reverse s

-- The newline behind a text whose first byte is visible is kept at the start.
trim_left_newline :
    (s : Text)
    → IsVisible s
    → reverse (trim_left (reverse (trim_left (s ++ 10 ∷ []))))
      ≡ reverse (trim_left (reverse (s ++ 10 ∷ [])))
unfolding trim_left
trim_left_newline [] h = refl
trim_left_newline (c ∷ s) (h, u) = ground (arith, h)

pub trim_space_newline : (s : Text) → IsVisible s → trim_space (s ++ 10 ∷ []) ≡ s
unfolding trim_space trim_left
trim_space_newline s h =
    trim_left_newline s h
    ∙ ap (λ t. reverse (trim_left t)) (reverse-append s (10 ∷ []))
    ∙ ap reverse (trim_left_visible (reverse s) (reverse-IsVisible s h))
    ∙ reverse-reverse s
