-- ===== src/Pack/Tags/Laws.antt =====
-- Every tag of the grammar is parsed to what it says.
use trails.Base.{
  ℕ, ◌+◌, ◌≡◌, refl, arith, true, false, List, [], ◌∷◌, ◌++◌, map, Text, codes, ◌===◌, All,
  LacksComma, join_comma, split_comma-join_comma, has_prefix, trim_prefix, ok, Bool-cases, inl, inr,
}
use trails.Pack.Tags.{
  ColumnOptions, no_options, column_tag, is_empty, is_option_like, column_option, column_options,
  parse_column_tag, is_deliberate_escape, misplaced_rel, parse_elements, parse_field_tag,
}

-- The options of a column, as a reader of the documentation writes them.
pub data ColumnOption : Type 0 where
  primary_key auto_increments zero_as_null is_unique is_not_null : ColumnOption
  defaults_to of_type : Text → ColumnOption

abbrev pub print_option : ColumnOption → Text
print_option primary_key = codes "pk"
print_option auto_increments = codes "auto_increment"
print_option zero_as_null = codes "null_zero"
print_option is_unique = codes "unique"
print_option is_not_null = codes "not_null"
print_option (defaults_to v) = codes "default:" ++ v
print_option (of_type v) = codes "type:" ++ v

abbrev pub apply_option : ColumnOption → ColumnOptions → ColumnOptions
apply_option primary_key c = record c { pk = true }
apply_option auto_increments c = record c { auto_increment = true }
apply_option zero_as_null c = record c { null_zero = true }
apply_option is_unique c = record c { unique = true }
apply_option is_not_null c = record c { not_null = true }
apply_option (defaults_to v) c = record c { default_ = v; has_default = true }
apply_option (of_type v) c = record c { sql_type = v }

abbrev pub apply_all : List ColumnOption → ColumnOptions → ColumnOptions
apply_all [] c = c
apply_all (o ∷ os) c = apply_all os (apply_option o c)

pub column_option-print_option :
    (st f : Text) (o : ColumnOption) (c : ColumnOptions)
    → column_option st f (print_option o) c ≡ ok (apply_option o c)
unfolding column_option codes has_prefix ◌===◌ trim_prefix
column_option-print_option st f primary_key c = refl
column_option-print_option st f auto_increments c = refl
column_option-print_option st f zero_as_null c = refl
column_option-print_option st f is_unique c = refl
column_option-print_option st f is_not_null c = refl
column_option-print_option st f (defaults_to v) c = refl
column_option-print_option st f (of_type v) c = refl

column_options-map :
    (st f : Text) (os : List ColumnOption) (c : ColumnOptions)
    → column_options st f (map print_option os) c ≡ ok (apply_all os c)
unfolding column_options
column_options-map st f [] c = refl
column_options-map st f (o ∷ os) c =
    rw (column_option-print_option st f o c) (column_options-map st f os (apply_option o c))

misplaced_rel-map :
    (st f : Text) (i : ℕ) (os : List ColumnOption)
    → misplaced_rel st f i (map print_option os) ≡ ok tt
unfolding misplaced_rel has_prefix codes
misplaced_rel-map st f i [] = refl
misplaced_rel-map st f i (primary_key ∷ os) = misplaced_rel-map st f (i + 1) os
misplaced_rel-map st f i (auto_increments ∷ os) = misplaced_rel-map st f (i + 1) os
misplaced_rel-map st f i (zero_as_null ∷ os) = misplaced_rel-map st f (i + 1) os
misplaced_rel-map st f i (is_unique ∷ os) = misplaced_rel-map st f (i + 1) os
misplaced_rel-map st f i (is_not_null ∷ os) = misplaced_rel-map st f (i + 1) os
misplaced_rel-map st f i (defaults_to v ∷ os) = misplaced_rel-map st f (i + 1) os
misplaced_rel-map st f i (of_type v ∷ os) = misplaced_rel-map st f (i + 1) os

-- The value of the option, if it has one, holds no comma.
abbrev pub HasPlainValue : ColumnOption → Type 0
HasPlainValue (defaults_to v) = LacksComma v
HasPlainValue (of_type v) = LacksComma v
HasPlainValue _ = Unit

print_option-LacksComma : (o : ColumnOption) → HasPlainValue o → LacksComma (print_option o)
unfolding codes
print_option-LacksComma primary_key h = ground arith
print_option-LacksComma auto_increments h = ground arith
print_option-LacksComma zero_as_null h = ground arith
print_option-LacksComma is_unique h = ground arith
print_option-LacksComma is_not_null h = ground arith
print_option-LacksComma (defaults_to v) h = ground arith
print_option-LacksComma (of_type v) h = ground arith

map-print_option-LacksComma :
    (os : List ColumnOption) → All HasPlainValue os → All LacksComma (map print_option os)
map-print_option-LacksComma [] h = tt
map-print_option-LacksComma (o ∷ os) (h, hs) =
    (print_option-LacksComma o h, map-print_option-LacksComma os hs)

no_escape : (os : List ColumnOption) → is_deliberate_escape (map print_option os) ≡ false
unfolding codes
no_escape [] = refl
no_escape (primary_key ∷ os) = refl
no_escape (auto_increments ∷ os) = refl
no_escape (zero_as_null ∷ os) = refl
no_escape (is_unique ∷ os) = refl
no_escape (is_not_null ∷ os) = refl
no_escape (defaults_to v ∷ os) = refl
no_escape (of_type v ∷ os) = refl

-- A column name that can stand in a tag: no comma, none of the options, no relation.
pub record IsName (n : Text) : Type 0 where
  pub plain : LacksComma n
  pub no_option : is_option_like n ≡ false
  pub no_relation : has_prefix (codes "rel:") n ≡ false

abbrev pub column_raw : Text → List ColumnOption → Text
column_raw n os = join_comma (n ∷ map print_option os)

parse_column_tag_lem :
    (st f raw n : Text) (os : List ColumnOption)
    → is_option_like n ≡ false
    → is_empty raw ≡ false
    → parse_column_tag st f raw n (map print_option os)
      ≡ ok (record column_tag {
        column = apply_all os no_options;
        name_slot = n;
        has_leading_comma = is_empty n;
      })
unfolding parse_column_tag
parse_column_tag_lem st f raw n os h e =
    rw e (rw h (rw (no_escape os) (rw (column_options-map st f os no_options) refl)))

-- A tag of a column name, or of none behind a leading comma, and any options whose values hold no
-- comma, is parsed to that name with the effects of the options in their order. It is neither
-- empty nor a single dash.
pub parse_field_tag-column_raw :
    (st f n : Text) (os : List ColumnOption)
    → IsName n
    → All HasPlainValue os
    → is_empty (column_raw n os) ≡ false
    → (column_raw n os === codes "-") ≡ false
    → parse_field_tag st f (column_raw n os)
      ≡ ok (record column_tag {
        column = apply_all os no_options;
        name_slot = n;
        has_leading_comma = is_empty n;
      })
unfolding parse_field_tag parse_elements
parse_field_tag-column_raw st f n os h v e d = rw d (
    rw (split_comma-join_comma n (map print_option os) (h.plain, map-print_option-LacksComma os v))
      (rw (misplaced_rel-map st f 1 os)
        (rw h.no_relation (parse_column_tag_lem st f (column_raw n os) n os h.no_option e))))

escaped-not_dash : (n : Text) → ((n ++ b',' ∷ []) === codes "-") ≡ false
unfolding ◌===◌ codes
escaped-not_dash [] = refl
escaped-not_dash (c ∷ []) = ground arith
escaped-not_dash (c ∷ d ∷ n) = ground arith

escaped-not_empty : (n : Text) → is_empty (n ++ b',' ∷ []) ≡ false
escaped-not_empty [] = refl
escaped-not_empty (c ∷ n) = refl

escaped_column :
    (st f raw n : Text)
    → is_empty raw ≡ false
    → parse_column_tag st f raw n ([] ∷ [])
      ≡ ok (record column_tag { name_slot = n; has_leading_comma = is_empty n })
unfolding parse_column_tag column_options
escaped_column st f raw n e = elim (Bool-cases (is_option_like n)) [
  | inl o ↦ rw e (rw o refl)
  | inr o ↦ rw e (rw o refl)
]

-- Any name without a comma that does not start a relation can be a column's, also one that an
-- option has: a comma behind it says so.
pub parse_field_tag_escaped :
    (st f n : Text)
    → LacksComma n
    → has_prefix (codes "rel:") n ≡ false
    → parse_field_tag st f (n ++ b',' ∷ [])
      ≡ ok (record column_tag { name_slot = n; has_leading_comma = is_empty n })
unfolding parse_field_tag parse_elements parse_column_tag misplaced_rel has_prefix codes
    column_options
parse_field_tag_escaped st f n h r = rw (escaped-not_dash n) (
    rw (split_comma-join_comma n ([] ∷ []) (h, (tt, tt)))
      (rw r (escaped_column st f (n ++ b',' ∷ []) n (escaped-not_empty n))))
