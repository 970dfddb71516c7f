-- ===== src/Pack/Tags/Relations.antt =====
-- Every relation tag is parsed to what it says.
use trails.Base.{
  ℕ, ◌+◌, ◌≡◌, refl, arith, false, List, [], ◌∷◌, ◌++◌, map, Text, codes, ◌===◌, All, LacksComma,
  join_comma, split_comma-join_comma, has_prefix, trim_prefix, ok,
}
use trails.Pack.Errors.{RelationKind, belongs_to, has_one, has_many, relation_kind_string}
use trails.Pack.Tags.{
  RelationOptions, kind_relation, no_relation, column_tag, relation_option, relation_options,
  parse_relation_tag, relation_kind, misplaced_rel, parse_elements, parse_field_tag,
}

-- The options of a relation.
pub data RelationOption : Type 0 where
  foreign_key references : Text → RelationOption

abbrev pub print_relation_option : RelationOption → Text
print_relation_option (foreign_key v) = codes "fk:" ++ v
print_relation_option (references v) = codes "ref:" ++ v

abbrev pub relation_value : RelationOption → Text
relation_value (foreign_key v) = v
relation_value (references v) = v

abbrev pub apply_relation_options : List RelationOption → RelationOptions → RelationOptions
apply_relation_options [] r = r
apply_relation_options (foreign_key v ∷ os) r = apply_relation_options os (record r { fk = v })
apply_relation_options (references v ∷ os) r = apply_relation_options os (record r { ref = v })

abbrev pub relation_raw : RelationKind → List RelationOption → Text
relation_raw k os =
    join_comma ((codes "rel:" ++ relation_kind_string k) ∷ map print_relation_option os)

relation_options-map :
    (st f : Text) (os : List RelationOption) (r : RelationOptions)
    → relation_options st f (map print_relation_option os) r ≡ ok (apply_relation_options os r)
unfolding relation_options relation_option codes has_prefix trim_prefix
relation_options-map st f [] r = refl
relation_options-map st f (foreign_key v ∷ os) r =
    relation_options-map st f os (record r { fk = v })
relation_options-map st f (references v ∷ os) r =
    relation_options-map st f os (record r { ref = v })

misplaced_rel-relation :
    (st f : Text) (i : ℕ) (os : List RelationOption)
    → misplaced_rel st f i (map print_relation_option os) ≡ ok tt
unfolding misplaced_rel has_prefix codes
misplaced_rel-relation st f i [] = refl
misplaced_rel-relation st f i (foreign_key v ∷ os) = misplaced_rel-relation st f (i + 1) os
misplaced_rel-relation st f i (references v ∷ os) = misplaced_rel-relation st f (i + 1) os

relation_parts-LacksComma :
    (os : List RelationOption)
    → All (λ o. LacksComma (relation_value o)) os
    → All LacksComma (map print_relation_option os)
unfolding codes
relation_parts-LacksComma [] h = tt
relation_parts-LacksComma (foreign_key v ∷ os) (h, hs) =
    (ground arith, relation_parts-LacksComma os hs)
relation_parts-LacksComma (references v ∷ os) (h, hs) =
    (ground arith, relation_parts-LacksComma os hs)

kind-LacksComma : (k : RelationKind) → LacksComma (codes "rel:" ++ relation_kind_string k)
unfolding codes
kind-LacksComma belongs_to = ground arith
kind-LacksComma has_one = ground arith
kind-LacksComma has_many = ground arith

parse_relation_tag_lem :
    (st f : Text) (k : RelationKind) (os : List RelationOption)
    → parse_relation_tag st f
        (codes "rel:" ++ relation_kind_string k)
        (map print_relation_option os)
      ≡ ok (record column_tag {
        kind = kind_relation;
        relation = apply_relation_options os (record no_relation { kind = k });
      })
unfolding parse_relation_tag relation_kind trim_prefix has_prefix codes ◌===◌
parse_relation_tag_lem st f belongs_to os =
    rw (relation_options-map st f os (record no_relation { kind = belongs_to })) refl
parse_relation_tag_lem st f has_one os =
    rw (relation_options-map st f os (record no_relation { kind = has_one })) refl
parse_relation_tag_lem st f has_many os =
    rw (relation_options-map st f os (record no_relation { kind = has_many })) refl

relation_raw-not_dash :
    (k : RelationKind) (os : List RelationOption) → (relation_raw k os === codes "-") ≡ false
unfolding ◌===◌ codes
relation_raw-not_dash k [] = refl
relation_raw-not_dash k (o ∷ os) = refl

-- A tag of a relation and any foreign and referenced keys without a comma is parsed to that
-- relation; of two options of one kind the later counts.
pub parse_field_tag-relation_raw :
    (st f : Text) (k : RelationKind) (os : List RelationOption)
    → All (λ o. LacksComma (relation_value o)) os
    → parse_field_tag st f (relation_raw k os)
      ≡ ok (record column_tag {
        kind = kind_relation;
        relation = apply_relation_options os (record no_relation { kind = k });
      })
unfolding parse_field_tag parse_elements
parse_field_tag-relation_raw st f k os v = rw (relation_raw-not_dash k os) (
    rw
      (split_comma-join_comma (codes "rel:" ++ relation_kind_string k)
        (map print_relation_option os) (kind-LacksComma k, relation_parts-LacksComma os v))
      (rw (misplaced_rel-relation st f 1 os) ((parse_relation_tag_lem st f k os))))
