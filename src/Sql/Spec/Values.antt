-- ===== src/Sql/Spec/Values.antt =====
-- The values that a condition binds.
use trails.Base.{List, [], ◌∷◌, ◌++◌}
use trails.Sql.Types.{
  Predicate, Predicates, absent, eq, ne, gt, gte, lt, lte, like, ilike, not_like, is_in, not_in,
  is_null, is_not_null, between, all_of, any_of, negation, raw, eq_col, nil, cons,
}

-- The values of a condition, in the order in which the code meets them.
unfoldable mutual
  pub values_of : {V : Type 0} → Predicate V → List V
  values_of absent = []
  values_of (eq c v) = v ∷ []
  values_of (ne c v) = v ∷ []
  values_of (gt c v) = v ∷ []
  values_of (gte c v) = v ∷ []
  values_of (lt c v) = v ∷ []
  values_of (lte c v) = v ∷ []
  values_of (like c v) = v ∷ []
  values_of (ilike c v) = v ∷ []
  values_of (not_like c v) = v ∷ []
  values_of (is_in c vs) = vs
  values_of (not_in c vs) = vs
  values_of (is_null c) = []
  values_of (is_not_null c) = []
  values_of (between c lo hi) = lo ∷ hi ∷ []
  values_of (all_of ps) = children_values ps
  values_of (any_of ps) = children_values ps
  values_of (negation p) = values_of p
  values_of (raw fragment args) = args
  values_of (eq_col left right) = []

  pub children_values : {V : Type 0} → Predicates V → List V
  children_values nil = []
  children_values (cons p ps) = values_of p ++ children_values ps
