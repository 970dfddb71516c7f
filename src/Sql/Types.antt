-- ===== src/Sql/Types.antt =====
-- pack/internal/sqlbuild/types.go, predicate.go, builder.go and errors.go: the parts of a
-- statement. V is the type of bound values, Go's `any`.
use trails.Base.{ℕ, Bool, true, false, List, [], Text}

pub record Table : Type 0 where
  pub name : Text
  pub alias : Text

pub record Column : Type 0 where
  pub table : Text
  pub name : Text

unfoldable pub col : Text → Column
col name = record { table = []; name = name }

unfoldable pub qualified_col : Text → Text → Column
qualified_col table_alias name = record { table = table_alias; name = name }

-- One "column = value" pair, built with `Set` or `SetExpr`.
pub data Assignment (V : Type 0) : Type 0 where
  set : Column → V → Assignment V
  set_expr : Column → Text → List V → Assignment V

pub record OrderTerm : Type 0 where
  pub col : Column
  pub desc : Bool
  pub raw : Text

unfoldable pub asc : Column → OrderTerm
asc c = record { col = c; desc = false; raw = [] }

unfoldable pub desc : Column → OrderTerm
desc c = record { col = c; desc = true; raw = [] }

unfoldable pub order_raw : Text → OrderTerm
order_raw fragment = record { col = record { table = []; name = [] }; desc = false; raw = fragment }

-- A condition: a constructor for each kind that the builders make, `absent` for the zero value.
-- The fields of Go's struct are private, so no other combination of kind and operands arises.
mutual
  pub data Predicate (V : Type 0) : Type 0 where
    absent : Predicate V
    eq ne gt gte lt lte like ilike not_like : Column → V → Predicate V
    is_in not_in : Column → List V → Predicate V
    is_null is_not_null : Column → Predicate V
    between : Column → V → V → Predicate V
    all_of any_of : Predicates V → Predicate V
    negation : Predicate V → Predicate V
    raw : Text → List V → Predicate V
    eq_col : Column → Column → Predicate V

  pub data Predicates (V : Type 0) : Type 0 where
    nil : Predicates V
    cons : Predicate V → Predicates V → Predicates V

unfoldable pub is_zero : {V : Type 0} → Predicate V → Bool
is_zero absent = true
is_zero _ = false

-- AND-combine b with what a prior call has set.
unfoldable pub and_join : {V : Type 0} → Predicate V → Predicate V → Predicate V
and_join absent b = b
and_join a b = all_of (cons a (cons b nil))

pub data JoinKind : Type 0 where
  inner_join left_join : JoinKind

pub record Join (V : Type 0) : Type 0 where
  pub kind : JoinKind
  pub table : Table
  pub on : Predicate V

pub data BuildError : Type 0 where
  raw_placeholder_out_of_range : Text → ℕ → ℕ → BuildError
  conflicting_lock_clause : BuildError
  skip_locked_requires_lock_clause : BuildError
  ilike_unsupported row_locking_unsupported returning_unsupported : Text → BuildError
