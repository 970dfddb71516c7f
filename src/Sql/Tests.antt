-- ===== src/Sql/Tests.antt =====
-- Examples of statements: what they render to, and the conditions of the theorems on them.
use trails.Base.{ℕ, ◌≡◌, refl, arith, false, some, List, [], ◌∷◌, ◌++◌, Text, codes, ok, ◌===◌}
use trails.Base.Decimal
use trails.Sql.Dialect.{postgres, sqlite, mysql, quote_with}
use trails.Sql.Dialect.Laws.{read_ident, read_ident-quote_with}
use trails.Sql.Types.{
  is_zero, and_join, Table, Predicate, col, eq, is_in, all_of, negation, raw, nil, cons, set,
  set_expr, Assignment,
}
use trails.Sql.Render.{
  render_predicate, pieces, render_raw_fragment, bind_list, bind, parenthesize, quote_column,
}
use trails.Web.Header.{join}
use trails.Sql.Select
use trails.Sql.Insert
use trails.Sql.Spec.{Printed, predicate_toks}
use trails.Sql.Spec.Values.{values_of}
use trails.Sql.Spec.Queries.{select_toks}
use trails.Sql.Spec.Inserts.{insert_toks}
use trails.Sql.Spec.Total.{render_predicate_lem}
use trails.Sql.Spec.Renders.{render_select_lem, render_insert_lem}
use trails.Sql.Spec.Positional.{render_raw_fragment-mysql}

abbrev users : Table
users = record { name = codes "users"; alias = [] }

abbrev fragment : Text
fragment = codes "a > $2 OR b = $1"

-- A negated fragment, and among the ids 1 and 2.
abbrev condition : Predicate ℕ
condition =
    all_of (
      cons (negation (raw fragment (7 ∷ 9 ∷ [])))
        (cons (is_in (col (codes "id")) (1 ∷ 2 ∷ [])) nil))

abbrev condition_text : Text
condition_text = codes "(NOT a > $4 OR b = $3) AND \"id\" IN ($5, $6)"

render_predicate_example :
    (s : Text) × (render_predicate postgres condition (5 ∷ 6 ∷ [])
      ≡ ok (s, 5 ∷ 6 ∷ 7 ∷ 9 ∷ 1 ∷ 2 ∷ []))
    × Printed postgres (5 ∷ 6 ∷ 7 ∷ 9 ∷ 1 ∷ 2 ∷ []) (predicate_toks postgres condition) s
unfolding postgres pieces values_of codes is_zero
render_predicate_example =
    render_predicate_lem postgres condition (5 ∷ 6 ∷ []) ((refl, (refl, tt)), (tt, tt))

abbrev by_id : Select.SelectBuilder ℕ
by_id = Select.add_where (eq (col (codes "id")) 3) (Select.select users)

render_select_example :
    (s : Text) × (Select.render sqlite by_id ≡ ok (s, 3 ∷ []))
    × Printed sqlite (3 ∷ []) (select_toks sqlite by_id) s
unfolding sqlite Select.lock_error Select.select Select.add_where values_of and_join is_zero
render_select_example = render_select_lem sqlite by_id refl tt tt tt

abbrev changes : List (Assignment ℕ)
changes = set (col (codes "a")) 4 ∷ set_expr (col (codes "n")) (codes "n + $1") (1 ∷ []) ∷ []

abbrev upsert : Insert.InsertBuilder ℕ
upsert = record {
  table = users;
  rows = changes ∷ changes ∷ [];
  returning = [];
  conflict_cols = col (codes "a") ∷ [];
  conflict_do_nothing = false;
  conflict_update = set (col (codes "n")) 8 ∷ [];
}

render_insert_example :
    (s : Text) × (Insert.render mysql upsert ≡ ok (s, 4 ∷ 1 ∷ 4 ∷ 1 ∷ 8 ∷ []))
    × Printed mysql (4 ∷ 1 ∷ 4 ∷ 1 ∷ 8 ∷ []) (insert_toks mysql upsert) s
unfolding mysql pieces codes
render_insert_example =
    render_insert_lem mysql upsert refl ((tt, ((refl, tt), tt)), ((tt, ((refl, tt), tt)), tt))
      (tt, tt)

read_ident-quote_with_example :
    read_ident b'"' (quote_with b'"' (codes "a\"; DROP") ++ codes " = 1")
    ≡ some (codes "a\"; DROP", codes " = 1")
unfolding codes
read_ident-quote_with_example =
    read_ident-quote_with b'"' (codes "a\"; DROP") (codes " = 1") (ground arith)

abbrev bound_values : List ℕ
bound_values = 7 ∷ 9 ∷ []

render_raw_fragment-mysql_example :
    render_raw_fragment mysql (codes "$2>$1") bound_values []
    ≡ render_raw_fragment mysql (codes "$1>$2") bound_values []
unfolding mysql pieces codes
render_raw_fragment-mysql_example =
    render_raw_fragment-mysql (codes "$2>$1") (codes "$1>$2") bound_values [] (refl, tt)
      (refl, (refl, tt)) (refl, (refl, tt))

-- The text of the condition behind two values.
condition_rendered :
    render_predicate postgres condition (5 ∷ 6 ∷ [])
    ≡ ok (condition_text, 5 ∷ 6 ∷ 7 ∷ 9 ∷ 1 ∷ 2 ∷ [])
unfolding postgres pieces render_predicate Decimal.format_ℕ codes render_raw_fragment bind_list bind
    join parenthesize quote_column ◌===◌ col quote_with
condition_rendered = refl
