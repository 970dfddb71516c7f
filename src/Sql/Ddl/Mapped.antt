-- ===== src/Sql/Ddl/Mapped.antt =====
-- Which columns a dialect can define.
use trails.Base.{
  ◌≡◌, refl, ap, ◌∙◌, arith, Bool, true, false, ◌&&◌, ◌||◌, Option, none, some, [], ◌∷◌, Text,
  if◌then◌else◌, Result, ok, err, ◌>>=◌, Bool-cases, inl, inr,
}
use trails.Pack.Types.{
  Kind, uint8_kind, struct_kind, pointer_kind, slice_kind, other_kind, Target, to_type, GoType,
  basic, struct_, pointer, slice, kind_of,
}
use trails.Sql.Ddl.{ColumnSpec, DdlError, given_or}
use trails.Sql.Ddl.Engines.{Engine, on_postgres, on_mysql, on_sqlite, ddl_of}
use trails.Sql.Ddl.Engines.Postgres
use trails.Sql.Ddl.Engines.Mysql
use trails.Sql.Ddl.Engines.Sqlite

abbrev pub is_ok : {A : Type 0} → Result DdlError A → Bool
is_ok (ok a) = true
is_ok (err e) = false

abbrev pub error_of : {A : Type 0} → Result DdlError A → Option DdlError
error_of (ok a) = none
error_of (err e) = some e

-- The kinds that every dialect maps to a type of its own.
abbrev is_mapped_kind : Kind → Bool
is_mapped_kind struct_kind = false
is_mapped_kind pointer_kind = false
is_mapped_kind slice_kind = false
is_mapped_kind other_kind = false
is_mapped_kind _ = true

-- Booleans, numbers, texts, bytes and times.
abbrev pub is_mapped : GoType → Bool
is_mapped (basic k) = is_mapped_kind k
is_mapped (slice (to_type uint8_kind n)) = true
is_mapped (struct_ facts fs) = facts.is_time
is_mapped _ = false

abbrev is_given : Text → Bool
is_given [] = false
is_given (c ∷ s) = true

-- A column is definable with a type of its own in the tag, or with a Go type that is mapped; only
-- SQLite looks at the Go type of an automatically numbered key, and wants an integer.
abbrev pub is_definable : Engine → GoType → ColumnSpec → Bool
is_definable on_sqlite t spec =
    if spec.primary_key && spec.auto_increment
    then Sqlite.is_integer_kind (kind_of t)
    else is_given spec.sql_type || is_mapped t
is_definable _ t spec = is_given spec.sql_type || is_mapped t

postgres_kind-is_mapped : (a : Bool) (k : Kind) → is_ok (Postgres.basic_type a k) ≡ is_mapped_kind k
postgres_kind-is_mapped a k = ground arith

postgres_slice-is_mapped :
    (a : Bool) (t : Target) → is_ok (Postgres.base_type a (slice t)) ≡ is_mapped (slice t)
unfolding Postgres.base_type
postgres_slice-is_mapped a t = ground arith

postgres_base-is_mapped : (a : Bool) (t : GoType) → is_ok (Postgres.base_type a t) ≡ is_mapped t
unfolding Postgres.base_type
postgres_base-is_mapped a (basic k) = postgres_kind-is_mapped a k
postgres_base-is_mapped a (slice t) = postgres_slice-is_mapped a t
postgres_base-is_mapped a (struct_ facts fs) = elim (Bool-cases facts.is_time) [
  | inl e ↦ rw e refl
  | inr e ↦ rw e refl
]
postgres_base-is_mapped a (pointer t) = refl

mysql_kind-is_mapped : (k : Kind) → is_ok (Mysql.basic_type k) ≡ is_mapped_kind k
mysql_kind-is_mapped k = ground arith

mysql_slice-is_mapped : (t : Target) → is_ok (Mysql.base_type (slice t)) ≡ is_mapped (slice t)
unfolding Mysql.base_type
mysql_slice-is_mapped t = ground arith

mysql_base-is_mapped : (t : GoType) → is_ok (Mysql.base_type t) ≡ is_mapped t
unfolding Mysql.base_type
mysql_base-is_mapped (basic k) = mysql_kind-is_mapped k
mysql_base-is_mapped (slice t) = mysql_slice-is_mapped t
mysql_base-is_mapped (struct_ facts fs) = elim (Bool-cases facts.is_time) [
  | inl e ↦ rw e refl
  | inr e ↦ rw e refl
]
mysql_base-is_mapped (pointer t) = refl

sqlite_kind-is_mapped : (k : Kind) → is_ok (Sqlite.basic_type k) ≡ is_mapped_kind k
sqlite_kind-is_mapped k = ground arith

sqlite_slice-is_mapped : (t : Target) → is_ok (Sqlite.base_type (slice t)) ≡ is_mapped (slice t)
unfolding Sqlite.base_type
sqlite_slice-is_mapped t = ground arith

sqlite_base-is_mapped : (t : GoType) → is_ok (Sqlite.base_type t) ≡ is_mapped t
unfolding Sqlite.base_type
sqlite_base-is_mapped (basic k) = sqlite_kind-is_mapped k
sqlite_base-is_mapped (slice t) = sqlite_slice-is_mapped t
sqlite_base-is_mapped (struct_ facts fs) = elim (Bool-cases facts.is_time) [
  | inl e ↦ rw e refl
  | inr e ↦ rw e refl
]
sqlite_base-is_mapped (pointer t) = refl

inline_key-is_ok : (t : GoType) → is_ok (Sqlite.inline_key t) ≡ Sqlite.is_integer_kind (kind_of t)
inline_key-is_ok t = elim (Bool-cases (Sqlite.is_integer_kind (kind_of t))) [
  | inl i ↦ rw i refl
  | inr i ↦ rw i refl
]

given_or-is_ok :
    {A : Type 0} (s : Text) (r : Result DdlError Text) (f : Text → A)
    → is_ok (given_or s r >>= λ x. ok (f x)) ≡ (is_given s || is_ok r)
given_or-is_ok [] (ok x) f = refl
given_or-is_ok [] (err x) f = refl
given_or-is_ok (c ∷ s) r f = refl

pub definition-is_definable :
    (e : Engine) (t : GoType) (spec : ColumnSpec)
    → is_ok ((ddl_of e).column_definition t spec) ≡ is_definable e t spec
unfolding Postgres.postgres_ddl Mysql.mysql_ddl Sqlite.sqlite_ddl
definition-is_definable on_postgres t spec =
    given_or-is_ok spec.sql_type (Postgres.base_type spec.auto_increment t) _
    ∙ ap (λ (b : Bool). is_given spec.sql_type || b) (postgres_base-is_mapped spec.auto_increment t)
definition-is_definable on_mysql t spec =
    given_or-is_ok spec.sql_type (Mysql.base_type t) _
    ∙ ap (λ (b : Bool). is_given spec.sql_type || b) (mysql_base-is_mapped t)
definition-is_definable on_sqlite t spec =
    elim (Bool-cases (spec.primary_key && spec.auto_increment)) [
      | inl key ↦ rw key (inline_key-is_ok t)
      | inr plain ↦ rw plain (
          given_or-is_ok spec.sql_type (Sqlite.base_type t) _
          ∙ ap (λ (b : Bool). is_given spec.sql_type || b) (sqlite_base-is_mapped t))
    ]
