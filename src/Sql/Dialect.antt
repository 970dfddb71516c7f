-- ===== src/Sql/Dialect.antt =====
-- pack/dialect/dialect.go and its three implementations, as far as queries need them.
pub mod Laws
use trails.Base.{ℕ, Bool, true, false, List, [], ◌∷◌, ◌++◌, ◌==◌, if◌then◌else◌, Text, codes}
use trails.Base.Decimal.{format_ℕ}

pub record Dialect : Type 0 where
  pub name : Text
  pub quote_ident : Text → Text
  pub placeholder : ℕ → Text
  pub supports_ilike : Bool
  pub supports_row_locking : Bool
  pub supports_returning : Bool
  pub supports_on_conflict : Bool
  pub supports_savepoints : Bool

-- strings.ReplaceAll(name, q, qq), for a quote q of one byte.
unfoldable pub double_quotes : ℕ → Text → Text
double_quotes q [] = []
double_quotes q (c ∷ s) = let rest = double_quotes q s in if c == q then q ∷ q ∷ rest else c ∷ rest

unfoldable pub quote_with : ℕ → Text → Text
unfolding double_quotes
quote_with q name = q ∷ (double_quotes q name ++ q ∷ [])

unfoldable pub postgres : Dialect
postgres = record {
  name = codes "postgres";
  quote_ident = quote_with b'"';
  placeholder = λ n. b'$' ∷ format_ℕ n;
  supports_ilike = true;
  supports_row_locking = true;
  supports_returning = true;
  supports_on_conflict = true;
  supports_savepoints = true;
}

unfoldable pub sqlite : Dialect
sqlite = record {
  name = codes "sqlite";
  quote_ident = quote_with b'"';
  placeholder = λ n. b'?' ∷ format_ℕ n;
  supports_ilike = false;
  supports_row_locking = false;
  supports_returning = true;
  supports_on_conflict = true;
  supports_savepoints = true;
}

unfoldable pub mysql : Dialect
mysql = record {
  name = codes "mysql";
  quote_ident = quote_with b'`';
  placeholder = λ n. b'?' ∷ [];
  supports_ilike = false;
  supports_row_locking = true;
  supports_returning = false;
  supports_on_conflict = false;
  supports_savepoints = true;
}
