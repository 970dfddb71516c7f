-- ===== src/Sql/Ddl/Listed.antt =====
-- Lists of names in parentheses, as `quote_ident_list` prints them, and the two statements that hold
-- them.
use Prim.Native.String.{String}
use trails.Base.{
  concat, All, ℕ, map, sym, ◌≡◌, refl, ap, ◌∙◌, Bool, true, false, some, List, [], ◌∷◌, ◌++◌,
  append_assoc, Text, codes, if◌then◌else◌,
}
use trails.Web.Header.{join}
use trails.Sql.Dialect.{quote_with}
use trails.Sql.Ddl.{text_if}
use trails.Sql.Ddl.Statements.{CreateConstraintBuilder, CreateIndexBuilder}
use trails.Sql.Ddl.Scan.{Token, word, name, print, scan, is_word, Alternates, scan-print}

abbrev pub w : String → Token
w s = word (codes s)

-- Names behind one another, with commas between them.
abbrev pub names : Text → List Text → List Token → List Token
names c [] ts = name c ∷ ts
names c (d ∷ ds) ts = name c ∷ w ", " ∷ names d ds ts

-- Two words around a list of names.
abbrev pub around : Text → List Text → Text → List Token → List Token
around before [] after ts = word (before ++ after) ∷ ts
around before (c ∷ cs) after ts = word before ∷ names c cs (word after ∷ ts)

abbrev pub constraint_tokens : CreateConstraintBuilder → List Token
constraint_tokens b =
    w "ALTER TABLE "
    ∷ name b.table.name
    ∷ w " ADD CONSTRAINT "
    ∷ name b.name
    ∷ around (codes " FOREIGN KEY (") b.local_cols (codes ") REFERENCES ")
        (name b.ref_table ∷ around (codes " (") b.ref_cols (codes ")") [])

abbrev pub index_tokens : Bool → CreateIndexBuilder → List Token
index_tokens unique b =
    w (if unique then "CREATE UNIQUE INDEX " else "CREATE INDEX ")
    ∷ name b.name
    ∷ w " ON "
    ∷ name b.table.name
    ∷ around (codes " (") b.columns (codes ")") []

module _ (q : ℕ) where
  unfoldable pub quoted_list : List Text → Text
  unfolding codes
  quoted_list cs = join (codes ", ") (map (quote_with q) cs)

  quoted_list-names :
      (c : Text) (cs : List Text) (ts : List Token)
      → quoted_list (c ∷ cs) ++ print q ts ≡ print q (names c cs ts)
  unfolding quoted_list join
  quoted_list-names c [] ts = refl
  quoted_list-names c (d ∷ ds) ts =
      append_assoc (quote_with q c) (codes ", " ++ join (codes ", ") (map (quote_with q) (d ∷ ds)))
        (print q ts)
      ∙ ap (λ (s : Text). quote_with q c ++ s)
          (append_assoc (codes ", ") (join (codes ", ") (map (quote_with q) (d ∷ ds))) (print q ts)
            ∙ ap (λ (s : Text). codes ", " ++ s) (quoted_list-names d ds ts))

  quoted_list-around :
      (before : Text) (cs : List Text) (after : Text) (ts : List Token)
      → before ++ (quoted_list cs ++ (after ++ print q ts)) ≡ print q (around before cs after ts)
  unfolding quoted_list join
  quoted_list-around before [] after ts = sym (append_assoc before after (print q ts))
  quoted_list-around before (c ∷ cs) after ts =
      ap (λ (s : Text). before ++ s) (quoted_list-names c cs (word after ∷ ts))

  names-Alternates :
      (before c : Text) (cs : List Text) (after : Text) (ts : List Token)
      → is_word q (codes ", ") ≡ true
      → is_word q before ≡ true
      → Alternates q (word after ∷ ts)
      → Alternates q (word before ∷ names c cs (word after ∷ ts))
  names-Alternates before c [] after ts comma b a = (b, a)
  names-Alternates before c (d ∷ ds) after ts comma b a =
      (b, names-Alternates (codes ", ") d ds after ts comma comma a)

  around-Alternates :
      (before : Text) (cs : List Text) (after : Text) (ts : List Token)
      → is_word q (codes ", ") ≡ true
      → is_word q before ≡ true
      → Alternates q (word after ∷ ts)
      → Alternates q (word (before ++ after) ∷ ts)
      → Alternates q (around before cs after ts)
  around-Alternates before [] after ts comma b a ba = ba
  around-Alternates before (c ∷ cs) after ts comma b a ba =
      names-Alternates before c cs after ts comma b a

  pub index_scanned :
      (unique : Bool) (b : CreateIndexBuilder)
      → Alternates q (index_tokens unique b)
      → scan q (
          concat (
            codes "CREATE "
            ∷ text_if unique (codes "UNIQUE ")
            ∷ codes "INDEX "
            ∷ quote_with q b.name
            ∷ codes " ON "
            ∷ quote_with q b.table.name
            ∷ codes " ("
            ∷ quoted_list b.columns
            ∷ codes ")"
            ∷ []))
        ≡ some (index_tokens unique b)
  unfolding codes
  index_scanned true b a =
      ap
        (λ (s : Text). scan q (
          codes "CREATE UNIQUE INDEX "
          ++ (quote_with q b.name ++ (codes " ON " ++ (quote_with q b.table.name ++ s)))))
        (quoted_list-around (codes " (") b.columns (codes ")") [])
      ∙ scan-print q (index_tokens true b) a
  index_scanned false b a =
      ap
        (λ (s : Text). scan q (
          codes "CREATE INDEX "
          ++ (quote_with q b.name ++ (codes " ON " ++ (quote_with q b.table.name ++ s)))))
        (quoted_list-around (codes " (") b.columns (codes ")") [])
      ∙ scan-print q (index_tokens false b) a

  pub constraint_scanned :
      (b : CreateConstraintBuilder)
      → Alternates q (constraint_tokens b)
      → scan q (
          concat (
            codes "ALTER TABLE "
            ∷ quote_with q b.table.name
            ∷ codes " ADD CONSTRAINT "
            ∷ quote_with q b.name
            ∷ codes " FOREIGN KEY ("
            ∷ quoted_list b.local_cols
            ∷ codes ") REFERENCES "
            ∷ quote_with q b.ref_table
            ∷ codes " ("
            ∷ quoted_list b.ref_cols
            ∷ codes ")"
            ∷ []))
        ≡ some (constraint_tokens b)
  unfolding codes
  constraint_scanned b a =
      let refs = name b.ref_table ∷ around (codes " (") b.ref_cols (codes ")") [] in
      ap
        (λ (s : Text). scan q (
          codes "ALTER TABLE "
          ++ (quote_with q b.table.name
              ++ (codes " ADD CONSTRAINT " ++ (quote_with q b.name ++ s)))))
        (ap
            (λ (s : Text).
              codes " FOREIGN KEY ("
              ++ (quoted_list b.local_cols
                  ++ (codes ") REFERENCES " ++ (quote_with q b.ref_table ++ s))))
            (quoted_list-around (codes " (") b.ref_cols (codes ")") [])
          ∙ quoted_list-around (codes " FOREIGN KEY (") b.local_cols (codes ") REFERENCES ") refs)
      ∙ scan-print q (constraint_tokens b) a

pub index-Alternates :
    (q : ℕ) (unique : Bool) (b : CreateIndexBuilder)
    → All
        (λ (s : Text). is_word q s ≡ true)
        (codes "CREATE UNIQUE INDEX "
          ∷ codes "CREATE INDEX "
          ∷ codes " ON "
          ∷ codes ", "
          ∷ codes " ("
          ∷ codes ")"
          ∷ codes " ()"
          ∷ [])
    → Alternates q (index_tokens unique b)
unfolding codes
index-Alternates q true b (first, (other, (on, (comma, (opens, (closes, (nothing, _))))))) = (
  first,
  (on, around-Alternates q (codes " (") b.columns (codes ")") [] comma opens closes nothing),
)
index-Alternates q false b (other, (first, (on, (comma, (opens, (closes, (nothing, _))))))) = (
  first,
  (on, around-Alternates q (codes " (") b.columns (codes ")") [] comma opens closes nothing),
)

pub constraint-Alternates :
    (q : ℕ) (b : CreateConstraintBuilder)
    → All
        (λ (s : Text). is_word q s ≡ true)
        (codes "ALTER TABLE "
          ∷ codes " ADD CONSTRAINT "
          ∷ codes ", "
          ∷ codes " FOREIGN KEY ("
          ∷ codes ") REFERENCES "
          ∷ codes " FOREIGN KEY () REFERENCES "
          ∷ codes " ("
          ∷ codes ")"
          ∷ codes " ()"
          ∷ [])
    → Alternates q (constraint_tokens b)
unfolding codes
constraint-Alternates q b
      (table, (add, (comma, (key, (refs, (no_key, (opens, (closes, (nothing, _))))))))) =
    let inner =
      around-Alternates q (codes " (") b.ref_cols (codes ")") [] comma opens closes nothing in
    (
      table,
      (
        add,
        around-Alternates q (codes " FOREIGN KEY (") b.local_cols (codes ") REFERENCES ") _ comma
            key (refs, inner) (no_key, inner),
      ),
    )
