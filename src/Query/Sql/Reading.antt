-- ===== src/Query/Sql/Reading.antt =====
-- The reader on the pieces that the builder writes.
use provider_databricks.Prelude.{
  ℕ, zero, suc, ◌≤◌, ◌==◌, ==_refl, Bool, true, false, List, [], ◌∷◌, ◌++◌, none, some, Text, runes,
  map, ◌≡◌, refl, ap, ◌∙◌, arith, append_assoc, length, itoa, join, all_below, all_below_sound,
}
use provider_databricks.Query.Identifier.{backtick, double_backticks}
use provider_databricks.Query.Identifier.Quoting.{quoted}
use provider_databricks.Query.Request.{max_query_columns}
use provider_databricks.Query.Sql.Reader.{
  prepend, read_body, read_ident, strip, read_columns, read_projection, read_number,
}

-- The text does not go on with a backtick.
abbrev pub IsPlain : Text → Type 0
IsPlain [] = Unit
IsPlain (c ∷ cs) = (c == backtick) ≡ false

read_body-double :
    (v rest : Text)
    → IsPlain rest
    → read_body false (double_backticks v ++ backtick ∷ rest) ≡ some (v, rest)
unfolding read_body double_backticks
read_body-double [] [] p = refl
read_body-double [] (c ∷ rest) p = rw p
read_body-double (c ∷ v) rest p = ground (arith, read_body-double v rest p)

-- A quoted identifier reads back as the name, whatever follows it.
pub read_ident-quoted :
    (v rest : Text) → IsPlain rest → read_ident (quoted v ++ rest) ≡ some (v, rest)
unfolding read_ident
read_ident-quoted v rest p =
    rw (append_assoc (double_backticks v) (backtick ∷ []) rest) (read_body-double v rest p)

pub strip-append : (p s : Text) → strip p (p ++ s) ≡ some s
unfolding strip
strip-append [] s = refl
strip-append (c ∷ p) s = rw (==_refl c, strip-append p s)

read_columns-step :
    (most : ℕ) (c s : Text)
    → read_columns (suc most) (quoted c ++ (runes ", " ++ s)) ≡ prepend c (read_columns most s)
unfolding read_columns
read_columns-step most c s = rw (read_ident-quoted c (runes ", " ++ s) refl)

join-append :
    (c : Text) (cs : List Text) (d rest : Text)
    → join (runes ", ") (c ∷ d ∷ cs) ++ rest
      ≡ c ++ (runes ", " ++ (join (runes ", ") (d ∷ cs) ++ rest))
unfolding join
join-append c cs d rest = append_assoc c (runes ", " ++ join (runes ", ") (d ∷ cs)) rest

-- A list of quoted columns reads back as the columns.
pub read_columns-join :
    (most : ℕ) (c : Text) (cs : List Text) (rest : Text)
    → suc (length cs) ≤ most
    → IsPlain rest
    → strip (runes ", ") rest ≡ none
    → read_columns most (join (runes ", ") (map quoted (c ∷ cs)) ++ rest) ≡ some (c ∷ cs, rest)
unfolding read_columns join
read_columns-join zero c cs rest h p e = absurd (omega arith)
read_columns-join (suc most) c [] rest h p e = rw (read_ident-quoted c rest p, e)
read_columns-join (suc most) c (d ∷ cs) rest h p e =
    ap (read_columns (suc most)) (join-append (quoted c) (map quoted cs) (quoted d) rest)
    ∙ read_columns-step most c (join (runes ", ") (map quoted (d ∷ cs)) ++ rest)
    ∙ ap (prepend c) (read_columns-join most d cs rest (omega arith) p e)

abbrev reads_back : ℕ → Bool
reads_back n = elim (read_number (itoa n)) [ none ↦ false | some m ↦ m == n ]

limits_read_back : all_below 101 reads_back ≡ true
unfolding all_below read_number itoa
limits_read_back = refl

pub limit_text : (n : ℕ) → n ≤ 100 → read_number (itoa n) ≡ some n
limit_text n h = ground (arith, all_below_sound 101 reads_back n limits_read_back)

pub read_projection-star : (rest : Text) → read_projection (runes "*" ++ rest) ≡ some ([], rest)
unfolding read_projection
read_projection-star rest = refl

pub read_projection-columns :
    (c : Text) (cs : List Text) (rest : Text)
    → read_projection (join (runes ", ") (map quoted (c ∷ cs)) ++ rest)
      ≡ read_columns max_query_columns (join (runes ", ") (map quoted (c ∷ cs)) ++ rest)
unfolding read_projection join
read_projection-columns c [] rest = refl
read_projection-columns c (d ∷ cs) rest = refl
