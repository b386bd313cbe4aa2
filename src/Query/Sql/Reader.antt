-- ===== src/Query/Sql/Reader.antt =====
-- An independent reader of the statements `SELECT … FROM … LIMIT n`: identifiers are delimited by
-- backticks, and a backtick inside one is written twice. It is a specification, not code of the
-- repository.
use provider_databricks.Prelude.{
  ℕ, zero, suc, ◌+◌, ◌-◌, ◌*◌, leb, ◌==◌, if◌then◌else◌, Bool, true, false, ◌&&◌, List, [], ◌∷◌,
  Option, none, some, Text, runes, is_empty,
}
use provider_databricks.Query.Identifier.{backtick}
use provider_databricks.Query.Request.{max_query_columns}
use provider_databricks.Query.Sql.{TableRef}

infixl 5 ◌>>=◌
abbrev pub ◌>>=◌ {ℓ κ} : {A : Type ℓ} {B : Type κ} → Option A → (A → Option B) → Option B
none >>= f = none
some a >>= f = f a

abbrev pub prepend {ℓ κ} : {A : Type ℓ} {B : Type κ} → A → Option (List A × B) → Option (List A × B)
prepend c none = none
prepend c (some (cs, rest)) = some (c ∷ cs, rest)

-- The rest of a delimited identifier; the flag says that a backtick has just been read.
unfoldable pub read_body : Bool → Text → Option (Text × Text)
read_body false [] = none
read_body true [] = some ([], [])
read_body false (c ∷ cs) =
    let rest = read_body (c == backtick) cs in if c == backtick then rest else prepend c rest
read_body true (c ∷ cs) =
    let rest = read_body false cs in
    if c == backtick then prepend backtick rest else some ([], c ∷ cs)

unfoldable pub read_ident : Text → Option (Text × Text)
unfolding read_body
read_ident [] = none
read_ident (c ∷ cs) = if c == backtick then read_body false cs else none

unfoldable pub strip : Text → Text → Option Text
strip [] s = some s
strip (p ∷ ps) [] = none
strip (p ∷ ps) (c ∷ s) = if p == c then strip ps s else none

-- Identifiers with commas between them, at most as many as the first argument.
unfoldable pub read_columns : ℕ → Text → Option (List Text × Text)
unfolding read_ident strip
read_columns zero s = none
read_columns (suc most) s = do
  found ← read_ident s
  elim (strip (runes ", ") found.1) [
    | none ↦ some (found.0 ∷ [], found.1)
    | some rest ↦ prepend found.0 (read_columns most rest)
  ]

-- A `*`, which reads as no column, or a list of columns.
unfoldable pub read_projection : Text → Option (List Text × Text)
unfolding read_columns
read_projection s = elim (strip (runes "*") s) [
  | none ↦ read_columns max_query_columns s
  | some rest ↦ some ([], rest)
]

read_digits : ℕ → Text → Option ℕ
read_digits n [] = some n
read_digits n (c ∷ cs) =
    let rest = read_digits (n * 10 + (c - b'0')) cs in
    if leb b'0' c && leb c b'9' then rest else none

unfoldable pub read_number : Text → Option ℕ
unfolding read_digits
read_number s = if is_empty s then none else read_digits 0 s

pub record Statement : Type 0 where
  pub projection : List Text
  pub from : TableRef
  pub limit : ℕ

unfoldable pub read_table : Text → Option (TableRef × Text)
unfolding read_ident strip
read_table s = do
  catalog ← read_ident s
  s1 ← strip (runes ".") catalog.1
  schema ← read_ident s1
  s2 ← strip (runes ".") schema.1
  table ← read_ident s2
  some (record { catalog = catalog.0; schema = schema.0; table = table.0 }, table.1)

unfoldable pub read_select : Text → Option Statement
unfolding read_projection read_table read_number
read_select s = do
  s1 ← strip (runes "SELECT ") s
  projection ← read_projection s1
  s2 ← strip (runes " FROM ") projection.1
  from ← read_table s2
  s3 ← strip (runes " LIMIT ") from.1
  n ← read_number s3
  some (record { projection = projection.0; from = from.0; limit = n })
