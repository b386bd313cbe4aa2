-- ===== src/Backend/Validation/Escapes.antt =====
-- `escapeSQLLikeLiteral` of backend/validation.go: a text as a pattern of LIKE, and LIKE.
pub mod Matching
use provider_databricks.Prelude.{
  ℕ, ◌==◌, if◌then◌else◌, Bool, true, false, ◌&&◌, ◌||◌, List, [], ◌∷◌, ◌++◌, Text, runes, is_empty,
  ◌≡◌, refl, sym, ap, ap₂, ◌∙◌, arith, Bool-cases, inl, inr, ==→eq, ==_refl, ◌↔◌,
}

abbrev pub backslash : ℕ
backslash = 0x5C

-- `strings.ReplaceAll`, of one character by itself behind a backslash.
unfoldable pub escape_all : ℕ → Text → Text
escape_all target [] = []
escape_all target (c ∷ cs) =
    let rest = escape_all target cs in if c == target then backslash ∷ c ∷ rest else c ∷ rest

unfoldable pub escape_sql_like_literal : Text → Text
unfolding escape_all
escape_sql_like_literal value = escape_all b'_' (escape_all b'%' (escape_all backslash value))

-- Whether some rest of the text passes a test.
abbrev some_rest : (Text → Bool) → Text → Bool
some_rest test [] = test []
some_rest test (c ∷ cs) = test (c ∷ cs) || some_rest test cs

-- The text begins with a character, and its rest passes a test.
abbrev next_is : (ℕ → Bool) → (Text → Bool) → Text → Bool
next_is first test [] = false
next_is first test (c ∷ cs) = first c && test cs

-- SQL's LIKE with the backslash as its escape character: `%` stands for any text, `_` for any one
-- character.
unfoldable pub like : Text → Text → Bool
like [] = is_empty
like (p ∷ []) =
    if p == backslash
    then (λ t. false)
    else if p == b'%'
    then (λ t. true)
    else if p == b'_'
    then next_is (λ c. true) is_empty
    else next_is (λ c. c == p) is_empty
like (p ∷ q ∷ ps) =
    if p == backslash
    then next_is (λ c. c == q) (like ps)
    else if p == b'%'
    then some_rest (like (q ∷ ps))
    else if p == b'_'
    then next_is (λ c. true) (like (q ∷ ps))
    else next_is (λ c. c == p) (like (q ∷ ps))
