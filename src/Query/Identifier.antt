-- ===== src/Query/Identifier.antt =====
-- `quoteIdent` and `ValidateIdentifier` of queryapi/query.go.
pub mod Quoting
use provider_databricks.Prelude.{
  ℕ, ltb, leb, ◌==◌, if◌then◌else◌, Bool, true, false, not, ◌&&◌, ◌||◌, Option, none, some, List,
  [], ◌∷◌, ◌++◌, Text, length, is_empty, any, all, is_control, valid_string,
}

abbrev pub max_identifier_length : ℕ
max_identifier_length = 255

abbrev pub backtick : ℕ
backtick = b'`'

is_letter_or_underscore : ℕ → Bool
is_letter_or_underscore c = leb b'A' c && leb c b'Z' || (leb b'a' c && leb c b'z' || c == b'_')

is_word : ℕ → Bool
unfolding is_letter_or_underscore
is_word c = is_letter_or_underscore c || leb b'0' c && leb c b'9'

-- `^[A-Za-z_][A-Za-z0-9_]*$`
unfoldable pub matches_identifier : Text → Bool
unfolding is_word
matches_identifier [] = false
matches_identifier (c ∷ cs) = is_letter_or_underscore c && all is_word cs

-- `strings.ReplaceAll(value, "`", "``")`
unfoldable pub double_backticks : Text → Text
double_backticks [] = []
double_backticks (c ∷ cs) =
    let rest = double_backticks cs in if c == backtick then backtick ∷ backtick ∷ rest else c ∷ rest

unfoldable pub quote_ident : Text → Option Text
unfolding matches_identifier double_backticks valid_string is_control
quote_ident value =
    if is_empty value || ltb max_identifier_length (length value) || not (valid_string value)
    then none
    else if matches_identifier value
    then some (backtick ∷ (value ++ backtick ∷ []))
    else if any is_control value
    then none
    else some (backtick ∷ (double_backticks value ++ backtick ∷ []))

-- `nil` is `true`.
unfoldable pub validate_identifier : Text → Bool
unfolding quote_ident
validate_identifier value = elim (quote_ident value) [ none ↦ false | some _ ↦ true ]
