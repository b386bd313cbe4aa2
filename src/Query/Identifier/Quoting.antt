-- ===== src/Query/Identifier/Quoting.antt =====
-- What a quoted identifier is: the names that are accepted, and the text that stands for them.
use provider_databricks.Prelude.{
  ℕ, ◌≤◌, ◌==◌, Bool, true, false, some, [], ◌∷◌, ◌++◌, Text, length, is_empty, any, all, All,
  is_control, valid_string, max_rune, ◌≡◌, refl, ◌≢◌, ◌↔◌, arith,
}
use provider_databricks.Query.Identifier.{
  max_identifier_length, backtick, is_letter_or_underscore, is_word, matches_identifier,
  double_backticks, quote_ident,
}

-- The names that the query contract accepts.
pub record IsIdentifier (value : Text) : Type 0 where
  pub nonempty : value ≢ []
  pub short : length value ≤ max_identifier_length
  pub valid : All (λ c. c ≤ max_rune) value
  pub printable : All (λ c. is_control c ≡ false) value

word_printable : (c : ℕ) → is_word c ≡ true → is_control c ≡ false
unfolding is_word is_control
word_printable c h = ground arith

letter_word : (c : ℕ) → is_letter_or_underscore c ≡ true → is_word c ≡ true
unfolding is_word
letter_word c h = ground arith

words_printable : (s : Text) → all is_word s ≡ true → any is_control s ≡ false
words_printable [] h = refl
words_printable (c ∷ s) h = ground (arith, word_printable c, words_printable s)

matches_printable : (s : Text) → matches_identifier s ≡ true → any is_control s ≡ false
unfolding matches_identifier
matches_printable [] h = refl
matches_printable (c ∷ s) h = ground (arith, letter_word c, word_printable c, words_printable s)

any_iff : (p : ℕ → Bool) (s : Text) → (any p s ≡ false) ↔ All (λ c. p c ≡ false) s
any_iff p [] = ((λ _. tt), (λ _. refl))
any_iff p (c ∷ s) = ground (arith, any_iff p s)

valid_iff : (s : Text) → (valid_string s ≡ true) ↔ All (λ c. c ≤ max_rune) s
unfolding valid_string
valid_iff [] = ((λ _. tt), (λ _. refl))
valid_iff (c ∷ s) = ground (arith, valid_iff s)

word-ne-backtick : (c : ℕ) → is_word c ≡ true → (c == backtick) ≡ false
unfolding is_word
word-ne-backtick c h = ground arith

double_words : (s : Text) → all is_word s ≡ true → double_backticks s ≡ s
unfolding double_backticks
double_words [] h = refl
double_words (c ∷ s) h = ground (arith, word-ne-backtick c, double_words s)

-- On a plain word the doubling of backticks changes nothing.
double_matches : (s : Text) → matches_identifier s ≡ true → double_backticks s ≡ s
unfolding matches_identifier double_backticks
double_matches [] h = refl
double_matches (c ∷ s) h = ground (arith, letter_word c, word-ne-backtick c, double_words s)

abbrev pub quoted : Text → Text
quoted value = backtick ∷ (double_backticks value ++ backtick ∷ [])

nonempty_iff : (s : Text) → (is_empty s ≡ false) ↔ (s ≢ [])
nonempty_iff [] = ((λ h. cc), (λ h. absurd (h refl)))
nonempty_iff (c ∷ s) = ((λ _ e. cc), (λ _. refl))

pub quote_ident_sound :
    (value q : Text) → quote_ident value ≡ some q → IsIdentifier value × (q ≡ quoted value)
unfolding quote_ident
quote_ident_sound value q h = ground (
  arith,
  nonempty_iff value,
  valid_iff value,
  any_iff is_control value,
  matches_printable value,
  double_matches value,
)

pub quote_ident_complete :
    (value : Text) → IsIdentifier value → quote_ident value ≡ some (quoted value)
unfolding quote_ident
quote_ident_complete value i = ground (
  arith,
  nonempty_iff value,
  valid_iff value,
  any_iff is_control value,
  matches_printable value,
  double_matches value,
)
