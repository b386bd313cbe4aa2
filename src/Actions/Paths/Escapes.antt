-- ===== src/Actions/Paths/Escapes.antt =====
-- The segments that `ParseActionPath` of actions/actions.go accepts: escaping leaves them alone.
use provider_databricks.Prelude.{
  ℕ, suc, ◌≤◌, ◌<◌, ltb, leb, Bool-cases, Bool, true, false, ◌&&◌, ◌||◌, [], ◌∷◌, ◌++◌, all, Text,
  runes, is_empty, text_eq, text_eq_iff, length, length-append, ◌≡◌, ◌≢◌, ◌∙◌, refl, sym, subst,
  inl, inr, arith, false≢true, max_rune, ==→eq, true_of_not,
}
use provider_databricks.Backend.Urls.{is_slash}
use provider_databricks.Actions.Paths.{is_path_plain, escape_rune, path_escape, unsafe_segment}
use provider_databricks.Actions.Paths.Splits.{NoSlash}

-- A rune that is escaped becomes longer.
pub length-escape_rune : (c : ℕ) → 2 < length (escape_rune c)
unfolding escape_rune
length-escape_rune c = elim (Bool-cases (ltb c 0x80)) [
  | inl one ↦ rw one (omega arith)
  | inr more ↦ elim (Bool-cases (ltb c 0x800)) [
    | inl two ↦ rw (more, two) (omega arith)
    | inr over_two ↦ elim (Bool-cases (ltb c 0x10000)) [
      | inl three ↦ rw (more, over_two, three) (omega arith)
      | inr over_three ↦ elim (Bool-cases (leb c max_rune)) [
        | inl four ↦ rw (more, over_two, over_three, four) (omega arith)
        | inr stray ↦ rw (more, over_two, over_three, stray) (omega arith)
      ]
    ]
  ]
]

pub length-path_escape : (s : Text) → length s ≤ length (path_escape s)
unfolding path_escape
length-path_escape [] = omega arith
length-path_escape (c ∷ s) = elim (Bool-cases (is_path_plain c)) [
  | inl kept ↦ rw kept (omega (arith, length-path_escape s))
  | inr escaped ↦ rw escaped (
      omega (
        arith,
        length-path_escape s,
        length-escape_rune c,
        length-append (escape_rune c) (path_escape s),
      ))
]

-- A text that escaping leaves alone has only plain characters.
pub path_escape_plain : (s : Text) → length (path_escape s) ≤ length s → all is_path_plain s ≡ true
unfolding path_escape
path_escape_plain [] h = refl
path_escape_plain (c ∷ s) h = elim (Bool-cases (is_path_plain c)) [
  | inl kept ↦
      let short : suc (length (path_escape s)) ≤ suc (length s) = rw kept at h in
      rw kept (path_escape_plain s (omega arith))
  | inr escaped ↦
      let long : length (escape_rune c ++ path_escape s) ≤ suc (length s) = rw escaped at h in
      absurd (
        omega (
          arith,
          length-append (escape_rune c) (path_escape s),
          length-escape_rune c,
          length-path_escape s,
        ))
]

pub slash_escaped : (c : ℕ) → is_slash c ≡ true → false ≡ is_path_plain c
unfolding is_path_plain
slash_escaped c slash = subst (λ (d : ℕ). false ≡ is_path_plain d) (sym (==→eq c b'/' slash)) refl

pub and_parts : (a b : Bool) → (a && b) ≡ true → (a ≡ true) × (b ≡ true)
and_parts a b h = ground arith

pub plain-NoSlash : (s : Text) → all is_path_plain s ≡ true → NoSlash s
plain-NoSlash [] h = refl
plain-NoSlash (c ∷ s) h = elim (Bool-cases (is_slash c)) [
  | inl slash ↦ absurd (false≢true (slash_escaped c slash ∙ (and_parts _ _ h).0))
  | inr other ↦ rw other (plain-NoSlash s (and_parts _ _ h).1)
]

-- A segment that the parser accepts.
abbrev pub IsSafe : Text → Type 0
IsSafe segment = unsafe_segment segment ≡ false

pub or_parts : (a b : Bool) → (a || b) ≡ false → (a ≡ false) × (b ≡ false)
or_parts a b h = ground arith

pub text_ne : (s t : Text) → text_eq s t ≡ false → s ≢ t
text_ne s t h same = false≢true (sym h ∙ (text_eq_iff s t).1 same)

pub safe_parts :
    (s : Text)
    → IsSafe s
    → (is_empty s ≡ false)
      × (text_eq s (runes ".") ≡ false)
      × (text_eq s (runes "..") ≡ false)
      × (path_escape s ≡ s)
unfolding unsafe_segment
safe_parts s h =
    let first = or_parts (is_empty s) _ h in
    let second = or_parts (text_eq s (runes ".")) _ first.1 in
    let third = or_parts (text_eq s (runes "..")) _ second.1 in
    (first.0, second.0, third.0, (text_eq_iff (path_escape s) s).0 (true_of_not third.1))

pub safe-NoSlash : (s : Text) → IsSafe s → NoSlash s
safe-NoSlash s h = plain-NoSlash s (
    path_escape_plain s
      (subst (λ (t : Text). length t ≤ length s) (sym (safe_parts s h).3) (omega arith)))
