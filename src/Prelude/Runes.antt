-- ===== src/Prelude/Runes.antt =====
-- Go strings. A string is the list of its runes, as `range` reads it; a byte `b` that belongs to no
-- valid UTF-8 sequence is the item `0x110000 + b`.
use Prim.Native.Nat.{ℕ, zero, suc, ◌+◌, ◌/◌, ◌%◌}
use Prim.Native.Char.{code}
use Prim.Native.String.{String}
use mathlib.Core.Path.{◌≡◌, refl}
use mathlib.Core.Logic.{◌↔◌, ◌⊎◌}
use mathlib.Core.Bool.{Bool, true, false, ◌&&◌, ◌||◌}
use mathlib.Core.List.{List, [], ◌∷◌, ◌++◌, reverse}
use native.Mathlib.Omega.{arith}
use provider_databricks.Prelude.Tests.{ltb, leb, ◌==◌, if◌then◌else◌}
use provider_databricks.Prelude.Lists.{all, is_empty}

abbrev pub Text : Type 0
Text = List ℕ

abbrev pub max_rune : ℕ
max_rune = 0x10FFFF

-- A literal.
abbrev pub runes : String → Text
runes String.[] = []
runes (String.◌∷◌ c s) = code c ∷ runes s

-- `len`: a rune's UTF-8 bytes; a stray byte is one.
rune_len : ℕ → ℕ
rune_len c =
    if ltb c 0x80
    then 1
    else if ltb c 0x800
    then 2
    else if ltb c 0x10000
    then 3
    else if leb c max_rune
    then 4
    else 1

unfoldable pub byte_length : Text → ℕ
unfolding rune_len
byte_length [] = 0
byte_length (c ∷ s) = rune_len c + byte_length s

-- `==` on strings.
unfoldable pub text_eq : Text → Text → Bool
text_eq [] [] = true
text_eq (a ∷ as') (b ∷ bs) = a == b && text_eq as' bs
text_eq _ _ = false

pub text_eq_iff : (s t : Text) → (text_eq s t ≡ true) ↔ (s ≡ t)
unfolding text_eq
text_eq_iff [] [] = ((λ _. refl), (λ _. refl))
text_eq_iff [] (b ∷ t) = ((λ h. cc), (λ h. cc))
text_eq_iff (a ∷ s) [] = ((λ h. cc), (λ h. cc))
text_eq_iff (a ∷ s) (b ∷ t) = ground (arith, text_eq_iff s t)

pub text_eq_refl : (s : Text) → text_eq s s ≡ true
text_eq_refl s = (text_eq_iff s s).1 refl

-- A set of strings, `map[string]struct{}`, is the list of its members.
unfoldable pub contains : Text → List Text → Bool
unfolding text_eq
contains s [] = false
contains s (t ∷ ts) = text_eq s t || contains s ts

abbrev pub IsIn : Text → List Text → Type 0
IsIn s [] = ⊥
IsIn s (t ∷ ts) = (s ≡ t) ⊎ IsIn s ts

pub contains_iff : (s : Text) (ts : List Text) → (contains s ts ≡ true) ↔ IsIn s ts
unfolding contains
contains_iff s [] = ground arith
contains_iff s (t ∷ ts) = ground (arith, text_eq_iff s t, contains_iff s ts)

abbrev within : ℕ → ℕ → ℕ → Bool
within lo hi c = leb lo c && leb c hi

-- `unicode.IsSpace`
unfoldable pub is_space : ℕ → Bool
is_space c =
    within 9 13 c
    || c == 0x20
    || c == 0x85
    || c == 0xA0
    || c == 0x1680
    || within 0x2000 0x200a c
    || within 0x2028 0x2029 c
    || c == 0x202f
    || c == 0x205f
    || c == 0x3000

-- `unicode.IsControl`
unfoldable pub is_control : ℕ → Bool
is_control c = leb c 0x1f || within 0x7f 0x9f c

-- `utf8.ValidString`
unfoldable pub valid_string : Text → Bool
valid_string = all (λ c. leb c max_rune)

unfoldable pub trim_left : Text → Text
unfolding is_space
trim_left [] = []
trim_left (c ∷ s) = if is_space c then trim_left s else c ∷ s

-- `strings.TrimSpace`
unfoldable pub trim_space : Text → Text
unfolding trim_left
trim_space s = reverse (trim_left (reverse (trim_left s)))

-- `%d`, for a number below 10 to the power of the first argument.
itoa_from : ℕ → ℕ → Text
itoa_from zero n = []
itoa_from (suc f) n =
    let rest = itoa_from f (n / 10) in
    if ltb n 10 then (n + b'0') ∷ [] else rest ++ (n % 10 + b'0') ∷ []

unfoldable pub itoa : ℕ → Text
unfolding itoa_from
itoa n = itoa_from 20 n

-- `strings.HasPrefix(s, p)`
unfoldable pub has_prefix : Text → Text → Bool
has_prefix s [] = true
has_prefix [] (p ∷ ps) = false
has_prefix (c ∷ s) (p ∷ ps) = c == p && has_prefix s ps

-- `strings.Contains(s, p)`
unfoldable pub has_substring : Text → Text → Bool
unfolding has_prefix
has_substring [] p = is_empty p
has_substring (c ∷ s) p = has_prefix (c ∷ s) p || has_substring s p

-- `strings.HasSuffix(s, p)`
unfoldable pub has_suffix : Text → Text → Bool
unfolding has_prefix
has_suffix s p = has_prefix (reverse s) (reverse p)

-- `strings.Join`
unfoldable pub join : Text → List Text → Text
join sep [] = []
join sep (s ∷ []) = s
join sep (s ∷ t ∷ ts) = s ++ (sep ++ join sep (t ∷ ts))
