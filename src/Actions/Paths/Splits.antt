-- ===== src/Actions/Paths/Splits.antt =====
-- Splitting at slashes and joining with them, for the paths of actions/actions.go.
use provider_databricks.Prelude.{
  ℕ, Bool-cases, false, List, [], ◌∷◌, ◌++◌, any, All, Text, runes, is_empty, join, ◌≡◌, ◌∙◌, refl,
  sym, ap, ap₂, inl, inr, arith, ==→eq,
}
use provider_databricks.Backend.Urls.{is_slash}
use provider_databricks.Actions.Paths.{split_slashes, add_to_first}

abbrev pub NoSlash : Text → Type 0
NoSlash s = any is_slash s ≡ false

pub split-add :
    (c : ℕ) (s : Text)
    → is_slash c ≡ false
    → split_slashes (c ∷ s) ≡ add_to_first c (split_slashes s)
unfolding split_slashes
split-add c s h = rw h refl

pub split_plain : (s : Text) → NoSlash s → split_slashes s ≡ s ∷ []
unfolding split_slashes
split_plain [] h = refl
split_plain (c ∷ s) h = ground (arith, split_plain s)

pub split-append : (s t : Text) → NoSlash s → split_slashes (s ++ b'/' ∷ t) ≡ s ∷ split_slashes t
unfolding split_slashes
split-append [] t h = refl
split-append (c ∷ s) t h = ground (arith, split-append s t)

pub split-join :
    (s : Text) (ss : List Text)
    → All NoSlash (s ∷ ss)
    → split_slashes (join (runes "/") (s ∷ ss)) ≡ s ∷ ss
unfolding join
split-join s [] (h, _) = split_plain s h
split-join s (t ∷ ss) (h, hs) =
    split-append s (join (runes "/") (t ∷ ss)) h
    ∙ ap (λ (rest : List Text). s ∷ rest) (split-join t ss hs)

pub join-add :
    (c : ℕ) (parts : List Text)
    → join (runes "/") (add_to_first c parts) ≡ c ∷ join (runes "/") parts
unfolding join
join-add c [] = refl
join-add c (p ∷ []) = refl
join-add c (p ∷ q ∷ ps) = refl

abbrev pub IsNonempty : List Text → Type 0
IsNonempty parts = is_empty parts ≡ false

pub split_slashes-IsNonempty : (s : Text) → IsNonempty (split_slashes s)
unfolding split_slashes
split_slashes-IsNonempty [] = refl
split_slashes-IsNonempty (c ∷ s) = elim (Bool-cases (is_slash c)) [
  | inl slash ↦ rw slash refl
  | inr other ↦ rw other (add-nonempty c (split_slashes s))
]
  where
    add-nonempty : (c : ℕ) (parts : List Text) → IsNonempty (add_to_first c parts)
    add-nonempty c [] = refl
    add-nonempty c (p ∷ ps) = refl

pub join-slash :
    (parts : List Text)
    → IsNonempty parts
    → join (runes "/") ([] ∷ parts) ≡ b'/' ∷ join (runes "/") parts
unfolding join
join-slash [] h = cc
join-slash (p ∷ ps) h = refl

pub join-split : (s : Text) → join (runes "/") (split_slashes s) ≡ s
unfolding split_slashes join
join-split [] = refl
join-split (c ∷ s) = elim (Bool-cases (is_slash c)) [
  | inl slash ↦ rw slash (
      join-slash (split_slashes s) (split_slashes-IsNonempty s)
      ∙ ap₂ (λ (x : ℕ) (y : Text). x ∷ y) (sym (==→eq c b'/' slash)) (join-split s))
  | inr other ↦ rw other (join-add c (split_slashes s) ∙ ap (λ (y : Text). c ∷ y) (join-split s))
]
