-- ===== src/Backend/Validation/Escapes/Matching.antt =====
-- What the escaped literal of backend/validation.go matches.
use provider_databricks.Prelude.{
  ℕ, ◌==◌, Bool, true, false, ◌&&◌, ◌||◌, [], ◌∷◌, Text, text_eq, text_eq_iff, ◌≡◌, refl, sym, ap,
  ◌∙◌, arith, Bool-cases, inl, inr, ==→eq, ◌↔◌, subst,
}
use provider_databricks.Backend.Validation.Escapes.{
  backslash, escape_all, escape_sql_like_literal, next_is, like,
}

abbrev special : ℕ → Bool
special c = c == backslash || (c == b'%' || c == b'_')

escape-special :
    (c : ℕ) (cs : Text)
    → special c ≡ true
    → escape_sql_like_literal (c ∷ cs) ≡ backslash ∷ c ∷ escape_sql_like_literal cs
unfolding escape_sql_like_literal
escape-special c cs h = elim (Bool-cases (c == backslash)) [
  | inl e ↦
      subst (λ d. escape_sql_like_literal (d ∷ cs) ≡ backslash ∷ d ∷ escape_sql_like_literal cs)
        (sym (==→eq c backslash e)) (unfold escape_all in refl)
  | inr other ↦ elim (Bool-cases (c == b'%')) [
    | inl e ↦
        subst (λ d. escape_sql_like_literal (d ∷ cs) ≡ backslash ∷ d ∷ escape_sql_like_literal cs)
          (sym (==→eq c b'%' e)) (unfold escape_all in refl)
    | inr neither ↦
        let e : (c == b'_') ≡ true = ground arith in
        subst (λ d. escape_sql_like_literal (d ∷ cs) ≡ backslash ∷ d ∷ escape_sql_like_literal cs)
          (sym (==→eq c b'_' e)) (unfold escape_all in refl)
  ]
]

escape-plain :
    (c : ℕ) (cs : Text)
    → special c ≡ false
    → escape_sql_like_literal (c ∷ cs) ≡ c ∷ escape_sql_like_literal cs
unfolding escape_sql_like_literal
escape-plain c cs h =
    let a : (c == backslash) ≡ false = ground arith in
    let b : (c == b'%') ≡ false = ground arith in
    let d : (c == b'_') ≡ false = ground arith in rw (a, b, d, escape_all)

like-plain :
    (p : ℕ) (rest t : Text)
    → special p ≡ false
    → like (p ∷ rest) t ≡ next_is (λ c. c == p) (like rest) t
unfolding like
like-plain p [] t h =
    let a : (p == backslash) ≡ false = ground arith in
    let b : (p == b'%') ≡ false = ground arith in
    let d : (p == b'_') ≡ false = ground arith in rw (a, b, d)
like-plain p (q ∷ qs) t h =
    let a : (p == backslash) ≡ false = ground arith in
    let b : (p == b'%') ≡ false = ground arith in
    let d : (p == b'_') ≡ false = ground arith in rw (a, b, d)

like-escaped :
    (q : ℕ) (rest t : Text) → like (backslash ∷ q ∷ rest) t ≡ next_is (λ c. c == q) (like rest) t
unfolding like
like-escaped q rest t = refl

-- Whatever the character, its escaped form asks for that character.
like-cons :
    (p : ℕ) (ps t : Text)
    → like (escape_sql_like_literal (p ∷ ps)) t
      ≡ next_is (λ c. c == p) (like (escape_sql_like_literal ps)) t
like-cons p ps t = elim (Bool-cases (special p)) [
  | inl h ↦
      ap (λ e. like e t) (escape-special p ps h) ∙ like-escaped p (escape_sql_like_literal ps) t
  | inr h ↦ ap (λ e. like e t) (escape-plain p ps h) ∙ like-plain p (escape_sql_like_literal ps) t h
]

like-text_eq : (v t : Text) → like (escape_sql_like_literal v) t ≡ text_eq t v
unfolding text_eq
like-text_eq [] [] = unfold like escape_sql_like_literal in refl
like-text_eq [] (c ∷ cs) = unfold like escape_sql_like_literal in refl
like-text_eq (p ∷ ps) [] = like-cons p ps []
like-text_eq (p ∷ ps) (c ∷ cs) =
    like-cons p ps (c ∷ cs) ∙ ap (λ b. c == p && b) (like-text_eq ps cs)

-- Under LIKE with the backslash as its escape character, the escaped literal of a value matches a
-- text exactly where the text is the value.
pub like-escape_sql_like_literal :
    (value t : Text) → (like (escape_sql_like_literal value) t ≡ true) ↔ (t ≡ value)
like-escape_sql_like_literal value t =
    let (to_eq, from_eq) = text_eq_iff t value in
    ((λ h. to_eq (sym (like-text_eq value t) ∙ h)), (λ e. like-text_eq value t ∙ from_eq e))
