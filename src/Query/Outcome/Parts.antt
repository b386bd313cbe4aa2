-- ===== src/Query/Outcome/Parts.antt =====
-- The parts of a result that the bounds of queryapi/query.go and the loops after them may leave.
use provider_databricks.Prelude.{
  ℕ, ◌≤◌, leb, leb→le, true, Bool-cases, [], Text, length, length-map, length-take, take, IsPrefix,
  IsPrefix-refl, IsPrefix-trans, IsPrefix-nil, ◌≡◌, refl, ap, subst, ◌∙◌, ◌⊎◌, inl, inr, arith,
}
use provider_databricks.Query.Request.{action_version_v1}
use provider_databricks.Query.Outcome.{
  QueryTableResult, valid_rune, truncate_string, smallest_result,
}

-- The identity of a result is kept, or is that of the smallest result.
abbrev pub HasName : QueryTableResult → QueryTableResult → Type 0
HasName start out =
    ((out.action_version ≡ start.action_version) × (out.table_ref ≡ start.table_ref))
    ⊎ ((out.action_version ≡ action_version_v1)
        × (out.table_ref ≡ truncate_string start.table_ref 253))

-- A part of a result: its first columns and its first rows, whole unless there are none; it is marked
-- unless it is the result itself.
pub record IsPart (start out : QueryTableResult) : Type 0 where
  pub named : HasName start out
  pub first_columns : IsPrefix out.columns start.columns
  pub first_rows : IsPrefix out.rows start.rows
  pub whole_rows : (out.columns ≡ start.columns) ⊎ (out.rows ≡ [])
  pub honest : (out ≡ start) ⊎ (out.truncated ≡ true)

truncated_length : (value : Text) (most : ℕ) → length (truncate_string value most) ≤ most
unfolding truncate_string
truncated_length value most = elim (Bool-cases (leb (length value) most)) [
  | inl short ↦ rw (short, truncate_string) (leb→le (length value) most short)
  | inr long ↦
      rw (long, truncate_string)
        (omega (arith, length-map valid_rune (take most value), length-take most value))
]

truncate_string_short :
    (value : Text) (most : ℕ) → length value ≤ most → truncate_string value most ≡ value
unfolding truncate_string
truncate_string_short value most h = ground arith

pub IsPart-refl : (r : QueryTableResult) → IsPart r r
IsPart-refl r = record {
  named = inl (refl, refl);
  first_columns = IsPrefix-refl r.columns;
  first_rows = IsPrefix-refl r.rows;
  whole_rows = inl refl;
  honest = inl refl;
}

HasName-trans : (a b c : QueryTableResult) → HasName a b → HasName b c → HasName a c
HasName-trans a b c (inl (v, t)) (inl (v', t')) = inl (v' ∙ v, t' ∙ t)
HasName-trans a b c (inl (v, t)) (inr (v', t')) = inr (v', t' ∙ ap (λ s. truncate_string s 253) t)
HasName-trans a b c (inr (v, t)) (inl (v', t')) = inr (v' ∙ v, t' ∙ t)
HasName-trans a b c (inr (v, t)) (inr (v', t')) = inr (
  v',
  t'
      ∙ (ap (λ s. truncate_string s 253) t
          ∙ truncate_string_short _ 253 (truncated_length a.table_ref 253)),
)

pub IsPart-trans : (a b c : QueryTableResult) → IsPart a b → IsPart b c → IsPart a c
IsPart-trans a b c p q = record {
  named = HasName-trans a b c p.named q.named;
  first_columns = IsPrefix-trans _ _ _ q.first_columns p.first_columns;
  first_rows = IsPrefix-trans _ _ _ q.first_rows p.first_rows;
  whole_rows = elim q.whole_rows [
    | inr none_left ↦ inr none_left
    | inl same ↦ elim p.whole_rows [
      | inl same' ↦ inl (same ∙ same')
      | inr no_rows ↦ inr (IsPrefix-nil c.rows (subst (IsPrefix c.rows) no_rows q.first_rows))
    ]
  ];
  honest = elim q.honest [
    | inr marked ↦ inr marked
    | inl same ↦ elim p.honest [
      | inl same' ↦ inl (same ∙ same')
      | inr marked ↦ inr (ap (λ (r : QueryTableResult). r.truncated) same ∙ marked)
    ]
  ];
}

pub smallest_result-IsPart : (r : QueryTableResult) → IsPart r (smallest_result r)
unfolding smallest_result
smallest_result-IsPart r = record {
  named = inr (refl, refl);
  first_columns = (r.columns, refl);
  first_rows = (r.rows, refl);
  whole_rows = inr refl;
  honest = inr refl;
}
