-- ===== src/Query/Request/Controls.antt =====
-- What the input contract accepts: the loop over the columns against a description of the columns
-- that names no set.
use provider_databricks.Prelude.{
  ℕ, ◌+◌, ◌≤◌, Bool, true, false, List, [], ◌∷◌, Text, length, All, contains, contains_iff, IsIn, ℤ,
  pos, negsuc, ok, ◌≡◌, refl, sym, ap, ◌↔◌, arith, inl, inr, Option, none, some, >>=-eq-ok,
  reject_if-eq-ok, ok-injective, true_of_not, ◌∙◌, false≢true, not_ltb→le, le→not_ltb, zero, suc,
}
use provider_databricks.Query.Identifier.{quote_ident, validate_identifier}
use provider_databricks.Query.Identifier.Quoting.{
  IsIdentifier, quote_ident_sound, quote_ident_complete,
}
use provider_databricks.Query.Request.{
  max_query_limit, max_query_columns, default_limit, limit_rejected, normalize_columns,
  normalize_query_controls,
}

-- No name stands twice.
abbrev pub Distinct : List Text → Type 0
Distinct [] = Unit
Distinct (c ∷ cs) = (¬ (IsIn c cs)) × Distinct cs

-- The columns that may be asked for.
pub record IsProjection (columns : List Text) : Type 0 where
  pub few : length columns ≤ max_query_columns
  pub identifiers : All IsIdentifier columns
  pub distinct : Distinct columns

-- The limits that may be asked for: 0 stands for the default.
abbrev pub IsLimit : ℤ → Type 0
IsLimit (pos n) = n ≤ max_query_limit
IsLimit (negsuc n) = ⊥

pub IsIdentifier-iff : (value : Text) → (validate_identifier value ≡ true) ↔ IsIdentifier value
unfolding validate_identifier
IsIdentifier-iff value =
    (sound (quote_ident value) refl, λ i. rw (validate_identifier, quote_ident_complete value i))
  where
    sound :
        (r : Option Text)
        → quote_ident value ≡ r
        → (elim r as (λ _. Bool) [ none ↦ false | some _ ↦ true ]) ≡ true
        → IsIdentifier value
    sound none e h = cc
    sound (some q) e h = (quote_ident_sound value q e).0

abbrev pub Avoids : List Text → List Text → Type 0
Avoids seen = All (λ c. ¬ (IsIn c seen))

pub Avoids-cons :
    (c : Text) (seen cs : List Text) → ¬ (IsIn c cs) → Avoids seen cs → Avoids (c ∷ seen) cs
Avoids-cons c seen [] h a = tt
Avoids-cons c seen (d ∷ cs) h (n, a) = (fresh, Avoids-cons c seen cs (λ m. h (inr m)) a)
  where
    fresh : ¬ (IsIn d (c ∷ seen))
    fresh (inl e) = h (inl (sym e))
    fresh (inr m) = n m

pub Avoids-tail :
    (c : Text) (seen cs : List Text) → Avoids (c ∷ seen) cs → Avoids seen cs × ¬ (IsIn c cs)
Avoids-tail c seen [] a = (tt, λ m. m)
Avoids-tail c seen (d ∷ cs) (n, a) = step (Avoids-tail c seen cs a)
  where
    apart : ¬ (IsIn c cs) → ¬ (IsIn c (d ∷ cs))
    apart r (inl e) = n (inl (sym e))
    apart r (inr m) = r m

    step : Avoids seen cs × ¬ (IsIn c cs) → Avoids seen (d ∷ cs) × ¬ (IsIn c (d ∷ cs))
    step (avoids, r) = (((λ m. n (inr m)), avoids), apart r)

pub not_contains : (c : Text) (seen : List Text) → ¬ (IsIn c seen) → contains c seen ≡ false
not_contains c seen h = ground (arith, contains_iff c seen)

normalize_columns_sound :
    (i : ℕ) (seen cs : List Text) (out : List Text)
    → normalize_columns i seen cs ≡ ok out
    → (out ≡ cs) × All IsIdentifier cs × Distinct cs × Avoids seen cs
unfolding normalize_columns
normalize_columns_sound i seen [] out h = ground arith
normalize_columns_sound i seen (c ∷ cs) out h =
    let (valid, h1) = reject_if-eq-ok _ _ _ h in
    let (fresh, h2) = reject_if-eq-ok _ _ _ h1 in
    let (rest, looped, h3) = >>=-eq-ok _ _ h2 in
    let (same, ids, distinct, avoids) = normalize_columns_sound (i + 1) (c ∷ seen) cs rest looped in
    let (avoids', apart) = Avoids-tail c seen cs avoids in
    let kept : out ≡ c ∷ cs = sym (ok-injective h3) ∙ ap (◌∷◌ c) same in
    let accepted : IsIdentifier c = (IsIdentifier-iff c).0 (true_of_not valid) in
    let unseen : ¬ (IsIn c seen) = λ m. false≢true (sym fresh ∙ (contains_iff c seen).1 m) in
    (kept, (accepted, ids), (apart, distinct), (unseen, avoids'))

normalize_columns_complete :
    (i : ℕ) (seen cs : List Text)
    → All IsIdentifier cs
    → Distinct cs
    → Avoids seen cs
    → normalize_columns i seen cs ≡ ok cs
unfolding normalize_columns
normalize_columns_complete i seen [] ids d a = refl
normalize_columns_complete i seen (c ∷ cs) (id, ids) (n, d) (f, a) = rw (
  (IsIdentifier-iff c).1 id,
  not_contains c seen f,
  normalize_columns_complete (i + 1) (c ∷ seen) cs ids d (Avoids-cons c seen cs n a),
)

IsLimit-accepted : (limit : ℤ) → limit_rejected (default_limit limit) ≡ false → IsLimit limit
IsLimit-accepted (pos zero) h = omega arith
IsLimit-accepted (pos (suc n)) h = ground arith
IsLimit-accepted (negsuc n) h = cc

accepted-IsLimit : (limit : ℤ) → IsLimit limit → limit_rejected (default_limit limit) ≡ false
accepted-IsLimit (pos zero) h = refl
accepted-IsLimit (pos (suc n)) h = ground arith
accepted-IsLimit (negsuc n) h = absurd h

pub Avoids-nil : (cs : List Text) → Avoids [] cs
Avoids-nil [] = tt
Avoids-nil (c ∷ cs) = ((λ m. m), Avoids-nil cs)

pub normalize_query_controls_sound :
    (columns : List Text) (limit : ℤ) (out : List Text) (n : ℤ)
    → normalize_query_controls columns limit ≡ ok (out, n)
    → (out ≡ columns) × (n ≡ default_limit limit) × IsProjection columns × IsLimit limit
unfolding normalize_query_controls
normalize_query_controls_sound columns limit out n h =
    let (bounded, h1) = reject_if-eq-ok _ _ _ h in
    let (few, h2) = reject_if-eq-ok _ _ _ h1 in
    let (rest, looped, h3) = >>=-eq-ok _ _ h2 in
    let (same, ids, distinct, avoids) = normalize_columns_sound 0 [] columns rest looped in
    let kept : out ≡ columns = sym (ap (λ r. r.0) (ok-injective h3)) ∙ same in
    let bound : n ≡ default_limit limit = sym (ap (λ r. r.1) (ok-injective h3)) in
    let small : length columns ≤ max_query_columns = not_ltb→le _ _ few in
    let projection : IsProjection columns = record {
      few = small;
      identifiers = ids;
      distinct = distinct;
    } in
    (kept, bound, projection, IsLimit-accepted limit bounded)

pub normalize_query_controls_complete :
    (columns : List Text) (limit : ℤ)
    → IsProjection columns
    → IsLimit limit
    → normalize_query_controls columns limit ≡ ok (columns, default_limit limit)
unfolding normalize_query_controls
normalize_query_controls_complete columns limit p l = rw (
  accepted-IsLimit limit l,
  le→not_ltb _ _ p.few,
  normalize_columns_complete 0 [] columns p.identifiers p.distinct (Avoids-nil columns),
)
