-- ===== src/Tenant/Shards/Urls.antt =====
-- `SliceEndpointURLs` of tenant/authority.go.
use provider_databricks.Prelude.{
  Bool-cases, Bool, true, false, false≢true, ◌||◌, ◌≡◌, ◌↔◌, ◌∙◌, refl, sym, ap, subst, inl, inr,
  ◌⊎◌, List, [], ◌∷◌, arith, Text, is_empty, contains, contains_iff, IsIn, text_eq, text_eq_iff,
  trim_space, map,
}
use provider_databricks.Hosts.{trim_right_of}
use provider_databricks.Backend.Urls.{is_slash}
use provider_databricks.Tenant.Shards.{kept_urls, slice_endpoint_urls}

abbrev pub trimmed_url : Text → Text
trimmed_url raw = trim_right_of is_slash (trim_space raw)

-- No URL stands in the list twice.
abbrev pub AreDistinct : List Text → Type 0
AreDistinct [] = Unit
AreDistinct (url ∷ urls) = ¬ IsIn url urls × AreDistinct urls

-- One of the endpoints has the URL, once it is trimmed.
abbrev pub IsPublished : Text → List Text → Type 0
IsPublished url endpoints = IsIn url (map trimmed_url endpoints)

or_parts : (a b : Bool) → (a || b) ≡ false → (a ≡ false) × (b ≡ false)
or_parts a b h = ground arith

or_true : (a b : Bool) → (a || b) ≡ true → (a ≡ true) ⊎ (b ≡ true)
or_true a b h = ground arith

abbrev skipped : List Text → Text → Bool
skipped seen raw = is_empty (trimmed_url raw) || contains (trimmed_url raw) seen

kept_urls_skip :
    (seen : List Text) (raw : Text) (endpoints : List Text)
    → skipped seen raw ≡ true
    → kept_urls seen (raw ∷ endpoints) ≡ kept_urls seen endpoints
unfolding kept_urls
kept_urls_skip seen raw endpoints h = rw (h, kept_urls) refl

kept_urls_keep :
    (seen : List Text) (raw : Text) (endpoints : List Text)
    → skipped seen raw ≡ false
    → kept_urls seen (raw ∷ endpoints)
      ≡ trimmed_url raw ∷ kept_urls (trimmed_url raw ∷ seen) endpoints
unfolding kept_urls
kept_urls_keep seen raw endpoints h = rw (h, kept_urls) refl

-- What is kept is published, not empty and not seen before.
kept_urls_sound :
    (seen endpoints : List Text) (url : Text)
    → IsIn url (kept_urls seen endpoints)
    → IsPublished url endpoints × (is_empty url ≡ false) × ¬ IsIn url seen
unfolding kept_urls
kept_urls_sound seen [] url h = elim h [ ]
kept_urls_sound seen (raw ∷ endpoints) url h = elim (Bool-cases (skipped seen raw)) [
  | inl skip ↦
      let (published, named, fresh) =
        kept_urls_sound seen endpoints url
          (subst (IsIn url) (kept_urls_skip seen raw endpoints skip) h) in
      (inr published, named, fresh)
  | inr keep ↦
      let (named, fresh) = or_parts (is_empty (trimmed_url raw)) _ keep in
      elim (subst (IsIn url) (kept_urls_keep seen raw endpoints keep) h) [
        | inl here ↦ (
          inl here,
          rw here named,
          λ old. false≢true (
              sym fresh
              ∙ (contains_iff (trimmed_url raw) seen).1
                  (subst (λ (u : Text). IsIn u seen) here old)),
        )
        | inr later ↦
            let (published, named', fresh') =
              kept_urls_sound (trimmed_url raw ∷ seen) endpoints url later in
            (inr published, named', λ old. fresh' (inr old))
      ]
]

kept_urls_distinct : (seen endpoints : List Text) → AreDistinct (kept_urls seen endpoints)
unfolding kept_urls
kept_urls_distinct seen [] = tt
kept_urls_distinct seen (raw ∷ endpoints) = elim (Bool-cases (skipped seen raw)) [
  | inl skip ↦
      subst AreDistinct (sym (kept_urls_skip seen raw endpoints skip))
        (kept_urls_distinct seen endpoints)
  | inr keep ↦ subst AreDistinct (sym (kept_urls_keep seen raw endpoints keep)) (
    (λ again.
        (kept_urls_sound (trimmed_url raw ∷ seen) endpoints (trimmed_url raw) again).2 (inl refl)),
    kept_urls_distinct (trimmed_url raw ∷ seen) endpoints,
  )
]

kept_urls_complete :
    (seen endpoints : List Text) (url : Text)
    → IsPublished url endpoints
    → is_empty url ≡ false
    → ¬ IsIn url seen
    → IsIn url (kept_urls seen endpoints)
kept_urls_complete seen [] url h named fresh = elim h [ ]
kept_urls_complete seen (raw ∷ endpoints) url h named fresh = elim (Bool-cases (skipped seen raw)) [
  | inl skip ↦ subst (IsIn url) (sym (kept_urls_skip seen raw endpoints skip)) (elim h [
    | inr later ↦ kept_urls_complete seen endpoints url later named fresh
    | inl here ↦ elim (or_true (is_empty (trimmed_url raw)) _ skip) [
      | inl empty ↦ absurd (false≢true (sym named ∙ (ap is_empty here ∙ empty)))
      | inr old ↦ absurd (
          fresh (
            subst (λ (u : Text). IsIn u seen) (sym here)
              ((contains_iff (trimmed_url raw) seen).0 old)))
    ]
  ])
  | inr keep ↦
      subst (IsIn url) (sym (kept_urls_keep seen raw endpoints keep))
        (elim (Bool-cases (text_eq url (trimmed_url raw))) [
          | inl same ↦ inl ((text_eq_iff url (trimmed_url raw)).0 same)
          | inr other ↦ inr (elim h [
            | inl here ↦
                absurd (false≢true (sym other ∙ (text_eq_iff url (trimmed_url raw)).1 here))
            | inr later ↦
                kept_urls_complete (trimmed_url raw ∷ seen) endpoints url later named (λ old.
                  elim old [
                    | inl here ↦
                        absurd (false≢true (sym other ∙ (text_eq_iff url (trimmed_url raw)).1 here))
                    | inr before ↦ fresh before
                  ])
          ])
        ])
]

-- The URLs of a slice are distinct, and they are the trimmed URLs of its endpoints that are not empty.
pub slice_endpoint_urls-IsPublished :
    (endpoints : List Text)
    → AreDistinct (slice_endpoint_urls endpoints)
      × ((url : Text)
          → IsIn url (slice_endpoint_urls endpoints)
            ↔ (IsPublished url endpoints × (is_empty url ≡ false)))
unfolding slice_endpoint_urls
slice_endpoint_urls-IsPublished endpoints = (
  kept_urls_distinct [] endpoints,
  λ url. (
    (λ h. let sound = kept_urls_sound [] endpoints url h in (sound.0, sound.1)),
    (λ h. kept_urls_complete [] endpoints url h.0 h.1 (λ none'. elim none' [ ])),
  ),
)
