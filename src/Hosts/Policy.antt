-- ===== src/Hosts/Policy.antt =====
-- Which hosts the policy allows.
use provider_databricks.Prelude.{
  ◌==◌, if◌then◌else◌, Bool, true, false, ◌||◌, List, [], ◌∷◌, ◌++◌, any, Text, is_empty, text_eq,
  text_eq_iff, contains, contains_iff, IsIn, has_prefix, has_suffix, ◌≡◌, refl, sym, ap, ◌∙◌, ◌⊎◌,
  ◌↔◌, inl, inr, arith, Bool-cases, subst, ==→eq, ==_refl, ap₂,
}
use mathlib.Core.List.{reverse}
use provider_databricks.Hosts.{
  trim_of, is_bracket, normalize_suffix, requested_suffixes, kept_suffixes, workspace_host_suffixes,
  normalized_host, matches_suffix, allowed_workspace_host,
}
use mathlib.Core.List.{reverse-append, reverse-reverse}

has_prefix-rest : (s p : Text) → has_prefix s p ≡ true → (rest : Text) × (s ≡ p ++ rest)
unfolding has_prefix
has_prefix-rest s [] h = (s, refl)
has_prefix-rest [] (p ∷ ps) h = cc
has_prefix-rest (c ∷ s) (p ∷ ps) h =
    let same : (c == p) ≡ true = ground arith in
    let (rest, e) = has_prefix-rest s ps (ground arith) in
    (rest, ap₂ (λ x y. x ∷ y) (==→eq c p same) e)

has_prefix-append : (p rest : Text) → has_prefix (p ++ rest) p ≡ true
unfolding has_prefix
has_prefix-append [] rest = refl
has_prefix-append (p ∷ ps) rest = rw (==_refl p, has_prefix-append ps rest)

has_suffix-front : (s p : Text) → has_suffix s p ≡ true → (front : Text) × (s ≡ front ++ p)
unfolding has_suffix
has_suffix-front s p h =
    let (rest, e) = has_prefix-rest (reverse s) (reverse p) h in
    (
      reverse rest,
      sym (reverse-reverse s)
          ∙ ap reverse e
          ∙ reverse-append (reverse p) rest
          ∙ ap (λ q. reverse rest ++ q) (reverse-reverse p),
    )

has_suffix-append : (front p : Text) → has_suffix (front ++ p) p ≡ true
unfolding has_suffix
has_suffix-append front p =
    ap (λ s. has_prefix s (reverse p)) (reverse-append front p)
    ∙ has_prefix-append (reverse p) (reverse front)

any-IsIn :
    (test : Text → Bool) (ts : List Text)
    → any test ts ≡ true
    → (t : Text) × IsIn t ts × (test t ≡ true)
any-IsIn test [] h = cc
any-IsIn test (t ∷ ts) h = elim (Bool-cases (test t)) [
  | inl hit ↦ (t, inl refl, hit)
  | inr miss ↦ let (u, m, e) = any-IsIn test ts (ground arith) in (u, inr m, e)
]

IsIn-any :
    (test : Text → Bool) (t : Text) (ts : List Text)
    → IsIn t ts
    → test t ≡ true
    → any test ts ≡ true
IsIn-any test t [] m h = absurd m
IsIn-any test t (u ∷ us) (inl e) h = rw (sym e, h)
IsIn-any test t (u ∷ us) (inr m) h = rw (IsIn-any test t us m h) (ground arith)

passes_guards :
    (a b c : Bool)
    → ((if a || b then false else c) ≡ true) ↔ ((a ≡ false) × (b ≡ false) × (c ≡ true))
passes_guards a b c = ground arith

module _ (lower : Text → Text) (is_ip : Text → Bool) (environment : Text) where
  -- A suffix of the policy: it is one that was asked for, normalized, not empty and no IP address.
  pub record IsSuffix (requested : List Text) (suffix : Text) : Type 0 where
    pub value : Text
    pub asked : IsIn value requested
    pub normal : suffix ≡ normalize_suffix lower is_ip environment value
    pub named : is_empty suffix ≡ false
    pub no_ip : is_ip suffix ≡ false

  IsSuffix-later :
      {v : Text} {vs : List Text} {suffix : Text} → IsSuffix vs suffix → IsSuffix (v ∷ vs) suffix
  IsSuffix-later s = record {
    value = s.value;
    asked = inr s.asked;
    normal = s.normal;
    named = s.named;
    no_ip = s.no_ip;
  }

  abbrev skips : List Text → Text → Bool
  skips seen suffix = is_empty suffix || is_ip suffix || contains suffix seen

  kept_suffixes-IsSuffix :
      (seen requested : List Text) (suffix : Text)
      → IsIn suffix (kept_suffixes lower is_ip environment seen requested)
      → IsSuffix requested suffix
  unfolding kept_suffixes
  kept_suffixes-IsSuffix seen [] suffix m = absurd m
  kept_suffixes-IsSuffix seen (v ∷ vs) suffix m =
      let found = normalize_suffix lower is_ip environment v in
      elim (Bool-cases (skips seen found)) [
        | inl skipped ↦
            IsSuffix-later
              (kept_suffixes-IsSuffix seen vs suffix (rw (skipped, kept_suffixes) at m))
        | inr kept ↦
            let m' : IsIn suffix (found ∷ kept_suffixes lower is_ip environment (found ∷ seen) vs) =
              rw (kept, kept_suffixes) at m in
            elim m' [
              | inl e ↦ record {
                value = v;
                asked = inl refl;
                normal = e;
                named = ap is_empty e ∙ ground arith;
                no_ip = ap is_ip e ∙ ground arith;
              }
              | inr later ↦ IsSuffix-later (kept_suffixes-IsSuffix (found ∷ seen) vs suffix later)
            ]
      ]

  IsIn-kept_suffixes :
      (seen requested : List Text) (value : Text)
      → IsIn value requested
      → is_empty (normalize_suffix lower is_ip environment value) ≡ false
      → is_ip (normalize_suffix lower is_ip environment value) ≡ false
      → IsIn
          (normalize_suffix lower is_ip environment value)
          (kept_suffixes lower is_ip environment seen requested)
        ⊎ IsIn (normalize_suffix lower is_ip environment value) seen
  unfolding kept_suffixes
  IsIn-kept_suffixes seen [] value m named no_ip = absurd m
  IsIn-kept_suffixes seen (v ∷ vs) value (inl e) named no_ip =
      let suffix = normalize_suffix lower is_ip environment value in
      elim (Bool-cases (contains suffix seen)) [
        | inl old ↦ inr ((contains_iff suffix seen).0 old)
        | inr new ↦ inl (rw (sym e, named, no_ip, new, kept_suffixes) (inl refl))
      ]
  IsIn-kept_suffixes seen (v ∷ vs) value (inr m) named no_ip =
      let found = normalize_suffix lower is_ip environment v in
      elim (Bool-cases (skips seen found)) [
        | inl skipped ↦ rw (skipped, kept_suffixes) (IsIn-kept_suffixes seen vs value m named no_ip)
        | inr kept ↦ elim (IsIn-kept_suffixes (found ∷ seen) vs value m named no_ip) [
          | inl later ↦ inl (rw (kept, kept_suffixes) (inr later))
          | inr (inl e) ↦ inl (rw (kept, kept_suffixes) (inl e))
          | inr (inr old) ↦ inr old
        ]
      ]

  -- A host under the policy: it is no IP address, and a suffix or a subdomain of one.
  pub record IsAllowedHost (hostname : Text) (configured : List Text) : Type 0 where
    pub named : is_empty (normalized_host lower is_ip environment hostname) ≡ false
    pub no_ip :
        is_ip (trim_of is_bracket (normalized_host lower is_ip environment hostname)) ≡ false
    pub suffix : Text
    pub listed : IsSuffix (requested_suffixes lower is_ip environment configured) suffix
    pub placed :
        (normalized_host lower is_ip environment hostname ≡ suffix)
        ⊎ ((front : Text) × (normalized_host lower is_ip environment hostname
              ≡ front ++ b'.' ∷ suffix))

  module _ (hostname : Text) (configured : List Text) where
    matches-placed :
        (host suffix : Text)
        → matches_suffix lower is_ip environment host suffix ≡ true
        → (host ≡ suffix) ⊎ ((front : Text) × (host ≡ front ++ b'.' ∷ suffix))
    matches-placed host suffix h = elim (Bool-cases (text_eq host suffix)) [
      | inl same ↦ inl ((text_eq_iff host suffix).0 same)
      | inr other ↦ inr (has_suffix-front host (b'.' ∷ suffix) (ground arith))
    ]

    placed-matches :
        (host suffix : Text)
        → (host ≡ suffix) ⊎ ((front : Text) × (host ≡ front ++ b'.' ∷ suffix))
        → matches_suffix lower is_ip environment host suffix ≡ true
    placed-matches host suffix (inl e) = rw ((text_eq_iff host suffix).1 e) refl
    placed-matches host suffix (inr (front, e)) =
        let h : has_suffix host (b'.' ∷ suffix) ≡ true =
          ap (λ t. has_suffix t (b'.' ∷ suffix)) e ∙ has_suffix-append front (b'.' ∷ suffix) in
        ground arith

    allowed_parts : (allowed_workspace_host lower is_ip environment hostname configured ≡ true) ↔ (
        (is_empty (normalized_host lower is_ip environment hostname) ≡ false)
        × (is_ip (trim_of is_bracket (normalized_host lower is_ip environment hostname)) ≡ false)
        × (any
              (matches_suffix lower is_ip environment
                (normalized_host lower is_ip environment hostname))
              (workspace_host_suffixes lower is_ip environment configured)
            ≡ true))
    unfolding allowed_workspace_host
    allowed_parts =
        passes_guards (is_empty (normalized_host lower is_ip environment hostname))
          (is_ip (trim_of is_bracket (normalized_host lower is_ip environment hostname)))
          (any
            (matches_suffix lower is_ip environment
              (normalized_host lower is_ip environment hostname))
            (workspace_host_suffixes lower is_ip environment configured))

    allowed_sound :
        allowed_workspace_host lower is_ip environment hostname configured ≡ true
        → IsAllowedHost hostname configured
    unfolding workspace_host_suffixes
    allowed_sound h =
        let host = normalized_host lower is_ip environment hostname in
        let (named, no_ip, found) = allowed_parts.0 h in
        let (suffix, m, fits) =
          any-IsIn (matches_suffix lower is_ip environment host)
            (workspace_host_suffixes lower is_ip environment configured) found in
        record {
          named = named;
          no_ip = no_ip;
          suffix = suffix;
          listed =
              kept_suffixes-IsSuffix [] (requested_suffixes lower is_ip environment configured)
                suffix m;
          placed = matches-placed host suffix fits;
        }

    allowed_complete :
        IsAllowedHost hostname configured
        → allowed_workspace_host lower is_ip environment hostname configured ≡ true
    unfolding workspace_host_suffixes
    allowed_complete a =
        let host = normalized_host lower is_ip environment hostname in
        let requested = requested_suffixes lower is_ip environment configured in
        let fits = placed-matches host a.suffix a.placed in
        let m : IsIn a.suffix (workspace_host_suffixes lower is_ip environment configured) =
          elim (IsIn-kept_suffixes [] requested a.listed.value a.listed.asked
            (sym (ap is_empty a.listed.normal) ∙ a.listed.named)
            (sym (ap is_ip a.listed.normal) ∙ a.listed.no_ip)) [
              | inl kept ↦
                  subst (λ t. IsIn t (kept_suffixes lower is_ip environment [] requested))
                    (sym a.listed.normal) kept
              | inr seen ↦ absurd seen
            ] in
        allowed_parts.1 (
          a.named,
          a.no_ip,
          IsIn-any (matches_suffix lower is_ip environment host) a.suffix
              (workspace_host_suffixes lower is_ip environment configured) m fits,
        )

    -- The policy allows exactly the hosts that are neither empty nor an IP address once normalized,
    -- and that are a suffix of the policy or a subdomain of one; the suffixes are the three of
    -- Databricks and those that are configured, normalized, without empty ones and IP addresses.
    pub allowed_workspace_host-IsAllowedHost :
        (allowed_workspace_host lower is_ip environment hostname configured ≡ true)
        ↔ IsAllowedHost hostname configured
    allowed_workspace_host-IsAllowedHost = (allowed_sound, allowed_complete)
