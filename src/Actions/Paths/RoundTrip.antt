-- ===== src/Actions/Paths/RoundTrip.antt =====
-- `ActionPath` and `ParseActionPath` of actions/actions.go undo one another.
use provider_databricks.Prelude.{
  ℕ, Bool-cases, false, not, ◌||◌, List, [], ◌∷◌, ◌++◌, any, All, Text, runes, is_empty, text_eq,
  text_eq_iff, join, ◌≡◌, ◌∙◌, refl, sym, ap, ap₂, subst, inl, inr, ok, ok≢err, ok-injective,
  append_assoc, append-nil, true_of_not,
}
use mathlib.Core.List.{reverse, reverse-cons, reverse-append, reverse-reverse}
use provider_databricks.Hosts.{trim_of, trim_left_of}
use provider_databricks.Backend.Urls.{is_slash}
use provider_databricks.Actions.Paths.{
  Route, split_slashes, clean_segments, clean_rooted, unsafe_segment, route_of, parse_action_path,
  action_path, without_slash, shape_failure, segment_failure,
}
use provider_databricks.Actions.Paths.Splits.{NoSlash, split-join, join-split}
use provider_databricks.Actions.Paths.Escapes.{IsSafe, or_parts, safe_parts, safe-NoSlash}

-- Cleaning keeps what has no empty segment and no dots.
abbrev IsClean : Text → Type 0
IsClean s =
    (is_empty s ≡ false) × (text_eq s (runes ".") ≡ false) × (text_eq s (runes "..") ≡ false)

clean_segments_kept :
    (kept segments : List Text)
    → All IsClean segments
    → clean_segments kept segments ≡ reverse kept ++ segments
unfolding clean_segments
clean_segments_kept kept [] h = sym (append-nil (reverse kept))
clean_segments_kept kept (s ∷ ss) (h, hs) =
    rw (h.0, h.1, h.2, clean_segments)
      (clean_segments_kept (s ∷ kept) ss hs
        ∙ (ap (λ (front : List Text). front ++ ss) (reverse-cons s kept)
            ∙ append_assoc (reverse kept) (s ∷ []) ss))

-- The last character of a segment.
last_char :
    (c : ℕ) (s : Text)
    → NoSlash (c ∷ s)
    → (front : Text) × (last : ℕ) × (c ∷ s ≡ front ++ last ∷ []) × (is_slash last ≡ false)
last_char c [] h = ([], c, refl, (or_parts (is_slash c) _ h).0)
last_char c (d ∷ s) h =
    let rest = last_char d s (or_parts (is_slash c) _ h).1 in
    (c ∷ rest.0, rest.1, ap (λ (t : Text). c ∷ t) rest.2, rest.3)

trim_left_none : (c : ℕ) (s : Text) → is_slash c ≡ false → trim_left_of is_slash (c ∷ s) ≡ c ∷ s
unfolding trim_left_of
trim_left_none c s h = rw h refl

trim_right_none :
    (front : Text) (last : ℕ)
    → is_slash last ≡ false
    → reverse (trim_left_of is_slash (reverse (front ++ last ∷ []))) ≡ front ++ last ∷ []
trim_right_none front last h =
    ap (λ (r : Text). reverse (trim_left_of is_slash r)) (reverse-append front (last ∷ []))
    ∙ (ap (λ (r : Text). reverse r) (trim_left_none last (reverse front) h)
        ∙ (ap (λ (r : Text). reverse r) (sym (reverse-append front (last ∷ [])))
            ∙ reverse-reverse (front ++ last ∷ [])))

-- Only the first slash is trimmed of a path that goes on and ends with other characters.
trim_path :
    (c : ℕ) (s : Text) (v : Text)
    → is_slash c ≡ false
    → is_empty v ≡ false
    → NoSlash v
    → trim_of is_slash (b'/' ∷ c ∷ (s ++ v)) ≡ c ∷ (s ++ v)
unfolding trim_of trim_left_of
trim_path c s [] h n plain = cc
trim_path c s (d ∷ v) h n plain =
    let (front, last, same, other) = last_char d v plain in
    let whole : c ∷ (s ++ d ∷ v) ≡ (c ∷ (s ++ front)) ++ last ∷ [] =
      ap (λ (t : Text). c ∷ (s ++ t)) same
      ∙ ap (λ (t : Text). c ∷ t) (sym (append_assoc s front (last ∷ []))) in
    ap (λ (t : Text). reverse (trim_left_of is_slash (reverse t))) (trim_left_none c (s ++ d ∷ v) h)
    ∙ (ap (λ (t : Text). reverse (trim_left_of is_slash (reverse t))) whole
        ∙ (trim_right_none (c ∷ (s ++ front)) last other ∙ sym whole))

-- The segments of an action path.
abbrev segments_of : (cluster_id resource name action version : Text) → List Text
segments_of cluster_id resource name action version =
    runes "actions" ∷ runes "clusters" ∷ cluster_id ∷ resource ∷ name ∷ action ∷ version ∷ []

safe-IsClean : (s : Text) → IsSafe s → IsClean s
safe-IsClean s h = let parts = safe_parts s h in (parts.0, parts.1, parts.2)

module _ (cluster_id resource name action version : Text) (c : IsSafe cluster_id)
    (r : IsSafe resource) (n : IsSafe name) (a : IsSafe action) (v : IsSafe version) where
  abbrev segments : List Text
  segments = segments_of cluster_id resource name action version

  segments-NoSlash : All NoSlash segments
  segments-NoSlash = (
    refl,
    (
      refl,
      (
        safe-NoSlash cluster_id c,
        (
          safe-NoSlash resource r,
          (safe-NoSlash name n, (safe-NoSlash action a, (safe-NoSlash version v, tt))),
        ),
      ),
    ),
  )

  segments-IsClean : All IsClean segments
  unfolding text_eq
  segments-IsClean = (
    (refl, refl, refl),
    (
      (refl, refl, refl),
      (
        safe-IsClean cluster_id c,
        (
          safe-IsClean resource r,
          (safe-IsClean name n, (safe-IsClean action a, (safe-IsClean version v, tt))),
        ),
      ),
    ),
  )

  action_path-join :
      action_path cluster_id resource name action version ≡ b'/' ∷ join (runes "/") segments
  unfolding action_path join
  action_path-join =
      rw
        (
          (safe_parts cluster_id c).3,
          (safe_parts resource r).3,
          (safe_parts name n).3,
          (safe_parts action a).3,
          (safe_parts version v).3,
        )
        refl

  abbrev front : Text
  front =
      runes "ctions/clusters/"
      ++ (cluster_id
          ++ (runes "/"
              ++ (resource ++ (runes "/" ++ (name ++ (runes "/" ++ (action ++ runes "/")))))))

  join-front : join (runes "/") segments ≡ b'a' ∷ (front ++ version)
  unfolding join
  join-front = simp append_assoc

  split_segments : split_slashes (join (runes "/") segments) ≡ segments
  split_segments =
      split-join (runes "actions")
        (runes "clusters" ∷ cluster_id ∷ resource ∷ name ∷ action ∷ version ∷ []) segments-NoSlash

  trimmed : trim_of is_slash (b'/' ∷ join (runes "/") segments) ≡ join (runes "/") segments
  trimmed =
      subst (λ (j : Text). trim_of is_slash (b'/' ∷ j) ≡ j) (sym join-front)
        (trim_path b'a' front version refl (safe_parts version v).0 (safe-NoSlash version v))

  cleaned : clean_rooted (join (runes "/") segments) ≡ b'/' ∷ join (runes "/") segments
  unfolding clean_rooted
  cleaned =
      ap (λ (ss : List Text). b'/' ∷ join (runes "/") (clean_segments [] ss)) split_segments
      ∙ ap (λ (ss : List Text). b'/' ∷ join (runes "/") ss)
          (clean_segments_kept [] segments segments-IsClean)

  routed :
      route_of segments
      ≡ ok (record {
        cluster_id = cluster_id;
        resource = resource;
        name = name;
        action = action;
        version = version;
      })
  unfolding route_of text_eq
  routed = rw (c, r, n, a, v) refl

  -- The parser reads a path that `ActionPath` composes of safe segments back.
  pub parse_action_path-action_path :
      parse_action_path (action_path cluster_id resource name action version)
      ≡ ok (record {
        cluster_id = cluster_id;
        resource = resource;
        name = name;
        action = action;
        version = version;
      })
  unfolding parse_action_path
  parse_action_path-action_path =
      ap
        (λ (p : Text). route_of (split_slashes (without_slash (clean_rooted (trim_of is_slash p)))))
        action_path-join
      ∙ (ap (λ (p : Text). route_of (split_slashes (without_slash (clean_rooted p)))) trimmed
          ∙ (ap (λ (p : Text). route_of (split_slashes (without_slash p))) cleaned
              ∙ (ap route_of split_segments ∙ routed)))

-- Every segment of the route is safe.
abbrev pub IsSafeRoute : Route → Type 0
IsSafeRoute route =
    IsSafe route.cluster_id
    × IsSafe route.resource
    × IsSafe route.name
    × IsSafe route.action
    × IsSafe route.version

abbrev Routes : List Text → Route → Type 0
Routes parts route =
    (parts ≡ segments_of route.cluster_id route.resource route.name route.action route.version)
    × IsSafeRoute route

abbrev made : (cluster_id resource name action version : Text) → Route
made cluster_id resource name action version = record {
  cluster_id = cluster_id;
  resource = resource;
  name = name;
  action = action;
  version = version;
}

all_safe :
    (c d e f g : Text)
    → any unsafe_segment (c ∷ d ∷ e ∷ f ∷ g ∷ []) ≡ false
    → IsSafeRoute (made c d e f g)
all_safe c d e f g h =
    let first = or_parts (unsafe_segment c) _ h in
    let second = or_parts (unsafe_segment d) _ first.1 in
    let third = or_parts (unsafe_segment e) _ second.1 in
    let fourth = or_parts (unsafe_segment f) _ third.1 in
    let fifth = or_parts (unsafe_segment g) _ fourth.1 in
    (first.0, second.0, third.0, fourth.0, fifth.0)

route_of-Routes :
    (parts : List Text) (route : Route) → route_of parts ≡ ok route → Routes parts route
unfolding route_of
route_of-Routes [] route h = cc
route_of-Routes (a ∷ []) route h = cc
route_of-Routes (a ∷ b ∷ []) route h = cc
route_of-Routes (a ∷ b ∷ c ∷ []) route h = cc
route_of-Routes (a ∷ b ∷ c ∷ d ∷ []) route h = cc
route_of-Routes (a ∷ b ∷ c ∷ d ∷ e ∷ []) route h = cc
route_of-Routes (a ∷ b ∷ c ∷ d ∷ e ∷ f ∷ []) route h = cc
route_of-Routes (a ∷ b ∷ c ∷ d ∷ e ∷ f ∷ g ∷ []) route h =
    elim (Bool-cases (not (text_eq a (runes "actions")) || not (text_eq b (runes "clusters")))) [
      | inl bad ↦ absurd (ok≢err {e = shape_failure} (sym h ∙ rw (bad, route_of) refl))
      | inr named ↦ elim (Bool-cases (any unsafe_segment (c ∷ d ∷ e ∷ f ∷ g ∷ []))) [
        | inl unsafe ↦
            absurd (ok≢err {e = segment_failure} (sym h ∙ rw (named, unsafe, route_of) refl))
        | inr safe ↦
            let same : ok (made c d e f g) ≡ ok route = rw (named, safe, route_of) at h in
            let (first, second) = or_parts _ _ named in
            subst (Routes (a ∷ b ∷ c ∷ d ∷ e ∷ f ∷ g ∷ [])) (ok-injective same) (
              ap₂ (λ (x y : Text). x ∷ y ∷ c ∷ d ∷ e ∷ f ∷ g ∷ [])
                  ((text_eq_iff a _).0 (true_of_not first))
                  ((text_eq_iff b _).0 (true_of_not second)),
              all_safe c d e f g safe,
            )
      ]
    ]
route_of-Routes (a ∷ b ∷ c ∷ d ∷ e ∷ f ∷ g ∷ i ∷ rest) route h = cc

-- A path that the parser accepts has a safe route, and is the path that `ActionPath` composes of it, up
-- to slashes around it and what cleaning removes.
pub action_path-parse_action_path :
    (request_path : Text) (route : Route)
    → parse_action_path request_path ≡ ok route
    → IsSafeRoute route
      × (clean_rooted (trim_of is_slash request_path)
          ≡ action_path route.cluster_id route.resource route.name route.action route.version)
unfolding parse_action_path clean_rooted
action_path-parse_action_path request_path route h =
    let rest =
      join (runes "/") (clean_segments [] (split_slashes (trim_of is_slash request_path))) in
    let (parts, safe) = route_of-Routes (split_slashes rest) route h in
    (
      safe,
      ap (λ (t : Text). b'/' ∷ t) (sym (join-split rest) ∙ ap (join (runes "/")) parts)
          ∙ sym (
              action_path-join route.cluster_id route.resource route.name route.action route.version
                safe.0 safe.1 safe.2 safe.3 safe.4),
    )
