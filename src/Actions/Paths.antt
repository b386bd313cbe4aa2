-- ===== src/Actions/Paths.antt =====
-- `ParseActionPath` and `ActionPath` of actions/actions.go, with what they call of path and net/url.
pub mod Splits
pub mod Escapes
pub mod RoundTrip
use provider_databricks.Prelude.{
  ℕ, ◌+◌, ◌-◌, ◌/◌, ◌%◌, ltb, leb, ◌==◌, if◌then◌else◌, Bool, true, false, not, ◌&&◌, ◌||◌, List,
  [], ◌∷◌, ◌++◌, Option, none, some, any, Text, runes, is_empty, text_eq, join, max_rune, Result,
  ok, err,
}
use mathlib.Core.List.{reverse}
use provider_databricks.Failure.{Failure, plain}
use provider_databricks.Hosts.{trim_of}
use provider_databricks.Backend.Urls.{is_slash}

pub record Route : Type 0 where
  pub cluster_id : Text
  pub resource : Text
  pub name : Text
  pub action : Text
  pub version : Text

abbrev add_to_first : ℕ → List Text → List Text
add_to_first c [] = (c ∷ []) ∷ []
add_to_first c (part ∷ parts) = (c ∷ part) ∷ parts

-- `strings.Split(s, "/")`
unfoldable pub split_slashes : Text → List Text
split_slashes [] = [] ∷ []
split_slashes (c ∷ s) =
    let rest = split_slashes s in if is_slash c then [] ∷ rest else add_to_first c rest

abbrev without_last : List Text → List Text
without_last [] = []
without_last (s ∷ kept) = kept

-- What a segment of a rooted path does to those before it, the nearest first.
abbrev clean_step : Text → List Text → List Text
clean_step segment kept =
    if is_empty segment || text_eq segment (runes ".")
    then kept
    else if text_eq segment (runes "..")
    then without_last kept
    else segment ∷ kept

unfoldable pub clean_segments : List Text → List Text → List Text
unfolding text_eq
clean_segments kept [] = reverse kept
clean_segments kept (segment ∷ segments) = clean_segments (clean_step segment kept) segments

-- `path.Clean("/" + s)`
unfoldable pub clean_rooted : Text → Text
unfolding clean_segments split_slashes join
clean_rooted s = b'/' ∷ join (runes "/") (clean_segments [] (split_slashes s))

-- `strings.TrimPrefix(s, "/")`
abbrev without_slash : Text → Text
without_slash [] = []
without_slash (c ∷ s) = if is_slash c then s else c ∷ s

-- The characters that `url.PathEscape` leaves.
unfoldable pub is_path_plain : ℕ → Bool
is_path_plain c =
    (leb b'a' c && leb c b'z')
    || ((leb b'A' c && leb c b'Z')
        || ((leb b'0' c && leb c b'9') || any (λ p. c == p) (runes "-_.~$&+=:@")))

abbrev upper_hex : ℕ → ℕ
upper_hex d = if ltb d 10 then b'0' + d else b'A' + (d - 10)

abbrev percent : ℕ → Text
percent b = b'%' ∷ upper_hex (b / 16 % 16) ∷ upper_hex (b % 16) ∷ []

-- The bytes of a rune, each as `%XX`; a stray byte is one.
unfoldable pub escape_rune : ℕ → Text
escape_rune c =
    if ltb c 0x80
    then percent c
    else if ltb c 0x800
    then percent (0xC0 + c / 64) ++ percent (0x80 + c % 64)
    else if ltb c 0x10000
    then percent (0xE0 + c / 4096) ++ (percent (0x80 + c / 64 % 64) ++ percent (0x80 + c % 64))
    else if leb c max_rune
    then percent (0xF0 + c / 262144)
      ++ (percent (0x80 + c / 4096 % 64)
          ++ (percent (0x80 + c / 64 % 64) ++ percent (0x80 + c % 64)))
    else percent (c - 0x110000)

-- `url.PathEscape`
unfoldable pub path_escape : Text → Text
unfolding is_path_plain escape_rune
path_escape [] = []
path_escape (c ∷ s) = (if is_path_plain c then c ∷ [] else escape_rune c) ++ path_escape s

-- `segment == "" || segment == "." || segment == ".." || url.PathEscape(segment) != segment`
unfoldable pub unsafe_segment : Text → Bool
unfolding text_eq path_escape
unsafe_segment segment =
    is_empty segment
    || (text_eq segment (runes ".")
        || (text_eq segment (runes "..") || not (text_eq (path_escape segment) segment)))

abbrev shape_failure : Failure
shape_failure =
    plain (
      runes
        "action path must be /actions/clusters/{clusterID}/{resource}/{name}/{action}/{version}")

abbrev segment_failure : Failure
segment_failure = plain (runes "action path segments must be non-empty and path-safe")

-- The route of seven parts that begin with `actions` and `clusters`.
unfoldable pub route_of : List Text → Result Failure Route
unfolding text_eq unsafe_segment
route_of (first ∷ second ∷ cluster_id ∷ resource ∷ name ∷ action ∷ version ∷ []) =
    if not (text_eq first (runes "actions")) || not (text_eq second (runes "clusters"))
    then err shape_failure
    else if any unsafe_segment (cluster_id ∷ resource ∷ name ∷ action ∷ version ∷ [])
    then err segment_failure
    else ok (record {
      cluster_id = cluster_id;
      resource = resource;
      name = name;
      action = action;
      version = version;
    })
route_of _ = err shape_failure

unfoldable pub parse_action_path : Text → Result Failure Route
unfolding clean_rooted trim_of split_slashes route_of
parse_action_path request_path =
    route_of (split_slashes (without_slash (clean_rooted (trim_of is_slash request_path))))

unfoldable pub action_path : (cluster_id resource name action version : Text) → Text
unfolding path_escape
action_path cluster_id resource name action version =
    runes "/actions/clusters/"
    ++ (path_escape cluster_id
        ++ (runes "/"
            ++ (path_escape resource
                ++ (runes "/"
                    ++ (path_escape name
                        ++ (runes "/"
                            ++ (path_escape action ++ (runes "/" ++ path_escape version))))))))
