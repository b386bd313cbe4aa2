-- ===== src/Hosts.antt =====
-- hostpolicy/hostpolicy.go: which hosts count as Databricks workspaces.
pub mod Policy
use provider_databricks.Prelude.{
  ℕ, ◌==◌, if◌then◌else◌, Bool, true, false, not, ◌||◌, List, [], ◌∷◌, ◌++◌, map, select, any, Text,
  runes, is_empty, text_eq, contains, trim_space, has_suffix,
}
use mathlib.Core.List.{reverse}

-- `strings.TrimLeft` of the characters that a test accepts.
unfoldable pub trim_left_of : (ℕ → Bool) → Text → Text
trim_left_of cut [] = []
trim_left_of cut (c ∷ cs) = if cut c then trim_left_of cut cs else c ∷ cs

-- `strings.Trim`
unfoldable pub trim_of : (ℕ → Bool) → Text → Text
unfolding trim_left_of
trim_of cut s = reverse (trim_left_of cut (reverse (trim_left_of cut s)))

-- `strings.TrimRight`
unfoldable pub trim_right_of : (ℕ → Bool) → Text → Text
unfolding trim_left_of
trim_right_of cut s = reverse (trim_left_of cut (reverse s))

abbrev pub is_dot : ℕ → Bool
is_dot c = c == b'.'

abbrev pub is_bracket : ℕ → Bool
is_bracket c = c == b'[' || c == b']'

-- `strings.TrimSuffix(s, ".")`
unfoldable pub trim_dot : Text → Text
trim_dot [] = []
trim_dot (c ∷ []) = if is_dot c then [] else c ∷ []
trim_dot (c ∷ d ∷ cs) = c ∷ trim_dot (d ∷ cs)

abbrev add_to_first : ℕ → List Text → List Text
add_to_first c [] = (c ∷ []) ∷ []
add_to_first c (part ∷ parts) = (c ∷ part) ∷ parts

-- `strings.Split(s, ",")`
unfoldable pub split_commas : Text → List Text
split_commas [] = [] ∷ []
split_commas (c ∷ cs) =
    let rest = split_commas cs in if c == b',' then [] ∷ rest else add_to_first c rest

unfoldable pub split_csv : Text → List Text
unfolding split_commas trim_space
split_csv value =
    if is_empty (trim_space value)
    then []
    else select (λ part. not (is_empty part)) (map trim_space (split_commas value))

abbrev pub default_workspace_host_suffixes : List Text
default_workspace_host_suffixes =
    runes "cloud.databricks.com" ∷ runes "gcp.databricks.com" ∷ runes "azuredatabricks.net" ∷ []

-- `lower` is `strings.ToLower`, `is_ip` whether `net.ParseIP` reads an address, and `environment` the
-- value of `DATABRICKS_ALLOWED_HOST_SUFFIXES`.
module _ (lower : Text → Text) (is_ip : Text → Bool) (environment : Text) where
  unfoldable pub normalize_suffix : Text → Text
  unfolding trim_of trim_space
  normalize_suffix value = trim_of is_dot (trim_of is_bracket (trim_space (lower value)))

  -- The suffixes that are asked for, before they are normalized.
  abbrev pub requested_suffixes : List Text → List Text
  requested_suffixes configured =
      default_workspace_host_suffixes
      ++ (if is_empty configured then split_csv environment else configured)

  -- The loop, with the suffixes that it has seen.
  unfoldable pub kept_suffixes : (seen : List Text) → List Text → List Text
  unfolding normalize_suffix contains
  kept_suffixes seen [] = []
  kept_suffixes seen (value ∷ values) =
      let suffix = normalize_suffix value in
      let skipped = is_empty suffix || is_ip suffix || contains suffix seen in
      let rest = kept_suffixes (if skipped then seen else suffix ∷ seen) values in
      if skipped then rest else suffix ∷ rest

  unfoldable pub workspace_host_suffixes : List Text → List Text
  unfolding kept_suffixes split_csv
  workspace_host_suffixes configured = kept_suffixes [] (requested_suffixes configured)

  abbrev pub normalized_host : Text → Text
  normalized_host hostname = trim_dot (lower (trim_space hostname))

  -- `hostname == suffix || strings.HasSuffix(hostname, "."+suffix)`
  abbrev pub matches_suffix : Text → Text → Bool
  matches_suffix hostname suffix = text_eq hostname suffix || has_suffix hostname (b'.' ∷ suffix)

  unfoldable pub allowed_workspace_host : Text → List Text → Bool
  unfolding workspace_host_suffixes trim_of trim_dot trim_space text_eq has_suffix
  allowed_workspace_host hostname configured =
      let host = normalized_host hostname in
      if is_empty host || is_ip (trim_of is_bracket host)
      then false
      else any (matches_suffix host) (workspace_host_suffixes configured)
