-- ===== src/Backend/Urls/Safety.antt =====
-- Where a tenant's token may be sent.
use provider_databricks.Prelude.{
  Bool, true, false, not, ◌&&◌, ◌||◌, ◌++◌, Text, runes, is_empty, text_eq, text_eq_iff, trim_space,
  Result, ok, err, ◌≡◌, sym, ap, ◌⊎◌, inl, inr, arith, >>=-eq-ok, reject_if-eq-ok, ok-injective,
  Bool-cases, true_of_not,
}
use provider_databricks.Failure.{Failure}
use provider_databricks.Hosts.{trim_right_of}
use provider_databricks.Hosts.Policy.{IsAllowedHost, allowed_workspace_host-IsAllowedHost}
use provider_databricks.Backend.Urls.{
  ParsedUrl, Url, NetApi, StatementClient, is_slash, or_wrapped, is_loopback_host, scheme_allowed,
  host_of, loopback_allowed, policy_allows, root_of, workspace_url,
}

pub or_wrapped-eq-ok {ℓ} :
    {A : Type ℓ} (prefix : Text) (r : Result Failure A) {a : A}
    → or_wrapped prefix r ≡ ok a
    → r ≡ ok a
or_wrapped-eq-ok prefix (ok a) h = ap ok (ok-injective h)
or_wrapped-eq-ok prefix (err e) h = cc

left_false : (a b : Bool) → (a || b) ≡ false → a ≡ false
left_false a b h = ground arith

module _ (net : NetApi) (c : StatementClient) where
  -- An address under the policy: https, an allowed host and the default port.
  pub record IsProduction (u : ParsedUrl) : Type 0 where
    pub https : net.lower (trim_space u.scheme) ≡ runes "https"
    pub host :
        IsAllowedHost net.lower net.is_ip net.environment
          (host_of net u)
          c.allowed_workspace_host_suffixes
    pub port : (is_empty u.port ≡ true) ⊎ (u.port ≡ runes "443")

  -- The opt-in for local development.
  abbrev pub IsLocal : ParsedUrl → Type 0
  IsLocal u =
      (c.allow_insecure_workspace_host ≡ true) × (is_loopback_host net (host_of net u) ≡ true)

  pub record IsWorkspace (host : Text) (url : Url) : Type 0 where
    pub parsed : ParsedUrl
    pub read : net.parse (trim_space (trim_right_of is_slash host)) ≡ ok parsed
    pub root : url ≡ root_of net parsed
    pub no_user : parsed.has_user ≡ false
    pub safe : IsProduction parsed ⊎ IsLocal parsed

  placed :
      (u : ParsedUrl)
      → scheme_allowed net c u.scheme (host_of net u) ≡ true
      → (not (loopback_allowed net c u) && not (policy_allows net c u)) ≡ false
      → ((not (is_empty u.port) && not (text_eq u.port (runes "443")))
          && not (loopback_allowed net c u))
        ≡ false
      → IsProduction u ⊎ IsLocal u
  unfolding scheme_allowed
  placed u scheme host port = elim (Bool-cases (loopback_allowed net c u)) [
    | inl here ↦ inr (ground arith, ground arith)
    | inr away ↦ inl (record {
      https = (text_eq_iff (net.lower (trim_space u.scheme)) (runes "https")).0 (ground arith);
      host =
          (allowed_workspace_host-IsAllowedHost net.lower net.is_ip net.environment (host_of net u)
              c.allowed_workspace_host_suffixes).0
            (ground arith);
      port = elim (Bool-cases (is_empty u.port)) [
        | inl blank ↦ inl blank
        | inr given ↦ inr ((text_eq_iff u.port (runes "443")).0 (ground arith))
      ];
    })
  ]

  -- The host of a connection becomes an address only without user info; and it is https on the
  -- default port of a host under the policy, or, where local development is enabled, a loopback host.
  pub workspace_url-IsWorkspace :
      (host : Text) (url : Url) → workspace_url net c host ≡ ok url → IsWorkspace host url
  unfolding workspace_url
  workspace_url-IsWorkspace host url h =
      let (u, read, h1) = >>=-eq-ok _ _ h in
      let (_, h2) = reject_if-eq-ok (is_empty u.scheme || is_empty u.host) _ _ h1 in
      let (bare, h3) =
        reject_if-eq-ok (u.has_user || (not (is_empty u.raw_query) || not (is_empty u.fragment))) _
          _ h2 in
      let (_, h4) =
        reject_if-eq-ok (not (is_empty u.path) && not (text_eq u.path (runes "/"))) _ _ h3 in
      let (_, h5) = reject_if-eq-ok (is_empty (host_of net u)) _ _ h4 in
      let (scheme, h6) =
        reject_if-eq-ok (not (scheme_allowed net c u.scheme (host_of net u))) _ _ h5 in
      let (hosted, h7) =
        reject_if-eq-ok (not (loopback_allowed net c u) && not (policy_allows net c u)) _ _ h6 in
      let (port, h8) =
        reject_if-eq-ok
          ((not (is_empty u.port) && not (text_eq u.port (runes "443")))
            && not (loopback_allowed net c u))
          _ _ h7 in
      record {
        parsed = u;
        read =
            or_wrapped-eq-ok (runes "parse databricks host " ++ (net.quote host ++ runes ": "))
              (net.parse (trim_space (trim_right_of is_slash host))) read;
        root = sym (ok-injective h8);
        no_user = left_false u.has_user _ bare;
        safe = placed u (true_of_not scheme) hosted port;
      }
