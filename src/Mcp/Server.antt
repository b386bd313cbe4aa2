-- ===== src/Mcp/Server.antt =====
-- mcpserver/server.go: the bound on a request's body, and the resolver and executor of a request.
use provider_databricks.Prelude.{
  ℕ, ◌+◌, ltb, if◌then◌else◌, Option, none, some, Text, runes, length, text_eq, not, take, List,
}
use provider_databricks.Mcp.{max_mcp_request_bytes}

-- A request: the declared length of its body, and the bytes that reading it yields, where there is a
-- body; a read that fails is `none`.
pub record McpCall : Type 0 where
  pub method : Text
  pub content_length : ℕ
  pub body : Option (Option (List ℕ))

pub data McpAnswer : Type 0 where
  refused : (status : ℕ) → McpAnswer
  unchanged : McpAnswer
  passed : List ℕ → McpAnswer

-- `io.ReadAll(io.LimitReader(r.Body, maxMCPRequestBytes+1))` and what follows.
abbrev bounded_body : Option (List ℕ) → McpAnswer
bounded_body none = refused 400
bounded_body (some bytes) =
    let read = take (max_mcp_request_bytes + 1) bytes in
    if ltb max_mcp_request_bytes (length read) then refused 413 else passed read

-- `passed` is the body that the SDK's handler sees; `unchanged` the request as it came.
unfoldable pub accept_call : McpCall → McpAnswer
unfolding text_eq
accept_call call =
    if not (text_eq call.method (runes "POST"))
    then unchanged
    else if ltb max_mcp_request_bytes call.content_length
    then refused 413
    else elim call.body [ none ↦ unchanged | some bytes ↦ bounded_body bytes ]

module _ {ℓ} {A : Type ℓ} where
  -- `actionExecutorForRequest` and, with the resolver of the server, `resolverForRequest`: the value for
  -- the request, or else the default one.
  unfoldable pub for_request : (from_request : Option A) → (default : Option A) → Option A
  for_request (some value) default = some value
  for_request none default = default
