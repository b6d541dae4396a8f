-- ===== src/Api/Auth.antt =====
-- brightbean-studio/apps/api/auth.py: the authentication of a request by an API key or, for MCP, by
-- an OAuth access token. A token row is one of the OAuth library, with its methods as fields. The
-- rows of memberships stand in the order in which they were added.
pub mod Keys
pub mod Oauth
pub mod Laws
pub mod Guesses
pub mod Examples
use bright_bean_paysys.Common.{
  ℕ, Bool, true, false, not, ◌&&◌, ◌||◌, Option, none, some, is_some, List, [], ◌∷◌, ◌==◌, any,
  filter, find, if◌then◌else◌,
}
use bright_bean_paysys.Store.{Workspace}
use bright_bean_paysys.Members.Roles.{WorkspaceMembership, effective_permissions}
use bright_bean_paysys.ApiKeys.Token.{Codes, same, Digests, token_prefix, after_prefix}
use bright_bean_paysys.ApiKeys.Keys.{PermissionSet, ApiKey, Server}
use bright_bean_paysys.ApiKeys.Verification.{
  verify_token, touch_last_used, resolve_effective_permissions,
}
use bright_bean_paysys.Api.Throttle.{
  Bucket, is_failed_auth_ip_blocked, record_failed_auth, client_ip,
}

-- What authentication reads of a request, and of the settings.
pub record HttpRequest : Type 0 where
  pub is_secure : Bool
  pub remote : ℕ
  pub forwarded : List ℕ

pub record AuthSettings : Type 0 where
  pub debug : Bool
  pub trusted_proxies : List ℕ

pub record OauthUser : Type 0 where
  pub id : ℕ
  pub last_workspace_id : Option ℕ

pub record AccessToken : Type 0 where
  pub token_checksum : Codes
  pub user : Option OauthUser
  pub is_expired : ℕ → Bool
  pub allow_scopes : Codes → Bool

-- The server of keys with its memberships, the throttle's bucket of each address, and the rows that
-- OAuth needs.
pub record Gate : Type 0 where
  pub server : Server
  pub buckets : ℕ → Option Bucket
  pub access_tokens : List AccessToken
  pub workspaces : List Workspace

pub data Actor : Type 0 where
  key_actor : ApiKey → Actor
  oauth_actor : OauthUser → WorkspaceMembership → Actor

-- What is attached to a request that is let through.
pub record Authenticated : Type 0 where
  pub actor : Actor
  pub workspace_id : ℕ
  pub permissions : PermissionSet
  pub user : Option ℕ

abbrev pub ip_of : AuthSettings → HttpRequest → ℕ
ip_of c r = client_ip c.trusted_proxies r.remote r.forwarded

-- `record_failed_auth(request)`
unfoldable pub record_failure : ℕ → ℕ → Gate → Gate
record_failure now ip g = record g {
  buckets = λ k. if k == ip then record_failed_auth now (g.buckets k) else g.buckets k;
}

-- `_pre_auth_reject`
unfoldable pub pre_auth_reject : AuthSettings → ℕ → HttpRequest → Gate → Bool × Gate
unfolding record_failure
pre_auth_reject c now r g =
    if is_failed_auth_ip_blocked now (g.buckets (ip_of c r))
    then (true, g)
    else if not r.is_secure && not c.debug
    then (true, record_failure now (ip_of c r) g)
    else (false, g)

abbrev pub key_authenticated : ApiKey → Server → Authenticated
key_authenticated key s = record {
  actor = key_actor key;
  workspace_id = key.workspace.id;
  permissions = resolve_effective_permissions key s;
  user = key.issued_by;
}

abbrev pub verified : ℕ → ℕ → Gate → Option ApiKey × Server → Option Authenticated × Gate
verified now ip g (none, s) = (none, record_failure now ip (record g { server = s }))
verified now ip g (some key, s) =
    (some (key_authenticated key s), record g { server = touch_last_used now key (some ip) s })

abbrev pub key_path : Digests → ℕ → ℕ → Codes → Bool × Gate → Option Authenticated × Gate
key_path h now ip token (true, g) = (none, g)
key_path h now ip token (false, g) = verified now ip g (verify_token h now token g.server)

-- `ApiKeyAuth.authenticate`
unfoldable pub authenticate :
    Digests → AuthSettings → ℕ → HttpRequest → Codes → Gate → Option Authenticated × Gate
unfolding pre_auth_reject
authenticate h c now r token g = key_path h now (ip_of c r) token (pre_auth_reject c now r g)

-- `_resolve_active_membership`: the last workspace of the user if it is still theirs and open, else
-- the first one they joined.
abbrev pub is_open : List Workspace → ℕ → Bool
is_open workspaces k = any (λ w. w.id == k && not w.is_archived) workspaces

abbrev pub is_open_membership : OauthUser → Gate → WorkspaceMembership → Bool
is_open_membership u g m = m.user == u.id && is_open g.workspaces m.workspace_id

abbrev pub current_or :
    Option WorkspaceMembership → Option WorkspaceMembership → Option WorkspaceMembership
current_or (some m) first = some m
current_or none first = first

abbrev pub last_membership : OauthUser → Option ℕ → Gate → Option WorkspaceMembership
last_membership u none g = none
last_membership u (some k) g =
    find (λ m. is_open_membership u g m && m.workspace_id == k) g.server.memberships

unfoldable pub resolve_active_membership : OauthUser → Gate → Option WorkspaceMembership
resolve_active_membership u g =
    current_or (last_membership u u.last_workspace_id g)
      (find (is_open_membership u g) g.server.memberships)

-- `_MCP_OAUTH_SCOPE` is "mcp".
abbrev pub mcp_oauth_scope : Codes
mcp_oauth_scope = b'm' ∷ b'c' ∷ b'p' ∷ []

abbrev pub oauth_authenticated : OauthUser → WorkspaceMembership → Authenticated
oauth_authenticated u m = record {
  actor = oauth_actor u m;
  workspace_id = m.workspace_id;
  permissions = effective_permissions m;
  user = some u.id;
}

abbrev pub with_membership : OauthUser → Option WorkspaceMembership → Option Authenticated
with_membership u none = none
with_membership u (some m) = some (oauth_authenticated u m)

-- `_resolve_oauth_actor`
abbrev pub for_user : ℕ → AccessToken → Gate → Option OauthUser → Option Authenticated
for_user now t g none = none
for_user now t g (some u) =
    if t.is_expired now
    then none
    else if not (t.allow_scopes mcp_oauth_scope)
    then none
    else with_membership u (resolve_active_membership u g)

abbrev pub for_token : ℕ → Gate → Option AccessToken → Option Authenticated
for_token now g none = none
for_token now g (some t) = for_user now t g t.user

unfoldable pub resolve_oauth_actor : Digests → ℕ → Codes → Gate → Option Authenticated
unfolding resolve_active_membership
resolve_oauth_actor h now token g =
    for_token now g (find (λ t. same t.token_checksum (h.sha256_hex token)) g.access_tokens)

abbrev pub admitted : ℕ → ℕ → Gate → Option Authenticated → Option Authenticated × Gate
admitted now ip g none = (none, record_failure now ip g)
admitted now ip g (some a) = (some a, g)

abbrev pub oauth_path : Digests → ℕ → ℕ → Codes → Bool × Gate → Option Authenticated × Gate
oauth_path h now ip token (true, g) = (none, g)
oauth_path h now ip token (false, g) = admitted now ip g (resolve_oauth_actor h now token g)

-- `McpAuth.authenticate`; both paths start with the same defences.
unfoldable pub mcp_authenticate :
    Digests → AuthSettings → ℕ → HttpRequest → Codes → Gate → Option Authenticated × Gate
unfolding authenticate resolve_oauth_actor
mcp_authenticate h c now r token g =
    if is_some (after_prefix token_prefix token)
    then authenticate h c now r token g
    else oauth_path h now (ip_of c r) token (pre_auth_reject c now r g)
