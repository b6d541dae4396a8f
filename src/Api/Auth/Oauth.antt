-- ===== src/Api/Auth/Oauth.antt =====
-- What an OAuth token that is accepted shows (brightbean-studio/apps/api/auth.py).
use bright_bean_paysys.Common.{
  ℕ, ◌≡◌, refl, sym, ◌⊎◌, inl, inr, true, false, Option, none, some, ==_iff, arith, Memᴰ, find,
  Bool-cases,
}
use mathlib.Core.Option.{some_inj}
use bright_bean_paysys.Common.Lookup.{find-IsFound}
use bright_bean_paysys.Members.Roles.{WorkspaceMembership}
use bright_bean_paysys.ApiKeys.Token.{Codes, same, Digests}
use bright_bean_paysys.ApiKeys.Token.RoundTrip.{same_iff}
use bright_bean_paysys.Api.Auth.{
  OauthUser, AccessToken, Gate, Authenticated, is_open, is_open_membership, current_or,
  last_membership, resolve_active_membership, mcp_oauth_scope, oauth_authenticated, with_membership,
  for_user, for_token,
}

-- A person is behind the request: a live token with the scope, and a membership of theirs in a
-- workspace that is not archived, whose permissions the request has.
pub record IsByOauth (h : Digests) (now : ℕ) (token : Codes) (g : Gate) (a : Authenticated)
    : Type 0 where
  pub row : AccessToken
  pub found : Memᴰ row g.access_tokens
  pub checksum : row.token_checksum ≡ h.sha256_hex token
  pub live : row.is_expired now ≡ false
  pub scope : row.allow_scopes mcp_oauth_scope ≡ true
  pub user : OauthUser
  pub owner : row.user ≡ some user
  pub membership : WorkspaceMembership
  pub joined : Memᴰ membership g.server.memberships
  pub theirs : membership.user ≡ user.id
  pub open_workspace : is_open g.workspaces membership.workspace_id ≡ true
  pub attached : a ≡ oauth_authenticated user membership

current_or-cases :
    (a b : Option WorkspaceMembership) (m : WorkspaceMembership)
    → current_or a b ≡ some m
    → (a ≡ some m) ⊎ (b ≡ some m)
current_or-cases (some x) b m e = inl e
current_or-cases none b m e = inr e

-- The membership of an OAuth caller is theirs and in an open workspace.
last_membership-found :
    (u : OauthUser) (k : Option ℕ) (g : Gate) (m : WorkspaceMembership)
    → last_membership u k g ≡ some m
    → Memᴰ m g.server.memberships × (is_open_membership u g m ≡ true)
last_membership-found u none g m e = cc
last_membership-found u (some k) g m e =
    let (m_in, t) = find-IsFound _ g.server.memberships m e in (m_in, ground arith)

active_membership-found :
    (u : OauthUser) (g : Gate) (m : WorkspaceMembership)
    → resolve_active_membership u g ≡ some m
    → Memᴰ m g.server.memberships × (is_open_membership u g m ≡ true)
unfolding resolve_active_membership
active_membership-found u g m e =
    elim (current_or-cases (last_membership u u.last_workspace_id g) _ m e) [
      | inl l ↦ last_membership-found u u.last_workspace_id g m l
      | inr f ↦ find-IsFound _ g.server.memberships m f
    ]

with_membership-IsByOauth :
    (h : Digests) (now : ℕ) (token : Codes) (g : Gate) (row : AccessToken) (u : OauthUser)
    (o : Option WorkspaceMembership) (a : Authenticated)
    → Memᴰ row g.access_tokens × (row.token_checksum ≡ h.sha256_hex token)
    → row.is_expired now ≡ false
    → row.allow_scopes mcp_oauth_scope ≡ true
    → row.user ≡ some u
    → resolve_active_membership u g ≡ o
    → with_membership u o ≡ some a
    → IsByOauth h now token g a
with_membership-IsByOauth h now token g row u none a f l sc o e w = cc
with_membership-IsByOauth h now token g row u (some m) a f l sc o e w =
    let (m_in, t) = active_membership-found u g m e in
    record {
      row = row;
      found = f.0;
      checksum = f.1;
      live = l;
      scope = sc;
      user = u;
      owner = o;
      membership = m;
      joined = m_in;
      theirs = grind (arith, ==_iff m.user u.id);
      open_workspace = ground arith;
      attached = sym (some_inj.0 w);
    }

for_user-IsByOauth :
    (h : Digests) (now : ℕ) (token : Codes) (g : Gate) (row : AccessToken) (u : Option OauthUser)
    (a : Authenticated)
    → Memᴰ row g.access_tokens × (row.token_checksum ≡ h.sha256_hex token)
    → row.user ≡ u
    → for_user now row g u ≡ some a
    → IsByOauth h now token g a
for_user-IsByOauth h now token g row none a f o e = cc
for_user-IsByOauth h now token g row (some u) a f o e = elim (Bool-cases (row.is_expired now)) [
  | inl x ↦ let e' : ◌≡◌ {A = Option Authenticated} none (some a) = rw x at e in cc
  | inr x ↦ elim (Bool-cases (row.allow_scopes mcp_oauth_scope)) [
    | inr y ↦ let e' : ◌≡◌ {A = Option Authenticated} none (some a) = rw (x, y) at e in cc
    | inl y ↦ with_membership-IsByOauth h now token g row u _ a f x y o refl (rw (x, y) at e)
  ]
]

pub for_token-IsByOauth :
    (h : Digests) (now : ℕ) (token : Codes) (g : Gate) (o : Option AccessToken) (a : Authenticated)
    → find (λ t. same t.token_checksum (h.sha256_hex token)) g.access_tokens ≡ o
    → for_token now g o ≡ some a
    → IsByOauth h now token g a
for_token-IsByOauth h now token g none a e w = cc
for_token-IsByOauth h now token g (some row) a e w =
    let (row_in, t) = find-IsFound _ g.access_tokens row e in
    for_user-IsByOauth h now token g row row.user a
      (row_in, (same_iff row.token_checksum (h.sha256_hex token)).0 t) refl w
