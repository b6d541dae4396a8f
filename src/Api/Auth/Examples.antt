-- ===== src/Api/Auth/Examples.antt =====
-- Tests and examples of the authentication: a key, an OAuth token, and guesses from one address.
use bright_bean_paysys.Common.{
  ℕ, ◌+◌, ◌≤◌, ◌<◌, ◌≡◌, refl, ◌↔◌, true, false, Option, none, some, [], ◌∷◌, arith,
}
use bright_bean_paysys.Store.{unrestricted}
use bright_bean_paysys.Samples.{a_workspace}
use bright_bean_paysys.ApiKeys.Token.{plaintext_token, after_prefix}
use bright_bean_paysys.ApiKeys.Verification.{verify_token}
use bright_bean_paysys.ApiKeys.Examples.{server, digests, key, secret}
use bright_bean_paysys.Api.Throttle.{
  client_ip, is_failed_auth_ip_blocked, record_failed_auth, auth_fail_limit,
  auth_fail_window_seconds,
}
use bright_bean_paysys.Api.Auth.{
  HttpRequest, AuthSettings, Gate, Authenticated, record_failure, pre_auth_reject, authenticate,
  resolve_oauth_actor, mcp_authenticate,
}
use bright_bean_paysys.Api.Auth.Laws.{IsAdmitted, mcp_authenticate-IsAdmitted}
use bright_bean_paysys.Api.Auth.Guesses.{done, next, Guesses-block}

abbrev settings : AuthSettings
settings = record { debug = false; trusted_proxies = 1 ∷ [] }

-- behind the trusted proxy 1
abbrev over_https : HttpRequest
over_https = record { is_secure = true; remote = 1; forwarded = 7 ∷ [] }

abbrev gate : Gate
gate = record {
  server = record server { keys = key ∷ [] };
  buckets = λ _. none;
  access_tokens =
      record {
        token_checksum = digests.sha256_hex [];
        user = some (record { id = 1; last_workspace_id = none });
        is_expired = λ now. false;
        allow_scopes = λ scope. true;
      }
      ∷ [];
  workspaces = a_workspace unrestricted ∷ [];
}

abbrev by_key : Option Authenticated × Gate
by_key = mcp_authenticate digests settings 10 over_https (plaintext_token digests secret) gate

key_accepted : (a : Authenticated) × (by_key.0 ≡ some a)
unfolding mcp_authenticate authenticate pre_auth_reject plaintext_token verify_token
    is_failed_auth_ip_blocked
key_accepted = (_, refl)

mcp_authenticate-IsAdmitted_example :
    IsAdmitted digests settings 10 over_https (plaintext_token digests secret) gate key_accepted.0
mcp_authenticate-IsAdmitted_example =
    mcp_authenticate-IsAdmitted digests settings 10 over_https (plaintext_token digests secret) gate
      key_accepted.0 tt key_accepted.1

-- A bearer that is no token is accepted by no path once the OAuth row is gone.
abbrev closed : Gate
closed = record gate { access_tokens = [] }

abbrev guess : ℕ → Gate → Option Authenticated × Gate
guess now g = mcp_authenticate digests settings now over_https (b'x' ∷ []) g

first_refused : (guess 10 closed).0 ≡ none
unfolding mcp_authenticate pre_auth_reject resolve_oauth_actor after_prefix
    is_failed_auth_ip_blocked
first_refused = refl

second_refused : (guess 20 (guess 10 closed).1).0 ≡ none
unfolding mcp_authenticate pre_auth_reject resolve_oauth_actor after_prefix
    is_failed_auth_ip_blocked record_failure record_failed_auth client_ip
second_refused = refl

Guesses-block_example :
    (is_failed_auth_ip_blocked 21 ((guess 20 (guess 10 closed).1).1.buckets 7) ≡ true)
    ↔ ((21 < 10 + auth_fail_window_seconds) × (auth_fail_limit ≤ 2))
unfolding client_ip
Guesses-block_example =
    Guesses-block digests settings 7 10 over_https (b'x' ∷ []) closed
      (guess 20 (guess 10 closed).1).1 1 21 tt refl refl first_refused
      (next 20 over_https (b'x' ∷ []) refl (omega arith) second_refused done)
