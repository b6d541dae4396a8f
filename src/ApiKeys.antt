-- ===== src/ApiKeys.antt =====
-- Agent API keys (brightbean-studio/apps/api_keys): the format of a token, the keys of a workspace,
-- and the check of a token with its cache.
pub mod Token
pub mod Keys
pub mod Scope
pub mod Verification
pub mod Examples
