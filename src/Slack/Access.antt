-- ===== src/Slack/Access.antt =====
-- brightbean-studio/apps/slack_bot/access_service.py and slack_id_validation.py: the administrator
-- of the bot and the access of its users.
pub mod Laws
pub mod Bulk
pub mod Administrator
use bright_bean_paysys.Common.{
  ℕ, Bool, true, false, not, ◌&&◌, ◌||◌, Option, none, some, List, [], ◌∷◌, ◌++◌, ◌==◌, leb, any,
  all, find, is_empty, if◌then◌else◌,
}
use bright_bean_paysys.Common.Rows.{update_where}
use bright_bean_paysys.ApiKeys.Token.{Codes, same}
use bright_bean_paysys.Slack.Directory.{
  active, BotAdministrator, AccessStatus, approved, revoked, BotPermission, read_only,
  BotUserAccess, AuditAction, admin_bootstrapped, admin_updated, access_granted,
  bulk_access_granted, access_already_present, access_restored, invalid_member_id, AuditMetadata,
  no_metadata, previous_admin, bulk, BotAccessAuditLog, Tables, system_actor, is_access_of,
}

-- `str.isspace` of one character
abbrev pub is_space : ℕ → Bool
is_space c =
    (leb 9 c && leb c 13)
    || (leb 28 c && leb c 32)
    || c == 133
    || c == 160
    || c == 5760
    || (leb 8192 c && leb c 8202)
    || c == 8232
    || c == 8233
    || c == 8239
    || c == 8287
    || c == 12288

abbrev pub strip_left : Codes → Codes
strip_left [] = []
strip_left (c ∷ cs) = if is_space c then strip_left cs else c ∷ cs

abbrev pub strip_right : Codes → Codes
strip_right [] = []
strip_right (c ∷ cs) =
    let rest = strip_right cs in if is_empty rest && is_space c then [] else c ∷ rest

-- `str.strip`
unfoldable pub strip : Codes → Codes
strip cs = strip_right (strip_left cs)

abbrev pub is_upper_or_digit : ℕ → Bool
is_upper_or_digit c = (leb b'A' c && leb c b'Z') || (leb b'0' c && leb c b'9')

-- A first letter and at least one more character, all capitals or digits
abbrev pub matches : (ℕ → Bool) → Codes → Bool
matches first [] = false
matches first (c ∷ cs) = first c && not (is_empty cs) && all is_upper_or_digit cs

unfoldable pub is_valid_member_id : Codes → Bool
unfolding strip
is_valid_member_id value = matches (λ c. c == b'U' || c == b'W') (strip value)

-- `is_user_approved`
abbrev pub is_approval : Codes → Codes → BotUserAccess → Bool
is_approval workspace user a =
    is_access_of workspace user a
    && elim a.status [ approved ↦ true | revoked ↦ false ]
    && elim a.permission [ read_only ↦ true ]

unfoldable pub is_user_approved : Codes → Codes → Tables → Bool
is_user_approved workspace user s = any (is_approval workspace user) s.accesses

-- `_audit`
unfoldable pub audit : Codes → Codes → AuditAction → Codes → AuditMetadata → Tables → Tables
audit workspace target action by metadata s = record s {
  audit_logs =
      s.audit_logs
      ++ (record {
        workspace_id = workspace;
        target_slack_user_id = target;
        performed_by_slack_user_id = by;
        action = action;
        metadata = metadata;
      }
          ∷ []);
}

-- A fresh row, and a row that is restored.
abbrev pub new_access : Codes → Codes → Codes → BotUserAccess
new_access workspace user by = record {
  workspace_id = workspace;
  slack_user_id = user;
  status = approved;
  permission = read_only;
  granted_by_slack_user_id = by;
  revoked_at = none;
}

abbrev pub restore_access : Codes → BotUserAccess → BotUserAccess
restore_access by a = record a {
  status = approved;
  permission = read_only;
  revoked_at = none;
  granted_by_slack_user_id = by;
}

abbrev pub create_access : Codes → Codes → Codes → Tables → Tables
create_access workspace user by s = record s {
  accesses = s.accesses ++ (new_access workspace user by ∷ []);
}

abbrev pub save_access : Codes → Codes → (BotUserAccess → BotUserAccess) → Tables → Tables
save_access workspace user f s = record s {
  accesses = update_where (is_access_of workspace user) f s.accesses;
}

-- The three ends of a grant.
pub data GrantAction : Type 0 where
  granted already_approved restored : GrantAction

-- What is to be done about the row that is there.
unfoldable pub grant_action : Option BotUserAccess → GrantAction
grant_action none = granted
grant_action (some a) = elim a.status [ approved ↦ already_approved | revoked ↦ restored ]

unfoldable pub act : GrantAction → Codes → Codes → Codes → Tables → Tables
act granted workspace user by s = create_access workspace user by s
act already_approved workspace user by s = s
act restored workspace user by s = save_access workspace user (restore_access by) s

abbrev pub audit_action : GrantAction → AuditAction
audit_action granted = access_granted
audit_action already_approved = access_already_present
audit_action restored = access_restored

unfoldable pub grant_user_access : Codes → Codes → Codes → Tables → GrantAction × Tables
unfolding grant_action act audit
grant_user_access workspace user by s =
    let action = grant_action (find (is_access_of workspace user) s.accesses) in
    (
      action,
      audit workspace user (audit_action action) by no_metadata (act action workspace user by s),
    )

-- `_ensure_admin_access`: get_or_create, and a revoked row is restored.
unfoldable pub ensure_admin_access : Codes → Codes → Tables → Tables
unfolding grant_action act
ensure_admin_access workspace user s =
    act (grant_action (find (is_access_of workspace user) s.accesses)) workspace user system_actor s

pub data AdminAction : Type 0 where
  created already_active updated : AdminAction

abbrev pub is_admin_of : Codes → BotAdministrator → Bool
is_admin_of workspace a = same a.workspace_id workspace

abbrev pub create_admin : Codes → Codes → Tables → Tables
create_admin workspace user s = record s {
  administrators =
      s.administrators
      ++ (record { workspace_id = workspace; slack_user_id = user; status = active } ∷ []);
}

abbrev pub save_admin : Codes → Codes → Tables → Tables
save_admin workspace user s = record s {
  administrators =
      update_where (is_admin_of workspace) (λ a. record a { slack_user_id = user; status = active })
        s.administrators;
}

unfoldable pub configure_found :
    Codes → Codes → Option BotAdministrator → Tables → AdminAction × Tables
unfolding audit ensure_admin_access
configure_found workspace user none s = (
  created,
  audit workspace user admin_bootstrapped system_actor no_metadata
      (ensure_admin_access workspace user (create_admin workspace user s)),
)
configure_found workspace user (some a) s =
    if same a.slack_user_id user then (already_active, s) else (
      updated,
      audit workspace user admin_updated system_actor (previous_admin a.slack_user_id)
          (ensure_admin_access workspace user (save_admin workspace user s)),
    )

unfoldable pub configure_administrator : Codes → Codes → Tables → AdminAction × Tables
unfolding configure_found
configure_administrator workspace user s =
    configure_found workspace user (find (is_admin_of workspace) s.administrators) s

-- `grant_bulk_user_access`: the trimmed ids, each once, in the order of the list
abbrev pub unique_from : List Codes → List Codes → List Codes
unique_from seen [] = []
unique_from seen (u ∷ us) =
    let is_old = any (same (strip u)) seen in
    (if is_old then [] else strip u ∷ [])
    ++ unique_from (if is_old then seen else strip u ∷ seen) us

abbrev pub unique_ids : List Codes → List Codes
unique_ids ids = unique_from [] ids

pub record BulkGrantResult : Type 0 where
  pub approved : List Codes
  pub restored : List Codes
  pub already_approved : List Codes
  pub invalid : List Codes
  pub failed : List Codes

abbrev pub noted : GrantAction → Codes → BulkGrantResult → BulkGrantResult
noted granted u r = record r { approved = r.approved ++ (u ∷ []) }
noted restored u r = record r { restored = r.restored ++ (u ∷ []) }
noted already_approved u r = record r { already_approved = r.already_approved ++ (u ∷ []) }

-- One id. `fails` tells for which ids the database raises; the grant is then rolled back.
unfoldable pub grant_one :
    (Codes → Bool) → Codes → Codes → Codes → BulkGrantResult × Tables → BulkGrantResult × Tables
unfolding audit is_valid_member_id grant_user_access
grant_one fails workspace by u (r, s) =
    let (action, t) = grant_user_access workspace u by s in
    if not (is_valid_member_id u)
    then (
      record r { invalid = r.invalid ++ (u ∷ []) },
      audit workspace u invalid_member_id by no_metadata s,
    )
    else if fails u
    then (record r { failed = r.failed ++ (u ∷ []) }, s)
    else (noted action u r, t)

unfoldable pub grant_each :
    (Codes → Bool)
    → Codes
    → Codes
    → List Codes
    → BulkGrantResult × Tables
    → BulkGrantResult × Tables
unfolding grant_one
grant_each fails workspace by [] x = x
grant_each fails workspace by (u ∷ us) x =
    grant_each fails workspace by us (grant_one fails workspace by u x)

abbrev pub joined : List Codes → Codes
joined [] = []
joined (u ∷ []) = u
joined (u ∷ v ∷ us) = u ++ (b',' ∷ joined (v ∷ us))

-- The record of the whole, when somebody was given access.
unfoldable pub bulk_audit : Codes → Codes → BulkGrantResult × Tables → BulkGrantResult × Tables
unfolding audit
bulk_audit workspace by (r, s) = if is_empty r.approved && is_empty r.restored then (r, s) else (
  r,
  audit workspace (joined (r.approved ++ r.restored)) bulk_access_granted by
      (bulk r.approved r.restored r.already_approved r.invalid) s,
)

unfoldable pub grant_bulk_user_access :
    (Codes → Bool) → Codes → List Codes → Codes → Tables → BulkGrantResult × Tables
unfolding grant_each bulk_audit
grant_bulk_user_access fails workspace ids by s = bulk_audit workspace by (
    grant_each fails workspace by (unique_ids ids) (
      record { approved = []; restored = []; already_approved = []; invalid = []; failed = [] },
      s,
    ))
