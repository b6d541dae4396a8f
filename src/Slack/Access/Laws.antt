-- ===== src/Slack/Access/Laws.antt =====
-- What grants of access do to everybody's approval (brightbean-studio/apps/slack_bot/
-- access_service.py).
use bright_bean_paysys.Common.{
  ◌≡◌, refl, sym, ◌∙◌, ◌⊎◌, inl, inr, Bool, true, ◌&&◌, ◌||◌, Option, none, some, List, [], ◌∷◌,
  arith, any, any-append, find, Bool-cases,
}
use bright_bean_paysys.Common.Rows.{update_where}
use bright_bean_paysys.Common.Lookup.{find-IsFound, any-Memᴰ}
use bright_bean_paysys.ApiKeys.Token.{Codes, same}
use bright_bean_paysys.ApiKeys.Token.RoundTrip.{same_iff}
use bright_bean_paysys.Slack.Directory.{
  AccessStatus, approved, revoked, BotUserAccess, AuditAction, AuditMetadata, Tables, is_access_of,
}
use bright_bean_paysys.Slack.Access.{
  is_approval, is_user_approved, new_access, restore_access, grant_action, act, grant_user_access,
  audit,
}

pub same_self : (a : Codes) → same a a ≡ true
same_self a = (same_iff a a).1 refl

status_cases : (s : AccessStatus) → (s ≡ approved) ⊎ (s ≡ revoked)
status_cases approved = inl refl
status_cases revoked = inr refl

-- Two pairs of ids are the same.
abbrev pub is_pair : Codes → Codes → Codes → Codes → Bool
is_pair w u w' u' = same w w' && same u u'

-- A row of one pair is an approval of that pair only.
approval_of_row :
    (w u w' u' : Codes) (a : BotUserAccess)
    → is_access_of w u a ≡ true
    → is_approval w' u' a ≡ (is_pair w u w' u' && is_approval w u a)
approval_of_row w u w' u' a h =
    let w_eq : a.workspace_id ≡ w = ground (arith, same_iff a.workspace_id w) in
    let u_eq : a.slack_user_id ≡ u = ground (arith, same_iff a.slack_user_id u) in
    rw (w_eq, u_eq, same_self w, same_self u) (ground arith)

new_access_approval :
    (w u by w' u' : Codes) → is_approval w' u' (new_access w u by) ≡ is_pair w u w' u'
new_access_approval w u by w' u' = ground arith

restored_approval :
    (w u by w' u' : Codes) (a : BotUserAccess)
    → is_access_of w u a ≡ true
    → is_approval w' u' (restore_access by a) ≡ is_pair w u w' u'
restored_approval w u by w' u' a h =
    let w_eq : a.workspace_id ≡ w = ground (arith, same_iff a.workspace_id w) in
    let u_eq : a.slack_user_id ≡ u = ground (arith, same_iff a.slack_user_id u) in
    rw (w_eq, u_eq) (ground arith)

updated_approvals :
    (w u by w' u' : Codes) (xs : List BotUserAccess)
    → any (is_approval w' u') (update_where (is_access_of w u) (restore_access by) xs)
      ≡ (any (is_approval w' u') xs || (is_pair w u w' u' && any (is_access_of w u) xs))
updated_approvals w u by w' u' [] = ground arith
updated_approvals w u by w' u' (x ∷ xs) =
    let rest = updated_approvals w u by w' u' xs in
    elim (Bool-cases (is_access_of w u x)) [
      | inl e ↦
          let new = restored_approval w u by w' u' x e in
          let old = approval_of_row w u w' u' x e in rw (e, new, old, rest) (ground arith)
      | inr e ↦ rw (e, rest) (ground arith)
    ]

approved_row :
    (w u w' u' : Codes) (a : BotUserAccess)
    → a.status ≡ approved
    → is_access_of w u a ≡ true
    → is_pair w u w' u' ≡ true
    → is_approval w' u' a ≡ true
approved_row w u w' u' a s h p =
    let w_eq : w ≡ w' = ground (arith, same_iff w w') in
    let u_eq : u ≡ u' = ground (arith, same_iff u u') in
    rw (sym w_eq, sym u_eq, h, s) (ground arith)

present_approvals :
    (w u w' u' : Codes) (xs : List BotUserAccess) (a : BotUserAccess)
    → find (is_access_of w u) xs ≡ some a
    → a.status ≡ approved
    → any (is_approval w' u') xs ≡ (any (is_approval w' u') xs || is_pair w u w' u')
present_approvals w u w' u' xs a e s = elim (Bool-cases (is_pair w u w' u')) [
  | inl p ↦
      let (m, h) = find-IsFound _ xs a e in
      let here = any-Memᴰ (is_approval w' u') xs a m (approved_row w u w' u' a s h p) in
      rw (p, here) refl
  | inr p ↦ rw p (ground arith)
]

found_approvals :
    (w u by w' u' : Codes) (s : Tables) (o : Option BotUserAccess)
    → find (is_access_of w u) s.accesses ≡ o
    → is_user_approved w' u' (act (grant_action o) w u by s)
      ≡ (is_user_approved w' u' s || is_pair w u w' u')
unfolding grant_action act is_user_approved
found_approvals w u by w' u' s none e =
    any-append (is_approval w' u') s.accesses (new_access w u by ∷ [])
    ∙ rw (new_access_approval w u by w' u') (ground arith)
found_approvals w u by w' u' s (some a) e = elim (status_cases a.status) [
  | inl st ↦ rw st (present_approvals w u w' u' s.accesses a e st)
  | inr st ↦
      let (m, h) = find-IsFound _ s.accesses a e in
      let here = any-Memᴰ (is_access_of w u) s.accesses a m h in
      rw (st, updated_approvals w u by w' u' s.accesses, here) (ground arith)
]

pub act_approvals :
    (w u by w' u' : Codes) (s : Tables)
    → is_user_approved w' u' (act (grant_action (find (is_access_of w u) s.accesses)) w u by s)
      ≡ (is_user_approved w' u' s || is_pair w u w' u')
act_approvals w u by w' u' s = found_approvals w u by w' u' s _ refl

pub audit-approvals :
    (w' u' w target : Codes) (action : AuditAction) (by : Codes) (m : AuditMetadata) (s : Tables)
    → is_user_approved w' u' (audit w target action by m s) ≡ is_user_approved w' u' s
unfolding audit is_user_approved
audit-approvals w' u' w target action by m s = refl

-- A grant approves its user in its workspace, and changes nobody else's approval.
pub grant_user_access-approvals :
    (w u by w' u' : Codes) (s : Tables)
    → is_user_approved w' u' (grant_user_access w u by s).1
      ≡ (is_user_approved w' u' s || is_pair w u w' u')
unfolding grant_user_access audit is_user_approved
grant_user_access-approvals w u by w' u' s = act_approvals w u by w' u' s
