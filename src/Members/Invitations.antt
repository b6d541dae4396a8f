-- ===== src/Members/Invitations.antt =====
-- brightbean-studio/apps/members/services.py: sending an invitation again, and revoking it. The
-- token is the row's key here, so it names the row before a change.
use bright_bean_paysys.Common.{
  ℕ, ◌+◌, ◌<◌, ◌≡◌, refl, Bool, true, ◌==◌, ltb, is_some, arith, Result, ok, err, ◌>>◌, raise_if,
}
use bright_bean_paysys.Common.Rows.{update_where}
use bright_bean_paysys.Members.Services.{
  Invitation, Directory, MemberError, expired, already_accepted, invite_expiry_seconds,
  accept_invitation,
}

abbrev pub save_invitation : Invitation → (Invitation → Invitation) → Directory → Directory
save_invitation i change d = record d {
  invitations = update_where (λ j. j.token == i.token) change d.invitations;
}

-- `resend_invitation`; `token` is what `secrets.token_urlsafe(32)` draws.
abbrev pub resent : ℕ → ℕ → Invitation → Invitation
resent now token i = record i { token = token; expires_at = now + invite_expiry_seconds }

unfoldable pub resend_invitation : ℕ → ℕ → Invitation → Directory → Result MemberError Directory
resend_invitation now token i d = do
  raise_if (is_some i.accepted_at) already_accepted
  ok (save_invitation i (resent now token) d)

-- `revoke_invitation`
abbrev pub revoked : ℕ → Invitation → Invitation
revoked now i = record i { expires_at = now }

unfoldable pub revoke_invitation : ℕ → Invitation → Directory → Result MemberError Directory
revoke_invitation now i d = do
  raise_if (is_some i.accepted_at) already_accepted
  ok (save_invitation i (revoked now) d)

passed : (now later : ℕ) → now < later → ltb now later ≡ true
passed now later l = ground arith

-- Nobody can accept an invitation after the instant in which it was revoked.
pub revoked-accept_invitation :
    (now later fresh user email : ℕ) (match_required : Bool) (i : Invitation) (d : Directory)
    → now < later
    → accept_invitation later fresh user email match_required (revoked now i) d ≡ err expired
unfolding accept_invitation
revoked-accept_invitation now later fresh user email match_required i d l =
    rw (passed now later l) refl
