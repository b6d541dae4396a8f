-- ===== src/Slack/Access/Bulk.antt =====
-- Bulk grants (brightbean-studio/apps/slack_bot/access_service.py): whose approval changes, and
-- that every id is accounted for once.
use bright_bean_paysys.Common.{
  ℕ, ◌+◌, ◌≡◌, refl, sym, ap, ◌∙◌, inl, inr, Bool, true, false, not, ◌&&◌, ◌||◌, List, [], ◌∷◌,
  ◌++◌, arith, any, if◌then◌else◌, Bool-cases,
}
use bright_bean_paysys.Common.Lookup.{any-IsFound, any-Memᴰ}
use bright_bean_paysys.ApiKeys.Token.{Codes, same}
use bright_bean_paysys.ApiKeys.Token.RoundTrip.{same_iff}
use bright_bean_paysys.Slack.Directory.{Tables, invalid_member_id, no_metadata}
use bright_bean_paysys.Slack.Access.{
  GrantAction, granted, already_approved, restored, strip, is_valid_member_id, is_user_approved,
  grant_user_access, audit, unique_from, unique_ids, BulkGrantResult, noted, grant_one, grant_each,
  bulk_audit, grant_bulk_user_access,
}
use bright_bean_paysys.Slack.Access.Laws.{is_pair, audit-approvals, grant_user_access-approvals}

-- An id for which the grant goes through.
abbrev pub is_grantable : (Codes → Bool) → Codes → Bool
is_grantable fails u = is_valid_member_id u && not (fails u)

grant_one-approvals :
    (fails : Codes → Bool) (w by u w' u' : Codes) (r : BulkGrantResult) (s : Tables)
    → is_user_approved w' u' (grant_one fails w by u (r, s)).1
      ≡ (is_user_approved w' u' s || (is_grantable fails u && is_pair w u w' u'))
unfolding grant_one
grant_one-approvals fails w by u w' u' r s = elim (Bool-cases (is_valid_member_id u)) [
  | inr v ↦ rw (v, audit-approvals w' u' w u invalid_member_id by no_metadata s) (ground arith)
  | inl v ↦ elim (Bool-cases (fails u)) [
    | inl f ↦ rw (v, f) (ground arith)
    | inr f ↦ rw (v, f, grant_user_access-approvals w u by w' u' s) refl
  ]
]

grant_each-approvals :
    (fails : Codes → Bool) (w by : Codes) (us : List Codes) (w' u' : Codes)
    (x : BulkGrantResult × Tables)
    → is_user_approved w' u' (grant_each fails w by us x).1
      ≡ (is_user_approved w' u' x.1 || any (λ u. is_grantable fails u && is_pair w u w' u') us)
unfolding grant_each
grant_each-approvals fails w by [] w' u' x = ground arith
grant_each-approvals fails w by (u ∷ us) w' u' (r, s) =
    grant_each-approvals fails w by us w' u' (grant_one fails w by u (r, s))
    ∙ rw (grant_one-approvals fails w by u w' u' r s) (ground arith)

seen_before :
    (q : Codes → Bool) (u : Codes) (seen : List Codes)
    → any (same u) seen ≡ true
    → q u ≡ true
    → any q seen ≡ true
seen_before q u seen h t =
    let (v, m, e) = any-IsFound (same u) seen h in
    let d : u ≡ v = (same_iff u v).0 e in any-Memᴰ q seen v m (rw (sym d) t)

any-unique_from :
    (q : Codes → Bool) (seen ids : List Codes)
    → (any q (unique_from seen ids) || any q seen) ≡ (any (λ i. q (strip i)) ids || any q seen)
any-unique_from q seen [] = refl
any-unique_from q seen (u ∷ us) = elim (Bool-cases (any (same (strip u)) seen)) [
  | inl e ↦ rw e (ground (arith, any-unique_from q seen us, seen_before q (strip u) seen e))
  | inr e ↦ rw e (ground (arith, any-unique_from q (strip u ∷ seen) us))
]

any-unique_ids :
    (q : Codes → Bool) (ids : List Codes) → any q (unique_ids ids) ≡ any (λ i. q (strip i)) ids
any-unique_ids q ids = ground (arith, any-unique_from q [] ids)

bulk_audit-approvals :
    (w by w' u' : Codes) (x : BulkGrantResult × Tables)
    → is_user_approved w' u' (bulk_audit w by x).1 ≡ is_user_approved w' u' x.1
unfolding bulk_audit audit is_user_approved
bulk_audit-approvals w by w' u' (r, s) = ground arith

-- After a bulk grant the approved users are those before and, in its workspace, those of its
-- trimmed ids that are valid and for which the database does not fail.
pub grant_bulk_user_access-approvals :
    (fails : Codes → Bool) (w : Codes) (ids : List Codes) (by : Codes) (s : Tables) (w' u' : Codes)
    → is_user_approved w' u' (grant_bulk_user_access fails w ids by s).1 ≡ (
        is_user_approved w' u' s
        || any (λ i. is_grantable fails (strip i) && is_pair w (strip i) w' u') ids)
unfolding grant_bulk_user_access
grant_bulk_user_access-approvals fails w ids by s w' u' =
    bulk_audit-approvals w by w' u' _
    ∙ grant_each-approvals fails w by (unique_ids ids) w' u' _
    ∙ ap (λ b. is_user_approved w' u' s || b)
        (any-unique_ids (λ u. is_grantable fails u && is_pair w u w' u') ids)

-- How often a text stands in a list, and in all lists of a result.
abbrev pub count : Codes → List Codes → ℕ
count k [] = 0
count k (u ∷ us) = (if same k u then 1 else 0) + count k us

abbrev pub listed : Codes → BulkGrantResult → ℕ
listed k r =
    count k r.approved
    + count k r.restored
    + count k r.already_approved
    + count k r.invalid
    + count k r.failed

count-append : (k : Codes) (xs ys : List Codes) → count k (xs ++ ys) ≡ count k xs + count k ys
count-append k [] ys = ground arith
count-append k (x ∷ xs) ys = rw (count-append k xs ys) (ground arith)

noted-listed :
    (k : Codes) (a : GrantAction) (u : Codes) (r : BulkGrantResult)
    → listed k (noted a u r) ≡ listed k r + count k (u ∷ [])
noted-listed k granted u r = rw (count-append k r.approved (u ∷ [])) (ground arith)
noted-listed k already_approved u r = rw (count-append k r.already_approved (u ∷ [])) (ground arith)
noted-listed k restored u r = rw (count-append k r.restored (u ∷ [])) (ground arith)

grant_one-listed :
    (k : Codes) (fails : Codes → Bool) (w by u : Codes) (x : BulkGrantResult × Tables)
    → listed k (grant_one fails w by u x).0 ≡ listed k x.0 + count k (u ∷ [])
unfolding grant_one
grant_one-listed k fails w by u (r, s) = elim (Bool-cases (is_valid_member_id u)) [
  | inr v ↦ rw (v, count-append k r.invalid (u ∷ [])) (ground arith)
  | inl v ↦ elim (Bool-cases (fails u)) [
    | inl f ↦ rw (v, f, count-append k r.failed (u ∷ [])) (ground arith)
    | inr f ↦ rw (v, f) (noted-listed k (grant_user_access w u by s).0 u r)
  ]
]

grant_each-listed :
    (k : Codes) (fails : Codes → Bool) (w by : Codes) (us : List Codes)
    (x : BulkGrantResult × Tables)
    → listed k (grant_each fails w by us x).0 ≡ listed k x.0 + count k us
unfolding grant_each
grant_each-listed k fails w by [] x = omega arith
grant_each-listed k fails w by (u ∷ us) x =
    let one = grant_one-listed k fails w by u x in
    let rest = grant_each-listed k fails w by us (grant_one fails w by u x) in omega arith

count-unique_from :
    (k : Codes) (seen ids : List Codes)
    → count k (unique_from seen ids)
      ≡ (if any (same k) seen then 0 else if any (λ i. same k (strip i)) ids then 1 else 0)
count-unique_from k seen [] = ground arith
count-unique_from k seen (u ∷ us) = elim (Bool-cases (any (same (strip u)) seen)) [
  | inl e ↦ rw (e, count-unique_from k seen us) (ground (arith, seen_same e))
  | inr e ↦ rw (e, count-unique_from k (strip u ∷ seen) us) (ground (arith, unseen_same e))
]
  where
    seen_same :
        any (same (strip u)) seen ≡ true → same k (strip u) ≡ true → any (same k) seen ≡ true
    seen_same e h = let d = (same_iff k (strip u)).0 h in rw d e

    unseen_same :
        any (same (strip u)) seen ≡ false → same k (strip u) ≡ true → any (same k) seen ≡ false
    unseen_same e h = let d = (same_iff k (strip u)).0 h in rw d e

bulk_audit-result : (w by : Codes) (x : BulkGrantResult × Tables) → (bulk_audit w by x).0 ≡ x.0
unfolding bulk_audit
bulk_audit-result w by (r, s) = ground arith

-- Every trimmed id of the request stands exactly once in exactly one list of the answer, and no
-- other id stands there, whatever fails.
pub grant_bulk_user_access-listed :
    (fails : Codes → Bool) (w : Codes) (ids : List Codes) (by : Codes) (s : Tables) (k : Codes)
    → listed k (grant_bulk_user_access fails w ids by s).0
      ≡ (if any (λ i. same k (strip i)) ids then 1 else 0)
unfolding grant_bulk_user_access
grant_bulk_user_access-listed fails w ids by s k =
    ap (listed k) (bulk_audit-result w by _)
    ∙ grant_each-listed k fails w by (unique_ids ids) _
    ∙ ground (arith, count-unique_from k [] ids)
