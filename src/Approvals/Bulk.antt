-- ===== src/Approvals/Bulk.antt =====
-- The bulk decisions (brightbean-studio/apps/approvals/services.py): `bulk_reject`, and what both do
-- to the channels. The text of an error in an answer is left out.
use bright_bean_paysys.Common.{
  arith, ℕ, String, ◌≡◌, refl, ap, Bool, false, List, [], ◌∷◌, map, Result, ok, err, raise_if, ◌>>◌,
}
use bright_bean_paysys.Common.Rows.{Rows, Rows-trans}
use bright_bean_paysys.Store.{ApprovalWorkflowMode, unrestricted, Post}
use bright_bean_paysys.Members.Roles.{WorkspaceMembership}
use bright_bean_paysys.Approvals.Rows.{whole}
use bright_bean_paysys.Approvals.Notices.{Desk}
use bright_bean_paysys.Approvals.Services.{
  ApprovalError, comment_required, is_blank, approve_post, reject_post, awaiting, approve_each,
  bulk_approve,
}
use bright_bean_paysys.Approvals.Laws.{
  Decided, Decided-trans, RowsDecided, RowsDecided-refl, approve_post-RowsDecided,
  run_decision-Decided, run_decision, reject, desk_after,
}

-- One answer of the loop: a call that raises moved nothing.
abbrev pub moved_any : Result ApprovalError (Bool × Desk) → Bool
moved_any (ok r) = r.0
moved_any (err _) = false

unfoldable pub reject_each : ℕ → ℕ → String → List Post → Desk → List (ℕ × Bool) × Desk
unfolding reject_post
reject_each now user comment [] d = ([], d)
reject_each now user comment (p ∷ ps) d =
    let answer = reject_post now (whole p) user comment d in
    let (rest, f) = reject_each now user comment ps (desk_after d answer) in
    ((p.id, moved_any answer) ∷ rest, f)

unfoldable pub bulk_reject :
    ℕ → List ℕ → ℕ → ℕ → String → Desk → Result ApprovalError (List (ℕ × Bool) × Desk)
unfolding awaiting reject_each is_blank
bulk_reject now ids workspace_id user comment d =
    raise_if (is_blank comment) comment_required
    >> ok (reject_each now user comment (awaiting ids workspace_id d.store) d)

RowsDecided-trans : (d e f : Desk) → RowsDecided d e → RowsDecided e f → RowsDecided d f
RowsDecided-trans d e f h k =
    Rows-trans Decided Decided-trans d.store.platform_posts e.store.platform_posts
      f.store.platform_posts h k

abbrev ids_of : List Post → List ℕ
ids_of = map (λ p. p.id)

approve_each-RowsDecided :
    (now : ℕ) (mode : ApprovalWorkflowMode) (user : ℕ) (members : List WorkspaceMembership)
    (ps : List Post) (d : Desk)
    → (map (λ a. a.0) (approve_each now mode user members ps d).0 ≡ ids_of ps)
      × RowsDecided d (approve_each now mode user members ps d).1
unfolding approve_each
approve_each-RowsDecided now mode user members [] d = (refl, RowsDecided-refl d)
approve_each-RowsDecided now mode user members (p ∷ ps) d =
    let e = (approve_post now mode (whole p) user members "" d).1 in
    let (answers, rest) = approve_each-RowsDecided now mode user members ps e in
    (
      ap (λ ks. p.id ∷ ks) answers,
      RowsDecided-trans d e (approve_each now mode user members ps e).1
          (approve_post-RowsDecided now mode (whole p) user members "" d) rest,
    )

-- `bulk_approve` answers once for each listed post that waits, in the order of the table, and moves
-- channels only as single decisions do.
pub bulk_approve-Decided :
    (now : ℕ) (mode : ApprovalWorkflowMode) (ids : List ℕ) (workspace_id user : ℕ)
    (members : List WorkspaceMembership) (d : Desk)
    → (map (λ a. a.0) (bulk_approve now mode ids workspace_id user members d).0
        ≡ map (λ p. p.id) (awaiting ids workspace_id d.store))
      × Rows Decided d.store.platform_posts
          (bulk_approve now mode ids workspace_id user members d).1.store.platform_posts
unfolding bulk_approve
bulk_approve-Decided now mode ids workspace_id user members d =
    approve_each-RowsDecided now mode user members (awaiting ids workspace_id d.store) d

reject_each-RowsDecided :
    (now user : ℕ) (comment : String) (ps : List Post) (d : Desk)
    → (map (λ a. a.0) (reject_each now user comment ps d).0 ≡ ids_of ps)
      × RowsDecided d (reject_each now user comment ps d).1
unfolding reject_each run_decision
reject_each-RowsDecided now user comment [] d = (refl, RowsDecided-refl d)
reject_each-RowsDecided now user comment (p ∷ ps) d =
    let e = desk_after d (reject_post now (whole p) user comment d) in
    let (answers, rest) = reject_each-RowsDecided now user comment ps e in
    (
      ap (λ ks. p.id ∷ ks) answers,
      RowsDecided-trans d e (reject_each now user comment ps e).1
          (run_decision-Decided now unrestricted (whole p) user [] (reject comment) d) rest,
    )

bulk_reject-eq :
    (now : ℕ) (ids : List ℕ) (workspace_id user : ℕ) (comment : String) (d : Desk)
    {r : List (ℕ × Bool) × Desk}
    → bulk_reject now ids workspace_id user comment d ≡ ok r
    → (is_blank comment ≡ false)
      × (r ≡ reject_each now user comment (awaiting ids workspace_id d.store) d)
unfolding bulk_reject
bulk_reject-eq now ids workspace_id user comment d h = ground arith

-- `bulk_reject` that goes through had a comment, answers once for each listed post that waits, in
-- the order of the table, and moves channels only as single decisions do.
pub bulk_reject-Decided :
    (now : ℕ) (ids : List ℕ) (workspace_id user : ℕ) (comment : String) (d : Desk)
    {r : List (ℕ × Bool) × Desk}
    → bulk_reject now ids workspace_id user comment d ≡ ok r
    → (is_blank comment ≡ false)
      × (map (λ a. a.0) r.0 ≡ map (λ p. p.id) (awaiting ids workspace_id d.store))
      × Rows Decided d.store.platform_posts r.1.store.platform_posts
bulk_reject-Decided now ids workspace_id user comment d h =
    let (full, e) = bulk_reject-eq now ids workspace_id user comment d h in
    let (answers, rows) =
      reject_each-RowsDecided now user comment (awaiting ids workspace_id d.store) d in
    rw e (full, answers, rows)
