-- ===== src/Composer/Services/Laws.antt =====
-- What a new post (`create_post`) does to the store (brightbean-studio/apps/composer/services.py).
use bright_bean_paysys.Common.{ℕ, ◌≡◌, true, false, [], ◌∷◌, ◌++◌, arith, ◌⊎◌, is_some, ok}
use bright_bean_paysys.Store.{Workspace, SocialAccount, Store}
use bright_bean_paysys.Composer.Status.{draft, scheduled, is_iff}
use bright_bean_paysys.Composer.Services.{
  blocks_direct_schedule, NewPost, create_post, check_new_post, new_platform_post_row,
}

check_new_post-ok :
    (ws : Workspace) (account : SocialAccount) (new : NewPost) (s : Store)
    → check_new_post ws account new s ≡ ok tt
    → (account.workspace_id ≡ ws.id)
      × ((new.status ≡ draft)
          ⊎ ((new.status ≡ scheduled)
              × (is_some new.scheduled_at ≡ true)
              × (blocks_direct_schedule ws.approval_workflow_mode ≡ false)))
unfolding check_new_post
check_new_post-ok ws account new s h =
    ground (arith, is_iff new.status draft, is_iff new.status scheduled)

-- A post that is created adds one channel, in its initial status, and leaves the other channels and
-- all queue entries alone; its account is one of the workspace; it starts as a draft, or as
-- scheduled with a time and without an approval to wait for.
pub create_post-ok :
    (now post_id pp_id : ℕ) (ws : Workspace) (account : SocialAccount) (new : NewPost) (s : Store)
    {s' : Store}
    → create_post now post_id pp_id ws account new s ≡ ok s'
    → (s'.platform_posts
        ≡ s.platform_posts ++ new_platform_post_row now pp_id post_id account new ∷ [])
      × (s'.queue_entries ≡ s.queue_entries)
      × (account.workspace_id ≡ ws.id)
      × ((new.status ≡ draft)
          ⊎ ((new.status ≡ scheduled)
              × (is_some new.scheduled_at ≡ true)
              × (blocks_direct_schedule ws.approval_workflow_mode ≡ false)))
unfolding create_post
create_post-ok now post_id pp_id ws account new s h = ground (
  arith,
  check_new_post-ok ws account new s,
  is_iff new.status draft,
  is_iff new.status scheduled,
)
