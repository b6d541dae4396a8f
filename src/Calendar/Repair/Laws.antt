-- ===== src/Calendar/Repair/Laws.antt =====
-- What the repair of brightbean-studio/apps/calendar/services.py leaves.
use bright_bean_paysys.Common.{
  ℕ, ◌≡◌, refl, ◌∙◌, ap, false, Option, none, some, List, [], ◌∷◌, arith, filter, Bool-cases, inl,
  inr,
}
use bright_bean_paysys.Store.{Post, PlatformPost, Store}
use bright_bean_paysys.Composer.Services.{sync_post_scheduled_at}
use bright_bean_paysys.Calendar.Repair.{
  is_affected, is_later, pin_all, snap, sync_all, affected_posts, repaired,
}

-- An instant is not later than itself.
is_later_self : (o : Option ℕ) → is_later o o ≡ false
is_later_self none = refl
is_later_self (some t) = ground arith

snapped :
    (ws : Option ℕ) (posts : List Post) (q : PlatformPost)
    → is_affected ws posts (record q { scheduled_at = q.published_at }) ≡ false
unfolding is_affected
snapped ws posts q = rw (is_later_self q.published_at) (ground arith)

snap_none :
    (ws : Option ℕ) (posts : List Post) (rows : List PlatformPost)
    → filter (is_affected ws posts) (snap ws posts rows) ≡ []
unfolding snap
snap_none ws posts [] = refl
snap_none ws posts (q ∷ rows) = elim (Bool-cases (is_affected ws posts q)) [
  | inl e ↦ rw (e, snapped ws posts q) (snap_none ws posts rows)
  | inr e ↦ rw (e, e) (snap_none ws posts rows)
]

sync_all_rows :
    (now : ℕ) (posts : List Post) (s : Store)
    → (sync_all now posts s).platform_posts ≡ s.platform_posts
unfolding sync_all sync_post_scheduled_at
sync_all_rows now [] s = refl
sync_all_rows now (post ∷ posts) s = sync_all_rows now posts (sync_post_scheduled_at now post.id s)

-- After the repair none of the rows that it looks for is left, with the posts as they were.
pub repaired-is_affected :
    (now : ℕ) (ws : Option ℕ) (s : Store)
    → filter (is_affected ws s.posts) (repaired now ws s).platform_posts ≡ []
unfolding repaired
repaired-is_affected now ws s =
    ap (filter (is_affected ws s.posts)) (sync_all_rows now (affected_posts ws s) _)
    ∙ snap_none ws s.posts (pin_all (affected_posts ws s) s.platform_posts)
