-- ===== src/Publisher/Clones.antt =====
-- Cloning a post (brightbean-studio/apps/composer/services.py) and the poll
-- (brightbean-studio/apps/publisher/engine.py).
use bright_bean_paysys.Common.{
  ℕ, ◌≡◌, refl, ◌∙◌, ap, Bool, false, Option, some, List, [], ◌∷◌, ◌++◌, map, arith, ◌==◌,
  if◌then◌else◌, filter, find, any, Bool-cases, inl, inr,
}
use bright_bean_paysys.Store.{Post, PlatformPost, Store, children}
use bright_bean_paysys.Composer.Status.{on_hold, is}
use bright_bean_paysys.Composer.Services.{or_else}
use bright_bean_paysys.Composer.Clone.{copied_post, copied_channel, clone_post}
use bright_bean_paysys.Publisher.Engine.{effective_at, column_of, is_held, is_due}

filter-append :
    (p : PlatformPost → Bool) (xs ys : List PlatformPost)
    → filter p (xs ++ ys) ≡ filter p xs ++ filter p ys
filter-append p [] ys = refl
filter-append p (x ∷ xs) ys =
    ap (λ zs. if p x then x ∷ zs else zs) (filter-append p xs ys)
    ∙ (elim (Bool-cases (p x)) [ inl e ↦ rw e refl | inr e ↦ rw e refl ])

append-nil : (xs : List PlatformPost) → xs ++ [] ≡ xs
append-nil [] = refl
append-nil (x ∷ xs) = ap (λ ys. x ∷ ys) (append-nil xs)

find-append :
    (k : ℕ) (posts : List Post) (post : Post)
    → (post.id == k) ≡ false
    → find (λ p. p.id == k) (posts ++ post ∷ []) ≡ find (λ p. p.id == k) posts
find-append k [] post e = rw e refl
find-append k (p ∷ posts) post e =
    ap (λ o. if p.id == k then some p else o) (find-append k posts post e)

module _ (now post_id : ℕ) (key : ℕ → ℕ) where
  -- Copies belong to another post, and none of them is on hold or scheduled.
  copies_apart :
      (k : ℕ) (rows : List PlatformPost)
      → (post_id == k) ≡ false
      → children k (map (copied_channel now post_id key) rows) ≡ []
  copies_apart k [] e = refl
  copies_apart k (q ∷ rows) e = rw e (copies_apart k rows e)

  copies_wait :
      (t : ℕ) (s : Store) (rows : List PlatformPost)
      → filter (is_due t s) (map (copied_channel now post_id key) rows) ≡ []
  unfolding is_due is
  copies_wait t s [] = refl
  copies_wait t s (q ∷ rows) = copies_wait t s rows

  module _ (author : Option ℕ) (post : Post) (s : Store) where
    abbrev cloned : Store
    cloned = clone_post now post_id key author post s

    held_kept :
        (k : ℕ)
        → (post_id == k) ≡ false
        → is_held k cloned.platform_posts ≡ is_held k s.platform_posts
    unfolding is_held clone_post
    held_kept k e = ap (any (λ q. is q.status on_hold)) (
        filter-append (λ q. q.post_id == k) s.platform_posts _
        ∙ ap (λ ys. children k s.platform_posts ++ ys)
            (copies_apart k (children post.id s.platform_posts) e)
        ∙ append-nil (children k s.platform_posts))

    time_kept :
        (q : PlatformPost)
        → (post_id == q.post_id) ≡ false
        → effective_at cloned q ≡ effective_at s q
    unfolding effective_at clone_post
    time_kept q e =
        ap (λ o. or_else q.scheduled_at (column_of o))
          (find-append q.post_id s.posts (copied_post now post_id author post) e)

    due_kept :
        (t : ℕ) (q : PlatformPost)
        → (post_id == q.post_id) ≡ false
        → is_due t cloned q ≡ is_due t s q
    unfolding is_due
    due_kept t q e = rw (time_kept q e, held_kept q.post_id e) refl

    all_due_kept :
        (t : ℕ) (rows : List PlatformPost)
        → any (λ q. post_id == q.post_id) rows ≡ false
        → filter (is_due t cloned) rows ≡ filter (is_due t s) rows
    all_due_kept t [] e = refl
    all_due_kept t (q ∷ rows) e =
        rw (due_kept t q (ground arith), all_due_kept t rows (ground arith)) refl

    -- A copy under a new key is never due, at any time, and cloning changes nothing about which
    -- channels are.
    pub clone_post-is_due :
        (t : ℕ)
        → any (λ q. post_id == q.post_id) s.platform_posts ≡ false
        → filter
            (is_due t (clone_post now post_id key author post s))
            (clone_post now post_id key author post s).platform_posts
          ≡ filter (is_due t s) s.platform_posts
    unfolding clone_post
    clone_post-is_due t e =
        filter-append (is_due t cloned) s.platform_posts _
        ∙ ap (λ ys. filter (is_due t cloned) s.platform_posts ++ ys)
            (copies_wait t cloned (children post.id s.platform_posts))
        ∙ append-nil (filter (is_due t cloned) s.platform_posts)
        ∙ all_due_kept t s.platform_posts e
