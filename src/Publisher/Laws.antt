-- ===== src/Publisher/Laws.antt =====
-- How often the engine tries, and what an attempt leaves behind
-- (brightbean-studio/apps/publisher/engine.py).
use bright_bean_paysys.Common.{
  ℕ, ◌+◌, ◌≤◌, ◌<◌, ◌≡◌, refl, ◌⊎◌, inl, inr, Bool, true, false, ◌&&◌, some, List, [], ◌∷◌, arith,
  All, Bool-cases, filter, any, is_empty, ◌==◌, length,
}
use bright_bean_paysys.Common.Rows.{All-update_where}
use bright_bean_paysys.Store.{PlatformPost, Store, children}
use bright_bean_paysys.Composer.Status.{scheduled, published, failed, publishing, is}
use bright_bean_paysys.Publisher.Attempt.{
  Outcome, success, failure, raised, max_retries, backoff_seconds, attempted, publish_platform_post,
  is_blocked, succeeded, after_success,
}
use bright_bean_paysys.Publisher.Engine.{
  get_due_platform_posts, group_posts, when_success, retrying, save_retrying, publish_all, claimed,
  mark_publishing, publish_post_group, retry_one, retry_all, process_retries, publish_groups,
  poll_and_publish, is_held, sync_parent_published_at,
}

abbrev pub IsBounded : PlatformPost → Type 0
IsBounded pp = pp.retry_count ≤ max_retries

-- A retryable failure, as the rate limit is.
abbrev pub is_retryable : Bool → Outcome → Bool
is_retryable true _ = true
is_retryable false (success _ _ _) = false
is_retryable false (failure _ _) = true
is_retryable false (raised _ b) = b

-- An attempt ends: the row is published, waits with one more retry, or has failed for good; it
-- fails for good exactly when the failure is not retryable or no retry is left.
attempted-ends :
    (now : ℕ) (blocked : Bool) (outcome : Outcome) (pp : PlatformPost)
    → IsBounded pp
    → let r = attempted now blocked outcome pp in
      ((succeeded blocked outcome ≡ true)
        × (r.status ≡ published)
        × (r.published_at ≡ some now)
        × (r.retry_count ≡ pp.retry_count))
      ⊎ ((is_retryable blocked outcome ≡ true)
          × (pp.retry_count < max_retries)
          × (r.status ≡ scheduled)
          × (r.retry_count ≡ pp.retry_count + 1)
          × (r.next_retry_at ≡ some (now + backoff_seconds pp.retry_count)))
      ⊎ ((r.status ≡ failed)
          × (r.retry_count ≡ pp.retry_count)
          × (succeeded blocked outcome ≡ false)
          × ((is_retryable blocked outcome ≡ false) ⊎ (pp.retry_count ≡ max_retries)))
unfolding attempted
attempted-ends now blocked outcome pp h = ground arith

attempted-IsBounded :
    (now : ℕ) (blocked : Bool) (outcome : Outcome) (pp : PlatformPost)
    → IsBounded pp
    → IsBounded (attempted now blocked outcome pp)
attempted-IsBounded now blocked outcome pp h =
    ground (arith, attempted-ends now blocked outcome pp h)

-- Attempts in a row, each with its time, the state of the rate limit and its outcome.
unfoldable pub attempts : List (ℕ × Bool × Outcome) → PlatformPost → PlatformPost
attempts [] pp = pp
attempts ((now, blocked, outcome) ∷ xs) pp = attempts xs (attempted now blocked outcome pp)

abbrev pub AllRetryable : List (ℕ × Bool × Outcome) → Type 0
AllRetryable [] = Unit
AllRetryable ((_, blocked, outcome) ∷ xs) = (is_retryable blocked outcome ≡ true) × AllRetryable xs

retryable_last :
    (now : ℕ) (blocked : Bool) (outcome : Outcome) (pp : PlatformPost)
    → is_retryable blocked outcome ≡ true
    → pp.retry_count ≡ max_retries
    → ((attempted now blocked outcome pp).status ≡ failed)
      × ((attempted now blocked outcome pp).retry_count ≡ max_retries)
unfolding attempted
retryable_last now blocked outcome pp r e = ground arith

retryable_again :
    (now : ℕ) (blocked : Bool) (outcome : Outcome) (pp : PlatformPost)
    → is_retryable blocked outcome ≡ true
    → pp.retry_count < max_retries
    → (attempted now blocked outcome pp).retry_count ≡ pp.retry_count + 1
unfolding attempted
retryable_again now blocked outcome pp r e = ground arith

-- As many retryable failures as a row has retries left, and one more, fail it for good, with all
-- three retries counted.
pub attempts_exhaust :
    (xs : List (ℕ × Bool × Outcome)) (pp : PlatformPost)
    → AllRetryable xs
    → pp.retry_count + length xs ≡ max_retries + 1
    → IsBounded pp
    → ((attempts xs pp).status ≡ failed) × ((attempts xs pp).retry_count ≡ max_retries)
unfolding attempts
attempts_exhaust [] pp r e b = absurd (omega arith)
attempts_exhaust ((now, blocked, outcome) ∷ []) pp r e b =
    retryable_last now blocked outcome pp r.0 (omega arith)
attempts_exhaust ((now, blocked, outcome) ∷ x ∷ xs) pp r e b =
    let again = retryable_again now blocked outcome pp r.0 (omega arith) in
    attempts_exhaust (x ∷ xs) (attempted now blocked outcome pp) r.1 (omega arith) (omega arith)

pub filter-All :
    (P : PlatformPost → Type 0) (p : PlatformPost → Bool) (qs : List PlatformPost)
    → All P qs
    → All P (filter p qs)
filter-All P p [] h = tt
filter-All P p (q ∷ qs) h = elim (Bool-cases (p q)) [
  | inl e ↦ rw e (h.0, filter-All P p qs h.1)
  | inr e ↦ rw e (filter-All P p qs h.1)
]

-- Every row of the table is within its retries.
abbrev pub Bounded : Store → Type 0
Bounded s = All IsBounded s.platform_posts

pub after_success-rows :
    (blocked : Bool) (outcome : Outcome) (pp : PlatformPost) (s : Store)
    → (after_success blocked outcome pp s).platform_posts ≡ s.platform_posts
unfolding after_success
after_success-rows true outcome pp s = refl
after_success-rows false (success _ _ _) pp s = refl
after_success-rows false (failure _ _) pp s = refl
after_success-rows false (raised _ _) pp s = refl

publish_platform_post-Bounded :
    (now : ℕ) (dispatch : PlatformPost → Outcome) (pp : PlatformPost) (s : Store)
    → IsBounded pp
    → Bounded s
    → Bounded (publish_platform_post now dispatch pp s).1
unfolding publish_platform_post
publish_platform_post-Bounded now dispatch pp s b h =
    let row = attempted now (is_blocked now pp s) (dispatch pp) pp in
    rw after_success-rows (
      All-update_where IsBounded (λ q. q.id == pp.id) (λ _. row)
        (λ q _ _. attempted-IsBounded now (is_blocked now pp s) (dispatch pp) pp b) s.platform_posts
        h)

publish_all-Bounded :
    (now : ℕ) (dispatch : PlatformPost → Outcome) (pps : List PlatformPost) (s : Store)
    → All IsBounded pps
    → Bounded s
    → Bounded (publish_all now dispatch pps s)
unfolding publish_all
publish_all-Bounded now dispatch [] s b h = h
publish_all-Bounded now dispatch (pp ∷ pps) s b h =
    publish_all-Bounded now dispatch pps _ b.1
      (publish_platform_post-Bounded now dispatch pp s b.0 h)

claimed-IsBounded : (k : ℕ) (ids : List ℕ) (s : Store) → Bounded s → All IsBounded (claimed k ids s)
unfolding claimed
claimed-IsBounded k ids s h =
    filter-All IsBounded (λ q. any (λ j. j == q.id) ids && is q.status scheduled)
      (children k s.platform_posts) (filter-All IsBounded (λ q. q.post_id == k) s.platform_posts h)

mark_publishing-Bounded :
    (pps : List PlatformPost) (s : Store) → Bounded s → Bounded (mark_publishing pps s)
unfolding mark_publishing
mark_publishing-Bounded pps s h =
    All-update_where IsBounded (λ q. any (λ pp. pp.id == q.id) pps)
      (λ q. record q { status = publishing }) (λ q _ b. b) s.platform_posts h

publish_post_group-Bounded :
    (now : ℕ) (dispatch : PlatformPost → Outcome) (k : ℕ) (ids : List ℕ) (s : Store)
    → Bounded s
    → Bounded (publish_post_group now dispatch k ids s)
unfolding publish_post_group
publish_post_group-Bounded now dispatch k ids s h =
    let pps = claimed k ids s in
    elim (Bool-cases (is_held k s.platform_posts)) [
      | inl e ↦ rw e h
      | inr e ↦ elim (Bool-cases (is_empty pps)) [
        | inl f ↦ rw (e, f) h
        | inr f ↦
            rw (e, f)
              (publish_all-Bounded now dispatch pps (mark_publishing pps s)
                (claimed-IsBounded k ids s h) (mark_publishing-Bounded pps s h))
      ]
    ]

publish_groups-Bounded :
    (now : ℕ) (dispatch : PlatformPost → Outcome) (due : List PlatformPost) (ks : List ℕ)
    (s : Store)
    → Bounded s
    → Bounded (publish_groups now dispatch due ks s)
unfolding publish_groups
publish_groups-Bounded now dispatch due [] s h = h
publish_groups-Bounded now dispatch due (k ∷ ks) s h =
    publish_groups-Bounded now dispatch due ks _ (publish_post_group-Bounded now dispatch k _ s h)

when_success-Bounded :
    (done : Bool) (now k : ℕ) (s : Store)
    → Bounded s
    → Bounded (when_success done (sync_parent_published_at now k) s)
unfolding sync_parent_published_at
when_success-Bounded true now k s h = h
when_success-Bounded false now k s h = h

retry_one-Bounded :
    (now : ℕ) (dispatch : PlatformPost → Outcome) (pp : PlatformPost) (s : Store)
    → IsBounded pp
    → Bounded s
    → Bounded (retry_one now dispatch pp s)
unfolding retry_one
retry_one-Bounded now dispatch pp s b h = elim (Bool-cases (is_held pp.post_id s.platform_posts)) [
  | inl e ↦ rw e h
  | inr e ↦
      let row = retrying now pp in
      let saved = save_retrying now pp s in
      let marked : Bounded saved =
        All-update_where IsBounded (λ q. q.id == pp.id) (retrying now) (λ q _ c. c) s.platform_posts
          h in
      let after = publish_platform_post now dispatch row saved in
      rw e (
        when_success-Bounded after.0 now pp.post_id after.1
          (publish_platform_post-Bounded now dispatch row saved b marked))
]

retry_all-Bounded :
    (now : ℕ) (dispatch : PlatformPost → Outcome) (pps : List PlatformPost) (s : Store)
    → All IsBounded pps
    → Bounded s
    → Bounded (retry_all now dispatch pps s)
unfolding retry_all
retry_all-Bounded now dispatch [] s b h = h
retry_all-Bounded now dispatch (pp ∷ pps) s b h =
    retry_all-Bounded now dispatch pps _ b.1 (retry_one-Bounded now dispatch pp s b.0 h)

-- A poll never takes a channel past its three retries, whatever the platforms answer.
pub poll_and_publish-Bounded :
    (now : ℕ) (dispatch : PlatformPost → Outcome) (s : Store)
    → Bounded s
    → Bounded (poll_and_publish now dispatch s)
unfolding poll_and_publish
poll_and_publish-Bounded now dispatch s h =
    let due = get_due_platform_posts now s in
    let t = publish_groups now dispatch due (group_posts due) s in
    let b = publish_groups-Bounded now dispatch due (group_posts due) s h in
    unfold process_retries in
    retry_all-Bounded now dispatch _ t (filter-All IsBounded _ t.platform_posts b) b
