-- ===== src/Calendar/Prioritize/Movers.antt =====
-- Which entries `prioritize` may move (brightbean-studio/apps/calendar/services.py).
use bright_bean_paysys.Common.{
  ℕ, ◌≡◌, ◌≢◌, refl, inl, inr, true, false, not, ◌&&◌, Option, none, some, List, [], ◌∷◌, map, Memᴰ,
  arith, ◌==◌, ==_iff, All, Bool-cases,
}
use mathlib.Core.List.Memᴰ.{head, tail}
use bright_bean_paysys.Common.Lookup.{Memᴰ-of_filter, find-IsFound}
use bright_bean_paysys.Common.Sorting.{All-order_by}
use bright_bean_paysys.Store.{PlatformPost, Queue, QueueEntry, Store}
use bright_bean_paysys.Calendar.Slots.{is_protected, is_after}
use bright_bean_paysys.Calendar.Queues.{platform_post_for}
use bright_bean_paysys.Calendar.Reorder.{Slotted, with_time}
use bright_bean_paysys.Calendar.Reorder.Dragged.{unprotected}
use bright_bean_paysys.Calendar.Prioritize.{
  Mover, with_index, index_from, movers_of, descending, with_movable, movable_of, movable_entries,
}
use bright_bean_paysys.Calendar.Prioritize.Laws.{IsMover}

All-of_Memᴰ {ℓ κ} :
    {A : Type ℓ} (P : A → Type κ) (xs : List A) → ((x : A) → Memᴰ x xs → P x) → All P xs
All-of_Memᴰ P [] h = tt
All-of_Memᴰ P (x ∷ xs) h = (h x (head refl), All-of_Memᴰ P xs (λ y m. h y (tail m)))

module _ (now post_id : ℕ) (queue : Queue) (s : Store) where
  abbrev May : Slotted → Type 0
  May = IsMover now post_id queue s.queue_entries s.platform_posts

  -- An entry that the query of `prioritize` answers with.
  abbrev IsOther : QueueEntry → Type 0
  IsOther e = Memᴰ e s.queue_entries × (e.queue.id ≡ queue.id) × (e.post_id ≢ post_id)

  channel_of :
      (e : QueueEntry) (p : PlatformPost)
      → platform_post_for e.post_id queue.social_account_id s ≡ some p
      → Memᴰ p s.platform_posts
        × (p.post_id ≡ e.post_id)
        × (p.social_account_id ≡ queue.social_account_id)
  unfolding platform_post_for
  channel_of e p f =
      let (m, t) = find-IsFound _ s.platform_posts p f in
      (
        m,
        grind (arith, ==_iff p.post_id e.post_id),
        grind (arith, ==_iff p.social_account_id queue.social_account_id),
      )

  timed-IsMover :
      (e : QueueEntry) (p : PlatformPost) (t : Option ℕ) (rest : List Slotted)
      → IsOther e
      → platform_post_for e.post_id queue.social_account_id s ≡ some p
      → is_protected p ≡ false
      → p.scheduled_at ≡ t
      → is_after now t ≡ true
      → All May rest
      → All May (with_time e p t rest)
  timed-IsMover e p none rest o f h d l a = a
  timed-IsMover e p (some t) rest o f h d l a =
      let (m, post, account) = channel_of e p f in
      let (one, two) = unprotected p h in
      (
        record {
          entry = o.0;
          of_queue = o.1;
          of_other = o.2;
          stored = m;
          of_post = post;
          of_account = account;
          time = d;
          upcoming = ground arith;
          unpublished = one;
          not_publishing = two;
        },
        a,
      )

  with_movable-IsMover :
      (e : QueueEntry) (o : Option PlatformPost) (rest : List Slotted)
      → IsOther e
      → platform_post_for e.post_id queue.social_account_id s ≡ o
      → All May rest
      → All May (with_movable now e o rest)
  with_movable-IsMover e none rest other f a = a
  with_movable-IsMover e (some p) rest other f a = elim (Bool-cases (is_protected p)) [
    | inl h ↦ rw h a
    | inr h ↦ elim (Bool-cases (is_after now p.scheduled_at)) [
      | inl l ↦ rw (h, l) (timed-IsMover e p p.scheduled_at rest other f h refl l a)
      | inr l ↦ rw (h, l) a
    ]
  ]

  movable_of-IsMover : (es : List QueueEntry) → All IsOther es → All May (movable_of now queue s es)
  unfolding movable_of
  movable_of-IsMover [] a = tt
  movable_of-IsMover (e ∷ es) a =
      with_movable-IsMover e _ (movable_of now queue s es) a.0 refl (movable_of-IsMover es a.1)

  other_of :
      (e : QueueEntry)
      → Memᴰ e s.queue_entries
      → (e.queue.id == queue.id && not (e.post_id == post_id)) ≡ true
      → IsOther e
  other_of e m t =
      (m, grind (arith, ==_iff e.queue.id queue.id), λ c. ground (arith, ==_iff e.post_id post_id))

  pub movable_entries-IsMover : All May (movable_entries now post_id queue s)
  unfolding movable_entries
  movable_entries-IsMover = movable_of-IsMover _ (
      All-order_by IsOther (λ e. e.position) _
        (All-of_Memᴰ IsOther _ (λ e m.
          let (stored, t) =
            Memᴰ-of_filter (λ e. e.queue.id == queue.id && not (e.post_id == post_id)) e
              s.queue_entries m in
          other_of e stored t)))

-- The movers of entries with a property have it.
indexed_all :
    (P : Slotted → Type 0) (x : Slotted) (i : Option ℕ) (rest : List Mover)
    → P x
    → All (λ m. P m.who) rest
    → All (λ m. P m.who) (with_index x i rest)
indexed_all P x none rest p a = a
indexed_all P x (some i) rest p a = (p, a)

movers_all :
    (P : Slotted → Type 0) (candidates : List ℕ) (xs : List Slotted)
    → All P xs
    → All (λ m. P m.who) (movers_of candidates xs)
unfolding movers_of
movers_all P candidates [] a = tt
movers_all P candidates (x ∷ xs) a =
    indexed_all P x (index_from x.held 0 candidates) _ a.0 (movers_all P candidates xs a.1)

who_all :
    (P : Slotted → Type 0) (ms : List Mover) → All (λ m. P m.who) ms → All P (map (λ m. m.who) ms)
who_all P [] a = tt
who_all P (m ∷ ms) a = (a.0, who_all P ms a.1)

pub climbing_all :
    (P : Slotted → Type 0) (candidates : List ℕ) (xs : List Slotted)
    → All P xs
    → All P (map (λ m. m.who) (descending candidates (movers_of candidates xs)))
unfolding descending
climbing_all P candidates xs a =
    who_all P _ (All-order_by (λ m. P m.who) _ _ (movers_all P candidates xs a))
