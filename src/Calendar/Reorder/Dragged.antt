-- ===== src/Calendar/Reorder/Dragged.antt =====
-- Which entries a reordering moves (brightbean-studio/apps/calendar/services.py).
use bright_bean_paysys.Common.{
  ℕ, ◌≡◌, ◌≢◌, true, false, ◌&&◌, find, refl, sym, ◌∙◌, subst, Option, none, some, List, [], ◌∷◌,
  arith, ◌==◌, if◌then◌else◌, Bool-cases, inl, inr,
}
use bright_bean_paysys.Store.{PlatformPost, Queue, QueueEntry, Store}
use bright_bean_paysys.Calendar.Queues.{platform_post_for, is_history}
use bright_bean_paysys.Calendar.Slots.{is_protected}
use bright_bean_paysys.Composer.Status.{published, publishing, is_iff}
use mathlib.Core.Option.{some_inj}
use bright_bean_paysys.Calendar.Reorder.{
  Placed, Slotted, ordered_entries, slotted_entries, with_channel, with_time,
}

-- The entry of the queue with a key that a reordering may move: with its channel, which is neither
-- published nor being published, and the time that this channel has.
pub record IsMovable (queue : Queue) (s : Store) (k : ℕ) (x : Slotted) : Type 0 where
  pub entry : find (λ e. e.queue.id == queue.id && e.id == k) s.queue_entries ≡ some x.entry
  pub channel : platform_post_for x.entry.post_id queue.social_account_id s ≡ some x.channel
  pub unpublished : x.channel.status ≢ published
  pub not_publishing : x.channel.status ≢ publishing
  pub time : x.channel.scheduled_at ≡ some x.held

-- The entries of some keys that may move, in the order of the keys and none left out.
pub data Dragged (queue : Queue) (s : Store) : List ℕ → List Slotted → Type 0 where
  none_left : Dragged queue s [] []
  moving :
      {k : ℕ} {ks : List ℕ} {x : Slotted} {xs : List Slotted}
      → IsMovable queue s k x
      → Dragged queue s ks xs
      → Dragged queue s (k ∷ ks) (x ∷ xs)
  left_out :
      {k : ℕ} {ks : List ℕ} {xs : List Slotted}
      → ((x : Slotted) → IsMovable queue s k x → ⊥)
      → Dragged queue s ks xs
      → Dragged queue s (k ∷ ks) xs

pub unprotected :
    (p : PlatformPost) → is_protected p ≡ false → (p.status ≢ published) × (p.status ≢ publishing)
unfolding is_protected
unprotected p h = (
  λ c. ground (arith, is_iff p.status published),
  λ c. ground (arith, is_iff p.status publishing),
)

protected_not :
    (p : PlatformPost) → is_protected p ≡ true → p.status ≢ published → p.status ≢ publishing → ⊥
unfolding is_protected
protected_not p h a b = ground (arith, is_iff p.status published, is_iff p.status publishing)

module _ (queue : Queue) (s : Store) (k : ℕ) (ks : List ℕ) (rest : List Placed) where
  Dragged-entry :
      (e : QueueEntry) (o : Option PlatformPost)
      → find (λ e. e.queue.id == queue.id && e.id == k) s.queue_entries ≡ some e
      → platform_post_for e.post_id queue.social_account_id s ≡ o
      → Dragged queue s ks (slotted_entries rest)
      → Dragged queue s (k ∷ ks) (slotted_entries (if is_history o then rest else ((e, o) ∷ rest)))
  unfolding slotted_entries
  Dragged-entry e none f c d =
      left_out
        (λ x m.
          let same : x.entry ≡ e = some_inj.0 (sym m.entry ∙ f) in
          let c' : platform_post_for e.post_id queue.social_account_id s ≡ some x.channel =
            subst (λ y. platform_post_for y.post_id queue.social_account_id s ≡ some x.channel) same
              m.channel in
          cc)
        d
  Dragged-entry e (some p) f c d = elim (Bool-cases (is_protected p)) [
    | inl h ↦ rw h (
        left_out
          (λ x m.
            let same_channel = channel_of x m in
            protected_not p h (subst (λ q. q.status ≢ published) same_channel m.unpublished)
              (subst (λ q. q.status ≢ publishing) same_channel m.not_publishing))
          d)
    | inr h ↦ rw h (timed p.scheduled_at refl h)
  ]
    where
      channel_of : (x : Slotted) → IsMovable queue s k x → x.channel ≡ p
      channel_of x m =
          let same : x.entry ≡ e = some_inj.0 (sym m.entry ∙ f) in
          some_inj.0 (
            sym (
              subst (λ y. platform_post_for y.post_id queue.social_account_id s ≡ some x.channel)
                same m.channel)
            ∙ c)

      timed :
          (t : Option ℕ)
          → p.scheduled_at ≡ t
          → is_protected p ≡ false
          → Dragged queue s (k ∷ ks) (with_time e p t (slotted_entries rest))
      timed none n h =
          left_out
            (λ x m.
              let n' : p.scheduled_at ≡ some x.held =
                subst (λ q. q.scheduled_at ≡ some x.held) (channel_of x m) m.time in
              cc)
            d
      timed (some t) n h =
          moving
            (record {
              entry = f;
              channel = c;
              unpublished = (unprotected p h).0;
              not_publishing = (unprotected p h).1;
              time = n;
            })
            d

  Dragged-one :
      (o : Option QueueEntry)
      → find (λ e. e.queue.id == queue.id && e.id == k) s.queue_entries ≡ o
      → Dragged queue s ks (slotted_entries rest)
      → Dragged queue s (k ∷ ks) (slotted_entries (with_channel queue s o rest))
  Dragged-one none f d = left_out (λ x m. let m' = m.entry in cc) d
  Dragged-one (some e) f d = Dragged-entry e _ f refl d

pub ordered_entries-Dragged :
    (queue : Queue) (s : Store) (ids : List ℕ)
    → Dragged queue s ids (slotted_entries (ordered_entries queue s ids))
unfolding ordered_entries slotted_entries
ordered_entries-Dragged queue s [] = none_left
ordered_entries-Dragged queue s (k ∷ ks) =
    Dragged-one queue s k ks (ordered_entries queue s ks) _ refl
      (ordered_entries-Dragged queue s ks)
