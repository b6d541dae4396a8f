-- ===== src/Calendar/Prioritize/Laws.antt =====
-- What `prioritize` does to the channels (brightbean-studio/apps/calendar/services.py).
use bright_bean_paysys.Common.{
  ℕ, suc, ◌<◌, Memᴰ, ◌≡◌, refl, sym, ◌∙◌, ap, subst, true, false, not, Option, none, some, List, [],
  ◌∷◌, ◌++◌, map, arith, ◌==◌, ==_iff, leb, ◌-◌, ◌≢◌, if◌then◌else◌, length, filter, All,
  Bool-cases, Option-cases, inl, inr,
}
use bright_bean_paysys.Common.Rows.{Rows, Rows-refl}
use bright_bean_paysys.Common.Sorting.{insert_by, order_by}
use bright_bean_paysys.Store.{PlatformPost, Queue, QueueEntry, Store}
use bright_bean_paysys.Composer.Status.{published, publishing}
use bright_bean_paysys.Calendar.Occupied.{Occupant, occupied_iff}
use bright_bean_paysys.Calendar.Slots.{mem, occupied_datetimes}
use bright_bean_paysys.Calendar.Gaps.{IsDistinct}
use bright_bean_paysys.Calendar.Queues.{own_id, write_slot}
use bright_bean_paysys.Calendar.Reorder.{Slotted}
use bright_bean_paysys.Calendar.Reorder.Laws.{Reslotted, Reslotted-refl, one_write, zip}
use bright_bean_paysys.Calendar.Prioritize.{Mover, index_from, movers_of, descending, avoided}

-- `t` is not in the list, or was the time of one of the entries that move.
abbrev pub VacantIn : List ℕ → List Slotted → ℕ → Type 0
VacantIn occupied moved t = mem t occupied ≡ true → mem t (map (λ x. x.held) moved) ≡ true

-- No stored row but the excluded ones waits for `t` on the channel, or `t` was the time of one of the
-- entries that move.
abbrev pub IsVacant : ℕ → ℕ → List ℕ → Store → List Slotted → ℕ → Type 0
IsVacant now account exclude s moved t =
    (q : PlatformPost)
    → Memᴰ q s.platform_posts
    → Occupant now account exclude t q
    → mem t (map (λ x. x.held) moved) ≡ true

pub VacantIn-IsVacant :
    (now account : ℕ) (exclude : List ℕ) (s : Store) (moved : List Slotted) (t : ℕ)
    → VacantIn (occupied_datetimes now account exclude s) moved t
    → IsVacant now account exclude s moved t
VacantIn-IsVacant now account exclude s moved t f q m o =
    f ((occupied_iff now account exclude t s).1 (q, m, o))

-- An entry that may move: one of the queue for another post, whose stored channel waits for the time
-- that is noted, to come, and is neither published nor being published.
pub record IsMover (now post_id : ℕ) (queue : Queue) (entries : List QueueEntry)
    (rows : List PlatformPost) (x : Slotted) : Type 0 where
  pub entry : Memᴰ x.entry entries
  pub of_queue : x.entry.queue.id ≡ queue.id
  pub of_other : x.entry.post_id ≢ post_id
  pub stored : Memᴰ x.channel rows
  pub of_post : x.channel.post_id ≡ x.entry.post_id
  pub of_account : x.channel.social_account_id ≡ queue.social_account_id
  pub time : x.channel.scheduled_at ≡ some x.held
  pub upcoming : now < x.held
  pub unpublished : x.channel.status ≢ published
  pub not_publishing : x.channel.status ≢ publishing

abbrev pub own_write : Option PlatformPost → ℕ → List (ℕ × ℕ)
own_write none t = []
own_write (some pp) t = (pp.id, t) ∷ []

-- The entries that move, with a slot for each, and the slot of the post.
pub record IsPlaced (now post_id : ℕ) (queue : Queue) (entries : List QueueEntry)
    (pp : Option PlatformPost) (s s' : Store) : Type 0 where
  pub moved : List Slotted
  pub slots : List ℕ
  pub first : ℕ
  pub movers : All (IsMover now post_id queue entries s.platform_posts) moved
  pub for_each : length slots ≡ length moved
  pub distinct : IsDistinct (first ∷ slots)
  pub vacant : All (IsVacant now queue.social_account_id (own_id pp) s moved) (first ∷ slots)
  pub rows :
      Rows (Reslotted (zip moved slots ++ own_write pp first)) s.platform_posts s'.platform_posts

pub write_slot-Reslotted :
    (now post_id : ℕ) (queue : Queue) (pp : Option PlatformPost) (t : ℕ) (s : Store)
    → Rows
        (Reslotted (own_write pp t))
        s.platform_posts
        (write_slot now post_id queue pp t s).platform_posts
unfolding write_slot
write_slot-Reslotted now post_id queue none t s =
    Rows-refl (Reslotted []) Reslotted-refl s.platform_posts
write_slot-Reslotted now post_id queue (some pp) t s = one_write now pp.id t s.platform_posts

true-false : true ≢ false
true-false e = cc

mem-avoided :
    (t : ℕ) (occupied olds : List ℕ)
    → mem t (filter (λ u. not (mem u olds)) occupied) ≡ false
    → mem t occupied ≡ true
    → mem t olds ≡ true
mem-avoided t [] olds a m = cc
mem-avoided t (u ∷ us) olds a m = elim (Bool-cases (mem u olds)) [
  | inl c ↦
      (let a' = rw c at a in
        elim (Bool-cases (u == t)) [
          | inl e ↦ subst (λ v. mem v olds ≡ true) ((==_iff u t).0 e) c
          | inr e ↦ (let m' = rw e at m in mem-avoided t us olds a' m')
        ])
  | inr c ↦
      (let a' = rw c at a in
        elim (Bool-cases (u == t)) [
          | inl e ↦ (let a'' = rw e at a' in cc)
          | inr e ↦ (let a'' = rw e at a' in let m' = rw e at m in mem-avoided t us olds a'' m')
        ])
]

mem-index_from : (t i : ℕ) (ts : List ℕ) → index_from t i ts ≡ none → mem t ts ≡ false
unfolding index_from
mem-index_from t i [] e = refl
mem-index_from t i (u ∷ us) e = ground (arith, mem-index_from t (suc i) us)

abbrev old_times : List Mover → List ℕ
old_times ms = map (λ m. m.who.held) ms

pub mem-movers_of :
    (t : ℕ) (candidates : List ℕ) (xs : List Slotted)
    → mem t candidates ≡ true
    → mem t (map (λ x. x.held) xs) ≡ true
    → mem t (old_times (movers_of candidates xs)) ≡ true
unfolding movers_of
mem-movers_of t candidates [] c h = h
mem-movers_of t candidates (x ∷ xs) c h = elim (Option-cases (index_from x.held 0 candidates)) [
  | inl n ↦ (elim (Bool-cases (x.held == t)) [
    | inl e ↦
        (let no = mem-index_from x.held 0 candidates n in
          let same = (==_iff x.held t).0 e in
          absurd (true-false (sym c ∙ sym (ap (λ v. mem v candidates) same) ∙ no)))
    | inr e ↦ (let h' = rw e at h in rw n (mem-movers_of t candidates xs c h'))
  ])
  | inr (i, n) ↦ (elim (Bool-cases (x.held == t)) [
    | inl e ↦ rw (n, e) refl
    | inr e ↦ (let h' = rw e at h in rw (n, e) (mem-movers_of t candidates xs c h'))
  ])
]

mem-insert_by :
    (t : ℕ) (key : Mover → ℕ) (m : Mover) (ms : List Mover)
    → mem t (old_times (insert_by key m ms)) ≡ mem t (old_times (m ∷ ms))
unfolding insert_by
mem-insert_by t key m [] = refl
mem-insert_by t key m (n ∷ ms) = elim (Bool-cases (leb (key m) (key n))) [
  | inl e ↦ rw e refl
  | inr e ↦ (let rest = mem-insert_by t key m ms in rw (e, rest) (ground arith))
]

mem-order_by :
    (t : ℕ) (key : Mover → ℕ) (ms : List Mover)
    → mem t (old_times (order_by key ms)) ≡ mem t (old_times ms)
unfolding order_by
mem-order_by t key [] = refl
mem-order_by t key (m ∷ ms) =
    mem-insert_by t key m (order_by key ms)
    ∙ ap (λ b. if m.who.held == t then true else b) (mem-order_by t key ms)

old_times_eq : (ms : List Mover) → map (λ x. x.held) (map (λ m. m.who) ms) ≡ old_times ms
old_times_eq [] = refl
old_times_eq (m ∷ ms) = ap (λ ts. m.who.held ∷ ts) (old_times_eq ms)

pub length-who : (ms : List Mover) → length (map (λ m. m.who) ms) ≡ length ms
length-who [] = refl
length-who (m ∷ ms) = ap suc (length-who ms)

-- A slot that is not avoided is vacant.
pub VacantIn-slot :
    (occupied candidates : List ℕ) (movers : List Mover) (t : ℕ)
    → mem t (avoided occupied movers) ≡ false
    → VacantIn occupied (map (λ m. m.who) (descending candidates movers)) t
unfolding avoided descending
VacantIn-slot occupied candidates movers t a m =
    ap (mem t) (old_times_eq (descending candidates movers))
    ∙ mem-order_by t (λ m. length candidates - m.index) movers
    ∙ mem-avoided t occupied (old_times movers) a m

-- The times of the entries that move are not avoided.
pub avoided_old :
    (t : ℕ) (occupied : List ℕ) (ms : List Mover)
    → mem t (old_times ms) ≡ true
    → mem t (avoided occupied ms) ≡ false
unfolding avoided
avoided_old t [] ms h = refl
avoided_old t (u ∷ us) ms h = elim (Bool-cases (mem u (old_times ms))) [
  | inl c ↦ rw c (avoided_old t us ms h)
  | inr c ↦ (elim (Bool-cases (u == t)) [
    | inl e ↦
        absurd (true-false (sym h ∙ sym (ap (λ v. mem v (old_times ms)) ((==_iff u t).0 e)) ∙ c))
    | inr e ↦ rw (c, e) (avoided_old t us ms h)
  ])
]
