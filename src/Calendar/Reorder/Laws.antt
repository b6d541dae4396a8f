-- ===== src/Calendar/Reorder/Laws.antt =====
-- What a reordering of a queue does to the channels (brightbean-studio/apps/calendar/services.py).
use bright_bean_paysys.Common.{
  ℕ, suc, ◌≡◌, refl, sym, ◌∙◌, ap, subst, Option, none, some, List, [], ◌∷◌, ◌++◌, map, arith, ◌==◌,
  if◌then◌else◌, length, Bool-cases, inl, inr, Permᴰ,
}
use bright_bean_paysys.Common.Rows.{Rows, Rows-refl, Rows-compose, update_where}
use bright_bean_paysys.Common.Sorting.{
  order_by, order_by-Permᴰ, IsSortedBy, order_by-IsSortedBy, length-order_by,
}
use bright_bean_paysys.Store.{PlatformPost, Queue, QueueEntry, Store}
use bright_bean_paysys.Composer.Services.{or_else}
use bright_bean_paysys.Calendar.Queues.{write_slot, at_slot}
use bright_bean_paysys.Calendar.Reorder.Dragged.{Dragged, ordered_entries-Dragged}
use bright_bean_paysys.Calendar.Reorder.{
  Placed, Slotted, ordered_entries, slotted_entries, sorted_slots, write_slots, write_positions,
  reorder_queue, at_position,
}

-- The slot that the last of some writes gives to the channel with key `k`.
abbrev pub slot_for : ℕ → List (ℕ × ℕ) → Option ℕ
slot_for k [] = none
slot_for k ((j, t) ∷ ws) = or_else (slot_for k ws) (if k == j then some t else none)

-- How a row changes by the writes: the last slot it is given is its time, and a row that is given
-- none is as it was.
pub record Reslotted (ws : List (ℕ × ℕ)) (q r : PlatformPost) : Type 0 where
  pub same : r ≡ record q { scheduled_at = r.scheduled_at; updated_at = r.updated_at }
  pub time : r.scheduled_at ≡ or_else (slot_for q.id ws) q.scheduled_at
  pub kept : slot_for q.id ws ≡ none → r ≡ q

pub Reslotted-refl : (q : PlatformPost) → Reslotted [] q q
Reslotted-refl q = record { same = refl; time = refl; kept = λ _. refl }

pub one_write :
    (now k t : ℕ) (rows : List PlatformPost)
    → Rows (Reslotted ((k, t) ∷ [])) rows (update_where (λ q. q.id == k) (at_slot now t) rows)
one_write now k t [] = tt
one_write now k t (q ∷ rows) = elim (Bool-cases (q.id == k)) [
  | inl e ↦ rw e (
    record { same = refl; time = rw e refl; kept = λ n. let n' = rw e at n in cc },
    one_write now k t rows,
  )
  | inr e ↦
      rw e (record { same = refl; time = rw e refl; kept = λ _. refl }, one_write now k t rows)
]

or_else_assoc : (a b c : Option ℕ) → or_else a (or_else b c) ≡ or_else (or_else a b) c
or_else_assoc none b c = refl
or_else_assoc (some t) b c = refl

or_else_right : (a : Option ℕ) → or_else a none ≡ a
or_else_right none = refl
or_else_right (some t) = refl

or_else-none : (a b : Option ℕ) → or_else a b ≡ none → (a ≡ none) × (b ≡ none)
or_else-none none b e = (refl, e)
or_else-none (some t) b e = cc

slot_for-append :
    (k : ℕ) (vs ws : List (ℕ × ℕ)) → slot_for k (vs ++ ws) ≡ or_else (slot_for k ws) (slot_for k vs)
slot_for-append k [] ws = sym (or_else_right (slot_for k ws))
slot_for-append k ((j, t) ∷ vs) ws =
    ap (λ o. or_else o (if k == j then some t else none)) (slot_for-append k vs ws)
    ∙ sym (or_else_assoc (slot_for k ws) (slot_for k vs) (if k == j then some t else none))

pub Reslotted-append :
    (vs ws : List (ℕ × ℕ)) (p q r : PlatformPost)
    → Reslotted vs p q
    → Reslotted ws q r
    → Reslotted (vs ++ ws) p r
Reslotted-append vs ws p q r a b =
    let i = ap (λ x. x.id) a.same in
    let time_b = subst (λ j. r.scheduled_at ≡ or_else (slot_for j ws) q.scheduled_at) i b.time in
    let kept_b = subst (λ j. slot_for j ws ≡ none → r ≡ q) i b.kept in
    let split = slot_for-append p.id vs ws in
    record {
      same = ground (arith, a.same, b.same);
      time =
          time_b
          ∙ ap (or_else (slot_for p.id ws)) a.time
          ∙ or_else_assoc (slot_for p.id ws) (slot_for p.id vs) p.scheduled_at
          ∙ ap (λ o. or_else o p.scheduled_at) (sym split);
      kept = λ n.
          let (w, v) = or_else-none (slot_for p.id ws) (slot_for p.id vs) (sym split ∙ n) in
          kept_b w ∙ a.kept v;
    }

abbrev pub zip : List Slotted → List ℕ → List (ℕ × ℕ)
zip (x ∷ xs) (t ∷ ts) = (x.channel.id, t) ∷ zip xs ts
zip _ _ = []

map-zip :
    (xs : List Slotted) (ts : List ℕ)
    → length ts ≡ length xs
    → (map {B = ℕ} (λ w. w.0) (zip xs ts) ≡ map (λ x. x.channel.id) xs)
      × (map {B = ℕ} (λ w. w.1) (zip xs ts) ≡ ts)
map-zip [] [] e = (refl, refl)
map-zip [] (t ∷ ts) e = absurd (ground arith)
map-zip (x ∷ xs) [] e = absurd (ground arith)
map-zip (x ∷ xs) (t ∷ ts) e =
    let (k, l) = map-zip xs ts (ground arith) in
    (ap (λ ys. x.channel.id ∷ ys) k, ap (λ ys. t ∷ ys) l)

pub write_slots-Reslotted :
    (now : ℕ) (queue : Queue) (xs : List Slotted) (ts : List ℕ) (s : Store)
    → Rows (Reslotted (zip xs ts)) s.platform_posts (write_slots now queue xs ts s).platform_posts
unfolding write_slots write_slot
write_slots-Reslotted now queue [] ts s = Rows-refl (Reslotted []) Reslotted-refl s.platform_posts
write_slots-Reslotted now queue (x ∷ xs) [] s =
    Rows-refl (Reslotted []) Reslotted-refl s.platform_posts
write_slots-Reslotted now queue (x ∷ xs) (t ∷ ts) s =
    Rows-compose (Reslotted ((x.channel.id, t) ∷ [])) (Reslotted (zip xs ts))
      (Reslotted ((x.channel.id, t) ∷ zip xs ts))
      (Reslotted-append ((x.channel.id, t) ∷ []) (zip xs ts)) _ _ _
      (one_write now x.channel.id t s.platform_posts)
      (write_slots-Reslotted now queue xs ts
        (write_slot now x.entry.post_id queue (some x.channel) t s))

at_position_rows :
    (idx : ℕ) (e : QueueEntry) (s : Store) → (at_position idx e s).platform_posts ≡ s.platform_posts
at_position_rows idx e s = elim (Bool-cases (e.position == idx)) [
  | inl c ↦ rw c refl
  | inr c ↦ rw c refl
]

length-map : (xs : List Slotted) → length (map (λ x. x.held) xs) ≡ length xs
length-map [] = refl
length-map (x ∷ xs) = ap suc (length-map xs)

write_positions_rows :
    (idx : ℕ) (ps : List Placed) (s : Store)
    → (write_positions idx ps s).platform_posts ≡ s.platform_posts
unfolding write_positions
write_positions_rows idx [] s = refl
write_positions_rows idx ((e, p) ∷ ps) s =
    write_positions_rows (suc idx) ps (at_position idx e s) ∙ at_position_rows idx e s

-- Of the entries of a queue with the dragged keys those move, in that order and all of them, that
-- have a channel with a time which is neither published nor being published. A reordering writes one
-- slot for each: the slots ascend and are the times that these channels had. A channel has the last
-- slot that is written for it, with its status kept, and every other channel is as it was.
pub reorder_queue-Reslotted :
    (now : ℕ) (queue : Queue) (ids : List ℕ) (s : Store)
    → (xs : List Slotted) × Dragged queue s ids xs
      × (ws : List (ℕ × ℕ)) × (map {B = ℕ} (λ w. w.0) ws ≡ map (λ x. x.channel.id) xs)
      × IsSortedBy (λ t. t) (map {B = ℕ} (λ w. w.1) ws)
      × Permᴰ (map {B = ℕ} (λ w. w.1) ws) (map (λ x. x.held) xs)
      × Rows (Reslotted ws) s.platform_posts (reorder_queue now queue ids s).platform_posts
unfolding reorder_queue sorted_slots
reorder_queue-Reslotted now queue ids s =
    let ordered = ordered_entries queue s ids in
    let xs = slotted_entries ordered in
    let held = map (λ x. x.held) xs in
    let ts = order_by (λ t. t) held in
    let (k, l) = map-zip xs ts (length-order_by (λ t. t) held ∙ length-map xs) in
    let written = write_slots now queue xs ts s in
    (
      xs,
      ordered_entries-Dragged queue s ids,
      zip xs ts,
      k,
      subst (IsSortedBy (λ t. t)) (sym l) (order_by-IsSortedBy (λ t. t) held),
      subst (λ us. Permᴰ us held) (sym l) (order_by-Permᴰ (λ t. t) held),
      subst (Rows (Reslotted (zip xs ts)) s.platform_posts)
          (sym (write_positions_rows 0 ordered written)) (write_slots-Reslotted now queue xs ts s),
    )
