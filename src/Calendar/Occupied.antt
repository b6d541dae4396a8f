-- ===== src/Calendar/Occupied.antt =====
-- The times that `_occupied_datetimes` of brightbean-studio/apps/calendar/services.py collects.
use bright_bean_paysys.Common.{
  ℕ, ◌<◌, ◌≡◌, ◌≢◌, refl, sym, ◌∙◌, ap, ◌↔◌, inl, inr, true, false, not, ◌&&◌, ◌||◌, Option, none,
  some, List, [], ◌∷◌, map, Memᴰ, Memᴰ-filter, arith, ◌==◌, ==_iff, ltb, filter, Bool-cases,
  Option-cases,
}
use mathlib.Core.Option.{some_inj}
use mathlib.Core.List.Memᴰ
use mathlib.Core.List.Memᴰ.{head, tail}
use bright_bean_paysys.Common.Lookup.{Memᴰ-of_filter}
use bright_bean_paysys.Store.{PlatformPost, Store}
use bright_bean_paysys.Composer.Status.{published, publishing, is, is_iff}
use bright_bean_paysys.Composer.Services.{set_values}
use bright_bean_paysys.Calendar.Slots.{is_protected, mem, distinct, occupies, occupied_datetimes}

-- The row holds the instant `t` on the channel: it waits for that time, which is to come, and is
-- neither published nor being published nor one of the excluded rows.
pub record Occupant (now account : ℕ) (exclude : List ℕ) (t : ℕ) (q : PlatformPost) : Type 0 where
  pub channel : q.social_account_id ≡ account
  pub time : q.scheduled_at ≡ some t
  pub upcoming : now < t
  pub unpublished : q.status ≢ published
  pub not_publishing : q.status ≢ publishing
  pub not_own : mem q.id exclude ≡ false

mem-distinct : (t : ℕ) (ts : List ℕ) → mem t (distinct ts) ≡ mem t ts
unfolding distinct
mem-distinct t [] = refl
mem-distinct t (u ∷ ts) = ground (arith, mem-distinct t ts, ==_iff u t)

IsTimeAmong : ℕ → List PlatformPost → Type 0
IsTimeAmong t qs = (q : PlatformPost) × Memᴰ q qs × (q.scheduled_at ≡ some t)

IsTimeAmong-later :
    (t : ℕ) (q : PlatformPost) (qs : List PlatformPost) → IsTimeAmong t qs → IsTimeAmong t (q ∷ qs)
unfolding IsTimeAmong
IsTimeAmong-later t q qs (r, m, e) = (r, tail m, e)

mem-times :
    (t : ℕ) (qs : List PlatformPost)
    → (mem t (set_values (map (λ q. q.scheduled_at) qs)) ≡ true) ↔ IsTimeAmong t qs
unfolding set_values IsTimeAmong
mem-times t [] = (λ h. cc, λ (q, m, e). absurd (Memᴰ.not-nil m))
mem-times t (q ∷ qs) = elim (Option-cases q.scheduled_at) [
  | inl n ↦ (
    λ h. IsTimeAmong-later t q qs ((mem-times t qs).0 (rw n at h)),
    λ (r, m, e). rw n ((mem-times t qs).1 (of_later r m e n)),
  )
  | inr (u, n) ↦ elim (Bool-cases (u == t)) [
    | inl c ↦ (λ h. (q, head refl, n ∙ ap some ((==_iff u t).0 c)), λ h. rw (n, c) refl)
    | inr c ↦ (
      λ h. IsTimeAmong-later t q qs ((mem-times t qs).0 (rw (n, c) at h)),
      λ (r, m, e). rw (n, c) ((mem-times t qs).1 (of_other u r m e n c)),
    )
  ]
]
  where
    of_later :
        (r : PlatformPost)
        → Memᴰ r (q ∷ qs)
        → r.scheduled_at ≡ some t
        → q.scheduled_at ≡ none
        → IsTimeAmong t qs
    of_later r (head d) e n =
        let e' : q.scheduled_at ≡ some t = sym (ap (λ x. x.scheduled_at) d) ∙ e in cc
    of_later r (tail m) e n = (r, m, e)

    of_other :
        (u : ℕ) (r : PlatformPost)
        → Memᴰ r (q ∷ qs)
        → r.scheduled_at ≡ some t
        → q.scheduled_at ≡ some u
        → (u == t) ≡ false
        → IsTimeAmong t qs
    of_other u r (head d) e n c =
        let e' : ◌≡◌ {A = Option ℕ} (some u) (some t) =
          sym n ∙ sym (ap (λ x. x.scheduled_at) d) ∙ e in
        let same = some_inj.0 e' in ground (arith, ==_iff u t)
    of_other u r (tail m) e n c = (r, m, e)

occupies_iff :
    (now account : ℕ) (exclude : List ℕ) (t : ℕ) (q : PlatformPost)
    → q.scheduled_at ≡ some t
    → (occupies now account exclude q ≡ true) ↔ Occupant now account exclude t q
unfolding occupies is_protected
occupies_iff now account exclude t q e = (
  λ h.
      let h' : (q.social_account_id == account
            && ltb now t
            && not (is q.status published || is q.status publishing)
            && not (mem q.id exclude))
          ≡ true =
        rw e at h in
      record {
        channel = grind (arith, ==_iff q.social_account_id account);
        time = e;
        upcoming = ground arith;
        unpublished = λ c. ground (arith, is_iff q.status published);
        not_publishing = λ c. ground (arith, is_iff q.status publishing);
        not_own = ground arith;
      },
  λ o.
      let same = o.channel in
      let soon = o.upcoming in
      let one = o.unpublished in
      let two = o.not_publishing in
      let three = o.not_own in
      rw e (
        ground (
          arith,
          ==_iff q.social_account_id account,
          is_iff q.status published,
          is_iff q.status publishing,
        )),
)

-- A time is occupied exactly when a stored row holds it.
pub occupied_iff :
    (now account : ℕ) (exclude : List ℕ) (t : ℕ) (s : Store)
    → (mem t (occupied_datetimes now account exclude s) ≡ true)
      ↔ ((q : PlatformPost) × Memᴰ q s.platform_posts × Occupant now account exclude t q)
unfolding occupied_datetimes IsTimeAmong
occupied_iff now account exclude t s =
    let rows = filter (occupies now account exclude) s.platform_posts in
    let d = mem-distinct t (set_values (map (λ q. q.scheduled_at) rows)) in
    (
      λ h.
          let (q, m, e) = (mem-times t rows).0 (sym d ∙ h) in
          let (stored, o) = Memᴰ-of_filter (occupies now account exclude) q s.platform_posts m in
          (q, stored, (occupies_iff now account exclude t q e).0 o),
      λ (q, m, o).
          d
          ∙ (mem-times t rows).1 (
            q,
            Memᴰ-filter (occupies now account exclude) q s.platform_posts
                ((occupies_iff now account exclude t q o.time).1 o) m,
            o.time,
          ),
    )
