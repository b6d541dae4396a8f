-- ===== src/Calendar/Gaps.antt =====
-- The search for a free slot (`_next_available_slot` in
-- brightbean-studio/apps/calendar/services.py) looks at few slots and misses none.
use bright_bean_paysys.Common.{
  ℕ, zero, suc, ◌≡◌, refl, ◌≢◌, sym, ◌∙◌, true, false, none, some, List, [], ◌∷◌, arith, ◌==◌,
  ==_iff, if◌then◌else◌, length, Bool-cases, inl, inr,
}
use bright_bean_paysys.Store.{Store}
use bright_bean_paysys.Calendar.Slots.{
  Zone, PostingSlot, horizon, take, mem, first_free, occupied_datetimes, next_available_slot,
}

-- No instant occurs twice in the list.
abbrev pub IsDistinct : List ℕ → Type 0
IsDistinct [] = Unit
IsDistinct (t ∷ ts) = (mem t ts ≡ false) × IsDistinct ts

-- the list without the first occurrence of `t`
without : ℕ → List ℕ → List ℕ
without t [] = []
without t (u ∷ us) = if u == t then us else u ∷ without t us

length-without : (t : ℕ) (us : List ℕ) → mem t us ≡ true → length us ≡ suc (length (without t us))
unfolding without
length-without t [] h = cc
length-without t (u ∷ us) h = ground (arith, length-without t us)

mem-without : (t v : ℕ) (us : List ℕ) → v ≢ t → mem v (without t us) ≡ mem v us
unfolding without
mem-without t v [] ne = refl
mem-without t v (u ∷ us) ne = ground (arith, mem-without t v us)

ne_of_mem : (t v : ℕ) (ts : List ℕ) → mem t ts ≡ false → mem v ts ≡ true → v ≢ t
ne_of_mem t v [] a b = cc
ne_of_mem t v (u ∷ us) a b = ground (arith, ne_of_mem t v us)

-- A search among slots that are not `t` may forget that `t` is taken.
first_free-without :
    (t : ℕ) (us ts : List ℕ) → mem t ts ≡ false → first_free (without t us) ts ≡ first_free us ts
unfolding first_free
first_free-without t us [] h = refl
first_free-without t us (u ∷ ts) h = ground (arith, mem-without t u us, first_free-without t us ts)

mem-take : (t n : ℕ) (ts : List ℕ) → mem t ts ≡ false → mem t (take n ts) ≡ false
mem-take t zero ts h = refl
mem-take t (suc n) [] h = refl
mem-take t (suc n) (u ∷ ts) h = ground (arith, mem-take t n ts)

first_free_taken :
    (t : ℕ) (us ts : List ℕ) → mem t us ≡ true → first_free us (t ∷ ts) ≡ first_free us ts
unfolding first_free
first_free_taken t us ts h = rw h

first_free_new : (t : ℕ) (us ts : List ℕ) → mem t us ≡ false → first_free us (t ∷ ts) ≡ some t
unfolding first_free
first_free_new t us ts h = rw h

-- Of one slot more than are taken, one is free, if there is a free slot at all.
first_free-take :
    (us ts : List ℕ) → IsDistinct ts → first_free us (take (suc (length us)) ts) ≡ first_free us ts
first_free-take us [] d = refl
first_free-take us (t ∷ ts) d = elim (Bool-cases (mem t us)) [
  | inl old ↦
      rw (first_free_taken t us (take (length us) ts) old, first_free_taken t us ts old)
        (let us' = without t us in
          rw (length-without t us old) (
            sym (
              first_free-without t us (take (suc (length us')) ts)
                (mem-take t (suc (length us')) ts d.0))
            ∙ first_free-take us' ts d.1
            ∙ first_free-without t us ts d.0))
  | inr new ↦ first_free_new t us (take (length us) ts) new ∙ sym (first_free_new t us ts new)
]

-- `_next_available_slot` answers with the earliest slot of the whole horizon that is not taken, and
-- with none only if every slot of the horizon is taken: looking at as many slots as are taken, and
-- one more, loses nothing, as long as the slots of the horizon are different instants.
pub next_available_slot-eq :
    (now : ℕ) (zone : Zone) (slots : List PostingSlot) (account : ℕ) (exclude : List ℕ) (s : Store)
    → IsDistinct (horizon zone now slots)
    → next_available_slot now zone slots account exclude s
      ≡ first_free (occupied_datetimes now account exclude s) (horizon zone now slots)
unfolding next_available_slot
next_available_slot-eq now zone slots account exclude s d =
    first_free-take (occupied_datetimes now account exclude s) (horizon zone now slots) d

-- The slot found is not taken.
pub first_free-mem :
    (us ts : List ℕ) (t : ℕ) → first_free us ts ≡ some t → (mem t us ≡ false) × (mem t ts ≡ true)
unfolding first_free
first_free-mem us [] t h = cc
first_free-mem us (u ∷ ts) t h = ground (arith, first_free-mem us ts t)

-- None is found only if all are taken.
pub first_free-none :
    (us ts : List ℕ) (t : ℕ) → first_free us ts ≡ none → mem t ts ≡ true → mem t us ≡ true
unfolding first_free
first_free-none us [] t h m = cc
first_free-none us (u ∷ ts) t h m = ground (arith, first_free-none us ts t, ==_iff u t)
