-- ===== src/Calendar/Prioritize/Ladder.antt =====
-- The slots that the ladder of `prioritize` finds (brightbean-studio/apps/calendar/services.py).
use bright_bean_paysys.Common.{
  ℕ, zero, suc, ◌+◌, ◌≡◌, refl, sym, ap, subst, true, false, not, ◌&&◌, Option, none, some, List,
  [], ◌∷◌, arith, ◌==◌, ==_iff, leb, length, All, Bool-cases, inl, inr,
}
use mathlib.Core.Option.{some_inj}
use bright_bean_paysys.Calendar.Slots.{Zone, PostingSlot, mem, horizon, take, next_slot_datetimes}
use bright_bean_paysys.Calendar.Gaps.{IsDistinct}
use bright_bean_paysys.Calendar.Prioritize.{
  Mover, slot_at, refreshed, seek_here, seek, fuel_for, ladder, and_slot, and_rest,
}

pub slot_at-take :
    (n : ℕ) (ts : List ℕ) (j : ℕ) (t : ℕ) → slot_at (take n ts) j ≡ some t → slot_at ts j ≡ some t
slot_at-take zero ts j t e = cc
slot_at-take (suc n) [] j t e = cc
slot_at-take (suc n) (u ∷ ts) zero t e = e
slot_at-take (suc n) (u ∷ ts) (suc j) t e = slot_at-take n ts j t e

slot_at-mem : (ts : List ℕ) (j : ℕ) (t : ℕ) → slot_at ts j ≡ some t → mem t ts ≡ true
slot_at-mem [] j t e = cc
slot_at-mem (u ∷ ts) zero t e = ground arith
slot_at-mem (u ∷ ts) (suc j) t e = ground (arith, slot_at-mem ts j t e)

-- Different indices have different slots.
slot_at-inj :
    (ts : List ℕ) (i j : ℕ) (t : ℕ)
    → IsDistinct ts
    → slot_at ts i ≡ some t
    → slot_at ts j ≡ some t
    → i ≡ j
slot_at-inj [] i j t d e k = cc
slot_at-inj (u ∷ ts) zero zero t d e k = refl
slot_at-inj (u ∷ ts) zero (suc j) t d e k = ground (arith, slot_at-mem ts j t k, d.0)
slot_at-inj (u ∷ ts) (suc i) zero t d e k = ground (arith, slot_at-mem ts i t e, d.0)
slot_at-inj (u ∷ ts) (suc i) (suc j) t d e k = ap suc (slot_at-inj ts i j t d.1 e k)

-- The candidates are a first part of the list `ts`.
abbrev pub IsStart : List ℕ → List ℕ → Type 0
IsStart ts cs = (n : ℕ) × (cs ≡ take n ts)

module _ (now : ℕ) (zone : Zone) (slots : List PostingSlot) where
  pub refreshed-IsStart :
      (j : ℕ) (cs : List ℕ)
      → IsStart (horizon zone now slots) cs
      → IsStart (horizon zone now slots) (refreshed now zone slots j cs)
  unfolding refreshed next_slot_datetimes
  refreshed-IsStart j cs s = elim (Bool-cases (leb (length cs) j)) [
    | inl e ↦ rw e (j + 2, refl)
    | inr e ↦ rw e s
  ]

  -- What a slot that the loop finds is.
  pub record IsFound (assigned avoid : List ℕ) (j t : ℕ) (cs : List ℕ) : Type 0 where
    pub at_index : slot_at (horizon zone now slots) j ≡ some t
    pub unassigned : mem j assigned ≡ false
    pub is_free : mem t avoid ≡ false
    pub start : IsStart (horizon zone now slots) cs

  here-IsFound :
      (j : ℕ) (assigned avoid cs : List ℕ) (o : Option ℕ) (rest : Option (ℕ × ℕ × List ℕ)) (i t : ℕ)
      (ds : List ℕ)
      → IsStart (horizon zone now slots) cs
      → slot_at cs j ≡ o
      → (rest ≡ some (i, t, ds) → IsFound assigned avoid i t ds)
      → seek_here now zone slots j assigned avoid cs o rest ≡ some (i, t, ds)
      → IsFound assigned avoid i t ds
  here-IsFound j assigned avoid cs none rest i t ds s o r e = cc
  here-IsFound j assigned avoid cs (some u) rest i t ds (n, s) o r e =
      elim (Bool-cases (not (mem j assigned) && not (mem u avoid))) [
        | inl c ↦
            (let e' = rw c at e in
              subst (λ x. IsFound assigned avoid x.0 x.1 x.2) (some_inj.0 e')
                (record {
                  at_index =
                      slot_at-take n (horizon zone now slots) j u
                        (subst (λ xs. slot_at xs j ≡ some u) s o);
                  unassigned = ground arith;
                  is_free = ground arith;
                  start = (n, s);
                }))
        | inr c ↦ (let e' = rw c at e in r e')
      ]

  pub seek-IsFound :
      (fuel j : ℕ) (assigned avoid cs : List ℕ) (i t : ℕ) (ds : List ℕ)
      → IsStart (horizon zone now slots) cs
      → seek now zone slots fuel j assigned avoid cs ≡ some (i, t, ds)
      → IsFound assigned avoid i t ds
  unfolding seek
  seek-IsFound zero j assigned avoid cs i t ds s e = cc
  seek-IsFound (suc fuel) j assigned avoid cs i t ds s e =
      let cs' = refreshed now zone slots j cs in
      let s' = refreshed-IsStart j cs s in
      here-IsFound j assigned avoid cs' (slot_at cs' j)
        (seek now zone slots fuel (suc j) assigned avoid cs') i t ds s' refl
        (seek-IsFound fuel (suc j) assigned avoid cs' i t ds s') e

  -- What the slots of a ladder are, when the indices `assigned` are in use.
  pub record IsLadder (ms : List Mover) (assigned avoid ts : List ℕ) : Type 0 where
    pub for_each : length ts ≡ length ms
    pub each_free : All (λ t. mem t avoid ≡ false) ts
    pub distinct : IsDistinct ts
    pub unassigned :
        (i u : ℕ)
        → mem i assigned ≡ true
        → slot_at (horizon zone now slots) i ≡ some u
        → mem u ts ≡ false

  IsLadder-step :
      (d : IsDistinct (horizon zone now slots)) (m : Mover) (ms : List Mover)
      (assigned avoid : List ℕ) (j t : ℕ) (cs ts : List ℕ)
      → IsFound assigned avoid j t cs
      → IsLadder ms (j ∷ assigned) avoid ts
      → IsLadder (m ∷ ms) assigned avoid (t ∷ ts)
  IsLadder-step d m ms assigned avoid j t cs ts f l = record {
    for_each = ap suc l.for_each;
    each_free = (f.is_free, l.each_free);
    distinct = (l.unassigned j t (ground arith) f.at_index, l.distinct);
    unassigned = λ i u a e.
        let other = l.unassigned i u (ground arith) e in
        elim (Bool-cases (t == u)) [
          | inl c ↦
              (let same =
                  slot_at-inj (horizon zone now slots) i j t d
                    (subst (λ v. slot_at (horizon zone now slots) i ≡ some v)
                      (sym ((==_iff t u).0 c)) e)
                    f.at_index in
                let no = f.unassigned in ground arith)
          | inr c ↦ rw c other
        ];
  }

  and_slot-IsLadder :
      (d : IsDistinct (horizon zone now slots)) (m : Mover) (ms : List Mover)
      (assigned avoid : List ℕ) (j t : ℕ) (cs : List ℕ) (o : Option (List ℕ)) (ts : List ℕ)
      → IsFound assigned avoid j t cs
      → ((us : List ℕ) → o ≡ some us → IsLadder ms (j ∷ assigned) avoid us)
      → and_slot now zone slots t o ≡ some ts
      → IsLadder (m ∷ ms) assigned avoid ts
  and_slot-IsLadder d m ms assigned avoid j t cs none ts f l e = cc
  and_slot-IsLadder d m ms assigned avoid j t cs (some us) ts f l e =
      subst (IsLadder (m ∷ ms) assigned avoid) (some_inj.0 e)
        (IsLadder-step d m ms assigned avoid j t cs us f (l us refl))

  and_rest-IsLadder :
      (d : IsDistinct (horizon zone now slots)) (m : Mover) (ms : List Mover)
      (assigned avoid : List ℕ) (o : Option (ℕ × ℕ × List ℕ)) (rest : ℕ → List ℕ → Option (List ℕ))
      (ts : List ℕ)
      → ((j t : ℕ) (cs : List ℕ) → o ≡ some (j, t, cs) → IsFound assigned avoid j t cs)
      → ((j : ℕ) (cs us : List ℕ)
          → IsStart (horizon zone now slots) cs
          → rest j cs ≡ some us
          → IsLadder ms (j ∷ assigned) avoid us)
      → and_rest now zone slots o rest ≡ some ts
      → IsLadder (m ∷ ms) assigned avoid ts
  and_rest-IsLadder d m ms assigned avoid none rest ts f l e = cc
  and_rest-IsLadder d m ms assigned avoid (some (j, t, cs)) rest ts f l e =
      let found = f j t cs refl in
      and_slot-IsLadder d m ms assigned avoid j t cs (rest j cs) ts found
        (λ us k. l j cs us found.start k) e

  pub ladder-IsLadder :
      (d : IsDistinct (horizon zone now slots)) (ms : List Mover) (assigned avoid cs ts : List ℕ)
      → IsStart (horizon zone now slots) cs
      → ladder now zone slots ms assigned avoid cs ≡ some ts
      → IsLadder ms assigned avoid ts
  unfolding ladder
  ladder-IsLadder d [] assigned avoid cs ts s e =
      subst (IsLadder [] assigned avoid) (some_inj.0 e)
        (record { for_each = refl; each_free = tt; distinct = tt; unassigned = λ i u a k. refl })
  ladder-IsLadder d (m ∷ ms) assigned avoid cs ts s e =
      and_rest-IsLadder d m ms assigned avoid
        (seek now zone slots (fuel_for now zone slots) (suc m.index) assigned avoid cs)
        (λ j ds. ladder now zone slots ms (j ∷ assigned) avoid ds) ts
        (λ j t ds k.
          seek-IsFound (fuel_for now zone slots) (suc m.index) assigned avoid cs j t ds s k)
        (λ j ds us start k. ladder-IsLadder d ms (j ∷ assigned) avoid ds us start k) e
