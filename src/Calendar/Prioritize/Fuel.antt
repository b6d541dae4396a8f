-- ===== src/Calendar/Prioritize/Fuel.antt =====
-- The loop of the ladder ends (brightbean-studio/apps/calendar/services.py): its fuel is enough.
use bright_bean_paysys.Common.{
  ℕ, zero, suc, ◌+◌, ◌≤◌, ◌<◌, ◌≡◌, refl, sym, ◌∙◌, ap, subst, true, false, not, ◌&&◌, Option, none,
  some, List, [], ◌∷◌, arith, ◌==◌, ==_iff, leb, length, Bool-cases, inl, inr, ◌⊎◌,
}
use mathlib.Core.Option.{some_inj}
use bright_bean_paysys.Calendar.Slots.{Zone, PostingSlot, mem, horizon, take, next_slot_datetimes}
use bright_bean_paysys.Calendar.Prioritize.{slot_at, refreshed, seek_here, seek}
use bright_bean_paysys.Calendar.Prioritize.Ladder.{IsStart, refreshed-IsStart}

slot_at_lt : (ts : List ℕ) (i t : ℕ) → slot_at ts i ≡ some t → i < length ts
slot_at_lt [] i t e = cc
slot_at_lt (u ∷ ts) zero t e = ground arith
slot_at_lt (u ∷ ts) (suc i) t e = let k = slot_at_lt ts i t e in ground arith

slot_at_end : (ts : List ℕ) (j : ℕ) → slot_at ts j ≡ none → length ts ≤ j
slot_at_end [] j e = ground arith
slot_at_end (u ∷ ts) zero e = cc
slot_at_end (u ∷ ts) (suc j) e = let k = slot_at_end ts j e in ground arith

slot_at-start : (n : ℕ) (ts : List ℕ) (j : ℕ) → j < n → slot_at (take n ts) j ≡ slot_at ts j
slot_at-start zero ts j l = absurd (omega arith)
slot_at-start (suc n) [] j l = refl
slot_at-start (suc n) (u ∷ ts) zero l = refl
slot_at-start (suc n) (u ∷ ts) (suc j) l = slot_at-start n ts j (omega arith)

slot_at-within :
    (n : ℕ) (ts : List ℕ) (j : ℕ) → j < length (take n ts) → slot_at (take n ts) j ≡ slot_at ts j
slot_at-within zero ts j l = absurd (omega arith)
slot_at-within (suc n) [] j l = refl
slot_at-within (suc n) (u ∷ ts) zero l = refl
slot_at-within (suc n) (u ∷ ts) (suc j) l = slot_at-within n ts j (omega arith)

here_taken :
    (i t j u : ℕ) (assigned avoid : List ℕ)
    → i ≡ j
    → u ≡ t
    → not (mem j assigned) && not (mem u avoid) ≡ false
    → (mem i assigned ≡ true) ⊎ (mem t avoid ≡ true)
here_taken i t j u assigned avoid q v c = elim (Bool-cases (mem j assigned)) [
  | inl a ↦ inl (ap (λ x. mem x assigned) q ∙ a)
  | inr a ↦ inr (ap (λ x. mem x avoid) (sym v) ∙ ground arith)
]

module _ (now : ℕ) (zone : Zone) (slots : List PostingSlot) where
  refreshed_at :
      (j : ℕ) (cs : List ℕ)
      → IsStart (horizon zone now slots) cs
      → slot_at (refreshed now zone slots j cs) j ≡ slot_at (horizon zone now slots) j
  unfolding refreshed next_slot_datetimes
  refreshed_at j cs (n, s) = elim (Bool-cases (leb (length cs) j)) [
    | inl e ↦ rw e (slot_at-start (j + 2) (horizon zone now slots) j (omega arith))
    | inr e ↦ rw e (
        ap (λ xs. slot_at xs j) s
        ∙ slot_at-within n (horizon zone now slots) j
            (subst (λ xs. j < length xs) s (ground arith)))
  ]

  -- Every slot from index `j` on is given away or has to stay free.
  abbrev pub IsFullFrom : ℕ → List ℕ → List ℕ → Type 0
  IsFullFrom j assigned avoid =
      (i t : ℕ)
      → j ≤ i
      → slot_at (horizon zone now slots) i ≡ some t
      → (mem i assigned ≡ true) ⊎ (mem t avoid ≡ true)

  here-IsFullFrom :
      (j : ℕ) (assigned avoid cs : List ℕ) (o : Option ℕ) (rest : Option (ℕ × ℕ × List ℕ))
      → slot_at (horizon zone now slots) j ≡ o
      → (rest ≡ none → IsFullFrom (suc j) assigned avoid)
      → seek_here now zone slots j assigned avoid cs o rest ≡ none
      → IsFullFrom j assigned avoid
  here-IsFullFrom j assigned avoid cs none rest o r e i t l k =
      let a = slot_at_lt (horizon zone now slots) i t k in
      let b = slot_at_end (horizon zone now slots) j o in absurd (omega arith)
  here-IsFullFrom j assigned avoid cs (some u) rest o r e i t l k =
      elim (Bool-cases (not (mem j assigned) && not (mem u avoid))) [
        | inl c ↦ (let e' = rw c at e in cc)
        | inr c ↦
            (let e' = rw c at e in
              elim (Bool-cases (i == j)) [
                | inl same ↦
                    (let q = (==_iff i j).0 same in
                      let v =
                        some_inj.0 (sym o ∙ ap (slot_at (horizon zone now slots)) (sym q) ∙ k) in
                      here_taken i t j u assigned avoid q v c)
                | inr other ↦ r e' i t (ground arith) k
              ])
      ]

  -- When the loop gives up, no slot after the mover is left: it has not run out of fuel.
  pub seek-IsFullFrom :
      (fuel j : ℕ) (assigned avoid cs : List ℕ)
      → IsStart (horizon zone now slots) cs
      → length (horizon zone now slots) < fuel + j
      → seek now zone slots fuel j assigned avoid cs ≡ none
      → IsFullFrom j assigned avoid
  unfolding seek
  seek-IsFullFrom zero j assigned avoid cs s f e i t l k =
      let a = slot_at_lt (horizon zone now slots) i t k in absurd (omega arith)
  seek-IsFullFrom (suc fuel) j assigned avoid cs s f e i t l k =
      let cs' = refreshed now zone slots j cs in
      here-IsFullFrom j assigned avoid cs' (slot_at cs' j)
        (seek now zone slots fuel (suc j) assigned avoid cs') (sym (refreshed_at j cs s))
        (seek-IsFullFrom fuel (suc j) assigned avoid cs' (refreshed-IsStart now zone slots j cs s)
          (omega arith))
        e i t l k
