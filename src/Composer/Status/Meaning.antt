-- ===== src/Composer/Status/Meaning.antt =====
-- What a post's derived status tells about its children
-- (brightbean-studio/apps/composer/status.py).
use mathlib.Core.Bool.{false≢true}
use bright_bean_paysys.Common.{
  ◌≡◌, refl, sym, ◌∙◌, ap, subst, ◌≢◌, ◌↔◌, ◌⊎◌, inl, inr, Bool, true, false, List, [], ◌∷◌, arith,
  ◌≤◌, ◌<◌, all, Bool-cases,
}
use bright_bean_paysys.Composer.Status.{
  Status, draft, failed, published, partially_published, on_hold, publishing, is, is_in, is_iff,
  is_terminal, rank, min_rank, lowest, combine_terminal, derive_post_status,
}
use bright_bean_paysys.Composer.Status.Aggregate.{
  SameSet, is_refl, all→mem, mem→all, all-SameSet, min_rank-mem, min_rank-le, lowest-SameSet,
  combine_terminal-SameSet, derive-cons,
}

derive-nil : derive_post_status [] ≡ draft
unfolding derive_post_status
derive-nil = refl

failed-ne-early : (u : Status) → rank u < rank publishing → failed ≢ u
unfolding rank
failed-ne-early u h e = ground arith

early_open : (u : Status) → rank u < rank publishing → is_terminal u ≡ false
unfolding rank is_terminal is
early_open u h = ground arith

not_publishing :
    (r u : Status)
    → rank u < rank publishing
    → rank r ≤ rank u
    → (r ≡ publishing) ⊎ (publishing ≡ partially_published)
    → ⊥
unfolding rank
not_publishing r u h k e = ground arith

all_equal-SameSet :
    (v w : Status) (vs ws : List Status)
    → SameSet (v ∷ vs) (w ∷ ws)
    → all (λ s. is s v) (v ∷ vs) ≡ true
    → v ≡ w
all_equal-SameSet v w vs ws same h =
    sym ((is_iff w v).0 (all→mem (λ s. is s v) (v ∷ vs) w h (same w ∙ ground (arith, is_refl w))))

-- The status of a post depends only on which statuses its children have: not on their order, nor
-- on how many children share a status.
pub derive-SameSet :
    (xs ys : List Status) → SameSet xs ys → derive_post_status xs ≡ derive_post_status ys
derive-SameSet [] [] same = refl
derive-SameSet [] (y ∷ ys) same = ground (arith, same y, is_refl y)
derive-SameSet (x ∷ xs) [] same = ground (arith, same x, is_refl x)
derive-SameSet (v ∷ vs) (w ∷ ws) same = ground (
  arith,
  derive-cons v vs,
  derive-cons w ws,
  all_equal-SameSet v w vs ws same,
  all_equal-SameSet w v ws vs (λ s. sym (same s)),
  all-SameSet (λ s. is s v) (v ∷ vs) (w ∷ ws) same,
  all-SameSet (λ s. is s w) (v ∷ vs) (w ∷ ws) same,
  all-SameSet is_terminal (v ∷ vs) (w ∷ ws) same,
  combine_terminal-SameSet (v ∷ vs) (w ∷ ws) same,
  lowest-SameSet (v ∷ vs) (w ∷ ws) same,
)

not_all :
    (p : Status → Bool) (s : Status) (xs : List Status)
    → is_in s xs ≡ true
    → p s ≡ false
    → all p xs ≡ false
not_all p s xs m e = elim (Bool-cases (all p xs)) [
  | inl h ↦ absurd (false≢true (sym e ∙ all→mem p xs s h m))
  | inr h ↦ h
]

is_false : (s v : Status) → s ≢ v → is s v ≡ false
is_false s v ne = ground (arith, is_iff s v)

-- A list that mixes two statuses and has a status that is not terminal takes the last branch.
derive-lowest :
    (s t v : Status) (vs : List Status)
    → is_in s (v ∷ vs) ≡ true
    → s ≢ v
    → is_in t (v ∷ vs) ≡ true
    → is_terminal t ≡ false
    → derive_post_status (v ∷ vs) ≡ lowest (v ∷ vs)
derive-lowest s t v vs ms ne mt nt =
    let us = v ∷ vs in
    rw
      (derive-cons, not_all (λ x. is x v) s us ms (is_false s v ne), not_all is_terminal t us mt nt)

-- One of two different statuses differs from the first of the list.
derive-mixed :
    (s u t v : Status) (vs : List Status)
    → is_in s (v ∷ vs) ≡ true
    → is_in u (v ∷ vs) ≡ true
    → s ≢ u
    → is_in t (v ∷ vs) ≡ true
    → is_terminal t ≡ false
    → derive_post_status (v ∷ vs) ≡ lowest (v ∷ vs)
derive-mixed s u t v vs ms mu ne mt nt = elim (Bool-cases (is s v)) [
  | inl e ↦ derive-lowest u t v vs mu (λ k. ne ((is_iff s v).0 e ∙ sym k)) mt nt
  | inr e ↦ derive-lowest s t v vs ms (λ k. false≢true (sym e ∙ (is_iff s v).1 k)) mt nt
]

-- `r` is the status of a child, with the lowest rank.
pub record IsLowest (xs : List Status) (r : Status) : Type 0 where
  pub member : is_in r xs ≡ true
  pub least : (k : Status) → is_in k xs ≡ true → rank r ≤ rank k

min_rank-IsLowest : (v : Status) (vs : List Status) → IsLowest (v ∷ vs) (min_rank v vs)
min_rank-IsLowest v vs = record { member = min_rank-mem v vs; least = min_rank-le v vs }

lowest_lem :
    (v : Status) (vs : List Status)
    → ((lowest (v ∷ vs) ≡ min_rank v vs)
        × ((min_rank v vs ≢ on_hold) ⊎ (is_in published (v ∷ vs) ≡ false)))
      ⊎ ((lowest (v ∷ vs) ≡ partially_published)
          × (min_rank v vs ≡ on_hold)
          × (is_in published (v ∷ vs) ≡ true))
unfolding lowest
lowest_lem v vs = ground (arith, is_iff (min_rank v vs) on_hold)

-- A post with children in different statuses, one of them not terminal, is shown at the child
-- status that comes first in the workflow order. If that is a hold and some child is already
-- published, it is shown as partially published instead, and only then. This is so with a failed child
-- too, where the docstring of the code says `publishing`.
pub derive_mixed :
    (s u t : Status) (xs : List Status)
    → is_in s xs ≡ true
    → is_in u xs ≡ true
    → s ≢ u
    → is_in t xs ≡ true
    → is_terminal t ≡ false
    → (r : Status) × IsLowest xs r
      × (((derive_post_status xs ≡ r) × ((r ≢ on_hold) ⊎ (is_in published xs ≡ false)))
          ⊎ ((derive_post_status xs ≡ partially_published)
              × (r ≡ on_hold)
              × (is_in published xs ≡ true)))
derive_mixed s u t [] ms mu ne mt nt = cc
derive_mixed s u t (v ∷ vs) ms mu ne mt nt = (
  min_rank v vs,
  min_rank-IsLowest v vs,
  rw (derive-mixed s u t v vs ms mu ne mt nt) (lowest_lem v vs),
)

-- Only the two outcomes come at the end of the workflow order.
terminal_of_rank : (k : Status) → rank published ≤ rank k → is_terminal k ≡ true
unfolding rank is_terminal is
terminal_of_rank k h = ground arith

combine_terminal-published :
    (xs : List Status) → combine_terminal xs ≡ published → all (λ s. is s published) xs ≡ true
unfolding combine_terminal
combine_terminal-published xs h = ground arith

lowest-ne-published :
    (v : Status) (vs : List Status) → all is_terminal (v ∷ vs) ≡ false → lowest (v ∷ vs) ≢ published
lowest-ne-published v vs ongoing e = false≢true (
    sym ongoing
    ∙ mem→all is_terminal (v ∷ vs) (λ s m.
      terminal_of_rank s
        (subst (λ r. rank r ≤ rank s) (ground (arith, lowest_lem v vs)) (min_rank-le v vs s m))))

published-single :
    (v : Status) (vs : List Status)
    → v ≡ published
    → all (λ s. is s v) (v ∷ vs) ≡ all (λ s. is s published) (v ∷ vs)
published-single v vs e = ap (λ w. all (λ s. is s w) (v ∷ vs)) e

published-mem :
    (v : Status) (vs : List Status)
    → all (λ s. is s published) (v ∷ vs) ≡ true
    → (v ≡ published) × (is_in published (v ∷ vs) ≡ true)
published-mem v vs h = ground (arith, is_iff v published, is_iff published v)

derive-published_all :
    (v : Status) (vs : List Status)
    → derive_post_status (v ∷ vs) ≡ published
    → all (λ s. is s published) (v ∷ vs) ≡ true
derive-published_all v vs h = elim (Bool-cases (all (λ s. is s v) (v ∷ vs))) [
  | inl same ↦ sym (published-single v vs (sym (rw (derive-cons, same) refl) ∙ h)) ∙ same
  | inr mixed ↦ elim (Bool-cases (all is_terminal (v ∷ vs))) [
    | inl closed ↦
        combine_terminal-published (v ∷ vs) (sym (rw (derive-cons, mixed, closed) refl) ∙ h)
    | inr ongoing ↦
        absurd (lowest-ne-published v vs ongoing (sym (rw (derive-cons, mixed, ongoing) refl) ∙ h))
  ]
]

derive-all_published :
    (v : Status) (vs : List Status)
    → all (λ s. is s published) (v ∷ vs) ≡ true
    → derive_post_status (v ∷ vs) ≡ published
derive-all_published v vs h =
    let e = (published-mem v vs h).0 in rw (derive-cons, published-single v vs e, h) e

-- A post is shown as published exactly when it has a child and each of its children is published.
pub derive_published :
    (xs : List Status)
    → (derive_post_status xs ≡ published)
      ↔ (is_in published xs ≡ true) × (all (λ s. is s published) xs ≡ true)
derive_published [] = (λ h. cc (derive-nil), λ h. cc)
derive_published (v ∷ vs) = (
  λ h. let a = derive-published_all v vs h in ((published-mem v vs a).1, a),
  λ h. derive-all_published v vs h.1,
)

-- With a failed child and a child that is neither terminal nor publishing yet, the post is not
-- shown as publishing.
pub derive_failed :
    (u : Status) (xs : List Status)
    → is_in failed xs ≡ true
    → is_in u xs ≡ true
    → rank u < rank publishing
    → derive_post_status xs ≢ publishing
derive_failed u xs mf mu early e =
    let (r, low, shown) =
      derive_mixed failed u u xs mf mu (failed-ne-early u early) mu (early_open u early) in
    not_publishing r u early (low.least u mu) (ground arith)
