-- ===== src/Composer/Status/Aggregate.antt =====
-- What `derive_post_status` (brightbean-studio/apps/composer/status.py) makes of the children.
use bright_bean_paysys.Common.{
  ◌≡◌, refl, sym, ◌∙◌, ap, ◌⊎◌, inl, inr, Bool, true, false, List, [], ◌∷◌, arith, ◌≤◌, ◌==◌, leb,
  if◌then◌else◌, all, length, Bool-cases,
}
use bright_bean_paysys.Composer.Status.{
  Status, failed, published, is, is_in, is_iff, is_terminal, rank, rank-injective, set_of, min_rank,
  lowest, combine_terminal, derive_post_status,
}

-- The two lists have the same statuses, in any order and number.
abbrev pub SameSet : List Status → List Status → Type 0
SameSet xs ys = (s : Status) → is_in s xs ≡ is_in s ys

Bool-eq_of_iff : (a b : Bool) → (a ≡ true → b ≡ true) → (b ≡ true → a ≡ true) → a ≡ b
Bool-eq_of_iff true b f g = sym (f refl)
Bool-eq_of_iff false true f g = g refl
Bool-eq_of_iff false false f g = refl

pub is_refl : (s : Status) → is s s ≡ true
is_refl s = (is_iff s s).1 refl

is_in_of_is : (s x : Status) (xs : List Status) → is s x ≡ true → is_in s xs ≡ is_in x xs
is_in_of_is s x xs h = ap (λ t. is_in t xs) ((is_iff s x).0 h)

is_in-set_of : (s : Status) (xs : List Status) → is_in s (set_of xs) ≡ is_in s xs
unfolding set_of
is_in-set_of s [] = refl
is_in-set_of s (x ∷ xs) =
    ground (arith, is_in-set_of s xs, is_in-set_of x xs, is_in_of_is s x (set_of xs))

pub all→mem :
    (p : Status → Bool) (xs : List Status) (s : Status)
    → all p xs ≡ true
    → is_in s xs ≡ true
    → p s ≡ true
all→mem p [] s h m = cc
all→mem p (x ∷ xs) s h m = ground (arith, is_iff s x, all→mem p xs s)

pub mem→all :
    (p : Status → Bool) (xs : List Status)
    → ((s : Status) → is_in s xs ≡ true → p s ≡ true)
    → all p xs ≡ true
mem→all p [] h = refl
mem→all p (x ∷ xs) h = ground (arith, h x, is_refl x, mem→all p xs (λ s m. h s (ground arith)))

pub all-SameSet : (p : Status → Bool) (xs ys : List Status) → SameSet xs ys → all p xs ≡ all p ys
all-SameSet p xs ys same =
    Bool-eq_of_iff (all p xs) (all p ys) (λ h. mem→all p ys (λ s m. all→mem p xs s h (same s ∙ m)))
      (λ h. mem→all p xs (λ s m. all→mem p ys s h (sym (same s) ∙ m)))

min_rank-nil : (s : Status) → min_rank s [] ≡ s
unfolding min_rank
min_rank-nil s = refl

min_rank-cons :
    (s x : Status) (xs : List Status)
    → min_rank s (x ∷ xs) ≡ (if leb (rank s) (rank x) then min_rank s xs else min_rank x xs)
min_rank-cons s x xs = elim (Bool-cases (leb (rank s) (rank x))) [
  | inl e ↦ rw e (unfold min_rank in ap (λ (b : Bool). min_rank (if b then s else x) xs) e)
  | inr e ↦ rw e (unfold min_rank in ap (λ (b : Bool). min_rank (if b then s else x) xs) e)
]

is_in-min_rank :
    (s x m : Status) (xs : List Status)
    → (m ≡ min_rank s xs) ⊎ (m ≡ min_rank x xs)
    → is_in (min_rank s xs) (s ∷ xs) ≡ true
    → is_in (min_rank x xs) (x ∷ xs) ≡ true
    → is_in m (s ∷ x ∷ xs) ≡ true
is_in-min_rank s x m xs (inl e) h k = rw e (ground arith)
is_in-min_rank s x m xs (inr e) h k = rw e (ground arith)

min_rank-eq :
    (s x : Status) (xs : List Status)
    → (min_rank s (x ∷ xs) ≡ min_rank s xs) ⊎ (min_rank s (x ∷ xs) ≡ min_rank x xs)
min_rank-eq s x xs = ground (arith, min_rank-cons s x xs)

pub min_rank-mem : (s : Status) (xs : List Status) → is_in (min_rank s xs) (s ∷ xs) ≡ true
min_rank-mem s [] = rw min_rank-nil (ground (arith, is_refl s))
min_rank-mem s (x ∷ xs) =
    is_in-min_rank s x (min_rank s (x ∷ xs)) xs (min_rank-eq s x xs) (min_rank-mem s xs)
      (min_rank-mem x xs)

pub min_rank-le :
    (s : Status) (xs : List Status) (t : Status)
    → is_in t (s ∷ xs) ≡ true
    → rank (min_rank s xs) ≤ rank t
min_rank-le s [] t m = rw min_rank-nil (ground (arith, is_iff t s))
min_rank-le s (x ∷ xs) t m = ground (
  arith,
  min_rank-cons s x xs,
  is_iff t s,
  is_iff t x,
  min_rank-le s xs t,
  min_rank-le s xs s,
  is_refl s,
  min_rank-le x xs t,
  min_rank-le x xs x,
  is_refl x,
)

-- Two sets with the same members have the same minimum.
min_rank-SameSet :
    (s t : Status) (xs ys : List Status) → SameSet (s ∷ xs) (t ∷ ys) → min_rank s xs ≡ min_rank t ys
min_rank-SameSet s t xs ys same =
    let a = min_rank s xs in
    let b = min_rank t ys in
    rank-injective a b (
      omega (
        arith,
        min_rank-le s xs b (same b ∙ min_rank-mem t ys),
        min_rank-le t ys a (sym (same a) ∙ min_rank-mem s xs),
      ))

pub lowest-SameSet : (xs ys : List Status) → SameSet xs ys → lowest xs ≡ lowest ys
unfolding lowest
lowest-SameSet [] [] same = refl
lowest-SameSet [] (y ∷ ys) same = ground (arith, same y, is_refl y)
lowest-SameSet (x ∷ xs) [] same = ground (arith, same x, is_refl x)
lowest-SameSet (x ∷ xs) (y ∷ ys) same =
    rw (min_rank-SameSet x y xs ys same) (ground (arith, same published))

pub combine_terminal-SameSet :
    (xs ys : List Status) → SameSet xs ys → combine_terminal xs ≡ combine_terminal ys
unfolding combine_terminal
combine_terminal-SameSet xs ys same =
    rw (same published, same failed, all-SameSet (λ s. is s published) xs ys same)

-- The set of a list has one member just when the whole list is its first status.
head_fresh : (xs b : List Status) (a : Status) → set_of xs ≡ a ∷ b → is_in a b ≡ false
unfolding set_of
head_fresh [] b a h = cc
head_fresh (x ∷ xs) b a h = ground (arith, head_fresh xs b a)

all_in_one :
    (u v : Status) (us : List Status)
    → set_of us ≡ u ∷ []
    → is_in v us ≡ true
    → all (λ s. is s v) us ≡ true
all_in_one u v us h m =
    mem→all (λ s. is s v) us
      (λ s k.
        ground (arith, is_in-set_of s us, is_in-set_of v us, is_iff s u, is_iff v u, is_iff s v))

-- two members that equal v would be one
one_of_all :
    (u w v : Status) (b us : List Status) → set_of us ≡ u ∷ w ∷ b → all (λ s. is s v) us ≡ true → ⊥
one_of_all u w v b us h k = ground (
  arith,
  head_fresh us (w ∷ b) u h,
  is_in-set_of u us,
  is_in-set_of w us,
  is_refl u,
  is_refl w,
  all→mem (λ s. is s v) us u k,
  all→mem (λ s. is s v) us w k,
  is_iff u v,
  is_iff w v,
  is_iff u w,
)

single-eq-all :
    (v : Status) (us : List Status)
    → is_in v us ≡ true
    → (length (set_of us) == 1) ≡ all (λ s. is s v) us
single-eq-all v us m = go (set_of us) refl
  where
    go : (l : List Status) → set_of us ≡ l → (length l == 1) ≡ all (λ s. is s v) us
    go [] e = ground (arith, is_in-set_of v us)
    go (u ∷ []) e = sym (all_in_one u v us e m)
    go (u ∷ w ∷ b) e = elim (Bool-cases (all (λ s. is s v) us)) [
      | inl k ↦ absurd (one_of_all u w v b us e k)
      | inr k ↦ rw k (ground arith)
    ]

-- `derive_post_status` read off the list itself, with no set in between.
pub derive-cons :
    (v : Status) (vs : List Status)
    → let us = v ∷ vs in
      derive_post_status us ≡ (
        if all (λ s. is s v) us
        then v
        else if all is_terminal us
        then combine_terminal us
        else lowest us)
unfolding derive_post_status
derive-cons v vs =
    let us = v ∷ vs in
    let same : SameSet (set_of us) us = λ s. is_in-set_of s us in
    rw (
      single-eq-all v us (ground (arith, is_refl v)),
      all-SameSet is_terminal (set_of us) us same,
      combine_terminal-SameSet (set_of us) us same,
      lowest-SameSet (set_of us) us same,
    )
