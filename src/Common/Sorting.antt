-- ===== src/Common/Sorting.antt =====
-- `.order_by(key)` and `[:n]` of a query.
use Prim.Native.Nat.{ℕ, zero, suc, ◌≤◌}
use mathlib.Core.Path.{◌≡◌, refl, ap, ◌∙◌}
use mathlib.Core.List.{List, [], ◌∷◌, Permᴰ}
use mathlib.Core.List.Permᴰ
use native.Mathlib.Omega.{arith}
use mathlib.Core.Logic.{inl, inr}
use bright_bean_paysys.Common.Tests.{leb, leb_iff, if◌then◌else◌, Bool-cases}
use bright_bean_paysys.Common.Lists.{All, length}

module _ {ℓ} {A : Type ℓ} where
  unfoldable pub insert_by : (A → ℕ) → A → List A → List A
  insert_by key x [] = x ∷ []
  insert_by key x (y ∷ ys) =
      let rest = insert_by key x ys in if leb (key x) (key y) then x ∷ y ∷ ys else y ∷ rest

  unfoldable pub order_by : (A → ℕ) → List A → List A
  unfolding insert_by
  order_by key [] = []
  order_by key (x ∷ xs) = insert_by key x (order_by key xs)

  unfoldable pub first_rows : ℕ → List A → List A
  first_rows zero xs = []
  first_rows (suc n) [] = []
  first_rows (suc n) (x ∷ xs) = x ∷ first_rows n xs

  module _ {κ} (P : A → Type κ) where
    All-insert_by :
        (key : A → ℕ) (x : A) (ys : List A) → P x → All P ys → All P (insert_by key x ys)
    unfolding insert_by
    All-insert_by key x [] p a = (p, tt)
    All-insert_by key x (y ∷ ys) p a = elim (Bool-cases (leb (key x) (key y))) [
      | inl e ↦ rw e (p, a)
      | inr e ↦ rw e (a.0, All-insert_by key x ys p a.1)
    ]

    pub All-order_by : (key : A → ℕ) (xs : List A) → All P xs → All P (order_by key xs)
    unfolding order_by
    All-order_by key [] a = tt
    All-order_by key (x ∷ xs) a =
        All-insert_by key x (order_by key xs) a.0 (All-order_by key xs a.1)

    pub All-first_rows : (n : ℕ) (xs : List A) → All P xs → All P (first_rows n xs)
    unfolding first_rows
    All-first_rows zero xs a = tt
    All-first_rows (suc n) [] a = tt
    All-first_rows (suc n) (x ∷ xs) a = (a.0, All-first_rows n xs a.1)

  insert_by-Permᴰ : (key : A → ℕ) (x : A) (ys : List A) → Permᴰ (insert_by key x ys) (x ∷ ys)
  unfolding insert_by
  insert_by-Permᴰ key x [] = Permᴰ.refl (x ∷ [])
  insert_by-Permᴰ key x (y ∷ ys) = elim (Bool-cases (leb (key x) (key y))) [
    | inl e ↦ rw e (Permᴰ.refl (x ∷ y ∷ ys))
    | inr e ↦ rw e (Permᴰ.trans (Permᴰ.cons refl (insert_by-Permᴰ key x ys)) (Permᴰ.swap refl refl))
  ]

  -- The rows of an ordered query are the rows of the query.
  pub order_by-Permᴰ : (key : A → ℕ) (xs : List A) → Permᴰ (order_by key xs) xs
  unfolding order_by
  order_by-Permᴰ key [] = Permᴰ.nil
  order_by-Permᴰ key (x ∷ xs) =
      Permᴰ.trans (insert_by-Permᴰ key x (order_by key xs))
        (Permᴰ.cons refl (order_by-Permᴰ key xs))

  abbrev pub IsSortedBy : (A → ℕ) → List A → Type 0
  IsSortedBy key [] = Unit
  IsSortedBy key (x ∷ []) = Unit
  IsSortedBy key (x ∷ y ∷ ys) = (key x ≤ key y) × IsSortedBy key (y ∷ ys)

  insert_by-IsSortedBy :
      (key : A → ℕ) (x : A) (ys : List A) → IsSortedBy key ys → IsSortedBy key (insert_by key x ys)
  unfolding insert_by
  insert_by-IsSortedBy key x [] s = tt
  insert_by-IsSortedBy key x (y ∷ []) s = elim (Bool-cases (leb (key x) (key y))) [
    | inl e ↦ rw e ((leb_iff (key x) (key y)).0 e, tt)
    | inr e ↦ rw e (ground arith, tt)
  ]
  insert_by-IsSortedBy key x (y ∷ z ∷ zs) s =
      let rest = insert_by-IsSortedBy key x (z ∷ zs) s.1 in
      elim (Bool-cases (leb (key x) (key y))) [
        | inl e ↦ rw e ((leb_iff (key x) (key y)).0 e, s)
        | inr e ↦ elim (Bool-cases (leb (key x) (key z))) [
          | inl c ↦ let r = rw c at rest in rw (e, c) (ground arith, r)
          | inr c ↦ let r = rw c at rest in rw (e, c) (s.0, r)
        ]
      ]

  pub order_by-IsSortedBy : (key : A → ℕ) (xs : List A) → IsSortedBy key (order_by key xs)
  unfolding order_by
  order_by-IsSortedBy key [] = tt
  order_by-IsSortedBy key (x ∷ xs) =
      insert_by-IsSortedBy key x (order_by key xs) (order_by-IsSortedBy key xs)

  length-insert_by :
      (key : A → ℕ) (x : A) (ys : List A) → length (insert_by key x ys) ≡ suc (length ys)
  unfolding insert_by
  length-insert_by key x [] = refl
  length-insert_by key x (y ∷ ys) = elim (Bool-cases (leb (key x) (key y))) [
    | inl e ↦ rw e refl
    | inr e ↦ rw e (ap suc (length-insert_by key x ys))
  ]

  pub length-order_by : (key : A → ℕ) (xs : List A) → length (order_by key xs) ≡ length xs
  unfolding order_by
  length-order_by key [] = refl
  length-order_by key (x ∷ xs) =
      length-insert_by key x (order_by key xs) ∙ ap suc (length-order_by key xs)
