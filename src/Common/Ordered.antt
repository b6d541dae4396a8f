-- ===== src/Common/Ordered.antt =====
-- The members of an ordered query are the members of the query.
use mathlib.Core.Logic.{◌↔◌, inl, inr}
use Prim.Native.Nat.{ℕ}
use mathlib.Core.List.{List, [], ◌∷◌, Memᴰ}
use mathlib.Core.List.Memᴰ.{head, tail}
use bright_bean_paysys.Common.Tests.{leb, Bool-cases}
use bright_bean_paysys.Common.Sorting.{insert_by, order_by}

module _ {ℓ} {A : Type ℓ} (key : A → ℕ) (y : A) where
  later :
      (x z : A) (rest zs : List A)
      → (Memᴰ y (x ∷ zs) → Memᴰ y rest)
      → Memᴰ y (x ∷ z ∷ zs)
      → Memᴰ y (z ∷ rest)
  later x z rest zs f (head d) = tail (f (head d))
  later x z rest zs f (tail (head d)) = head d
  later x z rest zs f (tail (tail m)) = tail (f (tail m))

  sooner :
      (x z : A) (rest zs : List A)
      → (Memᴰ y rest → Memᴰ y (x ∷ zs))
      → Memᴰ y (z ∷ rest)
      → Memᴰ y (x ∷ z ∷ zs)
  sooner x z rest zs f (head d) = tail (head d)
  sooner x z rest zs f (tail m) = swapped (f m)
    where
      swapped : Memᴰ y (x ∷ zs) → Memᴰ y (x ∷ z ∷ zs)
      swapped (head d) = head d
      swapped (tail n) = tail (tail n)

  insert_by-Memᴰ : (x : A) (ys : List A) → Memᴰ y (insert_by key x ys) ↔ Memᴰ y (x ∷ ys)
  unfolding insert_by
  insert_by-Memᴰ x [] = (λ m. m, λ m. m)
  insert_by-Memᴰ x (z ∷ zs) =
      let rest = insert_by-Memᴰ x zs in
      elim (Bool-cases (leb (key x) (key z))) [
        | inl e ↦ rw e (λ m. m, λ m. m)
        | inr e ↦
            rw e
              (sooner x z (insert_by key x zs) zs rest.0, later x z (insert_by key x zs) zs rest.1)
      ]

  both : (x : A) (xs ys : List A) → Memᴰ y xs ↔ Memᴰ y ys → Memᴰ y (x ∷ xs) → Memᴰ y (x ∷ ys)
  both x xs ys i (head d) = head d
  both x xs ys i (tail m) = tail (i.0 m)

  pub order_by-Memᴰ : (xs : List A) → Memᴰ y (order_by key xs) ↔ Memᴰ y xs
  unfolding order_by
  order_by-Memᴰ [] = (λ m. m, λ m. m)
  order_by-Memᴰ (x ∷ xs) =
      let rest = order_by-Memᴰ xs in
      let one = insert_by-Memᴰ x (order_by key xs) in
      (
        λ m. both x (order_by key xs) xs rest (one.0 m),
        λ m. one.1 (both x xs (order_by key xs) (rest.1, rest.0) m),
      )
