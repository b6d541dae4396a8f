-- ===== src/Common/Rows.antt =====
-- A table as the list of its rows: updates by a test, and relations between a table and a later
-- one. Django's `.filter(test).update(...)` and `save(update_fields=...)` are such updates.
use mathlib.Core.Path.{◌≡◌}
use mathlib.Core.Logic.{inl, inr}
use mathlib.Core.Bool.{Bool, true}
use mathlib.Core.List.{List, [], ◌∷◌}
use bright_bean_paysys.Common.Tests.{if◌then◌else◌, Bool-cases}
use bright_bean_paysys.Common.Lists.{All}

module _ {A : Type 0} where
  abbrev pub update_where : (A → Bool) → (A → A) → List A → List A
  update_where p f [] = []
  update_where p f (x ∷ xs) = (if p x then f x else x) ∷ update_where p f xs

  -- Two tables with the same rows in the same order, each old row related to its new row.
  abbrev pub Rows : (A → A → Type 0) → List A → List A → Type 0
  Rows R [] [] = Unit
  Rows R [] (_ ∷ _) = ⊥
  Rows R (_ ∷ _) [] = ⊥
  Rows R (x ∷ xs) (y ∷ ys) = R x y × Rows R xs ys

  pub Rows-refl : (R : A → A → Type 0) → ((x : A) → R x x) → (xs : List A) → Rows R xs xs
  Rows-refl R r [] = tt
  Rows-refl R r (x ∷ xs) = (r x, Rows-refl R r xs)

  pub Rows-trans :
      (R : A → A → Type 0)
      → ((x y z : A) → R x y → R y z → R x z)
      → (xs ys zs : List A) → Rows R xs ys
      → Rows R ys zs
      → Rows R xs zs
  Rows-trans R t [] [] [] h k = tt
  Rows-trans R t [] [] (z ∷ zs) h k = k
  Rows-trans R t [] (y ∷ ys) zs h k = absurd h
  Rows-trans R t (x ∷ xs) [] zs h k = absurd h
  Rows-trans R t (x ∷ xs) (y ∷ ys) [] h k = k
  Rows-trans R t (x ∷ xs) (y ∷ ys) (z ∷ zs) h k = (t x y z h.0 k.0, Rows-trans R t xs ys zs h.1 k.1)

  pub Rows-compose :
      (R S T : A → A → Type 0)
      → ((x y z : A) → R x y → S y z → T x z)
      → (xs ys zs : List A) → Rows R xs ys
      → Rows S ys zs
      → Rows T xs zs
  Rows-compose R S T t [] [] [] h k = tt
  Rows-compose R S T t [] [] (z ∷ zs) h k = k
  Rows-compose R S T t [] (y ∷ ys) zs h k = absurd h
  Rows-compose R S T t (x ∷ xs) [] zs h k = absurd h
  Rows-compose R S T t (x ∷ xs) (y ∷ ys) [] h k = absurd k
  Rows-compose R S T t (x ∷ xs) (y ∷ ys) (z ∷ zs) h k =
      (t x y z h.0 k.0, Rows-compose R S T t xs ys zs h.1 k.1)

  pub update_where-Rows :
      (R : A → A → Type 0) (p : A → Bool) (f : A → A)
      → ((x : A) → R x x)
      → (xs : List A) → All (λ x. p x ≡ true → R x (f x)) xs
      → Rows R xs (update_where p f xs)
  update_where-Rows R p f r [] h = tt
  update_where-Rows R p f r (x ∷ xs) h = elim (Bool-cases (p x)) [
    | inl e ↦ rw e (h.0 e, update_where-Rows R p f r xs h.1)
    | inr e ↦ rw e (r x, update_where-Rows R p f r xs h.1)
  ]

  -- A property of every old row that the relation carries over holds of every new row.
  pub All-Rows :
      (P : A → Type 0) (R : A → A → Type 0)
      → ((x y : A) → R x y → P x → P y)
      → (xs ys : List A) → Rows R xs ys
      → All P xs
      → All P ys
  All-Rows P R c [] [] h a = tt
  All-Rows P R c [] (y ∷ ys) h a = absurd h
  All-Rows P R c (x ∷ xs) [] h a = absurd h
  All-Rows P R c (x ∷ xs) (y ∷ ys) h a = (c x y h.0 a.0, All-Rows P R c xs ys h.1 a.1)

  pub Rows-map :
      (R S : A → A → Type 0)
      → ((x y : A) → R x y → S x y)
      → (xs ys : List A) → Rows R xs ys
      → Rows S xs ys
  Rows-map R S c [] [] h = tt
  Rows-map R S c [] (y ∷ ys) h = absurd h
  Rows-map R S c (x ∷ xs) [] h = absurd h
  Rows-map R S c (x ∷ xs) (y ∷ ys) h = (c x y h.0, Rows-map R S c xs ys h.1)

  pub All-of : (P : A → Type 0) → ((x : A) → P x) → (xs : List A) → All P xs
  All-of P h [] = tt
  All-of P h (x ∷ xs) = (h x, All-of P h xs)

  pub All-update_where :
      (P : A → Type 0) (p : A → Bool) (f : A → A)
      → ((x : A) → p x ≡ true → P x → P (f x))
      → (xs : List A) → All P xs
      → All P (update_where p f xs)
  All-update_where P p f h [] a = tt
  All-update_where P p f h (x ∷ xs) a = elim (Bool-cases (p x)) [
    | inl e ↦ rw e (h x e a.0, All-update_where P p f h xs a.1)
    | inr e ↦ rw e (a.0, All-update_where P p f h xs a.1)
  ]
