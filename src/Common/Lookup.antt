-- ===== src/Common/Lookup.antt =====
-- Rows found by a test, `.filter(...).first()` and `.get(...)`, and the parts of a chain of checks
-- that goes through.
use mathlib.Core.Path.{◌≡◌, refl, sym, subst}
use mathlib.Core.Logic.{inl, inr}
use mathlib.Core.Bool.{Bool, true, false, not}
use mathlib.Core.Option.{Option, none, some, some_inj}
use mathlib.Core.List.{map, List, [], ◌∷◌, ◌++◌, Memᴰ}
use mathlib.Core.List.Memᴰ
use mathlib.Core.List.Memᴰ.{head, tail}
use native.Mathlib.Omega.{arith}
use bright_bean_paysys.Common.Tests.{Bool-cases, Result, ok, err, ◌>>=◌, raise_if}
use bright_bean_paysys.Common.Lists.{find, any, filter, All}

-- Both parts of a chain that goes through.
pub bind_ok {ℓ κ} :
    {E : Type 0} {A : Type ℓ} {B : Type κ} (m : Result E A) (f : A → Result E B) {b : B}
    → (m >>= f) ≡ ok b
    → (a : A) × (m ≡ ok a) × (f a ≡ ok b)
bind_ok (ok a) f h = (a, refl, h)
bind_ok (err e) f h = cc

pub raise_if-ok : {E : Type 0} (b : Bool) (e : E) → raise_if (not b) e ≡ ok tt → b ≡ true
raise_if-ok true e h = refl
raise_if-ok false e h = cc

pub raise_if-passed : {E : Type 0} (b : Bool) (e : E) → raise_if b e ≡ ok tt → b ≡ false
raise_if-passed true e h = cc
raise_if-passed false e h = refl

module _ {ℓ} {A : Type ℓ} where
  pub find-IsFound :
      (p : A → Bool) (xs : List A) (x : A) → find p xs ≡ some x → Memᴰ x xs × (p x ≡ true)
  find-IsFound p [] x h = cc
  find-IsFound p (y ∷ xs) x h = elim (Bool-cases (p y)) [
    | inl e ↦ let d : y ≡ x = some_inj.0 (rw e at h) in (head (sym d), rw (sym d) e)
    | inr e ↦ let f = find-IsFound p xs x (rw e at h) in (tail f.0, f.1)
  ]

  -- A test that some row passes finds a row.
  pub any-IsFound :
      (p : A → Bool) (xs : List A) → any p xs ≡ true → (x : A) × Memᴰ x xs × (p x ≡ true)
  any-IsFound p [] h = cc
  any-IsFound p (y ∷ xs) h = elim (Bool-cases (p y)) [
    | inl e ↦ (y, head refl, e)
    | inr e ↦ let (x, m, q) = any-IsFound p xs (rw e at h) in (x, tail m, q)
  ]

  pub any-Memᴰ : (p : A → Bool) (xs : List A) (x : A) → Memᴰ x xs → p x ≡ true → any p xs ≡ true
  any-Memᴰ p [] x m h = absurd (Memᴰ.not-nil m)
  any-Memᴰ p (y ∷ xs) x (head d) h = rw (sym d, h) refl
  any-Memᴰ p (y ∷ xs) x (tail m) h = ground (arith, any-Memᴰ p xs x m h)

  pub find-append_none :
      (p : A → Bool) (xs ys : List A) → find p xs ≡ none → find p (xs ++ ys) ≡ find p ys
  find-append_none p [] ys h = refl
  find-append_none p (x ∷ xs) ys h = elim (Bool-cases (p x)) [
    | inl e ↦ let h' : ◌≡◌ {A = Option A} (some x) none = rw e at h in cc
    | inr e ↦ rw e (find-append_none p xs ys (rw e at h))
  ]

  pub find-append_some :
      (p : A → Bool) (xs ys : List A) (x : A) → find p xs ≡ some x → find p (xs ++ ys) ≡ some x
  find-append_some p [] ys x h = cc
  find-append_some p (y ∷ xs) ys x h = elim (Bool-cases (p y)) [
    | inl e ↦ rw e (rw e at h)
    | inr e ↦ rw e (find-append_some p xs ys x (rw e at h))
  ]

  of_cons :
      (p : A → Bool) (x y : A) (xs rest : List A)
      → p y ≡ true
      → (Memᴰ x rest → Memᴰ x xs × (p x ≡ true))
      → Memᴰ x (y ∷ rest)
      → Memᴰ x (y ∷ xs) × (p x ≡ true)
  of_cons p x y xs rest e f (head d) = (head d, rw d e)
  of_cons p x y xs rest e f (tail n) = (tail (f n).0, (f n).1)

  -- A filtered row is a row that passes.
  pub Memᴰ-of_filter :
      (p : A → Bool) (x : A) (xs : List A) → Memᴰ x (filter p xs) → Memᴰ x xs × (p x ≡ true)
  Memᴰ-of_filter p x [] m = absurd (Memᴰ.not-nil m)
  Memᴰ-of_filter p x (y ∷ xs) m = elim (Bool-cases (p y)) [
    | inl e ↦ of_cons p x y xs (filter p xs) e (Memᴰ-of_filter p x xs) (rw e at m)
    | inr e ↦ let f = Memᴰ-of_filter p x xs (rw e at m) in (tail f.0, f.1)
  ]

pub Memᴰ-of_map {ℓ κ} :
    {A : Type ℓ} {B : Type κ} (f : A → B) (y : B) (xs : List A)
    → Memᴰ y (map f xs)
    → (x : A) × Memᴰ x xs × (f x ≡ y)
Memᴰ-of_map f y [] m = absurd (Memᴰ.not-nil m)
Memᴰ-of_map f y (x ∷ xs) (head d) = (x, head refl, sym d)
Memᴰ-of_map f y (x ∷ xs) (tail m) = let (z, z_in, e) = Memᴰ-of_map f y xs m in (z, tail z_in, e)

pub All-Memᴰ {ℓ κ} :
    {A : Type ℓ} (P : A → Type κ) (xs : List A) (x : A) → All P xs → Memᴰ x xs → P x
All-Memᴰ P [] x a m = absurd (Memᴰ.not-nil m)
All-Memᴰ P (y ∷ xs) x a (head d) = subst P (sym d) a.0
All-Memᴰ P (y ∷ xs) x a (tail m) = All-Memᴰ P xs x a.1 m
