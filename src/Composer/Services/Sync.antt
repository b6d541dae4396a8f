-- ===== src/Composer/Services/Sync.antt =====
-- `sync_post_scheduled_at` (brightbean-studio/apps/composer/services.py) against a description of
-- what `Post.scheduled_at` should be.
use bright_bean_paysys.Common.{
  ℕ, ◌≤◌, ◌≡◌, ap, ◌⊎◌, inl, inr, Bool, true, false, Option, none, some, List, [], ◌∷◌, arith, ◌==◌,
  ==_iff, leb, if◌then◌else◌, Bool-cases,
}
use bright_bean_paysys.Store.{Post}
use bright_bean_paysys.Composer.Services.{earliest, synced}

abbrev pub is_time_in : ℕ → List ℕ → Bool
is_time_in t [] = false
is_time_in t (u ∷ us) = if u == t then true else is_time_in t us

-- `r` is the least of the times, and absent when there is none.
pub record IsEarliest (times : List ℕ) (r : Option ℕ) : Type 0 where
  pub absent : times ≡ [] → r ≡ none
  pub present :
      (t : ℕ)
      → is_time_in t times ≡ true
      → (m : ℕ) × (r ≡ some m) × (m ≤ t) × (is_time_in m times ≡ true)

pub earliest-le : (t : ℕ) (ts : List ℕ) (u : ℕ) → is_time_in u (t ∷ ts) ≡ true → earliest t ts ≤ u
unfolding earliest
earliest-le t [] u h = ground arith
earliest-le t (v ∷ ts) u h = elim (Bool-cases (leb t v)) [
  | inl e ↦ rw e (ground (arith, earliest-le t ts u, earliest-le t ts t))
  | inr e ↦ rw e (ground (arith, earliest-le v ts u, earliest-le v ts v))
]

earliest-eq :
    (t v : ℕ) (ts : List ℕ)
    → (earliest t (v ∷ ts) ≡ earliest t ts) ⊎ (earliest t (v ∷ ts) ≡ earliest v ts)
unfolding earliest
earliest-eq t v ts = elim (Bool-cases (leb t v)) [
  | inl e ↦ inl (ap (λ b. earliest (if b then t else v) ts) e)
  | inr e ↦ inr (ap (λ b. earliest (if b then t else v) ts) e)
]

mem_of-eq :
    (t v m : ℕ) (ts : List ℕ)
    → (m ≡ earliest t ts) ⊎ (m ≡ earliest v ts)
    → is_time_in (earliest t ts) (t ∷ ts) ≡ true
    → is_time_in (earliest v ts) (v ∷ ts) ≡ true
    → is_time_in m (t ∷ v ∷ ts) ≡ true
mem_of-eq t v m ts (inl e) h k = rw e (ground arith)
mem_of-eq t v m ts (inr e) h k = rw e (ground arith)

pub earliest-mem : (t : ℕ) (ts : List ℕ) → is_time_in (earliest t ts) (t ∷ ts) ≡ true
earliest-mem t [] = unfold earliest in ground arith
earliest-mem t (v ∷ ts) =
    mem_of-eq t v (earliest t (v ∷ ts)) ts (earliest-eq t v ts) (earliest-mem t ts)
      (earliest-mem v ts)

-- The post's time becomes the least of its children's times, or is cleared when no child has one.
pub synced-IsEarliest :
    (now : ℕ) (times : List ℕ) (post : Post) → IsEarliest times (synced now times post).scheduled_at
unfolding synced
synced-IsEarliest now [] post = record { absent = λ _. ground arith; present = λ t h. cc }
synced-IsEarliest now (t ∷ ts) post = record {
  absent = λ e. cc;
  present = λ u h. (earliest t ts, ground (arith), earliest-le t ts u h, earliest-mem t ts);
}

-- Once a post is in sync, syncing it again changes nothing, its modification time included.
pub synced_idem :
    (now later : ℕ) (times : List ℕ) (post : Post)
    → synced later times (synced now times post) ≡ synced now times post
unfolding synced
synced_idem now later [] post = ground arith
synced_idem now later (t ∷ ts) post = ground (arith, ==_iff (earliest t ts) (earliest t ts))
