-- ===== src/Media/Stock.antt =====
-- When a library is in order, and that one more asset which is checked leaves it so
-- (brightbean-studio/apps/media_library/services.py, validators.py and quotas.py).
use bright_bean_paysys.Common.{
  ℕ, ◌+◌, ◌≤◌, ◌≡◌, refl, sym, subst, inl, inr, true, false, ◌&&◌, Option, none, some, List, [],
  ◌∷◌, ◌++◌, ◌==◌, ==_iff, ltb, arith, filter, All, Bool-cases, if◌then◌else◌, ok, raise_if,
  ok-injective,
}
use bright_bean_paysys.Common.Lookup.{bind_ok, raise_if-passed}
use bright_bean_paysys.Media.Validators.{
  Mime, MediaType, MediaSettings, too_large, determine_file_type, max_file_size, check_size,
}
use bright_bean_paysys.Media.Quotas.{
  Library, LibraryAsset, resolve_storage_quota, total_size, used_storage_bytes,
  enforce_storage_quota, override_bytes, resolve_plan_slug,
}
use bright_bean_paysys.Media.Assets.{save_asset}

-- The media type of an asset is that of its MIME type, and its size one that this type may have.
abbrev pub IsSound : MediaSettings → LibraryAsset → Type 0
IsSound c a =
    (mime : Mime) × (a.mime_type ≡ some mime)
    × (a.media_type ≡ determine_file_type mime)
    × (a.file_size ≤ max_file_size c a.media_type)

-- Every asset is sound, and an organization stays within its quota if it did before.
pub record IsStocked (c : MediaSettings) (org : ℕ) (l : Library) : Type 0 where
  pub sound : All (IsSound c) l.assets
  pub within : used_storage_bytes org l ≤ (resolve_storage_quota c org l).limit_bytes

pub check_size-IsSound :
    (c : MediaSettings) (size : ℕ) (o : Option Mime) (t : MediaType)
    → check_size c size o ≡ ok t
    → (mime : Mime) × (o ≡ some mime) × (t ≡ determine_file_type mime) × (size ≤ max_file_size c t)
check_size-IsSound c size none t h = cc
check_size-IsSound c size (some mime) t h =
    let (u, passed, e) =
      bind_ok (raise_if (ltb (max_file_size c (determine_file_type mime)) size) too_large) _ h in
    let d : determine_file_type mime ≡ t = ok-injective e in
    let small =
      raise_if-passed (ltb (max_file_size c (determine_file_type mime)) size) too_large passed in
    let fits : size ≤ max_file_size c (determine_file_type mime) = ground arith in
    (mime, refl, sym d, subst (λ t. size ≤ max_file_size c t) d fits)

total_size-append :
    (rows : List LibraryAsset) (org : ℕ) (a : LibraryAsset)
    → total_size (filter (λ a. a.organization == org) (rows ++ (a ∷ [])))
      ≡ total_size (filter (λ a. a.organization == org) rows)
        + (if a.organization == org then a.file_size else 0)
unfolding total_size
total_size-append [] org a = elim (Bool-cases (a.organization == org)) [
  | inl e ↦ rw e (omega arith)
  | inr e ↦ rw e refl
]
total_size-append (x ∷ rows) org a = elim (Bool-cases (x.organization == org)) [
  | inl e ↦ let i = total_size-append rows org a in rw (e, i) (omega arith)
  | inr e ↦ rw e (total_size-append rows org a)
]

All-append_one {ℓ κ} :
    {A : Type ℓ} (P : A → Type κ) (xs : List A) (x : A) → All P xs → P x → All P (xs ++ (x ∷ []))
All-append_one P [] x a p = (p, tt)
All-append_one P (y ∷ ys) x a p = (a.0, All-append_one P ys x a.1 p)

used-saved :
    (org : ℕ) (a : LibraryAsset) (l : Library)
    → used_storage_bytes org (save_asset a l)
      ≡ used_storage_bytes org l + (if a.organization == org then a.file_size else 0)
unfolding used_storage_bytes
used-saved org a l = total_size-append l.assets org a

limit-saved :
    (c : MediaSettings) (org : ℕ) (a : LibraryAsset) (l : Library)
    → resolve_storage_quota c org (save_asset a l) ≡ resolve_storage_quota c org l
unfolding resolve_storage_quota override_bytes resolve_plan_slug
limit-saved c org a l = refl

saved_within :
    (c : MediaSettings) (org : ℕ) (a : LibraryAsset) (l : Library)
    → used_storage_bytes org l ≤ (resolve_storage_quota c org l).limit_bytes
    → used_storage_bytes a.organization l + a.file_size
      ≤ (resolve_storage_quota c a.organization l).limit_bytes
    → used_storage_bytes org l + (if a.organization == org then a.file_size else 0)
      ≤ (resolve_storage_quota c org l).limit_bytes
saved_within c org a l w room = elim (Bool-cases (a.organization == org)) [
  | inl e ↦
      let same_org = (==_iff a.organization org).0 e in
      rw e (
        subst
          (λ o. used_storage_bytes o l + a.file_size ≤ (resolve_storage_quota c o l).limit_bytes)
          same_org room)
  | inr e ↦ rw e (omega arith)
]

pub saved-IsStocked :
    (c : MediaSettings) (org : ℕ) (a : LibraryAsset) (l : Library)
    → IsStocked c org l
    → IsSound c a
    → used_storage_bytes a.organization l + a.file_size
      ≤ (resolve_storage_quota c a.organization l).limit_bytes
    → IsStocked c org (save_asset a l)
saved-IsStocked c org a l s good room = record {
  sound = All-append_one (IsSound c) l.assets a s.sound good;
  within = rw (used-saved org a l, limit-saved c org a l) (saved_within c org a l s.within room);
}

pub enforced-room :
    (c : MediaSettings) (org n : ℕ) (l : Library)
    → c.storage_quota_enabled ≡ true
    → enforce_storage_quota c org n l ≡ ok tt
    → used_storage_bytes org l + n ≤ (resolve_storage_quota c org l).limit_bytes
unfolding enforce_storage_quota
enforced-room c org n l on h =
    let used = used_storage_bytes org l in
    let limit = (resolve_storage_quota c org l).limit_bytes in
    let passed = raise_if-passed (c.storage_quota_enabled && ltb limit (used + n)) _ h in
    let within : ltb limit (used + n) ≡ false = ground arith in ground arith
