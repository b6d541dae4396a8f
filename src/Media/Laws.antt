-- ===== src/Media/Laws.antt =====
-- What a library holds after any uploads (brightbean-studio/apps/media_library/services.py,
-- validators.py and quotas.py).
use bright_bean_paysys.Common.{
  ℕ, ◌+◌, ◌≤◌, ◌↔◌, ◌≡◌, refl, sym, subst, inl, inr, Bool, true, false, Option, none, some, ltb,
  arith, Bool-cases, Result, ok, err, ok-injective,
}
use bright_bean_paysys.Common.Lookup.{bind_ok}
use bright_bean_paysys.Media.Validators.{
  Mime, MediaSettings, UploadedFile, MediaError, not_uploaded, determine_file_type, max_file_size,
  sniff_mime, validate_file,
}
use bright_bean_paysys.Media.Quotas.{
  Library, resolve_storage_quota, used_storage_bytes, enforce_storage_quota, override_bytes,
  resolve_plan_slug,
}
use bright_bean_paysys.Media.Stock.{IsStocked, check_size-IsSound, saved-IsStocked, enforced-room}
use bright_bean_paysys.Media.Assets.{
  Place, new_asset, save_asset, create_asset, PendingUpload, Inspected, inspected, delete_object,
  or_deleted, is_empty_file, inspect_found, inspect_uploaded_object, register_uploaded_asset,
}

-- Uploads, one after the other: a request that carries a file, a finished upload to the storage
-- with its inspection and registration, or an upload of either kind that is refused.
pub data Uploads (c : MediaSettings) : Library → Library → Type 0 where
  done : {l : Library} → Uploads c l l
  created :
      {l m t : Library} (key : ℕ) (p : Place) (file : UploadedFile)
      → create_asset c key p file l ≡ ok m
      → Uploads c m t
      → Uploads c l t
  registered :
      {l t : Library} (works : Bool) (key : ℕ) (pending : PendingUpload) (folder : Option ℕ)
      (user : ℕ) (i : Inspected)
      → (inspect_uploaded_object c works pending l).0 ≡ ok i
      → Uploads c
          (register_uploaded_asset key pending i folder user
            (inspect_uploaded_object c works pending l).1)
          t
      → Uploads c l t
  refused :
      {l t : Library} (works : Bool) (pending : PendingUpload) (e : MediaError)
      → (inspect_uploaded_object c works pending l).0 ≡ err e
      → Uploads c (inspect_uploaded_object c works pending l).1 t
      → Uploads c l t

create_asset-IsStocked :
    (c : MediaSettings) (org key : ℕ) (p : Place) (file : UploadedFile) (l m : Library)
    → c.storage_quota_enabled ≡ true
    → IsStocked c org l
    → create_asset c key p file l ≡ ok m
    → IsStocked c org m
unfolding create_asset validate_file
create_asset-IsStocked c org key p file l m on s h =
    let (t, valid, h') = bind_ok (validate_file c file) _ h in
    let (u, room, e) = bind_ok (enforce_storage_quota c p.organization file.size l) _ h' in
    let a = new_asset key p t (sniff_mime file.content) file.size in
    subst (IsStocked c org) (ok-injective e) (
      saved-IsStocked c org a l s (check_size-IsSound c file.size (sniff_mime file.content) t valid)
        (enforced-room c p.organization file.size l on room))

-- What an inspection that went through saw.
record IsInspected (c : MediaSettings) (org : ℕ) (l : Library) (i : Inspected) : Type 0 where
  pub checked :
      (mime : Mime) × (i.mime ≡ some mime)
      × (i.media_type ≡ determine_file_type mime)
      × (i.size ≤ max_file_size c i.media_type)
  pub room : used_storage_bytes org l + i.size ≤ (resolve_storage_quota c org l).limit_bytes

inspected-IsInspected :
    (c : MediaSettings) (org : ℕ) (object : UploadedFile) (l : Library) (i : Inspected)
    → c.storage_quota_enabled ≡ true
    → inspected c org object l ≡ ok i
    → IsInspected c org l i
unfolding validate_file
inspected-IsInspected c org object l i on h =
    let (t, valid, h') = bind_ok (validate_file c object) _ h in
    let (u, room, e) = bind_ok (enforce_storage_quota c org object.size l) _ h' in
    subst (IsInspected c org l) (ok-injective e) (record {
      checked = check_size-IsSound c object.size (sniff_mime object.content) t valid;
      room = enforced-room c org object.size l on room;
    })

or_deleted-ok :
    (works : Bool) (key : ℕ) (r : Result MediaError Inspected) (l : Library) (i : Inspected)
    → (or_deleted works key r l).0 ≡ ok i
    → (r ≡ ok i) × ((or_deleted works key r l).1 ≡ l)
or_deleted-ok works key (ok x) l i h = (h, refl)
or_deleted-ok works key (err e) l i h = cc

inspect_found-IsInspected :
    (c : MediaSettings) (works : Bool) (pending : PendingUpload) (o : Option UploadedFile)
    (l : Library) (i : Inspected)
    → c.storage_quota_enabled ≡ true
    → (inspect_found c works pending o l).0 ≡ ok i
    → IsInspected c pending.organization l i × ((inspect_found c works pending o l).1 ≡ l)
inspect_found-IsInspected c works pending none l i on h = cc
inspect_found-IsInspected c works pending (some object) l i on h =
    elim (Bool-cases (is_empty_file object)) [
      | inl e ↦
          let h' : ◌≡◌ {A = Result MediaError Inspected} (err not_uploaded) (ok i) = rw e at h in cc
      | inr e ↦
          let (passed, same_rows) =
            or_deleted-ok works pending.storage_key (inspected c pending.organization object l) l i
              (rw e at h) in
          (inspected-IsInspected c pending.organization object l i on passed, rw e same_rows)
    ]

-- A refusal touches the objects only.
delete_object-IsStocked :
    (c : MediaSettings) (org : ℕ) (works : Bool) (key : ℕ) (l : Library)
    → IsStocked c org l
    → IsStocked c org (delete_object works key l)
unfolding delete_object used_storage_bytes resolve_storage_quota override_bytes resolve_plan_slug
delete_object-IsStocked c org true key l s = record { sound = s.sound; within = s.within }
delete_object-IsStocked c org false key l s = s

or_deleted-IsStocked :
    (c : MediaSettings) (org : ℕ) (works : Bool) (key : ℕ) (r : Result MediaError Inspected)
    (l : Library)
    → IsStocked c org l
    → IsStocked c org (or_deleted works key r l).1
or_deleted-IsStocked c org works key (ok i) l s = s
or_deleted-IsStocked c org works key (err e) l s = delete_object-IsStocked c org works key l s

inspect_found-IsStocked :
    (c : MediaSettings) (org : ℕ) (works : Bool) (pending : PendingUpload) (o : Option UploadedFile)
    (l : Library)
    → IsStocked c org l
    → IsStocked c org (inspect_found c works pending o l).1
inspect_found-IsStocked c org works pending none l s = s
inspect_found-IsStocked c org works pending (some object) l s =
    elim (Bool-cases (is_empty_file object)) [
      | inl e ↦ rw e s
      | inr e ↦ rw e (
          or_deleted-IsStocked c org works pending.storage_key
            (inspected c pending.organization object l) l s)
    ]

register-IsStocked :
    (c : MediaSettings) (org key : ℕ) (pending : PendingUpload) (i : Inspected) (folder : Option ℕ)
    (user : ℕ) (l : Library)
    → IsStocked c org l
    → IsInspected c pending.organization l i
    → IsStocked c org (register_uploaded_asset key pending i folder user l)
unfolding register_uploaded_asset
register-IsStocked c org key pending i folder user l s d =
    saved-IsStocked c org _ l s d.checked d.room

-- With the quota enabled and settings that stay, any sequence of uploads, each inspection directly
-- followed by its registration, from a library of sound assets within the quota of an organization ends
-- in one: each asset has the media type of its MIME type and a size that this type may have, and the
-- organization uses no more than its quota.
pub Uploads-IsStocked :
    (c : MediaSettings) (org : ℕ) (l t : Library)
    → c.storage_quota_enabled ≡ true
    → IsStocked c org l
    → Uploads c l t
    → IsStocked c org t
unfolding inspect_uploaded_object
Uploads-IsStocked c org l t on s done = s
Uploads-IsStocked c org l t on s (created key p file h rest) =
    Uploads-IsStocked c org _ t on (create_asset-IsStocked c org key p file l _ on s h) rest
Uploads-IsStocked c org l t on s (registered works key pending folder user i h rest) =
    let (seen, same_rows) =
      inspect_found-IsInspected c works pending (l.objects pending.storage_key) l i on h in
    Uploads-IsStocked c org _ t on
      (subst (λ m. IsStocked c org (register_uploaded_asset key pending i folder user m))
        (sym same_rows) (register-IsStocked c org key pending i folder user l s seen))
      rest
Uploads-IsStocked c org l t on s (refused works pending e h rest) =
    Uploads-IsStocked c org _ t on
      (inspect_found-IsStocked c org works pending (l.objects pending.storage_key) l s) rest

room-enforced :
    (c : MediaSettings) (org n : ℕ) (l : Library)
    → (c.storage_quota_enabled ≡ true
        → used_storage_bytes org l + n ≤ (resolve_storage_quota c org l).limit_bytes)
    → enforce_storage_quota c org n l ≡ ok tt
unfolding enforce_storage_quota
room-enforced c org n l room = elim (Bool-cases c.storage_quota_enabled) [
  | inl e ↦
      let fits = room e in
      let small : ltb (resolve_storage_quota c org l).limit_bytes (used_storage_bytes org l + n)
          ≡ false =
        ground arith in
      rw (e, small) refl
  | inr e ↦ rw e refl
]

-- A file becomes an asset exactly when its first bytes are those of a known type, it is no larger
-- than files of this type may be and, with the quota enabled, no larger than what is left of it.
pub create_asset_ok_iff :
    (c : MediaSettings) (key : ℕ) (p : Place) (file : UploadedFile) (l : Library)
    → ((m : Library) × (create_asset c key p file l ≡ ok m)) ↔ (
        (mime : Mime) × (sniff_mime file.content ≡ some mime)
        × (file.size ≤ max_file_size c (determine_file_type mime))
        × (c.storage_quota_enabled ≡ true
            → used_storage_bytes p.organization l + file.size
              ≤ (resolve_storage_quota c p.organization l).limit_bytes))
unfolding create_asset validate_file
create_asset_ok_iff c key p file l = (
  λ (m, h).
      let (t, valid, h') = bind_ok (validate_file c file) _ h in
      let (u, room, e) = bind_ok (enforce_storage_quota c p.organization file.size l) _ h' in
      let (mime, sniffed, kind, small) =
        check_size-IsSound c file.size (sniff_mime file.content) t valid in
      (
        mime,
        sniffed,
        subst (λ t. file.size ≤ max_file_size c t) kind small,
        λ on. enforced-room c p.organization file.size l on room,
      ),
  λ (mime, sniffed, small, room).
      let fits : ltb (max_file_size c (determine_file_type mime)) file.size ≡ false =
        ground arith in
      let m =
        save_asset (new_asset key p (determine_file_type mime) (sniff_mime file.content) file.size)
          l in
      (m, rw (sniffed, fits, room-enforced c p.organization file.size l room) refl),
)
