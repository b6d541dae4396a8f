-- ===== src/Media/Assets.antt =====
-- brightbean-studio/apps/media_library/services.py: how a file becomes an asset, sent with the
-- request or put into the storage before. A key of the storage is a number; that an object can be
-- deleted is given, since a failure to delete is ignored. The code inspects an object outside the lock
-- under which it registers the asset; the two are separate operations here as well.
use bright_bean_paysys.Common.{
  ℕ, Bool, Option, none, some, [], ◌∷◌, ◌++◌, ◌==◌, if◌then◌else◌, Result, ok, err, ◌>>=◌, ◌>>◌,
}
use bright_bean_paysys.Media.Validators.{
  Mime, MediaType, MediaSettings, UploadedFile, MediaError, not_uploaded, sniff_mime, validate_file,
}
use bright_bean_paysys.Media.Quotas.{Library, LibraryAsset, enforce_storage_quota}

-- Who uploads where.
pub record Place : Type 0 where
  pub organization : ℕ
  pub workspace : Option ℕ
  pub folder : Option ℕ
  pub uploaded_by : ℕ

abbrev pub new_asset : ℕ → Place → MediaType → Option Mime → ℕ → LibraryAsset
new_asset key p media_type mime size = record {
  id = key;
  organization = p.organization;
  workspace = p.workspace;
  folder = p.folder;
  media_type = media_type;
  mime_type = mime;
  file_size = size;
  uploaded_by = p.uploaded_by;
}

abbrev pub save_asset : LibraryAsset → Library → Library
save_asset a l = record l { assets = l.assets ++ (a ∷ []) }

unfoldable pub create_asset :
    MediaSettings → ℕ → Place → UploadedFile → Library → Result MediaError Library
unfolding validate_file enforce_storage_quota
create_asset c key p file l = do
  media_type ← validate_file c file
  enforce_storage_quota c p.organization file.size l
  ok (save_asset (new_asset key p media_type (sniff_mime file.content) file.size) l)

pub record PendingUpload : Type 0 where
  pub organization : ℕ
  pub workspace : ℕ
  pub storage_key : ℕ

pub record Inspected : Type 0 where
  pub size : ℕ
  pub media_type : MediaType
  pub mime : Option Mime

abbrev pub inspected : MediaSettings → ℕ → UploadedFile → Library → Result MediaError Inspected
inspected c org object l = do
  media_type ← validate_file c object
  enforce_storage_quota c org object.size l
  ok (record { size = object.size; media_type = media_type; mime = sniff_mime object.content })

unfoldable pub delete_object : Bool → ℕ → Library → Library
delete_object works key l =
    if works then record l { objects = λ k. if k == key then none else l.objects k } else l

-- An object that is refused is deleted.
abbrev pub or_deleted :
    Bool → ℕ → Result MediaError Inspected → Library → Result MediaError Inspected × Library
or_deleted works key (ok i) l = (ok i, l)
or_deleted works key (err e) l = (err e, delete_object works key l)

abbrev pub is_empty_file : UploadedFile → Bool
is_empty_file object = object.size == 0

abbrev pub inspect_found :
    MediaSettings
    → Bool
    → PendingUpload
    → Option UploadedFile
    → Library
    → Result MediaError Inspected × Library
inspect_found c works pending none l = (err not_uploaded, l)
inspect_found c works pending (some object) l =
    if is_empty_file object
    then (err not_uploaded, l)
    else or_deleted works pending.storage_key (inspected c pending.organization object l) l

unfoldable pub inspect_uploaded_object :
    MediaSettings → Bool → PendingUpload → Library → Result MediaError Inspected × Library
unfolding validate_file enforce_storage_quota delete_object
inspect_uploaded_object c works pending l =
    inspect_found c works pending (l.objects pending.storage_key) l

unfoldable pub register_uploaded_asset :
    ℕ → PendingUpload → Inspected → Option ℕ → ℕ → Library → Library
register_uploaded_asset key pending i folder uploaded_by l =
    save_asset
      (new_asset key
        (record {
          organization = pending.organization;
          workspace = some pending.workspace;
          folder = folder;
          uploaded_by = uploaded_by;
        })
        i.media_type i.mime i.size)
      l
