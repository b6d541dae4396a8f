-- ===== src/Media/Examples.antt =====
-- Tests and examples of the media library: a PDF that is sent, an image that is put into the storage,
-- and a quota from a setting.
use bright_bean_paysys.Common.{
  ◌+◌, ◌≤◌, ◌≡◌, ◌↔◌, refl, true, ◌==◌, if◌then◌else◌, none, some, [], ◌∷◌, arith, ok, err,
}
use bright_bean_paysys.ApiKeys.Token.{same, after_prefix, first_chars}
use bright_bean_paysys.Media.Validators.{
  MediaSettings, UploadedFile, Mime, pdf, avi, webp, quota_exceeded, determine_file_type,
  max_file_size, sniff_mime, validate_file, signature, from,
}
use bright_bean_paysys.Media.Quotas.{
  Library, json_text, override_setting_key, override_bytes, digits, used_storage_bytes, total_size,
  resolve_storage_quota, enforce_storage_quota,
}
use bright_bean_paysys.Media.Assets.{
  Place, PendingUpload, Inspected, create_asset, inspect_uploaded_object, register_uploaded_asset,
}
use bright_bean_paysys.Media.Stock.{IsStocked}
use bright_bean_paysys.Media.Laws.{
  done, created, registered, Uploads-IsStocked, create_asset_ok_iff,
}

abbrev settings : MediaSettings
settings = record {
  max_image_size = 100;
  max_video_size = 1000;
  storage_quota_enabled = true;
  storage_quota_tiers = [];
  storage_quota_default = 90;
}

abbrev place : Place
place = record { organization = 1; workspace = some 2; folder = none; uploaded_by = 3 }

abbrev a_pdf : UploadedFile
a_pdf = record { content = b'%' ∷ b'P' ∷ b'D' ∷ b'F' ∷ b'-' ∷ b'1' ∷ []; size = 30 }

abbrev a_png : UploadedFile
a_png = record { content = 137 ∷ b'P' ∷ b'N' ∷ b'G' ∷ 13 ∷ 10 ∷ 26 ∷ 10 ∷ []; size = 50 }

-- The object 7 is a picture. The setting allows 85 bytes.
abbrev library : Library
library = record {
  assets = [];
  org_settings =
      record { organization = 1; key = override_setting_key; value = json_text (b'8' ∷ b'5' ∷ []) }
      ∷ [];
  subscriptions = [];
  objects = λ k. if k == 7 then some a_png else none;
}

override : override_bytes 1 library ≡ some 85
unfolding override_bytes digits same
override = refl

-- Files of the RIFF kind are told apart by the letters after their length.
told_apart :
    (sniff_mime (b'R' ∷ b'I' ∷ b'F' ∷ b'F' ∷ 1 ∷ 2 ∷ 3 ∷ 4 ∷ b'A' ∷ b'V' ∷ b'I' ∷ 32 ∷ [])
      ≡ some avi)
    × (sniff_mime (b'R' ∷ b'I' ∷ b'F' ∷ b'F' ∷ 1 ∷ 2 ∷ 3 ∷ 4 ∷ b'W' ∷ b'E' ∷ b'B' ∷ b'P' ∷ [])
        ≡ some webp)
unfolding sniff_mime signature from after_prefix first_chars
told_apart = (refl, refl)

sniffed_pdf : sniff_mime a_pdf.content ≡ some pdf
unfolding sniff_mime signature from after_prefix first_chars
sniffed_pdf = refl

sent : (m : Library) × (create_asset settings 10 place a_pdf library ≡ ok m)
unfolding create_asset validate_file enforce_storage_quota sniff_mime signature from after_prefix
    first_chars used_storage_bytes total_size resolve_storage_quota override_bytes digits same
sent = (_, refl)

abbrev pending : PendingUpload
pending = record { organization = 1; workspace = 2; storage_key = 7 }

seen : (i : Inspected) × ((inspect_uploaded_object settings true pending sent.0).0 ≡ ok i)
unfolding inspect_uploaded_object validate_file enforce_storage_quota sniff_mime signature from
    after_prefix first_chars used_storage_bytes total_size resolve_storage_quota override_bytes
    digits same sent
seen = (_, refl)

-- A third file of six bytes is one byte too large for the rest.
refused_by_quota :
    create_asset settings 12 place
      (record a_pdf { size = 6 })
      (register_uploaded_asset 11 pending seen.0 none 3 sent.0)
    ≡ err (quota_exceeded 80 85 6)
unfolding create_asset validate_file enforce_storage_quota sniff_mime signature from after_prefix
    first_chars used_storage_bytes total_size resolve_storage_quota override_bytes digits same sent
    seen register_uploaded_asset
refused_by_quota = refl

empty-IsStocked : IsStocked settings 1 library
unfolding used_storage_bytes total_size
empty-IsStocked = record { sound = tt; within = omega arith }

Uploads-IsStocked_example : IsStocked settings 1 (
    register_uploaded_asset 11 pending seen.0 none 3
      (inspect_uploaded_object settings true pending sent.0).1)
Uploads-IsStocked_example =
    Uploads-IsStocked settings 1 library
      (register_uploaded_asset 11 pending seen.0 none 3
        (inspect_uploaded_object settings true pending sent.0).1)
      refl empty-IsStocked
      (created 10 place a_pdf sent.1 (registered true 11 pending none 3 seen.0 seen.1 done))

create_asset_ok_iff_example :
    ((m : Library) × (create_asset settings 10 place a_pdf library ≡ ok m)) ↔ (
      (mime : Mime) × (sniff_mime a_pdf.content ≡ some mime)
      × (a_pdf.size ≤ max_file_size settings (determine_file_type mime))
      × (settings.storage_quota_enabled ≡ true
          → used_storage_bytes place.organization library + a_pdf.size
            ≤ (resolve_storage_quota settings place.organization library).limit_bytes))
create_asset_ok_iff_example = create_asset_ok_iff settings 10 place a_pdf library
