-- ===== src/Media/Validators.antt =====
-- brightbean-studio/apps/media_library/validators.py: the type of a file by its first bytes.
use bright_bean_paysys.Common.{
  ℕ, zero, suc, Bool, ◌&&◌, ◌||◌, Option, none, some, is_some, List, [], ◌∷◌, ltb, if◌then◌else◌,
  Result, ok, err, ◌>>◌, raise_if,
}
use bright_bean_paysys.ApiKeys.Token.{Codes, first_chars, after_prefix}

-- `ALLOWED_MIME_TYPES`
pub data Mime : Type 0 where
  jpeg png webp image_gif mp4 quicktime avi webm pdf : Mime

pub data MediaType : Type 0 where
  image video gif document : MediaType

-- The settings of the media library, with the plans' quotas by slug.
pub record MediaSettings : Type 0 where
  pub max_image_size : ℕ
  pub max_video_size : ℕ
  pub storage_quota_enabled : Bool
  pub storage_quota_tiers : List (Codes × ℕ)
  pub storage_quota_default : ℕ

-- What a file or a stored object shows of itself.
pub record UploadedFile : Type 0 where
  pub content : Codes
  pub size : ℕ

pub data MediaError : Type 0 where
  unsupported_type too_large not_uploaded : MediaError
  quota_exceeded : ℕ → ℕ → ℕ → MediaError

-- `MIME_TO_FILE_TYPE`
abbrev pub determine_file_type : Mime → MediaType
determine_file_type jpeg = image
determine_file_type png = image
determine_file_type webp = image
determine_file_type image_gif = gif
determine_file_type mp4 = video
determine_file_type quicktime = video
determine_file_type avi = video
determine_file_type webm = video
determine_file_type pdf = document

-- `MAX_FILE_SIZES`
abbrev pub max_file_size : MediaSettings → MediaType → ℕ
max_file_size c image = c.max_image_size
max_file_size c gif = c.max_image_size
max_file_size c video = c.max_video_size
max_file_size c document = c.max_image_size

abbrev pub starts_with : Codes → Codes → Bool
starts_with prefix head = is_some (after_prefix prefix head)

unfoldable pub from : ℕ → Codes → Codes
from zero cs = cs
from (suc n) [] = []
from (suc n) (_ ∷ cs) = from n cs

abbrev pub riff : Codes
riff = b'R' ∷ b'I' ∷ b'F' ∷ b'F' ∷ []

abbrev pub gif_header : ℕ → Codes
gif_header version = b'G' ∷ b'I' ∷ b'F' ∷ b'8' ∷ version ∷ b'a' ∷ []

-- The signatures, in the order of the tests. Those behind an offset are compared with a slice of
-- their own length.
unfoldable pub signature : Codes → Option Mime
unfolding from after_prefix
signature head =
    if starts_with (255 ∷ 216 ∷ 255 ∷ []) head
    then some jpeg
    else if starts_with (137 ∷ b'P' ∷ b'N' ∷ b'G' ∷ 13 ∷ 10 ∷ 26 ∷ 10 ∷ []) head
    then some png
    else if starts_with (gif_header b'7') head || starts_with (gif_header b'9') head
    then some image_gif
    else if starts_with riff head && starts_with (b'W' ∷ b'E' ∷ b'B' ∷ b'P' ∷ []) (from 8 head)
    then some webp
    else if starts_with (b'f' ∷ b't' ∷ b'y' ∷ b'p' ∷ []) (from 4 head)
    then (if starts_with (b'q' ∷ b't' ∷ 32 ∷ 32 ∷ []) (from 8 head)
        then some quicktime
        else some mp4)
    else if starts_with (26 ∷ b'E' ∷ 223 ∷ 163 ∷ []) head
    then some webm
    else if starts_with riff head && starts_with (b'A' ∷ b'V' ∷ b'I' ∷ 32 ∷ []) (from 8 head)
    then some avi
    else if starts_with (b'%' ∷ b'P' ∷ b'D' ∷ b'F' ∷ b'-' ∷ []) head
    then some pdf
    else none

unfoldable pub sniff_mime : Codes → Option Mime
unfolding signature first_chars
sniff_mime content = signature (first_chars 32 content)

abbrev pub check_size : MediaSettings → ℕ → Option Mime → Result MediaError MediaType
check_size c size none = err unsupported_type
check_size c size (some mime) =
    raise_if (ltb (max_file_size c (determine_file_type mime)) size) too_large
    >> ok (determine_file_type mime)

-- The error of the pair that the code returns, or its type.
unfoldable pub validate_file : MediaSettings → UploadedFile → Result MediaError MediaType
unfolding sniff_mime
validate_file c file = check_size c file.size (sniff_mime file.content)
