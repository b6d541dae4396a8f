-- ===== src/ApiKeys/Token.antt =====
-- brightbean-studio/apps/api_keys/services.py: the text of a token, printed when a key is issued
-- and parsed with every request. A text is the list of its code points.
pub mod RoundTrip
use bright_bean_paysys.Common.{
  ℕ, zero, suc, Bool, true, false, ◌&&◌, ◌||◌, not, Option, none, some, List, [], ◌∷◌, ◌++◌, ◌==◌,
  leb, if◌then◌else◌, length,
}

abbrev pub Codes : Type 0
Codes = List ℕ

-- `==` of two texts
unfoldable pub same : Codes → Codes → Bool
same [] [] = true
same [] (_ ∷ _) = false
same (_ ∷ _) [] = false
same (x ∷ xs) (y ∷ ys) = x == y && same xs ys

-- `TOKEN_PREFIX` is "bb_studio_".
abbrev pub token_prefix : Codes
token_prefix = b'b' ∷ b'b' ∷ b'_' ∷ b's' ∷ b't' ∷ b'u' ∷ b'd' ∷ b'i' ∷ b'o' ∷ b'_' ∷ []

abbrev pub lookup_len : ℕ
lookup_len = 8

unfoldable pub first_chars : ℕ → Codes → Codes
first_chars zero cs = []
first_chars (suc n) [] = []
first_chars (suc n) (c ∷ cs) = c ∷ first_chars n cs

-- The two digests that the code computes with libraries: `hashlib.sha256(...).hexdigest()`, and the
-- hex digest of the HMAC under the pepper.
pub record Digests : Type 0 where
  pub sha256_hex : Codes → Codes
  pub hmac_hex : Codes → Codes

-- `_make_lookup`
unfoldable pub make_lookup : Digests → Codes → Codes
unfolding first_chars
make_lookup h random_part = first_chars lookup_len (h.sha256_hex random_part)

-- `plaintext`, in `issue_api_key`
unfoldable pub plaintext_token : Digests → Codes → Codes
plaintext_token h random_part = token_prefix ++ (random_part ++ (b'_' ∷ make_lookup h random_part))

-- `raw.startswith(prefix)` and the rest after it
unfoldable pub after_prefix : Codes → Codes → Option Codes
after_prefix [] raw = some raw
after_prefix (p ∷ ps) [] = none
after_prefix (p ∷ ps) (c ∷ raw) = if p == c then after_prefix ps raw else none

-- `body.rsplit("_", 1)`, where `none` is a single part
abbrev pub behind : ℕ → Option (Codes × Codes) → Codes → Option (Codes × Codes)
behind c (some (before, after)) rest = some (c ∷ before, after)
behind c none rest = if c == b'_' then some ([], rest) else none

unfoldable pub rsplit : Codes → Option (Codes × Codes)
rsplit [] = none
rsplit (c ∷ cs) = behind c (rsplit cs) cs

pub record ParsedToken : Type 0 where
  pub random_part : Codes
  pub lookup_prefix : Codes

-- The checks on the two parts.
unfoldable pub check_parts : Digests → Option (Codes × Codes) → Option ParsedToken
unfolding make_lookup same
check_parts h none = none
check_parts h (some (random_part, lookup)) =
    if not (length lookup == lookup_len)
    then none
    else if not (leb 32 (length random_part) && leb (length random_part) 64)
    then none
    else if not (same (make_lookup h random_part) lookup)
    then none
    else some (record { random_part = random_part; lookup_prefix = lookup })

abbrev pub parse_body : Digests → Option Codes → Option ParsedToken
parse_body h none = none
parse_body h (some body) = check_parts h (rsplit body)

-- `parse_token`; every argument here is a text.
unfoldable pub parse_token : Digests → Codes → Option ParsedToken
unfolding after_prefix rsplit check_parts
parse_token h raw = parse_body h (after_prefix token_prefix raw)
