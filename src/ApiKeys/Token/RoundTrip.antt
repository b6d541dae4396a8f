-- ===== src/ApiKeys/Token/RoundTrip.antt =====
-- Printing and parsing a token (brightbean-studio/apps/api_keys/services.py).
use bright_bean_paysys.Common.{
  ℕ, zero, suc, ◌≤◌, ◌≡◌, refl, ap, sym, ◌∙◌, ◌↔◌, Bool, true, not, Option, none, some, [], ◌∷◌,
  ◌++◌, ◌==◌, ==_iff, arith, length, all, Option-cases, inl, inr,
}
use bright_bean_paysys.ApiKeys.Token.{
  Codes, same, token_prefix, lookup_len, first_chars, Digests, make_lookup, plaintext_token,
  after_prefix, rsplit, ParsedToken, check_parts, parse_body, parse_token,
}

pub same_iff : (xs ys : Codes) → (same xs ys ≡ true) ↔ (xs ≡ ys)
unfolding same
same_iff [] [] = (λ _. refl, λ _. refl)
same_iff [] (y ∷ ys) = (λ h. cc, λ h. cc)
same_iff (x ∷ xs) [] = (λ h. cc, λ h. cc)
same_iff (x ∷ xs) (y ∷ ys) = (
  λ h. ground (arith, ==_iff x y, same_iff xs ys),
  λ h. ground (arith, ==_iff x y, same_iff xs ys),
)

-- What `hexdigest` promises: 64 characters, none of them an underscore.
pub record IsHex (h : Digests) : Type 0 where
  pub length_64 : (r : Codes) → length (h.sha256_hex r) ≡ 64
  pub no_underscore : (r : Codes) → all (λ c. not (c == b'_')) (h.sha256_hex r) ≡ true

after_prefix-append : (ps rest : Codes) → after_prefix ps (ps ++ rest) ≡ some rest
unfolding after_prefix
after_prefix-append [] rest = refl
after_prefix-append (p ∷ ps) rest = ground (arith, after_prefix-append ps rest)

after_prefix-eq : (ps raw rest : Codes) → after_prefix ps raw ≡ some rest → raw ≡ ps ++ rest
unfolding after_prefix
after_prefix-eq [] raw rest h = ground arith
after_prefix-eq (p ∷ ps) [] rest h = cc
after_prefix-eq (p ∷ ps) (c ∷ raw) rest h = ground (arith, ==_iff p c, after_prefix-eq ps raw rest)

-- no underscore, no split
rsplit-none : (cs : Codes) → all (λ c. not (c == b'_')) cs ≡ true → rsplit cs ≡ none
unfolding rsplit
rsplit-none [] h = refl
rsplit-none (c ∷ cs) h = ground (arith, rsplit-none cs)

-- The split is at the underscore that no other follows.
rsplit-append :
    (before after : Codes)
    → all (λ c. not (c == b'_')) after ≡ true
    → rsplit (before ++ (b'_' ∷ after)) ≡ some (before, after)
unfolding rsplit
rsplit-append [] after h = rw (rsplit-none after h) refl
rsplit-append (c ∷ before) after h = rw (rsplit-append before after h) refl

rsplit-eq :
    (cs before after : Codes) → rsplit cs ≡ some (before, after) → cs ≡ before ++ (b'_' ∷ after)
unfolding rsplit
rsplit-eq [] before after h = cc
rsplit-eq (c ∷ cs) before after h = elim (Option-cases (rsplit cs)) [
  | inl e ↦ ground (arith, rw e at h, ==_iff c b'_')
  | inr ((b, a), e) ↦ ground (arith, rw e at h, rsplit-eq cs b a e)
]

length-first_chars : (n : ℕ) (cs : Codes) → n ≤ length cs → length (first_chars n cs) ≡ n
unfolding first_chars
length-first_chars zero cs h = refl
length-first_chars (suc n) [] h = absurd (omega arith)
length-first_chars (suc n) (c ∷ cs) h = omega (arith, length-first_chars n cs)

all-first_chars :
    (p : ℕ → Bool) (n : ℕ) (cs : Codes) → all p cs ≡ true → all p (first_chars n cs) ≡ true
unfolding first_chars
all-first_chars p zero cs h = refl
all-first_chars p (suc n) [] h = refl
all-first_chars p (suc n) (c ∷ cs) h = ground (arith, all-first_chars p n cs)

-- Both checks of a secret's length.
abbrev pub IsSecret : Codes → Type 0
IsSecret r = (32 ≤ length r) × (length r ≤ 64)

abbrev parsed : Digests → Codes → ParsedToken
parsed h r = record { random_part = r; lookup_prefix = make_lookup h r }

check_parts-make_lookup :
    (h : Digests) (r : Codes)
    → length (make_lookup h r) ≡ lookup_len
    → IsSecret r
    → check_parts h (some (r, make_lookup h r)) ≡ some (parsed h r)
unfolding check_parts
check_parts-make_lookup h r l s =
    rw l (ground (arith, same_iff (make_lookup h r) (make_lookup h r)))

length-make_lookup : (h : Digests) (r : Codes) → IsHex h → length (make_lookup h r) ≡ lookup_len
unfolding make_lookup
length-make_lookup h r x =
    length-first_chars lookup_len (h.sha256_hex r) (omega (arith, x.length_64 r))

all-make_lookup :
    (h : Digests) (r : Codes) → IsHex h → all (λ c. not (c == b'_')) (make_lookup h r) ≡ true
unfolding make_lookup
all-make_lookup h r x =
    all-first_chars (λ c. not (c == b'_')) lookup_len (h.sha256_hex r) (x.no_underscore r)

parse_token-plaintext :
    (h : Digests) (r : Codes)
    → IsHex h
    → IsSecret r
    → parse_token h (plaintext_token h r) ≡ some (parsed h r)
unfolding parse_token plaintext_token
parse_token-plaintext h r x s =
    ap (check_parts h) (rsplit-append r (make_lookup h r) (all-make_lookup h r x))
    ∙ check_parts-make_lookup h r (length-make_lookup h r x) s

check_parts-eq :
    (h : Digests) (parts : Option (Codes × Codes)) (p : ParsedToken)
    → check_parts h parts ≡ some p
    → (parts ≡ some (p.random_part, make_lookup h p.random_part))
      × (p ≡ parsed h p.random_part)
      × IsSecret p.random_part
unfolding check_parts
check_parts-eq h none p e = cc
check_parts-eq h (some (r, l)) p e = ground (arith, same_iff (make_lookup h r) l)

parse_body-eq :
    (h : Digests) (body : Option Codes) (p : ParsedToken)
    → parse_body h body ≡ some p
    → (r : Codes) × (body ≡ some r) × (check_parts h (rsplit r) ≡ some p)
parse_body-eq h none p e = cc
parse_body-eq h (some r) p e = (r, refl, e)

plaintext_of_parse :
    (h : Digests) (raw : Codes) (p : ParsedToken)
    → parse_token h raw ≡ some p
    → (p ≡ parsed h p.random_part)
      × IsSecret p.random_part
      × (raw ≡ plaintext_token h p.random_part)
unfolding parse_token plaintext_token
plaintext_of_parse h raw p e =
    let (body, found, checked) = parse_body-eq h (after_prefix token_prefix raw) p e in
    let (parts, same_parts, secret) = check_parts-eq h (rsplit body) p checked in
    (
      same_parts,
      secret,
      after_prefix-eq token_prefix raw body found
          ∙ ap (λ b. token_prefix ++ b)
              (rsplit-eq body p.random_part (make_lookup h p.random_part) parts),
    )

-- Parsing undoes printing, and accepts nothing else: a text is parsed exactly to the secret that it
-- was printed from, with the lookup of that secret, and only for a secret of 32 to 64 characters.
-- The digest has 64 characters and no underscore among them.
pub parse_token_iff :
    (h : Digests)
    → IsHex h
    → (raw : Codes) (p : ParsedToken)
    → (parse_token h raw ≡ some p)
      ↔ (p ≡ record { random_part = p.random_part; lookup_prefix = make_lookup h p.random_part })
        × IsSecret p.random_part
        × (raw ≡ plaintext_token h p.random_part)
parse_token_iff h x raw p = (
  plaintext_of_parse h raw p,
  λ k. ap (parse_token h) k.2 ∙ parse_token-plaintext h p.random_part x k.1 ∙ ap some (sym k.0),
)
