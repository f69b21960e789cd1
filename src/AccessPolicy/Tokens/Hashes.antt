-- ===== src/AccessPolicy/Tokens/Hashes.antt =====
-- A hash that `HashToken` makes is one that `Validate` accepts and that its token matches.
use sealtun.Prelude.{
  ℕ, ◌*◌, ◌/◌, ◌%◌, ◌<◌, ◌≡◌, refl, true, false, [], ◌∷◌, ◌++◌, Bytes, str_eq_refl, ok, arith,
  length, any, all, All, All-append,
}
use sealtun.Http.{Platform}
use sealtun.Text.Affix.{has_prefix-append, trim_prefix-append}
use sealtun.Text.Trim.{trim_space}
use sealtun.Text.Visible.{Visible, trim_space_of_Visible}
use sealtun.AccessPolicy.Tokens.{
  hash_prefix, hex_digit, hex_encode, is_hex, hex_decodes, is_upper_hex, hash_token,
  token_hash_matches, validate_token_hash,
}

abbrev IsByte : ℕ → Type 0
IsByte b = b < 256

-- A lowercase hexadecimal digit, as the tests of the code see it.
abbrev IsDigit : ℕ → Type 0
IsDigit c = Visible c × (is_hex c ≡ true) × (is_upper_hex c ≡ false)

hex_digit-IsDigit : (n : ℕ) → n < 16 → IsDigit (hex_digit n)
unfolding hex_digit is_hex is_upper_hex
hex_digit-IsDigit n h = ground arith

hex_encode-IsDigit : (s : Bytes) → All IsByte s → All IsDigit (hex_encode s)
unfolding hex_encode
hex_encode-IsDigit [] h = tt
hex_encode-IsDigit (b ∷ s) (h, hs) = (
  hex_digit-IsDigit (b / 16) (omega arith),
  (hex_digit-IsDigit (b % 16) (omega arith), hex_encode-IsDigit s hs),
)

length-hex_encode : (s : Bytes) → length (hex_encode s) ≡ 2 * length s
unfolding hex_encode
length-hex_encode [] = refl
length-hex_encode (b ∷ s) = omega (arith, length-hex_encode s)

digits-Visible : (s : Bytes) → All IsDigit s → All Visible s
digits-Visible [] h = tt
digits-Visible (c ∷ s) (d, h) = (d.0, digits-Visible s h)

digits_tests : (s : Bytes) → All IsDigit s → (all is_hex s ≡ true) × (any is_upper_hex s ≡ false)
digits_tests [] h = (refl, refl)
digits_tests (c ∷ s) (d, h) = ground (arith, digits_tests s h, d)

prefix-Visible : All Visible hash_prefix
prefix-Visible = omega arith

module _ (platform : Platform) (token : Bytes) (size : length (platform.sha256 token) ≡ 32)
    (bytes : All IsByte (platform.sha256 token)) where
  abbrev digest : Bytes
  digest = hex_encode (platform.sha256 token)

  length-digest : length digest ≡ 64
  length-digest = omega (arith, length-hex_encode (platform.sha256 token), size)

  digest_tests : (hex_decodes digest ≡ true) × (any is_upper_hex digest ≡ false)
  unfolding hex_decodes
  digest_tests =
      let tests = digits_tests digest (hex_encode-IsDigit (platform.sha256 token) bytes) in
      (rw (tests.0, length-digest), tests.1)

  trim_space-hash_token : trim_space (hash_token platform token) ≡ hash_token platform token
  unfolding hash_token
  trim_space-hash_token = trim_space_of_Visible (hash_prefix ++ digest) (
      All-append Visible hash_prefix digest prefix-Visible
        (digits-Visible digest (hex_encode-IsDigit (platform.sha256 token) bytes)))

  -- If SHA-256 gives 32 bytes, the hash of a token passes `Validate`, and matches itself where
  -- tokens are compared.
  pub validate_token_hash-hash_token :
      (validate_token_hash (hash_token platform token) ≡ ok tt)
      × (token_hash_matches platform (hash_token platform token) (hash_token platform token) ≡ true)
  unfolding token_hash_matches validate_token_hash hash_token
  validate_token_hash-hash_token = (
    rw (
      trim_space-hash_token,
      has_prefix-append hash_prefix digest,
      trim_prefix-append hash_prefix digest,
      length-digest,
      digest_tests.1,
      digest_tests.0,
    ),
    rw trim_space-hash_token (str_eq_refl (hash_prefix ++ digest)),
  )
