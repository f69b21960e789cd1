-- ===== src/PublicAuth.antt =====
-- pkg/publicauth/basic.go: the basic auth credentials of a public tunnel. Passwords are hashed by
-- bcrypt, a parameter; older sessions hold the hexadecimal SHA-256 of the password.
pub mod Credentials
use sealtun.Prelude.{
  ℕ, Bool, true, false, not, ◌&&◌, ◌||◌, List, [], ◌∷◌, Option, none, some, Bytes, codes, str_eq,
  Result, ok, err, ◌>>=◌, ◌>>◌, guard, or_err, is_ok, leb, ltb, ◌==◌, if◌then◌else◌, length,
}
use sealtun.Text.{contains}
use sealtun.Text.Trim.{trim_space}
use sealtun.AccessPolicy.Tokens.{hex_encode, hex_decodes}

pub data Error : Type 0 where
  username_required has_colon has_control password_required hashing_failed not_bcrypt : Error

pub record BasicAuth : Type 0 where
  pub username : Bytes
  pub password_hash : Bytes

-- What the package uses of bcrypt and of SHA-256. The salt of a hash is drawn when it is made.
pub record Hashing : Type 0 where
  pub generate : Bytes → Bytes → Option Bytes
  pub has_cost : Bytes → Bool
  pub compare : Bytes → Bytes → Bool
  pub sha256 : Bytes → Bytes

-- `unicode.IsControl` over the characters of a UTF-8 text: U+0000 to U+001F and U+007F to U+009F,
-- of which those from U+0080 on have two bytes, the first 0xC2.
unfoldable pub has_control_rune : Bytes → Bool
has_control_rune [] = false
has_control_rune (c ∷ []) = ltb c 32 || c == 127
has_control_rune (c ∷ d ∷ s) =
    ltb c 32 || c == 127 || c == 0xc2 && leb 0x80 d && leb d 0x9f || has_control_rune (d ∷ s)

unfoldable pub validate_username : Bytes → Result Error (Unit {0})
validate_username username = do
  guard (not (str_eq username [])) username_required
  guard (not (contains username (codes ":"))) has_colon
  guard (not (has_control_rune username)) has_control

unfoldable pub is_legacy_sha256_hash : Bytes → Bool
is_legacy_sha256_hash hash = length hash == 64 && hex_decodes hash

module _ (hashing : Hashing) where
  open hashing use {generate, has_cost, compare, sha256}

  unfoldable pub hash_password : Bytes → Bytes → Result Error Bytes
  hash_password salt password = or_err (generate salt password) hashing_failed

  unfoldable pub legacy_sha256_hash : Bytes → Bytes
  legacy_sha256_hash password = hex_encode (sha256 password)

  unfoldable pub new_basic_auth : (salt username password : Bytes) → Result Error BasicAuth
  new_basic_auth salt username password = do
    let name = trim_space username
    validate_username name
    guard (not (str_eq password [])) password_required
    hash ← hash_password salt password
    ok (record { username = name; password_hash = hash })

  unfoldable pub validate_password_hash : Bytes → Result Error (Unit {0})
  validate_password_hash hash =
      if is_legacy_sha256_hash hash then ok tt else guard (has_cost hash) not_bcrypt

  unfoldable pub validate : BasicAuth → Result Error (Unit {0})
  validate config =
      validate_username (trim_space config.username) >> validate_password_hash config.password_hash

  unfoldable pub check : BasicAuth → (username password : Bytes) → Bool
  check config username password =
      if not (is_ok (validate config))
      then false
      else let username_match = str_eq username (trim_space config.username) in
        let password_match =
          if is_legacy_sha256_hash config.password_hash
          then str_eq (legacy_sha256_hash password) config.password_hash
          else compare config.password_hash password in
        username_match && password_match
