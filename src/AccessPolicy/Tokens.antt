-- ===== src/AccessPolicy/Tokens.antt =====
-- Bearer tokens and temporary tokens: their hashes, and which requests they authorize.
pub mod Authorization
pub mod Hashes
use sealtun.Prelude.{
  ℕ, ◌+◌, ◌-◌, ◌/◌, ◌%◌, Bool, true, false, not, ◌&&◌, ◌||◌, List, [], ◌∷◌, ◌++◌, Option, none,
  some, Bytes, codes, str_eq, Result, ok, err, ◌>>=◌, ◌>>◌, guard, leb, ltb, ◌==◌, if◌then◌else◌,
  length, take, drop, any, all,
}
use sealtun.Http.{Request, Platform, get, del, Values}
use sealtun.Assoc.{has}
use sealtun.Text.{has_prefix, trim_prefix, to_lower}
use sealtun.Text.Trim.{trim_space}
use sealtun.AccessPolicy.{Policy, TemporaryToken}

abbrev pub min_token_length : ℕ
min_token_length = 8

abbrev pub query_param : Bytes
query_param = codes "_sealtun_token"

abbrev pub hash_prefix : Bytes
hash_prefix = codes "sha256:"

pub data Error : Type 0 where
  token_required token_too_short bad_scheme bad_length uppercase not_hex : Error

hex_digit : ℕ → ℕ
hex_digit n = if ltb n 10 then b'0' + n else b'a' + (n - 10)

-- `hex.Encode`
unfoldable pub hex_encode : Bytes → Bytes
unfolding hex_digit
hex_encode [] = []
hex_encode (b ∷ s) = hex_digit (b / 16) ∷ hex_digit (b % 16) ∷ hex_encode s

is_hex : ℕ → Bool
is_hex c = leb b'0' c && leb c b'9' || leb b'a' c && leb c b'f' || leb b'A' c && leb c b'F'

-- Whether `hex.DecodeString` succeeds: hexadecimal digits, an even number of them.
unfoldable pub hex_decodes : Bytes → Bool
unfolding is_hex
hex_decodes s = all is_hex s && length s % 2 == 0

module _ (platform : Platform) where
  open platform use {sha256, parse_time, parse_query, encode_query}

  unfoldable pub hash_token : Bytes → Bytes
  hash_token token = hash_prefix ++ hex_encode (sha256 token)

  -- `HashToken`, the exported function.
  unfoldable pub hash_token? : Bytes → Result Error Bytes
  hash_token? raw = do
    let token = trim_space raw
    guard (not (str_eq token [])) token_required
    guard (leb min_token_length (length token)) token_too_short
    ok (hash_token token)

  unfoldable pub token_hash_matches : Bytes → Bytes → Bool
  token_hash_matches token_hash hash = str_eq token_hash (trim_space hash)

  unfoldable pub token_matches_any : Bytes → List Bytes → Bool
  token_matches_any raw hashes =
      let token = trim_space raw in
      if ltb (length token) min_token_length
      then false
      else any (token_hash_matches (hash_token token)) hashes

  unfoldable pub bearer_token : Request → Bytes
  bearer_token r =
      let header = trim_space (get (codes "Authorization") r.header) in
      if leb (length header) 7
        || not (str_eq (to_lower (take 7 header)) (to_lower (codes "Bearer ")))
      then []
      else trim_space (drop 7 header)

  unfoldable pub bearer_token_authorized : Option Policy → Request → Bool
  bearer_token_authorized none r = false
  bearer_token_authorized (some policy) r =
      let token = bearer_token r in
      not (str_eq token []) && token_matches_any token policy.bearer_token_hashes

  expires_after : Option ℕ → ℕ → Bool
  expires_after none now = false
  expires_after (some at) now = ltb now at

  -- One round of the loop over the temporary tokens.
  unfoldable pub accepts : ℕ → Bytes → TemporaryToken → Bool
  unfolding expires_after
  accepts now token_hash token =
      expires_after (parse_time token.expires_at) now
      && token_hash_matches token_hash token.token_hash

  temporary_authorized : Policy → Bytes → ℕ → Bool
  temporary_authorized policy query now =
      if str_eq query []
      then false
      else let token = trim_space query in
        if ltb (length token) min_token_length
        then false
        else any (accepts now (hash_token token)) policy.temporary_tokens

  unfoldable pub token_authorized : Option Policy → Request → ℕ → Bool
  unfolding temporary_authorized
  token_authorized none r now = false
  token_authorized (some policy) r now =
      if bearer_token_authorized (some policy) r
      then true
      else temporary_authorized policy (get query_param (parse_query r.raw_query)) now

  -- The query without the temporary token; it is left as it is where it has none.
  unfoldable pub strip_temporary_token_query : Request → Request
  strip_temporary_token_query r =
      if str_eq r.raw_query []
      then r
      else let values = parse_query r.raw_query in
        if has query_param values
        then record r { raw_query = encode_query (del query_param values) }
        else r

is_upper_hex : ℕ → Bool
is_upper_hex c = leb b'A' c && leb c b'F'

unfoldable pub validate_token_hash : Bytes → Result Error (Unit {0})
unfolding is_upper_hex
validate_token_hash raw = do
  let hash = trim_space raw
  guard (has_prefix hash hash_prefix) bad_scheme
  let value = trim_prefix hash hash_prefix
  guard (length value == 64) bad_length
  guard (not (any is_upper_hex value)) uppercase
  guard (hex_decodes value) not_hex
