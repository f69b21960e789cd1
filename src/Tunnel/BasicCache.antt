-- ===== src/Tunnel/BasicCache.antt =====
-- pkg/tunnel/server.go: basic auth on the server, with the cache of the headers that were accepted.
pub mod Sound
pub mod Handlers
use sealtun.Prelude.{
  ℕ, ◌+◌, Bool, true, false, not, List, [], ◌∷◌, Option, none, some, Bytes, codes, str_eq, leb,
  if◌then◌else◌, any,
}
use sealtun.Http.{Request, get}
use sealtun.AccessPolicy.Tokens.{hex_encode}
use sealtun.PublicAuth.{BasicAuth, Hashing, check}

abbrev pub max_entries : ℕ
max_entries = 1024

-- `basicAuthAuthorizedHeaders` and `basicAuthCacheCount`.
pub record Cache : Type 0 where
  pub headers : List Bytes
  pub count : ℕ

abbrev pub new : Cache
new = record { headers = []; count = 0 }

unfoldable pub is_cached : Cache → Bytes → Bool
is_cached cache digest = any (str_eq digest) cache.headers

unfoldable pub authorization : Request → Bytes
authorization r = get (codes "Authorization") r.header

unfoldable pub basic_auth_header_digest : Hashing → Bytes → Bytes
basic_auth_header_digest hashing value = hex_encode (hashing.sha256 value)

-- These are the accesses of one request that no other request comes between; Handlers has each access as a
-- step of its own. A full cache is emptied first.
room_in : Cache → Cache
room_in cache = if leb max_entries cache.count then new else cache

-- `LoadOrStore`, and the count of what was not there.
store : Cache → Bytes → Cache
store cache digest =
    if is_cached cache digest
    then cache
    else record { headers = digest ∷ cache.headers; count = cache.count + 1 }

unfoldable pub cache_basic_auth_header : Hashing → Cache → Bytes → Cache
unfolding room_in store
cache_basic_auth_header hashing cache header =
    store (room_in cache) (basic_auth_header_digest hashing header)

-- `parse_basic` is `Request.BasicAuth` on the value of the header.
module _ (hashing : Hashing) (parse_basic : Bytes → Option (Bytes × Bytes)) where
  unfoldable pub check_credentials : BasicAuth → Option (Bytes × Bytes) → Bool
  check_credentials config none = false
  check_credentials config (some (username, password)) = check hashing config username password

  checked : Cache → BasicAuth → Bytes → Cache × Bool
  unfolding check_credentials
  checked cache config header =
      if check_credentials config (parse_basic header)
      then (if str_eq header [] then cache else cache_basic_auth_header hashing cache header, true)
      else (cache, false)

  -- `authorizedBasicAuth`: whether the header is known, or else whether its credentials are right,
  -- in which case it is known from then on.
  unfoldable pub authorized_basic_auth : Cache → Option BasicAuth → Request → Cache × Bool
  unfolding checked
  authorized_basic_auth cache none r = (cache, true)
  authorized_basic_auth cache (some config) r =
      let header = authorization r in
      if str_eq header []
      then checked cache config header
      else if is_cached cache (basic_auth_header_digest hashing header)
      then (cache, true)
      else checked cache config header
