-- ===== src/Tunnel/BasicCache/Sound.antt =====
-- The digests that may be in the cache.
use sealtun.Prelude.{
  ◌≡◌, inl, inr, refl, sym, true, List, [], ◌∷◌, Option, some, Bytes, str_eq, str_eq_iff, arith,
  any, All, Bool-cases, Option-cases,
}
use mathlib.Core.Path.{subst}
use sealtun.PublicAuth.{BasicAuth, Hashing, check}
use sealtun.Tunnel.BasicCache.{Cache, is_cached, basic_auth_header_digest, check_credentials}

module _ (hashing : Hashing) (parse_basic : Bytes → Option (Bytes × Bytes)) where
  -- A header of right credentials whose digest this is.
  pub record Accepted (config : BasicAuth) (digest : Bytes) : Type 0 where
    pub header : Bytes
    pub digested : basic_auth_header_digest hashing header ≡ digest
    pub username : Bytes
    pub password : Bytes
    pub parsed : parse_basic header ≡ some (username, password)
    pub right : check hashing config username password ≡ true

  pub found-Accepted :
      (config : BasicAuth) (digest : Bytes) (headers : List Bytes)
      → All (Accepted config) headers
      → any (str_eq digest) headers ≡ true
      → Accepted config digest
  found-Accepted config digest [] h f = cc
  found-Accepted config digest (d ∷ headers) (a, h) f = elim (Bool-cases (str_eq digest d)) [
    | inl e ↦ subst (Accepted config) (sym ((str_eq_iff digest d).0 e)) a
    | inr e ↦ found-Accepted config digest headers h (ground arith)
  ]

  pub cached-any :
      (cache : Cache) (header : Bytes)
      → is_cached cache (basic_auth_header_digest hashing header) ≡ true
      → any (str_eq (basic_auth_header_digest hashing header)) cache.headers ≡ true
  unfolding is_cached
  cached-any cache header h = h

  pub checked-right :
      (config : BasicAuth) (header : Bytes)
      → check_credentials hashing parse_basic config (parse_basic header) ≡ true
      → Accepted config (basic_auth_header_digest hashing header)
  unfolding check_credentials
  checked-right config header h = elim (Option-cases (parse_basic header)) [
    | inl e ↦ absurd (ground arith)
    | inr ((u, p), e) ↦ record {
      header = header;
      digested = refl;
      username = u;
      password = p;
      parsed = e;
      right = ground arith;
    }
  ]
