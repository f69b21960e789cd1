-- ===== src/AccessPolicy/Validation.antt =====
-- `Validate`: the checks on a whole policy.
pub mod Accepted
use sealtun.Prelude.{
  Bool, true, false, not, List, [], ◌∷◌, Option, none, some, Bytes, str_eq, Result, ok, err, ◌>>=◌,
  ◌>>◌, guard, or_err, map_err, ◌≡◌, refl, arith, if◌then◌else◌, is_ok, All, ◌==◌, ◌≢◌, str_eq_iff,
}
use sealtun.Http.{Platform}
use sealtun.Text.Trim.{trim_space}
use sealtun.AccessPolicy.{Policy, TemporaryToken}
use sealtun.AccessPolicy.Network
use sealtun.AccessPolicy.Network.{Net, parse_matcher}
use sealtun.AccessPolicy.RateSpec
use sealtun.AccessPolicy.RateSpec.{parse_rate_limit}
use sealtun.AccessPolicy.RateLimiter.{Spec}
use sealtun.AccessPolicy.Tokens
use sealtun.AccessPolicy.Tokens.{validate_token_hash}

pub data Error : Type 0 where
  bearer_token_hash temporary_token : Tokens.Error → Error
  allowlist_entry denylist_entry : Network.Error → Error
  bad_expires_at expires_at_required : Error
  rate_limit : RateSpec.Error → Error

-- `for _, x := range xs { if err := check(x); err != nil { return err } }`
each : {A : Type 0} → (A → Result Error (Unit {0})) → List A → Result Error (Unit {0})
each check [] = ok tt
each check (x ∷ xs) = do check x; each check xs

ignore : {A : Type 0} → Result Error A → Result Error (Unit {0})
ignore (ok a) = ok tt
ignore (err e) = err e

module _ (net : Net) (platform : Platform) where
  check_hash : Bytes → Result Error (Unit {0})
  check_hash hash = map_err bearer_token_hash (validate_token_hash hash)

  check_allow : Bytes → Result Error (Unit {0})
  unfolding ignore
  check_allow entry = ignore (map_err allowlist_entry (parse_matcher net entry))

  check_deny : Bytes → Result Error (Unit {0})
  unfolding ignore
  check_deny entry = ignore (map_err denylist_entry (parse_matcher net entry))

  check_temporary : TemporaryToken → Result Error (Unit {0})
  check_temporary token = do
    map_err temporary_token (validate_token_hash token.token_hash)
    expires_at ← or_err (platform.parse_time token.expires_at) bad_expires_at
    guard (not (expires_at == 0)) expires_at_required

  check_rate : Bytes → Result Error (Unit {0})
  unfolding ignore
  check_rate text =
      if str_eq (trim_space text) []
      then ok tt
      else ignore (map_err rate_limit (parse_rate_limit text))

  unfoldable pub validate : Option Policy → Result Error (Unit {0})
  unfolding each check_hash check_allow check_deny check_temporary check_rate
  validate none = ok tt
  validate (some policy) = do
    each check_hash policy.bearer_token_hashes
    each check_allow policy.ip_allowlist
    each check_deny policy.ip_denylist
    each check_temporary policy.temporary_tokens
    check_rate policy.rate_limit
