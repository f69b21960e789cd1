-- ===== src/AccessPolicy.antt =====
-- pkg/accesspolicy/access_policy.go: the access policy of a tunnel. This file has its data; the
-- children have the parts of the package.
pub mod Network
pub mod Client
pub mod RateLimiter
pub mod RateSpec
pub mod Validation
pub mod Tokens
use sealtun.Prelude.{
  ℕ, Bool, true, false, not, ◌&&◌, ◌||◌, List, [], ◌∷◌, Option, none, some, Bytes, codes, str_eq,
  length, ltb, ◌==◌,
}
use sealtun.Text.Trim.{trim_space}

pub record TemporaryToken : Type 0 where
  pub name : Bytes
  pub token_hash : Bytes
  pub ttl : Bytes
  pub expires_at : Bytes

pub record AuditConfig : Type 0 where
  pub enabled : Bool

pub record Policy : Type 0 where
  pub bearer_token_hashes : List Bytes
  pub ip_allowlist : List Bytes
  pub ip_denylist : List Bytes
  pub temporary_tokens : List TemporaryToken
  pub rate_limit : Bytes
  pub audit : Option AuditConfig

audit_on : Option AuditConfig → Bool
audit_on none = false
audit_on (some audit) = audit.enabled

-- A nil policy is `none`.
unfoldable pub audit_enabled : Option Policy → Bool
unfolding audit_on
audit_enabled none = false
audit_enabled (some policy) = audit_on policy.audit

unfoldable pub has_token_auth : Option Policy → Bool
has_token_auth none = false
has_token_auth (some policy) =
    ltb 0 (length policy.bearer_token_hashes) || ltb 0 (length policy.temporary_tokens)

unfoldable pub empty : Option Policy → Bool
unfolding audit_enabled
empty none = true
empty (some policy) =
    length policy.bearer_token_hashes == 0
    && length policy.ip_allowlist == 0
    && length policy.ip_denylist == 0
    && length policy.temporary_tokens == 0
    && str_eq (trim_space policy.rate_limit) []
    && not (audit_enabled (some policy))
