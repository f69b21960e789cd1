-- ===== src/AccessPolicy/Network.antt =====
-- IP allowlists and denylists: the matchers, their cache, and the verdict on a client's address.
-- Addresses and CIDR ranges are those of Go's `net`, a parameter.
pub mod Cache
use sealtun.Prelude.{
  ℕ, Bool, true, false, not, ◌&&◌, ◌||◌, List, [], ◌∷◌, Option, none, some, Bytes, codes, str_eq,
  Result, ok, err, ◌>>=◌, map_err, length, ◌==◌, if◌then◌else◌, or_err,
}
use sealtun.Assoc.{lookup, insert}
use sealtun.Text.{contains}
use sealtun.Text.Trim.{trim_space}
use sealtun.AccessPolicy.{Policy}

-- What the package uses of `net`.
pub record Net : Type 1 where
  pub Ip : Type 0
  pub Cidr : Type 0
  pub parse_ip : Bytes → Option Ip
  pub parse_cidr : Bytes → Option Cidr
  pub cidr_contains : Cidr → Ip → Bool
  pub ip_equal : Ip → Ip → Bool
  pub ip_string : Ip → Bytes
  pub is_loopback : Ip → Bool
  pub is_private : Ip → Bool
  pub is_link_local : Ip → Bool
  pub host_of : Bytes → Option Bytes

pub data Error : Type 0 where
  entry_empty bad_cidr not_an_address : Error

module _ (net : Net) where
  open net use {Ip, Cidr, parse_ip, parse_cidr, cidr_contains, ip_equal}

  pub data Matcher : Type 0 where
    range : Cidr → Matcher
    address : Ip → Matcher

  unfoldable pub matches : Matcher → Ip → Bool
  matches (range cidr) ip = cidr_contains cidr ip
  matches (address own) ip = ip_equal own ip

  ranged : Option Cidr → Result Error Matcher
  ranged none = err bad_cidr
  ranged (some cidr) = ok (range cidr)

  addressed : Option Ip → Result Error Matcher
  addressed none = err not_an_address
  addressed (some ip) = ok (address ip)

  unfoldable pub parse_matcher : Bytes → Result Error Matcher
  unfolding ranged addressed
  parse_matcher raw =
      let value = trim_space raw in
      if str_eq value []
      then err entry_empty
      else if contains value (codes "/")
      then ranged (parse_cidr value)
      else addressed (parse_ip value)

  abbrev pub Cache : Type 0
  Cache = List (Bytes × Matcher)

  store : Cache → Bytes → Result Error Matcher → Cache × Result Error Matcher
  store cache value (err e) = (cache, err e)
  store cache value (ok m) = (insert value m cache, ok m)

  reuse : Cache → Bytes → Option Matcher → Cache × Result Error Matcher
  unfolding store
  reuse cache value (some m) = (cache, ok m)
  reuse cache value none = store cache value (parse_matcher value)

  unfoldable pub cached_matcher : Cache → Bytes → Cache × Result Error Matcher
  unfolding reuse
  cached_matcher cache raw = let value = trim_space raw in reuse cache value (lookup value cache)

  -- The result of the checks: the reason is the text that the caller sends back.
  pub data Verdict : Type 0 where
    pass : Verdict
    reject : Bytes → Verdict

  -- What a loop over one list says of an entry: `none` goes on.
  denies : Ip → Result Error Matcher → Option Verdict
  denies ip (err e) = some (reject (codes "client IP denylist entry is invalid"))
  denies ip (ok m) = if matches m ip then some (reject (codes "client IP is denied")) else none

  admits : Ip → Result Error Matcher → Option Verdict
  admits ip (err e) = some (reject (codes "client IP allowlist entry is invalid"))
  admits ip (ok m) = if matches m ip then some pass else none

  -- A verdict ends the loop, and leaves the cache as it is.
  settle : Cache → Cache × Option Verdict → Option Verdict → Cache × Option Verdict
  settle cache later (some v) = (cache, some v)
  settle cache later none = later

  -- A loop over the entries with the cache; it stops at the first verdict.
  scan : (Result Error Matcher → Option Verdict) → Cache → List Bytes → Cache × Option Verdict
  unfolding settle
  scan judge cache [] = (cache, none)
  scan judge cache (entry ∷ entries) =
      let step = cached_matcher cache entry in
      settle step.0 (scan judge step.0 entries) (judge step.1)

  -- The allowlist decides when the denylist did not.
  conclude : Cache × Option Verdict → (Cache → Cache × Verdict) → Cache × Verdict
  conclude (cache, some v) next = (cache, v)
  conclude (cache, none) next = next cache

  allow_scan : Ip → List Bytes → Cache → Cache × Verdict
  unfolding scan admits conclude
  allow_scan ip [] cache = (cache, pass)
  allow_scan ip (entry ∷ entries) cache =
      conclude (scan (admits ip) cache (entry ∷ entries))
        λ cache'. (cache', reject (codes "client IP is not allowed"))

  deny_scan : Ip → Policy → Cache → Cache × Verdict
  unfolding scan denies allow_scan conclude
  deny_scan ip policy cache =
      conclude (scan (denies ip) cache policy.ip_denylist) (allow_scan ip policy.ip_allowlist)

  unlisted : Policy → Bool
  unlisted policy = length policy.ip_allowlist == 0 && length policy.ip_denylist == 0

  located : Option Ip → Policy → Cache → Cache × Verdict
  unfolding deny_scan
  located none policy cache = (cache, reject (codes "client IP could not be determined"))
  located (some ip) policy cache = deny_scan ip policy cache

  -- The address of the client is `none` where it is nil.
  unfoldable pub network_allowed_for_ip : Cache → Option Policy → Option Ip → Cache × Verdict
  unfolding unlisted located
  network_allowed_for_ip cache none ip = (cache, pass)
  network_allowed_for_ip cache (some policy) ip =
      if unlisted policy then (cache, pass) else located ip policy cache
