-- ===== src/Examples/Policies.antt =====
-- Runs of the access policy's functions.
use mathlib.Core.List.{Memᴰ}
use sealtun.Prelude.{
  ◌++◌, ℕ, ◌<◌, ◌≤◌, ◌≡◌, ◌≢◌, ◌⊎◌, inr, refl, true, false, List, [], ◌∷◌, none, some, codes, ok,
  arith, length, str_eq,
}
use sealtun.Http.{Request, get}
use sealtun.Assoc.{lookup}
use sealtun.Text.{to_lower, has_prefix, trim_prefix, contains, split}
use sealtun.Text.Trim.{trim_space}
use sealtun.Text.Decimal.{itoa, atoi, max_int}
use sealtun.AccessPolicy.Network.{pass, parse_matcher, matches, network_allowed_for_ip}
use sealtun.AccessPolicy.Network.Cache.{
  IsFaithful, plain_verdict, network_allowed_for_ip-plain_verdict,
}
use sealtun.AccessPolicy.Network.Cache.Verdicts.{
  listed, WellFormed, network_allowed_for_ip_sound, network_allowed_for_ip_complete,
}
use sealtun.AccessPolicy.Validation.{validate}
use sealtun.AccessPolicy.Validation.Accepted.{validated_passes}
use sealtun.AccessPolicy.Client.{peer_ip, client_ip, trusted_proxy_peer}
use sealtun.AccessPolicy.Client.Nearest.{client_ip_nearest}
use sealtun.AccessPolicy.RateLimiter.{Spec, Limiter, Call, max_buckets, new, run, served}
use sealtun.AccessPolicy.RateLimiter.Bounded.{run_bounded}
use sealtun.AccessPolicy.RateLimiter.Windows.{served-le_limit}
use sealtun.AccessPolicy.RateSpec.{parse_rate_limit, parse_positive_int, window_of}
use sealtun.AccessPolicy.RateSpec.Canonical.{parse_rate_limit-raw}
use sealtun.AccessPolicy.Tokens.{
  query_param, hash_token, token_hash_matches, bearer_token, token_authorized,
  strip_temporary_token_query, validate_token_hash, hex_encode, hex_decodes,
}
use sealtun.AccessPolicy.Tokens.Authorization.{
  ByBearer, ByTemporary, token_authorized_sound, token_authorized_of_bearer, Drops,
  strip_temporary_token_query-Drops,
}
use sealtun.AccessPolicy.Tokens.Hashes.{validate_token_hash-hash_token}
use sealtun.Examples.Stand.{
  letter, small_platform-Recodes, small_net, small_platform, small_policy, bearer_request,
}

network_allowed_for_ip-plain_verdict_example :
    IsFaithful small_net (network_allowed_for_ip small_net [] (some small_policy) (some b'd')).0
    × ((network_allowed_for_ip small_net [] (some small_policy) (some b'd')).1
        ≡ plain_verdict small_net (some small_policy) (some b'd'))
network_allowed_for_ip-plain_verdict_example =
    network_allowed_for_ip-plain_verdict small_net [] (some small_policy) (some b'd') tt

denied_free : listed small_net b'c' small_policy.ip_denylist ≡ false
unfolding parse_matcher matches str_eq trim_space contains has_prefix
denied_free = refl

allowed : listed small_net b'c' small_policy.ip_allowlist ≡ true
unfolding parse_matcher matches str_eq trim_space contains has_prefix
allowed = refl

denylist-WellFormed : WellFormed small_net small_policy.ip_denylist
unfolding parse_matcher matches str_eq trim_space contains has_prefix
denylist-WellFormed = (refl, tt)

allowlist-WellFormed : WellFormed small_net small_policy.ip_allowlist
unfolding parse_matcher matches str_eq trim_space contains has_prefix
allowlist-WellFormed = (refl, tt)

network_allowed_for_ip_complete_example :
    (network_allowed_for_ip small_net [] (some small_policy) (some b'c')).1 ≡ pass
network_allowed_for_ip_complete_example =
    network_allowed_for_ip_complete small_net [] small_policy b'c' tt denylist-WellFormed
      allowlist-WellFormed denied_free (inr allowed)

network_allowed_for_ip_sound_example :
    ((small_policy.ip_allowlist ≡ []) × (small_policy.ip_denylist ≡ []))
    ⊎ ((a : ℕ) × (some b'c' ≡ some a)
        × (listed small_net a small_policy.ip_denylist ≡ false)
        × ((small_policy.ip_allowlist ≡ []) ⊎ (listed small_net a small_policy.ip_allowlist ≡ true))
        × WellFormed small_net small_policy.ip_denylist)
network_allowed_for_ip_sound_example =
    network_allowed_for_ip_sound small_net [] small_policy (some b'c') tt
      network_allowed_for_ip_complete_example

valid_policy : validate small_net small_platform (some small_policy) ≡ ok tt
unfolding validate validate_token_hash parse_matcher str_eq trim_space contains has_prefix
    hex_decodes trim_prefix
valid_policy = refl

validated_passes_example :
    (network_allowed_for_ip small_net [] (some small_policy) (some b'c')).1 ≡ pass
validated_passes_example =
    validated_passes small_net small_platform [] small_policy b'c' tt valid_policy denied_free
      (inr allowed)

-- From the proxy "l"; the client itself has put "z" into the header.
abbrev proxied_request : Request
proxied_request = record bearer_request {
  remote_addr = codes "l:80";
  header = (codes "X-Forwarded-For", codes "z, c" ∷ []) ∷ [];
}

from_proxy : trusted_proxy_peer small_net (peer_ip small_net proxied_request) ≡ true
unfolding trusted_proxy_peer peer_ip trim_space
from_proxy = refl

no_real_header : get (codes "X-Real-Ip") proxied_request.header ≡ []
unfolding get sealtun.Assoc.lookup str_eq
no_real_header = refl

forwarded_header :
    get (codes "X-Forwarded-For") proxied_request.header ≡ codes "z" ++ b',' ∷ codes " c"
unfolding get sealtun.Assoc.lookup str_eq
forwarded_header = refl

nearest_parsed : letter (trim_space (codes " c")) ≡ some b'c'
unfolding trim_space
nearest_parsed = refl

client_ip_nearest_example : client_ip small_net proxied_request ≡ some b'c'
client_ip_nearest_example =
    client_ip_nearest small_net proxied_request (codes "z") (codes " c") b'c' from_proxy
      no_real_header forwarded_header refl nearest_parsed

abbrev two_a_second : Spec
two_a_second = record { limit = 2; window = 1000000000; raw = codes "2/s" }

abbrev limiter : Limiter
limiter = record { spec = two_a_second; buckets = []; last_prune = 0 }

abbrev calls : List Call
calls =
    record { key = codes "a"; now = 5; clock = 5 }
    ∷ record { key = codes " a"; now = 6; clock = 6 }
    ∷ record { key = codes "a"; now = 7; clock = 7 }
    ∷ []

run_bounded_example : length (run limiter calls).buckets ≤ max_buckets
unfolding new
run_bounded_example = run_bounded two_a_second limiter calls refl

served-le_limit_example : served (codes "a") limiter calls ≤ 2
unfolding new
served-le_limit_example =
    served-le_limit two_a_second limiter (codes "a") 5 calls refl (omega arith) (omega arith)

parsed_rate :
    parse_rate_limit (codes " 20 / M ")
    ≡ ok (record { limit = 20; window = 60000000000; raw = codes "20/m" })
unfolding parse_rate_limit parse_positive_int window_of str_eq trim_space split to_lower atoi itoa
parsed_rate = refl

parse_rate_limit-raw_example :
    (parse_rate_limit (codes "20/m")
      ≡ ok (record { limit = 20; window = 60000000000; raw = codes "20/m" }))
    × (0 < 20)
    × (20 ≤ max_int)
    × (0 < 60000000000)
    × (new (record { limit = 20; window = 60000000000; raw = codes "20/m" }) ≢ none)
parse_rate_limit-raw_example = parse_rate_limit-raw (codes " 20 / M ") parsed_rate

token_authorized_of_bearer_example :
    token_authorized small_platform (some small_policy) bearer_request 7 ≡ true
unfolding hash_token hex_encode trim_space get lookup str_eq
token_authorized_of_bearer_example =
    token_authorized_of_bearer small_platform small_policy bearer_request 7 (codes "abcdefgh")
      (codes "sha256:0800000000000000000000000000000000000000000000000000000000000000") refl
      (omega arith) (omega arith) (Memᴰ.head refl) refl

token_authorized_sound_example :
    ByBearer small_platform small_policy (trim_space (bearer_token small_platform bearer_request))
    ⊎ ByTemporary small_platform small_policy
        (trim_space (get query_param (small_platform.parse_query bearer_request.raw_query)))
        7
token_authorized_sound_example =
    token_authorized_sound small_platform small_policy bearer_request 7
      token_authorized_of_bearer_example

strip_temporary_token_query-Drops_example :
    Drops query_param (small_platform.parse_query bearer_request.raw_query) (
      small_platform.parse_query
        (strip_temporary_token_query small_platform bearer_request).raw_query)
    × (strip_temporary_token_query small_platform bearer_request ≡ record bearer_request {
      raw_query = (strip_temporary_token_query small_platform bearer_request).raw_query;
    })
strip_temporary_token_query-Drops_example =
    strip_temporary_token_query-Drops small_platform small_platform-Recodes bearer_request

validate_token_hash-hash_token_example :
    (validate_token_hash (hash_token small_platform (codes "abcdefgh")) ≡ ok tt)
    × (token_hash_matches small_platform
          (hash_token small_platform (codes "abcdefgh"))
          (hash_token small_platform (codes "abcdefgh"))
        ≡ true)
validate_token_hash-hash_token_example =
    validate_token_hash-hash_token small_platform (codes "abcdefgh") refl (omega arith)
