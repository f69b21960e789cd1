-- ===== src/Tunnel/Traffic.antt =====
-- pkg/tunnel/server.go: the public traffic of a server. A request arrives, and is refused or goes on
-- to the local client; when the response is there, it is counted, logged and audited. Other requests
-- may arrive and finish in between. The reverse proxy between the two halves is not modelled.
pub mod Admission
pub mod Flights
use sealtun.Prelude.{
  ℕ, ◌+◌, ◌-◌, ◌/◌, Bool, true, false, not, ◌&&◌, ◌||◌, List, [], ◌∷◌, ◌++◌, Option, none, some,
  Bytes, codes, str_eq, leb, if◌then◌else◌,
}
use sealtun.Http.{Request, Platform, del}
use sealtun.PublicAuth.{BasicAuth, Hashing}
use sealtun.AccessPolicy.{Policy, has_token_auth}
use sealtun.AccessPolicy.Network.{Net, Cache, Verdict, pass, reject, network_allowed_for_ip}
use sealtun.AccessPolicy.Client.{client_ip}
use sealtun.AccessPolicy.RateLimiter.{Limiter, allow?}
use sealtun.AccessPolicy.Tokens.{
  bearer_token_authorized, token_authorized, strip_temporary_token_query,
}
use sealtun.Tunnel.BasicCache
use sealtun.Tunnel.BasicCache.{authorized_basic_auth}
use sealtun.Tunnel.Audit.{
  Audit, record_request_audit, audit_reason_for_ip_deny, audit_denied_auth_reason,
}
use sealtun.Tunnel.RequestLog
use sealtun.Tunnel.RequestLog.{
  Captured, capture_request_body, capture_request_log_entry, is_upgrade_request, nothing,
}

-- The packages that the server calls.
pub record World : Type 1 where
  pub platform : Platform
  pub net : Net
  pub hashing : Hashing
  pub parse_basic : Bytes → Option (Bytes × Bytes)
  pub parse_media_type : Bytes → Option Bytes
  pub canonical_header_key : Bytes → Bytes

pub data AuthKind : Type 0 where
  unprotected basic bearer temporary : AuthKind

unfoldable pub audit_reason : AuthKind → Bytes
audit_reason basic = codes "basic-auth"
audit_reason bearer = codes "bearer"
audit_reason temporary = codes "temporary-token"
audit_reason unprotected = codes "none"

uses_header : AuthKind → Bool
uses_header basic = true
uses_header bearer = true
uses_header temporary = false
uses_header unprotected = false

-- The counters, each an `atomic.Int64`.
pub record Counters : Type 0 where
  pub total_requests : ℕ
  pub active_requests : ℕ
  pub total_response_bytes : ℕ
  pub total_5xx : ℕ
  pub last_status : ℕ
  pub last_request_at : ℕ
  pub total_duration_ms : ℕ

module _ (world : World) where
  open world use {platform, net, hashing, parse_basic, parse_media_type, canonical_header_key}

  pub record Server : Type 0 where
    pub basic_auth : Option BasicAuth
    pub access_policy : Option Policy
    pub matchers : Cache net
    pub basic_cache : BasicCache.Cache
    pub rate_limiter : Option Limiter
    pub audit : Audit
    pub request_log : RequestLog.Log
    pub counters : Counters

  -- A request on its way to the local client, with what the second half needs of the first.
  pub record Flight : Type 0 where
    pub kind : AuthKind
    pub request : Request
    pub client : Option net.Ip
    pub started : ℕ
    pub captured : Captured

  pub data Answer : Type 0 where
    refused : (status : ℕ) (challenges : List Bytes) → Answer
    forwarded : Flight → Answer

  abbrev ip_text : Bytes → Option net.Ip → Bytes
  ip_text missing none = missing
  ip_text missing (some ip) = net.ip_string ip

  unfoldable pub rate_limit_key : Option net.Ip → Bytes
  rate_limit_key ip = ip_text (codes "unknown") ip

  audited : Server → Request → (decision reason : Bytes) → ℕ → Option net.Ip → ℕ → Server
  audited s r decision reason status ip now = record s {
    audit =
        record_request_audit s.access_policy s.audit r decision reason status (ip_text [] ip)
          (platform.format_time now);
  }

  token_kind : Option Policy → Request → ℕ → Option AuthKind
  token_kind policy r now =
      if not (has_token_auth policy)
      then none
      else if bearer_token_authorized platform policy r
      then some bearer
      else if token_authorized platform policy r now
      then some temporary
      else none

  by_basic : Server → Request → ℕ → BasicCache.Cache × Bool → Server × Option AuthKind
  unfolding token_kind
  by_basic s r now (cache, true) = (record s { basic_cache = cache }, some basic)
  by_basic s r now (cache, false) =
      (record s { basic_cache = cache }, token_kind s.access_policy r now)

  -- The accesses to the cache of headers are here those of an undisturbed request, which BasicCache.Handlers
  -- compares with interleaved ones; the answer comes from one lookup and the check.
  authorize : Server → Option BasicAuth → Request → ℕ → Server × Option AuthKind
  unfolding token_kind by_basic
  authorize s none r now =
      if not (has_token_auth s.access_policy)
      then (s, some unprotected)
      else (s, token_kind s.access_policy r now)
  authorize s (some config) r now =
      by_basic s r now (authorized_basic_auth hashing parse_basic s.basic_cache (some config) r)

  -- `authorizedPublicTraffic`: `none` is the refusal.
  unfoldable pub authorized_public_traffic : Server → Request → ℕ → Server × Option AuthKind
  unfolding authorize
  authorized_public_traffic s r now = authorize s s.basic_auth r now

  basic_challenge : Option BasicAuth → List Bytes
  basic_challenge none = []
  basic_challenge (some config) = codes "Basic realm=\"Sealtun Tunnel\", charset=\"UTF-8\"" ∷ []

  challenges : Server → List Bytes
  unfolding basic_challenge
  challenges s =
      basic_challenge s.basic_auth
      ++ (if has_token_auth s.access_policy
          then codes "Bearer realm=\"Sealtun Tunnel\"" ∷ []
          else [])

  -- The request as it is forwarded: without the credentials that the tunnel has used up.
  unfoldable pub forwarded_request : AuthKind → Request → Request
  unfolding uses_header
  forwarded_request kind r =
      let stripped = strip_temporary_token_query platform r in
      if uses_header kind
      then record stripped { header = del (codes "Authorization") stripped.header }
      else stripped

  pub capture : Request → Captured × Request
  capture r =
      if is_upgrade_request r then (nothing false, r) else capture_request_body parse_media_type r

  forward : Server → AuthKind → Request → Option net.Ip → ℕ → Server × Answer
  unfolding capture
  forward s kind r ip now =
      let (captured, request) = capture (forwarded_request kind r) in
      let c = s.counters in
      (
        record s {
          counters = record c {
            total_requests = c.total_requests + 1;
            active_requests = c.active_requests + 1;
          };
        },
        forwarded (record {
          kind = kind;
          request = request;
          client = ip;
          started = now;
          captured = captured;
        }),
      )

  after_authorization : Request → Option net.Ip → ℕ → Server × Option AuthKind → Server × Answer
  unfolding challenges audited forward
  after_authorization r ip now (s, none) = (
    audited s r (codes "deny") (audit_denied_auth_reason platform r) 401 ip now,
    refused 401 (challenges s),
  )
  after_authorization r ip now (s, some kind) = forward s kind r ip now

  after_limit : Server → Request → Option net.Ip → ℕ → Option Limiter × Bool → Server × Answer
  unfolding after_authorization audited
  after_limit s r ip now (limiter, true) =
      after_authorization r ip now
        (authorized_public_traffic (record s { rate_limiter = limiter }) r now)
  after_limit s r ip now (limiter, false) = (
    audited (record s { rate_limiter = limiter }) r (codes "deny") (codes "rate-limit") 429 ip now,
    refused 429 [],
  )

  after_network : Server → Request → Option net.Ip → ℕ → Cache net × Verdict net → Server × Answer
  unfolding after_limit audited
  after_network s r ip now (matchers, pass) =
      after_limit (record s { matchers = matchers }) r ip now
        (allow? s.rate_limiter (rate_limit_key ip) now now)
  after_network s r ip now (matchers, reject reason) = (
    audited (record s { matchers = matchers }) r (codes "deny") (audit_reason_for_ip_deny reason)
        403 ip now,
    refused 403 [],
  )

  -- `handlePublicTraffic` up to the call of the reverse proxy. `now` stands for the readings of the
  -- clock in it.
  unfoldable pub arrive : Server → Request → ℕ → Server × Answer
  unfolding after_network
  arrive s r now =
      let ip = client_ip net r in
      after_network s r ip now (network_allowed_for_ip net s.matchers s.access_policy ip)

  -- The response of the reverse proxy, as the status recorder has noted it, and the time.
  pub record Outcome : Type 0 where
    pub status : ℕ
    pub bytes : ℕ
    pub now : ℕ

  logged : Server → Flight → Outcome → ℕ → RequestLog.Log
  logged s f o ms =
      if is_upgrade_request f.request
      then s.request_log
      else RequestLog.add s.request_log (
          capture_request_log_entry canonical_header_key f.request o.status o.bytes ms
            (ip_text (codes "<nil>") f.client) (platform.format_time o.now) f.captured)

  -- `handlePublicTraffic` from the return of the reverse proxy on; times are in nanoseconds.
  unfoldable pub finish : Server → Flight → Outcome → Server
  unfolding audited logged
  finish s f o =
      let ms = (o.now - f.started) / 1000000 in
      let c = s.counters in
      let counted = record s {
        request_log = logged s f o ms;
        counters = record {
          total_requests = c.total_requests;
          active_requests = c.active_requests - 1;
          total_response_bytes = c.total_response_bytes + o.bytes;
          total_5xx = (if leb 500 o.status then c.total_5xx + 1 else c.total_5xx);
          last_status = o.status;
          last_request_at = o.now / 1000000000;
          total_duration_ms = c.total_duration_ms + ms;
        };
      } in
      audited counted f.request (codes "allow") (audit_reason f.kind) o.status f.client o.now

  -- Where the reverse proxy panics, as it does with `http.ErrAbortHandler` when the copying of a response
  -- body fails, only the deferred call is made.
  unfoldable pub abort : Server → Server
  abort s = record s {
    counters = record (s.counters) { active_requests = s.counters.active_requests - 1 };
  }
