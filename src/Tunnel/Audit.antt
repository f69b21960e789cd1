-- ===== src/Tunnel/Audit.antt =====
-- pkg/tunnel/server.go: the ring of audit events, the reading of it, and the limits of a query.
pub mod Ring
pub mod Reading
pub mod Limits
use sealtun.Prelude.{
  ℕ, zero, suc, ◌+◌, ◌-◌, ◌*◌, ◌%◌, ◌^◌, Bool, true, false, not, ◌&&◌, ◌||◌, List, [], ◌∷◌, ◌++◌,
  Option, none, some, ℤ, pos, negsuc, Bytes, codes, str_eq, Result, ok, err, leb, ltb, ◌==◌,
  if◌then◌else◌, length, set, get_elem?, drop, take,
}
use sealtun.Http.{Request, Platform, get}
use sealtun.Text.{contains, has_prefix, to_lower}
use sealtun.Text.Trim.{trim_space}
use sealtun.AccessPolicy.{Policy, audit_enabled}
use sealtun.AccessPolicy.Tokens.{query_param}

abbrev pub max_events : ℕ
max_events = 1000

abbrev pub max_path_bytes : ℕ
max_path_bytes = 2048

pub record Event : Type 0 where
  pub time : Bytes
  pub decision : Bytes
  pub reason : Bytes
  pub method : Bytes
  pub path : Bytes
  pub status : ℕ
  pub client_ip : Bytes

-- `auditEvents` and `auditStart`.
pub record Audit : Type 0 where
  pub events : List Event
  pub start : ℕ

abbrev pub new : Audit
new = record { events = []; start = 0 }

-- The end of `recordRequestAudit`, under the lock.
unfoldable pub append : Audit → Event → Audit
append a e =
    if ltb (length a.events) max_events
    then record a { events = a.events ++ e ∷ [] }
    else record { events = set a.events a.start e; start = (a.start + 1) % max_events }

audit_path : Request → Bytes
audit_path r =
    let path = if str_eq r.escaped_path [] then codes "/" else r.escaped_path in
    if ltb max_path_bytes (length path) then take max_path_bytes path else path

unfoldable pub event_of : Request → (decision reason : Bytes) → ℕ → (client_ip time : Bytes) → Event
unfolding audit_path
event_of r decision reason status client_ip time = record {
  time = time;
  decision = decision;
  reason = reason;
  method = r.method;
  path = audit_path r;
  status = status;
  client_ip = client_ip;
}

-- `recordRequestAudit`: nothing is recorded unless the policy has auditing on.
unfoldable pub record_request_audit :
    Option Policy
    → Audit
    → Request
    → (decision reason : Bytes) → ℕ
    → (client_ip time : Bytes) → Audit
unfolding append event_of audit_enabled
record_request_audit policy a r decision reason status client_ip time =
    if audit_enabled policy then append a (event_of r decision reason status client_ip time) else a

-- The entry of index `i`, if the index is in range.
abbrev at_index : Option Event → List Event → List Event
at_index none rest = rest
at_index (some e) rest = e ∷ rest

-- The loop of `auditPayload` over `count` indices from `i` on.
unfoldable pub read_from : List Event → ℕ → ℕ → ℕ → List Event
read_from events start i zero = []
read_from events start i (suc count) =
    at_index (get_elem? events ((start + i) % length events)) (read_from events start (i + 1) count)

pub record Payload : Type 0 where
  pub events : List Event
  pub total : ℕ

-- Whether an event is not older than the cutoff; a zero cutoff takes every event.
unfoldable pub is_recent : Platform → ℕ → Event → Bool
is_recent platform cutoff e =
    if cutoff == 0
    then true
    else elim (platform.parse_time e.time) [ none ↦ false | some at ↦ not (ltb at cutoff) ]

unfoldable pub select : Platform → ℕ → List Event → List Event
unfolding is_recent
select platform cutoff [] = []
select platform cutoff (e ∷ es) =
    let rest = select platform cutoff es in if is_recent platform cutoff e then e ∷ rest else rest

unfoldable pub newest : ℕ → List Event → List Event
newest limit events =
    if ltb 0 limit && ltb limit (length events) then drop (length events - limit) events else events

-- `cutoff` is the time before which events are left out, 0 where `since` is not positive; `limit` is
-- at least 0, as `parse_audit_limit` gives it.
unfoldable pub audit_payload : Platform → Audit → (cutoff limit : ℕ) → Payload
unfolding read_from select newest
audit_payload platform a cutoff limit =
    let filtered = select platform cutoff (read_from a.events a.start 0 (length a.events)) in
    record { events = newest limit filtered; total = length filtered }

pub data LimitError : Type 0 where
  out_of_range : LimitError

-- `out = out*10 + int(ch-'0')` on an int64: the value modulo 2^64, read with its sign.
abbrev pub word : ℕ
word = 2 ^ 64

unfoldable pub parse_digits : ℕ → Bytes → Option ℕ
parse_digits out [] = some out
parse_digits out (c ∷ s) =
    let rest = parse_digits ((out * 10 + (c - b'0')) % word) s in
    if ltb c b'0' || ltb b'9' c then none else rest

-- Positive as an int64.
unfoldable pub positive_word : Option ℕ → Option ℕ
positive_word none = none
positive_word (some n) = if n == 0 || leb (2 ^ 63) n then none else some n

unfoldable pub parse_positive_audit_int : Bytes → Option ℕ
unfolding parse_digits positive_word
parse_positive_audit_int value = positive_word (parse_digits 0 value)

unfoldable pub within_limit : Option ℕ → Result LimitError ℕ
within_limit none = err out_of_range
within_limit (some n) = if ltb max_events n then err out_of_range else ok n

unfoldable pub parse_audit_limit : Bytes → Result LimitError ℕ
unfolding within_limit
parse_audit_limit raw =
    let value = trim_space raw in
    if str_eq value [] then ok 200 else within_limit (parse_positive_audit_int value)

unfoldable pub audit_reason_for_ip_deny : Bytes → Bytes
audit_reason_for_ip_deny raw =
    let reason = to_lower (trim_space raw) in
    if contains reason (codes "deny") || contains reason (codes "denied")
    then codes "ip-denylist"
    else if contains reason (codes "allow") || contains reason (codes "not allowed")
    then codes "ip-allowlist"
    else codes "ip-rule"

unfoldable pub audit_denied_auth_reason : Platform → Request → Bytes
audit_denied_auth_reason platform r =
    let header = trim_space (get (codes "Authorization") r.header) in
    if not (str_eq header [])
    then if has_prefix (to_lower header) (codes "basic ")
      then codes "basic-auth"
      else if has_prefix (to_lower header) (codes "bearer ")
      then codes "bearer"
      else codes "authorization"
    else if not (str_eq (trim_space (get query_param (platform.parse_query r.raw_query))) [])
    then codes "temporary-token"
    else codes "no-auth"
