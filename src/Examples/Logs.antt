-- ===== src/Examples/Logs.antt =====
-- Runs of the server's logs and of its status recorder.
use sealtun.Prelude.{
  ℕ, ◌<◌, ◌%◌, ◌≤◌, ◌≡◌, ◌↔◌, false, List, [], ◌∷◌, some, pos, codes, ok, arith, All, length, take,
  reverse,
}
use sealtun.Tunnel.Recent.{keep_last}
use sealtun.Tunnel.Audit
use sealtun.Tunnel.Audit.{
  Event, max_events, word, Payload, select, audit_payload, parse_audit_limit,
}
use sealtun.Tunnel.Audit.Ring.{append_all}
use sealtun.Tunnel.Audit.Reading.{audit_payload-recorded}
use sealtun.Tunnel.Audit.Limits.{parse_audit_limit-itoa}
use sealtun.Text.Decimal.{itoa}
use sealtun.Tunnel.RequestLog
use sealtun.Tunnel.RequestLog.{Entry, capacity, list, capture_request_body, capture_request_headers}
use sealtun.Tunnel.RequestLog.Newest.{
  number, add_all, IsCapture, list-add_all, capture_request_body-IsCapture,
}
use sealtun.Tunnel.StatusRecorder
use sealtun.Tunnel.StatusRecorder.{Call, header, content, run}
use sealtun.Tunnel.StatusRecorder.First.{total, status_after, run-write_header}
use sealtun.Tunnel.RequestLog.Redacted.{
  authorization, cookie, IsBounded, none_left, same, other, capture_request_headers-Alike,
}
use sealtun.Http.{Values}
use sealtun.Examples.Stand.{capital, small_platform, bearer_request}

abbrev event : ℕ → Event
event status = record {
  time = codes "t";
  decision = codes "allow";
  reason = codes "none";
  method = codes "GET";
  path = codes "/";
  status = status;
  client_ip = codes "a";
}

abbrev events : List Event
events = event 200 ∷ event 404 ∷ event 500 ∷ []

audit_payload-recorded_example :
    audit_payload small_platform (append_all Audit.new events) 5 2 ≡ record {
      events = keep_last 2 (select small_platform 5 (keep_last max_events events));
      total = length (select small_platform 5 (keep_last max_events events));
    }
audit_payload-recorded_example = audit_payload-recorded small_platform events 5 2 (omega arith)

-- A number past the int64 range is taken for 1.
parse_audit_limit-itoa_example :
    (parse_audit_limit (itoa 18446744073709551617) ≡ ok 1)
    ↔ ((18446744073709551617 % word ≡ 1) × (0 < 1) × (1 ≤ max_events))
parse_audit_limit-itoa_example = parse_audit_limit-itoa 18446744073709551617 1

abbrev entry : ℕ → Entry
entry status = record {
  seq = 0;
  time = codes "t";
  method = codes "GET";
  path = codes "/";
  status = status;
  duration_ms = 3;
  client_ip = codes "a";
  bytes_out = 10;
  headers = [];
  body = record { preview = []; replay = []; omitted = false; truncated = false };
  uri = codes "/";
}

abbrev entries : List Entry
entries = entry 200 ∷ entry 404 ∷ []

list-add_all_example :
    (list (add_all RequestLog.new entries) (pos 1)
      ≡ take 1 (reverse (keep_last capacity (number 0 entries))))
    × ((add_all RequestLog.new entries).next_seq ≡ length entries)
list-add_all_example = list-add_all entries 1 (omega arith)

capture_request_body-IsCapture_example :
    IsCapture
      (record bearer_request { body = some (codes "{}") })
      (capture_request_body some (record bearer_request { body = some (codes "{}") })).0
    × ((capture_request_body some (record bearer_request { body = some (codes "{}") })).1
        ≡ record bearer_request { body = some (codes "{}") })
capture_request_body-IsCapture_example =
    capture_request_body-IsCapture some (record bearer_request { body = some (codes "{}") })

abbrev first_headers : Values
first_headers =
    (codes "accept", codes "*/*" ∷ [])
    ∷ (codes "cookie", codes "secret" ∷ [])
    ∷ (codes "Authorization", codes "Bearer abcdefgh" ∷ [])
    ∷ []

abbrev second_headers : Values
second_headers =
    (codes "accept", codes "*/*" ∷ [])
    ∷ (codes "cookie", [])
    ∷ (codes "Authorization", codes "Basic 12345678" ∷ codes "Bearer x" ∷ [])
    ∷ []

capture_request_headers-Alike_example :
    (capture_request_headers capital first_headers ≡ capture_request_headers capital second_headers)
    × All IsBounded (capture_request_headers capital first_headers)
capture_request_headers-Alike_example =
    capture_request_headers-Alike capital first_headers second_headers (
      same (codes "accept") (codes "*/*" ∷ []) (
        other (codes "cookie") (codes "secret" ∷ []) [] cookie (
          other (codes "Authorization") (codes "Bearer abcdefgh" ∷ [])
            (codes "Basic 12345678" ∷ codes "Bearer x" ∷ []) authorization none_left)))

-- Early hints, and then an error page: the client is told 103 alone.
run-write_header_example :
    ((run StatusRecorder.new (header 103 ∷ header 404 ∷ content 9 ∷ [])).sent ≡ 103 ∷ [])
    × ((run StatusRecorder.new (header 103 ∷ header 404 ∷ content 9 ∷ [])).status
        ≡ status_after 103 (header 404 ∷ content 9 ∷ []))
    × ((run StatusRecorder.new (header 103 ∷ header 404 ∷ content 9 ∷ [])).bytes
        ≡ total (header 404 ∷ content 9 ∷ []))
run-write_header_example = run-write_header 103 (header 404 ∷ content 9 ∷ [])
