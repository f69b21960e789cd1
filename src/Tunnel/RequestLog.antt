-- ===== src/Tunnel/RequestLog.antt =====
-- pkg/tunnel/request_log.go: the ring of captured requests. Times and durations are numbers that
-- the caller passes in.
pub mod Newest
pub mod Redacted
use sealtun.Prelude.{
  ℕ, suc, ◌+◌, ◌*◌, Bool, true, false, not, ◌||◌, List, [], ◌∷◌, ◌++◌, reverse, Option, none, some,
  ℤ, pos, negsuc, Bytes, codes, str_eq, leb, ltb, ◌==◌, if◌then◌else◌, length, take, drop, any,
}
use sealtun.Assoc.{insert}
use sealtun.Http.{Request, Values, get}
use sealtun.Text.{has_prefix, has_suffix}
use sealtun.Tunnel.Recent.{push}

abbrev pub capacity : ℕ
capacity = 200

abbrev pub preview_max : ℕ
preview_max = 4096

abbrev pub replay_max : ℕ
replay_max = 32768

abbrev pub header_value_max : ℕ
header_value_max = 512

abbrev pub uri_max : ℕ
uri_max = 2048

-- What `captureRequestBody` keeps of a body.
pub record Captured : Type 0 where
  pub preview : Bytes
  pub replay : Bytes
  pub omitted : Bool
  pub truncated : Bool

pub record Entry : Type 0 where
  pub seq : ℕ
  pub time : Bytes
  pub method : Bytes
  pub path : Bytes
  pub status : ℕ
  pub duration_ms : ℕ
  pub client_ip : Bytes
  pub bytes_out : ℕ
  pub headers : List (Bytes × Bytes)
  pub body : Captured
  pub uri : Bytes

pub record Log : Type 0 where
  pub entries : List Entry
  pub next_seq : ℕ

abbrev pub new : Log
new = record { entries = []; next_seq = 0 }

-- The copy that shifts a full ring down by one drops its first entry.
unfoldable pub add : Log → Entry → Log
add log entry =
    let seq = log.next_seq + 1 in
    let numbered = record entry { seq = seq } in
    record {
      entries =
          if ltb (length log.entries) capacity
          then log.entries ++ numbered ∷ []
          else drop 1 log.entries ++ numbered ∷ [];
      next_seq = seq;
    }

effective : ℤ → ℕ → ℕ
effective (negsuc n) len = len
effective (pos n) len = if n == 0 || ltb len n then len else n

-- Newest first; a limit that is not positive or too large is the number of entries.
unfoldable pub list : Log → ℤ → List Entry
unfolding effective
list log limit = take (effective limit (length log.entries)) (reverse log.entries)

abbrev pub sensitive : List Bytes
sensitive =
    codes "Authorization"
    ∷ codes "Cookie"
    ∷ codes "Set-Cookie"
    ∷ codes "Proxy-Authorization"
    ∷ codes "X-Api-Key"
    ∷ []

-- The UTF-8 bytes of "…".
abbrev ellipsis : Bytes
ellipsis = 0xe2 ∷ 0x80 ∷ 0xa6 ∷ []

join_values : List Bytes → Bytes
join_values [] = []
join_values (v ∷ []) = v
join_values (v ∷ w ∷ vs) = v ++ codes ", " ++ join_values (w ∷ vs)

shorten : Bytes → Bytes
shorten value =
    if ltb header_value_max (length value) then take header_value_max value ++ ellipsis else value

abbrev redacted : Bytes
redacted = codes "(redacted)"

capture_header : Bytes → List Bytes → Bytes
unfolding shorten join_values
capture_header canonical values =
    if any (str_eq canonical) sensitive then redacted else shorten (join_values values)

-- `canonical` is `http.CanonicalHeaderKey`. Of two names with one canonical form, one is kept: which, is
-- the order of a Go map, here the order of the list.
unfoldable pub capture_request_headers : (canonical : Bytes → Bytes) → Values → List (Bytes × Bytes)
unfolding capture_header
capture_request_headers canonical [] = []
capture_request_headers canonical ((name, values) ∷ rest) =
    insert (canonical name) (capture_header (canonical name) values)
      (capture_request_headers canonical rest)

abbrev textual_types : List Bytes
textual_types =
    codes "application/json"
    ∷ codes "application/xml"
    ∷ codes "application/xhtml+xml"
    ∷ codes "application/x-www-form-urlencoded"
    ∷ codes "application/problem+json"
    ∷ codes "application/graphql"
    ∷ codes "application/ld+json"
    ∷ []

unfoldable pub is_textual_media_type : Bytes → Bool
is_textual_media_type media =
    has_prefix media (codes "text/")
    || any (str_eq media) textual_types
    || has_suffix media (codes "+json")
    || has_suffix media (codes "+xml")

unfoldable pub is_upgrade_request : Request → Bool
is_upgrade_request r = not (str_eq (get (codes "Upgrade") r.header) [])

abbrev pub nothing : Bool → Captured
nothing omitted = record { preview = []; replay = []; omitted = omitted; truncated = false }

-- The bytes that are read: the cap and one more.
buffered : Bytes → Bytes
buffered body = take (replay_max + 1) body

shown : Bytes → Bytes
shown text = if ltb preview_max (length text) then take preview_max text else text

captured_of : Bytes → Captured
unfolding shown
captured_of text =
    if ltb replay_max (length text)
    then record { preview = shown text; replay = []; omitted = true; truncated = true }
    else record { preview = shown text; replay = text; omitted = false; truncated = false }

module _ (parse_media_type : Bytes → Option Bytes) where
  textual : Option Bytes → Bool
  textual none = false
  textual (some media) = is_textual_media_type media

  capture_body : Request → Option Bytes → Captured × Request
  unfolding buffered captured_of textual
  capture_body r none = (nothing false, r)
  capture_body r (some body) =
      if not (textual (parse_media_type (get (codes "Content-Type") r.header)))
      then (nothing true, r)
      else let text = buffered body in
        (captured_of text, record r { body = some (text ++ drop (replay_max + 1) body) })

  -- What is kept of the body, and the request with its body restored: the bytes that were read, and
  -- the rest behind them.
  unfoldable pub capture_request_body : Request → Captured × Request
  unfolding capture_body
  capture_request_body r = capture_body r r.body

-- The path, with a mark in place of a query.
unfoldable pub redacted_request_path : Request → Bytes
redacted_request_path r =
    let path = if str_eq r.escaped_path [] then codes "/" else r.escaped_path in
    if str_eq r.raw_query [] then path else path ++ codes "?<redacted>"

-- The sequence number is set when the entry is added.
unfoldable pub capture_request_log_entry :
    (canonical : Bytes → Bytes)
    → Request
    → (status bytes_out duration_ms : ℕ) (client_ip time : Bytes) → Captured
    → Entry
capture_request_log_entry canonical r status bytes_out duration_ms client_ip time captured =
    let path = if str_eq r.escaped_path [] then codes "/" else r.escaped_path in
    let uri = if str_eq r.raw_query [] then path else path ++ b'?' ∷ r.raw_query in
    record {
      seq = 0;
      time = time;
      method = r.method;
      path = redacted_request_path r;
      status = status;
      duration_ms = duration_ms;
      client_ip = client_ip;
      bytes_out = bytes_out;
      headers = capture_request_headers canonical r.header;
      body = captured;
      uri = if ltb uri_max (length uri) then take uri_max uri else uri;
    }
