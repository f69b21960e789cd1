-- ===== src/Examples/Stand.antt =====
-- Stand-ins for `net`, `net/url`, `time`, SHA-256 and bcrypt: an address is a letter, a range is two
-- letters with a slash between them, and a time is one byte.
use sealtun.Prelude.{
  ℕ, zero, suc, ◌-◌, ◌%◌, Bool, true, false, ◌&&◌, [], ◌∷◌, ◌++◌, Option, none, some, Bytes, codes,
  str_eq, leb, ◌==◌, if◌then◌else◌, length, if_elim, ◌≡◌, refl,
}
use sealtun.Http.{del, Values, Request, Platform}
use sealtun.AccessPolicy.{Policy}
use sealtun.AccessPolicy.Network.{Net}
use sealtun.AccessPolicy.Tokens.{query_param}
use sealtun.AccessPolicy.Tokens.Authorization.{Recodes}
use sealtun.Assoc.{lookup}
use sealtun.PublicAuth.{Hashing}
use sealtun.Tunnel.Traffic.{World}

abbrev pub letter : Bytes → Option ℕ
letter [] = none
letter (c ∷ []) = some c
letter (c ∷ d ∷ s) = none

abbrev letters : Bytes → Option (ℕ × ℕ)
letters [] = none
letters (a ∷ []) = none
letters (a ∷ b ∷ []) = none
letters (a ∷ b ∷ c ∷ []) = some (a, c)
letters (a ∷ b ∷ c ∷ d ∷ s) = none

-- The host is what stands before the port, a letter.
abbrev host : Bytes → Option Bytes
host [] = none
host (c ∷ s) = some (c ∷ [])

abbrev between : ℕ × ℕ → ℕ → Bool
between (lo, hi) ip = leb lo ip && leb ip hi

abbrev pub small_net : Net
small_net = record {
  Ip = ℕ;
  Cidr = ℕ × ℕ;
  parse_ip = letter;
  parse_cidr = letters;
  cidr_contains = between;
  ip_equal = λ a b. a == b;
  ip_string = λ a. a ∷ [];
  is_loopback = λ a. a == b'l';
  is_private = λ a. a == b'p';
  is_link_local = λ a. false;
  host_of = host;
}

abbrev pub zeros : ℕ → Bytes
zeros zero = []
zeros (suc n) = 0 ∷ zeros n

-- The query "t" has a temporary token and a parameter; the other queries have the parameter.
abbrev query : Bytes → Values
query raw =
    if str_eq raw (codes "t")
    then (query_param, codes "temporary" ∷ []) ∷ (codes "a", codes "b" ∷ []) ∷ []
    else if str_eq raw []
    then []
    else (codes "a", codes "b" ∷ []) ∷ []

abbrev encoded : Values → Bytes
encoded [] = []
encoded (v ∷ vs) = codes "n"

abbrev pub small_platform : Platform
small_platform = record {
  sha256 = λ s. (length s % 256) ∷ zeros 31;
  parse_time = letter;
  format_time = λ t. t % 256 ∷ [];
  parse_query = query;
  encode_query = encoded;
}

pub small_platform-Recodes : Recodes small_platform
unfolding del str_eq lookup
small_platform-Recodes = (
  (λ raw j.
      if_elim
        (λ (m : Values).
          lookup j (query (encoded (del query_param m))) ≡ lookup j (del query_param m))
        (str_eq raw (codes "t")) (λ token. refl)
        (λ other.
          if_elim
            (λ (m : Values).
              lookup j (query (encoded (del query_param m))) ≡ lookup j (del query_param m))
            (str_eq raw []) (λ empty. refl) (λ full. refl))),
  refl,
)

-- A hash is the password behind 60 - n zeros, for passwords of at most 60 bytes.
abbrev pub small_hashing : Hashing
small_hashing = record {
  generate = λ salt password.
      if leb (length password) 60 then some (zeros (60 - length password) ++ password) else none;
  has_cost = λ hash. length hash == 60;
  compare = λ hash password. str_eq hash (zeros (60 - length password) ++ password);
  sha256 = λ s. (length s % 256) ∷ zeros 31;
}

abbrev basic_pair : Bytes → Option (Bytes × Bytes)
basic_pair header =
    if str_eq header (codes "Basic ok") then some (codes "ann", codes "pw") else none

-- A first letter is made a capital one.
abbrev pub capital : Bytes → Bytes
capital [] = []
capital (c ∷ s) = (if leb b'a' c && leb c b'z' then c - 32 else c) ∷ s

abbrev pub small_world : World
small_world = record {
  platform = small_platform;
  net = small_net;
  hashing = small_hashing;
  parse_basic = basic_pair;
  parse_media_type = λ s. some s;
  canonical_header_key = capital;
}

-- Peers from "a" to "k" are let in except "d"; a token of eight letters is listed.
abbrev pub small_policy : Policy
small_policy = record {
  bearer_token_hashes =
      codes "sha256:0800000000000000000000000000000000000000000000000000000000000000" ∷ [];
  ip_allowlist = codes "a/k" ∷ [];
  ip_denylist = codes "d" ∷ [];
  temporary_tokens = [];
  rate_limit = [];
  audit = some (record { enabled = true });
}

abbrev pub bearer_request : Request
bearer_request = record {
  method = codes "GET";
  path = codes "/api/users";
  escaped_path = codes "/api/users";
  raw_query = codes "t";
  header =
      (codes "Authorization", codes "Bearer abcdefgh" ∷ [])
      ∷ (codes "Accept", codes "*/*" ∷ [])
      ∷ [];
  remote_addr = codes "c:80";
  body = none;
}
