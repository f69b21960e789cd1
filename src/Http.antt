-- ===== src/Http.antt =====
-- What the packages use of `net/http` and `net/url`: a request as its method, its URL and its
-- headers. Header names are canonical, as `net/http` makes them when it reads a request.
use sealtun.Prelude.{
  ℕ, List, [], ◌∷◌, Option, none, some, Bytes, str_eq, str_eq_iff, arith, ◌≡◌, if◌then◌else◌,
}
use sealtun.Assoc.{lookup}

abbrev pub Values : Type 0
Values = List (Bytes × List Bytes)

abbrev pub first : Option (List Bytes) → Bytes
first none = []
first (some []) = []
first (some (v ∷ vs)) = v

-- `Get` of a header or of a query: the first value, "" where there is none.
unfoldable pub get : Bytes → Values → Bytes
get name values = first (lookup name values)

-- `Del`
unfoldable pub del : Bytes → Values → Values
del name [] = []
del name ((k, vs) ∷ rest) =
    let others = del name rest in if str_eq k name then others else (k, vs) ∷ others

pub record Request : Type 0 where
  pub method : Bytes
  pub path : Bytes
  pub escaped_path : Bytes
  pub raw_query : Bytes
  pub header : Values
  pub remote_addr : Bytes
  -- No body is `none`.
  pub body : Option Bytes

-- The parts of the standard library that are taken as they are.
pub record Platform : Type 0 where
  pub sha256 : Bytes → Bytes
  -- `time.Parse` at RFC 3339; 0 is the zero time.
  pub parse_time : Bytes → Option ℕ
  pub format_time : ℕ → Bytes
  pub parse_query : Bytes → Values
  pub encode_query : Values → Bytes

pub lookup-del :
    (name k : Bytes) (m : Values)
    → lookup k (del name m) ≡ (if str_eq k name then none else lookup k m)
unfolding del lookup
lookup-del name k [] = ground arith
lookup-del name k ((j, vs) ∷ m) =
    ground (arith, lookup-del name k m, str_eq_iff j name, str_eq_iff j k, str_eq_iff k name)
