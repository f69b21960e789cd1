-- ===== src/Tunnel/RequestLog/Redacted.antt =====
-- What the log shows of the headers of a request.
use sealtun.Prelude.{
  ℕ, ◌+◌, ◌≤◌, ◌≡◌, refl, sym, ap, ap₂, ◌∙◌, List, [], ◌∷◌, ◌++◌, Bytes, codes, arith, length, take,
  ltb, if◌then◌else◌, length-append, length-take, str_eq, any, All, if_elim,
}
use sealtun.Assoc.{insert, All-insert}
use sealtun.Http.{Values}
use sealtun.Tunnel.RequestLog.{
  header_value_max, redacted, shorten, join_values, capture_header, capture_request_headers,
  sensitive,
}

shorten_at :
    (n : ℕ) (v tail : Bytes)
    → length (if ltb n (length v) then take n v ++ tail else v) ≤ n + length tail
shorten_at n v tail = ground (arith, length-take n v, length-append (take n v) tail)

shorten_bound : (v : Bytes) → length (shorten v) ≤ header_value_max + 3
unfolding shorten
shorten_bound v = shorten_at header_value_max v _

-- The canonical names of the headers that carry credentials.
pub data Sensitive : Bytes → Type 0 where
  authorization : Sensitive (codes "Authorization")
  cookie : Sensitive (codes "Cookie")
  set_cookie : Sensitive (codes "Set-Cookie")
  proxy_authorization : Sensitive (codes "Proxy-Authorization")
  x_api_key : Sensitive (codes "X-Api-Key")

hidden : (name : Bytes) (vs : List Bytes) → Sensitive name → capture_header name vs ≡ redacted
unfolding capture_header str_eq
hidden name vs authorization = refl
hidden name vs cookie = refl
hidden name vs set_cookie = refl
hidden name vs proxy_authorization = refl
hidden name vs x_api_key = refl

abbrev pub IsBounded : Bytes × Bytes → Type 0
IsBounded h = length h.1 ≤ header_value_max + 3

value_bound : (name : Bytes) (values : List Bytes) → IsBounded (name, capture_header name values)
unfolding capture_header
value_bound name values =
    if_elim (λ (v : Bytes). length v ≤ header_value_max + 3) (any (str_eq name) sensitive)
      (λ secret. omega arith) (λ shown. shorten_bound (join_values values))

module _ (canonical : Bytes → Bytes) where
  -- The same names in the same order, and the same values but for the headers that carry credentials.
  pub data Alike : Values → Values → Type 0 where
    none_left : Alike [] []
    same :
        (name : Bytes) (values : List Bytes) {xs ys : Values}
        → Alike xs ys
        → Alike ((name, values) ∷ xs) ((name, values) ∷ ys)
    other :
        (name : Bytes) (vs ws : List Bytes) {xs ys : Values}
        → Sensitive (canonical name)
        → Alike xs ys
        → Alike ((name, vs) ∷ xs) ((name, ws) ∷ ys)

  capture-eq :
      (xs ys : Values)
      → Alike xs ys
      → capture_request_headers canonical xs ≡ capture_request_headers canonical ys
  unfolding capture_request_headers
  capture-eq _ _ none_left = refl
  capture-eq _ _ (same name values {xs} {ys} a) =
      ap (insert (canonical name) (capture_header (canonical name) values)) (capture-eq xs ys a)
  capture-eq _ _ (other name vs ws {xs} {ys} s a) =
      ap₂ (insert (canonical name))
        (hidden (canonical name) vs s ∙ sym (hidden (canonical name) ws s)) (capture-eq xs ys a)

  capture-bound : (xs : Values) → All IsBounded (capture_request_headers canonical xs)
  unfolding capture_request_headers
  capture-bound [] = tt
  capture-bound ((name, values) ∷ xs) =
      All-insert IsBounded (canonical name) (capture_header (canonical name) values)
        (capture_request_headers canonical xs) (value_bound (canonical name) values)
        (capture-bound xs)

  -- Nothing that the log keeps of the headers of a request depends on the values of those that carry
  -- credentials, however their names are spelled, and no value that it keeps is longer than 515 bytes.
  pub capture_request_headers-Alike :
      (xs ys : Values)
      → Alike xs ys
      → (capture_request_headers canonical xs ≡ capture_request_headers canonical ys)
        × All IsBounded (capture_request_headers canonical xs)
  capture_request_headers-Alike xs ys a = (capture-eq xs ys a, capture-bound xs)
