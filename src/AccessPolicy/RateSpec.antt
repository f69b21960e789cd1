-- ===== src/AccessPolicy/RateSpec.antt =====
-- The text form of a rate limit, "<count>/<s|m|h>".
pub mod Canonical
use sealtun.Prelude.{
  ℕ, ◌*◌, Bool, true, false, ◌||◌, List, [], ◌∷◌, ◌++◌, Option, none, some, ℤ, pos, negsuc, Bytes,
  codes, str_eq, Result, ok, err, ◌>>=◌, ◌>>◌, guard, or_err, not, ◌==◌, if◌then◌else◌,
}
use sealtun.Text.{split, to_lower}
use sealtun.Text.Decimal.{itoa, atoi}
use sealtun.Text.Trim.{trim_space}
use sealtun.AccessPolicy.RateLimiter.{Spec}

pub data Error : Type 0 where
  value_required bad_form bad_count bad_window : Error

above_zero : Option ℤ → Option ℕ
above_zero none = none
above_zero (some (pos n)) = if n == 0 then none else some n
above_zero (some (negsuc n)) = none

unfoldable pub parse_positive_int : Bytes → Option ℕ
unfolding above_zero
parse_positive_int value = above_zero (atoi value)

abbrev pub second : ℕ
second = 1000000000

-- Nanoseconds.
unfoldable pub window_of : Bytes → Option ℕ
window_of name =
    if str_eq name (codes "s")
    then some second
    else if str_eq name (codes "m")
    then some (60 * second)
    else if str_eq name (codes "h")
    then some (3600 * second)
    else none

two_parts : List Bytes → Option (Bytes × Bytes)
two_parts (a ∷ b ∷ []) = some (a, b)
two_parts parts = none

unfoldable pub parse_rate_limit : Bytes → Result Error Spec
unfolding two_parts
parse_rate_limit value = do
  let raw = trim_space value
  guard (not (str_eq raw [])) value_required
  (count, unit) ← or_err (two_parts (split raw b'/')) bad_form
  limit ← or_err (parse_positive_int (trim_space count)) bad_count
  let name = to_lower (trim_space unit)
  window ← or_err (window_of name) bad_window
  ok (record { limit = limit; window = window; raw = itoa limit ++ b'/' ∷ name })
