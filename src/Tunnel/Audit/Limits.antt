-- ===== src/Tunnel/Audit/Limits.antt =====
-- pkg/tunnel/server.go: the limit of a query of the audit log.
use sealtun.Prelude.{
  ℕ, ◌+◌, ◌-◌, ◌*◌, ◌%◌, ◌≤◌, ◌<◌, ◌≡◌, ◌↔◌, refl, [], ◌∷◌, some, arith, Bytes, str_eq_iff, ok, All,
}
use sealtun.Text.Trim.{trim_space}
use sealtun.Text.Decimal.{itoa, itoa-All, itoa-ne-nil, IsDigit, value, value-itoa}
use sealtun.Text.Visible.{Visible, trim_space_of_Visible}
use sealtun.Tunnel.Audit.{
  max_events, word, parse_digits, positive_word, parse_positive_audit_int, within_limit,
  parse_audit_limit,
}

mod-shift : (out d : ℕ) → ((out % word) * 10 + d) % word ≡ (out * 10 + d) % word
mod-shift out d = omega arith

parse_digits-value :
    (out : ℕ) (s : Bytes) → All IsDigit s → parse_digits (out % word) s ≡ some (value out s % word)
unfolding parse_digits
parse_digits-value out [] h = refl
parse_digits-value out (c ∷ s) (d, h) =
    rw (mod-shift out (c - b'0'))
      (ground (arith, d, parse_digits-value (out * 10 + (c - b'0')) s h))

All-Visible : (s : Bytes) → All IsDigit s → All Visible s
All-Visible [] h = tt
All-Visible (c ∷ s) (d, h) = (omega (arith, d), All-Visible s h)

digits_trimmed : (n : ℕ) → trim_space (itoa n) ≡ itoa n
digits_trimmed n = trim_space_of_Visible (itoa n) (All-Visible (itoa n) (itoa-All n))

-- The decimal text of a number is accepted as the limit `k` of a query exactly when `k` is from 1
-- to 1000 and is what remains of the number modulo 2^64.
pub parse_audit_limit-itoa :
    (n k : ℕ) → (parse_audit_limit (itoa n) ≡ ok k) ↔ ((n % word ≡ k) × (0 < k) × (k ≤ max_events))
unfolding parse_audit_limit parse_positive_audit_int positive_word within_limit
parse_audit_limit-itoa n k =
    let read : parse_digits (0 % word) (itoa n) ≡ some (value 0 (itoa n) % word) =
      parse_digits-value 0 (itoa n) (itoa-All n) in
    ground (arith, digits_trimmed n, itoa-ne-nil n, str_eq_iff (itoa n) [], read, value-itoa n)
