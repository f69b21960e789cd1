-- ===== src/Text/Decimal.antt =====
-- Decimal numbers: `strconv.Itoa` and `%d` on numbers from zero up, and `strconv.Atoi`.
use sealtun.Prelude.{
  ℕ, ℤ, pos, neg, zero, suc, ◌+◌, ◌-◌, ◌*◌, ◌/◌, ◌%◌, ◌^◌, ◌≤◌, ◌≡◌, ◌≢◌, refl, ap, sym, ◌∙◌, Bool,
  true, ◌&&◌, [], ◌∷◌, Option, none, some, arith, Bytes, codes, leb, ◌==◌, if◌then◌else◌, all, All,
}

abbrev pub is_digit : ℕ → Bool
is_digit c = leb b'0' c && leb c b'9'

abbrev pub IsDigit : ℕ → Type 0
IsDigit c = (b'0' ≤ c) × (c ≤ b'9')

-- The number that digits spell behind `n`, with no bound.
abbrev pub value : ℕ → Bytes → ℕ
value so_far [] = so_far
value so_far (c ∷ more) = value (so_far * 10 + (c - b'0')) more

digits : ℕ → ℕ → Bytes → Bytes
digits zero n out = out
digits (suc fuel) n out =
    let more = digits fuel (n / 10) ((b'0' + n % 10) ∷ out) in if n == 0 then out else more

-- Each round divides by ten, so `n` rounds are enough.
unfoldable pub itoa : ℕ → Bytes
unfolding digits
itoa n = if n == 0 then b'0' ∷ [] else digits n n []

-- `strconv.Atoi`: an optional sign, one digit or more, and a value that fits an int64.
magnitude : Bytes → Option ℕ
magnitude [] = none
magnitude (c ∷ s) = if all is_digit (c ∷ s) then some (value 0 (c ∷ s)) else none

abbrev pub max_int : ℕ
max_int = 2 ^ 63 - 1

positive : Option ℕ → Option ℤ
positive none = none
positive (some n) = if leb n max_int then some (pos n) else none

negative : Option ℕ → Option ℤ
negative none = none
negative (some n) = if leb n (2 ^ 63) then some (neg n) else none

unfoldable pub atoi : Bytes → Option ℤ
unfolding magnitude positive negative
atoi [] = none
atoi (c ∷ s) =
    if c == b'-'
    then negative (magnitude s)
    else if c == b'+'
    then positive (magnitude s)
    else positive (magnitude (c ∷ s))

value-digits : (fuel n : ℕ) (out : Bytes) → n ≤ fuel → value 0 (digits fuel n out) ≡ value n out
unfolding digits
value-digits zero n out h = ap (λ k. value k out) (omega arith)
value-digits (suc fuel) n out h = ground (arith, value-digits fuel (n / 10) ((b'0' + n % 10) ∷ out))

-- A number is read back from its decimal print.
pub value-itoa : (n : ℕ) → value 0 (itoa n) ≡ n
unfolding itoa
value-itoa n = ground (arith, value-digits n n [])

pub itoa-injective : (m n : ℕ) → itoa m ≡ itoa n → m ≡ n
itoa-injective m n h = sym (value-itoa m) ∙ ap (value 0) h ∙ value-itoa n

digits-All : (fuel n : ℕ) (out : Bytes) → All IsDigit out → All IsDigit (digits fuel n out)
unfolding digits
digits-All zero n out h = h
digits-All (suc fuel) n out h = ground (arith, digits-All fuel (n / 10) ((b'0' + n % 10) ∷ out))

pub itoa-All : (n : ℕ) → All IsDigit (itoa n)
unfolding itoa
itoa-All n = ground (arith, digits-All n n [])

All-all : (s : Bytes) → All IsDigit s → all is_digit s ≡ true
All-all [] h = refl
All-all (c ∷ s) (d, h) = ground (arith, All-all s h)

signless :
    (s : Bytes) {n : ℕ}
    → s ≢ []
    → All IsDigit s
    → value 0 s ≡ n
    → n ≤ max_int
    → atoi s ≡ some (pos n)
unfolding atoi
signless [] ne h e fits = absurd (ne refl)
signless (c ∷ s) ne h e fits = ground (arith, All-all (c ∷ s) h)

digits-ne-nil : (fuel n : ℕ) (out : Bytes) → out ≢ [] → digits fuel n out ≢ []
unfolding digits
digits-ne-nil zero n out h = h
digits-ne-nil (suc fuel) n out h =
    ground (arith, digits-ne-nil fuel (n / 10) ((b'0' + n % 10) ∷ out))

pub itoa-ne-nil : (n : ℕ) → itoa n ≢ []
unfolding itoa digits
itoa-ne-nil zero = cc
itoa-ne-nil (suc n) = ground (arith, digits-ne-nil n (suc n / 10) ((b'0' + suc n % 10) ∷ []))

-- `Atoi` reads back what `Itoa` prints.
pub atoi-itoa : (n : ℕ) → n ≤ max_int → atoi (itoa n) ≡ some (pos n)
atoi-itoa n h = signless (itoa n) (itoa-ne-nil n) (itoa-All n) (value-itoa n) h

pub atoi_bound : (s : Bytes) {n : ℕ} → atoi s ≡ some (pos n) → n ≤ max_int
unfolding atoi magnitude positive negative
atoi_bound [] h = cc
atoi_bound (c ∷ s) {n} h = ground arith

itoa_four : itoa 65535 ≡ codes "65535"
unfolding itoa
itoa_four = refl

atoi_minus : atoi (codes "-12") ≡ some (neg 12)
unfolding atoi
atoi_minus = refl
