-- ===== src/AccessPolicy/RateSpec/Canonical.antt =====
-- An accepted rate limit, and its canonical text.
use mathlib.Core.Path.{subst}
use sealtun.Prelude.{
  ℕ, ◌*◌, ◌≤◌, ◌<◌, ◌≡◌, ◌≢◌, ◌⊎◌, inl, inr, refl, sym, ap, ◌∙◌, false, [], ◌∷◌, ◌++◌, none, some,
  ℤ, pos, negsuc, Bytes, codes, str_eq, str_eq_iff, ok, arith, All, All-append, Option-cases,
}
use sealtun.Text.{split, to_lower}
use sealtun.Text.Decimal.{itoa, atoi, atoi-itoa, atoi_bound, itoa-All, IsDigit, max_int}
use sealtun.Text.Trim.{trim_space}
use sealtun.Text.Visible.{Visible, trim_space_of_Visible}
use sealtun.AccessPolicy.RateLimiter.{Spec, new}
use sealtun.AccessPolicy.RateSpec.{
  above_zero, parse_positive_int, window_of, two_parts, parse_rate_limit, second,
}

abbrev Plain : Bytes → Type 0
Plain = All (λ c. c ≢ b'/')

split-Plain : (q : Bytes) → Plain q → split q b'/' ≡ q ∷ []
unfolding split
split-Plain [] h = refl
split-Plain (c ∷ q) (n, h) = ground (arith, split-Plain q h)

split_at : (p q : Bytes) → Plain p → Plain q → split (p ++ b'/' ∷ q) b'/' ≡ p ∷ q ∷ []
unfolding split
split_at [] q hp hq = ground (arith, split-Plain q hq)
split_at (c ∷ p) q (n, hp) hq = ground (arith, split_at p q hp hq)

digits-Plain : (s : Bytes) → All IsDigit s → Plain s × All Visible s
digits-Plain [] h = (tt, tt)
digits-Plain (c ∷ s) (d, h) = ground (arith, digits-Plain s h, d)

-- Every way to name a window.
window_cases :
    (name : Bytes) {w : ℕ}
    → window_of name ≡ some w
    → ((name ≡ codes "s") × (w ≡ second))
      ⊎ ((name ≡ codes "m") × (w ≡ 60 * second))
      ⊎ ((name ≡ codes "h") × (w ≡ 3600 * second))
unfolding window_of
window_cases name h =
    ground
      (arith, str_eq_iff name (codes "s"), str_eq_iff name (codes "m"), str_eq_iff name (codes "h"))

-- A window's name stands for itself.
abbrev Named : Bytes → Type 0
Named name = Plain name × All Visible name × (to_lower (trim_space name) ≡ name)

window-Named : (name : Bytes) {w : ℕ} → window_of name ≡ some w → Named name × (0 < w)
unfolding to_lower trim_space
window-Named name {w} h = elim (window_cases name h) [
  | inl (e, q) ↦ rw (e, q) ((omega arith, omega arith, refl), omega arith)
  | inr (inl (e, q)) ↦ rw (e, q) ((omega arith, omega arith, refl), omega arith)
  | inr (inr (e, q)) ↦ rw (e, q) ((omega arith, omega arith, refl), omega arith)
]

positive_bound : (v : Bytes) {n : ℕ} → parse_positive_int v ≡ some n → (0 < n) × (n ≤ max_int)
unfolding parse_positive_int above_zero
positive_bound v {n} h = elim (Option-cases (atoi v)) [
  | inl e ↦ absurd (ground arith)
  | inr (z, e) ↦ signed z e
]
  where
    signed : (z : ℤ) → atoi v ≡ some z → (0 < n) × (n ≤ max_int)
    signed (pos m) e = ground (arith, atoi_bound v {n = m} e)
    signed (negsuc m) e = absurd (ground arith)

parse_positive_int-itoa : (n : ℕ) → 0 < n → n ≤ max_int → parse_positive_int (itoa n) ≡ some n
unfolding parse_positive_int above_zero
parse_positive_int-itoa n p h = rw (atoi-itoa n h) (ground arith)

not_blank : (p : Bytes) (c : ℕ) (q : Bytes) → str_eq (p ++ c ∷ q) [] ≡ false
unfolding str_eq
not_blank [] c q = refl
not_blank (d ∷ p) c q = refl

canonical : ℕ → Bytes → Bytes
canonical n name = itoa n ++ b'/' ∷ name

parse-canonical :
    (n w : ℕ) (name : Bytes)
    → 0 < n
    → n ≤ max_int
    → window_of name ≡ some w
    → parse_rate_limit (canonical n name)
      ≡ ok (record { limit = n; window = w; raw = canonical n name })
unfolding parse_rate_limit canonical two_parts
parse-canonical n w name p fits e =
    let ((plain, visible, low), _) = window-Named name e in
    let (dp, dv) = digits-Plain (itoa n) (itoa-All n) in
    let text = itoa n ++ b'/' ∷ name in
    let trimmed : trim_space text ≡ text =
      trim_space_of_Visible text
        (All-append Visible (itoa n) (b'/' ∷ name) dv (omega arith, visible)) in
    rw (
      trimmed,
      not_blank (itoa n) b'/' name,
      split_at (itoa n) name dp plain,
      trim_space_of_Visible (itoa n) dv,
      parse_positive_int-itoa n p fits,
      low,
      e,
    )

-- The parts of an accepted text.
record Parts (spec : Spec) : Type 0 where
  name : Bytes
  positive : 0 < spec.limit
  fits : spec.limit ≤ max_int
  window : window_of name ≡ some spec.window
  raw : spec.raw ≡ canonical spec.limit name

Parts-of_accepted : (v : Bytes) {spec : Spec} → parse_rate_limit v ≡ ok spec → Parts spec
unfolding parse_rate_limit canonical
Parts-of_accepted v {spec} h = elim (Option-cases (two_parts (split (trim_space v) b'/'))) [
  | inl e ↦ absurd (ground arith)
  | inr (p, e) ↦ elim (Option-cases (parse_positive_int (trim_space p.0))) [
    | inl f ↦ absurd (ground arith)
    | inr (n, f) ↦ elim (Option-cases (window_of (to_lower (trim_space p.1)))) [
      | inl g ↦ absurd (ground arith)
      | inr (w, g) ↦
          let bound = positive_bound (trim_space p.0) f in
          let spec_eq : record {
            limit = n;
            window = w;
            raw = canonical n (to_lower (trim_space p.1));
          }
              ≡ spec =
            ground arith in
          subst Parts spec_eq (record {
            name = to_lower (trim_space p.1);
            positive = bound.0;
            fits = bound.1;
            window = g;
            raw = refl;
          })
    ]
  ]
]

-- An accepted rate limit has a count from 1 to the largest int64 and a positive window, so that a
-- limiter is made for it, and its canonical text is parsed to the same limit again.
pub parse_rate_limit-raw :
    (v : Bytes) {spec : Spec}
    → parse_rate_limit v ≡ ok spec
    → (parse_rate_limit spec.raw ≡ ok spec)
      × (0 < spec.limit)
      × (spec.limit ≤ max_int)
      × (0 < spec.window)
      × (new spec ≢ none)
unfolding new
parse_rate_limit-raw v {spec} h =
    let q = Parts-of_accepted v h in
    let (_, open') = window-Named q.name q.window in
    (
      ap parse_rate_limit q.raw
          ∙ parse-canonical spec.limit spec.window q.name q.positive q.fits q.window
          ∙ ap (λ raw. ok (record spec { raw = raw })) (sym q.raw),
      q.positive,
      q.fits,
      open',
      ground (arith, q.positive),
    )
