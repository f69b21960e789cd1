-- ===== src/Text/Affix.antt =====
-- Laws of prefixes, suffixes and substrings.
use mathlib.Core.List.{reverse-append, reverse-reverse}
use sealtun.Prelude.{
  ◌≡◌, ◌↔◌, refl, ap, ◌∙◌, true, [], ◌∷◌, ◌++◌, reverse, some, arith, Bytes, Option-cases, inl, inr,
  append_assoc,
}
use sealtun.Text.{cut_prefix, has_prefix, trim_prefix, trim_suffix, has_suffix}

pub cut_prefix-append : (p s : Bytes) → cut_prefix p (p ++ s) ≡ some s
unfolding cut_prefix
cut_prefix-append [] s = refl
cut_prefix-append (a ∷ p) s = ground (arith, cut_prefix-append p s)

pub eq-append_of_cut_prefix : (p s : Bytes) {r : Bytes} → cut_prefix p s ≡ some r → s ≡ p ++ r
unfolding cut_prefix
eq-append_of_cut_prefix [] s h = ground arith
eq-append_of_cut_prefix (a ∷ p) [] h = cc
eq-append_of_cut_prefix (a ∷ p) (b ∷ s) {r} h = ground (arith, eq-append_of_cut_prefix p s {r = r})

-- A prefix of `s` is a prefix of every text that `s` begins.
pub cut_prefix-append_some :
    (p s t : Bytes) {r : Bytes} → cut_prefix p s ≡ some r → cut_prefix p (s ++ t) ≡ some (r ++ t)
cut_prefix-append_some p s t {r} h =
    ap (cut_prefix p) (ap (λ u. u ++ t) (eq-append_of_cut_prefix p s h) ∙ append_assoc p r t)
    ∙ cut_prefix-append p (r ++ t)

pub has_prefix_iff : (s p : Bytes) → (has_prefix s p ≡ true) ↔ ((r : Bytes) × (s ≡ p ++ r))
unfolding has_prefix
has_prefix_iff s p = (to, from)
  where
    to : has_prefix s p ≡ true → (r : Bytes) × (s ≡ p ++ r)
    to h = elim (Option-cases (cut_prefix p s)) [
      | inl e ↦ absurd (ground arith)
      | inr (r, e) ↦ (r, eq-append_of_cut_prefix p s e)
    ]

    from : ((r : Bytes) × (s ≡ p ++ r)) → has_prefix s p ≡ true
    from (r, e) = rw (e, has_prefix, cut_prefix-append p r)

pub has_prefix-append : (p s : Bytes) → has_prefix (p ++ s) p ≡ true
has_prefix-append p s = (has_prefix_iff (p ++ s) p).1 (s, refl)

pub trim_prefix-append : (p s : Bytes) → trim_prefix (p ++ s) p ≡ s
unfolding trim_prefix
trim_prefix-append p s = rw (trim_prefix, cut_prefix-append p s)

pub has_suffix-append : (s p : Bytes) → has_suffix (s ++ p) p ≡ true
unfolding has_suffix
has_suffix-append s p = rw (reverse-append s p) (has_prefix-append (reverse p) (reverse s))

pub trim_suffix-append : (s p : Bytes) → trim_suffix (s ++ p) p ≡ s
unfolding trim_suffix
trim_suffix-append s p =
    ap (λ t. reverse (trim_prefix t (reverse p))) (reverse-append s p)
    ∙ ap reverse (trim_prefix-append (reverse p) (reverse s))
    ∙ reverse-reverse s
