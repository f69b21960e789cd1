-- ===== src/Text/Trim.antt =====
-- `strings.TrimSpace`: the UTF-8 encodings of Unicode's white space are taken off both ends.
use mathlib.Core.List.{reverse-append, reverse-reverse}
use sealtun.Prelude.{
  ℕ, zero, suc, ◌≤◌, ◌<◌, ◌≡◌, ◌≢◌, refl, sym, ap, ◌∙◌, List, [], ◌∷◌, ◌++◌, map, reverse, Option,
  none, some, arith, Bytes, codes, Option-cases, inl, inr, length, All, append_assoc, length-append,
  length-reverse,
}
use sealtun.Text.{cut_prefix}
use sealtun.Text.Affix.{eq-append_of_cut_prefix, cut_prefix-append_some}

-- The white space of `unicode.IsSpace`.
abbrev pub spaces : List Bytes
spaces =
    (9 ∷ [])
    ∷ (10 ∷ [])
    ∷ (11 ∷ [])
    ∷ (12 ∷ [])
    ∷ (13 ∷ [])
    ∷ (32 ∷ [])
    ∷ (0xc2 ∷ 0x85 ∷ [])
    ∷ (0xc2 ∷ 0xa0 ∷ [])
    ∷ (0xe1 ∷ 0x9a ∷ 0x80 ∷ [])
    ∷ (0xe2 ∷ 0x80 ∷ 0x80 ∷ [])
    ∷ (0xe2 ∷ 0x80 ∷ 0x81 ∷ [])
    ∷ (0xe2 ∷ 0x80 ∷ 0x82 ∷ [])
    ∷ (0xe2 ∷ 0x80 ∷ 0x83 ∷ [])
    ∷ (0xe2 ∷ 0x80 ∷ 0x84 ∷ [])
    ∷ (0xe2 ∷ 0x80 ∷ 0x85 ∷ [])
    ∷ (0xe2 ∷ 0x80 ∷ 0x86 ∷ [])
    ∷ (0xe2 ∷ 0x80 ∷ 0x87 ∷ [])
    ∷ (0xe2 ∷ 0x80 ∷ 0x88 ∷ [])
    ∷ (0xe2 ∷ 0x80 ∷ 0x89 ∷ [])
    ∷ (0xe2 ∷ 0x80 ∷ 0x8a ∷ [])
    ∷ (0xe2 ∷ 0x80 ∷ 0xa8 ∷ [])
    ∷ (0xe2 ∷ 0x80 ∷ 0xa9 ∷ [])
    ∷ (0xe2 ∷ 0x80 ∷ 0xaf ∷ [])
    ∷ (0xe2 ∷ 0x81 ∷ 0x9f ∷ [])
    ∷ (0xe3 ∷ 0x80 ∷ 0x80 ∷ [])
    ∷ []

abbrev pub spaces_back : List Bytes
spaces_back = map reverse spaces

-- The text behind the first pattern that begins it.
unfoldable pub drop_one : List Bytes → Bytes → Option Bytes
unfolding cut_prefix
drop_one [] s = none
drop_one (p ∷ ps) s = elim (cut_prefix p s) [ none ↦ drop_one ps s | some r ↦ some r ]

unfoldable pub drop_all : ℕ → List Bytes → Bytes → Bytes
unfolding drop_one
drop_all zero ps s = s
drop_all (suc fuel) ps s = elim (drop_one ps s) [ none ↦ s | some r ↦ drop_all fuel ps r ]

unfoldable pub trim_left : Bytes → Bytes
unfolding drop_all
trim_left s = drop_all (length s) spaces s

unfoldable pub trim_right : Bytes → Bytes
unfolding drop_all
trim_right s = reverse (drop_all (length s) spaces_back (reverse s))

unfoldable pub trim_space : Bytes → Bytes
unfolding trim_left trim_right
trim_space s = trim_right (trim_left s)

-- A text with no white space at either end.
abbrev pub IsTrimmed : Bytes → Type 0
IsTrimmed s = (drop_one spaces s ≡ none) × (drop_one spaces_back (reverse s) ≡ none)

trim_space_inner : trim_space (codes " \ta b\n") ≡ codes "a b"
unfolding trim_space
trim_space_inner = refl

abbrev NoEmpty : List Bytes → Type 0
NoEmpty = All (λ p. p ≢ [])

spaces-NoEmpty : NoEmpty spaces
spaces-NoEmpty = ground arith

drop_one-suffix :
    (ps : List Bytes) (s : Bytes) {r : Bytes}
    → drop_one ps s ≡ some r
    → NoEmpty ps
    → (u : Bytes) × (s ≡ u ++ r) × (u ≢ [])
unfolding drop_one
drop_one-suffix [] s h n = cc
drop_one-suffix (p ∷ ps) s {r} h (np, n) = elim (Option-cases (cut_prefix p s)) [
  | inl e ↦ drop_one-suffix ps s (rw (e, drop_one) at h) n
  | inr (r', e) ↦ (p, eq-append_of_cut_prefix p s (ground arith), np)
]

length-drop_one :
    (ps : List Bytes) (s : Bytes) {r : Bytes}
    → drop_one ps s ≡ some r
    → NoEmpty ps
    → length r < length s
length-drop_one ps s {r} h n =
    let (u, e, ne) = drop_one-suffix ps s {r = r} h n in
    ground (arith, ap length e, length-append u r)

drop_one-nil : (ps : List Bytes) → NoEmpty ps → drop_one ps [] ≡ none
drop_one-nil ps n = elim (Option-cases (drop_one ps [])) [
  | inl e ↦ e
  | inr (r, e) ↦ absurd (omega (arith, length-drop_one ps [] e n))
]

-- With as much fuel as the text is long, no pattern is left at its beginning.
drop_one-drop_all :
    (fuel : ℕ) (ps : List Bytes) (s : Bytes)
    → NoEmpty ps
    → length s ≤ fuel
    → drop_one ps (drop_all fuel ps s) ≡ none
unfolding drop_all
drop_one-drop_all zero ps [] n h = drop_one-nil ps n
drop_one-drop_all zero ps (c ∷ s) n h = absurd (omega arith)
drop_one-drop_all (suc fuel) ps s n h = elim (Option-cases (drop_one ps s)) [
  | inl e ↦ rw (e, drop_all) e
  | inr (r, e) ↦
      rw (e, drop_all) (drop_one-drop_all fuel ps r n (omega (arith, length-drop_one ps s e n)))
]

drop_all-suffix :
    (fuel : ℕ) (ps : List Bytes) (s : Bytes)
    → NoEmpty ps
    → (u : Bytes) × (s ≡ u ++ drop_all fuel ps s)
unfolding drop_all
drop_all-suffix zero ps s n = ([], refl)
drop_all-suffix (suc fuel) ps s n = elim (Option-cases (drop_one ps s)) [
  | inl e ↦ ([], rw (e, drop_all))
  | inr (r, e) ↦
      let (u, p, _) = drop_one-suffix ps s e n in
      let (v, q) = drop_all-suffix fuel ps r n in
      (u ++ v, rw (e, drop_all) (p ∙ ap (◌++◌ u) q ∙ sym (append_assoc u v _)))
]

drop_all_of_none :
    (fuel : ℕ) (ps : List Bytes) (s : Bytes) → drop_one ps s ≡ none → drop_all fuel ps s ≡ s
unfolding drop_all
drop_all_of_none zero ps s h = refl
drop_all_of_none (suc fuel) ps s h = rw (h, drop_all)

-- A text that no pattern begins has no beginning that one begins.
drop_one-append_none :
    (ps : List Bytes) (s t : Bytes) → drop_one ps (s ++ t) ≡ none → drop_one ps s ≡ none
unfolding drop_one
drop_one-append_none [] s t h = refl
drop_one-append_none (p ∷ ps) s t h = elim (Option-cases (cut_prefix p s)) [
  | inl e ↦ rw (e, drop_one) (drop_one-append_none ps s t (ground arith))
  | inr (r, e) ↦ ground (arith, cut_prefix-append_some p s t e)
]

spaces_back-NoEmpty : NoEmpty spaces_back
spaces_back-NoEmpty = ground arith

pub trim_right-prefix : (s : Bytes) → (v : Bytes) × (s ≡ trim_right s ++ v)
unfolding trim_right
trim_right-prefix s =
    let kept = drop_all (length s) spaces_back (reverse s) in
    let (u, e) = drop_all-suffix (length s) spaces_back (reverse s) spaces_back-NoEmpty in
    (reverse u, sym (reverse-reverse s) ∙ ap reverse e ∙ reverse-append u kept)

-- What is left has no white space at either end.
pub trim_space-IsTrimmed : (s : Bytes) → IsTrimmed (trim_space s)
unfolding trim_space trim_right trim_left
trim_space-IsTrimmed s = (
  let (v, e) = trim_right-prefix (trim_left s) in
      drop_one-append_none spaces (trim_space s) v (
        ap (drop_one spaces) (sym e)
        ∙ drop_one-drop_all (length s) spaces s spaces-NoEmpty (omega arith)),
  rw (reverse-reverse (drop_all (length (trim_left s)) spaces_back (reverse (trim_left s)))) (
      drop_one-drop_all (length (trim_left s)) spaces_back (reverse (trim_left s))
        spaces_back-NoEmpty (omega (arith, length-reverse (trim_left s)))),
)

-- Trimming changes a trimmed text no further.
pub trim_space_of_IsTrimmed : (s : Bytes) → IsTrimmed s → trim_space s ≡ s
unfolding trim_space trim_right trim_left
trim_space_of_IsTrimmed s (l, r) =
    rw
      (
        drop_all_of_none (length s) spaces s l,
        drop_all_of_none (length s) spaces_back (reverse s) r,
      )
      (reverse-reverse s)

pub trim_space_idem : (s : Bytes) → trim_space (trim_space s) ≡ trim_space s
trim_space_idem s = trim_space_of_IsTrimmed (trim_space s) (trim_space-IsTrimmed s)
