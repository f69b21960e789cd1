-- ===== src/Text/Visible.antt =====
-- Texts of visible ASCII characters have no white space to trim.
use mathlib.Core.List.{reverse-cons, reverse-append, reverse-reverse}
use sealtun.Prelude.{
  ℕ, ◌≤◌, ◌≡◌, ◌≢◌, refl, sym, ap, ◌∙◌, [], ◌∷◌, ◌++◌, reverse, none, Bytes, Bool, true, false,
  List, leb, all, ◌||◌, arith, All, All-append,
}
use sealtun.Text.{cut_prefix}
use sealtun.Text.Trim.{
  spaces, spaces_back, drop_one, trim_space, IsTrimmed, trim_space_of_IsTrimmed,
}

abbrev pub Visible : ℕ → Type 0
Visible c = (33 ≤ c) × (c ≤ 126)

outside : Bytes → Bool
outside [] = false
outside (a ∷ p) = leb a 32 || leb 127 a

-- A visible character begins no pattern whose first byte is not visible.
drop_one_of_Visible :
    (ps : List Bytes) (c : ℕ) (s : Bytes)
    → all outside ps ≡ true
    → Visible c
    → drop_one ps (c ∷ s) ≡ none
unfolding drop_one cut_prefix outside
drop_one_of_Visible [] c s h v = refl
drop_one_of_Visible ([] ∷ ps) c s h v = cc
drop_one_of_Visible ((a ∷ p) ∷ ps) c s h v =
    ground (arith, drop_one_of_Visible ps c s (ground arith) v)

All-reverse : (s : Bytes) → All Visible s → All Visible (reverse s)
All-reverse [] h = tt
All-reverse (c ∷ s) (v, h) =
    rw (reverse-cons c s) (All-append Visible (reverse s) (c ∷ []) (All-reverse s h) (v, tt))

none_front : (s : Bytes) → All Visible s → drop_one spaces s ≡ none
unfolding drop_one cut_prefix outside
none_front [] h = refl
none_front (c ∷ s) h = drop_one_of_Visible spaces c s refl h.0

none_back : (s : Bytes) → All Visible s → drop_one spaces_back s ≡ none
unfolding drop_one cut_prefix outside
none_back [] h = refl
none_back (c ∷ s) h = drop_one_of_Visible spaces_back c s refl h.0

pub Visible-IsTrimmed : (s : Bytes) → All Visible s → IsTrimmed s
Visible-IsTrimmed s h = (none_front s h, none_back (reverse s) (All-reverse s h))

pub trim_space_of_Visible : (s : Bytes) → All Visible s → trim_space s ≡ s
trim_space_of_Visible s h = trim_space_of_IsTrimmed s (Visible-IsTrimmed s h)

none_back_append : (s t : Bytes) → All Visible s → s ≢ [] → drop_one spaces_back (s ++ t) ≡ none
unfolding outside
none_back_append [] t h ne = absurd (ne refl)
none_back_append (c ∷ s) t h ne = drop_one_of_Visible spaces_back c (s ++ t) refl h.0

-- A text that begins with a visible character and ends with some has nothing to trim.
pub trim_space_of_ends :
    (c : ℕ) (mid s : Bytes)
    → Visible c
    → All Visible s
    → s ≢ []
    → trim_space (c ∷ mid ++ s) ≡ c ∷ mid ++ s
unfolding outside
trim_space_of_ends c mid s v h ne = trim_space_of_IsTrimmed (c ∷ mid ++ s) (
  drop_one_of_Visible spaces c (mid ++ s) refl v,
  rw (reverse-append (c ∷ mid) s) (
      none_back_append (reverse s) (reverse (c ∷ mid)) (All-reverse s h)
        (λ e. ne (sym (reverse-reverse s) ∙ ap reverse e))),
)
