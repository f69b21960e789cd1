-- ===== src/Routes/Prefixes.antt =====
-- Normalized prefixes, segment-aware matching, and stripping.
use mathlib.Core.List.{reverse-append, reverse-reverse, cons-ne-nil}
use sealtun.Prelude.{
  ◌≡◌, ◌≢◌, ◌↔◌, ◌⊎◌, inl, inr, refl, sym, ap, ◌∙◌, true, [], ◌∷◌, ◌++◌, reverse, Bytes, str_eq,
  str_eq_iff, arith, ◌==◌, if◌then◌else◌, Bool-cases, append_assoc, append-nil,
}
use sealtun.Text.{has_prefix}
use sealtun.Text.Affix.{has_prefix_iff, trim_prefix-append}
use sealtun.Text.Trim.{trim_space, IsTrimmed, trim_space_of_IsTrimmed}
use sealtun.Routes.{slash, strip_slashes, rooted, normalize_path, prefix_matches, strip_prefix}

-- "/" matches every rooted path; any other prefix matches itself and the paths below it.
pub prefix_matches_iff :
    (prefix request : Bytes)
    → (prefix_matches prefix request ≡ true) ↔ (
        ((prefix ≡ slash) × ((r : Bytes) × (request ≡ slash ++ r)))
        ⊎ ((prefix ≢ slash)
            × ((request ≡ prefix) ⊎ ((r : Bytes) × (request ≡ prefix ++ slash ++ r)))))
unfolding prefix_matches
prefix_matches_iff prefix request = (to, from)
  where
    to :
        prefix_matches prefix request ≡ true
        → ((prefix ≡ slash) × ((r : Bytes) × (request ≡ slash ++ r)))
          ⊎ ((prefix ≢ slash)
              × ((request ≡ prefix) ⊎ ((r : Bytes) × (request ≡ prefix ++ slash ++ r))))
    to h = elim (Bool-cases (str_eq prefix slash)) [
      | inl e ↦ inl ((str_eq_iff prefix slash).0 e, (has_prefix_iff request slash).0 (ground arith))
      | inr e ↦ elim (Bool-cases (str_eq request prefix)) [
        | inl q ↦
            inr (ground (arith, str_eq_iff prefix slash), inl ((str_eq_iff request prefix).0 q))
        | inr q ↦
            let (r, p) = (has_prefix_iff request (prefix ++ slash)).0 (ground arith) in
            inr (ground (arith, str_eq_iff prefix slash), inr (r, p))
      ]
    ]

    from :
        ((prefix ≡ slash) × ((r : Bytes) × (request ≡ slash ++ r)))
          ⊎ ((prefix ≢ slash)
              × ((request ≡ prefix) ⊎ ((r : Bytes) × (request ≡ prefix ++ slash ++ r))))
        → prefix_matches prefix request ≡ true
    from (inl (e, (r, q))) =
        ground (arith, str_eq_iff prefix slash, (has_prefix_iff request slash).1 (r, q))
    from (inr (ne, inl q)) = ground (arith, str_eq_iff prefix slash, str_eq_iff request prefix)
    from (inr (ne, inr (r, q))) =
        ground (arith, str_eq_iff prefix slash, (has_prefix_iff request (prefix ++ slash)).1 (r, q))

strip_slashes_idem : (s : Bytes) → strip_slashes (strip_slashes s) ≡ strip_slashes s
unfolding strip_slashes
strip_slashes_idem [] = refl
strip_slashes_idem (c ∷ []) = refl
strip_slashes_idem (c ∷ d ∷ s) = ground (arith, strip_slashes_idem (d ∷ s))

strip_slashes-suffix : (s : Bytes) → (u : Bytes) × (s ≡ u ++ strip_slashes s)
unfolding strip_slashes
strip_slashes-suffix [] = ([], refl)
strip_slashes-suffix (c ∷ []) = ([], refl)
strip_slashes-suffix (c ∷ d ∷ s) = elim (Bool-cases (c == b'/')) [
  | inl e ↦
      let (u, p) = strip_slashes-suffix (d ∷ s) in (c ∷ u, rw (e, strip_slashes) (ap (◌∷◌ c) p))
  | inr e ↦ ([], rw (e, strip_slashes))
]

strip_slashes-ne-nil : (s : Bytes) → s ≢ [] → strip_slashes s ≢ []
unfolding strip_slashes
strip_slashes-ne-nil [] h = h
strip_slashes-ne-nil (c ∷ []) h = h
strip_slashes-ne-nil (c ∷ d ∷ s) h = ground (arith, strip_slashes-ne-nil (d ∷ s))

-- A prefix that begins with a slash.
abbrev pub IsRooted : Bytes → Type 0
IsRooted s = (r : Bytes) × (s ≡ slash ++ r)

rooted-IsRooted : (s : Bytes) → IsRooted (rooted s)
unfolding rooted
rooted-IsRooted s = elim (Bool-cases (has_prefix s slash)) [
  | inl e ↦ rw (e, rooted) ((has_prefix_iff s slash).0 e)
  | inr e ↦ rw (e, rooted) (s, refl)
]

prefix-IsRooted : (s t r : Bytes) → s ++ t ≡ slash ++ r → s ≢ [] → IsRooted s
prefix-IsRooted [] t r e ne = absurd (ne refl)
prefix-IsRooted (c ∷ s) t r e ne = (s, ground arith)

reverse-ne-nil : (s : Bytes) → s ≢ [] → reverse s ≢ []
reverse-ne-nil s h e = h (sym (reverse-reverse s) ∙ ap reverse e)

unslashed : Bytes → Bytes
unslashed s = reverse (strip_slashes (reverse s))

unslashed-IsRooted : (s : Bytes) → IsRooted s → IsRooted (unslashed s)
unfolding unslashed
unslashed-IsRooted s (r, e) =
    let (u, p) = strip_slashes-suffix (reverse s) in
    let back = strip_slashes (reverse s) in
    prefix-IsRooted (reverse back) (reverse u) r
      (sym (reverse-append u back) ∙ ap reverse (sym p) ∙ reverse-reverse s ∙ e)
      (reverse-ne-nil back
        (strip_slashes-ne-nil (reverse s) (reverse-ne-nil s (rw e (cons-ne-nil _ _)))))

normalize_path-unslashed :
    (p : Bytes) → trim_space p ≢ [] → normalize_path p ≡ unslashed (rooted (trim_space p))
unfolding normalize_path unslashed
normalize_path-unslashed p h = ground (arith, str_eq_iff (trim_space p) [])

-- A normalized prefix begins with a slash, unless the text is blank.
pub normalize_path-IsRooted : (p : Bytes) → normalize_path p ≢ [] → IsRooted (normalize_path p)
unfolding normalize_path
normalize_path-IsRooted p h = elim (Bool-cases (str_eq (trim_space p) [])) [
  | inl e ↦ absurd (h (rw (e, normalize_path)))
  | inr e ↦
      rw (normalize_path-unslashed p (ground (arith, str_eq_iff (trim_space p) [])))
        (unslashed-IsRooted _ (rooted-IsRooted (trim_space p)))
]

normalize_path-nil : normalize_path [] ≡ []
unfolding normalize_path trim_space str_eq
normalize_path-nil = refl

rooted_of_IsRooted : (s : Bytes) → IsRooted s → rooted s ≡ s
unfolding rooted
rooted_of_IsRooted s (r, e) = rw ((has_prefix_iff s slash).1 (r, e))

unslashed_idem : (s : Bytes) → unslashed (unslashed s) ≡ unslashed s
unfolding unslashed
unslashed_idem s =
    rw (reverse-reverse (strip_slashes (reverse s))) (ap reverse (strip_slashes_idem (reverse s)))

-- Normalizing a normalized prefix changes nothing, unless stripping its slashes has laid bare white
-- space at its end.
pub normalize_path_idem :
    (p : Bytes)
    → IsTrimmed (normalize_path p)
    → normalize_path (normalize_path p) ≡ normalize_path p
unfolding normalize_path
normalize_path_idem p h = elim (Bool-cases (str_eq (trim_space p) [])) [
  | inl e ↦ rw (e, normalize_path) normalize_path-nil
  | inr e ↦
      let n = normalize_path p in
      let u = rooted (trim_space p) in
      let is_u : n ≡ unslashed u =
        normalize_path-unslashed p (ground (arith, str_eq_iff (trim_space p) [])) in
      let r : IsRooted n = rw is_u (unslashed-IsRooted u (rooted-IsRooted (trim_space p))) in
      let t : trim_space n ≡ n = trim_space_of_IsTrimmed n h in
      normalize_path-unslashed n (rw (t, r.1) (cons-ne-nil _ _))
      ∙ ap (λ x. unslashed (rooted x)) t
      ∙ ap unslashed (rooted_of_IsRooted n r ∙ is_u)
      ∙ unslashed_idem u
      ∙ sym is_u
]

pub strip_prefix-append :
    (prefix out : Bytes)
    → normalize_path prefix ≡ prefix
    → prefix ≢ []
    → prefix ≢ slash
    → strip_prefix prefix (prefix ++ out) ≡ (if str_eq out [] then slash else out)
unfolding strip_prefix
strip_prefix-append prefix out n ne other =
    rw (n, trim_prefix-append prefix out)
      (ground (arith, str_eq_iff prefix slash, str_eq_iff prefix []))

-- What `StripPrefix` leaves of a request path that a prefix matches.
pub data Stripped (prefix request out : Bytes) : Type 0 where
  root : prefix ≡ slash → out ≡ request → Stripped prefix request out
  whole : prefix ≢ slash → request ≡ prefix → out ≡ slash → Stripped prefix request out
  below : prefix ≢ slash → request ≡ prefix ++ out → IsRooted out → Stripped prefix request out

-- A normalized prefix that matches is stripped off: "/" strips nothing, the prefix itself leaves
-- "/", and of a path below the prefix the rest is left, which begins with a slash.
pub strip_prefix-Stripped :
    (prefix request : Bytes)
    → normalize_path prefix ≡ prefix
    → prefix ≢ []
    → prefix_matches prefix request ≡ true
    → Stripped prefix request (strip_prefix prefix request)
unfolding strip_prefix str_eq
strip_prefix-Stripped prefix request n ne m = elim ((prefix_matches_iff prefix request).0 m) [
  | inl (e, (r, q)) ↦ root e (ground (arith, str_eq_iff (normalize_path prefix) slash))
  | inr (other, inl q) ↦
      let e : request ≡ prefix ++ [] = q ∙ sym (append-nil prefix) in
      whole other q (rw e (strip_prefix-append prefix [] n ne other))
  | inr (other, inr (r, q)) ↦
      let e : request ≡ prefix ++ (slash ++ r) = q ∙ append_assoc prefix slash r in
      let out : strip_prefix prefix request ≡ slash ++ r =
        rw e (strip_prefix-append prefix (slash ++ r) n ne other) in
      below other (rw out e) (r, out)
]
