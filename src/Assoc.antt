-- ===== src/Assoc.antt =====
-- Go maps with string keys, as association lists: a lookup, a write, a delete and their laws.
use mathlib.Core.Path.{subst₂}
use sealtun.Prelude.{
  ◌+◌, ◌≤◌, ◌≡◌, refl, Bool, true, List, [], ◌∷◌, Option, none, some, Bytes, str_eq, str_eq_iff,
  arith, if◌then◌else◌, length, is_some, All, Bool-cases, inl, inr,
}

module _ {ℓ} {V : Type ℓ} where
  unfoldable pub lookup : Bytes → List (Bytes × V) → Option V
  lookup k [] = none
  lookup k ((j, v) ∷ m) = let rest = lookup k m in if str_eq j k then some v else rest

  unfoldable pub insert : Bytes → V → List (Bytes × V) → List (Bytes × V)
  insert k v [] = (k, v) ∷ []
  insert k v ((j, w) ∷ m) =
      let rest = insert k v m in if str_eq j k then (k, v) ∷ m else (j, w) ∷ rest

  -- The entries whose value passes the test.
  unfoldable pub keep : (V → Bool) → List (Bytes × V) → List (Bytes × V)
  keep p [] = []
  keep p ((j, w) ∷ m) = let rest = keep p m in if p w then (j, w) ∷ rest else rest

  abbrev pub has : Bytes → List (Bytes × V) → Bool
  has k m = is_some (lookup k m)

  pub lookup-insert :
      (k j : Bytes) (v : V) (m : List (Bytes × V))
      → lookup j (insert k v m) ≡ (if str_eq k j then some v else lookup j m)
  unfolding lookup insert
  lookup-insert k j v [] = refl
  lookup-insert k j v ((i, w) ∷ m) =
      ground (arith, str_eq_iff k j, str_eq_iff i k, str_eq_iff i j, lookup-insert k j v m)

  -- A write adds an entry exactly when the key is new.
  pub length-insert :
      (k : Bytes) (v : V) (m : List (Bytes × V))
      → length (insert k v m) ≡ length m + (if has k m then 0 else 1)
  unfolding lookup insert
  length-insert k v [] = refl
  length-insert k v ((j, w) ∷ m) = ground (arith, length-insert k v m, str_eq_iff j k)

  pub length-keep_le : (p : V → Bool) (m : List (Bytes × V)) → length (keep p m) ≤ length m
  unfolding keep
  length-keep_le p [] = omega arith
  length-keep_le p ((j, w) ∷ m) = ground (arith, length-keep_le p m)

  -- Entries that go, go from the count: if a key is lost the map is shorter.
  pub length-keep :
      (k : Bytes) (p : V → Bool) (m : List (Bytes × V))
      → length (keep p m) + (if has k m then 1 else 0)
        ≤ length m + (if has k (keep p m) then 1 else 0)
  unfolding lookup keep
  length-keep k p [] = omega arith
  length-keep k p ((j, w) ∷ m) =
      ground (arith, length-keep k p m, length-keep_le p m, str_eq_iff j k)

  pub keep-All : (p : V → Bool) (m : List (Bytes × V)) → All (λ e. p e.1 ≡ true) m → keep p m ≡ m
  unfolding keep
  keep-All p [] h = refl
  keep-All p ((j, w) ∷ m) (h, hs) = rw (h, keep) (rw (keep-All p m hs))

  pub All-insert {κ} :
      (P : Bytes × V → Type κ) (k : Bytes) (v : V) (m : List (Bytes × V))
      → P (k, v)
      → All P m
      → All P (insert k v m)
  unfolding insert
  All-insert P k v [] h a = (h, tt)
  All-insert P k v ((j, w) ∷ m) h (a, as') = elim (Bool-cases (str_eq j k)) [
    | inl e ↦ rw (e, insert) (h, as')
    | inr e ↦ rw (e, insert) (a, All-insert P k v m h as')
  ]

  pub lookup-All {κ} :
      (P : Bytes × V → Type κ) (k : Bytes) (m : List (Bytes × V)) {v : V}
      → lookup k m ≡ some v
      → All P m
      → P (k, v)
  unfolding lookup
  lookup-All P k [] h a = cc
  lookup-All P k ((j, w) ∷ m) {v} h (a, as') = elim (Bool-cases (str_eq j k)) [
    | inl e ↦
        let same : j ≡ k = (str_eq_iff j k).0 e in
        let value : w ≡ v = ground arith in subst₂ (λ x y. P (x, y)) same value a
    | inr e ↦ lookup-All P k m (ground arith) as'
  ]
