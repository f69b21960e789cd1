-- ===== src/Tunnel/Recent.antt =====
-- The last entries of a growing list: what both bounded logs of the server keep.
use native.Mathlib.Decide.{dec_lt}
use sealtun.Prelude.{
  ℕ, zero, suc, ◌+◌, ◌-◌, ◌≤◌, ◌<◌, ◌≡◌, refl, sym, ap, ◌∙◌, List, [], ◌∷◌, ◌++◌, arith, length,
  drop, ltb, if◌then◌else◌, length-append, length-drop,
}

module _ {ℓ} {A : Type ℓ} where
  -- The last `n` items.
  abbrev pub keep_last : ℕ → List A → List A
  keep_last n xs = drop (length xs - n) xs

  -- A bounded log: a new item pushes the oldest one out when the log is full.
  abbrev pub push : ℕ → List A → A → List A
  push n xs x = if ltb (length xs) n then xs ++ x ∷ [] else drop 1 xs ++ x ∷ []

  pub drop-append : (k : ℕ) (xs ys : List A) → k ≤ length xs → drop k (xs ++ ys) ≡ drop k xs ++ ys
  drop-append zero xs ys h = refl
  drop-append (suc k) [] ys h = absurd (omega arith)
  drop-append (suc k) (x ∷ xs) ys h = drop-append k xs ys (omega arith)

  drop-nil : (n : ℕ) → drop {A = A} n [] ≡ []
  drop-nil zero = refl
  drop-nil (suc n) = refl

  drop_at : (a b : ℕ) (xs : List A) → a ≡ b → drop a xs ≡ drop b xs
  drop_at a b xs e = ap (λ n. drop n xs) e

  pub drop-drop : (j k : ℕ) (xs : List A) → drop j (drop k xs) ≡ drop (k + j) xs
  drop-drop j zero xs = drop_at j (zero + j) xs (omega arith)
  drop-drop j (suc k) [] = drop-nil j ∙ sym (drop-nil (suc k + j))
  drop-drop j (suc k) (x ∷ xs) =
      drop-drop j k xs ∙ drop_at (suc (k + j)) (suc k + j) (x ∷ xs) (omega arith)

  pub push_short : (n : ℕ) (m : List A) (x : A) → length m < n → push n m x ≡ m ++ x ∷ []
  push_short n m x h = ground arith

  pub push_full : (n : ℕ) (m : List A) (x : A) → n ≤ length m → push n m x ≡ drop 1 m ++ x ∷ []
  push_full n m x h = ground arith

  -- A log of positive capacity that gets one item after another holds the last ones.
  pub push-keep_last :
      (n : ℕ) (xs : List A) (x : A) → 0 < n → push n (keep_last n xs) x ≡ keep_last n (xs ++ x ∷ [])
  push-keep_last n xs x h =
      let k = length xs - n in
      let l = length (xs ++ x ∷ []) - n in
      let grown : length (xs ++ x ∷ []) ≡ length xs + 1 = length-append xs (x ∷ []) in
      elim (dec_lt (length xs) n) [
        | yes short ↦
            push_short n (drop k xs) x (omega (arith, length-drop k xs))
            ∙ sym (drop-append k xs (x ∷ []) (omega arith))
            ∙ drop_at k l (xs ++ x ∷ []) (omega arith)
        | no long ↦
            push_full n (drop k xs) x (omega (arith, length-drop k xs))
            ∙ ap (λ m. m ++ x ∷ []) (drop-drop 1 k xs)
            ∙ sym (drop-append (k + 1) xs (x ∷ []) (omega arith))
            ∙ drop_at (k + 1) l (xs ++ x ∷ []) (omega arith)
      ]

  pub length-keep_last : (n : ℕ) (xs : List A) → length (keep_last n xs) ≤ n
  length-keep_last n xs = omega (arith, length-drop (length xs - n) xs)
