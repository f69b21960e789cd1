-- ===== src/Kubernetes/Cleanup/Deletion.antt =====
-- pkg/k8s/client.go: what one deletion does, on every answer of the two calls it makes.
use sealtun.Prelude.{
  ℕ, ◌+◌, ◌≡◌, ◌⊎◌, inl, inr, refl, Bool, true, false, Option, none, some, Bytes, Result, ok, arith,
  Bool-cases, if_elim,
}
use sealtun.Kubernetes.{Kind, Object}
use sealtun.Kubernetes.Cluster.{Cluster, Error, Objects, get, put, set_object, set_object_same}
use sealtun.Kubernetes.Cleanup.{deleted, drop_found, delete_if}

-- Nothing has happened to the objects, or the one at the kind and name was owned and is gone.
abbrev pub Dropped : (Object → Bool) → Kind → Bytes → Objects → Objects → Type 0
Dropped owned k n before after =
    (after ≡ before)
    ⊎ ((o : Object) × (before k n ≡ some o)
        × (owned o ≡ true)
        × (after ≡ set_object k n none before))

module _ (fails : ℕ → Bool) (owned : Object → Bool) (k : Kind) (n : Bytes) where
  abbrev After : Objects → Result Error Bool × Cluster → Type 0
  After before r = Dropped owned k n before (r.1.objects)

  drop_found-Dropped :
      (c : Cluster) (o : Option Object)
      → c.objects k n ≡ o
      → After c.objects (drop_found fails owned k n (ok o, c))
  unfolding drop_found deleted put
  drop_found-Dropped c none h = inl refl
  drop_found-Dropped c (some o) h =
      if_elim (After c.objects) (owned o)
        (λ mine. elim (Bool-cases (fails c.calls)) [
          | inl e ↦ inl (rw e)
          | inr e ↦ inr (o, h, mine, rw e)
        ])
        (λ mine. inl refl)

  pub delete_if-Dropped : (c : Cluster) → After c.objects (delete_if fails owned k n c)
  unfolding delete_if get drop_found
  delete_if-Dropped c =
      let later = record c { calls = c.calls + 1 } in
      if_elim (λ r. After c.objects (drop_found fails owned k n (r, later))) (fails c.calls)
        (λ down. inl refl) (λ up. drop_found-Dropped later (c.objects k n) refl)

  -- Where no call fails, what is owned at the kind and name is gone, and the deletion says so.
  abbrev Swept : Result Error Bool × Cluster → Type 0
  Swept r =
      ((b : Bool) × (r.0 ≡ ok b)) × ((o : Object) → r.1.objects k n ≡ some o → owned o ≡ false)

  drop_found-Swept :
      ((i : ℕ) → fails i ≡ false)
      → (c : Cluster) (o : Option Object) → c.objects k n ≡ o
      → Swept (drop_found fails owned k n (ok o, c))
  unfolding drop_found deleted put
  drop_found-Swept up c none h = ((false, refl), λ o e. cc)
  drop_found-Swept up c (some o) h =
      if_elim Swept (owned o)
        (λ mine.
          if_elim (λ r. Swept (deleted fails r)) (fails c.calls)
            (λ down. ground (arith, up c.calls))
            (λ fine. ((true, refl), λ p e. ground (arith, set_object_same k n none c.objects))))
        (λ mine. ((false, refl), λ p e. cc))

  pub delete_if-Swept :
      ((i : ℕ) → fails i ≡ false) → (c : Cluster) → Swept (delete_if fails owned k n c)
  unfolding delete_if get drop_found
  delete_if-Swept up c =
      let later = record c { calls = c.calls + 1 } in
      if_elim (λ r. Swept (drop_found fails owned k n (r, later))) (fails c.calls)
        (λ down. ground (arith, up c.calls))
        (λ fine. drop_found-Swept up later (c.objects k n) refl)
