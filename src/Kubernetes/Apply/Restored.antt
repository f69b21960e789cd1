-- ===== src/Kubernetes/Apply/Restored.antt =====
-- pkg/k8s/client.go: what restoring the issuer or the certificate leaves, where no call fails.
use sealtun.Prelude.{
  ℕ, ◌+◌, ◌≡◌, inr, refl, Bool, true, false, ◌&&◌, Option, none, some, Bytes, Result, ok, arith,
  if_elim,
}
use sealtun.Kubernetes.{Kind, Object}
use sealtun.Kubernetes.Cluster.{Cluster, Error, Objects, get, put, set_object_same}
use sealtun.Kubernetes.Cleanup.{labelled}
use sealtun.Kubernetes.Apply.{dynamic_found, restore_dynamic_resource}
use sealtun.Kubernetes.Apply.Created.{Shrinks, Dropped-Shrinks}

module _ (fails : ℕ → Bool) (admit : Kind → Object → Object) (up : (i : ℕ) → fails i ≡ false)
    (name : Bytes) where
  -- Nothing is added, and nothing with the tunnel's label is left under its name.
  abbrev pub Restored : Kind → Objects → Result Error (Unit {0}) × Cluster → Type 0
  Restored k before r =
      Shrinks before (r.1.objects)
      × ((o : Object) → r.1.objects k name ≡ some o → labelled name o ≡ false)

  removed :
      (k : Kind) (o : Object) (c : Cluster)
      → c.objects k name ≡ some o
      → labelled name o ≡ true
      → Restored k c.objects (put fails k name none c)
  unfolding put
  removed k o c h l =
      if_elim (λ (r : Result Error (Unit {0}) × Cluster). Restored k c.objects r) (fails c.calls)
        (λ down. absurd (ground (arith, up c.calls)))
        (λ fine. (
          Dropped-Shrinks (labelled name) k name c.objects _ (inr (o, h, l, refl)),
          λ p e. ground (arith, set_object_same k name none c.objects),
        ))

  found-Restored :
      (k : Kind) (snapshot found : Option Object) (c : Cluster)
      → ((s : Object) → snapshot ≡ some s → (labelled name s ≡ false) × (c.objects k name ≡ some s))
      → c.objects k name ≡ found
      → Restored k c.objects (dynamic_found fails admit k name snapshot (ok found, c))
  unfolding dynamic_found
  found-Restored k none none c held h = ((λ j m o e. e), λ o e. ground arith)
  found-Restored k none (some o) c held h =
      if_elim (λ (r : Result Error (Unit {0}) × Cluster). Restored k c.objects r) (labelled name o)
        (removed k o c h) (λ l. ((λ j m p e. e), λ p e. ground arith))
  found-Restored k (some s) none c held h = absurd (ground (arith, (held s refl).1))
  found-Restored k (some s) (some o) c held h =
      if_elim (λ (r : Result Error (Unit {0}) × Cluster). Restored k c.objects r)
        (labelled name s && labelled name o) (λ both. absurd (ground (arith, (held s refl).0)))
        (λ l. ((λ j m p e. e), λ p e. ground (arith, (held s refl).0, (held s refl).1)))

  pub restore_dynamic-Restored :
      (k : Kind) (snapshot : Option Object) (c : Cluster)
      → ((s : Object) → snapshot ≡ some s → (labelled name s ≡ false) × (c.objects k name ≡ some s))
      → Restored k c.objects (restore_dynamic_resource fails admit true k name snapshot c)
  unfolding restore_dynamic_resource get dynamic_found
  restore_dynamic-Restored k snapshot c held =
      let later = record c { calls = c.calls + 1 } in
      if_elim
        (λ (r : Result Error (Option Object)).
          Restored k c.objects (dynamic_found fails admit k name snapshot (r, later)))
        (fails c.calls) (λ down. absurd (ground (arith, up c.calls)))
        (λ fine. found-Restored k snapshot (c.objects k name) later held refl)
