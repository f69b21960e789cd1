-- ===== src/Kubernetes/Scale/Scaled.antt =====
-- pkg/k8s/client.go: what a tunnel's objects are after it has been scaled.
use sealtun.Prelude.{
  ℕ, ◌+◌, ◌≡◌, refl, ◌∙◌, sym, ap, Bool, true, false, ◌&&◌, Option, none, some, Bytes, str_eq, ◌==◌,
  pos, Result, ok, err, arith, if_elim,
}
use sealtun.Kubernetes.{
  Spec, Kind, Object, same_kind, DeploymentSpec, deployment_spec, tunnel_resource_name,
  valid_tunnel_id,
}
use sealtun.Kubernetes.Cluster.{Cluster, Error, Objects, get, put, set_object, set_object_same}
use sealtun.Kubernetes.Cleanup.{labelled}
use sealtun.Kubernetes.Scale.{
  deployment_replica_count, with_replicas, write, scale_current, scale_existing, scale_tunnel,
}

-- The deployment of the name carries the name's label and has `n` replicas, and every other object is as it was.
abbrev pub Scaled : (name : Bytes) (n : ℕ) (before after : Objects) → Type 0
Scaled name n before after =
    ((o : Object) × (after Kind.deployment name ≡ some o)
      × (labelled name o ≡ true)
      × (deployment_replica_count o.spec ≡ n))
    × ((k : Kind) (m : Bytes)
        → (same_kind Kind.deployment k && str_eq name m) ≡ false
        → after k m ≡ before k m)

-- The server keeps the labels of a deployment and the number of replicas that it states; what it adds or
-- changes otherwise is not restricted.
abbrev pub Keeps : (Kind → Object → Object) → Type 0
Keeps admit =
    (o : Object) (d : DeploymentSpec) (n : ℕ)
    → o.spec ≡ deployment_spec d
    → d.replicas ≡ some n
    → ((admit Kind.deployment o).labels ≡ o.labels)
      × (deployment_replica_count (admit Kind.deployment o).spec ≡ n)

abbrev pub HasDeployment : Bytes → Objects → Type 0
HasDeployment name objects =
    (o : Object)
    → objects Kind.deployment name ≡ some o
    → (d : DeploymentSpec) × (o.spec ≡ deployment_spec d)

labelled_same :
    (name : Bytes) (a b : Object) → a.labels ≡ b.labels → labelled name a ≡ labelled name b
unfolding labelled
labelled_same name a b e = rw e

with_replicas-spec :
    (n : ℕ) (s : Spec) (d : DeploymentSpec)
    → s ≡ deployment_spec d
    → with_replicas n s ≡ deployment_spec (record d { replicas = some n })
unfolding with_replicas
with_replicas-spec n s d e = ap (with_replicas n) e

module _ (fails : ℕ → Bool) (admit : Kind → Object → Object) (keeps : Keeps admit) (name : Bytes)
    (n : ℕ) where
  abbrev Reaches : Objects → Result Error (Unit {0}) × Cluster → Type 0
  Reaches before r = r.0 ≡ ok tt → Scaled name n before r.1.objects

  write-Reaches :
      (o : Object) (d : DeploymentSpec) (c : Cluster)
      → labelled name o ≡ true
      → o.spec ≡ deployment_spec d
      → Reaches c.objects (write fails admit name (record o { spec = with_replicas n o.spec }) c)
  unfolding put set_object
  write-Reaches o d c l e =
      if_elim (λ (r : Result Error (Unit {0}) × Cluster). Reaches c.objects r) (fails c.calls)
        (λ down h. absurd (ground arith))
        (λ fine h. (
          (
            admit Kind.deployment next,
            set_object_same Kind.deployment name (some (admit Kind.deployment next)) c.objects,
            labelled_same name (admit Kind.deployment next) o kept.0 ∙ l,
            kept.1,
          ),
          (λ k m apart. rw apart),
        ))
    where
      next : Object
      next = record o { spec = with_replicas n o.spec }

      kept :
          ((admit Kind.deployment next).labels ≡ o.labels)
          × (deployment_replica_count (admit Kind.deployment next).spec ≡ n)
      kept = keeps next (record d { replicas = some n }) n (with_replicas-spec n o.spec d e) refl

  already :
      (o : Object) (c : Cluster)
      → c.objects Kind.deployment name ≡ some o
      → labelled name o ≡ true
      → (deployment_replica_count o.spec == n) ≡ true
      → Scaled name n c.objects c.objects
  already o c at l e = ((o, at, l, ground arith), λ k m apart. refl)

  after_get :
      (next : Result Error (Option Object) × Cluster → Result Error (Unit {0}) × Cluster)
      (c : Cluster)
      → ((e : Error) (c1 : Cluster) → Reaches c1.objects (next (err e, c1)))
      → ((c1 : Cluster) (found : Option Object)
          → c1.objects ≡ c.objects
          → c1.objects Kind.deployment name ≡ found
          → Reaches c1.objects (next (ok found, c1)))
      → Reaches c.objects (next (get fails Kind.deployment name c))
  unfolding get
  after_get next c failed answered =
      let later = record c { calls = c.calls + 1 } in
      if_elim (λ (r : Result Error (Option Object)). Reaches c.objects (next (r, later)))
        (fails c.calls) (λ down. failed _ later)
        (λ fine. answered later (c.objects Kind.deployment name) refl refl)

  current-Reaches :
      (c : Cluster) (found : Option Object)
      → c.objects Kind.deployment name ≡ found
      → HasDeployment name c.objects
      → Reaches c.objects (scale_current fails admit name n (ok found, c))
  unfolding scale_current
  current-Reaches c none at dep = λ h. absurd (ground arith)
  current-Reaches c (some o) at dep =
      if_elim (λ (r : Result Error (Unit {0}) × Cluster). Reaches c.objects r) (labelled name o)
        (λ l.
          if_elim (λ (r : Result Error (Unit {0}) × Cluster). Reaches c.objects r)
            (deployment_replica_count o.spec == n) (λ e h. already o c at l e)
            (λ other. write-Reaches o (dep o at).0 c l (dep o at).1))
        (λ l h. absurd (ground arith))

  existing-Reaches :
      (c : Cluster) (found : Option Object)
      → c.objects Kind.deployment name ≡ found
      → HasDeployment name c.objects
      → Reaches c.objects (scale_existing fails admit name n (ok found, c))
  unfolding scale_existing scale_current
  existing-Reaches c none at dep = λ h. absurd (ground arith)
  existing-Reaches c (some o) at dep =
      if_elim (λ (r : Result Error (Unit {0}) × Cluster). Reaches c.objects r) (labelled name o)
        (λ l.
          if_elim (λ (r : Result Error (Unit {0}) × Cluster). Reaches c.objects r)
            (deployment_replica_count o.spec == n) (λ e h. already o c at l e)
            (λ other.
              after_get (scale_current fails admit name n) c (λ e c1 h. absurd (ground arith))
                (λ c1 found same there.
                  current-Reaches c1 found there
                    (λ p q. dep p (sym (ap (λ f. f Kind.deployment name) same) ∙ q)))))
        (λ l h. absurd (ground arith))

  found-Reaches :
      (c : Cluster)
      → HasDeployment name c.objects
      → Reaches c.objects (scale_existing fails admit name n (get fails Kind.deployment name c))
  unfolding scale_existing
  found-Reaches c dep =
      after_get (scale_existing fails admit name n) c (λ e c1 h. absurd (ground arith))
        (λ c1 found same there.
          existing-Reaches c1 found there
            (λ p q. dep p (sym (ap (λ f. f Kind.deployment name) same) ∙ q)))

-- Where the server keeps the labels and the stated replicas of a deployment that it is given, and the object at the place of the
-- tunnel's deployment is a deployment, scaling a tunnel to `n` replicas that succeeds leaves its deployment
-- there, labelled, with `n` replicas, and every other object as it was.
pub scale_tunnel-Scaled :
    (fails : ℕ → Bool) (admit : Kind → Object → Object) (keeps : Keeps admit) (id : Bytes) (n : ℕ)
    (c : Cluster)
    → HasDeployment (tunnel_resource_name id) c.objects
    → (scale_tunnel fails admit id (pos n) c).0 ≡ ok tt
    → Scaled
        (tunnel_resource_name id)
        n
        c.objects
        ((scale_tunnel fails admit id (pos n) c).1.objects)
unfolding scale_tunnel
scale_tunnel-Scaled fails admit keeps id n c dep =
    if_elim
      (λ (r : Result Error (Unit {0}) × Cluster).
        r.0 ≡ ok tt → Scaled (tunnel_resource_name id) n c.objects r.1.objects)
      (valid_tunnel_id id)
      (λ valid. found-Reaches fails admit keeps (tunnel_resource_name id) n c dep)
      (λ bad h. absurd (ground arith))
