-- ===== src/Kubernetes/Ensure/Snapshots.antt =====
-- pkg/k8s/client.go: the issuer and the certificate as they were before a custom domain.
use mathlib.Core.Path.{subst}
use sealtun.Prelude.{
  ℕ, ◌≡◌, ◌≢◌, ◌⊎◌, inl, inr, refl, ◌∙◌, sym, ap, Bool, true, false, Option, none, some, Bytes, [],
  str_eq, Result, ok, err, if_elim, arith,
}
use sealtun.Kubernetes.{Kind, Object, secret_owned_by_managed_certificate}
use sealtun.Kubernetes.Cluster.{Cluster, Error, Objects, get}
use sealtun.Kubernetes.Cleanup.{labelled, get_dynamic_resource}
use sealtun.Kubernetes.Apply.{
  ResourceKind, resource_deployment, resource_service, resource_tcp_service, resource_ingress,
  resource_issuer, resource_certificate, resource_secret,
}
use sealtun.Kubernetes.Apply.Created.{place, is_core}
use sealtun.Kubernetes.Apply.Outcome.{IsFresh, KeepsLabels}
use sealtun.Kubernetes.Work.{Client, Work, and_after, snapshots_read, slot_owned}
use sealtun.Kubernetes.Ensure.{
  snapshot_step, domain_step, custom_domain_step, validate_custom_domain_secret_slot,
  secret_slot_found,
}
use sealtun.Kubernetes.Ensure.Traced.{Known, Known-snapped}
use sealtun.Kubernetes.Ensure.Journal.{At, Held, slot-Logged, same-Traced}

-- What a read returns is there, and reading changes nothing.
abbrev ReadOf : Kind → Bytes → Objects → Result Error (Option Object) × Cluster → Type 0
ReadOf k name before r =
    (r.1.objects ≡ before) × ((o : Object) → r.0 ≡ ok (some o) → before k name ≡ some o)

get_dynamic-ReadOf :
    (fails : ℕ → Bool) (dynamic : Bool) (k : Kind) (name : Bytes) (c : Cluster)
    → ReadOf k name c.objects (get_dynamic_resource fails dynamic k name c)
unfolding get_dynamic_resource get
get_dynamic-ReadOf fails true k name c = (refl, λ o h. ground arith)
get_dynamic-ReadOf fails false k name c = (refl, λ o h. cc)

-- The places of the core resources are neither issuers nor certificates.
core-place :
    (name : Bytes) (kind : ResourceKind) (k : Kind)
    → is_core kind ≡ true
    → (k ≡ Kind.issuer) ⊎ (k ≡ Kind.certificate)
    → k ≢ (place name kind).0
core-place name resource_deployment k core d e = ground arith
core-place name resource_service k core d e = ground arith
core-place name resource_tcp_service k core d e = ground arith
core-place name resource_ingress k core d e = ground arith
core-place name resource_issuer k core d e = ground arith
core-place name resource_certificate k core d e = ground arith
core-place name resource_secret k core d e = ground arith

module _ (client : Client) (keeps : KeepsLabels client.admit) (fails : ℕ → Bool) (name : Bytes)
    (a : Objects) (fresh : IsFresh name a) where
  -- Before the snapshots the issuer and the certificate of the tunnel are not there.
  unlabelled :
      (w : Work) (k : Kind) (o : Object)
      → At client keeps fails name a fresh false w
      → (k ≡ Kind.issuer) ⊎ (k ≡ Kind.certificate)
      → w.cluster.objects k name ≡ some o
      → labelled name o ≡ false
  unlabelled w k o t d h = elim (t.known k name o h) [
    | inl old ↦ fresh k name o old
    | inr (l, p) ↦ elim p [
      | inl (kind, core, ek, en, listed) ↦ absurd (core-place name kind k core d ek)
      | inr (e, dyn, q, r) ↦ absurd (ground arith)
    ]
  ]

  read-Held :
      (w : Work) (k : Kind) (s : Option Object) (r : Result Error (Option Object) × Cluster)
      → At client keeps fails name a fresh false w
      → (k ≡ Kind.issuer) ⊎ (k ≡ Kind.certificate)
      → ReadOf k name w.cluster.objects r
      → r.0 ≡ ok s
      → Held client fails name a s k w.cluster.objects
  read-Held w k s r t d (e, q) h o h' =
      let there = q o (h ∙ ap ok h') in (unlabelled w k o t d there, there)

  snapshot-Logged :
      (w : Work) (i : Result Error (Option Object)) (c1 : Cluster)
      (r : Result Error (Option Object)) (c2 : Cluster)
      → At client keeps fails name a fresh false w
      → ReadOf Kind.issuer name w.cluster.objects (i, c1)
      → ReadOf Kind.certificate name c1.objects (r, c2)
      → (((t : Unit {0}) × ((snapshots_read w i c1 r c2).0 ≡ ok t))
          × At client keeps fails name a fresh true (snapshots_read w i c1 r c2).1)
        ⊎ (((e : Error) × ((snapshots_read w i c1 r c2).0 ≡ err e))
            × At client keeps fails name a fresh false (snapshots_read w i c1 r c2).1)
  snapshot-Logged w (err e) c1 r c2 t (same, q) (same', q') =
      inr ((e, refl), same-Traced client keeps fails name a fresh false w c1 t same)
  snapshot-Logged w (ok i) c1 (err e) c2 t (same, q) (same', q') =
      inr ((e, refl), same-Traced client keeps fails name a fresh false w c2 t (same' ∙ same))
  snapshot-Logged w (ok i) c1 (ok r) c2 t (same, q) (same', q') = inl (
    (tt, refl),
    record {
      known =
          subst (Known a client.dynamic true name w.created) (sym (same' ∙ same))
            (Known-snapped a client.dynamic name w.created t.known);
      no_rollback = t.no_rollback;
      snaps = (
        i,
        r,
        refl,
        subst (Held client fails name a i Kind.issuer) (sym (same' ∙ same))
            (read-Held w Kind.issuer i (ok i, c1) t (inl refl) (same, q) refl),
        subst (Held client fails name a r Kind.certificate) (sym (same' ∙ same)) (
            read-Held w Kind.certificate r (ok r, c2) t (inr refl)
              (same' ∙ same, λ o e. sym (ap (λ f. f Kind.certificate name) same) ∙ q' o e) refl),
      );
    },
  )

  owned-same :
      (o : Object) (x : Objects) (r : Result Error (Option Object) × Cluster)
      → r.1.objects ≡ x
      → (slot_owned name o r).1.objects ≡ x
  owned-same o x (err e, c) q = q
  owned-same o x (ok cert, c) q =
      if_elim (λ (r : Result Error (Unit {0}) × Cluster). r.1.objects ≡ x)
        (secret_owned_by_managed_certificate name o name cert) (λ yes. q) (λ no. q)

  found-same :
      (x : Objects) (r : Result Error (Option Object) × Cluster)
      → r.1.objects ≡ x
      → (secret_slot_found client fails name r).1.objects ≡ x
  unfolding secret_slot_found
  found-same x (err e, c) q = q
  found-same x (ok none, c) q = q
  found-same x (ok (some o), c) q =
      if_elim (λ (r : Result Error (Unit {0}) × Cluster). r.1.objects ≡ x) (labelled name o)
        (λ l. q)
        (λ l.
          owned-same o x _
            ((get_dynamic-ReadOf fails client.dynamic Kind.certificate name c).0 ∙ q))

  slot-same :
      (c : Cluster) → (validate_custom_domain_secret_slot client fails name c).1.objects ≡ c.objects
  unfolding validate_custom_domain_secret_slot get
  slot-same c = found-same c.objects (get fails Kind.secret name c) refl

  abbrev In : Bool → Work → Type 0
  In = At client keeps fails name a fresh

  custom-Logged :
      (domain : Bytes) (w : Work)
      → In true w
      → In true (custom_domain_step client fails name domain w).1
  unfolding custom_domain_step
  custom-Logged domain w t =
      if_elim (λ (r : Result Error (Unit {0}) × Work). In true r.1) (str_eq domain [])
        (λ no_domain. t)
        (λ asked.
          if_elim (λ (r : Result Error (Unit {0}) × Work). In true r.1) client.dynamic
            (λ there.
              slot-Logged client keeps fails name a fresh domain w _ there t (slot-same w.cluster))
            (λ missing. t))

  after-Logged :
      (domain : Bytes) (r : Result Error (Unit {0}) × Work)
      → (((t : Unit {0}) × (r.0 ≡ ok t)) × In true r.1)
        ⊎ (((e : Error) × (r.0 ≡ err e)) × In false r.1)
      → (snapped : Bool) × In snapped (and_after (custom_domain_step client fails name domain) r).1
  after-Logged domain (ok x, w) (inl (e, t)) = (true, custom-Logged domain w t)
  after-Logged domain (ok x, w) (inr ((e, h), t)) = absurd (ground arith)
  after-Logged domain (err x, w) (inl ((e, h), t)) = absurd (ground arith)
  after-Logged domain (err x, w) (inr (e, t)) = (false, t)

  pub domain-Logged :
      (domain : Bytes) (w : Work)
      → In false w
      → (snapped : Bool) × In snapped (domain_step client fails name domain w).1
  unfolding domain_step snapshot_step
  domain-Logged domain w t =
      let first = get_dynamic_resource fails client.dynamic Kind.issuer name w.cluster in
      after-Logged domain _ (
        snapshot-Logged w first.0 first.1 _ _ t
          (get_dynamic-ReadOf fails client.dynamic Kind.issuer name w.cluster)
          (get_dynamic-ReadOf fails client.dynamic Kind.certificate name first.1))
