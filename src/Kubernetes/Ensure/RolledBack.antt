-- ===== src/Kubernetes/Ensure/RolledBack.antt =====
-- pkg/k8s/client.go: after the rollback a namespace that had nothing of the tunnel is as it was.
use mathlib.Core.Path.{subst}
use sealtun.Prelude.{
  ℕ, ◌≡◌, ◌⊎◌, inl, inr, refl, ◌∙◌, sym, ap, ap₂, Bool, true, false, not, ◌&&◌, Option, none, some,
  Bytes, Result, ok, err, arith, if_elim, All, Option-cases,
}
use sealtun.Protocol.{normalize}
use sealtun.Kubernetes.{Kind, Object, tunnel_resource_name, valid_tunnel_id}
use sealtun.Kubernetes.Cluster.{Cluster, Error, Objects}
use sealtun.Kubernetes.Cleanup.{labelled}
use sealtun.Kubernetes.Apply.{restore_auth_secret, restore_dynamic_resource, cleanup_created}
use sealtun.Kubernetes.Apply.Guarded.{Protects, Protects-trans, restore_dynamic-Careful}
use sealtun.Kubernetes.Apply.Created.{
  IsOwn, Shrinks, cleanup_created-Careful, cleanup_created-Shrinks, cleanup_created-Swept,
}
use sealtun.Kubernetes.Apply.Outcome.{IsFresh, KeepsLabels}
use sealtun.Kubernetes.Apply.Restored.{restore_dynamic-Restored}
use sealtun.Kubernetes.Work.{
  TunnelHosts, Options, Client, Work, run, start, normalize_options, options_valid,
}
use sealtun.Kubernetes.Ensure.{steps, restore_snapshots, roll_back, finished, ensure_tunnel}
use sealtun.Kubernetes.Ensure.Careful.{IsGood, run-Keeps, steps-Keeps}
use sealtun.Kubernetes.Ensure.Unmanaged.{roll_back-Protects}
use sealtun.Kubernetes.Ensure.Journal.{Traced, Snapped}
use sealtun.Kubernetes.Ensure.Undone.{steps-Ends}

-- Under the name no issuer and no certificate is the tunnel's.
abbrev NoDomain : Bytes → Objects → Type 0
NoDomain name objects =
    (k : Kind) (o : Object)
    → (k ≡ Kind.issuer) ⊎ (k ≡ Kind.certificate)
    → objects k name ≡ some o
    → labelled name o ≡ false

-- A snapshot is of nothing, or of what is there and is not the tunnel's.
abbrev HeldAt : Bytes → Option Object → Kind → Objects → Type 0
HeldAt name s k objects =
    (o : Object) → s ≡ some o → (labelled name o ≡ false) × (objects k name ≡ some o)

module _ (client : Client) (fails : ℕ → Bool) (up : (i : ℕ) → fails i ≡ false) (name : Bytes) where
  -- Restoring adds nothing, and where there were snapshots and a client for them nothing is left.
  abbrev Restores : (asked : Bool) → Objects → Cluster → Type 0
  Restores asked before c = Shrinks before c.objects × (asked ≡ true → NoDomain name c.objects)

  untouched :
      (k : Kind) (s : Option Object) (c : Cluster)
      → (restore_dynamic_resource fails client.admit false k name s c).1 ≡ c
  unfolding restore_dynamic_resource
  untouched k s c = refl

  restore_both :
      (dynamic : Bool) (i r : Option Object) (c : Cluster)
      → HeldAt name i Kind.issuer c.objects
      → HeldAt name r Kind.certificate c.objects
      → Restores dynamic c.objects
          (restore_dynamic_resource fails client.admit dynamic Kind.certificate name r
            (restore_dynamic_resource fails client.admit dynamic Kind.issuer name i c).1).1
  restore_both true i r c hi hr =
      let (s1, g1) = restore_dynamic-Restored fails client.admit up name Kind.issuer i c hi in
      let p = restore_dynamic-Careful fails client.admit name true Kind.issuer i c in
      let (s2, g2) =
        restore_dynamic-Restored fails client.admit up name Kind.certificate r
          (restore_dynamic_resource fails client.admit true Kind.issuer name i c).1
          (λ o e. let (u, there) = hr o e in (u, p Kind.certificate name o there u)) in
      (
        (λ j m o h. s1 j m o (s2 j m o h)),
        λ asked k o which h. elim which [
          | inl e ↦ g1 o (s2 Kind.issuer name o (ap (λ j. after j) (sym e) ∙ h))
          | inr e ↦ g2 o (ap (λ j. after j) (sym e) ∙ h)
        ],
      )
    where
      after : Kind → Option Object
      after j =
          (restore_dynamic_resource fails client.admit true Kind.certificate name r
              (restore_dynamic_resource fails client.admit true Kind.issuer name i c).1).1.objects
            j name
  restore_both false i r c hi hr = (
    (λ j m o h.
        sym (ap (λ d. d.objects j m) (untouched Kind.certificate r _ ∙ untouched Kind.issuer i c))
        ∙ h),
    λ asked. absurd (ground arith),
  )

  restored :
      (snapped : Bool) (w : Work) (a : Objects) (c : Cluster)
      → Snapped client fails name a snapped w
      → Protects name w.cluster.objects c.objects
      → Restores
          (snapped && client.dynamic)
          c.objects
          (restore_snapshots client fails name w.snapshots c)
  restored false w a c e p =
      subst (λ s. Restores false c.objects (restore_snapshots client fails name s c)) (sym e)
        ((λ j m o h. h), λ asked. absurd (ground arith))
  restored true w a c (i, r, e, hi, hr) p =
      subst (λ s. Restores client.dynamic c.objects (restore_snapshots client fails name s c))
        (sym e)
        (restore_both client.dynamic i r c
          (λ o q. let (u, there) = hi o q in (u, p Kind.issuer name o there u))
          (λ o q. let (u, there) = hr o q in (u, p Kind.certificate name o there u)))

  -- With what is known of the state, everything that is left after the rollback was there at the start.
  roll_back-Old :
      (snapped : Bool) (w : Work) (a : Objects)
      → Traced client fails name a snapped w
      → All (IsOwn name) w.created
      → Shrinks a ((roll_back client fails name w).objects)
  unfolding roll_back restore_auth_secret
  roll_back-Old snapped w a t own =
      subst
        (λ s. Shrinks a (
          (restore_snapshots client fails name w.snapshots
            (restore_auth_secret fails client.admit name s c1).1).objects))
        (sym t.no_rollback) old
    where
      c1 : Cluster
      c1 = (cleanup_created fails client.admit client.dynamic w.created w.cluster).1

      end :
          Restores
            (snapped && client.dynamic)
            c1.objects
            (restore_snapshots client fails name w.snapshots c1)
      end =
          restored snapped w a c1 t.snaps
            (cleanup_created-Careful fails client.admit client.dynamic name w.created w.cluster own)

      clash : {b : Bool} → b ≡ true → b ≡ false → ⊥
      clash shown denied = ground arith

      old : Shrinks a ((restore_snapshots client fails name w.snapshots c1).objects)
      old k n o h =
          let there = end.0 k n o h in
          elim (t.known k n o (
            cleanup_created-Shrinks fails client.admit client.dynamic name w.created w.cluster own k
              n o there)) [
                | inl e ↦ e
                | inr (l, p) ↦ elim p [
                  | inl (kind, core, ek, en, listed) ↦ absurd (
                      clash l (
                        cleanup_created-Swept fails client.admit client.dynamic name up w.created
                          w.cluster own kind core listed o (sym (ap₂ c1.objects ek en) ∙ there)))
                  | inr (e, dyn, which, en) ↦ absurd (
                      clash l (
                        end.1 (ground arith) k o which (
                          sym
                            (ap ((restore_snapshots client fails name w.snapshots c1).objects k) en)
                          ∙ h)))
                ]
              ]

-- What neither loses an old object nor has a new one is what it was.
same_objects :
    (name : Bytes) (before after : Objects)
    → IsFresh name before
    → Protects name before after
    → Shrinks before after
    → (k : Kind) (n : Bytes) → after k n ≡ before k n
same_objects name before after fresh p s k n = elim (Option-cases (after k n)) [
  | inr (o, e) ↦ e ∙ sym (s k n o e)
  | inl e ↦ elim (Option-cases (before k n)) [
    | inl e' ↦ e ∙ sym e'
    | inr (o, e') ↦ absurd (none_some (sym e ∙ p k n o e' (fresh k n o e')))
  ]
]
  where
    none_some : {o : Object} → none ≡ some o → ⊥
    none_some h = ground arith

-- Where the namespace holds nothing with the tunnel's label, the server keeps labels and no call of the
-- rollback fails, a tunnel that cannot be made leaves every object of the namespace as it was,
-- whichever call has failed and whatever had been made before it.
pub ensure_tunnel-Undone :
    (client : Client)
    → KeepsLabels client.admit
    → (fails rollback_fails : ℕ → Bool) → ((i : ℕ) → rollback_fails i ≡ false)
    → (salt id secret protocol local_port : Bytes) (opts : Options) (c : Cluster) (e : Error)
    → IsFresh (tunnel_resource_name id) c.objects
    → (ensure_tunnel client fails rollback_fails salt id secret protocol local_port opts c).0
      ≡ err e
    → (k : Kind) (n : Bytes)
    → (ensure_tunnel client fails rollback_fails salt id secret protocol local_port opts
          c).1.objects
        k n
      ≡ c.objects k n
unfolding ensure_tunnel
ensure_tunnel-Undone client keeps fails rollback_fails up salt id secret raw_protocol local_port
      raw_opts c e fresh =
    let name = tunnel_resource_name id in
    let opts = normalize_options client name raw_opts in
    let protocol = normalize raw_protocol in
    let all_steps = steps client fails salt name secret protocol local_port opts in
    let (snapped, t) =
      steps-Ends client keeps fails name c fresh salt secret protocol local_port opts in
    let good =
      run-Keeps client fails name c.objects all_steps
        (steps-Keeps client fails name c.objects salt secret protocol local_port opts) (start c)
        (record { protects = λ j m o h u. h; own = tt }) in
    if_elim Undone (not (valid_tunnel_id id)) (λ bad h k n. refl)
      (λ valid.
        if_elim Undone (options_valid client secret raw_protocol local_port opts)
          (λ fine. done name (run all_steps (start c)) snapped t good fresh) (λ bad h k n. refl))
  where
    Undone : Result Error TunnelHosts × Cluster → Type 0
    Undone r = r.0 ≡ err e → (k : Kind) (n : Bytes) → r.1.objects k n ≡ c.objects k n

    done :
        (name : Bytes) (r : Result Error (Unit {0}) × Work) (snapped : Bool)
        → Traced client fails name c.objects snapped r.1
        → IsGood client fails name c.objects r.1
        → IsFresh name c.objects
        → Undone (finished client fails rollback_fails name r)
    done name (err e, w) snapped t good fresh h =
        same_objects name c.objects _ fresh
          (Protects-trans name good.protects
            (roll_back-Protects client rollback_fails name w good.own))
          (roll_back-Old client rollback_fails up name snapped w c.objects
            (record { known = t.known; no_rollback = t.no_rollback; snaps = t.snaps }) good.own)
    done name (ok x, w) snapped t good fresh h = absurd (ground arith)
