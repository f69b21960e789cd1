-- ===== src/Kubernetes/Ensure/Unmanaged.antt =====
-- pkg/k8s/client.go: the objects that are not the tunnel's stay as they are.
use sealtun.Prelude.{ℕ, Bool, not, Option, none, some, Bytes, Result, ok, err, if_elim, All}
use sealtun.Protocol.{normalize}
use sealtun.Kubernetes.{Kind, Object, tunnel_resource_name, valid_tunnel_id}
use sealtun.Kubernetes.Cluster.{Cluster, Error}
use sealtun.Kubernetes.Apply.Guarded.{
  Protects, Protects-trans, restore_secret-Careful, restore_dynamic-Careful,
}
use sealtun.Kubernetes.Apply.Created.{IsOwn, cleanup_created-Careful}
use sealtun.Kubernetes.Work.{
  TunnelHosts, Options, Client, Work, run, start, normalize_options, options_valid,
}
use sealtun.Kubernetes.Ensure.{steps, roll_back, finished, restore_snapshots, ensure_tunnel}
use sealtun.Kubernetes.Ensure.Careful.{IsGood, run-Keeps, steps-Keeps}

module _ (client : Client) (fails : ℕ → Bool) (name : Bytes) where
  restored :
      (snapshots : Option (Option Object × Option Object)) (c : Cluster)
      → Protects name c.objects ((restore_snapshots client fails name snapshots c).objects)
  restored none c = λ j m o h u. h
  restored (some (issuer, certificate)) c =
      Protects-trans name
        (restore_dynamic-Careful fails client.admit name client.dynamic Kind.issuer issuer c)
        (restore_dynamic-Careful fails client.admit name client.dynamic Kind.certificate certificate
          _)

  pub roll_back-Protects :
      (w : Work)
      → All (IsOwn name) w.created
      → Protects name w.cluster.objects ((roll_back client fails name w).objects)
  unfolding roll_back
  roll_back-Protects w own =
      Protects-trans name
        (cleanup_created-Careful fails client.admit client.dynamic name w.created w.cluster own)
        (Protects-trans name (restore_secret-Careful fails client.admit name w.rollback _)
          (restored w.snapshots _))

module _ (client : Client) (fails rollback_fails : ℕ → Bool) where
  -- Whatever calls fail, those of the rollback included, making a tunnel's objects leaves every object of
  -- the namespace as it was that does not carry the tunnel's label.
  pub ensure_tunnel-Protects :
      (fresh id secret protocol local_port : Bytes) (opts : Options) (c : Cluster)
      → Protects (tunnel_resource_name id) c.objects (
          (ensure_tunnel client fails rollback_fails fresh id secret protocol local_port opts
            c).1.objects)
  unfolding ensure_tunnel
  ensure_tunnel-Protects fresh id secret raw_protocol local_port raw_opts c =
      let name = tunnel_resource_name id in
      let opts = normalize_options client name raw_opts in
      let protocol = normalize raw_protocol in
      if_elim (λ (r : Result Error TunnelHosts × Cluster). Protects name c.objects (r.1.objects))
        (not (valid_tunnel_id id)) (λ bad j m o h u. h)
        (λ valid.
          if_elim
            (λ (r : Result Error TunnelHosts × Cluster). Protects name c.objects (r.1.objects))
            (options_valid client secret raw_protocol local_port opts)
            (λ fine.
              done name
                (run (steps client fails fresh name secret protocol local_port opts) (start c))
                (run-Keeps client fails name c.objects
                  (steps client fails fresh name secret protocol local_port opts)
                  (steps-Keeps client fails name c.objects fresh secret protocol local_port opts)
                  (start c) (record { protects = λ j m o h u. h; own = tt })))
            (λ bad j m o h u. h))
    where
      done :
          (name : Bytes) (r : Result Error (Unit {0}) × Work)
          → IsGood client fails name c.objects r.1
          → Protects name c.objects ((finished client fails rollback_fails name r).1.objects)
      done name (err e, w) g =
          Protects-trans name g.protects (roll_back-Protects client rollback_fails name w g.own)
      done name (ok t, w) g = g.protects
