-- ===== src/Kubernetes/Ensure/Domain/Others.antt =====
-- pkg/k8s/client.go: the objects that a change of a tunnel's domain leaves alone.
use sealtun.Prelude.{
  ℕ, Bool, not, ◌&&◌, Option, none, some, Bytes, Result, ok, err, is_ok, if_elim, All,
}
use sealtun.Kubernetes.{Kind, Object, tunnel_resource_name, valid_tunnel_id}
use sealtun.Kubernetes.Cluster.{Cluster, Error, Objects}
use sealtun.Kubernetes.Cleanup.{labelled}
use sealtun.Kubernetes.Hosts.{
  normalize_hostname, validate_sealos_host, validate_custom_domain_target,
}
use sealtun.Kubernetes.Apply.Guarded.{Protects, Protects-trans}
use sealtun.Kubernetes.Work.{TunnelHosts, Client, Work, run, start}
use sealtun.Kubernetes.Ensure.{finished}
use sealtun.Kubernetes.Ensure.Careful.{
  IsGood, Keeps, run-Keeps, domain-Keeps, ingress_written-IsGood, got, moved,
}
use sealtun.Kubernetes.Ensure.Unmanaged.{roll_back-Protects}
use sealtun.Kubernetes.Ensure.Domain.{
  given_host, core_found, then_service, validate_tunnel_core_resources, core_step,
  domain_ingress_step, configure_steps, configure_custom_domain,
}

module _ (client : Client) (fails : ℕ → Bool) (name : Bytes) where
  abbrev Safe : {A : Type 0} → Objects → Result Error A × Cluster → Type 0
  Safe a r = Protects name a r.1.objects

  core_found-Safe :
      (a : Objects) (r : Result Error (Option Object) × Cluster)
      → Safe a r
      → Safe a (core_found client fails name r)
  unfolding core_found
  core_found-Safe a (err e, c) p = p
  core_found-Safe a (ok none, c) p = p
  core_found-Safe a (ok (some o), c) p =
      if_elim (λ (r : Result Error (Unit {0}) × Cluster). Safe a r) (labelled name o) (λ l. p)
        (λ l. p)

  service-Safe :
      (a : Objects) (r : Result Error (Unit {0}) × Cluster)
      → Safe a r
      → Safe a (then_service client fails name r)
  service-Safe a (err e, c) p = p
  service-Safe a (ok tt, c) p =
      Protects-trans name p
        (core_found-Safe c.objects _ (got client fails name c.objects Kind.service name c))

  core-Keeps : (a : Objects) → Keeps client fails name a (core_step client fails name)
  unfolding core_step validate_tunnel_core_resources
  core-Keeps a w g = moved client fails name a w _ g (
      service-Safe w.cluster.objects _ (
        core_found-Safe w.cluster.objects _
          (got client fails name w.cluster.objects Kind.deployment name w.cluster)))

  configure-Keeps :
      (a : Objects) (host domain : Bytes)
      → All (Keeps client fails name a) (configure_steps client fails name host domain)
  unfolding configure_steps domain_ingress_step
  configure-Keeps a host domain = (
    core-Keeps a,
    (
      domain-Keeps client fails name a domain,
      ((λ w g. ingress_written-IsGood client fails name a _ w _ g), tt),
    ),
  )

-- Whatever calls fail, those of the rollback included, giving a tunnel a custom domain leaves every object of
-- the namespace as it was that does not carry the tunnel's label.
pub configure_custom_domain-Protects :
    (client : Client) (fails rollback_fails : ℕ → Bool) (id host domain : Bytes) (c : Cluster)
    → Protects
        (tunnel_resource_name id)
        c.objects
        ((configure_custom_domain client fails rollback_fails id host domain c).1.objects)
unfolding configure_custom_domain
configure_custom_domain-Protects client fails rollback_fails id raw_host raw_domain c =
    let name = tunnel_resource_name id in
    let domain = normalize_hostname raw_domain in
    let host = given_host client name raw_host in
    if_elim (λ (r : Result Error TunnelHosts × Cluster). Protects name c.objects (r.1.objects))
      (not (valid_tunnel_id id)) (λ bad j m o h u. h)
      (λ valid.
        if_elim (λ (r : Result Error TunnelHosts × Cluster). Protects name c.objects (r.1.objects))
          (is_ok (validate_sealos_host client.is_ip host)
            && is_ok (validate_custom_domain_target client.is_ip domain host))
          (λ fine. done name (run (configure_steps client fails name host domain) (start c)) (
            run-Keeps client fails name c.objects (configure_steps client fails name host domain)
              (configure-Keeps client fails name c.objects host domain) (start c)
              (record { protects = λ j m o h u. h; own = tt })))
          (λ bad j m o h u. h))
  where
    done :
        (name : Bytes) (r : Result Error (Unit {0}) × Work)
        → IsGood client fails name c.objects r.1
        → Protects name c.objects ((finished client fails rollback_fails name r).1.objects)
    done name (err e, w) g =
        Protects-trans name g.protects (roll_back-Protects client rollback_fails name w g.own)
    done name (ok t, w) g = g.protects
