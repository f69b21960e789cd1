-- ===== src/Kubernetes/Ensure/Domain.antt =====
-- pkg/k8s/client.go: giving a tunnel that is there a custom domain.
pub mod Others
use sealtun.Prelude.{
  ℕ, Bool, not, ◌&&◌, List, [], ◌∷◌, Option, none, some, Bytes, str_eq, Result, ok, err, is_ok,
  if◌then◌else◌,
}
use sealtun.Protocol.{https}
use sealtun.Kubernetes.{Kind, Object, tunnel_resource_name, valid_tunnel_id}
use sealtun.Kubernetes.Cluster.{
  Cluster, Error, invalid_tunnel_id, not_managed, missing, invalid_options, get,
}
use sealtun.Kubernetes.Cleanup.{labelled}
use sealtun.Kubernetes.Hosts.{
  normalize_hostname, sealos_host, validate_sealos_host, validate_custom_domain_target,
}
use sealtun.Kubernetes.Work.{TunnelHosts, Client, Work, Step, and_after, run, start, ingress_hosts}
use sealtun.Kubernetes.Ensure.{domain_step, ingress_written, finished}

module _ (client : Client) where
  abbrev given_host : (name host : Bytes) → Bytes
  given_host name host =
      if str_eq host []
      then sealos_host client.platform.sha256 client.namespace client.domain name
      else host

  module _ (fails : ℕ → Bool) where
    unfoldable core_found :
        Bytes → Result Error (Option Object) × Cluster → Result Error (Unit {0}) × Cluster
    core_found name (err e, c) = (err e, c)
    core_found name (ok none, c) = (err missing, c)
    core_found name (ok (some o), c) = if labelled name o then (ok tt, c) else (err not_managed, c)

    abbrev then_service :
        Bytes → Result Error (Unit {0}) × Cluster → Result Error (Unit {0}) × Cluster
    then_service name (err e, c) = (err e, c)
    then_service name (ok tt, c) = core_found name (get fails Kind.service name c)

    unfoldable validate_tunnel_core_resources : Bytes → Cluster → Result Error (Unit {0}) × Cluster
    unfolding core_found
    validate_tunnel_core_resources name c =
        then_service name (core_found name (get fails Kind.deployment name c))

    abbrev noted : Work → Result Error (Unit {0}) × Cluster → Result Error (Unit {0}) × Work
    noted w (r, c) = (r, record w { cluster = c })

    unfoldable core_step : Bytes → Step
    unfolding validate_tunnel_core_resources
    core_step name w = noted w (validate_tunnel_core_resources name w.cluster)

    unfoldable domain_ingress_step : (name host domain : Bytes) → Step
    unfolding ingress_written
    domain_ingress_step name host domain w =
        ingress_written client fails name https w (ingress_hosts client host https domain)

    unfoldable configure_steps : (name host domain : Bytes) → List Step
    unfolding core_step domain_ingress_step
    configure_steps name host domain =
        core_step name
        ∷ domain_step client fails name domain
        ∷ domain_ingress_step name host domain
        ∷ []

  -- The rollback has nothing to do before the snapshots are read, and no secret to restore.
  unfoldable pub configure_custom_domain :
      (fails rollback_fails : ℕ → Bool) (id host domain : Bytes)
      → Cluster
      → Result Error TunnelHosts × Cluster
  unfolding configure_steps
  configure_custom_domain fails rollback_fails id raw_host raw_domain c =
      let name = tunnel_resource_name id in
      let domain = normalize_hostname raw_domain in
      let host = given_host name raw_host in
      if not (valid_tunnel_id id)
      then (err invalid_tunnel_id, c)
      else if is_ok (validate_sealos_host client.is_ip host)
          && is_ok (validate_custom_domain_target client.is_ip domain host)
      then finished client fails rollback_fails name
          (run (configure_steps fails name host domain) (start c))
      else (err invalid_options, c)
