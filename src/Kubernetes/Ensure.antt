-- ===== src/Kubernetes/Ensure.antt =====
-- pkg/k8s/client.go: making all objects of a tunnel, and taking back what was done where a step fails.
pub mod Careful
pub mod Unmanaged
pub mod Traced
pub mod Journal
pub mod Snapshots
pub mod RolledBack
pub mod Undone
pub mod Domain
use sealtun.Prelude.{
  ℕ, Bool, true, false, not, ◌&&◌, ◌||◌, List, [], ◌∷◌, ◌++◌, map, reverse, Option, none, some,
  Bytes, codes, str_eq, leb, ltb, ◌==◌, ℤ, pos, Result, ok, err, if◌then◌else◌, is_ok, is_some,
}
use sealtun.Text.{trim_suffix}
use sealtun.Text.Decimal.{atoi}
use sealtun.Text.Trim.{trim_space}
use sealtun.Protocol.{validate_server, normalize, is_http, uses_raw_tcp, https, ssh, tcp}
use sealtun.AccessPolicy.{Policy, empty}
use sealtun.AccessPolicy.Network.{Net}
use sealtun.AccessPolicy.Validation
use sealtun.PublicAuth
use sealtun.Http.{Platform}
use sealtun.PublicAuth.{BasicAuth, Hashing}
use sealtun.Kubernetes.{
  Requirements, Kind, Object, ServicePort, Spec, service_spec, tunnel_resource_name,
  auth_secret_name, tcp_service_name, valid_tunnel_id, secret_owned_by_managed_certificate,
}
use sealtun.Kubernetes.Cluster.{
  Cluster, Error, call_failed, invalid_tunnel_id, not_managed, missing, no_dynamic_client,
  invalid_options, no_node_port, get,
}
use sealtun.Kubernetes.Cleanup.{labelled, delete_named_service_if_owned, get_dynamic_resource}
use sealtun.Kubernetes.Desired.{
  Encoding, deployment_object, ingress_paths, ingress_object, acme_contact_email,
  custom_domain_issuer, custom_domain_certificate,
}
use sealtun.Kubernetes.Hosts.{
  normalize_hostname, sealos_host, validate_sealos_host, validate_custom_domain_target,
}
use sealtun.Kubernetes.Resources.{
  ResourceError, ResourceConfig, resource_requirements_for_config, server_image_for_version,
}
use sealtun.Kubernetes.Apply.{
  ResourceKind, CreatedResource, AuthSecret, AuthSecretRollback, resource_secret,
  resource_deployment, resource_service, resource_tcp_service, resource_ingress, resource_issuer,
  resource_certificate, ensure_auth_secret, ensure_deployment, ensure_service, ensure_tcp_service,
  apply_ingress, apply_dynamic_resource, restore_auth_secret, restore_dynamic_resource,
  cleanup_created,
}
use sealtun.Kubernetes.Work.{
  Options, TunnelHosts, Client, Work, Step, note_created, and_after, run, public_tcp_node_port,
  ports_of, deleted_stale, made_if, snapshots_read, slot_owned, start, host_of, normalize_options,
  options_valid, ingress_hosts,
}

module _ (client : Client) where
  module _ (fails : ℕ → Bool) where
    unfoldable secret_done :
        (name : Bytes) → Work → Result Error AuthSecret × Cluster → Result Error (Unit {0}) × Work
    secret_done name w (err e, c) = (err e, record w { cluster = c })
    secret_done name w (ok a, c) =
        note_created resource_secret (auth_secret_name name)
          (record w { rollback = a.rollback; salt = a.salt }) (ok a.created, c)

    unfoldable secret_step : (fresh name secret : Bytes) → Options → Step
    unfolding secret_done
    secret_step fresh name secret opts w = secret_done name w (
        ensure_auth_secret fails client.admit client.encoding fresh name secret opts.basic_auth
          opts.access_policy w.cluster)

    unfoldable deployment_built :
        (name secret protocol local_port : Bytes)
        → Options
        → Work
        → Result ResourceError Requirements
        → (image : Option Bytes) → Result Error (Unit {0}) × Work
    deployment_built name secret protocol local_port opts w (err e) image = (err invalid_options, w)
    deployment_built name secret protocol local_port opts w (ok resources) none =
        (err invalid_options, w)
    deployment_built name secret protocol local_port opts w (ok resources) (some image) =
        note_created resource_deployment name w (
          ensure_deployment fails client.admit name
            (deployment_object client.encoding name secret protocol local_port opts.target_url
              w.salt image opts.basic_auth opts.access_policy resources)
            w.cluster)

    -- The deployment is built before the first call: its resources and its image may be refused.
    unfoldable deployment_step : (name secret protocol local_port : Bytes) → Options → Step
    unfolding deployment_built
    deployment_step name secret protocol local_port opts w =
        deployment_built name secret protocol local_port opts w
          (resource_requirements_for_config client.parse_quantity opts.resources)
          (server_image_for_version client.server_image client.version)

    unfoldable service_step : Bytes → Step
    service_step name w =
        note_created resource_service name w (ensure_service fails client.admit name w.cluster)

    unfoldable tcp_step : (name protocol : Bytes) → Step
    tcp_step name protocol w =
        if uses_raw_tcp protocol
        then note_created resource_tcp_service (tcp_service_name name) w
            (ensure_tcp_service fails client.admit name w.cluster)
        else deleted_stale w (
            delete_named_service_if_owned fails (tcp_service_name name)
              (trim_suffix (tcp_service_name name) (codes "-tcp")) w.cluster)

    unfoldable snapshot_step : Bytes → Step
    snapshot_step name w =
        let (issuer, c1) = get_dynamic_resource fails client.dynamic Kind.issuer name w.cluster in
        let (certificate, c2) =
          get_dynamic_resource fails client.dynamic Kind.certificate name c1 in
        snapshots_read w issuer c1 certificate c2

    unfoldable secret_slot_found :
        Bytes → Result Error (Option Object) × Cluster → Result Error (Unit {0}) × Cluster
    secret_slot_found name (err e, c) = (err e, c)
    secret_slot_found name (ok none, c) = (ok tt, c)
    secret_slot_found name (ok (some o), c) =
        if labelled name o
        then (ok tt, c)
        else slot_owned name o (get_dynamic_resource fails client.dynamic Kind.certificate name c)

    unfoldable validate_custom_domain_secret_slot :
        Bytes → Cluster → Result Error (Unit {0}) × Cluster
    unfolding secret_slot_found
    validate_custom_domain_secret_slot name c =
        secret_slot_found name (get fails Kind.secret name c)

    unfoldable after_certificate :
        Bytes
        → (issuer_created : Bool) → Work
        → Result Error Bool × Cluster
        → Result Error (Unit {0}) × Work
    after_certificate name made w (err e, c) = (
      err e,
      record w {
        cluster =
            (cleanup_created fails client.admit client.dynamic (made_if made resource_issuer name)
              c).1;
      },
    )
    after_certificate name made w (ok made', c) = (
      ok tt,
      record w {
        cluster = c;
        created =
            w.created
            ++ (made_if made resource_issuer name ++ made_if made' resource_certificate name);
      },
    )

    unfoldable after_issuer :
        (name domain : Bytes) → Work → Result Error Bool × Cluster → Result Error (Unit {0}) × Work
    unfolding after_certificate
    after_issuer name domain w (err e, c) = (err e, record w { cluster = c })
    after_issuer name domain w (ok made, c) = after_certificate name made w (
        apply_dynamic_resource fails client.admit Kind.certificate name
          (custom_domain_certificate name domain) c)

    unfoldable after_slot :
        (name domain : Bytes)
        → Work
        → Result Error (Unit {0}) × Cluster
        → Result Error (Unit {0}) × Work
    unfolding after_issuer
    after_slot name domain w (err e, c) = (err e, record w { cluster = c })
    after_slot name domain w (ok free, c) = after_issuer name domain w (
        apply_dynamic_resource fails client.admit Kind.issuer name
          (custom_domain_issuer (acme_contact_email client.namespace client.domain) name) c)

    -- `ensureCustomDomainResources`
    unfoldable custom_domain_step : (name domain : Bytes) → Step
    unfolding after_slot validate_custom_domain_secret_slot
    custom_domain_step name domain w =
        if str_eq domain []
        then (ok tt, w)
        else if client.dynamic
        then after_slot name domain w (validate_custom_domain_secret_slot name w.cluster)
        else (err no_dynamic_client, w)

    unfoldable domain_step : (name domain : Bytes) → Step
    unfolding custom_domain_step snapshot_step
    domain_step name domain w = and_after (custom_domain_step name domain) (snapshot_step name w)

    unfoldable ingress_written :
        (name protocol : Bytes) → Work → Option TunnelHosts → Result Error (Unit {0}) × Work
    ingress_written name protocol w none = (err invalid_options, w)
    ingress_written name protocol w (some hosts) =
        note_created resource_ingress name (record w { hosts = hosts })
          (apply_ingress fails client.admit name
            (ingress_object name hosts.sealos_host hosts.custom_domain
              (ingress_paths (normalize protocol)))
            w.cluster)

    unfoldable ingress_step : (name protocol : Bytes) → Options → Step
    unfolding ingress_written
    ingress_step name protocol opts w =
        ingress_written name protocol w
          (ingress_hosts client (host_of client name opts) protocol opts.custom_domain)

    unfoldable port_found :
        Work → Result Error (Option Object) × Cluster → Result Error (Unit {0}) × Work
    port_found w (err e, c) = (err e, record w { cluster = c })
    port_found w (ok none, c) = (err missing, record w { cluster = c })
    port_found w (ok (some o), c) =
        let port = public_tcp_node_port (ports_of o.spec) in
        if port == 0
        then (err no_node_port, record w { cluster = c })
        else (ok tt, record w { cluster = c; hosts = record w.hosts { public_port = port } })

    unfoldable port_step : (name protocol : Bytes) → Step
    unfolding port_found
    port_step name protocol w =
        if uses_raw_tcp protocol
        then port_found w (get fails Kind.service (tcp_service_name name) w.cluster)
        else (ok tt, w)

    abbrev domain_steps : (name protocol : Bytes) → Options → List Step
    domain_steps name protocol opts =
        if str_eq protocol https && not (str_eq opts.custom_domain [])
        then domain_step name opts.custom_domain ∷ []
        else []

    unfoldable steps : (fresh name secret protocol local_port : Bytes) → Options → List Step
    unfolding secret_step deployment_step service_step tcp_step domain_step ingress_step port_step
    steps fresh name secret protocol local_port opts =
        secret_step fresh name secret opts
        ∷ deployment_step name secret protocol local_port opts
        ∷ service_step name
        ∷ tcp_step name protocol
        ∷ (domain_steps name protocol opts
            ++ (ingress_step name protocol opts ∷ port_step name protocol ∷ []))

  module _ (fails : ℕ → Bool) where
    abbrev restore_snapshots : Bytes → Option (Option Object × Option Object) → Cluster → Cluster
    restore_snapshots name none c = c
    restore_snapshots name (some (issuer, certificate)) c =
        let c1 =
          (restore_dynamic_resource fails client.admit client.dynamic Kind.issuer name issuer
            c).1 in
        (restore_dynamic_resource fails client.admit client.dynamic Kind.certificate name
          certificate c1).1

    -- Each part of the rollback is tried, whether or not those before it succeed.
    unfoldable roll_back : Bytes → Work → Cluster
    roll_back name w =
        let c1 = (cleanup_created fails client.admit client.dynamic w.created w.cluster).1 in
        let c2 = (restore_auth_secret fails client.admit name w.rollback c1).1 in
        restore_snapshots name w.snapshots c2

  -- The rollback has a context of its own: `rollback_fails` says which of its calls fail.
  module _ (fails rollback_fails : ℕ → Bool) where
    abbrev finished :
        (name : Bytes) → Result Error (Unit {0}) × Work → Result Error TunnelHosts × Cluster
    finished name (err e, w) = (err e, roll_back rollback_fails name w)
    finished name (ok done, w) = (ok w.hosts, w.cluster)

    -- The error of a failed step is returned; those of the rollback, which the code adds to it, are not kept.
    unfoldable pub ensure_tunnel :
        (fresh id secret raw_protocol local_port : Bytes)
        → Options
        → Cluster
        → Result Error TunnelHosts × Cluster
    unfolding roll_back run steps options_valid ingress_hosts
    ensure_tunnel fresh id secret raw_protocol local_port raw_opts c =
        let name = tunnel_resource_name id in
        let opts = normalize_options client name raw_opts in
        let protocol = normalize raw_protocol in
        if not (valid_tunnel_id id)
        then (err invalid_tunnel_id, c)
        else if options_valid client secret raw_protocol local_port opts
        then finished name (run (steps fails fresh name secret protocol local_port opts) (start c))
        else (err invalid_options, c)
