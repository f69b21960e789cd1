-- ===== src/Examples/Clusters.antt =====
-- A namespace with the objects of one tunnel, a service of somebody else's, and a client for it.
use sealtun.Prelude.{
  ℕ, ◌≡◌, ◌≢◌, ◌⊎◌, refl, Bool, true, false, ◌&&◌, [], ◌∷◌, Option, none, some, Bytes, codes,
  str_eq, ◌==◌, Result, ok, err, if◌then◌else◌, All, arith, sym, ap, ◌∙◌, pos,
}
use sealtun.Kubernetes.{
  Kind, Object, same_kind, managed_labels, secret_data, service_spec, tunnel_resource_name,
  valid_tunnel_id, DeploymentSpec, ServiceSpec, deployment_spec, certificate_spec, Spec,
}
use sealtun.Kubernetes.Cluster.{Error, call_failed, Cluster, Objects}
use sealtun.Kubernetes.Cleanup.{cleanup_tunnel, cleanup_managed}
use sealtun.Kubernetes.Cleanup.Owned.{Removes, OneOwns, cleanup_managed-Removes}
use sealtun.Kubernetes.Cleanup.Cleared.{Gone, targets, cleanup_tunnel-Gone}
use sealtun.Text.{
  trim_prefix, trim_suffix, to_lower, contains, contains_any, split, cut, has_suffix,
}
use sealtun.Text.Trim.{trim_space}
use sealtun.Text.Label.{is_label}
use sealtun.Kubernetes.Hosts.{
  validate_custom_domain_target, validate_custom_domain_hostname, under, normalize_hostname,
  managed_domain_suffix, reserved_custom_domain_suffixes,
}
use sealtun.Kubernetes.Hosts.Foreign.{IsHostname, Outside, validate_custom_domain_target-Outside}
use sealtun.Kubernetes.Desired.{service_object, http_service_spec}
use sealtun.Kubernetes.Apply.Outcome.{IsFresh}
use sealtun.Kubernetes.Ensure.RolledBack.{ensure_tunnel-Undone}
use sealtun.Kubernetes.Work.{TunnelHosts, Options, Client}
use sealtun.Kubernetes.Ensure.{ensure_tunnel}
use sealtun.Kubernetes.Ensure.Domain.{configure_custom_domain}
use sealtun.Kubernetes.Ensure.Domain.Others.{configure_custom_domain-Protects}
use sealtun.Kubernetes.Apply.Guarded.{Protects}
use sealtun.Kubernetes.Scale.{scale_tunnel}
use sealtun.Kubernetes.Scale.Scaled.{Keeps, Scaled, HasDeployment, scale_tunnel-Scaled}
use sealtun.Kubernetes.Ensure.Unmanaged.{ensure_tunnel-Protects}
use sealtun.Examples.Stand.{small_platform, small_net, small_hashing}

abbrev service_of : Bytes → Object
service_of name = service_object name (http_service_spec (managed_labels name))

-- The service of the tunnel "a", and one of the name that the tunnel "b" would take.
abbrev two_services : Objects
two_services k n =
    if same_kind k Kind.service && str_eq n (codes "sealtun-a")
    then some (service_of (codes "sealtun-a"))
    else if same_kind k Kind.service && str_eq n (codes "sealtun-b")
    then some (service_of (codes "somebody"))
    else none

abbrev cluster : Cluster
cluster = record { objects = two_services; calls = 0 }

abbrev third_call : ℕ → Bool
third_call i = i == 3

abbrev no_call : ℕ → Bool
no_call i = false

-- The tunnel "a" with a certificate and the secret that cert-manager has made for it.
abbrev certificate : Object
certificate = record {
  labels = managed_labels (codes "sealtun-a");
  annotations = [];
  owners = [];
  spec = certificate_spec (some (codes "sealtun-a")) [];
}

abbrev tls_secret : Object
tls_secret = record {
  labels = [];
  annotations = (codes "cert-manager.io/certificate-name", codes "sealtun-a") ∷ [];
  owners = [];
  spec = secret_data [] [];
}

abbrev with_certificate : Cluster
with_certificate = record {
  objects = λ k n.
      if same_kind k Kind.certificate && str_eq n (codes "sealtun-a")
      then some certificate
      else if same_kind k Kind.secret && str_eq n (codes "sealtun-a")
      then some tls_secret
      else two_services k n;
  calls = 0;
}

cleanup_tunnel-Gone_example :
    ((cleanup_tunnel no_call true (codes "a") with_certificate).0 ≡ ok tt)
    × All
        (Gone ((cleanup_tunnel no_call true (codes "a") with_certificate).1.objects))
        (targets true with_certificate.objects (tunnel_resource_name (codes "a")))
unfolding valid_tunnel_id str_eq is_label
cleanup_tunnel-Gone_example =
    cleanup_tunnel-Gone no_call (λ i. refl) true (codes "a") with_certificate refl

cleanup_managed-Removes_example :
    Removes
      (OneOwns with_certificate.objects (codes "a" ∷ codes "b" ∷ []))
      with_certificate.objects
      ((cleanup_managed third_call true
        (codes "a" ∷ codes "b" ∷ [])
        with_certificate).cluster.objects)
cleanup_managed-Removes_example =
    cleanup_managed-Removes third_call true (codes "a" ∷ codes "b" ∷ []) with_certificate

abbrev no_ip : Bytes → Bool
no_ip s = false

abbrev own_domain : Bytes
own_domain = codes "app.example.com"

abbrev own_host : Bytes
own_host = codes "x.cloud.sealos.io"

own_domain-nonempty : normalize_hostname own_domain ≢ []
unfolding normalize_hostname trim_suffix to_lower trim_space
own_domain-nonempty e = cc

validate_custom_domain_target-Outside_example :
    IsHostname no_ip (normalize_hostname own_domain)
    × (normalize_hostname own_domain ≢ normalize_hostname own_host)
    × ((managed_domain_suffix (normalize_hostname own_host) ≡ [])
        ⊎ Outside
            (managed_domain_suffix (normalize_hostname own_host))
            (normalize_hostname own_domain))
    × All (λ s. Outside s (normalize_hostname own_domain)) reserved_custom_domain_suffixes
unfolding validate_custom_domain_target str_eq validate_custom_domain_hostname normalize_hostname
    trim_suffix to_lower trim_space contains contains_any split is_label managed_domain_suffix cut
    under has_suffix
validate_custom_domain_target-Outside_example =
    validate_custom_domain_target-Outside no_ip own_domain own_host own_domain-nonempty refl

abbrev client : Client
client = record {
  namespace = codes "ns";
  domain = codes "cloud.sealos.io";
  dynamic = true;
  version = codes "v1.2.3";
  server_image = [];
  encoding = record { marshal = λ p. []; hmac = λ key message. key };
  hashing = small_hashing;
  net = small_net;
  platform = small_platform;
  is_ip = no_ip;
  parse_quantity = λ s. some s;
  admit = λ k o. o;
}

abbrev plain_options : Options
plain_options = record {
  custom_domain = own_domain;
  sealos_host = own_host;
  target_url = [];
  basic_auth = none;
  access_policy = none;
  resources = none;
}

ensure_tunnel-Protects_example : Protects (tunnel_resource_name (codes "b")) two_services (
    (ensure_tunnel client third_call no_call
      (codes "salt")
      (codes "b")
      (codes "s")
      (codes "https")
      (codes "80")
      plain_options
      cluster).1.objects)
ensure_tunnel-Protects_example =
    ensure_tunnel-Protects client third_call no_call (codes "salt") (codes "b") (codes "s")
      (codes "https") (codes "80") plain_options cluster

abbrev no_objects : Cluster
no_objects = record { objects = λ k n. none; calls = 0 }

no_objects-IsFresh : IsFresh (tunnel_resource_name (codes "b")) no_objects.objects
no_objects-IsFresh k n o h = ground arith

abbrev run_on_nothing : Result Error TunnelHosts × Cluster
run_on_nothing =
    ensure_tunnel client third_call no_call (codes "salt") (codes "b") (codes "s") (codes "https")
      (codes "80") plain_options no_objects

-- The fourth call creates the deployment.
run_on_nothing-fails : run_on_nothing.0 ≡ err call_failed
unfolding ensure_tunnel valid_tunnel_id str_eq is_label trim_space sealtun.Protocol.validate_server
    sealtun.Protocol.normalize sealtun.Protocol.is_http to_lower sealtun.Text.Decimal.atoi
    sealtun.Kubernetes.Hosts.validate_sealos_host sealtun.Kubernetes.Work.normalize_options
    sealtun.Kubernetes.Work.options_valid normalize_hostname trim_suffix
    validate_custom_domain_hostname contains contains_any split validate_custom_domain_target
    managed_domain_suffix cut under has_suffix sealtun.AccessPolicy.Validation.validate
    sealtun.Kubernetes.Work.run sealtun.Kubernetes.Apply.ensure_auth_secret
    sealtun.Kubernetes.Cluster.get sealtun.Kubernetes.Cluster.put
    sealtun.Kubernetes.Apply.ensure_deployment
    sealtun.Kubernetes.Resources.resource_requirements_for_config
    sealtun.Kubernetes.Resources.server_image_for_version
    sealtun.Kubernetes.Resources.image_tag_for_version
    sealtun.Kubernetes.Resources.effective_resource_config sealtun.Kubernetes.Cluster.set_object
    trim_prefix tunnel_resource_name sealtun.Kubernetes.auth_secret_name
run_on_nothing-fails = refl

-- The secret was created by then, and is gone again.
ensure_tunnel-Undone_example : run_on_nothing.1.objects Kind.secret (codes "sealtun-b-auth") ≡ none
ensure_tunnel-Undone_example =
    ensure_tunnel-Undone client (λ k o. refl) third_call no_call (λ i. refl) (codes "salt")
      (codes "b") (codes "s") (codes "https") (codes "80") plain_options no_objects call_failed
      no_objects-IsFresh run_on_nothing-fails Kind.secret (codes "sealtun-b-auth")

abbrev paused_spec : DeploymentSpec
paused_spec = record {
  replicas = some 0;
  selector = [];
  template_labels = [];
  template_annotations = [];
  containers = [];
  hardened = true;
}

abbrev paused : Object
paused = record {
  labels = managed_labels (codes "sealtun-a");
  annotations = [];
  owners = [];
  spec = deployment_spec paused_spec;
}

abbrev paused_tunnel : Cluster
paused_tunnel = record {
  objects = λ k n.
      if same_kind k Kind.deployment && str_eq n (codes "sealtun-a") then some paused else none;
  calls = 0;
}

-- The server notes a revision.
abbrev revised : Kind → Object → Object
revised k o = record o { annotations = (codes "revision", codes "2") ∷ o.annotations }

revised-Keeps : Keeps revised
unfolding sealtun.Kubernetes.Scale.deployment_replica_count
revised-Keeps o d n e f = (
  refl,
  ap sealtun.Kubernetes.Scale.deployment_replica_count e
      ∙ ap
          (λ r.
            sealtun.Kubernetes.Scale.deployment_replica_count
              (deployment_spec (record d { replicas = r })))
          f,
)

abbrev spec_or_paused : Option Object → Spec
spec_or_paused none = deployment_spec paused_spec
spec_or_paused (some o) = o.spec

paused_tunnel-HasDeployment : HasDeployment (tunnel_resource_name (codes "a")) paused_tunnel.objects
unfolding tunnel_resource_name str_eq
paused_tunnel-HasDeployment o h = (paused_spec, sym (ap spec_or_paused h))

scaled_up : (scale_tunnel no_call revised (codes "a") (pos 1) paused_tunnel).0 ≡ ok tt
unfolding scale_tunnel valid_tunnel_id is_label trim_space tunnel_resource_name str_eq
    sealtun.Kubernetes.Scale.deployment_replica_count sealtun.Kubernetes.Cluster.get
    sealtun.Kubernetes.Cluster.put sealtun.Kubernetes.Cleanup.labelled
    sealtun.Kubernetes.managed_label_matches managed_labels sealtun.Assoc.lookup
scaled_up = refl

scale_tunnel-Scaled_example :
    Scaled
      (tunnel_resource_name (codes "a"))
      1
      paused_tunnel.objects
      ((scale_tunnel no_call revised (codes "a") (pos 1) paused_tunnel).1.objects)
scale_tunnel-Scaled_example =
    scale_tunnel-Scaled no_call revised revised-Keeps (codes "a") 1 paused_tunnel
      paused_tunnel-HasDeployment scaled_up

-- The tunnel "a" has its deployment and its service.
abbrev running : Cluster
running = record {
  objects = λ k n.
      if same_kind k Kind.deployment && str_eq n (codes "sealtun-a")
      then some paused
      else two_services k n;
  calls = 0;
}

-- The call that creates the certificate.
abbrev eighth_call : ℕ → Bool
eighth_call i = i == 8

configure_custom_domain-Protects_example :
    Protects (tunnel_resource_name (codes "a")) running.objects (
      (configure_custom_domain client eighth_call no_call
        (codes "a")
        []
        (codes "example.com")
        running).1.objects)
configure_custom_domain-Protects_example =
    configure_custom_domain-Protects client eighth_call no_call (codes "a") [] (codes "example.com")
      running
