-- ===== src/Kubernetes.antt =====
-- pkg/k8s: the Kubernetes objects of a tunnel. This file has their names and labels, and what the
-- operations read of an object; the children have the operations.
pub mod Cluster
pub mod Cleanup
pub mod Hosts
pub mod Resources
pub mod Desired
pub mod UpToDate
pub mod Apply
pub mod Work
pub mod Ensure
pub mod Scale
use sealtun.Prelude.{
  ℕ, Bool, true, false, not, ◌&&◌, ◌||◌, List, [], ◌∷◌, ◌++◌, Option, none, some, Bytes, codes,
  str_eq, ◌==◌, if◌then◌else◌, any,
}
use sealtun.Assoc.{lookup}
use sealtun.Text.{has_prefix}
use sealtun.Text.Label.{is_label}

pub data Kind : Type 0 where
  secret deployment service ingress issuer certificate : Kind

abbrev pub rank : Kind → ℕ
rank secret = 0
rank deployment = 1
rank service = 2
rank ingress = 3
rank issuer = 4
rank certificate = 5

abbrev pub same_kind : Kind → Kind → Bool
same_kind j k = rank j == rank k

abbrev pub Labels : Type 0
Labels = List (Bytes × Bytes)

pub record OwnerReference : Type 0 where
  pub api_version : Bytes
  pub kind : Bytes
  pub name : Bytes

pub record ServicePort : Type 0 where
  pub name : Bytes
  pub port : ℕ
  pub target_port : ℕ
  pub protocol : Bytes
  -- 0 where there is none.
  pub node_port : ℕ

-- What the server fills in, which an update keeps.
pub record Addresses : Type 0 where
  pub cluster_ip : Bytes
  pub cluster_ips : List Bytes
  pub ip_families : List Bytes
  pub ip_family_policy : Option Bytes
  pub health_check_node_port : ℕ
  pub internal_traffic_policy : Option Bytes
  pub traffic_distribution : Option Bytes

pub record ServiceSpec : Type 0 where
  pub type_ : Bytes
  pub selector : Labels
  pub ports : List ServicePort
  pub addresses : Addresses

-- The two resource lists of a container, by the name of the resource.
pub record Requirements : Type 0 where
  pub requests : Labels
  pub limits : Labels

-- `env` maps a variable to the key of the authentication secret that it is read from.
pub record Container : Type 0 where
  pub name : Bytes
  pub image : Bytes
  pub args : List Bytes
  pub env : List (Bytes × Bytes)
  pub ports : List (Bytes × ℕ)
  pub resources : Requirements

-- `hardened`: the service account's token is not mounted, and the pull policy, the security context, the
-- probe and the volume are those that the program always sets.
pub record DeploymentSpec : Type 0 where
  pub replicas : Option ℕ
  pub selector : Labels
  pub template_labels : Labels
  pub template_annotations : Labels
  pub containers : List Container
  pub hardened : Bool

-- A rule maps a host to its paths; each path leads to port 80 of the service `backend`.
pub record IngressSpec : Type 0 where
  pub class_name : Bytes
  pub backend : Bytes
  pub rules : List (Bytes × List Bytes)
  pub tls : List (Bytes × Bytes)

-- What is read or written of each kind; the rest of an object is not modelled.
pub data Spec : Type 0 where
  secret_data : (type_ : Bytes) → List (Bytes × Bytes) → Spec
  deployment_spec : DeploymentSpec → Spec
  service_spec : ServiceSpec → Spec
  ingress_spec : IngressSpec → Spec
  issuer_spec : (email : Bytes) → (private_key : Option Bytes) → Spec
  certificate_spec : (secret_name : Option Bytes) → (dns_names : List Bytes) → Spec

pub record Object : Type 0 where
  pub labels : Labels
  pub annotations : Labels
  pub owners : List OwnerReference
  pub spec : Spec

abbrev pub managed_label_key : Bytes
managed_label_key = codes "cloud.sealos.io/app-deploy-manager"

abbrev pub value_of : Option Bytes → Bytes
value_of none = []
value_of (some v) = v

-- A map with no entries is nil.
unfoldable pub managed_label_matches : Labels → Bytes → Bool
managed_label_matches [] owner = false
managed_label_matches (l ∷ labels) owner =
    str_eq (value_of (lookup managed_label_key (l ∷ labels))) owner

unfoldable pub tunnel_resource_name : Bytes → Bytes
tunnel_resource_name id = codes "sealtun-" ++ id

unfoldable pub auth_secret_name : Bytes → Bytes
auth_secret_name name = name ++ codes "-auth"

unfoldable pub tcp_service_name : Bytes → Bytes
tcp_service_name name = name ++ codes "-tcp"

unfoldable pub managed_labels : Bytes → Labels
managed_labels name = (codes "app", name) ∷ (managed_label_key, name) ∷ []

abbrev pub cert_manager : Bytes
cert_manager = codes "cert-manager.io/"

unfoldable pub owned_by : (kind name : Bytes) → OwnerReference → Bool
owned_by kind name ref =
    str_eq ref.name name && str_eq ref.kind kind && has_prefix ref.api_version cert_manager

-- cert-manager's own mark on a secret: its annotation, or the certificate as an owner.
unfoldable pub marked_by_certificate : Object → Bytes → Bool
marked_by_certificate o owner =
    str_eq (value_of (lookup (cert_manager ++ codes "certificate-name") o.annotations)) owner
    || any (owned_by (codes "Certificate") owner) o.owners

unfoldable pub secret_owned_by_managed_issuer : Object → Bytes → Bool
secret_owned_by_managed_issuer o name = any (owned_by (codes "Issuer") name) o.owners

unfoldable pub certificate_secret_name_matches : Object → Bytes → Bool
certificate_secret_name_matches cert wanted = elim cert.spec [
  | certificate_spec (some value) names ↦ str_eq value wanted
  | _ ↦ false
]

unfoldable pub secret_owned_by_managed_certificate :
    (name : Bytes) → Object → Bytes → Option Object → Bool
secret_owned_by_managed_certificate name o owner none = false
secret_owned_by_managed_certificate name o owner (some cert) =
    managed_label_matches cert.labels owner
    && certificate_secret_name_matches cert name
    && marked_by_certificate o owner

unfoldable pub valid_tunnel_id : Bytes → Bool
valid_tunnel_id id = not (str_eq id []) && is_label 55 id
