-- ===== src/Kubernetes/Work.antt =====
-- pkg/k8s/client.go: what the operations on a whole tunnel work with: the options and the checks on them,
-- and the state that their steps pass on.
use sealtun.Prelude.{
  ℕ, Bool, true, false, not, ◌&&◌, ◌||◌, List, [], ◌∷◌, ◌++◌, Option, none, some, Bytes, codes,
  str_eq, leb, ℤ, pos, Result, ok, err, if◌then◌else◌, is_ok, is_some,
}
use sealtun.Text.Decimal.{atoi}
use sealtun.Text.Trim.{trim_space}
use sealtun.Protocol.{validate_server, normalize, is_http, https, ssh, tcp}
use sealtun.AccessPolicy.{Policy, empty}
use sealtun.AccessPolicy.Network.{Net}
use sealtun.AccessPolicy.Validation
use sealtun.PublicAuth
use sealtun.Http.{Platform}
use sealtun.PublicAuth.{BasicAuth, Hashing}
use sealtun.Kubernetes.{
  Kind, Object, ServicePort, Spec, service_spec, secret_owned_by_managed_certificate,
}
use sealtun.Kubernetes.Cluster.{Cluster, Error, not_managed}
use sealtun.Kubernetes.Desired.{Encoding}
use sealtun.Kubernetes.Hosts.{
  normalize_hostname, sealos_host, validate_sealos_host, validate_custom_domain_target,
}
use sealtun.Kubernetes.Resources.{ResourceConfig}
use sealtun.Kubernetes.Apply.{ResourceKind, CreatedResource, AuthSecretRollback}

pub record Options : Type 0 where
  pub custom_domain : Bytes
  pub sealos_host : Bytes
  pub target_url : Bytes
  pub basic_auth : Option BasicAuth
  pub access_policy : Option Policy
  pub resources : Option ResourceConfig

pub record TunnelHosts : Type 0 where
  pub public_host : Bytes
  pub sealos_host : Bytes
  pub custom_domain : Bytes
  pub public_port : ℕ

-- The client and its surroundings: the namespace and the domain it works in, whether it has a client for
-- dynamic resources, the version of the program and SEALTUN_SERVER_IMAGE, and the packages it calls.
pub record Client : Type 1 where
  pub namespace : Bytes
  pub domain : Bytes
  pub dynamic : Bool
  pub version : Bytes
  pub server_image : Bytes
  pub encoding : Encoding
  pub hashing : Hashing
  pub net : Net
  pub platform : Platform
  pub is_ip : Bytes → Bool
  pub parse_quantity : Bytes → Option Bytes
  pub admit : Kind → Object → Object

-- What the steps so far have done, and what a rollback needs.
pub record Work : Type 0 where
  pub cluster : Cluster
  pub created : List CreatedResource
  pub rollback : Option AuthSecretRollback
  pub salt : Bytes
  -- The issuer and the certificate as they were, once both are read.
  pub snapshots : Option (Option Object × Option Object)
  pub hosts : TunnelHosts

abbrev pub Step : Type 0
Step = Work → Result Error (Unit {0}) × Work

-- Adds what a call says that it created.
abbrev pub note_created :
    ResourceKind → Bytes → Work → Result Error Bool × Cluster → Result Error (Unit {0}) × Work
note_created kind name w (err e, c) = (err e, record w { cluster = c })
note_created kind name w (ok false, c) = (ok tt, record w { cluster = c })
note_created kind name w (ok true, c) = (
  ok tt,
  record w { cluster = c; created = w.created ++ (record { kind = kind; name = name } ∷ []) },
)

abbrev pub and_after : Step → Result Error (Unit {0}) × Work → Result Error (Unit {0}) × Work
and_after next (ok tt, w) = next w
and_after next (err e, w) = (err e, w)

-- The steps one after the other, to the first that fails.
unfoldable pub run : List Step → Step
run [] w = (ok tt, w)
run (s ∷ ss) w = and_after (run ss) (s w)

unfoldable pub public_tcp_node_port : List ServicePort → ℕ
public_tcp_node_port [] = 0
public_tcp_node_port (p ∷ ps) =
    let later = public_tcp_node_port ps in
    if str_eq p.name (codes "tcp") then p.node_port else later

abbrev pub ports_of : Spec → List ServicePort
ports_of (service_spec s) = s.ports
ports_of _ = []

abbrev pub deleted_stale : Work → Result Error Bool × Cluster → Result Error (Unit {0}) × Work
deleted_stale w (ok deleted, c) = (ok tt, record w { cluster = c })
deleted_stale w (err e, c) = (err e, record w { cluster = c })

abbrev pub made_if : Bool → ResourceKind → Bytes → List CreatedResource
made_if made kind name = if made then record { kind = kind; name = name } ∷ [] else []

-- The second of the two is not asked for where the first fails.
abbrev pub snapshots_read :
    Work
    → Result Error (Option Object)
    → Cluster
    → Result Error (Option Object)
    → Cluster
    → Result Error (Unit {0}) × Work
snapshots_read w (err e) c1 certificate c2 = (err e, record w { cluster = c1 })
snapshots_read w (ok issuer) c1 (err e) c2 = (err e, record w { cluster = c2 })
snapshots_read w (ok issuer) c1 (ok certificate) c2 =
    (ok tt, record w { cluster = c2; snapshots = some (issuer, certificate) })

abbrev pub slot_owned :
    Bytes → Object → Result Error (Option Object) × Cluster → Result Error (Unit {0}) × Cluster
slot_owned name o (err e, c) = (err e, c)
slot_owned name o (ok cert, c) =
    if secret_owned_by_managed_certificate name o name cert
    then (ok tt, c)
    else (err not_managed, c)

abbrev pub start : Cluster → Work
start c = record {
  cluster = c;
  created = [];
  rollback = none;
  salt = [];
  snapshots = none;
  hosts = record { public_host = []; sealos_host = []; custom_domain = []; public_port = 0 };
}

module _ (client : Client) where
  -- The Sealos host that the options name, or that the name of the tunnel gives.
  unfoldable pub host_of : Bytes → Options → Bytes
  host_of name opts =
      if str_eq (normalize_hostname opts.sealos_host) []
      then sealos_host client.platform.sha256 client.namespace client.domain name
      else normalize_hostname opts.sealos_host

  unfoldable pub normalize_options : Bytes → Options → Options
  unfolding host_of
  normalize_options name opts = record opts {
    custom_domain = normalize_hostname opts.custom_domain;
    sealos_host = host_of name opts;
  }

  basic_auth_valid : Option BasicAuth → Bool
  basic_auth_valid none = true
  basic_auth_valid (some b) = is_ok (PublicAuth.validate client.hashing b)

  abbrev valid_port : Option ℤ → Bool
  valid_port (some (pos n)) = leb 1 n && leb n 65535
  valid_port _ = false

  -- The checks of `EnsureTunnelWithOptions` before its first call, for normalized options.
  unfoldable pub options_valid : (secret protocol local_port : Bytes) → Options → Bool
  unfolding basic_auth_valid
  options_valid secret protocol local_port opts =
      not (str_eq (trim_space secret) [])
      && is_ok (validate_server protocol)
      && valid_port (atoi local_port)
      && is_ok (validate_sealos_host client.is_ip opts.sealos_host)
      && basic_auth_valid opts.basic_auth
      && is_ok (Validation.validate client.net client.platform opts.access_policy)
      && (if is_http (normalize protocol)
          then is_ok
              (validate_custom_domain_target client.is_ip opts.custom_domain opts.sealos_host)
          else str_eq opts.custom_domain []
            && not (is_some opts.basic_auth)
            && empty opts.access_policy)

  -- The host names of `ensureIngressForHost`, or none where it refuses them.
  unfoldable pub ingress_hosts : (sealos_host protocol custom_domain : Bytes) → Option TunnelHosts
  ingress_hosts raw_host raw_protocol raw_domain =
      let protocol = normalize raw_protocol in
      let host = normalize_hostname raw_host in
      let domain = normalize_hostname raw_domain in
      let hosts : TunnelHosts = record {
        public_host = if str_eq protocol https && not (str_eq domain []) then domain else host;
        sealos_host = host;
        custom_domain = domain;
        public_port = 0;
      } in
      if not (is_ok (validate_sealos_host client.is_ip host))
      then none
      else if str_eq protocol ssh || str_eq protocol tcp
      then if str_eq domain [] then some hosts else none
      else if str_eq protocol https
          && is_ok (validate_custom_domain_target client.is_ip domain host)
      then some hosts
      else none
