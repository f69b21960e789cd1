-- ===== src/Kubernetes/Desired.antt =====
-- pkg/k8s/client.go: the objects that a tunnel is to have.
use sealtun.Prelude.{
  true, not, ◌&&◌, List, [], ◌∷◌, ◌++◌, Option, none, some, Bytes, codes, str_eq, if◌then◌else◌,
}
use sealtun.Text.{split}
use sealtun.Text.Trim.{trim_space}
use sealtun.Protocol.{https, uses_raw_tcp}
use sealtun.AccessPolicy.{Policy, empty}
use sealtun.PublicAuth.{BasicAuth}
use sealtun.Kubernetes.{
  Labels, Object, Addresses, ServiceSpec, Requirements, secret_data, deployment_spec, service_spec,
  ingress_spec, issuer_spec, certificate_spec, managed_label_key, managed_labels,
}
use sealtun.Kubernetes.Resources.{container_ports_for_protocol}

abbrev pub config_digest_salt_key : Bytes
config_digest_salt_key = codes "configDigestSalt"

-- `json.Marshal` of a policy, and HMAC-SHA256 in hexadecimal of a key and a message.
pub record Encoding : Type 0 where
  pub marshal : Policy → Bytes
  pub hmac : Bytes → Bytes → Bytes

abbrev basic_auth_data : Option BasicAuth → List (Bytes × Bytes)
basic_auth_data none = []
basic_auth_data (some b) =
    (codes "basicAuthUsername", trim_space b.username)
    ∷ (codes "basicAuthPasswordHash", b.password_hash)
    ∷ []

abbrev join_zero : List Bytes → Bytes
join_zero [] = []
join_zero (s ∷ []) = s
join_zero (s ∷ t ∷ parts) = s ++ (0 ∷ join_zero (t ∷ parts))

abbrev basic_auth_parts : Option BasicAuth → List Bytes
basic_auth_parts none = []
basic_auth_parts (some b) = trim_space b.username ∷ b.password_hash ∷ []

abbrev basic_auth_env : Option BasicAuth → List (Bytes × Bytes)
basic_auth_env none = []
basic_auth_env (some b) =
    (codes "SEALTUN_BASIC_AUTH_USER", codes "basicAuthUsername")
    ∷ (codes "SEALTUN_BASIC_AUTH_PASSWORD_HASH", codes "basicAuthPasswordHash")
    ∷ []

abbrev basic_auth_args : Option BasicAuth → List Bytes
basic_auth_args none = []
basic_auth_args (some b) =
    codes "--basic-auth-user-env"
    ∷ codes "SEALTUN_BASIC_AUTH_USER"
    ∷ codes "--basic-auth-password-hash-env"
    ∷ codes "SEALTUN_BASIC_AUTH_PASSWORD_HASH"
    ∷ []

module _ (encoding : Encoding) where
  abbrev policy_data : Option Policy → List (Bytes × Bytes)
  policy_data none = []
  policy_data (some p) =
      if empty (some p) then [] else (codes "accessPolicy", encoding.marshal p) ∷ []

  abbrev policy_parts : Option Policy → List Bytes
  policy_parts none = []
  policy_parts (some p) = encoding.marshal p ∷ []

  unfoldable pub auth_secret_object :
      (name secret salt : Bytes) → Option BasicAuth → Option Policy → Object
  auth_secret_object name secret salt basic policy = record {
    labels = managed_labels name;
    annotations = [];
    owners = [];
    spec = secret_data (codes "Opaque") (
        (codes "secret", secret)
        ∷ (config_digest_salt_key, salt)
        ∷ (basic_auth_data basic ++ policy_data policy));
  }

  unfoldable pub server_config_digest :
      (salt secret target_url : Bytes) → Option BasicAuth → Option Policy → Bytes
  server_config_digest salt secret target_url basic policy =
      encoding.hmac salt (
        join_zero
          (secret ∷ trim_space target_url ∷ (basic_auth_parts basic ++ policy_parts policy)))

  abbrev target_args : Bytes → List Bytes
  target_args target_url =
      if str_eq (trim_space target_url) []
      then []
      else codes "--target-url" ∷ trim_space target_url ∷ []

  abbrev policy_args : Option Policy → List Bytes
  policy_args policy =
      if empty policy then [] else codes "--access-policy-env" ∷ codes "SEALTUN_ACCESS_POLICY" ∷ []

  abbrev policy_env : Option Policy → List (Bytes × Bytes)
  policy_env policy =
      if empty policy then [] else (codes "SEALTUN_ACCESS_POLICY", codes "accessPolicy") ∷ []

  unfoldable pub deployment_object :
      (name secret protocol local_port target_url salt image : Bytes)
      → Option BasicAuth
      → Option Policy
      → Requirements
      → Object
  unfolding server_config_digest
  deployment_object name secret protocol local_port target_url salt image basic policy resources =
      record {
        labels = managed_labels name;
        annotations = [];
        owners = [];
        spec = deployment_spec (record {
          replicas = some 1;
          selector = managed_labels name;
          template_labels = managed_labels name;
          template_annotations =
              (
                codes "sealtun.labring.com/server-config",
                server_config_digest salt secret target_url basic policy,
              )
              ∷ [];
          containers =
              (record {
                name = name;
                image = image;
                args =
                    (codes "server"
                      ∷ codes "--secret-env"
                      ∷ codes "SEALTUN_SECRET"
                      ∷ codes "--port"
                      ∷ codes "8080"
                      ∷ codes "--protocol"
                      ∷ protocol
                      ∷ codes "--local-port"
                      ∷ local_port
                      ∷ [])
                    ++ (target_args target_url ++ (basic_auth_args basic ++ policy_args policy));
                env =
                    (codes "SEALTUN_SECRET", codes "secret")
                    ∷ (basic_auth_env basic ++ policy_env policy);
                ports = container_ports_for_protocol protocol;
                resources = resources;
              })
              ∷ [];
          hardened = true;
        });
      }

abbrev no_addresses : Addresses
no_addresses = record {
  cluster_ip = [];
  cluster_ips = [];
  ip_families = [];
  ip_family_policy = none;
  health_check_node_port = 0;
  internal_traffic_policy = none;
  traffic_distribution = none;
}

unfoldable pub http_service_spec : Labels → ServiceSpec
http_service_spec labels = record {
  type_ = codes "ClusterIP";
  selector = labels;
  ports =
      (record { name = codes "http"; port = 80; target_port = 8080; protocol = []; node_port = 0 })
      ∷ [];
  addresses = no_addresses;
}

unfoldable pub tcp_service_spec : Labels → ServiceSpec
tcp_service_spec labels = record {
  type_ = codes "NodePort";
  selector = labels;
  ports =
      (record {
        name = codes "tcp";
        port = 2222;
        target_port = 2222;
        protocol = codes "TCP";
        node_port = 0;
      })
      ∷ [];
  addresses = no_addresses;
}

unfoldable pub service_object : Bytes → ServiceSpec → Object
service_object name spec = record {
  labels = managed_labels name;
  annotations = [];
  owners = [];
  spec = service_spec spec;
}

-- The paths that the server answers: the TCP one where it takes raw TCP, and all of them over HTTPS.
unfoldable pub ingress_paths : Bytes → List Bytes
ingress_paths protocol =
    (codes "/_sealtun/ws"
      ∷ codes "/_sealtun/healthz"
      ∷ codes "/_sealtun/metrics"
      ∷ codes "/_sealtun/audit"
      ∷ [])
    ++ ((if uses_raw_tcp protocol then codes "/_sealtun/tcp" ∷ [] else [])
        ++ (if str_eq protocol https then codes "/" ∷ [] else []))

abbrev first_part : List Bytes → Bytes
first_part [] = []
first_part (p ∷ ps) = p

abbrev ingress_annotations : Labels
ingress_annotations =
    (codes "kubernetes.io/ingress.class", codes "nginx")
    ∷ (codes "nginx.ingress.kubernetes.io/backend-protocol", codes "HTTP")
    ∷ (codes "nginx.ingress.kubernetes.io/client-body-buffer-size", codes "64k")
    ∷ (codes "nginx.ingress.kubernetes.io/proxy-body-size", codes "32m")
    ∷ (codes "nginx.ingress.kubernetes.io/proxy-buffer-size", codes "64k")
    ∷ (codes "nginx.ingress.kubernetes.io/proxy-read-timeout", codes "3600")
    ∷ (codes "nginx.ingress.kubernetes.io/proxy-send-timeout", codes "3600")
    ∷ (
      codes "nginx.ingress.kubernetes.io/server-snippet",
      codes "client_header_buffer_size 64k;" ++ (10 ∷ codes "large_client_header_buffers 4 128k;"),
    )
    ∷ (codes "nginx.ingress.kubernetes.io/ssl-redirect", codes "false")
    ∷ []

unfoldable pub ingress_object : (name sealos_host custom_domain : Bytes) → List Bytes → Object
ingress_object name sealos_host custom_domain paths =
    let custom = not (str_eq custom_domain []) && not (str_eq custom_domain sealos_host) in
    record {
      labels =
          (codes "app", name)
          ∷ (managed_label_key, name)
          ∷ (codes "cloud.sealos.io/app-deploy-manager-domain", first_part (split sealos_host b'.'))
          ∷ [];
      annotations = ingress_annotations;
      owners = [];
      spec = ingress_spec (record {
        class_name = codes "nginx";
        backend = name;
        rules = (sealos_host, paths) ∷ (if custom then (custom_domain, paths) ∷ [] else []);
        tls =
            (sealos_host, codes "wildcard-cert")
            ∷ (if custom then (custom_domain, name) ∷ [] else []);
      });
    }

unfoldable pub acme_contact_email : (namespace domain : Bytes) → Bytes
acme_contact_email namespace domain =
    let user = if str_eq (trim_space namespace) [] then codes "tenant" else trim_space namespace in
    let host = if str_eq (trim_space domain) [] then codes "sealos.io" else trim_space domain in
    user ++ (codes "@" ++ host)

unfoldable pub custom_domain_issuer : (email name : Bytes) → Object
custom_domain_issuer email name = record {
  labels = (managed_label_key, name) ∷ [];
  annotations = [];
  owners = [];
  spec = issuer_spec email (some (codes "letsencrypt-prod-" ++ name));
}

unfoldable pub custom_domain_certificate : (name custom_domain : Bytes) → Object
custom_domain_certificate name custom_domain = record {
  labels = (managed_label_key, name) ∷ [];
  annotations = [];
  owners = [];
  spec = certificate_spec (some name) (custom_domain ∷ []);
}
