-- ===== src/Kubernetes/Apply.antt =====
-- pkg/k8s/client.go: creating or updating one object of a tunnel, and the reverse. `admit` is what the API
-- server makes of an object that it is given, the ports and addresses that it assigns included. As nobody
-- else writes meanwhile, no update conflicts, and `RetryOnConflict` runs its function once.
pub mod Guarded
pub mod Created
pub mod Outcome
pub mod Restored
use sealtun.Prelude.{
  ℕ, Bool, true, false, not, ◌&&◌, ◌||◌, List, [], ◌∷◌, ◌++◌, map, reverse, Option, none, some,
  Bytes, codes, str_eq, ◌==◌, Result, ok, err, if◌then◌else◌,
}
use sealtun.Assoc.{lookup, insert}
use sealtun.Text.{trim_suffix}
use sealtun.AccessPolicy.{Policy}
use sealtun.PublicAuth.{BasicAuth}
use sealtun.Kubernetes.{
  Kind, Object, ServicePort, ServiceSpec, Requirements, Spec, secret_data, service_spec,
  managed_labels, auth_secret_name, tcp_service_name, value_of, secret_owned_by_managed_certificate,
}
use sealtun.Kubernetes.Cluster.{
  Cluster, Error, call_failed, not_managed, missing, changed_since, no_dynamic_client, get, put,
}
use sealtun.Kubernetes.Cleanup.{
  labelled, delete_deployment_if_owned, delete_named_service_if_owned, delete_ingress_if_owned,
  delete_secret_if_owned, delete_managed_dynamic_resource_if_exists, get_dynamic_resource,
}
use sealtun.Kubernetes.Desired.{
  Encoding, config_digest_salt_key, auth_secret_object, deployment_object, http_service_spec,
  tcp_service_spec, service_object, custom_domain_issuer, custom_domain_certificate,
}
use sealtun.Kubernetes.UpToDate.{
  auth_secret_up_to_date, service_up_to_date, ingress_up_to_date, deployment_up_to_date,
}

pub data ResourceKind : Type 0 where
  resource_deployment resource_service resource_tcp_service resource_ingress resource_issuer
        resource_certificate resource_secret :
      ResourceKind

pub record CreatedResource : Type 0 where
  pub kind : ResourceKind
  pub name : Bytes

-- The secret as it was, and as the server returned it from the update.
pub record AuthSecretRollback : Type 0 where
  pub previous : Object
  pub applied : Object

pub record AuthSecret : Type 0 where
  pub created : Bool
  pub rollback : Option AuthSecretRollback
  pub salt : Bytes

abbrev add_node_port : ServicePort → List (Bytes × ℕ) → List (Bytes × ℕ)
add_node_port p m = if p.node_port == 0 then m else insert p.name p.node_port m

node_ports : List ServicePort → List (Bytes × ℕ) → List (Bytes × ℕ)
node_ports [] m = m
node_ports (p ∷ ps) m = node_ports ps (add_node_port p m)

abbrev with_node_port : List (Bytes × ℕ) → ServicePort → ServicePort
with_node_port m p = elim (lookup p.name m) [ none ↦ p | some n ↦ record p { node_port = n } ]

unfoldable preserve_existing_node_ports : (next existing : ServiceSpec) → ServiceSpec
unfolding node_ports
preserve_existing_node_ports next existing = record next {
  ports = map (with_node_port (node_ports existing.ports [])) next.ports;
}

unfoldable merged_spec : (desired existing : Spec) → Spec
unfolding preserve_existing_node_ports
merged_spec (service_spec want) (service_spec got) =
    service_spec (preserve_existing_node_ports (record want { addresses = got.addresses }) got)
merged_spec want _ = want

-- The service to write over an existing one.
unfoldable merged_service : (desired existing : Object) → Object
unfolding merged_spec
merged_service desired existing = record desired { spec = merged_spec desired.spec existing.spec }

abbrev salt_of : Spec → Bytes
salt_of (secret_data type_ data_) = value_of (lookup config_digest_salt_key data_)
salt_of _ = []

module _ (fails : ℕ → Bool) (admit : Kind → Object → Object) where
  abbrev write : Kind → Bytes → Object → Cluster → Result Error (Unit {0}) × Cluster
  write k n o c = put fails k n (some (admit k o)) c

  abbrev answer : {A : Type 0} → A → Result Error (Unit {0}) × Cluster → Result Error A × Cluster
  answer a (ok tt, c) = (ok a, c)
  answer a (err e, c) = (err e, c)

  unfoldable apply_found :
      (owner : Bytes) (k : Kind) (n : Bytes) (desired : Object) (merge : Object → Object)
      (up_to_date : Object → Bool)
      → Result Error (Option Object) × Cluster
      → Result Error Bool × Cluster
  apply_found owner k n desired merge up_to_date (err e, c) = (err e, c)
  apply_found owner k n desired merge up_to_date (ok none, c) = answer true (write k n desired c)
  apply_found owner k n desired merge up_to_date (ok (some o), c) =
      if labelled owner o
      then (if up_to_date o then (ok false, c) else answer false (write k n (merge o) c))
      else (err not_managed, c)

  -- Creates the object, or updates the one that is there if it is managed; says whether it was created.
  unfoldable apply :
      (owner : Bytes)
      → Kind
      → Bytes
      → (desired : Object) → (merge : Object → Object) → (up_to_date : Object → Bool) → Cluster
      → Result Error Bool × Cluster
  unfolding apply_found
  apply owner k n desired merge up_to_date c =
      apply_found owner k n desired merge up_to_date (get fails k n c)

  unfoldable apply_service :
      (n : Bytes) → Object → (owner : Bytes) → Cluster → Result Error Bool × Cluster
  unfolding apply
  apply_service n service owner =
      apply owner Kind.service n service (merged_service service)
        (λ o. service_up_to_date (merged_service service o) o)

  unfoldable pub ensure_service : Bytes → Cluster → Result Error Bool × Cluster
  unfolding apply_service merged_service merged_spec
  ensure_service name =
      apply_service name (service_object name (http_service_spec (managed_labels name))) name

  unfoldable pub ensure_tcp_service : Bytes → Cluster → Result Error Bool × Cluster
  unfolding apply_service merged_service merged_spec
  ensure_tcp_service name =
      apply_service (tcp_service_name name)
        (service_object name (tcp_service_spec (managed_labels name))) name

  unfoldable pub apply_ingress : Bytes → Object → Cluster → Result Error Bool × Cluster
  unfolding apply
  apply_ingress name ingress =
      apply name Kind.ingress name ingress (λ o. ingress) (ingress_up_to_date ingress)

  unfoldable pub apply_dynamic_resource :
      Kind → Bytes → Object → Cluster → Result Error Bool × Cluster
  unfolding apply
  apply_dynamic_resource k name resource = apply name k name resource (λ o. resource) (λ o. false)

  -- The second look at an object that has to change.
  unfoldable update_found :
      {A : Type 0} (owner : Bytes) (k : Kind) (n : Bytes) (desired : Object)
      (up_to_date : Object → Bool) (same : A) (updated : Object → A)
      → Result Error (Option Object) × Cluster
      → Result Error A × Cluster
  update_found owner k n desired up_to_date same updated (err e, c) = (err e, c)
  update_found owner k n desired up_to_date same updated (ok none, c) = (err missing, c)
  update_found owner k n desired up_to_date same updated (ok (some o), c) =
      if labelled owner o
      then (if up_to_date o then (ok same, c) else answer (updated o) (write k n desired c))
      else (err not_managed, c)

  unfoldable deployment_found :
      Bytes → Object → Result Error (Option Object) × Cluster → Result Error Bool × Cluster
  unfolding update_found
  deployment_found name desired (err e, c) = (err e, c)
  deployment_found name desired (ok none, c) = answer true (write Kind.deployment name desired c)
  deployment_found name desired (ok (some o), c) =
      if labelled name o
      then (if deployment_up_to_date desired o
          then (ok false, c)
          else update_found name Kind.deployment name desired (deployment_up_to_date desired) false
              (λ o. false) (get fails Kind.deployment name c))
      else (err not_managed, c)

  -- The end of `ensureDeployment`, for the deployment that it has built.
  unfoldable pub ensure_deployment : Bytes → Object → Cluster → Result Error Bool × Cluster
  unfolding deployment_found
  ensure_deployment name desired c =
      deployment_found name desired (get fails Kind.deployment name c)

  abbrev salt_from : (fresh : Bytes) → Result Error (Option Object) → Bytes
  salt_from fresh (ok (some o)) = if str_eq (salt_of o.spec) [] then fresh else salt_of o.spec
  salt_from fresh _ = fresh

  abbrev unchanged : Bytes → AuthSecret
  unchanged salt = record { created = false; rollback = none; salt = salt }

  unfoldable secret_found :
      Bytes
      → (salt : Bytes) → Object
      → Result Error (Option Object) × Cluster
      → Result Error AuthSecret × Cluster
  unfolding update_found
  secret_found name salt desired (err e, c) = (err e, c)
  secret_found name salt desired (ok none, c) =
      answer (record { created = true; rollback = none; salt = salt })
        (write Kind.secret (auth_secret_name name) desired c)
  secret_found name salt desired (ok (some o), c) =
      if labelled name o
      then (if auth_secret_up_to_date desired o
          then (ok (unchanged salt), c)
          else update_found name Kind.secret (auth_secret_name name) desired
              (auth_secret_up_to_date desired) (unchanged salt)
              (λ o. record {
                created = false;
                rollback = some (record { previous = o; applied = admit Kind.secret desired });
                salt = salt;
              })
              (get fails Kind.secret (auth_secret_name name) c))
      else (err not_managed, c)

  -- `fresh` is the salt that is drawn where the secret has none.
  unfoldable pub ensure_auth_secret :
      (encoding : Encoding)
      → (fresh : Bytes) → (name secret : Bytes) → Option BasicAuth
      → Option Policy
      → Cluster
      → Result Error AuthSecret × Cluster
  unfolding secret_found
  ensure_auth_secret encoding fresh name secret basic policy c =
      let (existing, c1) = get fails Kind.secret (auth_secret_name name) c in
      let salt = salt_from fresh existing in
      secret_found name salt (auth_secret_object encoding name secret salt basic policy)
        (existing, c1)

  unfoldable restore_found :
      Bytes
      → AuthSecretRollback
      → Result Error (Option Object) × Cluster
      → Result Error (Unit {0}) × Cluster
  restore_found owner rollback (err e, c) = (err e, c)
  restore_found owner rollback (ok none, c) = (err missing, c)
  restore_found owner rollback (ok (some o), c) =
      if not (labelled owner o)
      then (err not_managed, c)
      else if auth_secret_up_to_date rollback.applied o
      then write Kind.secret (auth_secret_name owner) rollback.previous c
      else (err changed_since, c)

  unfoldable pub restore_auth_secret :
      Bytes → Option AuthSecretRollback → Cluster → Result Error (Unit {0}) × Cluster
  unfolding restore_found
  restore_auth_secret owner none c = (ok tt, c)
  restore_auth_secret owner (some rollback) c =
      restore_found owner rollback (get fails Kind.secret (auth_secret_name owner) c)

  unfoldable dynamic_found :
      Kind
      → Bytes
      → (snapshot : Option Object) → Result Error (Option Object) × Cluster
      → Result Error (Unit {0}) × Cluster
  dynamic_found k name none (err e, c) = (err e, c)
  dynamic_found k name none (ok none, c) = (ok tt, c)
  dynamic_found k name none (ok (some o), c) =
      if labelled name o then put fails k name none c else (ok tt, c)
  dynamic_found k name (some s) (err e, c) = (if labelled name s then err e else ok tt, c)
  dynamic_found k name (some s) (ok none, c) =
      if labelled name s then write k name s c else (ok tt, c)
  dynamic_found k name (some s) (ok (some o), c) =
      if labelled name s && labelled name o then write k name s c else (ok tt, c)

  -- `sanitizeDynamicResourceForApply` clears fields of the metadata that are not modelled.
  unfoldable pub restore_dynamic_resource :
      (dynamic : Bool)
      → Kind
      → Bytes
      → (snapshot : Option Object) → Cluster
      → Result Error (Unit {0}) × Cluster
  unfolding dynamic_found
  restore_dynamic_resource dynamic k name snapshot c =
      if dynamic then dynamic_found k name snapshot (get fails k name c) else (ok tt, c)

  unfoldable pub delete_created :
      (dynamic : Bool) → CreatedResource → Cluster → Result Error Bool × Cluster
  delete_created dynamic r = elim r.kind [
    | resource_deployment ↦ delete_deployment_if_owned fails r.name
    | resource_service ↦ delete_named_service_if_owned fails r.name r.name
    | resource_tcp_service ↦
        delete_named_service_if_owned fails r.name (trim_suffix r.name (codes "-tcp"))
    | resource_ingress ↦ delete_ingress_if_owned fails r.name r.name
    | resource_issuer ↦ delete_managed_dynamic_resource_if_exists fails dynamic Kind.issuer r.name
    | resource_certificate ↦
        delete_managed_dynamic_resource_if_exists fails dynamic Kind.certificate r.name
    | resource_secret ↦
        delete_secret_if_owned fails r.name (trim_suffix r.name (codes "-auth")) none
  ]

  abbrev go_on :
      (Cluster → Result Error (Unit {0}) × Cluster)
      → Result Error Bool × Cluster
      → Result Error (Unit {0}) × Cluster
  go_on rest (ok deleted, c) = rest c
  go_on rest (err e, c) = (err e, c)

  unfoldable delete_all :
      (dynamic : Bool) → List CreatedResource → Cluster → Result Error (Unit {0}) × Cluster
  unfolding delete_created
  delete_all dynamic [] c = (ok tt, c)
  delete_all dynamic (r ∷ rs) c = go_on (delete_all dynamic rs) (delete_created dynamic r c)

  -- The last one that was created goes first.
  unfoldable pub cleanup_created :
      (dynamic : Bool) → List CreatedResource → Cluster → Result Error (Unit {0}) × Cluster
  unfolding delete_all
  cleanup_created dynamic resources = delete_all dynamic (reverse resources)
