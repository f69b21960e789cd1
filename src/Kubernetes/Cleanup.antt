-- ===== src/Kubernetes/Cleanup.antt =====
-- pkg/k8s/client.go: deleting the objects of a tunnel. Each deletion asks for the object first and
-- leaves it alone unless it is owned. A failed step does not keep the later ones from being tried;
-- the first error is reported.
pub mod Deletion
pub mod Owned
pub mod Cleared
use sealtun.Prelude.{
  ℕ, ◌+◌, Bool, true, false, not, ◌&&◌, ◌||◌, List, [], ◌∷◌, ◌++◌, Option, none, some, Bytes, codes,
  str_eq, Result, ok, err, if◌then◌else◌, any,
}
use sealtun.Kubernetes.{
  Kind, Object, managed_label_matches, tunnel_resource_name, auth_secret_name, tcp_service_name,
  secret_owned_by_managed_certificate, secret_owned_by_managed_issuer, issuer_spec, valid_tunnel_id,
}
use sealtun.Kubernetes.Cluster.{Cluster, Error, call_failed, invalid_tunnel_id, get, put}

pub record Summary : Type 0 where
  pub deployments : ℕ
  pub services : ℕ
  pub ingresses : ℕ
  pub certificates : ℕ
  pub issuers : ℕ
  pub secrets : ℕ

abbrev pub none_deleted : Summary
none_deleted = record {
  deployments = 0;
  services = 0;
  ingresses = 0;
  certificates = 0;
  issuers = 0;
  secrets = 0;
}

-- `recordFirstErr`
abbrev pub first_error : Result Error (Unit {0}) → Result Error Bool → Result Error (Unit {0})
first_error (ok tt) (ok deleted) = ok tt
first_error (ok tt) (err e) = err e
first_error (err e) later = err e

abbrev pub tally : Result Error Bool → ℕ
tally (ok true) = 1
tally (ok false) = 0
tally (err e) = 0

abbrev pub found : Result Error (Option Object) → Option Object
found (ok o) = o
found (err e) = none

abbrev pub noted : Result Error (Option Object) → Result Error Bool
noted (ok o) = ok false
noted (err e) = err e

unfoldable pub labelled : Bytes → Object → Bool
labelled owner o = managed_label_matches o.labels owner

unfoldable acme_key_name : Bytes → Bytes
acme_key_name name = codes "letsencrypt-prod-" ++ name

-- The name of the key secret, if the issuer is managed and names the one that is expected.
unfoldable acme_key_of : Bytes → Option Object → Bool
unfolding acme_key_name
acme_key_of name none = false
acme_key_of name (some issuer) = labelled name issuer && elim issuer.spec [
  | issuer_spec email (some key) ↦ str_eq key (acme_key_name name)
  | _ ↦ false
]

-- What the steps of a cleanup have found and deleted, and the first error.
pub record Progress : Type 0 where
  pub cluster : Cluster
  pub summary : Summary
  pub outcome : Result Error (Unit {0})

-- One step, and what it adds to the summary.
unfoldable step :
    (Cluster → Result Error Bool × Cluster) → (ℕ → Summary → Summary) → Progress → Progress
step action count p =
    let (r, c) = action p.cluster in
    record { cluster = c; summary = count (tally r) p.summary; outcome = first_error p.outcome r }

unfoldable count_secret : ℕ → Summary → Summary
count_secret n s = record s { secrets = s.secrets + n }

unfoldable count_deployment : ℕ → Summary → Summary
count_deployment n s = record s { deployments = s.deployments + n }

unfoldable count_service : ℕ → Summary → Summary
count_service n s = record s { services = s.services + n }

unfoldable count_ingress : ℕ → Summary → Summary
count_ingress n s = record s { ingresses = s.ingresses + n }

unfoldable count_certificate : ℕ → Summary → Summary
count_certificate n s = record s { certificates = s.certificates + n }

unfoldable count_issuer : ℕ → Summary → Summary
count_issuer n s = record s { issuers = s.issuers + n }

unfoldable uncounted : ℕ → Summary → Summary
uncounted n s = s

module _ (fails : ℕ → Bool) where
  -- The answer to the deletion.
  unfoldable deleted : Result Error (Unit {0}) × Cluster → Result Error Bool × Cluster
  deleted (ok tt, c) = (ok true, c)
  deleted (err e, c) = (err e, c)

  unfoldable drop_found :
      (Object → Bool)
      → Kind
      → Bytes
      → Result Error (Option Object) × Cluster
      → Result Error Bool × Cluster
  unfolding deleted
  drop_found owned k n (err e, c) = (err e, c)
  drop_found owned k n (ok none, c) = (ok false, c)
  drop_found owned k n (ok (some o), c) =
      if owned o then deleted (put fails k n none c) else (ok false, c)

  -- Asks for an object and deletes it if it is owned; says whether it did.
  unfoldable pub delete_if : (Object → Bool) → Kind → Bytes → Cluster → Result Error Bool × Cluster
  unfolding drop_found
  delete_if owned k n c = drop_found owned k n (get fails k n c)

  -- `cert` is a snapshot of the certificate.
  unfoldable pub delete_secret_if_owned :
      (name owner : Bytes) → Option Object → Cluster → Result Error Bool × Cluster
  delete_secret_if_owned name owner cert =
      delete_if (λ o. labelled owner o || secret_owned_by_managed_certificate name o owner cert)
        Kind.secret name

  unfoldable pub delete_deployment_if_owned : Bytes → Cluster → Result Error Bool × Cluster
  delete_deployment_if_owned name = delete_if (labelled name) Kind.deployment name

  unfoldable pub delete_named_service_if_owned :
      (name owner : Bytes) → Cluster → Result Error Bool × Cluster
  delete_named_service_if_owned name owner = delete_if (labelled owner) Kind.service name

  unfoldable pub delete_ingress_if_owned :
      (name owner : Bytes) → Cluster → Result Error Bool × Cluster
  delete_ingress_if_owned name owner = delete_if (labelled owner) Kind.ingress name

  -- With no client for dynamic resources nothing is asked.
  unfoldable pub get_dynamic_resource :
      (dynamic : Bool) → Kind → Bytes → Cluster → Result Error (Option Object) × Cluster
  get_dynamic_resource dynamic k n c = if dynamic then get fails k n c else (ok none, c)

  unfoldable pub delete_managed_dynamic_resource_if_exists :
      (dynamic : Bool) → Kind → Bytes → Cluster → Result Error Bool × Cluster
  delete_managed_dynamic_resource_if_exists dynamic k n c =
      if dynamic then delete_if (labelled n) k n c else (ok false, c)

  unfoldable pub delete_acme_key_secret :
      Bytes → Option Object → Cluster → Result Error Bool × Cluster
  unfolding acme_key_name acme_key_of
  delete_acme_key_secret name issuer c =
      if acme_key_of name issuer
      then delete_if (λ o. labelled name o || secret_owned_by_managed_issuer o name) Kind.secret
          (acme_key_name name) c
      else (ok false, c)

  unfoldable cleanup_core_resources : Bytes → Progress → Progress
  unfolding count_secret count_deployment count_service count_ingress
  cleanup_core_resources name p0 =
      let p1 = step (delete_secret_if_owned (auth_secret_name name) name none) count_secret p0 in
      let p2 = step (delete_deployment_if_owned name) count_deployment p1 in
      let p3 = step (delete_named_service_if_owned name name) count_service p2 in
      let p4 = step (delete_named_service_if_owned (tcp_service_name name) name) count_service p3 in
      let p5 = step (delete_ingress_if_owned name name) count_ingress p4 in
      step (delete_ingress_if_owned (name ++ codes "-app") name) count_ingress p5

  -- `cert` and `issuer` are what was read of them.
  unfoldable domain_rest :
      (dynamic : Bool) → Bytes → (cert issuer : Option Object) → Progress → Progress
  unfolding count_secret count_certificate count_issuer uncounted
  domain_rest dynamic name cert issuer p1 =
      let p2 =
        step (delete_managed_dynamic_resource_if_exists dynamic Kind.certificate name)
          count_certificate p1 in
      let p3 = step (delete_secret_if_owned name name cert) count_secret p2 in
      let p4 =
        step (delete_managed_dynamic_resource_if_exists dynamic Kind.issuer name) count_issuer p3 in
      step (delete_acme_key_secret name issuer) uncounted p4

  -- The certificate and the issuer are read before anything is deleted, for the secrets they own.
  unfoldable cleanup_custom_domain_resources : (dynamic : Bool) → Bytes → Progress → Progress
  unfolding domain_rest
  cleanup_custom_domain_resources dynamic name p0 =
      let (cert, c1) = get_dynamic_resource dynamic Kind.certificate name p0.cluster in
      let (issuer, c2) = get_dynamic_resource dynamic Kind.issuer name c1 in
      let read = first_error (first_error p0.outcome (noted cert)) (noted issuer) in
      domain_rest dynamic name (found cert) (found issuer)
        (record p0 { cluster = c2; outcome = read })

  unfoldable cleanup_name : (dynamic : Bool) → Bytes → Progress → Progress
  cleanup_name dynamic name p =
      cleanup_core_resources name (cleanup_custom_domain_resources dynamic name p)

  unfoldable pub cleanup_tunnel :
      (dynamic : Bool) → Bytes → Cluster → Result Error (Unit {0}) × Cluster
  unfolding cleanup_name cleanup_core_resources cleanup_custom_domain_resources step
  cleanup_tunnel dynamic id c =
      if valid_tunnel_id id
      then (let p =
            cleanup_name dynamic (tunnel_resource_name id)
              (record { cluster = c; summary = none_deleted; outcome = ok tt }) in
          (p.outcome, p.cluster))
      else (err invalid_tunnel_id, c)

  -- One round of the loop of `CleanupManaged`; `seen` are the tunnels that were cleaned up before.
  unfoldable cleanup_one : (dynamic : Bool) → Bytes → List Bytes → Progress → List Bytes × Progress
  unfolding cleanup_name
  cleanup_one dynamic id seen p =
      if str_eq id []
      then (seen, p)
      else if not (valid_tunnel_id id)
      then (seen, record p { outcome = first_error p.outcome (err invalid_tunnel_id) })
      else if any (str_eq id) seen
      then (seen, p)
      else (id ∷ seen, cleanup_name dynamic (tunnel_resource_name id) p)

  unfoldable cleanup_from : (dynamic : Bool) → List Bytes → List Bytes → Progress → Progress
  unfolding cleanup_one
  cleanup_from dynamic seen [] p = p
  cleanup_from dynamic seen (id ∷ ids) p =
      let (seen', p') = cleanup_one dynamic id seen p in cleanup_from dynamic seen' ids p'

  unfoldable pub cleanup_managed : (dynamic : Bool) → List Bytes → Cluster → Progress
  unfolding cleanup_from cleanup_one cleanup_name cleanup_core_resources
      cleanup_custom_domain_resources step
  cleanup_managed dynamic ids c =
      cleanup_from dynamic [] ids (record { cluster = c; summary = none_deleted; outcome = ok tt })
