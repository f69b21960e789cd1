-- ===== src/Kubernetes/Scale.antt =====
-- pkg/k8s/client.go: pausing and resuming a tunnel, and changing the resources of its server.
pub mod Scaled
use sealtun.Prelude.{
  ℕ, ◌+◌, Bool, true, false, not, ◌&&◌, List, [], ◌∷◌, Option, none, some, Bytes, str_eq, ◌==◌, ℤ,
  pos, negsuc, Result, ok, err, if◌then◌else◌, all,
}
use sealtun.Assoc.{lookup}
use sealtun.Kubernetes.{
  Kind, Object, Labels, Requirements, Container, DeploymentSpec, Spec, deployment_spec,
  tunnel_resource_name, valid_tunnel_id,
}
use sealtun.Kubernetes.Cluster.{
  Cluster, Error, invalid_tunnel_id, not_managed, missing, negative_replicas, no_container,
  invalid_options, get, put,
}
use sealtun.Kubernetes.Cleanup.{labelled}
use sealtun.Kubernetes.Resources.{ResourceConfig, resource_requirements_for_config}
use sealtun.Kubernetes.UpToDate.{map_equal}

-- One replica where the deployment does not say.
unfoldable pub deployment_replica_count : Spec → ℕ
deployment_replica_count (deployment_spec (d)) = elim d.replicas [ none ↦ 1 | some n ↦ n ]
deployment_replica_count _ = 1

unfoldable pub with_replicas : ℕ → Spec → Spec
with_replicas n (deployment_spec d) = deployment_spec (record d { replicas = some n })
with_replicas n s = s

-- The first container of the name gets other resources; `none` where there is no such container.
unfoldable pub with_resources : Bytes → Requirements → List Container → Option (List Container)
with_resources name r [] = none
with_resources name r (c ∷ cs) =
    let rest = with_resources name r cs in
    if str_eq c.name name
    then some (record c { resources = r } ∷ cs)
    else elim rest [ none ↦ none | some cs' ↦ some (c ∷ cs') ]

abbrev resources_of : Bytes → List Container → Option Requirements
resources_of name [] = none
resources_of name (c ∷ cs) =
    let rest = resources_of name cs in if str_eq c.name name then some c.resources else rest

abbrev containers_of : Spec → List Container
containers_of (deployment_spec d) = d.containers
containers_of _ = []

abbrev with_containers : List Container → Spec → Spec
with_containers cs (deployment_spec d) = deployment_spec (record d { containers = cs })
with_containers cs s = s

module _ (fails : ℕ → Bool) (admit : Kind → Object → Object) where
  abbrev write : Bytes → Object → Cluster → Result Error (Unit {0}) × Cluster
  write name o c = put fails Kind.deployment name (some (admit Kind.deployment o)) c

  -- The function that is run again on a conflict.
  unfoldable scale_current :
      Bytes → ℕ → Result Error (Option Object) × Cluster → Result Error (Unit {0}) × Cluster
  scale_current name n (err e, c) = (err e, c)
  scale_current name n (ok none, c) = (err missing, c)
  scale_current name n (ok (some o), c) =
      if labelled name o
      then (if deployment_replica_count o.spec == n
          then (ok tt, c)
          else write name (record o { spec = with_replicas n o.spec }) c)
      else (err not_managed, c)

  unfoldable scale_existing :
      Bytes → ℕ → Result Error (Option Object) × Cluster → Result Error (Unit {0}) × Cluster
  unfolding scale_current
  scale_existing name n (err e, c) = (err e, c)
  scale_existing name n (ok none, c) = (err missing, c)
  scale_existing name n (ok (some o), c) =
      if labelled name o
      then (if deployment_replica_count o.spec == n
          then (ok tt, c)
          else scale_current name n (get fails Kind.deployment name c))
      else (err not_managed, c)

  unfoldable pub scale_tunnel : Bytes → ℤ → Cluster → Result Error (Unit {0}) × Cluster
  unfolding scale_existing
  scale_tunnel id (negsuc n) c =
      if valid_tunnel_id id then (err negative_replicas, c) else (err invalid_tunnel_id, c)
  scale_tunnel id (pos n) c =
      if valid_tunnel_id id
      then scale_existing (tunnel_resource_name id) n
          (get fails Kind.deployment (tunnel_resource_name id) c)
      else (err invalid_tunnel_id, c)

  unfoldable pub pause_tunnel : Bytes → Cluster → Result Error (Unit {0}) × Cluster
  pause_tunnel id = scale_tunnel id (pos 0)

  unfoldable pub resume_tunnel : Bytes → Cluster → Result Error (Unit {0}) × Cluster
  resume_tunnel id = scale_tunnel id (pos 1)

  abbrev same_requirements : Requirements → Option Requirements → Bool
  same_requirements r none = false
  same_requirements r (some s) = map_equal s.requests r.requests && map_equal s.limits r.limits

  unfoldable resources_found :
      Bytes
      → Requirements
      → Result Error (Option Object) × Cluster
      → Result Error (Unit {0}) × Cluster
  resources_found name r (err e, c) = (err e, c)
  resources_found name r (ok none, c) = (err missing, c)
  resources_found name r (ok (some o), c) =
      if not (labelled name o)
      then (err not_managed, c)
      else elim (with_resources name r (containers_of o.spec)) [
        | none ↦ (err no_container, c)
        | some cs ↦
            if same_requirements r (resources_of name (containers_of o.spec))
            then (ok tt, c)
            else write name (record o { spec = with_containers cs o.spec }) c
      ]

  unfoldable pub update_tunnel_resources :
      (parse_quantity : Bytes → Option Bytes)
      → Bytes
      → Option ResourceConfig
      → Cluster
      → Result Error (Unit {0}) × Cluster
  unfolding resources_found
  update_tunnel_resources parse_quantity id config c =
      if valid_tunnel_id id
      then elim (resource_requirements_for_config parse_quantity config) [
        | err e ↦ (err invalid_options, c)
        | ok r ↦
            resources_found (tunnel_resource_name id) r
              (get fails Kind.deployment (tunnel_resource_name id) c)
      ]
      else (err invalid_tunnel_id, c)
