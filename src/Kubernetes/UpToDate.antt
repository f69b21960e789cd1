-- ===== src/Kubernetes/UpToDate.antt =====
-- pkg/k8s/client.go: whether an object in the cluster already is what a tunnel is to have.
use sealtun.Prelude.{
  Bool, true, false, ◌&&◌, List, [], ◌∷◌, Option, none, some, Bytes, codes, str_eq, ◌==◌,
  if◌then◌else◌, all,
}
use sealtun.Assoc.{lookup}
use sealtun.Kubernetes.{
  Labels, Object, ServicePort, Container, secret_data, deployment_spec, service_spec, ingress_spec,
  value_of,
}

-- A key that is missing reads as "".
unfoldable pub map_contains : (current desired : Labels) → Bool
map_contains current desired = all (λ e. str_eq (value_of (lookup (e.0) current)) (e.1)) desired

-- `DeepEqual` of two maps, of two lists and of two options.
has_entry : Labels → Bytes × Bytes → Bool
has_entry m e = elim (lookup (e.0) m) [ none ↦ false | some v ↦ str_eq v (e.1) ]

unfoldable pub map_equal : Labels → Labels → Bool
unfolding has_entry
map_equal a b = all (has_entry a) b && all (has_entry b) a

list_equal {ℓ} : {A : Type ℓ} → (A → A → Bool) → List A → List A → Bool
list_equal eq [] [] = true
list_equal eq [] (b ∷ ys) = false
list_equal eq (a ∷ xs) [] = false
list_equal eq (a ∷ xs) (b ∷ ys) = eq a b && list_equal eq xs ys

abbrev option_equal {ℓ} : {A : Type ℓ} → (A → A → Bool) → Option A → Option A → Bool
option_equal eq none none = true
option_equal eq none (some b) = false
option_equal eq (some a) none = false
option_equal eq (some a) (some b) = eq a b

abbrev pair_equal : Bytes × Bytes → Bytes × Bytes → Bool
pair_equal a b = str_eq (a.0) (b.0) && str_eq (a.1) (b.1)

unfoldable pub auth_secret_up_to_date : (desired current : Object) → Bool
unfolding map_equal
auth_secret_up_to_date desired current = elim desired.spec [
  | secret_data want_type want ↦ elim current.spec [
    | secret_data got_type got ↦
        str_eq want_type got_type
        && map_equal want got
        && map_contains current.labels desired.labels
    | _ ↦ false
  ]
  | _ ↦ false
]

-- An empty protocol stands for TCP.
abbrev protocol_of : Bytes → Bytes
protocol_of p = if str_eq p [] then codes "TCP" else p

abbrev port_equal : (want got : ServicePort) → Bool
port_equal want got =
    str_eq want.name got.name
    && want.port == got.port
    && want.target_port == got.target_port
    && str_eq (protocol_of want.protocol) (protocol_of got.protocol)
    && want.node_port == got.node_port

unfoldable pub service_up_to_date : (desired current : Object) → Bool
unfolding map_equal list_equal
service_up_to_date desired current = elim desired.spec [
  | service_spec want ↦ elim current.spec [
    | service_spec got ↦
        map_contains current.labels desired.labels
        && str_eq want.type_ got.type_
        && map_equal want.selector got.selector
        && list_equal port_equal want.ports got.ports
    | _ ↦ false
  ]
  | _ ↦ false
]

abbrev rule_equal : (a b : Bytes × List Bytes) → Bool
rule_equal a b = str_eq (a.0) (b.0) && list_equal str_eq (a.1) (b.1)

unfoldable pub ingress_up_to_date : (desired current : Object) → Bool
unfolding list_equal
ingress_up_to_date desired current = elim desired.spec [
  | ingress_spec want ↦ elim current.spec [
    | ingress_spec got ↦
        map_contains current.labels desired.labels
        && map_contains current.annotations desired.annotations
        && str_eq want.class_name got.class_name
        && str_eq want.backend got.backend
        && list_equal rule_equal want.rules got.rules
        && list_equal pair_equal want.tls got.tls
    | _ ↦ false
  ]
  | _ ↦ false
]

-- The first container of a name.
unfoldable pub container_named : Bytes → List Container → Option Container
container_named name [] = none
container_named name (c ∷ cs) =
    let later = container_named name cs in if str_eq c.name name then some c else later

managed_container_up_to_date : (desired current : Container) → Bool
unfolding map_equal list_equal
managed_container_up_to_date want got =
    str_eq want.image got.image
    && list_equal str_eq want.args got.args
    && list_equal pair_equal want.env got.env
    && list_equal (λ a b. str_eq (a.0) (b.0) && a.1 == b.1) want.ports got.ports
    && map_equal want.resources.requests got.resources.requests
    && map_equal want.resources.limits got.resources.limits

container_found : List Container → Container → Bool
unfolding managed_container_up_to_date
container_found current want = elim (container_named want.name current) [
  | none ↦ false
  | some got ↦ managed_container_up_to_date want got
]

unfoldable pub deployment_up_to_date : (desired current : Object) → Bool
unfolding map_equal container_found
deployment_up_to_date desired current = elim desired.spec [
  | deployment_spec want ↦ elim current.spec [
    | deployment_spec got ↦
        map_contains current.labels desired.labels
        && option_equal (λ a b. a == b) want.replicas got.replicas
        && map_equal want.selector got.selector
        && map_contains got.template_labels want.template_labels
        && map_contains got.template_annotations want.template_annotations
        && got.hardened
        && all (container_found got.containers) want.containers
    | _ ↦ false
  ]
  | _ ↦ false
]
