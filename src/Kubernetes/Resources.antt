-- ===== src/Kubernetes/Resources.antt =====
-- pkg/k8s: the resources of a tunnel's server, the image it runs and the ports it opens.
use sealtun.Prelude.{
  ℕ, Bool, false, not, ◌&&◌, ◌||◌, List, [], ◌∷◌, ◌++◌, Option, none, some, Bytes, codes, str_eq,
  leb, ◌==◌, Result, ok, if◌then◌else◌, all, or_err, ◌>>=◌,
}
use sealtun.Text.{cut, split, trim_prefix}
use sealtun.Text.Decimal.{is_digit}
use sealtun.Text.Trim.{trim_space}
use sealtun.Protocol.{uses_raw_tcp}
use sealtun.Assoc.{lookup}
use sealtun.Kubernetes.{Requirements, Labels}

pub record ResourceValues : Type 0 where
  pub cpu : Bytes
  pub memory : Bytes

pub record ResourceConfig : Type 0 where
  pub requests : ResourceValues
  pub limits : ResourceValues

pub data ResourceError : Type 0 where
  invalid_quantity : ResourceError

abbrev pub default_resource_config : ResourceConfig
default_resource_config = record {
  requests = record { cpu = codes "10m"; memory = codes "32Mi" };
  limits = record { cpu = codes "200m"; memory = codes "128Mi" };
}

unfoldable default_resource_value : (value fallback : Bytes) → Bytes
default_resource_value value fallback =
    if str_eq (trim_space value) [] then fallback else trim_space value

unfoldable default_values : (values fallback : ResourceValues) → ResourceValues
unfolding default_resource_value
default_values values fallback = record {
  cpu = default_resource_value values.cpu fallback.cpu;
  memory = default_resource_value values.memory fallback.memory;
}

unfoldable pub effective_resource_config : Option ResourceConfig → ResourceConfig
unfolding default_values
effective_resource_config none = default_resource_config
effective_resource_config (some config) = record {
  requests = default_values config.requests default_resource_config.requests;
  limits = default_values config.limits default_resource_config.limits;
}

-- `parse_quantity` is `resource.ParseQuantity`, for the quantity as it prints.
module _ (parse_quantity : Bytes → Option Bytes) where
  unfoldable quantities : ResourceValues → Result ResourceError Labels
  quantities values = do
    cpu ← or_err (parse_quantity (trim_space values.cpu)) invalid_quantity
    memory ← or_err (parse_quantity (trim_space values.memory)) invalid_quantity
    ok ((codes "cpu", cpu) ∷ (codes "memory", memory) ∷ [])

  unfoldable pub resource_requirements_for_config :
      Option ResourceConfig → Result ResourceError Requirements
  unfolding quantities
  resource_requirements_for_config config = do
    requests ← quantities (effective_resource_config config).requests
    limits ← quantities (effective_resource_config config).limits
    ok (record { requests = requests; limits = limits })

-- "" where there is none.
unfoldable quantity_string : Labels → Bytes → Bytes
quantity_string quantities name = elim (lookup name quantities) [ none ↦ [] | some v ↦ v ]

unfoldable values_of : Labels → ResourceValues
unfolding quantity_string
values_of l = record {
  cpu = quantity_string l (codes "cpu");
  memory = quantity_string l (codes "memory");
}

unfoldable pub resource_config_from_requirements : Requirements → Option ResourceConfig
unfolding values_of
resource_config_from_requirements r =
    let requests : ResourceValues = values_of r.requests in
    let limits : ResourceValues = values_of r.limits in
    if str_eq requests.cpu []
      && str_eq requests.memory []
      && str_eq limits.cpu []
      && str_eq limits.memory []
    then none
    else some (record { requests = requests; limits = limits })

digits_only : Bytes → Bool
digits_only s = not (str_eq s []) && all is_digit s

abbrev suffix_char : ℕ → Bool
suffix_char c =
    is_digit c || leb b'A' c && leb c b'Z' || leb b'a' c && leb c b'z' || c == b'.' || c == b'-'

-- Three numbers with dots between them.
three_numbers : Bytes → Bool
unfolding digits_only
three_numbers s = elim (split s b'.') [
  | a ∷ b ∷ c ∷ [] ↦ digits_only a && digits_only b && digits_only c
  | _ ↦ false
]

-- `^v?[0-9]+\.[0-9]+\.[0-9]+(-[0-9A-Za-z.-]+)?$`: the suffix starts at the first dash.
is_release_version : Bytes → Bool
unfolding three_numbers
is_release_version value =
    let rest = trim_prefix value (codes "v") in
    elim (cut rest b'-') [
      | none ↦ three_numbers rest
      | some (numbers, suffix) ↦
          three_numbers numbers && not (str_eq suffix []) && all suffix_char suffix
    ]

unfoldable pub image_tag_for_version : Bytes → Bytes
unfolding is_release_version
image_tag_for_version raw =
    let value = trim_space raw in
    if str_eq value [] || str_eq value (codes "dev")
    then codes "latest"
    else if is_release_version value
    then trim_prefix value (codes "v")
    else []

-- `environment` is the value of SEALTUN_SERVER_IMAGE.
unfoldable pub server_image_for_version : (environment value : Bytes) → Option Bytes
server_image_for_version environment value =
    if not (str_eq (trim_space environment) [])
    then some (trim_space environment)
    else if str_eq (image_tag_for_version value) []
    then none
    else some (codes "ghcr.io/gitlayzer/sealtun:" ++ image_tag_for_version value)

unfoldable pub container_ports_for_protocol : Bytes → List (Bytes × ℕ)
container_ports_for_protocol protocol =
    let http : Bytes × ℕ = (codes "http", 8080) in
    if uses_raw_tcp protocol then http ∷ (codes "tcp", 2222) ∷ [] else http ∷ []
