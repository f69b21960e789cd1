-- ===== src/Kubernetes/Hosts.antt =====
-- pkg/k8s/client.go: the host names of a tunnel: the Sealos host, and which custom domains may point at it.
pub mod Foreign
use sealtun.Prelude.{
  ℕ, ◌+◌, ◌-◌, Bool, true, false, not, ◌&&◌, ◌||◌, List, [], ◌∷◌, ◌++◌, Option, none, some, Bytes,
  codes, str_eq, leb, ltb, ◌==◌, Result, ok, err, if◌then◌else◌, any, all, length, take, drop,
  reverse, is_some,
}
use sealtun.Text.{has_prefix, has_suffix, contains, contains_any, cut, split, to_lower, trim_suffix}
use sealtun.Text.Label.{is_label, is_label_char}
use sealtun.Text.Trim.{trim_space}
use sealtun.AccessPolicy.Tokens.{hex_encode}

pub data HostError : Type 0 where
  host_required invalid_domain invalid_host same_as_host under_managed_domain reserved_domain :
      HostError

abbrev pub reserved_custom_domain_suffixes : List Bytes
reserved_custom_domain_suffixes =
    codes "cloud.sealos.app"
    ∷ codes "cloud.sealos.io"
    ∷ codes "sealosbja.site"
    ∷ codes "sealosgzg.site"
    ∷ codes "sealoshzh.site"
    ∷ codes "usw-1.sealos.app"
    ∷ []

-- The two letters outside ASCII that `strings.ToLower` makes ASCII ones, in UTF-8: the Kelvin sign and the
-- capital i with a dot.
lower_foreign : Bytes → Bytes
lower_foreign [] = []
lower_foreign (c ∷ s) =
    let rest = lower_foreign s in
    if c == 0xe2 && has_prefix rest (0x84 ∷ 0xaa ∷ [])
    then b'k' ∷ drop 2 rest
    else if c == 0xc4 && has_prefix rest (0xb0 ∷ [])
    then b'i' ∷ drop 1 rest
    else c ∷ rest

unfoldable pub normalize_hostname : Bytes → Bytes
unfolding lower_foreign
normalize_hostname value = trim_suffix (to_lower (lower_foreign (trim_space value))) (codes ".")

unfoldable pub managed_domain_suffix : Bytes → Bytes
managed_domain_suffix sealos_host = elim (cut (normalize_hostname sealos_host) b'.') [
  | none ↦ []
  | some (label, suffix) ↦ suffix
]

unfoldable pub hostname_in_list : List Bytes → Bytes → Bool
hostname_in_list hosts want =
    any (λ h. str_eq (normalize_hostname h) (normalize_hostname want)) hosts

-- The domain itself, or a name under it.
unfoldable pub under : (value suffix : Bytes) → Bool
under value suffix = str_eq value suffix || has_suffix value (codes "." ++ suffix)

unfoldable first_refusal :
    Result HostError (Unit {0}) → (same managed reserved : Bool) → Result HostError (Unit {0})
first_refusal (err e) same managed reserved = err e
first_refusal (ok tt) same managed reserved =
    if same
    then err same_as_host
    else if managed
    then err under_managed_domain
    else if reserved
    then err reserved_domain
    else ok tt

-- `is_ip` is `net.ParseIP`, for what it accepts.
module _ (is_ip : Bytes → Bool) where
  unfoldable pub validate_custom_domain_hostname : Bytes → Result HostError (Unit {0})
  validate_custom_domain_hostname value =
      if str_eq value []
      then ok tt
      else if contains value (codes "://") || contains_any value (codes "/:@")
      then err invalid_domain
      else if ltb 253 (length value)
      then err invalid_domain
      else if is_ip value
      then err invalid_domain
      else if not (contains value (codes "."))
      then err invalid_domain
      else if all (is_label 63) (split value b'.')
      then ok tt
      else err invalid_domain

  unfoldable pub validate_sealos_host : Bytes → Result HostError (Unit {0})
  validate_sealos_host value =
      if str_eq value []
      then err host_required
      else elim (validate_custom_domain_hostname value) [ ok tt ↦ ok tt | err e ↦ err invalid_host ]

  unfoldable pub validate_custom_domain_target :
      (custom_domain sealos_host : Bytes) → Result HostError (Unit {0})
  unfolding first_refusal
  validate_custom_domain_target raw sealos_host =
      let custom_domain = normalize_hostname raw in
      let suffix = managed_domain_suffix (normalize_hostname sealos_host) in
      if str_eq raw []
      then ok tt
      else first_refusal (validate_custom_domain_hostname custom_domain)
          (str_eq custom_domain (normalize_hostname sealos_host))
          (not (str_eq suffix []) && under custom_domain suffix)
          (any (under custom_domain) reserved_custom_domain_suffixes)

-- One hyphen for each run of the characters that a label does not have.
replace_others : (run : Bool) → Bytes → Bytes
replace_others run [] = []
replace_others run (c ∷ s) =
    let kept = c ∷ replace_others false s in
    let replaced = replace_others true s in
    if is_label_char c then kept else if run then replaced else b'-' ∷ replaced

drop_hyphens : Bytes → Bytes
drop_hyphens [] = []
drop_hyphens (c ∷ s) = let rest = drop_hyphens s in if c == b'-' then rest else c ∷ s

trim_hyphens : Bytes → Bytes
unfolding drop_hyphens
trim_hyphens s = reverse (drop_hyphens (reverse (drop_hyphens s)))

-- `strings.ToLower`, and then what is no letter of a label is replaced.
unfoldable pub compact_dns_label : (sha256 : Bytes → Bytes) → Bytes → ℕ → Bytes
unfolding replace_others trim_hyphens
compact_dns_label sha256 raw limit =
    let trimmed = trim_hyphens (replace_others false (to_lower raw)) in
    let value = if str_eq trimmed [] then codes "sealtun" else trimmed in
    let suffix = take 8 (hex_encode (sha256 value)) in
    let keep = if ltb (limit - (length suffix + 1)) 1 then 1 else limit - (length suffix + 1) in
    if leb (length value) limit
    then value
    else trim_hyphens (take keep value) ++ codes "-" ++ suffix

unfoldable pub sealos_host :
    (sha256 : Bytes → Bytes) → (namespace domain : Bytes) → (name : Bytes) → Bytes
sealos_host sha256 namespace domain name =
    compact_dns_label sha256 (name ++ codes "-" ++ namespace) 63 ++ codes "." ++ domain
