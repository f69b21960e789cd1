-- ===== src/Kubernetes/Hosts/Foreign.antt =====
-- pkg/k8s/client.go: what an accepted custom domain is not.
use sealtun.Prelude.{
  ◌≡◌, ◌≢◌, ◌⊎◌, inl, inr, refl, ◌∙◌, ap, Bool, true, false, not, ◌&&◌, List, [], ◌∷◌, ◌++◌, Bytes,
  codes, str_eq, str_eq_iff, Result, ok, err, any, all, arith, Bool-cases, ◌≤◌, length, All,
  if_elim,
}
use sealtun.Text.Trim.{trim_space}
use sealtun.Text.{trim_suffix, to_lower, has_suffix, contains, split}
use sealtun.Text.Affix.{has_suffix-append}
use sealtun.Text.Label.{is_label}
use sealtun.Kubernetes.Hosts.{
  HostError, first_refusal, normalize_hostname, managed_domain_suffix, under,
  validate_custom_domain_hostname, validate_custom_domain_target, reserved_custom_domain_suffixes,
}

-- Neither the domain itself nor a name under it.
abbrev pub Outside : (domain : Bytes) → Bytes → Type 0
Outside domain value = (value ≢ domain) × ((p : Bytes) → value ≢ p ++ (codes "." ++ domain))

under-Outside : (value domain : Bytes) → under value domain ≡ false → Outside domain value
unfolding under
under-Outside value domain h = (
  (λ e. ground (arith, str_eq_iff value domain)),
  λ p e. ground (
    arith,
    has_suffix-append p (codes "." ++ domain),
    ap (λ v. has_suffix v (codes "." ++ domain)) e,
  ),
)

any-Outside :
    (value : Bytes) (domains : List Bytes)
    → any (under value) domains ≡ false
    → All (λ s. Outside s value) domains
any-Outside value [] h = tt
any-Outside value (s ∷ domains) h =
    (under-Outside value s (ground arith), any-Outside value domains (ground arith))

refusals :
    (r : Result HostError (Unit {0})) (a b c : Bool)
    → first_refusal r a b c ≡ ok tt
    → (r ≡ ok tt) × (a ≡ false) × (b ≡ false) × (c ≡ false)
unfolding first_refusal
refusals (ok tt) a b c h = (refl, ground arith, ground arith, ground arith)
refusals (err e) a b c h = cc

-- A DNS host name of two labels or more that is no address.
abbrev pub IsHostname : (is_ip : Bytes → Bool) → Bytes → Type 0
IsHostname is_ip value =
    (length value ≤ 253)
    × (is_ip value ≡ false)
    × (contains value (codes ".") ≡ true)
    × (all (is_label 63) (split value b'.') ≡ true)

module _ (is_ip : Bytes → Bool) where
  value-IsHostname :
      (value : Bytes)
      → value ≢ []
      → validate_custom_domain_hostname is_ip value ≡ ok tt
      → IsHostname is_ip value
  unfolding validate_custom_domain_hostname
  value-IsHostname value ne h = ground (arith, str_eq_iff value [])

  normalize-nil : normalize_hostname [] ≡ []
  unfolding normalize_hostname trim_suffix to_lower trim_space
  normalize-nil = refl

  abbrev Passed : Bytes → Bytes → Type 0
  Passed d h =
      let n = normalize_hostname d in
      let suffix = managed_domain_suffix (normalize_hostname h) in
      (validate_custom_domain_hostname is_ip n ≡ ok tt)
      × (str_eq n (normalize_hostname h) ≡ false)
      × ((not (str_eq suffix []) && under n suffix) ≡ false)
      × (any (under n) reserved_custom_domain_suffixes ≡ false)

  target_checks :
      (d h : Bytes)
      → normalize_hostname d ≢ []
      → validate_custom_domain_target is_ip d h ≡ ok tt
      → Passed d h
  unfolding validate_custom_domain_target
  target_checks d h ne e =
      if_elim (λ r. r ≡ ok tt → Passed d h) (str_eq d [])
        (λ empty. absurd (ne (ap normalize_hostname ((str_eq_iff d []).0 empty) ∙ normalize-nil)))
        (λ full. refusals (validate_custom_domain_hostname is_ip (normalize_hostname d)) _ _ _) e

  -- An accepted custom domain is, as it is normalized, a DNS host name that is not an address; it is not the
  -- Sealos host, and it is neither the Sealos-managed domain of that host or a reserved Sealos domain,
  -- nor a name under one.
  pub validate_custom_domain_target-Outside :
      (custom_domain sealos_host : Bytes)
      → normalize_hostname custom_domain ≢ []
      → validate_custom_domain_target is_ip custom_domain sealos_host ≡ ok tt
      → IsHostname is_ip (normalize_hostname custom_domain)
        × (normalize_hostname custom_domain ≢ normalize_hostname sealos_host)
        × ((managed_domain_suffix (normalize_hostname sealos_host) ≡ [])
            ⊎ Outside
                (managed_domain_suffix (normalize_hostname sealos_host))
                (normalize_hostname custom_domain))
        × All (λ s. Outside s (normalize_hostname custom_domain)) reserved_custom_domain_suffixes
  unfolding validate_custom_domain_target
  validate_custom_domain_target-Outside d h ne e =
      let n = normalize_hostname d in
      let suffix = managed_domain_suffix (normalize_hostname h) in
      let (valid, other, unmanaged, unreserved) = target_checks d h ne e in
      (
        value-IsHostname n ne valid,
        (λ same. ground (arith, str_eq_iff n (normalize_hostname h))),
        elim (Bool-cases (str_eq suffix [])) [
          | inl none_such ↦ inl ((str_eq_iff suffix []).0 none_such)
          | inr some_such ↦ inr (under-Outside n suffix (ground arith))
        ],
        any-Outside n reserved_custom_domain_suffixes unreserved,
      )
