-- ===== src/Protocol/Aliases.antt =====
-- What resolving an alias leaves for the rest of the program.
use sealtun.Prelude.{
  [], true, false, ◌⊎◌, inl, inr, ◌≡◌, refl, Bytes, str_eq, str_eq_iff, ok, arith, not,
}
use sealtun.Text.{to_lower}
use sealtun.Text.Trim.{trim_space}
use sealtun.Protocol.{
  https, ssh, tcp, http, normalize, validate_expose, resolve_alias, validate_server, uses_raw_tcp,
  is_http,
}

abbrev pub IsCanonical : Bytes → Type 0
IsCanonical p = (p ≡ https) ⊎ (p ≡ tcp)

-- What every use of a canonical protocol may rely on.
abbrev pub Settled : Bytes → Type 0
Settled p =
    (validate_server p ≡ ok tt)
    × (validate_expose p ≡ ok tt)
    × (resolve_alias p ≡ (p, []))
    × (is_http p ≡ not (uses_raw_tcp p))

https-Settled : Settled https
unfolding validate_server validate_expose resolve_alias is_http uses_raw_tcp normalize to_lower
    trim_space str_eq
https-Settled = (refl, refl, refl, refl)

tcp-Settled : Settled tcp
unfolding validate_server validate_expose resolve_alias is_http uses_raw_tcp normalize to_lower
    trim_space str_eq
tcp-Settled = (refl, refl, refl, refl)

resolve_cases :
    (v : Bytes)
    → validate_expose v ≡ ok tt
    → (((resolve_alias v).0 ≡ https) × (uses_raw_tcp v ≡ false))
      ⊎ (((resolve_alias v).0 ≡ tcp) × (uses_raw_tcp v ≡ true))
unfolding validate_expose resolve_alias uses_raw_tcp
resolve_cases v h = ground (
  arith,
  str_eq_iff (normalize v) https,
  str_eq_iff (normalize v) ssh,
  str_eq_iff (normalize v) tcp,
  str_eq_iff (normalize v) http,
)

raw_https : uses_raw_tcp https ≡ false
unfolding uses_raw_tcp normalize to_lower trim_space str_eq
raw_https = refl

raw_tcp : uses_raw_tcp tcp ≡ true
unfolding uses_raw_tcp normalize to_lower trim_space str_eq
raw_tcp = refl

-- Every protocol that `ValidateExpose` accepts resolves to https or tcp. `ValidateServer` and
-- `ValidateExpose` accept the result, resolving it again changes nothing and reports no alias, it is
-- HTTP exactly when it does not use raw TCP, and it uses raw TCP exactly when the original did.
pub resolve_alias-Settled :
    (v : Bytes)
    → validate_expose v ≡ ok tt
    → IsCanonical (resolve_alias v).0
      × Settled (resolve_alias v).0
      × (uses_raw_tcp (resolve_alias v).0 ≡ uses_raw_tcp v)
resolve_alias-Settled v h = elim (resolve_cases v h) [
  | inl (e, r) ↦ (inl e, rw e https-Settled, rw (e, r) raw_https)
  | inr (e, r) ↦ (inr e, rw e tcp-Settled, rw (e, r) raw_tcp)
]
