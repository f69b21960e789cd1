-- ===== src/AccessPolicy/Validation/Accepted.antt =====
-- What a validated policy may be relied on for.
use sealtun.Prelude.{◌≡◌, ◌⊎◌, true, false, List, [], ◌∷◌, some, Bytes, Result, ok, arith, All}
use sealtun.Http.{Platform}
use sealtun.AccessPolicy.{Policy}
use sealtun.AccessPolicy.Network.{Net, Cache, network_allowed_for_ip, pass}
use sealtun.AccessPolicy.Network.Cache.{IsFaithful}
use sealtun.AccessPolicy.Network.Cache.Verdicts.{
  WellFormed, listed, network_allowed_for_ip_complete,
}
use sealtun.AccessPolicy.Validation.{Error, each, ignore, check_allow, check_deny, validate}

each-All :
    {A : Type 0} (check : A → Result Error (Unit {0})) (xs : List A)
    → each check xs ≡ ok tt
    → All (λ x. check x ≡ ok tt) xs
unfolding each
each-All check [] h = tt
each-All check (x ∷ xs) h = (ground arith, each-All check xs (ground arith))

module _ (net : Net) (platform : Platform) where
  allow-WellFormed :
      (entries : List Bytes)
      → All (λ e. check_allow net platform e ≡ ok tt) entries
      → WellFormed net entries
  unfolding check_allow ignore
  allow-WellFormed [] h = tt
  allow-WellFormed (e ∷ es) (h, hs) = (ground arith, allow-WellFormed es hs)

  deny-WellFormed :
      (entries : List Bytes)
      → All (λ e. check_deny net platform e ≡ ok tt) entries
      → WellFormed net entries
  unfolding check_deny ignore
  deny-WellFormed [] h = tt
  deny-WellFormed (e ∷ es) (h, hs) = (ground arith, deny-WellFormed es hs)

  validated_lists :
      (policy : Policy)
      → validate net platform (some policy) ≡ ok tt
      → WellFormed net policy.ip_allowlist × WellFormed net policy.ip_denylist
  unfolding validate
  validated_lists policy h = (
    allow-WellFormed policy.ip_allowlist
        (each-All (check_allow net platform) policy.ip_allowlist (ground arith)),
    deny-WellFormed policy.ip_denylist
        (each-All (check_deny net platform) policy.ip_denylist (ground arith)),
  )

-- A validated policy lets a client pass whose address no denylist entry holds, and which the
-- allowlist holds unless it is empty.
pub validated_passes :
    (net : Net) (platform : Platform) (cache : Cache net) (policy : Policy) (a : net.Ip)
    → IsFaithful net cache
    → validate net platform (some policy) ≡ ok tt
    → listed net a policy.ip_denylist ≡ false
    → (policy.ip_allowlist ≡ []) ⊎ (listed net a policy.ip_allowlist ≡ true)
    → (network_allowed_for_ip net cache (some policy) (some a)).1 ≡ pass
validated_passes net platform cache policy a f v free let_in =
    let (wa, wd) = validated_lists net platform policy v in
    network_allowed_for_ip_complete net cache policy a f wd wa free let_in
