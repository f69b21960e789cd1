-- ===== src/AccessPolicy/Network/Cache/Verdicts.antt =====
-- Which addresses pass: the denylist first, then the allowlist, and malformed entries never in the
-- client's favour.
use sealtun.Prelude.{
  ◌≡◌, ◌≢◌, ◌↔◌, ◌⊎◌, inl, inr, refl, sym, ◌∙◌, Bool, true, false, List, [], ◌∷◌, Option, none,
  some, Bytes, Result, ok, err, arith, is_ok, any, All, Option-cases, Bool-cases, length, ◌==◌,
}
use sealtun.AccessPolicy.{Policy}
use sealtun.AccessPolicy.Network.{
  Net, Error, Matcher, matches, parse_matcher, Cache, pass, denies, admits, unlisted,
  network_allowed_for_ip,
}
use sealtun.AccessPolicy.Network.Cache.{
  IsFaithful, plain_scan, plain_allow, finish, plain_verdict, network_allowed_for_ip-plain_verdict,
}

module _ (net : Net) where
  open net use {Ip}

  -- The entry is well formed and holds the address.
  abbrev pub holds : Ip → Result Error (Matcher net) → Bool
  holds ip (err e) = false
  holds ip (ok m) = matches net m ip

  abbrev pub listed : Ip → List Bytes → Bool
  listed ip = any (λ e. holds ip (parse_matcher net e))

  abbrev pub WellFormed : List Bytes → Type 0
  WellFormed = All (λ e. is_ok (parse_matcher net e) ≡ true)

  -- The denylist loop never lets a client pass.
  deny-ne-pass :
      (ip : Ip) (entries : List Bytes) → plain_scan net (denies net ip) entries ≢ some pass
  unfolding plain_scan denies
  deny-ne-pass ip [] = cc
  deny-ne-pass ip (e ∷ es) = ground (arith, deny-ne-pass ip es)

  -- It goes on exactly past well-formed entries that do not hold the address.
  deny-eq-none_iff :
      (ip : Ip) (entries : List Bytes)
      → (plain_scan net (denies net ip) entries ≡ none)
        ↔ ((listed ip entries ≡ false) × WellFormed entries)
  unfolding plain_scan denies
  deny-eq-none_iff ip [] = ground arith
  deny-eq-none_iff ip (e ∷ es) = ground (arith, deny-eq-none_iff ip es)

  -- The allowlist loop passes a client only by an entry that holds its address.
  allow-listed :
      (ip : Ip) (entries : List Bytes)
      → plain_scan net (admits net ip) entries ≡ some pass
      → listed ip entries ≡ true
  unfolding plain_scan admits
  allow-listed ip [] h = cc
  allow-listed ip (e ∷ es) h = ground (arith, allow-listed ip es)

  -- If all entries are well formed, it passes every address that one holds.
  allow_of_listed :
      (ip : Ip) (entries : List Bytes)
      → WellFormed entries
      → listed ip entries ≡ true
      → plain_scan net (admits net ip) entries ≡ some pass
  unfolding plain_scan admits
  allow_of_listed ip [] w h = cc
  allow_of_listed ip (e ∷ es) (v, w) h = ground (arith, allow_of_listed ip es w)

  Permitted : Ip → Policy → Type 0
  Permitted ip policy =
      (listed ip policy.ip_denylist ≡ false)
      × ((policy.ip_allowlist ≡ []) ⊎ (listed ip policy.ip_allowlist ≡ true))

  plain_allow-eq-pass :
      (ip : Ip) (entries : List Bytes)
      → plain_allow net ip entries ≡ pass
      → (entries ≡ []) ⊎ (listed ip entries ≡ true)
  unfolding plain_allow finish
  plain_allow-eq-pass ip [] h = inl refl
  plain_allow-eq-pass ip (e ∷ es) h =
      elim (Option-cases (plain_scan net (admits net ip) (e ∷ es))) [
        | inl q ↦ absurd (ground arith)
        | inr (v, q) ↦ inr (allow-listed ip (e ∷ es) (ground arith))
      ]

  plain_allow_of_listed :
      (ip : Ip) (entries : List Bytes)
      → WellFormed entries
      → (entries ≡ []) ⊎ (listed ip entries ≡ true)
      → plain_allow net ip entries ≡ pass
  unfolding plain_allow finish
  plain_allow_of_listed ip [] w h = refl
  plain_allow_of_listed ip (e ∷ es) w (inl h) = cc
  plain_allow_of_listed ip (e ∷ es) w (inr h) = rw (allow_of_listed ip (e ∷ es) w h, finish)

  plain_sound :
      (policy : Policy) (ip : Option Ip)
      → plain_verdict net (some policy) ip ≡ pass
      → (unlisted net policy ≡ true)
        ⊎ ((a : Ip) × (ip ≡ some a) × Permitted a policy × WellFormed policy.ip_denylist)
  unfolding plain_verdict Permitted finish
  plain_sound policy none h = ground arith
  plain_sound policy (some a) h = elim (Bool-cases (unlisted net policy)) [
    | inl e ↦ inl e
    | inr e ↦ elim (Option-cases (plain_scan net (denies net a) policy.ip_denylist)) [
      | inl q ↦
          let (free, formed) = (deny-eq-none_iff a policy.ip_denylist).0 q in
          inr (a, refl, (free, plain_allow-eq-pass a policy.ip_allowlist (ground arith)), formed)
      | inr (v, q) ↦ absurd (ground (arith, deny-ne-pass a policy.ip_denylist))
    ]
  ]

  plain_complete :
      (policy : Policy) (a : Ip)
      → WellFormed policy.ip_denylist
      → WellFormed policy.ip_allowlist
      → Permitted a policy
      → plain_verdict net (some policy) (some a) ≡ pass
  unfolding plain_verdict Permitted finish
  plain_complete policy a wd wa (free, let_in) = ground (
    arith,
    (deny-eq-none_iff a policy.ip_denylist).1 (free, wd),
    plain_allow_of_listed a policy.ip_allowlist wa let_in,
  )

eq-nil_of_length : (xs : List Bytes) → (length xs == 0) ≡ true → xs ≡ []
eq-nil_of_length [] h = refl
eq-nil_of_length (x ∷ xs) h = ground arith

unlisted-eq-nil :
    (net : Net) (policy : Policy)
    → unlisted net policy ≡ true
    → (policy.ip_allowlist ≡ []) × (policy.ip_denylist ≡ [])
unfolding unlisted
unlisted-eq-nil net policy h = (
  eq-nil_of_length policy.ip_allowlist (ground arith),
  eq-nil_of_length policy.ip_denylist (ground arith),
)

-- `NetworkAllowedForIP` fails closed. If it lets a client pass, the policy has no IP rules, or the
-- client's address is known, every denylist entry is well formed, none holds the address, and the
-- allowlist is empty or has a well-formed entry that holds it; malformed entries may be anywhere.
pub network_allowed_for_ip_sound :
    (net : Net) (cache : Cache net) (policy : Policy) (ip : Option net.Ip)
    → IsFaithful net cache
    → (network_allowed_for_ip net cache (some policy) ip).1 ≡ pass
    → ((policy.ip_allowlist ≡ []) × (policy.ip_denylist ≡ []))
      ⊎ ((a : net.Ip) × (ip ≡ some a)
          × (listed net a policy.ip_denylist ≡ false)
          × ((policy.ip_allowlist ≡ []) ⊎ (listed net a policy.ip_allowlist ≡ true))
          × WellFormed net policy.ip_denylist)
unfolding Permitted
network_allowed_for_ip_sound net cache policy ip f h =
    let (_, e) = network_allowed_for_ip-plain_verdict net cache (some policy) ip f in
    elim (plain_sound net policy ip (sym e ∙ h)) [
      | inl u ↦ inl (unlisted-eq-nil net policy u)
      | inr (a, known, (free, let_in), formed) ↦ inr (a, known, free, let_in, formed)
    ]

-- A policy whose entries are all well formed lets a client pass whose address no denylist entry
-- holds, and which the allowlist holds unless it is empty.
pub network_allowed_for_ip_complete :
    (net : Net) (cache : Cache net) (policy : Policy) (a : net.Ip)
    → IsFaithful net cache
    → WellFormed net policy.ip_denylist
    → WellFormed net policy.ip_allowlist
    → listed net a policy.ip_denylist ≡ false
    → (policy.ip_allowlist ≡ []) ⊎ (listed net a policy.ip_allowlist ≡ true)
    → (network_allowed_for_ip net cache (some policy) (some a)).1 ≡ pass
unfolding Permitted
network_allowed_for_ip_complete net cache policy a f wd wa free let_in =
    (network_allowed_for_ip-plain_verdict net cache (some policy) (some a) f).1
    ∙ plain_complete net policy a wd wa (free, let_in)
