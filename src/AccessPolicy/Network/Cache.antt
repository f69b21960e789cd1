-- ===== src/AccessPolicy/Network/Cache.antt =====
-- The cache of matchers changes no verdict: `NetworkAllowedForIP` against a version without it.
pub mod Verdicts
use sealtun.Prelude.{
  ◌≡◌, refl, sym, ◌∙◌, ap, List, [], ◌∷◌, Option, none, some, Bytes, Result, ok, err, arith, All,
  Bool-cases, if◌then◌else◌, inl, inr, str_eq, str_eq_iff, codes,
}
use sealtun.Assoc.{lookup, insert, All-insert, lookup-All}
use sealtun.Text.Trim.{trim_space, trim_space_idem}
use sealtun.AccessPolicy.{Policy}
use sealtun.AccessPolicy.Network.{
  Net, Error, Matcher, parse_matcher, Cache, store, reuse, cached_matcher, Verdict, pass, reject,
  denies, admits, scan, settle, conclude, allow_scan, deny_scan, unlisted, located,
  network_allowed_for_ip,
}

abbrev or_else {ℓ} : {A : Type ℓ} → Option A → Option A → Option A
or_else (some a) o = some a
or_else none o = o

module _ (net : Net) where
  open net use {Ip}

  -- Every entry of the cache is what parsing its key gives.
  abbrev pub IsFaithful : Cache net → Type 0
  IsFaithful = All (λ e. parse_matcher net e.0 ≡ ok e.1)

  parse_matcher-trim_space : (v : Bytes) → parse_matcher net (trim_space v) ≡ parse_matcher net v
  unfolding parse_matcher
  parse_matcher-trim_space v = rw (trim_space_idem v)

  store-IsFaithful :
      (cache : Cache net) (v : Bytes) (r : Result Error (Matcher net))
      → IsFaithful cache
      → parse_matcher net v ≡ r
      → IsFaithful (store net cache v r).0 × ((store net cache v r).1 ≡ r)
  unfolding store
  store-IsFaithful cache v (err e) h p = (h, refl)
  store-IsFaithful cache v (ok m) h p =
      (All-insert (λ e. parse_matcher net e.0 ≡ ok e.1) v m cache p h, refl)

  reuse-IsFaithful :
      (cache : Cache net) (v : Bytes) (o : Option (Matcher net))
      → IsFaithful cache
      → lookup v cache ≡ o
      → IsFaithful (reuse net cache v o).0 × ((reuse net cache v o).1 ≡ parse_matcher net v)
  unfolding reuse
  reuse-IsFaithful cache v none h p = store-IsFaithful cache v (parse_matcher net v) h refl
  reuse-IsFaithful cache v (some m) h p =
      (h, sym (lookup-All (λ e. parse_matcher net e.0 ≡ ok e.1) v cache p h))

  cached_matcher-IsFaithful :
      (cache : Cache net) (v : Bytes)
      → IsFaithful cache
      → IsFaithful (cached_matcher net cache v).0
        × ((cached_matcher net cache v).1 ≡ parse_matcher net v)
  unfolding cached_matcher
  cached_matcher-IsFaithful cache v h =
      let (f, e) = reuse-IsFaithful cache (trim_space v) (lookup (trim_space v) cache) h refl in
      (f, e ∙ parse_matcher-trim_space v)

  -- The loop without a cache.
  pub plain_scan :
      (Result Error (Matcher net) → Option (Verdict net)) → List Bytes → Option (Verdict net)
  plain_scan judge [] = none
  plain_scan judge (entry ∷ entries) =
      or_else (judge (parse_matcher net entry)) (plain_scan judge entries)

  settle-IsFaithful :
      (cache : Cache net) (later : Cache net × Option (Verdict net)) (o p : Option (Verdict net))
      → IsFaithful cache
      → IsFaithful later.0 × (later.1 ≡ p)
      → IsFaithful (settle net cache later o).0 × ((settle net cache later o).1 ≡ or_else o p)
  unfolding settle
  settle-IsFaithful cache later none p f (g, e) = (g, e)
  settle-IsFaithful cache later (some v) p f h = (f, refl)

  scan-plain_scan :
      (judge : Result Error (Matcher net) → Option (Verdict net)) (cache : Cache net)
      (entries : List Bytes)
      → IsFaithful cache
      → IsFaithful (scan net judge cache entries).0
        × ((scan net judge cache entries).1 ≡ plain_scan judge entries)
  unfolding scan plain_scan
  scan-plain_scan judge cache [] h = (h, refl)
  scan-plain_scan judge cache (entry ∷ entries) h =
      let step = cached_matcher net cache entry in
      let (f, e) = cached_matcher-IsFaithful cache entry h in
      let (g, q) =
        settle-IsFaithful step.0 (scan net judge step.0 entries) (judge step.1)
          (plain_scan judge entries) f (scan-plain_scan judge step.0 entries f) in
      (g, q ∙ ap (λ m. or_else (judge m) (plain_scan judge entries)) e)

  finish : Option (Verdict net) → Verdict net → Verdict net
  finish (some v) rest = v
  finish none rest = rest

  conclude-IsFaithful :
      (r : Cache net × Option (Verdict net)) (next : Cache net → Cache net × Verdict net)
      (p : Option (Verdict net)) (rest : Verdict net)
      → IsFaithful r.0 × (r.1 ≡ p)
      → ((c : Cache net) → IsFaithful c → IsFaithful (next c).0 × ((next c).1 ≡ rest))
      → IsFaithful (conclude net r next).0 × ((conclude net r next).1 ≡ finish p rest)
  unfolding conclude finish
  conclude-IsFaithful (c, none) next p rest (f, e) h = rw (← e) (h c f)
  conclude-IsFaithful (c, some v) next p rest (f, e) h = rw (← e) (f, refl)

  plain_allow : Ip → List Bytes → Verdict net
  unfolding plain_scan finish
  plain_allow ip [] = pass
  plain_allow ip (entry ∷ entries) =
      finish (plain_scan (admits net ip) (entry ∷ entries))
        (reject (codes "client IP is not allowed"))

  allow_scan-plain_allow :
      (ip : Ip) (entries : List Bytes) (cache : Cache net)
      → IsFaithful cache
      → IsFaithful (allow_scan net ip entries cache).0
        × ((allow_scan net ip entries cache).1 ≡ plain_allow ip entries)
  unfolding allow_scan plain_allow
  allow_scan-plain_allow ip [] cache h = (h, refl)
  allow_scan-plain_allow ip (entry ∷ entries) cache h =
      conclude-IsFaithful (scan net (admits net ip) cache (entry ∷ entries)) _ _ _
        (scan-plain_scan (admits net ip) cache (entry ∷ entries) h) (λ c f. (f, refl))

  -- `NetworkAllowedForIP` with every entry parsed anew.
  pub plain_verdict : Option Policy → Option Ip → Verdict net
  unfolding plain_scan plain_allow finish
  plain_verdict none ip = pass
  plain_verdict (some policy) none =
      if unlisted net policy then pass else reject (codes "client IP could not be determined")
  plain_verdict (some policy) (some ip) =
      if unlisted net policy
      then pass
      else finish (plain_scan (denies net ip) policy.ip_denylist)
          (plain_allow ip policy.ip_allowlist)

  deny_scan-plain :
      (ip : Ip) (policy : Policy) (cache : Cache net)
      → IsFaithful cache
      → IsFaithful (deny_scan net ip policy cache).0
        × ((deny_scan net ip policy cache).1
            ≡ finish
                (plain_scan (denies net ip) policy.ip_denylist)
                (plain_allow ip policy.ip_allowlist))
  unfolding deny_scan
  deny_scan-plain ip policy cache h =
      conclude-IsFaithful (scan net (denies net ip) cache policy.ip_denylist) _ _ _
        (scan-plain_scan (denies net ip) cache policy.ip_denylist h)
        (allow_scan-plain_allow ip policy.ip_allowlist)

-- The cache is transparent: if every entry of it is what parsing its key gives, the verdict is that
-- of a version that parses every entry anew, and every entry is still so afterwards.
pub network_allowed_for_ip-plain_verdict :
    (net : Net) (cache : Cache net) (policy : Option Policy) (ip : Option net.Ip)
    → IsFaithful net cache
    → IsFaithful net (network_allowed_for_ip net cache policy ip).0
      × ((network_allowed_for_ip net cache policy ip).1 ≡ plain_verdict net policy ip)
unfolding network_allowed_for_ip plain_verdict
network_allowed_for_ip-plain_verdict net cache none ip h = (h, refl)
network_allowed_for_ip-plain_verdict net cache (some policy) none h =
    elim (Bool-cases (unlisted net policy)) [ inl e ↦ rw e (h, refl) | inr e ↦ rw e (h, refl) ]
network_allowed_for_ip-plain_verdict net cache (some policy) (some ip) h =
    elim (Bool-cases (unlisted net policy)) [
      | inl e ↦ rw e (h, refl)
      | inr e ↦ rw e (deny_scan-plain net ip policy cache h)
    ]
