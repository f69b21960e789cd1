-- ===== src/Kubernetes/Cleanup/Owned.antt =====
-- pkg/k8s/client.go: whose objects a cleanup deletes.
use mathlib.Core.Path.{subst}
use sealtun.Prelude.{
  ℕ, ◌≡◌, ◌⊎◌, inl, inr, refl, ◌∙◌, sym, ap, not, Bool, true, false, ◌&&◌, ◌||◌, List, [], ◌∷◌,
  ◌++◌, Option, none, some, Bytes, codes, str_eq, str_eq_iff, Result, Bool-cases, arith, if_elim,
  any,
}
use sealtun.Kubernetes.{
  Spec, secret_data, deployment_spec, service_spec, ingress_spec, certificate_spec, issuer_spec,
  certificate_secret_name_matches, Kind, Object, tunnel_resource_name, auth_secret_name,
  valid_tunnel_id, marked_by_certificate, secret_owned_by_managed_issuer,
  secret_owned_by_managed_certificate,
}
use sealtun.Kubernetes.Cluster.{Cluster, Error, Objects, get, set_object_cases}
use sealtun.Kubernetes.Cleanup.{
  found, Progress, Summary, labelled, delete_if, delete_secret_if_owned, delete_deployment_if_owned,
  delete_named_service_if_owned, delete_ingress_if_owned, get_dynamic_resource,
  delete_managed_dynamic_resource_if_exists, delete_acme_key_secret, acme_key_name, acme_key_of,
  step, cleanup_core_resources, cleanup_custom_domain_resources, cleanup_name, cleanup_from,
  cleanup_one, cleanup_managed, domain_rest,
}
use sealtun.Kubernetes.Cleanup.Deletion.{Dropped, delete_if-Dropped}

-- Each object is as it was, or it is gone and was one that `mine` says may go.
abbrev pub Removes : (Kind → Bytes → Object → Type 0) → Objects → Objects → Type 0
Removes mine before after =
    (k : Kind) (n : Bytes)
    → (after k n ≡ before k n)
      ⊎ ((o : Object) × (before k n ≡ some o) × mine k n o × (after k n ≡ none))

module _ (mine : Kind → Bytes → Object → Type 0) where
  pub Removes-trans : {a b c : Objects} → Removes mine a b → Removes mine b c → Removes mine a c
  Removes-trans f g k n = elim (f k n) [
    | inl e ↦ elim (g k n) [
      | inl e' ↦ inl (e' ∙ e)
      | inr (o, h, m, gone) ↦ inr (o, sym e ∙ h, m, gone)
    ]
    | inr (o, h, m, gone) ↦ elim (g k n) [
      | inl e' ↦ inr (o, h, m, e' ∙ gone)
      | inr (p, h', m', gone') ↦ inr (o, h, m, gone')
    ]
  ]

  pub Dropped-Removes :
      (owned : Object → Bool) (k : Kind) (n : Bytes) {a b : Objects}
      → ((o : Object) → owned o ≡ true → mine k n o)
      → Dropped owned k n a b
      → Removes mine a b
  Dropped-Removes owned k n allowed (inl e) j m = inl (ap (λ f. f j m) e)
  Dropped-Removes owned k n {a} allowed (inr (o, h, own, e)) j m =
      elim (set_object_cases k n none a j m) [
        | inl (ek, en, gone) ↦ inr (
          o,
          cc,
          subst (λ j'. mine j' m o) (sym ek) (subst (λ m'. mine k m' o) (sym en) (allowed o own)),
          ap (λ f. f j m) e ∙ gone,
        )
        | inr same ↦ inl (ap (λ f. f j m) e ∙ same)
      ]

-- The secret `n` is the one that the tunnel's certificate names, and cert-manager has marked it.
pub record ByCertificate (a : Objects) (name n : Bytes) (o : Object) : Type 0 where
  pub certificate : Object
  pub there : a Kind.certificate name ≡ some certificate
  pub ours : labelled name certificate ≡ true
  pub domains : List Bytes
  pub names : certificate.spec ≡ certificate_spec (some n) domains
  pub marked : marked_by_certificate o name ≡ true

-- The secret `n` is the account key that the tunnel's issuer names, and belongs to the issuer.
pub record ByIssuer (a : Objects) (name n : Bytes) (o : Object) : Type 0 where
  pub issuer : Object
  pub there : a Kind.issuer name ≡ some issuer
  pub ours : labelled name issuer ≡ true
  pub email : Bytes
  pub names : issuer.spec ≡ issuer_spec email (some n)
  pub expected : n ≡ codes "letsencrypt-prod-" ++ name
  pub belongs : secret_owned_by_managed_issuer o name ≡ true

-- What a tunnel owns among the objects `a`: what has its label, and the secrets that cert-manager has made
-- for its certificate and its issuer.
abbrev pub Owns : Objects → (name : Bytes) → Kind → Bytes → Object → Type 0
Owns a name k n o =
    (labelled name o ≡ true)
    ⊎ ((k ≡ Kind.secret) × (ByCertificate a name n o ⊎ ByIssuer a name n o))

-- What was read of an object, if it was there, is what it was at the start.
abbrev pub WasThere : Objects → Kind → Bytes → Option Object → Type 0
WasThere a k n read = (o : Object) → read ≡ some o → a k n ≡ some o

and_true : {a b : Bool} → (a && b) ≡ true → (a ≡ true) × (b ≡ true)
and_true {a} {b} h = (ground arith, ground arith)

spec_certificate :
    (n : Bytes) (s : Spec)
    → (elim s [ certificate_spec (some value) names ↦ str_eq value n | _ ↦ false ]) ≡ true
    → (domains : List Bytes) × (s ≡ certificate_spec (some n) domains)
spec_certificate n (certificate_spec (some value) domains) h =
    (domains, ap (λ v. certificate_spec (some v) domains) ((str_eq_iff value n).0 h))
spec_certificate n (certificate_spec none domains) h = absurd (ground arith)
spec_certificate n (secret_data t d) h = absurd (ground arith)
spec_certificate n (deployment_spec d) h = absurd (ground arith)
spec_certificate n (service_spec d) h = absurd (ground arith)
spec_certificate n (ingress_spec d) h = absurd (ground arith)
spec_certificate n (issuer_spec e k) h = absurd (ground arith)

certificate_named :
    (cert : Object) (n : Bytes)
    → certificate_secret_name_matches cert n ≡ true
    → (domains : List Bytes) × (cert.spec ≡ certificate_spec (some n) domains)
unfolding certificate_secret_name_matches
certificate_named cert n h = spec_certificate n cert.spec h

spec_issuer :
    (n : Bytes) (s : Spec)
    → (elim s [ issuer_spec email (some key) ↦ str_eq key n | _ ↦ false ]) ≡ true
    → (email : Bytes) × (s ≡ issuer_spec email (some n))
spec_issuer n (issuer_spec email (some key)) h =
    (email, ap (λ k. issuer_spec email (some k)) ((str_eq_iff key n).0 h))
spec_issuer n (issuer_spec email none) h = absurd (ground arith)
spec_issuer n (secret_data t d) h = absurd (ground arith)
spec_issuer n (deployment_spec d) h = absurd (ground arith)
spec_issuer n (service_spec d) h = absurd (ground arith)
spec_issuer n (ingress_spec d) h = absurd (ground arith)
spec_issuer n (certificate_spec v d) h = absurd (ground arith)

issuer_named :
    (name : Bytes) (issuer : Object)
    → acme_key_of name (some issuer) ≡ true
    → (labelled name issuer ≡ true)
      × ((email : Bytes) × (issuer.spec
            ≡ issuer_spec email (some (codes "letsencrypt-prod-" ++ name))))
unfolding acme_key_of acme_key_name
issuer_named name issuer h =
    let (l, named) = and_true h in
    (l, spec_issuer (codes "letsencrypt-prod-" ++ name) issuer.spec named)

-- `mine` is what may go, of which the tunnel's objects are some.
module _ (fails : ℕ → Bool) (a : Objects) (name : Bytes) (mine : Kind → Bytes → Object → Type 0)
    (ours : (k : Kind) (n : Bytes) (o : Object) → Owns a name k n o → mine k n o) where
  abbrev pub Safe : (Cluster → Result Error Bool × Cluster) → Type 0
  Safe action = (c : Cluster) → Removes mine c.objects ((action c).1.objects)

  abbrev From : Progress → Type 0
  From p = Removes mine a p.cluster.objects

  pub step-Removes :
      (action : Cluster → Result Error Bool × Cluster) (count : ℕ → Summary → Summary)
      (p : Progress) (b : Objects)
      → Safe action
      → Removes mine b p.cluster.objects
      → Removes mine b (step action count p).cluster.objects
  unfolding step
  step-Removes action count p b safe h = Removes-trans mine h (safe p.cluster)

  safe_if :
      (owned : Object → Bool) (k : Kind) (n : Bytes)
      → ((o : Object) → owned o ≡ true → Owns a name k n o)
      → Safe (delete_if fails owned k n)
  safe_if owned k n allowed c =
      Dropped-Removes mine owned k n (λ o h. ours k n o (allowed o h))
        (delete_if-Dropped fails owned k n c)

  pub safe_labelled : (k : Kind) (n : Bytes) → Safe (delete_if fails (labelled name) k n)
  safe_labelled k n = safe_if (labelled name) k n (λ o h. inl h)

  certified :
      (cert : Option Object) (n : Bytes) (o : Object)
      → WasThere a Kind.certificate name cert
      → secret_owned_by_managed_certificate n o name cert ≡ true
      → ByCertificate a name n o
  unfolding secret_owned_by_managed_certificate labelled
  certified none n o was h = absurd (ground arith)
  certified (some cert) n o was h =
      let (both, mark) = and_true h in
      let (l, named) = and_true both in
      let (domains, spec) = certificate_named cert n named in
      record {
        certificate = cert;
        there = was cert refl;
        ours = l;
        domains = domains;
        names = spec;
        marked = mark;
      }

  pub safe_secret :
      (cert : Option Object) (n : Bytes)
      → WasThere a Kind.certificate name cert
      → Safe (delete_secret_if_owned fails n name cert)
  unfolding delete_secret_if_owned
  safe_secret cert n was =
      safe_if (λ o. labelled name o || secret_owned_by_managed_certificate n o name cert)
        Kind.secret n
        (λ o h. elim (Bool-cases (labelled name o)) [
          | inl l ↦ inl l
          | inr l ↦ inr (refl, inl (certified cert n o was (ground arith)))
        ])

  pub safe_dynamic :
      (dynamic : Bool) (k : Kind)
      → Safe (delete_managed_dynamic_resource_if_exists fails dynamic k name)
  unfolding delete_managed_dynamic_resource_if_exists
  safe_dynamic true k c = safe_labelled k name c
  safe_dynamic false k c = λ k n. inl refl

  issued :
      (issuer : Option Object) (o : Object)
      → WasThere a Kind.issuer name issuer
      → acme_key_of name issuer ≡ true
      → secret_owned_by_managed_issuer o name ≡ true
      → ByIssuer a name (codes "letsencrypt-prod-" ++ name) o
  unfolding acme_key_of
  issued none o was key h = absurd (ground arith)
  issued (some issuer) o was key h =
      let (l, (email, spec)) = issuer_named name issuer key in
      record {
        issuer = issuer;
        there = was issuer refl;
        ours = l;
        email = email;
        names = spec;
        expected = refl;
        belongs = h;
      }

  pub safe_acme_key :
      (issuer : Option Object)
      → WasThere a Kind.issuer name issuer
      → Safe (delete_acme_key_secret fails name issuer)
  unfolding delete_acme_key_secret acme_key_name
  safe_acme_key issuer was c =
      if_elim (λ (r : Result Error Bool × Cluster). Removes mine c.objects (r.1.objects))
        (acme_key_of name issuer)
        (λ key.
          safe_if (λ o. labelled name o || secret_owned_by_managed_issuer o name) Kind.secret
            (codes "letsencrypt-prod-" ++ name)
            (λ o h. elim (Bool-cases (labelled name o)) [
              | inl l ↦ inl l
              | inr l ↦ inr (refl, inr (issued issuer o was key (ground arith)))
            ])
            c)
        (λ other. λ k n. inl refl)

  pub same_get :
      (dynamic : Bool) (k : Kind) (c : Cluster)
      → (get_dynamic_resource fails dynamic k name c).1.objects ≡ c.objects
  unfolding get_dynamic_resource get
  same_get true k c = refl
  same_get false k c = refl

  still_there :
      (k : Kind) (b : Objects) (o : Object)
      → Removes mine a b
      → b k name ≡ some o
      → a k name ≡ some o
  still_there k b o r h = elim (r k name) [ inl same ↦ sym same ∙ h | inr (p, old, m, gone) ↦ cc ]

  get-WasThere :
      (dynamic : Bool) (k : Kind) (c : Cluster)
      → Removes mine a c.objects
      → WasThere a k name (found (get_dynamic_resource fails dynamic k name c).0)
  unfolding get_dynamic_resource get
  get-WasThere true k c r o =
      if_elim (λ (q : Result Error (Option Object)). found q ≡ some o → a k name ≡ some o)
        (fails c.calls) (λ down h. absurd (ground arith))
        (λ fine. λ h. still_there k c.objects o r h)
  get-WasThere false k c r o = λ h. absurd (ground arith)

  core-Removes : (p : Progress) → From p → From (cleanup_core_resources fails name p)
  unfolding cleanup_core_resources delete_deployment_if_owned delete_named_service_if_owned
      delete_ingress_if_owned
  core-Removes p h = step-Removes _ _ _ a (safe_labelled _ _) (
      step-Removes _ _ _ a (safe_labelled _ _) (
        step-Removes _ _ _ a (safe_labelled _ _) (
          step-Removes _ _ _ a (safe_labelled _ _) (
            step-Removes _ _ _ a (safe_labelled _ _) (
              step-Removes _ _ p a
                (safe_secret none (auth_secret_name name) (λ o e. absurd (ground arith))) h)))))

  domain-Removes :
      (dynamic : Bool) (p : Progress)
      → From p
      → From (cleanup_custom_domain_resources fails dynamic name p)
  unfolding cleanup_custom_domain_resources domain_rest
  domain-Removes dynamic p h =
      let first = get_dynamic_resource fails dynamic Kind.certificate name p.cluster in
      let h1 = subst (Removes mine a) (sym (same_get dynamic Kind.certificate p.cluster)) h in
      let h2 = subst (Removes mine a) (sym (same_get dynamic Kind.issuer first.1)) h1 in
      step-Removes _ _ _ a (safe_acme_key _ (get-WasThere dynamic Kind.issuer first.1 h1)) (
        step-Removes _ _ _ a (safe_dynamic dynamic Kind.issuer) (
          step-Removes _ _ _ a
            (safe_secret _ name (get-WasThere dynamic Kind.certificate p.cluster h))
            (step-Removes _ _ _ a (safe_dynamic dynamic Kind.certificate) h2)))

  name-Removes : (dynamic : Bool) (p : Progress) → From p → From (cleanup_name fails dynamic name p)
  unfolding cleanup_name
  name-Removes dynamic p h = core-Removes _ (domain-Removes dynamic p h)

-- Owned by one of the tunnels.
abbrev pub OneOwns : Objects → List Bytes → Kind → Bytes → Object → Type 0
OneOwns a [] k n o = ⊥
OneOwns a (id ∷ ids) k n o =
    ((valid_tunnel_id id ≡ true) × Owns a (tunnel_resource_name id) k n o) ⊎ OneOwns a ids k n o

module _ (fails : ℕ → Bool) (dynamic : Bool) (a : Objects)
    (mine : Kind → Bytes → Object → Type 0) where
  one-Removes :
      (id : Bytes) (seen : List Bytes) (p : Progress)
      → (valid_tunnel_id id ≡ true
          → (k : Kind) (n : Bytes) (o : Object) → Owns a (tunnel_resource_name id) k n o
          → mine k n o)
      → Removes mine a p.cluster.objects
      → Removes mine a ((cleanup_one fails dynamic id seen p).1.cluster.objects)
  unfolding cleanup_one
  one-Removes id seen p ours h =
      let Kept : List Bytes × Progress → Type 0 = λ r. Removes mine a (r.1.cluster.objects) in
      if_elim Kept (str_eq id []) (λ e. h)
        (λ e.
          if_elim Kept (not (valid_tunnel_id id)) (λ invalid. h)
            (λ valid.
              if_elim Kept (any (str_eq id) seen) (λ before. h)
                (λ fresh.
                  name-Removes fails a (tunnel_resource_name id) mine (ours (ground arith)) dynamic
                    p h)))

  from-Removes :
      (seen ids : List Bytes) (p : Progress)
      → ((k : Kind) (n : Bytes) (o : Object) → OneOwns a ids k n o → mine k n o)
      → Removes mine a p.cluster.objects
      → Removes mine a ((cleanup_from fails dynamic seen ids p).cluster.objects)
  unfolding cleanup_from
  from-Removes seen [] p ours h = h
  from-Removes seen (id ∷ ids) p ours h =
      let next = cleanup_one fails dynamic id seen p in
      from-Removes next.0 ids next.1 (λ k n o own. ours k n o (inr own))
        (one-Removes id seen p (λ valid k n o own. ours k n o (inl (valid, own))) h)

-- Whatever calls fail, cleaning up the tunnels of a list creates and changes nothing, and it deletes an
-- object only if it is one of the tunnel's of a valid id of the list: if it has the tunnel's label, or is a
-- secret that the tunnel's labelled certificate names and cert-manager has marked for it, or the one of the
-- expected name that the tunnel's labelled issuer names and that belongs to the issuer, as these were at the
-- start.
pub cleanup_managed-Removes :
    (fails : ℕ → Bool) (dynamic : Bool) (ids : List Bytes) (c : Cluster)
    → Removes
        (OneOwns c.objects ids)
        c.objects
        ((cleanup_managed fails dynamic ids c).cluster.objects)
unfolding cleanup_managed
cleanup_managed-Removes fails dynamic ids c =
    from-Removes fails dynamic c.objects (OneOwns c.objects ids) [] ids _ (λ k n o own. own)
      (λ k n. inl refl)
