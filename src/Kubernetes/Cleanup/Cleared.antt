-- ===== src/Kubernetes/Cleanup/Cleared.antt =====
-- pkg/k8s/client.go: what is left of a tunnel when its cleanup succeeds.
use mathlib.Core.Path.{subst}
use sealtun.Prelude.{
  ℕ, ◌≡◌, inl, inr, refl, ◌∙◌, sym, ap, Bool, true, false, ◌&&◌, ◌||◌, List, [], ◌∷◌, ◌++◌, Option,
  none, some, Bytes, codes, Result, ok, err, arith, if_elim, All,
}
use sealtun.Kubernetes.{
  Kind, Object, tunnel_resource_name, auth_secret_name, tcp_service_name, valid_tunnel_id,
  secret_owned_by_managed_issuer, secret_owned_by_managed_certificate,
}
use sealtun.Kubernetes.Cluster.{Cluster, Error, Objects, get}
use sealtun.Kubernetes.Cleanup.{
  domain_rest, Progress, Summary, none_deleted, first_error, noted, found, tally, labelled,
  delete_if, delete_secret_if_owned, delete_deployment_if_owned, delete_named_service_if_owned,
  delete_ingress_if_owned, get_dynamic_resource, delete_managed_dynamic_resource_if_exists,
  delete_acme_key_secret, acme_key_name, acme_key_of, step, cleanup_core_resources,
  cleanup_custom_domain_resources, cleanup_name, cleanup_tunnel,
}
use sealtun.Kubernetes.Cleanup.Deletion.{delete_if-Dropped, delete_if-Swept}
use sealtun.Kubernetes.Cleanup.Owned.{Removes, Dropped-Removes}

-- A kind and a name, and which object there a cleanup is to delete.
abbrev pub Target : Type 0
Target = Kind × (Bytes × (Object → Bool))

-- The secret of the tunnel's certificate: labelled, or of the certificate if that is labelled and names the secret.
abbrev pub certified_secret : Bytes → Option Object → Object → Bool
certified_secret name cert o =
    labelled name o || secret_owned_by_managed_certificate name o name cert

-- The account key, where the issuer is labelled and names it.
abbrev pub key_of : Bytes → Option Object → Object → Bool
key_of name issuer o =
    acme_key_of name issuer && (labelled name o || secret_owned_by_managed_issuer o name)

abbrev core_targets : Bytes → List Target
core_targets name =
    (Kind.ingress, (name ++ codes "-app", labelled name))
    ∷ (Kind.ingress, (name, labelled name))
    ∷ (Kind.service, (tcp_service_name name, labelled name))
    ∷ (Kind.service, (name, labelled name))
    ∷ (Kind.deployment, (name, labelled name))
    ∷ (Kind.secret, (auth_secret_name name, labelled name))
    ∷ []

abbrev named_targets : Bytes → (cert issuer : Option Object) → List Target
named_targets name cert issuer =
    (Kind.secret, (acme_key_name name, key_of name issuer))
    ∷ (Kind.issuer, (name, labelled name))
    ∷ (Kind.secret, (name, certified_secret name cert))
    ∷ (Kind.certificate, (name, labelled name))
    ∷ []

-- The secrets of cert-manager are to go with the certificate and the issuer as they were at the start.
abbrev domain_targets : (dynamic : Bool) → Objects → Bytes → List Target
domain_targets true a name = named_targets name (a Kind.certificate name) (a Kind.issuer name)
domain_targets false a name = (Kind.secret, (name, labelled name)) ∷ []

-- All that a tunnel keeps.
abbrev pub targets : (dynamic : Bool) → Objects → Bytes → List Target
targets dynamic a name = core_targets name ++ domain_targets dynamic a name

-- No object that is to go is left there.
abbrev pub Gone : Objects → Target → Type 0
Gone objects (k, (n, goes)) = (o : Object) → objects k n ≡ some o → goes o ≡ false

-- Nothing is required of what goes.
abbrev Any : Kind → Bytes → Object → Type 0
Any k n o = Unit {0}

module _ (fails : ℕ → Bool) (up : (i : ℕ) → fails i ≡ false) (name : Bytes) where
  record Done (ts : List Target) (p : Progress) : Type 0 where
    outcome_ok : p.outcome ≡ ok tt
    gone : All (Gone p.cluster.objects) ts

  abbrev Safe : (Cluster → Result Error Bool × Cluster) → Type 0
  Safe action = (c : Cluster) → Removes Any c.objects ((action c).1.objects)

  safe_delete : (owned : Object → Bool) (k : Kind) (n : Bytes) → Safe (delete_if fails owned k n)
  safe_delete owned k n c =
      Dropped-Removes Any owned k n (λ o h. tt) (delete_if-Dropped fails owned k n c)

  kept : {a b : Objects} (ts : List Target) → Removes Any a b → All (Gone a) ts → All (Gone b) ts
  kept [] r h = tt
  kept ((k, (n, goes)) ∷ ts) r h = (
    (λ o e. elim (r k n) [ inl same ↦ h.0 o (sym same ∙ e) | inr (q, old, m, none_left) ↦ cc ]),
    kept ts r h.1,
  )

  first_ok :
      (r : Result Error (Unit {0})) (q : Result Error Bool) (b : Bool)
      → r ≡ ok tt
      → q ≡ ok b
      → first_error r q ≡ ok tt
  first_ok (ok tt) (ok d) b h e = refl
  first_ok (ok tt) (err x) b h e = cc
  first_ok (err x) q b h e = cc

  keep :
      (action : Cluster → Result Error Bool × Cluster) (count : ℕ → Summary → Summary)
      (p : Progress) (ts : List Target)
      → Safe action
      → ((c : Cluster) → (b : Bool) × ((action c).0 ≡ ok b))
      → Done ts p
      → Done ts (step action count p)
  unfolding step
  keep action count p ts safe fine d =
      let (b, e) = fine p.cluster in
      record {
        outcome_ok = first_ok p.outcome (action p.cluster).0 b d.outcome_ok e;
        gone = kept ts (safe p.cluster) d.gone;
      }

  sweep :
      (count : ℕ → Summary → Summary) (k : Kind) (n : Bytes) (p : Progress) (ts : List Target)
      (owned goes : Object → Bool)
      → ((o : Object) → owned o ≡ false → goes o ≡ false)
      → Done ts p
      → Done ((k, (n, goes)) ∷ ts) (step (delete_if fails owned k n) count p)
  unfolding step
  sweep count k n p ts owned goes f d =
      let swept = delete_if-Swept fails owned k n up in
      let later =
        keep (delete_if fails owned k n) count p ts (safe_delete owned k n) (λ c. (swept c).0) d in
      record {
        outcome_ok = later.outcome_ok;
        gone = ((λ o there. f o ((swept p.cluster).1 o there)), later.gone);
      }

  sweep_labelled :
      (count : ℕ → Summary → Summary) (k : Kind) (n : Bytes) (p : Progress) (ts : List Target)
      → Done ts p
      → Done ((k, (n, labelled name)) ∷ ts) (step (delete_if fails (labelled name) k n) count p)
  sweep_labelled count k n p ts = sweep count k n p ts (labelled name) (labelled name) (λ o h. h)

  core-Done :
      (ts : List Target) (p : Progress)
      → Done ts p
      → Done (core_targets name ++ ts) (cleanup_core_resources fails name p)
  unfolding cleanup_core_resources delete_secret_if_owned delete_deployment_if_owned
      delete_named_service_if_owned delete_ingress_if_owned
  core-Done ts p d = sweep_labelled _ _ _ _ _ (
      sweep_labelled _ _ _ _ _ (
        sweep_labelled _ _ _ _ _ (
          sweep_labelled _ _ _ _ _ (
            sweep_labelled _ _ _ _ _
              (sweep _ Kind.secret (auth_secret_name name) p ts _ _ (λ o h. ground arith) d)))))

  get-ok :
      (k : Kind) (c : Cluster)
      → (get_dynamic_resource fails true k name c).0 ≡ ok (c.objects k name)
  unfolding get_dynamic_resource get
  get-ok k c = ground (arith, up c.calls)

  get-none :
      (k : Kind) (c : Cluster) → noted (get_dynamic_resource fails false k name c).0 ≡ ok false
  unfolding get_dynamic_resource
  get-none k c = refl

  get-same :
      (k : Kind) (c : Cluster) → (get_dynamic_resource fails true k name c).1.objects ≡ c.objects
  unfolding get_dynamic_resource get
  get-same k c = refl

  rest-Done : (t : Target) (ts : List Target) (p : Progress) → Done (t ∷ ts) p → Done ts p
  rest-Done t ts p d = record { outcome_ok = d.outcome_ok; gone = d.gone.1 }

  -- A step that asks for nothing.
  idle :
      (count : ℕ → Summary → Summary) (p : Progress) (ts : List Target)
      → Done ts p
      → Done ts (step (λ c. (ok false, c)) count p)
  idle count p ts d = keep _ count p ts (λ c k n. inl refl) (λ c. (false, refl)) d

  key-Done :
      (issuer : Option Object) (p : Progress) (ts : List Target) (count : ℕ → Summary → Summary)
      → Done ts p
      → Done
          ((Kind.secret, (acme_key_name name, key_of name issuer)) ∷ ts)
          (step (delete_acme_key_secret fails name issuer) count p)
  unfolding delete_acme_key_secret step
  key-Done issuer p ts count d =
      if_elim
        (λ (r : Result Error Bool × Cluster).
          Done ((Kind.secret, (acme_key_name name, key_of name issuer)) ∷ ts) (record {
            cluster = r.1;
            summary = count (tally r.0) p.summary;
            outcome = first_error p.outcome r.0;
          }))
        (acme_key_of name issuer)
        (λ key.
          sweep count Kind.secret (acme_key_name name) p ts _ _ (λ o h. ground (arith, key)) d)
        (λ other.
          let later = idle count p ts d in
          record {
            outcome_ok = later.outcome_ok;
            gone = ((λ o there. ground (arith, other)), later.gone);
          })

  steps-Done :
      (cert issuer : Option Object) (p : Progress)
      → p.outcome ≡ ok tt
      → Done (named_targets name cert issuer) (domain_rest fails true name cert issuer p)
  unfolding domain_rest delete_secret_if_owned delete_managed_dynamic_resource_if_exists
  steps-Done cert issuer p e = key-Done issuer _ _ _ (
      sweep_labelled _ _ _ _ _ (
        sweep _ _ _ _ _ _ _ (λ o h. h)
          (sweep_labelled _ _ _ _ _ (record { outcome_ok = e; gone = tt }))))

  domain-Done :
      (dynamic : Bool) (p : Progress)
      → p.outcome ≡ ok tt
      → Done
          (domain_targets dynamic p.cluster.objects name)
          (cleanup_custom_domain_resources fails dynamic name p)
  unfolding cleanup_custom_domain_resources delete_secret_if_owned
      delete_managed_dynamic_resource_if_exists get_dynamic_resource domain_rest
  domain-Done true p e =
      let first = get_dynamic_resource fails true Kind.certificate name p.cluster in
      let second = get_dynamic_resource fails true Kind.issuer name first.1 in
      let read =
        first_ok _ _ false
          (first_ok p.outcome _ false e (ap noted (get-ok Kind.certificate p.cluster)))
          (ap noted (get-ok Kind.issuer first.1)) in
      let cert_read : found first.0 ≡ p.cluster.objects Kind.certificate name =
        ap found (get-ok Kind.certificate p.cluster) in
      let issuer_read : found second.0 ≡ p.cluster.objects Kind.issuer name =
        ap found (get-ok Kind.issuer first.1)
        ∙ ap (λ f. f Kind.issuer name) (get-same Kind.certificate p.cluster) in
      subst
        (λ i.
          Done (named_targets name (p.cluster.objects Kind.certificate name) i)
            (cleanup_custom_domain_resources fails true name p))
        issuer_read
        (subst
          (λ x.
            Done (named_targets name x (found second.0))
              (cleanup_custom_domain_resources fails true name p))
          cert_read (steps-Done (found first.0) (found second.0) _ read))
  domain-Done false p e = rest-Done _ _ _ (
      key-Done none _ _ _ (
        idle _ _ _ (
          sweep _ _ _ _ _ _ _ (λ o h. ground arith)
            (idle _ _ _ (record {
              outcome_ok =
                  first_ok _ (ok false) false (first_ok p.outcome (ok false) false e refl) refl;
              gone = tt;
            })))))

-- Where no call fails, cleaning up the tunnel of a valid id succeeds, and nothing of the tunnel is left: under
-- the names of its objects no object with its label; and where there is a client for dynamic resources, no
-- secret of the certificate, if that was labelled and named it, and no account key of the issuer, if that was
-- labelled and named it, that cert-manager had marked for them.
pub cleanup_tunnel-Gone :
    (fails : ℕ → Bool)
    → ((i : ℕ) → fails i ≡ false)
    → (dynamic : Bool) (id : Bytes) (c : Cluster) → valid_tunnel_id id ≡ true
    → ((cleanup_tunnel fails dynamic id c).0 ≡ ok tt)
      × All
          (Gone ((cleanup_tunnel fails dynamic id c).1.objects))
          (targets dynamic c.objects (tunnel_resource_name id))
unfolding cleanup_tunnel cleanup_name
cleanup_tunnel-Gone fails up dynamic id c valid =
    let name = tunnel_resource_name id in
    let done = core-Done fails up name _ _ (
      domain-Done fails up name dynamic
        (record { cluster = c; summary = none_deleted; outcome = ok tt }) refl) in
    if_elim
      (λ (r : Result Error (Unit {0}) × Cluster).
        (r.0 ≡ ok tt) × All (Gone r.1.objects) (targets dynamic c.objects name))
      (valid_tunnel_id id) (λ yes. (done.outcome_ok, done.gone)) (λ no. ground arith)
