-- ===== src/Kubernetes/Apply/Outcome.antt =====
-- pkg/k8s/client.go: what a create or an update of one object does to the cluster.
use sealtun.Prelude.{
  ℕ, ◌+◌, ◌≡◌, ◌≢◌, ◌⊎◌, inl, inr, refl, ◌∙◌, ap, Bool, true, false, List, [], ◌∷◌, Option, none,
  some, Bytes, str_eq, str_eq_refl, Result, ok, err, arith, if_elim,
}
use sealtun.Assoc.{lookup}
use sealtun.AccessPolicy.{Policy}
use sealtun.PublicAuth.{BasicAuth}
use sealtun.Kubernetes.{
  Kind, Object, ServiceSpec, managed_label_matches, managed_label_key, managed_labels,
  auth_secret_name, tcp_service_name,
}
use sealtun.Kubernetes.Cluster.{Cluster, Error, Objects, get, put, set_object}
use sealtun.Kubernetes.Cleanup.{labelled}
use sealtun.Kubernetes.Desired.{
  Encoding, service_object, auth_secret_object, http_service_spec, tcp_service_spec, ingress_object,
  custom_domain_issuer, custom_domain_certificate,
}
use sealtun.Kubernetes.UpToDate.{deployment_up_to_date}
use sealtun.Kubernetes.Apply.{
  AuthSecret, write, answer, apply_found, apply, apply_service, update_found, deployment_found,
  ensure_deployment, secret_found, ensure_auth_secret, merged_service, salt_from, ensure_service,
  ensure_tcp_service, apply_ingress, apply_dynamic_resource,
}

abbrev pub Tagged : Bytes → Object → Type 0
Tagged name o = labelled name o ≡ true

pub managed-Tagged : (name : Bytes) (o : Object) → o.labels ≡ managed_labels name → Tagged name o
unfolding labelled managed_label_matches managed_labels lookup str_eq
managed-Tagged name o e = ap (λ l. managed_label_matches l name) e ∙ str_eq_refl name

-- The server keeps the labels that it is given.
abbrev pub KeepsLabels : (Kind → Object → Object) → Type 0
KeepsLabels admit = (k : Kind) (o : Object) → (admit k o).labels ≡ o.labels

-- Nothing has changed and nothing was created; or a labelled object stands at the place now, where there was
-- none before and it was created, or a labelled one before.
abbrev pub Outcome : Bytes → Kind → Bytes → Objects → Result Error Bool × Cluster → Type 0
Outcome name k n before r =
    ((r.1.objects ≡ before) × (r.0 ≢ ok true))
    ⊎ ((x : Object) × Tagged name x
        × (r.1.objects ≡ set_object k n (some x) before)
        × ((r.0 ≡ ok true)
            ⊎ ((r.0 ≡ ok false) × ((o : Object) × (before k n ≡ some o) × Tagged name o))))

module _ (fails : ℕ → Bool) (admit : Kind → Object → Object) (keeps : KeepsLabels admit)
    (name : Bytes) where
  admit-Tagged : (k : Kind) (o : Object) → Tagged name o → Tagged name (admit k o)
  unfolding labelled
  admit-Tagged k o t = ap (λ l. managed_label_matches l name) (keeps k o) ∙ t

  created-Outcome :
      (k : Kind) (n : Bytes) (x : Object) (c : Cluster)
      → Tagged name x
      → Outcome name k n c.objects (answer fails admit true (write fails admit k n x c))
  unfolding put
  created-Outcome k n x c t =
      if_elim
        (λ (r : Result Error (Unit {0}) × Cluster).
          Outcome name k n c.objects (answer fails admit true r))
        (fails c.calls) (λ down. inl (refl, λ e. cc))
        (λ fine. inr (admit k x, admit-Tagged k x t, refl, inl refl))

  updated-Outcome :
      (k : Kind) (n : Bytes) (x o : Object) (c : Cluster)
      → Tagged name x
      → c.objects k n ≡ some o
      → Tagged name o
      → Outcome name k n c.objects (answer fails admit false (write fails admit k n x c))
  unfolding put
  updated-Outcome k n x o c t h l =
      if_elim
        (λ (r : Result Error (Unit {0}) × Cluster).
          Outcome name k n c.objects (answer fails admit false r))
        (fails c.calls) (λ down. inl (refl, λ e. cc))
        (λ fine. inr (admit k x, admit-Tagged k x t, refl, inr (refl, (o, h, l))))

  abbrev Out : Kind → Bytes → Cluster → Result Error Bool × Cluster → Type 0
  Out k n c r = Outcome name k n c.objects r

  found-Outcome :
      (k : Kind) (n : Bytes) (desired : Object) (merge : Object → Object)
      (up_to_date : Object → Bool) (c : Cluster) (found : Option Object)
      → Tagged name desired
      → ((o : Object) → Tagged name (merge o))
      → c.objects k n ≡ found
      → Out k n c (apply_found fails admit name k n desired merge up_to_date (ok found, c))
  unfolding apply_found
  found-Outcome k n desired merge up_to_date c none t tm h = created-Outcome k n desired c t
  found-Outcome k n desired merge up_to_date c (some o) t tm h =
      if_elim (Out k n c) (labelled name o)
        (λ l.
          if_elim (Out k n c) (up_to_date o) (λ same. inl (refl, λ e. cc))
            (λ other. updated-Outcome k n (merge o) o c (tm o) h l))
        (λ l. inl (refl, λ e. cc))

  pub apply-Outcome :
      (k : Kind) (n : Bytes) (desired : Object) (merge : Object → Object)
      (up_to_date : Object → Bool) (c : Cluster)
      → Tagged name desired
      → ((o : Object) → Tagged name (merge o))
      → Out k n c (apply fails admit name k n desired merge up_to_date c)
  unfolding apply get apply_found
  apply-Outcome k n desired merge up_to_date c t tm =
      let later = record c { calls = c.calls + 1 } in
      if_elim
        (λ (r : Result Error (Option Object)).
          Out k n c (apply_found fails admit name k n desired merge up_to_date (r, later)))
        (fails c.calls) (λ down. inl (refl, λ e. cc))
        (λ fine. found-Outcome k n desired merge up_to_date later (c.objects k n) t tm refl)

  again-Outcome :
      (k : Kind) (n : Bytes) (desired : Object) (up_to_date : Object → Bool) (c : Cluster)
      (found : Option Object)
      → Tagged name desired
      → c.objects k n ≡ found
      → Out k n c
          (update_found fails admit name k n desired up_to_date false (λ o. false) (ok found, c))
  unfolding update_found
  again-Outcome k n desired up_to_date c none t h = inl (refl, λ e. cc)
  again-Outcome k n desired up_to_date c (some o) t h =
      if_elim (Out k n c) (labelled name o)
        (λ l.
          if_elim (Out k n c) (up_to_date o) (λ same. inl (refl, λ e. cc))
            (λ other. updated-Outcome k n desired o c t h l))
        (λ l. inl (refl, λ e. cc))

  update-Outcome :
      (k : Kind) (n : Bytes) (desired : Object) (up_to_date : Object → Bool) (c : Cluster)
      → Tagged name desired
      → Out k n c (
          update_found fails admit name k n desired up_to_date false (λ o. false) (get fails k n c))
  unfolding get update_found
  update-Outcome k n desired up_to_date c t =
      let later = record c { calls = c.calls + 1 } in
      if_elim
        (λ (r : Result Error (Option Object)).
          Out k n c
            (update_found fails admit name k n desired up_to_date false (λ o. false) (r, later)))
        (fails c.calls) (λ down. inl (refl, λ e. cc))
        (λ fine. again-Outcome k n desired up_to_date later (c.objects k n) t refl)

  deployment_found-Outcome :
      (desired : Object) (c : Cluster) (found : Option Object)
      → Tagged name desired
      → c.objects Kind.deployment name ≡ found
      → Out Kind.deployment name c (deployment_found fails admit name desired (ok found, c))
  unfolding deployment_found
  deployment_found-Outcome desired c none t h = created-Outcome Kind.deployment name desired c t
  deployment_found-Outcome desired c (some o) t h =
      if_elim (Out Kind.deployment name c) (labelled name o)
        (λ l.
          if_elim (Out Kind.deployment name c) (deployment_up_to_date desired o)
            (λ same. inl (refl, λ e. cc))
            (λ other.
              update-Outcome Kind.deployment name desired (deployment_up_to_date desired) c t))
        (λ l. inl (refl, λ e. cc))

  pub deployment-Outcome :
      (desired : Object) (c : Cluster)
      → Tagged name desired
      → Out Kind.deployment name c (ensure_deployment fails admit name desired c)
  unfolding ensure_deployment get deployment_found
  deployment-Outcome desired c t =
      let later = record c { calls = c.calls + 1 } in
      if_elim
        (λ (r : Result Error (Option Object)).
          Out Kind.deployment name c (deployment_found fails admit name desired (r, later)))
        (fails c.calls) (λ down. inl (refl, λ e. cc))
        (λ fine. deployment_found-Outcome desired later (c.objects Kind.deployment name) t refl)

pub merged-Tagged :
    (name : Bytes) (spec : ServiceSpec) (o : Object)
    → Tagged name (merged_service (service_object name spec) o)
unfolding merged_service service_object
merged-Tagged name spec o = managed-Tagged name _ refl

ingress-Tagged :
    (name host domain : Bytes) (paths : List Bytes)
    → Tagged name (ingress_object name host domain paths)
unfolding ingress_object labelled managed_label_matches lookup str_eq
ingress-Tagged name host domain paths = str_eq_refl name

-- The label alone.
label-Tagged :
    (name : Bytes) (o : Object) → o.labels ≡ (managed_label_key, name) ∷ [] → Tagged name o
unfolding labelled managed_label_matches lookup str_eq
label-Tagged name o e = ap (λ l. managed_label_matches l name) e ∙ str_eq_refl name

module _ (fails : ℕ → Bool) (admit : Kind → Object → Object) (keeps : KeepsLabels admit)
    (name : Bytes) where
  pub service-Outcome :
      (c : Cluster) → Outcome name Kind.service name c.objects (ensure_service fails admit name c)
  unfolding ensure_service apply_service service_object
  service-Outcome c =
      apply-Outcome fails admit keeps name Kind.service name _ _ _ c (managed-Tagged name _ refl)
        (merged-Tagged name (http_service_spec (managed_labels name)))

  pub tcp-Outcome :
      (c : Cluster)
      → Outcome name Kind.service
          (tcp_service_name name)
          c.objects
          (ensure_tcp_service fails admit name c)
  unfolding ensure_tcp_service apply_service service_object
  tcp-Outcome c =
      apply-Outcome fails admit keeps name Kind.service (tcp_service_name name) _ _ _ c
        (managed-Tagged name _ refl) (merged-Tagged name (tcp_service_spec (managed_labels name)))

  pub ingress-Outcome :
      (host domain : Bytes) (paths : List Bytes) (c : Cluster)
      → Outcome name Kind.ingress name c.objects
          (apply_ingress fails admit name (ingress_object name host domain paths) c)
  unfolding apply_ingress
  ingress-Outcome host domain paths c =
      apply-Outcome fails admit keeps name Kind.ingress name (ingress_object name host domain paths)
        _ _ c (ingress-Tagged name host domain paths) (λ o. ingress-Tagged name host domain paths)

  dynamic-Outcome :
      (k : Kind) (x : Object) (c : Cluster)
      → Tagged name x
      → Outcome name k name c.objects (apply_dynamic_resource fails admit k name x c)
  unfolding apply_dynamic_resource
  dynamic-Outcome k x c t =
      apply-Outcome fails admit keeps name k name x (λ o. x) (λ o. false) c t (λ o. t)

  pub issuer-Outcome :
      (email : Bytes) (c : Cluster)
      → Outcome name Kind.issuer name c.objects
          (apply_dynamic_resource fails admit Kind.issuer name (custom_domain_issuer email name) c)
  unfolding custom_domain_issuer
  issuer-Outcome email c = dynamic-Outcome Kind.issuer _ c (label-Tagged name _ refl)

  pub certificate-Outcome :
      (domain : Bytes) (c : Cluster)
      → Outcome name Kind.certificate name c.objects (
          apply_dynamic_resource fails admit Kind.certificate name
            (custom_domain_certificate name domain)
            c)
  unfolding custom_domain_certificate
  certificate-Outcome domain c = dynamic-Outcome Kind.certificate _ c (label-Tagged name _ refl)

-- The namespace holds nothing with the tunnel's label.
abbrev pub IsFresh : Bytes → Objects → Type 0
IsFresh name objects =
    (k : Kind) (n : Bytes) (o : Object) → objects k n ≡ some o → labelled name o ≡ false

-- In such a namespace the secret is created, or nothing changes and an error is returned.
abbrev pub FirstSecret : Bytes → Objects → Result Error AuthSecret × Cluster → Type 0
FirstSecret name before r =
    ((r.1.objects ≡ before) × ((e : Error) × (r.0 ≡ err e)))
    ⊎ ((x : Object) × Tagged name x
        × (r.1.objects ≡ set_object Kind.secret (auth_secret_name name) (some x) before)
        × ((salt : Bytes) × (r.0 ≡ ok (record { created = true; rollback = none; salt = salt }))))

module _ (fails : ℕ → Bool) (admit : Kind → Object → Object) (keeps : KeepsLabels admit)
    (name : Bytes) where
  secret-Tagged :
      (encoding : Encoding) (secret salt : Bytes) (basic : Option BasicAuth)
      (policy : Option Policy)
      → Tagged name (auth_secret_object encoding name secret salt basic policy)
  unfolding auth_secret_object
  secret-Tagged encoding secret salt basic policy = managed-Tagged name _ refl

  first-found :
      (salt : Bytes) (desired : Object) (c : Cluster) (found : Option Object)
      → Tagged name desired
      → IsFresh name c.objects
      → c.objects Kind.secret (auth_secret_name name) ≡ found
      → FirstSecret name c.objects (secret_found fails admit name salt desired (ok found, c))
  unfolding secret_found put
  first-found salt desired c none t fresh h =
      if_elim
        (λ (r : Result Error (Unit {0}) × Cluster).
          FirstSecret name c.objects
            (answer fails admit (record { created = true; rollback = none; salt = salt }) r))
        (fails c.calls) (λ down. inl (refl, (_, refl)))
        (λ fine. inr (
          admit Kind.secret desired,
          admit-Tagged fails admit keeps name Kind.secret desired t,
          refl,
          (salt, refl),
        ))
  first-found salt desired c (some o) t fresh h =
      if_elim (λ (r : Result Error AuthSecret × Cluster). FirstSecret name c.objects r)
        (labelled name o)
        (λ l. absurd (ground (arith, fresh Kind.secret (auth_secret_name name) o h)))
        (λ l. inl (refl, (_, refl)))

  pub first_secret :
      (encoding : Encoding) (salt secret : Bytes) (basic : Option BasicAuth)
      (policy : Option Policy) (c : Cluster)
      → IsFresh name c.objects
      → FirstSecret name c.objects
          (ensure_auth_secret fails admit encoding salt name secret basic policy c)
  unfolding ensure_auth_secret get secret_found
  first_secret encoding salt secret basic policy c fresh =
      let later = record c { calls = c.calls + 1 } in
      if_elim
        (λ (r : Result Error (Option Object)). FirstSecret name c.objects (
          secret_found fails admit name (salt_from fails admit salt r)
            (auth_secret_object encoding name secret (salt_from fails admit salt r) basic policy)
            (r, later)))
        (fails c.calls) (λ down. inl (refl, (_, refl)))
        (λ fine.
          first-found _ _ later (c.objects Kind.secret (auth_secret_name name))
            (secret-Tagged encoding secret _ basic policy) fresh refl)
