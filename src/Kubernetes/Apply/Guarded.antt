-- ===== src/Kubernetes/Apply/Guarded.antt =====
-- pkg/k8s/client.go: an object that is not managed is left as it is by each call on one object.
use sealtun.Prelude.{
  ℕ, ◌+◌, ◌≡◌, inl, inr, refl, ◌∙◌, sym, ap, ap₂, Bool, true, false, not, ◌&&◌, Option, none, some,
  Bytes, Result, ok, err, arith, if_elim,
}
use sealtun.AccessPolicy.{Policy}
use sealtun.PublicAuth.{BasicAuth}
use sealtun.Kubernetes.{Kind, Object, auth_secret_name}
use sealtun.Kubernetes.Cluster.{Cluster, Error, Objects, get, put, set_object, set_object_cases}
use sealtun.Kubernetes.Cleanup.{
  labelled, delete_if, delete_named_service_if_owned, get_dynamic_resource,
}
use sealtun.Kubernetes.Cleanup.Deletion.{Dropped, delete_if-Dropped}
use sealtun.Kubernetes.Desired.{Encoding, auth_secret_object}
use sealtun.Kubernetes.UpToDate.{auth_secret_up_to_date, deployment_up_to_date}
use sealtun.Kubernetes.Apply.{
  apply_dynamic_resource, AuthSecret, AuthSecretRollback, write, answer, apply_found, apply,
  update_found, deployment_found, ensure_deployment, secret_found, ensure_auth_secret,
  restore_found, restore_auth_secret, dynamic_found, restore_dynamic_resource, salt_from,
}

-- What is there and not labelled with the name stays as it is.
abbrev pub Protects : Bytes → Objects → Objects → Type 0
Protects name before after =
    (k : Kind) (n : Bytes) (o : Object)
    → before k n ≡ some o
    → labelled name o ≡ false
    → after k n ≡ some o

-- A place with no object, or with a labelled one.
abbrev pub Ours : Bytes → Objects → Kind → Bytes → Type 0
Ours name objects k n = (o : Object) → objects k n ≡ some o → labelled name o ≡ true

module _ (name : Bytes) where
  pub Protects-trans : {a b c : Objects} → Protects name a b → Protects name b c → Protects name a c
  Protects-trans f g k n o h u = g k n o (f k n o h u) u

  set-Protects :
      (k : Kind) (n : Bytes) (x : Option Object) (a : Objects)
      → Ours name a k n
      → Protects name a (set_object k n x a)
  set-Protects k n x a ours j m o h u = elim (set_object_cases k n x a j m) [
    | inl (ek, em, e) ↦ ground (arith, ours o (sym (ap₂ a ek em) ∙ h))
    | inr same ↦ same ∙ h
  ]

  Dropped-Protects :
      (owned : Object → Bool) (k : Kind) (n : Bytes) {a b : Objects}
      → ((o : Object) → owned o ≡ true → labelled name o ≡ true)
      → Dropped owned k n a b
      → Protects name a b
  Dropped-Protects owned k n {a} mine d j m o h u = elim d [
    | inl e ↦ ap (λ f. f j m) e ∙ h
    | inr (p, there, own, e) ↦
        ap (λ f. f j m) e ∙ set-Protects k n none a (λ q at. ground (arith, mine p own)) j m o h u
  ]

module _ (fails : ℕ → Bool) (admit : Kind → Object → Object) (name : Bytes) where
  abbrev pub Careful : {A : Type 0} → Objects → Result Error A × Cluster → Type 0
  Careful a r = Protects name a (r.1.objects)

  pub put-Careful :
      (k : Kind) (n : Bytes) (x : Option Object) (c : Cluster)
      → Ours name c.objects k n
      → Careful c.objects (put fails k n x c)
  unfolding put
  put-Careful k n x c ours =
      if_elim (λ (r : Result Error (Unit {0}) × Cluster). Careful c.objects r) (fails c.calls)
        (λ down j m o h u. h) (λ fine. set-Protects name k n x c.objects ours)

  -- A place that holds `o` is ours where `o` is labelled.
  place-Ours :
      (k : Kind) (n : Bytes) (a : Objects) (o : Object)
      → a k n ≡ some o
      → labelled name o ≡ true
      → Ours name a k n
  place-Ours k n a o h l q at = ground arith

  answer-Careful :
      {A : Type 0} (b : A) (k : Kind) (n : Bytes) (x : Object) (c : Cluster)
      → Ours name c.objects k n
      → Careful c.objects (answer fails admit b (write fails admit k n x c))
  unfolding put
  answer-Careful b k n x c ours =
      if_elim
        (λ (r : Result Error (Unit {0}) × Cluster). Careful c.objects (answer fails admit b r))
        (fails c.calls) (λ down j m o h u. h)
        (λ fine. set-Protects name k n (some (admit k x)) c.objects ours)

  found-Careful :
      (k : Kind) (n : Bytes) (desired : Object) (merge : Object → Object)
      (up_to_date : Object → Bool) (c : Cluster) (found : Option Object)
      → c.objects k n ≡ found
      → Careful c.objects (apply_found fails admit name k n desired merge up_to_date (ok found, c))
  unfolding apply_found
  found-Careful k n desired merge up_to_date c none h =
      answer-Careful true k n desired c (λ o e. cc)
  found-Careful k n desired merge up_to_date c (some o) h =
      if_elim (λ (r : Result Error Bool × Cluster). Careful c.objects r) (labelled name o)
        (λ l.
          if_elim (λ (r : Result Error Bool × Cluster). Careful c.objects r) (up_to_date o)
            (λ same j m p e u. e)
            (λ other. answer-Careful false k n (merge o) c (place-Ours k n c.objects o h l)))
        (λ l j m p e u. e)

  -- After a call of `get`, what is done with the answer.
  after_get :
      {A : Type 0} (k : Kind) (n : Bytes)
      (next : Result Error (Option Object) × Cluster → Result Error A × Cluster) (c : Cluster)
      → ((e : Error) (c1 : Cluster) → Careful c1.objects (next (err e, c1)))
      → ((c1 : Cluster) (found : Option Object)
          → c1.objects k n ≡ found
          → Careful c1.objects (next (ok found, c1)))
      → Careful c.objects (next (get fails k n c))
  unfolding get
  after_get {A} k n next c failed answered =
      let later = record c { calls = c.calls + 1 } in
      if_elim (λ (r : Result Error (Option Object)). Careful c.objects (next (r, later)))
        (fails c.calls) (λ down. failed _ later) (λ fine. answered later (c.objects k n) refl)

  pub apply-Careful :
      (k : Kind) (n : Bytes) (desired : Object) (merge : Object → Object)
      (up_to_date : Object → Bool) (c : Cluster)
      → Careful c.objects (apply fails admit name k n desired merge up_to_date c)
  unfolding apply apply_found
  apply-Careful k n desired merge up_to_date c =
      after_get k n (apply_found fails admit name k n desired merge up_to_date) c
        (λ e c1 j m o h u. h) (λ c1 found h. found-Careful k n desired merge up_to_date c1 found h)

  update-Careful :
      {A : Type 0} (k : Kind) (n : Bytes) (desired : Object) (up_to_date : Object → Bool) (same : A)
      (updated : Object → A) (c : Cluster)
      → Careful c.objects
          (update_found fails admit name k n desired up_to_date same updated (get fails k n c))
  unfolding update_found
  update-Careful {A} k n desired up_to_date same updated c =
      after_get k n (update_found fails admit name k n desired up_to_date same updated) c
        (λ e c1 j m o h u. h) (λ c1 found. go c1 found)
    where
      go :
          (c1 : Cluster) (found : Option Object)
          → c1.objects k n ≡ found
          → Careful c1.objects
              (update_found fails admit name k n desired up_to_date same updated (ok found, c1))
      go c1 none h = λ j m o e u. e
      go c1 (some o) h =
          if_elim (λ (r : Result Error A × Cluster). Careful c1.objects r) (labelled name o)
            (λ l.
              if_elim (λ (r : Result Error A × Cluster). Careful c1.objects r) (up_to_date o)
                (λ e j m p h' u. h')
                (λ other.
                  answer-Careful (updated o) k n desired c1 (place-Ours k n c1.objects o h l)))
            (λ l j m p e u. e)

  pub deployment-Careful :
      (desired : Object) (c : Cluster)
      → Careful c.objects (ensure_deployment fails admit name desired c)
  unfolding ensure_deployment deployment_found
  deployment-Careful desired c =
      after_get Kind.deployment name (deployment_found fails admit name desired) c
        (λ e c1 j m o h u. h) (λ c1 found. go c1 found)
    where
      go :
          (c1 : Cluster) (found : Option Object)
          → c1.objects Kind.deployment name ≡ found
          → Careful c1.objects (deployment_found fails admit name desired (ok found, c1))
      go c1 none h = answer-Careful true Kind.deployment name desired c1 (λ o e. cc)
      go c1 (some o) h =
          if_elim (λ (r : Result Error Bool × Cluster). Careful c1.objects r) (labelled name o)
            (λ l.
              if_elim (λ (r : Result Error Bool × Cluster). Careful c1.objects r)
                (deployment_up_to_date desired o) (λ e j m p h' u. h')
                (λ other.
                  update-Careful Kind.deployment name desired (deployment_up_to_date desired) false
                    (λ o. false) c1))
            (λ l j m p e u. e)

  secret_found-Careful :
      (salt : Bytes) (desired : Object) (c1 : Cluster) (found : Option Object)
      → c1.objects Kind.secret (auth_secret_name name) ≡ found
      → Careful c1.objects (secret_found fails admit name salt desired (ok found, c1))
  unfolding secret_found
  secret_found-Careful salt desired c1 none h =
      answer-Careful _ Kind.secret (auth_secret_name name) desired c1 (λ o e. cc)
  secret_found-Careful salt desired c1 (some o) h =
      if_elim (λ (r : Result Error AuthSecret × Cluster). Careful c1.objects r) (labelled name o)
        (λ l.
          if_elim (λ (r : Result Error AuthSecret × Cluster). Careful c1.objects r)
            (auth_secret_up_to_date desired o) (λ e j m p h' u. h')
            (λ other.
              update-Careful Kind.secret (auth_secret_name name) desired
                (auth_secret_up_to_date desired) _ _ c1))
        (λ l j m p e u. e)

  pub auth_secret-Careful :
      (encoding : Encoding) (fresh secret : Bytes) (basic : Option BasicAuth)
      (policy : Option Policy) (c : Cluster)
      → Careful c.objects (ensure_auth_secret fails admit encoding fresh name secret basic policy c)
  unfolding ensure_auth_secret secret_found
  auth_secret-Careful encoding fresh secret basic policy c =
      after_get Kind.secret (auth_secret_name name)
        (λ r.
          secret_found fails admit name (salt_from fails admit fresh r.0)
            (auth_secret_object encoding name secret (salt_from fails admit fresh r.0) basic policy)
            r)
        c (λ e c1 j m o h u. h) (λ c1 found. secret_found-Careful _ _ c1 found)

  pub restore_secret-Careful :
      (rollback : Option AuthSecretRollback) (c : Cluster)
      → Careful c.objects (restore_auth_secret fails admit name rollback c)
  unfolding restore_auth_secret restore_found
  restore_secret-Careful none c = λ j m o h u. h
  restore_secret-Careful (some rollback) c =
      after_get Kind.secret (auth_secret_name name) (restore_found fails admit name rollback) c
        (λ e c1 j m o h u. h) (λ c1 found. go c1 found)
    where
      go :
          (c1 : Cluster) (found : Option Object)
          → c1.objects Kind.secret (auth_secret_name name) ≡ found
          → Careful c1.objects (restore_found fails admit name rollback (ok found, c1))
      go c1 none h = λ j m o e u. e
      go c1 (some o) h =
          if_elim (λ (r : Result Error (Unit {0}) × Cluster). Careful c1.objects r)
            (not (labelled name o)) (λ l j m p e u. e)
            (λ l.
              if_elim (λ (r : Result Error (Unit {0}) × Cluster). Careful c1.objects r)
                (auth_secret_up_to_date rollback.applied o)
                (λ same.
                  put-Careful Kind.secret (auth_secret_name name) _ c1
                    (place-Ours _ _ c1.objects o h (ground arith)))
                (λ e j m p h' u. h'))

  dynamic_found-Careful :
      (k : Kind) (snapshot : Option Object) (c1 : Cluster) (found : Option Object)
      → c1.objects k name ≡ found
      → Careful c1.objects (dynamic_found fails admit k name snapshot (ok found, c1))
  unfolding dynamic_found
  dynamic_found-Careful k none c1 none h = λ j m o e u. e
  dynamic_found-Careful k none c1 (some o) h =
      if_elim (λ (r : Result Error (Unit {0}) × Cluster). Careful c1.objects r) (labelled name o)
        (λ l. put-Careful k name none c1 (place-Ours k name c1.objects o h l)) (λ l j m p e u. e)
  dynamic_found-Careful k (some s) c1 none h =
      if_elim (λ (r : Result Error (Unit {0}) × Cluster). Careful c1.objects r) (labelled name s)
        (λ l. put-Careful k name _ c1 (λ o e. cc)) (λ l j m p e u. e)
  dynamic_found-Careful k (some s) c1 (some o) h =
      if_elim (λ (r : Result Error (Unit {0}) × Cluster). Careful c1.objects r)
        (labelled name s && labelled name o)
        (λ l. put-Careful k name _ c1 (place-Ours k name c1.objects o h (ground arith)))
        (λ l j m p e u. e)

  pub restore_dynamic-Careful :
      (dynamic : Bool) (k : Kind) (snapshot : Option Object) (c : Cluster)
      → Careful c.objects (restore_dynamic_resource fails admit dynamic k name snapshot c)
  unfolding restore_dynamic_resource dynamic_found
  restore_dynamic-Careful false k snapshot c = λ j m o h u. h
  restore_dynamic-Careful true k none c =
      after_get k name (dynamic_found fails admit k name none) c (λ e c1 j m o h u. h)
        (dynamic_found-Careful k none)
  restore_dynamic-Careful true k (some s) c =
      after_get k name (dynamic_found fails admit k name (some s)) c (λ e c1 j m o h u. h)
        (dynamic_found-Careful k (some s))

  pub get_dynamic-Careful :
      (dynamic : Bool) (k : Kind) (c : Cluster)
      → Careful c.objects (get_dynamic_resource fails dynamic k name c)
  unfolding get_dynamic_resource get
  get_dynamic-Careful true k c = λ j m o h u. h
  get_dynamic-Careful false k c = λ j m o h u. h

  pub delete-Careful :
      (owned : Object → Bool) (k : Kind) (n : Bytes) (c : Cluster)
      → ((o : Object) → owned o ≡ true → labelled name o ≡ true)
      → Careful c.objects (delete_if fails owned k n c)
  delete-Careful owned k n c mine =
      Dropped-Protects name owned k n mine (delete_if-Dropped fails owned k n c)

  pub service_deletion-Careful :
      (n owner : Bytes) (c : Cluster)
      → owner ≡ name
      → Careful c.objects (delete_named_service_if_owned fails n owner c)
  unfolding delete_named_service_if_owned
  service_deletion-Careful n owner c e =
      delete-Careful (labelled owner) Kind.service n c (λ o h. ap (λ m. labelled m o) (sym e) ∙ h)

  pub dynamic-Careful :
      (k : Kind) (resource : Object) (c : Cluster)
      → Careful c.objects (apply_dynamic_resource fails admit k name resource c)
  unfolding apply_dynamic_resource
  dynamic-Careful k resource c = apply-Careful k name resource (λ o. resource) (λ o. false) c
