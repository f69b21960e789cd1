-- ===== src/Kubernetes/Apply/Created.antt =====
-- pkg/k8s/client.go: deleting what a failed operation had created.
use mathlib.Core.List.{reverse-cons}
use mathlib.Core.Path.{subst}
use sealtun.Prelude.{
  ◌++◌, some, ℕ, ◌≡◌, ◌⊎◌, inl, inr, refl, ◌∙◌, sym, ap, Bool, true, false, ◌||◌, List, [], ◌∷◌,
  none, Bytes, codes, Result, ok, err, arith, reverse, All, All-reverse,
}
use sealtun.Text.{trim_suffix}
use sealtun.Text.Affix.{trim_suffix-append}
use sealtun.Kubernetes.{
  Kind, Object, auth_secret_name, tcp_service_name, secret_owned_by_managed_certificate,
}
use sealtun.Kubernetes.Cluster.{Cluster, Error, Objects, set_object, set_object_cases}
use sealtun.Kubernetes.Cleanup.Deletion.{Dropped, delete_if-Dropped, delete_if-Swept}
use sealtun.Kubernetes.Cleanup.{
  labelled, delete_if, delete_secret_if_owned, delete_deployment_if_owned,
  delete_named_service_if_owned, delete_ingress_if_owned, delete_managed_dynamic_resource_if_exists,
}
use sealtun.Kubernetes.Apply.{
  ResourceKind, CreatedResource, resource_deployment, resource_service, resource_tcp_service,
  resource_ingress, resource_issuer, resource_certificate, resource_secret, delete_created,
  delete_all, go_on, cleanup_created,
}
use sealtun.Kubernetes.Apply.Guarded.{Protects-trans, Careful, delete-Careful}

-- The kind of the object, and the name that a tunnel gives it.
abbrev pub place : (name : Bytes) → ResourceKind → Kind × Bytes
place name resource_deployment = (Kind.deployment, name)
place name resource_service = (Kind.service, name)
place name resource_tcp_service = (Kind.service, tcp_service_name name)
place name resource_ingress = (Kind.ingress, name)
place name resource_issuer = (Kind.issuer, name)
place name resource_certificate = (Kind.certificate, name)
place name resource_secret = (Kind.secret, auth_secret_name name)

abbrev pub IsOwn : Bytes → CreatedResource → Type 0
IsOwn name r = r.name ≡ (place name r.kind).1

-- The kinds that a rollback deletes whether or not there is a client for dynamic resources.
abbrev pub is_core : ResourceKind → Bool
is_core resource_issuer = false
is_core resource_certificate = false
is_core _ = true

abbrev pub Listed : ResourceKind → List CreatedResource → Type 0
Listed kind [] = ⊥
Listed kind (r ∷ rs) = (kind ≡ r.kind) ⊎ Listed kind rs

pub Listed-left :
    (kind : ResourceKind) (xs ys : List CreatedResource) → Listed kind xs → Listed kind (xs ++ ys)
Listed-left kind [] ys h = absurd h
Listed-left kind (x ∷ xs) ys (inl e) = inl e
Listed-left kind (x ∷ xs) ys (inr h) = inr (Listed-left kind xs ys h)

pub Listed-right :
    (kind : ResourceKind) (xs ys : List CreatedResource) → Listed kind ys → Listed kind (xs ++ ys)
Listed-right kind [] ys h = h
Listed-right kind (x ∷ xs) ys h = inr (Listed-right kind xs ys h)

Listed-reverse :
    (kind : ResourceKind) (xs : List CreatedResource) → Listed kind xs → Listed kind (reverse xs)
Listed-reverse kind [] h = h
Listed-reverse kind (x ∷ xs) (inl e) =
    subst (Listed kind) (sym (reverse-cons x xs)) (Listed-right kind (reverse xs) (x ∷ []) (inl e))
Listed-reverse kind (x ∷ xs) (inr h) =
    subst (Listed kind) (sym (reverse-cons x xs))
      (Listed-left kind (reverse xs) (x ∷ []) (Listed-reverse kind xs h))

-- What is there afterwards was there before.
abbrev pub Shrinks : Objects → Objects → Type 0
Shrinks before after =
    (k : Kind) (n : Bytes) (o : Object) → after k n ≡ some o → before k n ≡ some o

pub Dropped-Shrinks :
    (owned : Object → Bool) (k : Kind) (n : Bytes) (before after : Objects)
    → Dropped owned k n before after
    → Shrinks before after
Dropped-Shrinks owned k n before after (inl e) j m o h = sym (ap (λ g. g j m) e) ∙ h
Dropped-Shrinks owned k n before after (inr (p, there, own, e)) j m o h =
    let h' : set_object k n none before j m ≡ some o = sym (ap (λ g. g j m) e) ∙ h in
    elim (set_object_cases k n none before j m) [
      | inl (ek, em, gone) ↦ absurd (ground arith)
      | inr same ↦ sym same ∙ h'
    ]

module _ (fails : ℕ → Bool) (admit : Kind → Object → Object) (dynamic : Bool) (name : Bytes) where
  -- A deletion at the resource's place of an object with the tunnel's label, unless it is a dynamic resource
  -- and there is no client for them.
  abbrev pub Deletes : ResourceKind → Cluster → Result Error Bool × Cluster → Type 0
  Deletes kind c r =
      ((owned : Object → Bool) × ((o : Object) → owned o ≡ labelled name o)
        × (r ≡ delete_if fails owned (place name kind).0 (place name kind).1 c))
      ⊎ ((is_core kind ≡ false) × (r ≡ (ok false, c)))

  at_name :
      (k : Kind) (n m owner : Bytes) (c : Cluster)
      → n ≡ m
      → owner ≡ name
      → (owned : Object → Bool) × ((o : Object) → owned o ≡ labelled name o)
        × (delete_if fails (labelled owner) k n c ≡ delete_if fails owned k m c)
  at_name k n m owner c e f = (
    labelled owner,
    (λ o. ap (λ x. labelled x o) f),
    ap (λ x. delete_if fails (labelled owner) k x c) e,
  )

  dynamic-Deletes :
      (d : Bool) (k : Kind) (n : Bytes) (c : Cluster)
      → d ≡ dynamic
      → n ≡ name
      → ((owned : Object → Bool) × ((o : Object) → owned o ≡ labelled name o)
          × (delete_managed_dynamic_resource_if_exists fails d k n c
              ≡ delete_if fails owned k name c))
        ⊎ (delete_managed_dynamic_resource_if_exists fails d k n c ≡ (ok false, c))
  unfolding delete_managed_dynamic_resource_if_exists
  dynamic-Deletes true k n c d e = inl (at_name k n name n c e e)
  dynamic-Deletes false k n c d e = inr refl

  secret_label :
      (n owner : Bytes) (o : Object)
      → owner ≡ name
      → (labelled owner o || secret_owned_by_managed_certificate n o owner none) ≡ labelled name o
  unfolding secret_owned_by_managed_certificate
  secret_label n owner o e = ground (arith, ap (λ x. labelled x o) e)

  pub created-Deletes :
      (kind : ResourceKind) (n : Bytes) (c : Cluster)
      → n ≡ (place name kind).1
      → Deletes kind c (delete_created fails admit dynamic (record { kind = kind; name = n }) c)
  unfolding delete_created delete_deployment_if_owned delete_ingress_if_owned delete_secret_if_owned
      delete_named_service_if_owned tcp_service_name auth_secret_name
  created-Deletes resource_deployment n c own = inl (at_name Kind.deployment n name n c own own)
  created-Deletes resource_service n c own = inl (at_name Kind.service n name n c own own)
  created-Deletes resource_tcp_service n c own = inl (
      at_name Kind.service n (tcp_service_name name) (trim_suffix n (codes "-tcp")) c own
        (ap (λ m. trim_suffix m (codes "-tcp")) own ∙ trim_suffix-append name (codes "-tcp")))
  created-Deletes resource_ingress n c own = inl (at_name Kind.ingress n name n c own own)
  created-Deletes resource_issuer n c own =
      elim (dynamic-Deletes dynamic Kind.issuer n c refl own) [
        | inl d ↦ inl d
        | inr e ↦ inr (refl, e)
      ]
  created-Deletes resource_certificate n c own =
      elim (dynamic-Deletes dynamic Kind.certificate n c refl own) [
        | inl d ↦ inl d
        | inr e ↦ inr (refl, e)
      ]
  created-Deletes resource_secret n c own =
      let owner = trim_suffix n (codes "-auth") in
      let e : owner ≡ name =
        ap (λ m. trim_suffix m (codes "-auth")) own ∙ trim_suffix-append name (codes "-auth") in
      inl (
        (λ o. labelled owner o || secret_owned_by_managed_certificate n o owner none),
        (λ o. secret_label n owner o e),
        ap
            (λ x.
              delete_if fails
                (λ o. labelled owner o || secret_owned_by_managed_certificate n o owner none)
                Kind.secret x c)
            own,
      )

  abbrev Keeps : {A : Type 0} → Objects → Result Error A × Cluster → Type 0
  Keeps = Careful fails admit name

  created-Keeps :
      (r : CreatedResource) (c : Cluster)
      → IsOwn name r
      → Keeps c.objects (delete_created fails admit dynamic r c)
  created-Keeps r c own = elim (created-Deletes r.kind r.name c own) [
    | inl (owned, same, e) ↦
        subst (Keeps c.objects) (sym e)
          (delete-Careful fails admit name owned _ _ c (λ o h. sym (same o) ∙ h))
    | inr (d, e) ↦ subst (Keeps c.objects) (sym e) (λ j m o h u. h)
  ]

  go_on-Keeps :
      (a : Objects) (rest : Cluster → Result Error (Unit {0}) × Cluster)
      (r : Result Error Bool × Cluster)
      → Keeps a r
      → ((c : Cluster) → Keeps c.objects (rest c))
      → Keeps a (go_on fails admit rest r)
  go_on-Keeps a rest (ok deleted, c) h f = Protects-trans name h (f c)
  go_on-Keeps a rest (err e, c) h f = h

  delete_all-Keeps :
      (rs : List CreatedResource) (c : Cluster)
      → All (IsOwn name) rs
      → Keeps c.objects (delete_all fails admit dynamic rs c)
  unfolding delete_all
  delete_all-Keeps [] c own = λ j m o h u. h
  delete_all-Keeps (r ∷ rs) c (own, owns) =
      go_on-Keeps c.objects (delete_all fails admit dynamic rs)
        (delete_created fails admit dynamic r c) (created-Keeps r c own)
        (λ c1. delete_all-Keeps rs c1 owns)

  pub cleanup_created-Careful :
      (rs : List CreatedResource) (c : Cluster)
      → All (IsOwn name) rs
      → Keeps c.objects (cleanup_created fails admit dynamic rs c)
  unfolding cleanup_created
  cleanup_created-Careful rs c own =
      delete_all-Keeps (reverse rs) c (All-reverse (IsOwn name) rs own)

  abbrev Less : {A : Type 0} → Objects → Result Error A × Cluster → Type 0
  Less before r = Shrinks before (r.1.objects)

  created-Shrinks :
      (r : CreatedResource) (c : Cluster)
      → IsOwn name r
      → Less c.objects (delete_created fails admit dynamic r c)
  created-Shrinks r c own = elim (created-Deletes r.kind r.name c own) [
    | inl (owned, same, e) ↦
        subst (Less c.objects) (sym e)
          (Dropped-Shrinks owned _ _ _ _ (delete_if-Dropped fails owned _ _ c))
    | inr (d, e) ↦ subst (Less c.objects) (sym e) (λ j m o h. h)
  ]

  go_on-Shrinks :
      (before : Objects) (rest : Cluster → Result Error (Unit {0}) × Cluster)
      (r : Result Error Bool × Cluster)
      → Less before r
      → ((c : Cluster) → Less c.objects (rest c))
      → Less before (go_on fails admit rest r)
  go_on-Shrinks before rest (ok deleted, c) h f = λ j m o e. h j m o (f c j m o e)
  go_on-Shrinks before rest (err e, c) h f = h

  delete_all-Shrinks :
      (rs : List CreatedResource) (c : Cluster)
      → All (IsOwn name) rs
      → Less c.objects (delete_all fails admit dynamic rs c)
  unfolding delete_all
  delete_all-Shrinks [] c own = λ j m o h. h
  delete_all-Shrinks (r ∷ rs) c (own, owns) =
      go_on-Shrinks c.objects (delete_all fails admit dynamic rs)
        (delete_created fails admit dynamic r c) (created-Shrinks r c own)
        (λ c1. delete_all-Shrinks rs c1 owns)

  pub cleanup_created-Shrinks :
      (rs : List CreatedResource) (c : Cluster)
      → All (IsOwn name) rs
      → Less c.objects (cleanup_created fails admit dynamic rs c)
  unfolding cleanup_created
  cleanup_created-Shrinks rs c own =
      delete_all-Shrinks (reverse rs) c (All-reverse (IsOwn name) rs own)

  -- No object with the tunnel's label is left at the resource's place.
  abbrev pub Swept : ResourceKind → Objects → Type 0
  Swept kind objects =
      (o : Object)
      → objects (place name kind).0 (place name kind).1 ≡ some o
      → labelled name o ≡ false

  abbrev Sweeps : ResourceKind → Result Error Bool × Cluster → Type 0
  Sweeps kind r = ((b : Bool) × (r.0 ≡ ok b)) × (is_core kind ≡ true → Swept kind (r.1.objects))

  created-Swept :
      ((i : ℕ) → fails i ≡ false)
      → (r : CreatedResource) (c : Cluster) → IsOwn name r
      → Sweeps r.kind (delete_created fails admit dynamic r c)
  created-Swept up r c own = elim (created-Deletes r.kind r.name c own) [
    | inl (owned, same, e) ↦ subst (Sweeps r.kind) (sym e) (
        let swept = delete_if-Swept fails owned (place name r.kind).0 (place name r.kind).1 up c in
        (swept.0, λ core o h. sym (same o) ∙ swept.1 o h))
    | inr (d, e) ↦ ((false, ap (λ x. x.0) e), λ core. absurd (ground arith))
  ]

  -- The rest is done where the first deletion succeeds.
  go_on-ok :
      (P : Cluster → Type 0) (rest : Cluster → Result Error (Unit {0}) × Cluster)
      (r : Result Error Bool × Cluster)
      → ((b : Bool) × (r.0 ≡ ok b))
      → P (rest r.1).1
      → P (go_on fails admit rest r).1
  go_on-ok P rest (ok d, c) (b, e) h = h
  go_on-ok P rest (err x, c) (b, e) h = absurd (ground arith)

  delete_all-Swept :
      ((i : ℕ) → fails i ≡ false)
      → (rs : List CreatedResource) (c : Cluster) → All (IsOwn name) rs
      → (kind : ResourceKind) → is_core kind ≡ true
      → Listed kind rs
      → Swept kind ((delete_all fails admit dynamic rs c).1.objects)
  unfolding delete_all
  delete_all-Swept up [] c own kind core l = absurd l
  delete_all-Swept up (r ∷ rs) c (own, owns) kind core (inl e) =
      let (fine, gone) = created-Swept up r c own in
      go_on-ok (λ c2. Swept kind c2.objects) (delete_all fails admit dynamic rs)
        (delete_created fails admit dynamic r c) fine
        (λ o h.
          subst (λ k. Swept k ((delete_created fails admit dynamic r c).1.objects)) (sym e)
            (gone (ap is_core (sym e) ∙ core)) o
            (delete_all-Shrinks rs (delete_created fails admit dynamic r c).1 owns _ _ o h))
  delete_all-Swept up (r ∷ rs) c (own, owns) kind core (inr l) =
      go_on-ok (λ c2. Swept kind c2.objects) (delete_all fails admit dynamic rs)
        (delete_created fails admit dynamic r c) (created-Swept up r c own).0
        (delete_all-Swept up rs (delete_created fails admit dynamic r c).1 owns kind core l)

  pub cleanup_created-Swept :
      ((i : ℕ) → fails i ≡ false)
      → (rs : List CreatedResource) (c : Cluster) → All (IsOwn name) rs
      → (kind : ResourceKind) → is_core kind ≡ true
      → Listed kind rs
      → Swept kind ((cleanup_created fails admit dynamic rs c).1.objects)
  unfolding cleanup_created
  cleanup_created-Swept up rs c own kind core l =
      delete_all-Swept up (reverse rs) c (All-reverse (IsOwn name) rs own) kind core
        (Listed-reverse kind rs l)
