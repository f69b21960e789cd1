-- ===== src/Kubernetes/Ensure/Traced.antt =====
-- pkg/k8s/client.go: in a namespace with nothing of the tunnel, whatever the steps make is noted for the
-- rollback, as created or by the snapshots.
use mathlib.Core.Path.{subst, subst₂}
use sealtun.Prelude.{
  ◌≡◌, ◌⊎◌, inl, inr, refl, ◌∙◌, sym, ap, Bool, true, false, List, [], ◌∷◌, ◌++◌, none, some, Bytes,
  Result, ok, err, arith,
}
use sealtun.Kubernetes.{Kind, Object}
use sealtun.Kubernetes.Cluster.{Cluster, Error, Objects, set_object, set_object_cases}
use sealtun.Kubernetes.Cleanup.Deletion.{Dropped}
use sealtun.Kubernetes.Apply.{CreatedResource, ResourceKind}
use sealtun.Kubernetes.Apply.Created.{place, is_core, Listed, Listed-left, Listed-right}
use sealtun.Kubernetes.Apply.Outcome.{Tagged, Outcome, IsFresh}
use sealtun.Kubernetes.Work.{Work, note_created}

-- Where the rollback will look: at a core resource that is noted as created, and, where the issuer and the
-- certificate were read and can be restored, at those two.
abbrev pub Pending : (dynamic snapped : Bool) → Bytes → List CreatedResource → Kind → Bytes → Type 0
Pending dynamic snapped name created k n =
    ((kind : ResourceKind) × (is_core kind ≡ true)
      × (k ≡ (place name kind).0)
      × (n ≡ (place name kind).1)
      × Listed kind created)
    ⊎ ((snapped ≡ true)
        × (dynamic ≡ true)
        × ((k ≡ Kind.issuer) ⊎ (k ≡ Kind.certificate))
        × (n ≡ name))

-- Each object was there at the start, or it is labelled and pending.
abbrev pub Known :
    (a : Objects) → (dynamic snapped : Bool) → Bytes → List CreatedResource → Objects → Type 0
Known a dynamic snapped name created objects =
    (k : Kind) (n : Bytes) (o : Object)
    → objects k n ≡ some o
    → (a k n ≡ some o) ⊎ (Tagged name o × Pending dynamic snapped name created k n)

module _ (a : Objects) (dynamic : Bool) (name : Bytes) where
  pub Known-more :
      (snapped : Bool) (created more : List CreatedResource) {objects : Objects}
      → Known a dynamic snapped name created objects
      → Known a dynamic snapped name (created ++ more) objects
  Known-more snapped created more f k n o h = elim (f k n o h) [
    | inl e ↦ inl e
    | inr (t, p) ↦ inr (
      t,
      elim p [
        | inl (kind, core, ek, en, l) ↦ inl (kind, core, ek, en, Listed-left kind created more l)
        | inr q ↦ inr q
      ],
    )
  ]

  pub Known-snapped :
      (created : List CreatedResource) {objects : Objects}
      → Known a dynamic false name created objects
      → Known a dynamic true name created objects
  Known-snapped created f k n o h = elim (f k n o h) [
    | inl e ↦ inl e
    | inr (t, p) ↦ inr (t, elim p [ inl q ↦ inl q | inr (e, d, r, s) ↦ absurd (ground arith) ])
  ]

  pub Known-set :
      (snapped : Bool) (created : List CreatedResource) (k : Kind) (n : Bytes) (x : Object)
      {objects : Objects}
      → Known a dynamic snapped name created objects
      → Tagged name x
      → Pending dynamic snapped name created k n
      → Known a dynamic snapped name created (set_object k n (some x) objects)
  Known-set snapped created k n x {objects} f t p j m o h =
      elim (set_object_cases k n (some x) objects j m) [
        | inl (ek, em, e) ↦
            inr (ground arith, subst₂ (Pending dynamic snapped name created) (sym ek) (sym em) p)
        | inr same ↦ f j m o (sym same ∙ h)
      ]

  pub Known-Dropped :
      (snapped : Bool) (created : List CreatedResource) (owned : Object → Bool) (k : Kind)
      (n : Bytes) {before after : Objects}
      → Known a dynamic snapped name created before
      → Dropped owned k n before after
      → Known a dynamic snapped name created after
  Known-Dropped snapped created owned k n f (inl e) j m o h = f j m o (sym (ap (λ g. g j m) e) ∙ h)
  Known-Dropped snapped created owned k n {before} f (inr (p, there, own, e)) j m o h =
      elim (set_object_cases k n none before j m) [
        | inl (ek, em, gone) ↦ absurd (none_some (sym gone ∙ (sym (ap (λ g. g j m) e) ∙ h)))
        | inr same ↦ f j m o (sym same ∙ (sym (ap (λ g. g j m) e) ∙ h))
      ]
    where
      none_some : {o : Object} → none ≡ some o → ⊥
      none_some q = ground arith

  -- What is written to a place where an object with the tunnel's label was is pending as that one was.
  pub Known-outcome :
      (snapped : Bool) (created : List CreatedResource) (k : Kind) (n : Bytes) (before : Objects)
      (r : Result Error Bool × Cluster)
      → IsFresh name a
      → Known a dynamic snapped name created before
      → Outcome name k n before r
      → (r.0 ≡ ok true → Pending dynamic snapped name created k n)
      → Known a dynamic snapped name created (r.1.objects)
  Known-outcome snapped created k n before r fresh f (inl (same, q)) pending =
      subst (Known a dynamic snapped name created) (sym same) f
  Known-outcome snapped created k n before r fresh f (inr (x, t, e, inl made)) pending =
      subst (Known a dynamic snapped name created) (sym e)
        (Known-set snapped created k n x f t (pending made))
  Known-outcome snapped created k n before r fresh f (inr (x, t, e, inr (kept, (o, there, l))))
        pending =
      subst (Known a dynamic snapped name created) (sym e) (
        Known-set snapped created k n x f t (elim (f k n o there) [
          | inl old ↦ absurd (ground (arith, fresh k n o old))
          | inr (t', p) ↦ p
        ]))

  pub note-Known :
      (snapped : Bool) (kind : ResourceKind) (w : Work) (r : Result Error Bool × Cluster)
      → IsFresh name a
      → is_core kind ≡ true
      → Known a dynamic snapped name w.created w.cluster.objects
      → Outcome name (place name kind).0 (place name kind).1 w.cluster.objects r
      → Known a dynamic snapped name
          (note_created kind (place name kind).1 w r).1.created
          ((note_created kind (place name kind).1 w r).1.cluster.objects)
  note-Known snapped kind w (err e, c) fresh core f out =
      Known-outcome snapped w.created _ _ _ (err e, c) fresh f out (λ q. ground arith)
  note-Known snapped kind w (ok false, c) fresh core f out =
      Known-outcome snapped w.created _ _ _ (ok false, c) fresh f out (λ q. ground arith)
  note-Known snapped kind w (ok true, c) fresh core f out =
      let made : CreatedResource = record { kind = kind; name = (place name kind).1 } in
      Known-outcome snapped (w.created ++ (made ∷ [])) _ _ _ (ok true, c) fresh
        (Known-more snapped w.created (made ∷ []) f) out
        (λ q. inl (kind, core, refl, refl, Listed-right kind w.created (made ∷ []) (inl refl)))
