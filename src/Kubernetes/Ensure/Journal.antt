-- ===== src/Kubernetes/Ensure/Journal.antt =====
-- pkg/k8s/client.go: the steps of making a tunnel keep what the rollback needs.
use mathlib.Core.Path.{subst}
use sealtun.Prelude.{
  ℕ, ◌≡◌, inl, inr, refl, ◌∙◌, sym, ap, Bool, true, false, List, Option, none, some, Bytes, codes,
  ◌==◌, Result, ok, err, if_elim, All, arith,
}
use sealtun.Text.{trim_suffix}
use sealtun.Text.Affix.{trim_suffix-append}
use sealtun.Protocol.{uses_raw_tcp}
use sealtun.Kubernetes.{Requirements, Kind, Object, tcp_service_name}
use sealtun.Kubernetes.Cluster.{Cluster, Error, Objects, get}
use sealtun.Kubernetes.Cleanup.{labelled, delete_named_service_if_owned}
use sealtun.Kubernetes.Cleanup.Deletion.{Dropped, delete_if-Dropped}
use sealtun.Kubernetes.Desired.{deployment_object}
use sealtun.Kubernetes.Apply.{
  CreatedResource, ResourceKind, resource_deployment, resource_service, resource_tcp_service,
  resource_ingress, resource_issuer, ensure_service, ensure_tcp_service, apply_ingress,
  cleanup_created,
}
use sealtun.Kubernetes.Apply.Created.{
  place, is_core, IsOwn, cleanup_created-Careful, cleanup_created-Shrinks,
}
use sealtun.Kubernetes.Apply.Guarded.{
  Protects, Protects-trans, apply-Careful, deployment-Careful, service_deletion-Careful,
  dynamic-Careful,
}
use sealtun.Kubernetes.Apply.Outcome.{
  managed-Tagged, Outcome, IsFresh, KeepsLabels, service-Outcome, tcp-Outcome, ingress-Outcome,
  issuer-Outcome, certificate-Outcome, deployment-Outcome,
}
use sealtun.Kubernetes.Resources.{ResourceError}
use sealtun.Kubernetes.Work.{
  TunnelHosts, Options, Client, Work, Step, note_created, deleted_stale, made_if,
  public_tcp_node_port, ports_of,
}
use sealtun.Kubernetes.Ensure.{
  deployment_built, deployment_step, service_step, tcp_step, ingress_written, ingress_step,
  port_found, port_step, after_slot, after_issuer, after_certificate,
}
use sealtun.Kubernetes.Ensure.Traced.{Known, Known-more, Known-Dropped, Known-outcome, note-Known}

module _ (client : Client) (fails : ℕ → Bool) (name : Bytes) (a : Objects) where
  -- A snapshot of an object that is not the tunnel's, which is still there.
  abbrev pub Held : Option Object → Kind → Objects → Type 0
  Held s k objects =
      (o : Object) → s ≡ some o → (labelled name o ≡ false) × (objects k name ≡ some o)

  abbrev pub Snapped : Bool → Work → Type 0
  Snapped false w = w.snapshots ≡ none
  Snapped true w =
      (i : Option Object) × (c : Option Object) × (w.snapshots ≡ some (i, c))
      × Held i Kind.issuer w.cluster.objects
      × Held c Kind.certificate w.cluster.objects

  pub record Traced (snapped : Bool) (w : Work) : Type 0 where
    pub known : Known a client.dynamic snapped name w.created w.cluster.objects
    pub no_rollback : w.rollback ≡ none
    pub snaps : Snapped snapped w

  Held-kept :
      (s : Option Object) (k : Kind) {x y : Objects} → Protects name x y → Held s k x → Held s k y
  Held-kept s k p h o e = let (u, there) = h o e in (u, p k name o there u)

  Snapped-kept :
      (snapped : Bool) (w v : Work)
      → v.snapshots ≡ w.snapshots
      → Protects name w.cluster.objects v.cluster.objects
      → Snapped snapped w
      → Snapped snapped v
  Snapped-kept false w v e p h = e ∙ h
  Snapped-kept true w v e p (i, c, q, hi, hc) =
      (i, c, e ∙ q, Held-kept i Kind.issuer p hi, Held-kept c Kind.certificate p hc)

  -- The state moves on to other objects, which are known too.
  moved-Traced :
      (snapped : Bool) (w : Work) (c : Cluster)
      → Traced snapped w
      → Known a client.dynamic snapped name w.created c.objects
      → Protects name w.cluster.objects c.objects
      → Traced snapped (record w { cluster = c })
  moved-Traced snapped w c t k p = record {
    known = k;
    no_rollback = t.no_rollback;
    snaps = Snapped-kept snapped w (record w { cluster = c }) refl p t.snaps;
  }

  pub note-Traced :
      (snapped : Bool) (kind : ResourceKind) (w : Work) (r : Result Error Bool × Cluster)
      → IsFresh name a
      → is_core kind ≡ true
      → Traced snapped w
      → Outcome name (place name kind).0 (place name kind).1 w.cluster.objects r
      → Protects name w.cluster.objects (r.1.objects)
      → Traced snapped (note_created kind (place name kind).1 w r).1
  note-Traced snapped kind w (err e, c) fresh core t out p =
      moved-Traced snapped w c t
        (note-Known a client.dynamic name snapped kind w (err e, c) fresh core t.known out) p
  note-Traced snapped kind w (ok false, c) fresh core t out p =
      moved-Traced snapped w c t
        (note-Known a client.dynamic name snapped kind w (ok false, c) fresh core t.known out) p
  note-Traced snapped kind w (ok true, c) fresh core t out p = record {
    known = note-Known a client.dynamic name snapped kind w (ok true, c) fresh core t.known out;
    no_rollback = t.no_rollback;
    snaps = Snapped-kept snapped w _ refl p t.snaps;
  }

module _ (client : Client) (keeps : KeepsLabels client.admit) (fails : ℕ → Bool) (name : Bytes)
    (a : Objects) (fresh : IsFresh name a) where
  abbrev pub At : Bool → Work → Type 0
  At = Traced client fails name a

  -- The step keeps the record, whether it succeeds or not.
  abbrev pub Logs : Step → Type 0
  Logs s = (snapped : Bool) (w : Work) → At snapped w → At snapped (s w).1

  pub deployment-Logs :
      (secret protocol local_port : Bytes) (opts : Options)
      → Logs (deployment_step client fails name secret protocol local_port opts)
  unfolding deployment_step deployment_built deployment_object
  deployment-Logs secret protocol local_port opts snapped w t = built _ _
    where
      built :
          (r : Result ResourceError Requirements) (image : Option Bytes)
          → At snapped
              (deployment_built client fails name secret protocol local_port opts w r image).1
      built (err e) image = t
      built (ok resources) none = t
      built (ok resources) (some image) =
          note-Traced client fails name a snapped resource_deployment w _ fresh refl t
            (deployment-Outcome fails client.admit keeps name _ w.cluster
              (managed-Tagged name _ refl))
            (deployment-Careful fails client.admit name _ w.cluster)

  pub service-Logs : Logs (service_step client fails name)
  unfolding service_step ensure_service
  service-Logs snapped w t =
      note-Traced client fails name a snapped resource_service w _ fresh refl t
        (service-Outcome fails client.admit keeps name w.cluster)
        (apply-Careful fails client.admit name _ _ _ _ _ _)

  trimmed : trim_suffix (tcp_service_name name) (codes "-tcp") ≡ name
  unfolding tcp_service_name
  trimmed = trim_suffix-append name (codes "-tcp")

  stale-Logs :
      (snapped : Bool) (w : Work) (r : Result Error Bool × Cluster) (owned : Object → Bool)
      (k : Kind) (n : Bytes)
      → At snapped w
      → Dropped owned k n w.cluster.objects r.1.objects
      → Protects name w.cluster.objects r.1.objects
      → At snapped (deleted_stale w r).1
  stale-Logs snapped w (ok deleted, c) owned k n t d p =
      moved-Traced client fails name a snapped w c t
        (Known-Dropped a client.dynamic name snapped w.created owned k n t.known d) p
  stale-Logs snapped w (err e, c) owned k n t d p =
      moved-Traced client fails name a snapped w c t
        (Known-Dropped a client.dynamic name snapped w.created owned k n t.known d) p

  pub tcp-Logs : (protocol : Bytes) → Logs (tcp_step client fails name protocol)
  unfolding tcp_step ensure_tcp_service delete_named_service_if_owned
  tcp-Logs protocol snapped w t =
      if_elim (λ (r : Result Error (Unit {0}) × Work). At snapped r.1) (uses_raw_tcp protocol)
        (λ raw.
          note-Traced client fails name a snapped resource_tcp_service w _ fresh refl t
            (tcp-Outcome fails client.admit keeps name w.cluster)
            (apply-Careful fails client.admit name _ _ _ _ _ _))
        (λ other.
          stale-Logs snapped w _ _ _ _ t (delete_if-Dropped fails _ _ _ w.cluster)
            (service_deletion-Careful fails client.admit name _ _ w.cluster trimmed))

  pub ingress-Logs :
      (protocol : Bytes) (opts : Options) → Logs (ingress_step client fails name protocol opts)
  unfolding ingress_step ingress_written apply_ingress
  ingress-Logs protocol opts snapped w t = written _
    where
      hosted : (hosts : TunnelHosts) → At snapped (record w { hosts = hosts })
      hosted hosts = record {
        known = t.known;
        no_rollback = t.no_rollback;
        snaps =
            Snapped-kept client fails name a snapped w (record w { hosts = hosts }) refl
              (λ j m p h u. h) t.snaps;
      }

      written :
          (hosts : Option TunnelHosts)
          → At snapped (ingress_written client fails name protocol w hosts).1
      written none = t
      written (some hosts) =
          note-Traced client fails name a snapped resource_ingress (record w { hosts = hosts }) _
            fresh refl (hosted hosts)
            (ingress-Outcome fails client.admit keeps name _ _ _ w.cluster)
            (apply-Careful fails client.admit name _ _ _ _ _ _)

  -- A step that has only read.
  pub same-Traced :
      (snapped : Bool) (w : Work) (c : Cluster)
      → At snapped w
      → c.objects ≡ w.cluster.objects
      → At snapped (record w { cluster = c })
  same-Traced snapped w c t e =
      moved-Traced client fails name a snapped w c t
        (subst (Known a client.dynamic snapped name w.created) (sym e) t.known)
        (λ k n o h u. ap (λ f. f k n) e ∙ h)

  pub port-Logs : (protocol : Bytes) → Logs (port_step client fails name protocol)
  unfolding port_step port_found get
  port-Logs protocol snapped w t =
      if_elim (λ (r : Result Error (Unit {0}) × Work). At snapped r.1) (uses_raw_tcp protocol)
        (λ raw. found _ refl) (λ other. t)
    where
      found :
          (r : Result Error (Option Object) × Cluster)
          → r.1.objects ≡ w.cluster.objects
          → At snapped (port_found client fails w r).1
      found (err e, c) q = same-Traced snapped w c t q
      found (ok none, c) q = same-Traced snapped w c t q
      found (ok (some o), c) q =
          let t' = same-Traced snapped w c t q in
          let given : At snapped (record w {
            cluster = c;
            hosts = record w.hosts { public_port = public_tcp_node_port (ports_of o.spec) };
          }) =
            record {
              known = t'.known;
              no_rollback = t'.no_rollback;
              snaps =
                  Snapped-kept client fails name a snapped (record w { cluster = c }) _ refl
                    (λ j m p h u. h) t'.snaps;
            } in
          if_elim (λ (r : Result Error (Unit {0}) × Work). At snapped r.1)
            (public_tcp_node_port (ports_of o.spec) == 0) (λ none_given. t') (λ some_given. given)

  -- The record at the end, with or without the snapshots.
  abbrev pub Logged : Work → Type 0
  Logged w = (snapped : Bool) × At snapped w

  made_if-IsOwn : (made : Bool) → All (IsOwn name) (made_if made resource_issuer name)
  made_if-IsOwn true = (refl, tt)
  made_if-IsOwn false = tt

  -- Taking the issuer back where the certificate fails.
  undone-Known :
      (made : Bool) (created : List CreatedResource) (c : Cluster)
      → Known a client.dynamic true name created c.objects
      → Known a client.dynamic true name created (
          (cleanup_created fails client.admit client.dynamic
            (made_if made resource_issuer name)
            c).1.objects)
  undone-Known made created c f = λ k n o h. f k n o (
      cleanup_created-Shrinks fails client.admit client.dynamic name
        (made_if made resource_issuer name) c (made_if-IsOwn made) k n o h)

  certificate-Logged :
      (made : Bool) (w : Work) (r : Result Error Bool × Cluster)
      → client.dynamic ≡ true
      → At true w
      → Outcome name Kind.certificate name w.cluster.objects r
      → Protects name w.cluster.objects r.1.objects
      → At true (after_certificate client fails name made w r).1
  unfolding after_certificate
  certificate-Logged made w (err e, c) there t out p =
      moved-Traced client fails name a true w _ t
        (undone-Known made w.created c (
          Known-outcome a client.dynamic name true w.created Kind.certificate name _ (err e, c)
            fresh t.known out (λ q. ground arith)))
        (Protects-trans name p (
          cleanup_created-Careful fails client.admit client.dynamic name
            (made_if made resource_issuer name) c (made_if-IsOwn made)))
  certificate-Logged made w (ok made', c) there t out p = record {
    known = Known-more a client.dynamic name true w.created _ (
        Known-outcome a client.dynamic name true w.created Kind.certificate name _ (ok made', c)
          fresh t.known out (λ q. inr (refl, there, inr refl, refl)));
    no_rollback = t.no_rollback;
    snaps = Snapped-kept client fails name a true w (record w { cluster = c }) refl p t.snaps;
  }

  issuer-Logged :
      (domain : Bytes) (w : Work) (r : Result Error Bool × Cluster)
      → client.dynamic ≡ true
      → At true w
      → Outcome name Kind.issuer name w.cluster.objects r
      → Protects name w.cluster.objects r.1.objects
      → At true (after_issuer client fails name domain w r).1
  unfolding after_issuer
  issuer-Logged domain w (err e, c) there t out p =
      moved-Traced client fails name a true w c t
        (Known-outcome a client.dynamic name true w.created Kind.issuer name _ (err e, c) fresh
          t.known out (λ q. ground arith))
        p
  issuer-Logged domain w (ok made, c) there t out p =
      certificate-Logged made (record w { cluster = c }) _ there
        (moved-Traced client fails name a true w c t
          (Known-outcome a client.dynamic name true w.created Kind.issuer name _ (ok made, c) fresh
            t.known out (λ q. inr (refl, there, inl refl, refl)))
          p)
        (certificate-Outcome fails client.admit keeps name domain c)
        (dynamic-Careful fails client.admit name Kind.certificate _ c)

  pub slot-Logged :
      (domain : Bytes) (w : Work) (r : Result Error (Unit {0}) × Cluster)
      → client.dynamic ≡ true
      → At true w
      → r.1.objects ≡ w.cluster.objects
      → At true (after_slot client fails name domain w r).1
  unfolding after_slot
  slot-Logged domain w (err e, c) there t q = same-Traced true w c t q
  slot-Logged domain w (ok free, c) there t q =
      issuer-Logged domain (record w { cluster = c }) _ there (same-Traced true w c t q)
        (issuer-Outcome fails client.admit keeps name _ c)
        (dynamic-Careful fails client.admit name Kind.issuer _ c)
