-- ===== src/Kubernetes/Ensure/Careful.antt =====
-- pkg/k8s/client.go: each step of making a tunnel leaves the objects alone that are not the tunnel's.
use sealtun.Prelude.{
  ℕ, ◌≡◌, refl, Bool, true, false, not, ◌&&◌, List, [], ◌∷◌, Option, none, some, Bytes, codes,
  str_eq, Result, ok, err, if_elim, All, All-append, ◌==◌,
}
use sealtun.Text.{trim_suffix}
use sealtun.Text.Affix.{trim_suffix-append}
use sealtun.Protocol.{https, uses_raw_tcp}
use sealtun.Kubernetes.{
  Requirements, Kind, Object, tcp_service_name, auth_secret_name,
  secret_owned_by_managed_certificate,
}
use sealtun.Kubernetes.Cluster.{Cluster, Error, Objects, get}
use sealtun.Kubernetes.Cleanup.{get_dynamic_resource, labelled}
use sealtun.Kubernetes.Apply.{
  AuthSecret, ResourceKind, resource_deployment, resource_service, resource_tcp_service,
  resource_ingress, resource_issuer, resource_certificate, resource_secret, ensure_service,
  ensure_tcp_service, apply_ingress,
}
use sealtun.Kubernetes.Apply.Guarded.{
  Protects, Protects-trans, Careful, apply-Careful, deployment-Careful, auth_secret-Careful,
  get_dynamic-Careful, dynamic-Careful, service_deletion-Careful,
}
use sealtun.Kubernetes.Apply.Created.{IsOwn, cleanup_created-Careful}
use sealtun.Kubernetes.Desired.{custom_domain_certificate}
use sealtun.Kubernetes.Resources.{ResourceError}
use sealtun.Kubernetes.Work.{
  TunnelHosts, Options, Client, Work, Step, note_created, and_after, run, deleted_stale,
  public_tcp_node_port, ports_of, made_if, slot_owned, snapshots_read,
}
use sealtun.Kubernetes.Ensure.{
  secret_done, secret_step, deployment_built, ingress_written, deployment_step, service_step,
  tcp_step, snapshot_step, secret_slot_found, validate_custom_domain_secret_slot, after_certificate,
  after_issuer, after_slot, custom_domain_step, domain_step, ingress_step, port_found, port_step,
  steps, domain_steps,
}

module _ (client : Client) (fails : ℕ → Bool) (name : Bytes) (a : Objects) where
  -- What was not the tunnel's at the start is still there, and what was created is the tunnel's.
  pub record IsGood (w : Work) : Type 0 where
    pub protects : Protects name a w.cluster.objects
    pub own : All (IsOwn name) w.created

  abbrev pub Keeps : Step → Type 0
  Keeps s = (w : Work) → IsGood w → IsGood (s w).1

  abbrev Safe : {A : Type 0} → Objects → Result Error A × Cluster → Type 0
  Safe = Careful fails client.admit name

  pub moved :
      (w : Work) (c : Cluster)
      → IsGood w
      → Protects name w.cluster.objects c.objects
      → IsGood (record w { cluster = c })
  moved w c g p = record { protects = Protects-trans name g.protects p; own = g.own }

  note-IsGood :
      (kind : ResourceKind) (n : Bytes) (w : Work) (r : Result Error Bool × Cluster)
      → IsOwn name (record { kind = kind; name = n })
      → IsGood w
      → Safe w.cluster.objects r
      → IsGood (note_created kind n w r).1
  note-IsGood kind n w (err e, c) own g p = moved w c g p
  note-IsGood kind n w (ok false, c) own g p = moved w c g p
  note-IsGood kind n w (ok true, c) own g p = record {
    protects = Protects-trans name g.protects p;
    own = All-append (IsOwn name) w.created _ g.own (own, tt);
  }

  pub after-IsGood :
      (next : Step) (r : Result Error (Unit {0}) × Work)
      → Keeps next
      → IsGood r.1
      → IsGood (and_after next r).1
  after-IsGood next (ok t, w) k g = k w g
  after-IsGood next (err e, w) k g = g

  pub run-Keeps : (ss : List Step) → All Keeps ss → Keeps (run ss)
  unfolding run
  run-Keeps [] h w g = g
  run-Keeps (s ∷ ss) (k, h) w g = after-IsGood (run ss) (s w) (run-Keeps ss h) (k w g)

  secret-Keeps :
      (fresh secret : Bytes) (opts : Options)
      → Keeps (secret_step client fails fresh name secret opts)
  unfolding secret_step secret_done
  secret-Keeps fresh secret opts w g = done _ (
      auth_secret-Careful fails client.admit name client.encoding fresh secret opts.basic_auth
        opts.access_policy w.cluster)
    where
      done :
          (r : Result Error AuthSecret × Cluster)
          → Safe w.cluster.objects r
          → IsGood (secret_done client fails name w r).1
      done (err e, c) p = moved w c g p
      done (ok s, c) p =
          note-IsGood resource_secret (auth_secret_name name)
            (record w { rollback = s.rollback; salt = s.salt }) (ok s.created, c) refl
            (record { protects = g.protects; own = g.own }) p

  service-Keeps : Keeps (service_step client fails name)
  unfolding service_step ensure_service
  service-Keeps w g =
      note-IsGood resource_service name w _ refl g
        (apply-Careful fails client.admit name _ _ _ _ _ _)

  deployment-Keeps :
      (secret protocol local_port : Bytes) (opts : Options)
      → Keeps (deployment_step client fails name secret protocol local_port opts)
  unfolding deployment_step
  deployment-Keeps secret protocol local_port opts w g = built _ _
    where
      built :
          (r : Result ResourceError Requirements) (image : Option Bytes)
          → IsGood (deployment_built client fails name secret protocol local_port opts w r image).1
      built (err e) image = g
      built (ok resources) none = g
      built (ok resources) (some image) =
          note-IsGood resource_deployment name w _ refl g
            (deployment-Careful fails client.admit name _ w.cluster)

  made_if-IsOwn :
      (made : Bool) (kind : ResourceKind)
      → IsOwn name (record { kind = kind; name = name })
      → All (IsOwn name) (made_if made kind name)
  made_if-IsOwn true kind h = (h, tt)
  made_if-IsOwn false kind h = tt

  tcp-Keeps : (protocol : Bytes) → Keeps (tcp_step client fails name protocol)
  unfolding tcp_step ensure_tcp_service tcp_service_name
  tcp-Keeps protocol w g =
      if_elim (λ (r : Result Error (Unit {0}) × Work). IsGood r.1) (uses_raw_tcp protocol)
        (λ raw.
          note-IsGood resource_tcp_service (tcp_service_name name) w _ refl g
            (apply-Careful fails client.admit name _ _ _ _ _ _))
        (λ other. stale _ (service_deletion-Careful fails client.admit name _ _ w.cluster trimmed))
    where
      trimmed : trim_suffix (tcp_service_name name) (codes "-tcp") ≡ name
      trimmed = trim_suffix-append name (codes "-tcp")

      stale :
          (r : Result Error Bool × Cluster)
          → Safe w.cluster.objects r
          → IsGood (deleted_stale w r).1
      stale (ok deleted, c) p = moved w c g p
      stale (err e, c) p = moved w c g p

  snapshot-Keeps : Keeps (snapshot_step client fails name)
  unfolding snapshot_step
  snapshot-Keeps w g =
      let first = get_dynamic_resource fails client.dynamic Kind.issuer name w.cluster in
      let second = get_dynamic_resource fails client.dynamic Kind.certificate name first.1 in
      read first.0 first.1 second.0 second.1
        (get_dynamic-Careful fails client.admit name client.dynamic Kind.issuer w.cluster)
        (get_dynamic-Careful fails client.admit name client.dynamic Kind.certificate first.1)
    where
      read :
          (i : Result Error (Option Object)) (c1 : Cluster) (r : Result Error (Option Object))
          (c2 : Cluster)
          → Protects name w.cluster.objects c1.objects
          → Protects name c1.objects c2.objects
          → IsGood (snapshots_read w i c1 r c2).1
      read (err e) c1 r c2 p q = moved w c1 g p
      read (ok i) c1 (err e) c2 p q = moved w c2 g (Protects-trans name p q)
      read (ok i) c1 (ok r) c2 p q = record {
        protects = Protects-trans name g.protects (Protects-trans name p q);
        own = g.own;
      }

  pub ingress_written-IsGood :
      (protocol : Bytes) (w : Work) (hosts : Option TunnelHosts)
      → IsGood w
      → IsGood (ingress_written client fails name protocol w hosts).1
  unfolding ingress_written apply_ingress
  ingress_written-IsGood protocol w none g = g
  ingress_written-IsGood protocol w (some hosts) g =
      note-IsGood resource_ingress name (record w { hosts = hosts }) _ refl
        (record { protects = g.protects; own = g.own })
        (apply-Careful fails client.admit name _ _ _ _ _ _)

  ingress-Keeps :
      (protocol : Bytes) (opts : Options) → Keeps (ingress_step client fails name protocol opts)
  unfolding ingress_step
  ingress-Keeps protocol opts w g = ingress_written-IsGood protocol w _ g

  pub got : (k : Kind) (n : Bytes) (c : Cluster) → Safe c.objects (get fails k n c)
  unfolding get
  got k n c = λ j m o h u. h

  port-Keeps : (protocol : Bytes) → Keeps (port_step client fails name protocol)
  unfolding port_step port_found
  port-Keeps protocol w g =
      if_elim (λ (r : Result Error (Unit {0}) × Work). IsGood r.1) (uses_raw_tcp protocol)
        (λ raw. found _ (got Kind.service (tcp_service_name name) w.cluster)) (λ other. g)
    where
      found :
          (r : Result Error (Option Object) × Cluster)
          → Safe w.cluster.objects r
          → IsGood (port_found client fails w r).1
      found (err e, c) p = moved w c g p
      found (ok none, c) p = moved w c g p
      found (ok (some o), c) p =
          if_elim (λ (r : Result Error (Unit {0}) × Work). IsGood r.1)
            (public_tcp_node_port (ports_of o.spec) == 0) (λ none_given. moved w c g p)
            (λ given. record { protects = Protects-trans name g.protects p; own = g.own })

  slot-Safe :
      (c : Cluster) → Safe c.objects (validate_custom_domain_secret_slot client fails name c)
  unfolding validate_custom_domain_secret_slot secret_slot_found
  slot-Safe c = found _ (got Kind.secret name c)
    where
      owned :
          (o : Object) (c1 : Cluster) (r : Result Error (Option Object) × Cluster)
          → Safe c1.objects r
          → Safe c1.objects (slot_owned name o r)
      owned o c1 (err e, c2) p = p
      owned o c1 (ok cert, c2) p =
          if_elim (λ (r : Result Error (Unit {0}) × Cluster). Safe c1.objects r)
            (secret_owned_by_managed_certificate name o name cert) (λ yes. p) (λ no. p)

      found :
          (r : Result Error (Option Object) × Cluster)
          → Safe c.objects r
          → Safe c.objects (secret_slot_found client fails name r)
      found (err e, c1) p = p
      found (ok none, c1) p = p
      found (ok (some o), c1) p =
          if_elim (λ (r : Result Error (Unit {0}) × Cluster). Safe c.objects r) (labelled name o)
            (λ l. p)
            (λ l. Protects-trans name p (
              owned o c1 _
                (get_dynamic-Careful fails client.admit name client.dynamic Kind.certificate c1)))

  certificate-IsGood :
      (made : Bool) (w : Work) (r : Result Error Bool × Cluster)
      → IsGood w
      → Safe w.cluster.objects r
      → IsGood (after_certificate client fails name made w r).1
  unfolding after_certificate
  certificate-IsGood made w (err e, c) g p = moved w _ g (
      Protects-trans name p (
        cleanup_created-Careful fails client.admit client.dynamic name
          (made_if made resource_issuer name) c (made_if-IsOwn made resource_issuer refl)))
  certificate-IsGood made w (ok made', c) g p = record {
    protects = Protects-trans name g.protects p;
    own = All-append (IsOwn name) w.created _ g.own (
        All-append (IsOwn name) (made_if made resource_issuer name) _
          (made_if-IsOwn made resource_issuer refl)
          (made_if-IsOwn made' resource_certificate refl));
  }

  issuer-IsGood :
      (domain : Bytes) (w : Work) (r : Result Error Bool × Cluster)
      → IsGood w
      → Safe w.cluster.objects r
      → IsGood (after_issuer client fails name domain w r).1
  unfolding after_issuer
  issuer-IsGood domain w (err e, c) g p = moved w c g p
  issuer-IsGood domain w (ok made, c) g p =
      let later = record w { cluster = c } in
      let written =
        dynamic-Careful fails client.admit name Kind.certificate
          (custom_domain_certificate name domain) c in
      certificate-IsGood made w _ g (Protects-trans name p written)

  slot-IsGood :
      (domain : Bytes) (w : Work) (r : Result Error (Unit {0}) × Cluster)
      → IsGood w
      → Safe w.cluster.objects r
      → IsGood (after_slot client fails name domain w r).1
  unfolding after_slot
  slot-IsGood domain w (err e, c) g p = moved w c g p
  slot-IsGood domain w (ok free, c) g p =
      issuer-IsGood domain w _ g
        (Protects-trans name p (dynamic-Careful fails client.admit name Kind.issuer _ c))

  custom-Keeps : (domain : Bytes) → Keeps (custom_domain_step client fails name domain)
  unfolding custom_domain_step
  custom-Keeps domain w g =
      if_elim (λ (r : Result Error (Unit {0}) × Work). IsGood r.1) (str_eq domain [])
        (λ no_domain. g)
        (λ asked.
          if_elim (λ (r : Result Error (Unit {0}) × Work). IsGood r.1) client.dynamic
            (λ there. slot-IsGood domain w _ g (slot-Safe w.cluster)) (λ missing. g))

  pub domain-Keeps : (domain : Bytes) → Keeps (domain_step client fails name domain)
  unfolding domain_step
  domain-Keeps domain w g =
      after-IsGood (custom_domain_step client fails name domain) (snapshot_step client fails name w)
        (custom-Keeps domain) (snapshot-Keeps w g)

  pub steps-Keeps :
      (fresh secret protocol local_port : Bytes) (opts : Options)
      → All Keeps (steps client fails fresh name secret protocol local_port opts)
  unfolding steps
  steps-Keeps fresh secret protocol local_port opts = (
    secret-Keeps fresh secret opts,
    (
      deployment-Keeps secret protocol local_port opts,
      (
        service-Keeps,
        (
          tcp-Keeps protocol,
          All-append Keeps (domain_steps client fails name protocol opts) _
              (if_elim (All Keeps) (str_eq protocol https && not (str_eq opts.custom_domain []))
                (λ custom. (domain-Keeps opts.custom_domain, tt)) (λ none_asked. tt))
              (ingress-Keeps protocol opts, (port-Keeps protocol, tt)),
        ),
      ),
    ),
  )
