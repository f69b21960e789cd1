-- ===== src/Kubernetes/Ensure/Undone.antt =====
-- pkg/k8s/client.go: the rollback of a tunnel that could not be made in a namespace with nothing of it.
use mathlib.Core.Path.{subst}
use sealtun.Prelude.{
  ℕ, ◌≡◌, inl, inr, refl, Bool, true, false, not, ◌&&◌, List, [], ◌∷◌, ◌++◌, none, some, Bytes,
  str_eq, Result, ok, err, if_elim, arith,
}
use sealtun.Protocol.{https}
use sealtun.Kubernetes.{Kind, Object, auth_secret_name}
use sealtun.Kubernetes.Cluster.{Cluster, Error, set_object}
use sealtun.Kubernetes.Apply.{AuthSecret, resource_secret}
use sealtun.Kubernetes.Apply.Guarded.{Protects, auth_secret-Careful}
use sealtun.Kubernetes.Apply.Outcome.{Tagged, IsFresh, KeepsLabels, FirstSecret, first_secret}
use sealtun.Kubernetes.Work.{Options, Client, Work, Step, and_after, run, start}
use sealtun.Kubernetes.Ensure.{
  secret_done, secret_step, deployment_step, service_step, tcp_step, ingress_step, port_step,
  domain_step, domain_steps, steps,
}
use sealtun.Kubernetes.Ensure.Journal.{
  At, note-Traced, same-Traced, deployment-Logs, service-Logs, tcp-Logs, ingress-Logs, port-Logs,
}
use sealtun.Kubernetes.Ensure.Snapshots.{domain-Logged}

module _ (client : Client) (keeps : KeepsLabels client.admit) (fails : ℕ → Bool) (name : Bytes)
    (c0 : Cluster) (fresh : IsFresh name c0.objects) where
  abbrev In : Bool → Work → Type 0
  In = At client keeps fails name c0.objects fresh

  abbrev pub Ends : Work → Type 0
  Ends w = (snapped : Bool) × In snapped w

  begun : In false (start c0)
  begun = record { known = λ k n o h. inl h; no_rollback = refl; snaps = refl }

  created-In :
      (salt : Bytes) (c : Cluster) (x : Object)
      → Tagged name x
      → c.objects ≡ set_object Kind.secret (auth_secret_name name) (some x) c0.objects
      → Protects name c0.objects c.objects
      → In false
          (secret_done client fails name
            (start c0)
            (ok (record { created = true; rollback = none; salt = salt }), c)).1
  unfolding secret_done
  created-In salt c x t e p =
      note-Traced client fails name c0.objects false resource_secret
        (record (start c0) { rollback = none; salt = salt }) (ok true, c) fresh refl
        (record { known = λ k n o h. inl h; no_rollback = refl; snaps = refl })
        (inr (x, t, e, inl refl)) p

  first-In :
      (r : Result Error AuthSecret × Cluster)
      → FirstSecret name c0.objects r
      → Protects name c0.objects r.1.objects
      → In false (secret_done client fails name (start c0) r).1
  unfolding secret_done
  first-In (err e, c) (inl (same, q)) p =
      same-Traced client keeps fails name c0.objects fresh false (start c0) c begun same
  first-In (err e, c) (inr (x, t, e', (salt, q))) p = absurd (ground arith)
  first-In (ok s, c) (inl (same, (e, q))) p = absurd (ground arith)
  first-In (ok s, c) (inr (x, t, e, (salt, q))) p =
      let same : record { created = true; rollback = none; salt = salt } ≡ s = cc in
      subst (λ s. In false (secret_done client fails name (start c0) (ok s, c)).1) same
        (created-In salt c x t e p)

  secret-In :
      (salt secret : Bytes) (opts : Options)
      → In false (secret_step client fails salt name secret opts (start c0)).1
  unfolding secret_step
  secret-In salt secret opts =
      first-In _
        (first_secret fails client.admit keeps name client.encoding salt secret opts.basic_auth
          opts.access_policy c0 fresh)
        (auth_secret-Careful fails client.admit name client.encoding salt secret opts.basic_auth
          opts.access_policy c0)

  -- One step, and then those behind it.
  then-Ends :
      (ss : List Step) (r : Result Error (Unit {0}) × Work) (snapped : Bool)
      → In snapped r.1
      → ((w : Work) → In snapped w → Ends (run ss w).1)
      → Ends (and_after (run ss) r).1
  then-Ends ss (ok t, w) snapped i f = f w i
  then-Ends ss (err e, w) snapped i f = (snapped, i)

  step-Ends :
      (s : Step) (ss : List Step) (snapped : Bool) (w : Work)
      → In snapped (s w).1
      → ((w : Work) → In snapped w → Ends (run ss w).1)
      → Ends (run (s ∷ ss) w).1
  unfolding run
  step-Ends s ss snapped w i f = then-Ends ss (s w) snapped i f

  last-Ends :
      (protocol : Bytes) (opts : Options) (snapped : Bool) (w : Work)
      → In snapped w
      → Ends
          (run
            (ingress_step client fails name protocol opts
              ∷ port_step client fails name protocol
              ∷ [])
            w).1
  unfolding run
  last-Ends protocol opts snapped w i =
      let port = port_step client fails name protocol in
      step-Ends (ingress_step client fails name protocol opts) (port ∷ []) snapped w
        (ingress-Logs client keeps fails name c0.objects fresh protocol opts snapped w i)
        (λ w1 i1.
          step-Ends port [] snapped w1
            (port-Logs client keeps fails name c0.objects fresh protocol snapped w1 i1)
            (λ w2 i2. (snapped, i2)))

  tail-Ends :
      (protocol : Bytes) (opts : Options) (w : Work)
      → In false w
      → Ends
          (run
            (domain_steps client fails name protocol opts
              ++ (ingress_step client fails name protocol opts
                  ∷ port_step client fails name protocol
                  ∷ []))
            w).1
  tail-Ends protocol opts w i =
      if_elim
        (λ ds.
          Ends
            (run
              (ds
                ++ (ingress_step client fails name protocol opts
                    ∷ port_step client fails name protocol
                    ∷ []))
              w).1)
        (str_eq protocol https && not (str_eq opts.custom_domain []))
        (λ custom.
          let (snapped, t) =
            domain-Logged client keeps fails name c0.objects fresh opts.custom_domain w i in
          step-Ends (domain_step client fails name opts.custom_domain)
            (ingress_step client fails name protocol opts
              ∷ port_step client fails name protocol
              ∷ [])
            snapped w t (λ w1 i1. last-Ends protocol opts snapped w1 i1))
        (λ none_asked. last-Ends protocol opts false w i)

  pub steps-Ends :
      (salt secret protocol local_port : Bytes) (opts : Options)
      → Ends (run (steps client fails salt name secret protocol local_port opts) (start c0)).1
  unfolding steps
  steps-Ends salt secret protocol local_port opts =
      let first = secret_step client fails salt name secret opts in
      let second = deployment_step client fails name secret protocol local_port opts in
      let third = service_step client fails name in
      let fourth = tcp_step client fails name protocol in
      let rest =
        domain_steps client fails name protocol opts
        ++ (ingress_step client fails name protocol opts
            ∷ port_step client fails name protocol
            ∷ []) in
      step-Ends first (second ∷ third ∷ fourth ∷ rest) false (start c0) (secret-In salt secret opts)
        (λ w1 i1.
          step-Ends second (third ∷ fourth ∷ rest) false w1
            (deployment-Logs client keeps fails name c0.objects fresh secret protocol local_port
              opts false w1 i1)
            (λ w2 i2.
              step-Ends third (fourth ∷ rest) false w2
                (service-Logs client keeps fails name c0.objects fresh false w2 i2)
                (λ w3 i3.
                  step-Ends fourth rest false w3
                    (tcp-Logs client keeps fails name c0.objects fresh protocol false w3 i3)
                    (λ w4 i4. tail-Ends protocol opts w4 i4))))
