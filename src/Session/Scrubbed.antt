-- ===== src/Session/Scrubbed.antt =====
-- pkg/session/session.go: credentials that were scrubbed do not come back when a session is saved.
use mathlib.Core.Path.{subst}
use sealtun.Prelude.{
  ◌≡◌, refl, sym, ap, ◌∙◌, Bool, true, false, ◌||◌, [], List, ◌∷◌, Option, none, some, Bytes,
  str_eq, str_eq_iff, str_eq_refl, Result, ok, err, arith, ◌==◌, Bool-cases, if_elim, Option-cases,
  Result-cases, inl, inr,
}
use sealtun.Assoc.{lookup, insert, lookup-insert}
use sealtun.Session.{
  Error, TunnelSession, Host, Store, File, validate_tunnel_id, encrypt, decrypt,
  sync_pid_start_token, scrubbed, against, parsed_against, preserve, stamped, save, update, get,
  update_atomic, Write, saving, updating, mutating, written, settled, write_all,
}

module _ (host : Host) where
  -- What is sealed can be opened, and a session is read back from its JSON.
  pub record IsCodec : Type 0 where
    pub opens : (plain : host.Json) → host.unseal (host.seal plain) ≡ some plain
    pub reads : (s : TunnelSession) → host.of_json (host.to_json s) ≡ some s

  -- A session that is marked as scrubbed and has no credentials.
  pub record HasNone (s : TunnelSession) : Type 0 where
    pub marked : s.credentials_scrubbed ≡ true
    pub secret : s.secret ≡ []
    pub basic_auth : s.basic_auth ≡ none
    pub access_policy : s.access_policy ≡ none
    pub kubeconfig : s.kubeconfig ≡ []

  -- The file of the session holds its scrubbed record.
  pub record IsScrubbed (id : Bytes) (store : Store host) : Type 0 where
    pub file : File host
    pub plain : host.Json
    pub session : TunnelSession
    pub stored : lookup id store ≡ some file
    pub opened : decrypt host file ≡ some plain
    pub parsed : host.of_json plain ≡ some session
    pub own : session.tunnel_id ≡ id
    pub clean : HasNone session

  decrypt-encrypt : (plain : host.Json) → IsCodec → decrypt host (encrypt host plain) ≡ some plain
  unfolding decrypt encrypt
  decrypt-encrypt plain c = c.opens plain

  kept_id :
      (s : TunnelSession) → (sync_pid_start_token host (stamped host s)).tunnel_id ≡ s.tunnel_id
  unfolding sync_pid_start_token stamped
  kept_id s =
      let t = stamped host s in
      let P = λ (u : TunnelSession). u.tunnel_id ≡ s.tunnel_id in
      if_elim P (t.pid == 0) (λ _. refl)
        (λ _.
          if_elim P (t.pid == host.own_pid || str_eq t.pid_start_token []) (λ _. refl) (λ _. refl))

  scrubbed-HasNone : (s : TunnelSession) → HasNone (scrubbed host s)
  unfolding scrubbed
  scrubbed-HasNone s = record {
    marked = refl;
    secret = refl;
    basic_auth = refl;
    access_policy = refl;
    kubeconfig = refl;
  }

  -- Over the file of a scrubbed session, the scrubbed form of the new one is written.
  preserve-scrubbed :
      (next : TunnelSession) (store : Store host) (h : IsScrubbed next.tunnel_id store)
      → preserve host next (lookup next.tunnel_id store) ≡ ok (scrubbed host next)
  unfolding preserve parsed_against against
  preserve-scrubbed next store h =
      rw (h.stored, h.opened, h.parsed)
        (ground (arith, h.own, h.clean.marked, str_eq_iff h.session.tunnel_id next.tunnel_id))

  written-IsScrubbed :
      (id : Bytes) (store : Store host) (s : TunnelSession)
      → IsCodec
      → s.tunnel_id ≡ id
      → HasNone s
      → IsScrubbed id (insert id (encrypt host (host.to_json s)) store)
  written-IsScrubbed id store s c own clean = record {
    file = encrypt host (host.to_json s);
    plain = host.to_json s;
    session = s;
    stored =
        ground (arith, lookup-insert id id (encrypt host (host.to_json s)) store, str_eq_refl id);
    opened = decrypt-encrypt (host.to_json s) c;
    parsed = c.reads s;
    own = own;
    clean = clean;
  }

  other-IsScrubbed :
      (id k : Bytes) (file : File host) (store : Store host)
      → str_eq k id ≡ false
      → IsScrubbed id store
      → IsScrubbed id (insert k file store)
  other-IsScrubbed id k file store e h = record {
    file = h.file;
    plain = h.plain;
    session = h.session;
    stored = ground (arith, lookup-insert k id file store, e, h.stored);
    opened = h.opened;
    parsed = h.parsed;
    own = h.own;
    clean = h.clean;
  }

  -- What a save that succeeds has written.
  record Written (store : Store host) (s : TunnelSession) (store' : Store host) : Type 0 where
    next : TunnelSession
    kept :
        preserve host (sync_pid_start_token host (stamped host s)) (lookup s.tunnel_id store)
        ≡ ok next
    write : insert s.tunnel_id (encrypt host (host.to_json next)) store ≡ store'

  save-Written :
      (store : Store host) (s : TunnelSession) {store' : Store host}
      → save host store s ≡ ok store'
      → Written store s store'
  unfolding save
  save-Written store s {store'} e =
      let synced = sync_pid_start_token host (stamped host s) in
      elim (Result-cases (validate_tunnel_id s.tunnel_id)) [
        | inr (why, q) ↦ absurd (ground (arith, q))
        | inl (tt, q) ↦ elim (Result-cases (preserve host synced (lookup s.tunnel_id store))) [
          | inr (why, p) ↦ absurd (ground (arith, q, p))
          | inl (next, p) ↦ record { next = next; kept = p; write = ground (arith, q, p, e) }
        ]
      ]

  preserved :
      (k : Bytes) (next : TunnelSession) (store : Store host)
      → next.tunnel_id ≡ k
      → IsScrubbed k store
      → preserve host next (lookup k store) ≡ ok (scrubbed host next)
  preserved k next store e h =
      let P = λ (j : Bytes).
        IsScrubbed j store → preserve host next (lookup j store) ≡ ok (scrubbed host next) in
      subst P e (preserve-scrubbed next store) h

  own_id : (s : TunnelSession) → (scrubbed host s).tunnel_id ≡ s.tunnel_id
  unfolding scrubbed
  own_id s = refl

  result_ok : {A : Type 0} {a b : A} → ◌≡◌ {A = Result Error A} (ok a) (ok b) → a ≡ b
  result_ok h = cc

  save-own :
      (store : Store host) (s : TunnelSession) {store' : Store host}
      → IsCodec
      → IsScrubbed s.tunnel_id store
      → save host store s ≡ ok store'
      → IsScrubbed s.tunnel_id store'
  save-own store s c h e =
      let w = save-Written store s e in
      let synced = sync_pid_start_token host (stamped host s) in
      let next : w.next ≡ scrubbed host synced =
        result_ok (sym w.kept ∙ preserved s.tunnel_id synced store (kept_id s) h) in
      subst (IsScrubbed s.tunnel_id) w.write (
        written-IsScrubbed s.tunnel_id store w.next c
          (ap TunnelSession.tunnel_id next ∙ own_id synced ∙ kept_id s)
          (subst HasNone (sym next) (scrubbed-HasNone synced)))

  pub save-IsScrubbed :
      (id : Bytes) (store : Store host) (s : TunnelSession) {store' : Store host}
      → IsCodec
      → IsScrubbed id store
      → save host store s ≡ ok store'
      → IsScrubbed id store'
  save-IsScrubbed id store s {store'} c h e = elim (Bool-cases (str_eq s.tunnel_id id)) [
    | inl q ↦
        let same = (str_eq_iff s.tunnel_id id).0 q in
        subst (λ j. IsScrubbed j store') same
          (save-own store s c (subst (λ j. IsScrubbed j store) (sym same) h) e)
    | inr q ↦
        let w = save-Written store s e in
        subst (IsScrubbed id) w.write
          (other-IsScrubbed id s.tunnel_id (encrypt host (host.to_json w.next)) store q h)
  ]

  update-IsScrubbed :
      (id : Bytes) (store : Store host) (s : TunnelSession) {store' : Store host}
      → IsCodec
      → IsScrubbed id store
      → update host store s ≡ ok store'
      → IsScrubbed id store'
  unfolding update
  update-IsScrubbed id store s {store'} c h e =
      elim (Result-cases (validate_tunnel_id s.tunnel_id)) [
        | inr (why, q) ↦ absurd (ground (arith, q))
        | inl (tt, q) ↦ save-IsScrubbed id store s c h (ground (arith, q, e))
      ]

  update_atomic-IsScrubbed :
      (id k : Bytes) (store : Store host) (mutate : TunnelSession → Option (TunnelSession × Bool))
      {store' : Store host}
      → IsCodec
      → IsScrubbed id store
      → update_atomic host store k mutate ≡ ok store'
      → IsScrubbed id store'
  unfolding update_atomic
  update_atomic-IsScrubbed id k store mutate {store'} c h e =
      elim (Result-cases (validate_tunnel_id k)) [
        | inr (why, q) ↦ absurd (ground (arith, q))
        | inl (tt, q) ↦ elim (Result-cases (get host store k)) [
          | inr (why, g) ↦ absurd (ground (arith, q, g))
          | inl (current, g) ↦ elim (Option-cases (mutate current)) [
            | inl m ↦ absurd (ground (arith, q, g, m))
            | inr ((next, changed), m) ↦ elim (Bool-cases changed) [
              | inl y ↦ save-IsScrubbed id store next c h (ground (arith, q, g, m, y, e))
              | inr n ↦
                  let same : store ≡ store' = ground (arith, q, g, m, n, e) in
                  subst (IsScrubbed id) same h
            ]
          ]
        ]
      ]

  written-step :
      (id : Bytes) (store : Store host) (w : Write host) (r : Result Error (Store host))
      → IsCodec
      → IsScrubbed id store
      → written host store w ≡ r
      → IsScrubbed id (settled host store r)
  unfolding written
  written-step id store w (err why) c h e = h
  written-step id store (saving s) (ok store') c h e = save-IsScrubbed id store s c h e
  written-step id store (updating s) (ok store') c h e = update-IsScrubbed id store s c h e
  written-step id store (mutating k mutate) (ok store') c h e =
      update_atomic-IsScrubbed id k store mutate c h e

  -- Once the file of a session holds its scrubbed record, it holds a scrubbed record with no
  -- credentials after any sequence of saves, updates and atomic updates, whatever sessions these
  -- write, failed ones included.
  pub write_all-IsScrubbed :
      (id : Bytes) (store : Store host) (ws : List (Write host))
      → IsCodec
      → IsScrubbed id store
      → IsScrubbed id (write_all host store ws)
  unfolding write_all
  write_all-IsScrubbed id store [] c h = h
  write_all-IsScrubbed id store (w ∷ ws) c h =
      write_all-IsScrubbed id (settled host store (written host store w)) ws c
        (written-step id store w (written host store w) c h refl)
