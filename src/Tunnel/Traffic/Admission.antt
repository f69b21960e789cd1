-- ===== src/Tunnel/Traffic/Admission.antt =====
-- What a request has passed when it is forwarded, and what it is forwarded as.
use sealtun.Prelude.{
  ℕ, ◌≡◌, ◌⊎◌, inl, inr, refl, sym, ap, ◌∙◌, Bool, true, false, not, Option, none, some, Bytes,
  codes, arith, if_elim,
}
use mathlib.Core.Path.{subst}
use sealtun.Http.{Request, Values, del, lookup-del}
use sealtun.PublicAuth.{BasicAuth}
use sealtun.AccessPolicy.{Policy, has_token_auth}
use sealtun.AccessPolicy.Network.{Cache, Verdict, pass, reject, network_allowed_for_ip}
use sealtun.AccessPolicy.Client.{client_ip}
use sealtun.AccessPolicy.RateLimiter.{Limiter, allow?}
use sealtun.AccessPolicy.Tokens.{
  bearer_token_authorized, token_authorized, query_param, strip_temporary_token_query,
}
use sealtun.AccessPolicy.Tokens.Authorization.{Drops, Recodes, strip_temporary_token_query-Drops}
use sealtun.Tunnel.RequestLog.{Captured, is_upgrade_request}
use sealtun.Tunnel.RequestLog.Newest.{capture_request_body-IsCapture}
use sealtun.Tunnel.BasicCache
use sealtun.Tunnel.BasicCache.{authorized_basic_auth}
use sealtun.Tunnel.Traffic.{
  World, AuthKind, unprotected, basic, bearer, temporary, Server, Answer, refused, forwarded,
  rate_limit_key, uses_header, token_kind, by_basic, authorize, authorized_public_traffic,
  forwarded_request, capture, forward, after_authorization, after_limit, after_network, arrive,
}

module _ (world : World) where
  open world use {platform, net, hashing, parse_basic, parse_media_type}

  -- What each kind of authorization stands for.
  abbrev pub Authorized :
      AuthKind → Option BasicAuth → Option Policy → BasicCache.Cache → Request → ℕ → Type 0
  Authorized unprotected auth policy cache r now = (auth ≡ none) × (has_token_auth policy ≡ false)
  Authorized basic auth policy cache r now =
      (config : BasicAuth) × (auth ≡ some config)
      × ((authorized_basic_auth hashing parse_basic cache (some config) r).1 ≡ true)
  Authorized bearer auth policy cache r now =
      (has_token_auth policy ≡ true) × (bearer_token_authorized platform policy r ≡ true)
  Authorized temporary auth policy cache r now =
      (has_token_auth policy ≡ true)
      × (bearer_token_authorized platform policy r ≡ false)
      × (token_authorized platform policy r now ≡ true)

  module _ (auth : Option BasicAuth) (policy : Option Policy) (cache : BasicCache.Cache)
      (r : Request) (now : ℕ) where
    abbrev Holds : AuthKind → Type 0
    Holds kind = Authorized kind auth policy cache r now

    -- An authorization that is what it says, or a refusal where none holds.
    abbrev pub Right : Option AuthKind → Type 0
    Right none = (kind : AuthKind) → ¬ Holds kind
    Right (some kind) = Holds kind

    no_kind : ¬ Holds unprotected → ¬ Holds basic → ¬ Holds bearer → ¬ Holds temporary → Right none
    no_kind u b k t unprotected = u
    no_kind u b k t basic = b
    no_kind u b k t bearer = k
    no_kind u b k t temporary = t

    token_kind-Right : ¬ Holds unprotected → ¬ Holds basic → Right (token_kind world policy r now)
    unfolding token_kind
    token_kind-Right u b =
        if_elim Right (not (has_token_auth policy))
          (λ h. no_kind u b (λ q. ground (arith, q)) (λ q. ground (arith, q)))
          (λ h.
            if_elim Right (bearer_token_authorized platform policy r) (λ k. (ground arith, k))
              (λ k.
                if_elim Right (token_authorized platform policy r now) (λ t. (ground arith, k, t))
                  (λ t. no_kind u b (λ q. ground (arith, q)) (λ q. ground (arith, q)))))

  abbrev Decided : Server world → Request → ℕ → Option AuthKind → Type 0
  Decided s r now = Right s.basic_auth s.access_policy s.basic_cache r now

  same_config : {a b : BasicAuth} → some a ≡ some b → a ≡ b
  same_config h = cc

  by_basic-Right :
      (s : Server world) (config : BasicAuth) (r : Request) (now : ℕ) (a : BasicCache.Cache × Bool)
      → s.basic_auth ≡ some config
      → authorized_basic_auth hashing parse_basic s.basic_cache (some config) r ≡ a
      → Decided s r now (by_basic world s r now a).1
  unfolding by_basic
  by_basic-Right s config r now (cache, true) e h = (config, e, ap (λ p. p.1) h)
  by_basic-Right s config r now (cache, false) e h =
      token_kind-Right s.basic_auth s.access_policy s.basic_cache r now
        (λ u. ground (arith, u.0, e))
        (λ b. ground (
          arith,
          b.2,
          ap (λ c. (authorized_basic_auth hashing parse_basic s.basic_cache (some c) r).1)
              (same_config (sym b.1 ∙ e)),
          ap (λ p. p.1) h,
        ))

  authorize-Right :
      (s : Server world) (auth : Option BasicAuth) (r : Request) (now : ℕ)
      → s.basic_auth ≡ auth
      → Decided s r now (authorize world s auth r now).1
  unfolding authorize
  authorize-Right s none r now e =
      if_elim (λ (p : Server world × Option AuthKind). Decided s r now p.1)
        (not (has_token_auth s.access_policy)) (λ h. (e, ground arith))
        (λ h.
          token_kind-Right s.basic_auth s.access_policy s.basic_cache r now (λ u. ground (arith, u))
            (λ b. ground (arith, b.1, e)))
  authorize-Right s (some config) r now e =
      by_basic-Right s config r now
        (authorized_basic_auth hashing parse_basic s.basic_cache (some config) r) e refl

  -- The header that an authorization of the kind has used up is not sent.
  abbrev pub SentHeader : AuthKind → (before after : Values) → Type 0
  SentHeader unprotected before after = after ≡ before
  SentHeader basic before after = Drops (codes "Authorization") before after
  SentHeader bearer before after = Drops (codes "Authorization") before after
  SentHeader temporary before after = after ≡ before

  -- The query goes on without the parameter of temporary tokens, and nothing else is changed.
  pub record Sent (kind : AuthKind) (r q : Request) : Type 0 where
    pub header : SentHeader kind r.header q.header
    pub query :
        Drops query_param (platform.parse_query r.raw_query) (platform.parse_query q.raw_query)
    pub rest : q ≡ record r { header = q.header; raw_query = q.raw_query }

  del-Drops : (name : Bytes) (m : Values) → Drops name m (del name m)
  del-Drops name m k = lookup-del name k m

  forwarded-Sent :
      Recodes platform
      → (kind : AuthKind) (r : Request) → Sent kind r (forwarded_request world kind r)
  unfolding forwarded_request uses_header
  forwarded-Sent codec kind r =
      let (dropped, same) = strip_temporary_token_query-Drops platform codec r in
      let q = strip_temporary_token_query platform r in
      let dropped_header =
        subst (λ h. Drops (codes "Authorization") h (del (codes "Authorization") q.header))
          (ap Request.header same) (del-Drops (codes "Authorization") q.header) in
      let without : Request → Request =
        λ x. record x { header = del (codes "Authorization") q.header } in
      elim kind as (λ k. Sent k r (forwarded_request world k r)) [
        | unprotected ↦ record {
          header = ap Request.header same;
          query = dropped;
          rest = whole r q same;
        }
        | basic ↦ record { header = dropped_header; query = dropped; rest = ap without same }
        | bearer ↦ record { header = dropped_header; query = dropped; rest = ap without same }
        | temporary ↦ record {
          header = ap Request.header same;
          query = dropped;
          rest = whole r q same;
        }
      ]
    where
      whole :
          (r q : Request)
          → q ≡ record r { raw_query = q.raw_query }
          → q ≡ record r { header = q.header; raw_query = q.raw_query }
      whole r q e =
          e ∙ ap (λ h. record r { header = h; raw_query = q.raw_query }) (sym (ap Request.header e))

  capture_same : (r : Request) → (capture world r).1 ≡ r
  unfolding capture
  capture_same r =
      if_elim (λ (p : Captured × Request). p.1 ≡ r) (is_upgrade_request r) (λ upgrade. refl)
        (λ plain. (capture_request_body-IsCapture parse_media_type r).1)

  -- What was found about a request when it was refused or forwarded.
  abbrev pub Gate : Server world → Request → ℕ → Answer world → Type 0
  Gate s r now (refused status challenges) =
      let ip = client_ip net r in
      let network = (network_allowed_for_ip net s.matchers s.access_policy ip).1 in
      let limit = (allow? s.rate_limiter (rate_limit_key world ip) now now).1 in
      ((status ≡ 403) × ((reason : Bytes) × (network ≡ reject reason)))
      ⊎ ((status ≡ 429) × (network ≡ pass) × (limit ≡ false))
      ⊎ ((status ≡ 401)
          × (network ≡ pass)
          × (limit ≡ true)
          × ((kind : AuthKind)
              → ¬ Authorized kind s.basic_auth s.access_policy s.basic_cache r now))
  Gate s r now (forwarded f) =
      let ip = client_ip net r in
      ((network_allowed_for_ip net s.matchers s.access_policy ip).1 ≡ pass)
      × ((allow? s.rate_limiter (rate_limit_key world ip) now now).1 ≡ true)
      × Authorized f.kind s.basic_auth s.access_policy s.basic_cache r now
      × Sent f.kind r f.request
      × (f.client ≡ ip)

  forward-Gate :
      Recodes platform
      → (s t : Server world) (kind : AuthKind) (r : Request) (now : ℕ)
      → (network_allowed_for_ip net s.matchers s.access_policy (client_ip net r)).1 ≡ pass
      → (allow? s.rate_limiter (rate_limit_key world (client_ip net r)) now now).1 ≡ true
      → Authorized kind s.basic_auth s.access_policy s.basic_cache r now
      → Gate s r now (forward world t kind r (client_ip net r) now).1
  unfolding forward
  forward-Gate codec s t kind r now n l a =
      let sent =
        subst (Sent kind r) (sym (capture_same (forwarded_request world kind r)))
          (forwarded-Sent codec kind r) in
      (n, l, a, sent, refl)

  after_authorization-Gate :
      Recodes platform
      → (s : Server world) (r : Request) (now : ℕ) (p : Server world × Option AuthKind)
      → (network_allowed_for_ip net s.matchers s.access_policy (client_ip net r)).1 ≡ pass
      → (allow? s.rate_limiter (rate_limit_key world (client_ip net r)) now now).1 ≡ true
      → Decided s r now p.1
      → Gate s r now (after_authorization world r (client_ip net r) now p).1
  unfolding after_authorization
  after_authorization-Gate codec s r now (t, none) n l d = inr (inr (refl, n, l, d))
  after_authorization-Gate codec s r now (t, some kind) n l d =
      forward-Gate codec s t kind r now n l d

  after_limit-Gate :
      Recodes platform
      → (s : Server world) (matchers : Cache net) (r : Request) (now : ℕ)
        (p : Option Limiter × Bool)
      → (network_allowed_for_ip net s.matchers s.access_policy (client_ip net r)).1 ≡ pass
      → (allow? s.rate_limiter (rate_limit_key world (client_ip net r)) now now).1 ≡ p.1
      → Gate s r now
          (after_limit world (record s { matchers = matchers }) r (client_ip net r) now p).1
  unfolding after_limit authorized_public_traffic
  after_limit-Gate codec s matchers r now (limiter, true) n l =
      let t = record s { matchers = matchers; rate_limiter = limiter } in
      after_authorization-Gate codec s r now (authorized_public_traffic world t r now) n l
        (authorize-Right t s.basic_auth r now refl)
  after_limit-Gate codec s matchers r now (limiter, false) n l = inr (inl (refl, n, l))

  after_network-Gate :
      Recodes platform
      → (s : Server world) (r : Request) (now : ℕ) (p : Cache net × Verdict net)
      → (network_allowed_for_ip net s.matchers s.access_policy (client_ip net r)).1 ≡ p.1
      → Gate s r now (after_network world s r (client_ip net r) now p).1
  unfolding after_network
  after_network-Gate codec s r now (matchers, pass) n =
      after_limit-Gate codec s matchers r now
        (allow? s.rate_limiter (rate_limit_key world (client_ip net r)) now now) n refl
  after_network-Gate codec s r now (matchers, reject reason) n = inl (refl, (reason, n))

  -- If reading an encoded query gives its values back and an empty query has none, the following holds.
  -- A request is forwarded only if the IP rules let its client pass, then the limiter, and then an
  -- authorization holds of the kind that the forwarded request is marked with; what goes on is the
  -- request without the parameter of temporary tokens, and without its Authorization header where that
  -- was the authorization, and otherwise as it was. It is refused with 403 if the IP rules reject it, with 429
  -- if the limiter does, and with 401 if no kind of authorization holds.
  pub arrive-Gate :
      Recodes platform
      → (s : Server world) (r : Request) (now : ℕ) → Gate s r now (arrive world s r now).1
  unfolding arrive
  arrive-Gate codec s r now =
      after_network-Gate codec s r now
        (network_allowed_for_ip net s.matchers s.access_policy (client_ip net r)) refl
