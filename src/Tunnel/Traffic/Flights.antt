-- ===== src/Tunnel/Traffic/Flights.antt =====
-- Requests that arrive, finish and are broken off in any order, and what the counters say of them.
use sealtun.Prelude.{
  ℕ, ◌+◌, ◌≡◌, refl, ap, ◌∙◌, Bool, true, false, not, List, [], ◌∷◌, ◌++◌, Option, none, some,
  Bytes, arith, leb, if◌then◌else◌, length, length-append, if_elim,
}
use mathlib.Core.Path.{subst}
use sealtun.Http.{Request}
use sealtun.PublicAuth.{BasicAuth}
use sealtun.AccessPolicy.{has_token_auth}
use sealtun.AccessPolicy.Network.{Cache, Verdict, pass, reject, network_allowed_for_ip}
use sealtun.AccessPolicy.Client.{client_ip}
use sealtun.AccessPolicy.RateLimiter.{Limiter, allow?}
use sealtun.Tunnel.BasicCache
use sealtun.Tunnel.BasicCache.{authorized_basic_auth}
use sealtun.Tunnel.Traffic.{
  World, AuthKind, Counters, Server, Flight, Outcome, Answer, refused, forwarded, audited,
  rate_limit_key, by_basic, authorize, authorized_public_traffic, forward, after_authorization,
  after_limit, after_network, arrive, finish, abort,
}

module _ (world : World) where
  open world use {net, hashing, parse_basic}

  -- The server with the requests that wait for their response, the outcomes of the finished ones and the
  -- requests whose response was broken off.
  pub record Traffic : Type 0 where
    pub server : Server world
    pub in_flight : List (Flight world)
    pub done : List (Outcome world)
    pub aborted : List (Flight world)

  -- One half of `handlePublicTraffic`, for any request and any flight.
  pub data Step : Traffic → Traffic → Type 0 where
    refuse :
        {t : Traffic} (r : Request) (now : ℕ) {s : Server world} {status : ℕ}
        {challenges : List Bytes}
        → arrive world t.server r now ≡ (s, refused status challenges)
        → Step t (record t { server = s })
    admit :
        {t : Traffic} (r : Request) (now : ℕ) {s : Server world} {f : Flight world}
        → arrive world t.server r now ≡ (s, forwarded f)
        → Step t (record t { server = s; in_flight = f ∷ t.in_flight })
    complete :
        {t : Traffic} (before after : List (Flight world)) (f : Flight world) (o : Outcome world)
        → t.in_flight ≡ before ++ f ∷ after
        → Step t (record {
          server = finish world t.server f o;
          in_flight = before ++ after;
          aborted = t.aborted;
          done = o ∷ t.done;
        })
    break_off :
        {t : Traffic} (before after : List (Flight world)) (f : Flight world)
        → t.in_flight ≡ before ++ f ∷ after
        → Step t (record {
          server = abort world t.server;
          in_flight = before ++ after;
          done = t.done;
          aborted = f ∷ t.aborted;
        })

  pub data Steps : Traffic → Traffic → Type 0 where
    stay : {t : Traffic} → Steps t t
    then_step : {t u v : Traffic} → Steps t u → Step u v → Steps t v

  abbrev pub bytes_of : List (Outcome world) → ℕ
  bytes_of [] = 0
  bytes_of (o ∷ os) = bytes_of os + o.bytes

  abbrev pub failures_of : List (Outcome world) → ℕ
  failures_of [] = 0
  failures_of (o ∷ os) = if leb 500 o.status then failures_of os + 1 else failures_of os

  -- What the counters of a server count.
  pub record Counted (t : Traffic) : Type 0 where
    pub active : t.server.counters.active_requests ≡ length t.in_flight
    pub total :
        t.server.counters.total_requests ≡ length t.in_flight + length t.done + length t.aborted
    pub bytes : t.server.counters.total_response_bytes ≡ bytes_of t.done
    pub failures : t.server.counters.total_5xx ≡ failures_of t.done

  abbrev arrived : Counters → Counters
  arrived c = record c {
    total_requests = c.total_requests + 1;
    active_requests = c.active_requests + 1;
  }

  -- A refusal leaves the counters as they are.
  abbrev Kept : Counters → Server world × Answer world → Type 0
  Kept c (s, refused status challenges) = s.counters ≡ c
  Kept c (s, forwarded f) = s.counters ≡ arrived c

  by_basic-counters :
      (s : Server world) (r : Request) (now : ℕ) (a : BasicCache.Cache × Bool)
      → (by_basic world s r now a).0.counters ≡ s.counters
  unfolding by_basic
  by_basic-counters s r now (cache, true) = refl
  by_basic-counters s r now (cache, false) = refl

  authorize-counters :
      (s : Server world) (auth : Option BasicAuth) (r : Request) (now : ℕ)
      → (authorize world s auth r now).0.counters ≡ s.counters
  unfolding authorize
  authorize-counters s none r now =
      if_elim (λ (p : Server world × Option AuthKind). p.0.counters ≡ s.counters)
        (not (has_token_auth s.access_policy)) (λ _. refl) (λ _. refl)
  authorize-counters s (some config) r now =
      by_basic-counters s r now
        (authorized_basic_auth hashing parse_basic s.basic_cache (some config) r)

  after_authorization-Kept :
      (c : Counters) (r : Request) (ip : Option net.Ip) (now : ℕ)
      (p : Server world × Option AuthKind)
      → p.0.counters ≡ c
      → Kept c (after_authorization world r ip now p)
  unfolding after_authorization audited forward
  after_authorization-Kept c r ip now (s, none) e = e
  after_authorization-Kept c r ip now (s, some kind) e = ap arrived e

  after_limit-Kept :
      (s : Server world) (r : Request) (ip : Option net.Ip) (now : ℕ) (p : Option Limiter × Bool)
      → Kept s.counters (after_limit world s r ip now p)
  unfolding after_limit audited authorized_public_traffic
  after_limit-Kept s r ip now (limiter, true) =
      let t = record s { rate_limiter = limiter } in
      after_authorization-Kept s.counters r ip now (authorized_public_traffic world t r now)
        (authorize-counters t s.basic_auth r now)
  after_limit-Kept s r ip now (limiter, false) = refl

  after_network-Kept :
      (s : Server world) (r : Request) (ip : Option net.Ip) (now : ℕ) (p : Cache net × Verdict net)
      → Kept s.counters (after_network world s r ip now p)
  unfolding after_network audited
  after_network-Kept s r ip now (matchers, pass) =
      after_limit-Kept (record s { matchers = matchers }) r ip now
        (allow? s.rate_limiter (rate_limit_key world ip) now now)
  after_network-Kept s r ip now (matchers, reject reason) = refl

  arrive-Kept : (s : Server world) (r : Request) (now : ℕ) → Kept s.counters (arrive world s r now)
  unfolding arrive
  arrive-Kept s r now =
      let ip = client_ip net r in
      after_network-Kept s r ip now (network_allowed_for_ip net s.matchers s.access_policy ip)

  Step-Counted : {t u : Traffic} → Step t u → Counted t → Counted u
  unfolding finish audited abort
  Step-Counted {t} (refuse r now e) c =
      let kept = subst (Kept t.server.counters) e (arrive-Kept t.server r now) in
      record {
        active = ap Counters.active_requests kept ∙ c.active;
        total = ap Counters.total_requests kept ∙ c.total;
        bytes = ap Counters.total_response_bytes kept ∙ c.bytes;
        failures = ap Counters.total_5xx kept ∙ c.failures;
      }
  Step-Counted {t} (admit r now e) c =
      let kept = subst (Kept t.server.counters) e (arrive-Kept t.server r now) in
      record {
        active = omega (arith, ap Counters.active_requests kept, c.active);
        total = omega (arith, ap Counters.total_requests kept, c.total);
        bytes = ap Counters.total_response_bytes kept ∙ c.bytes;
        failures = ap Counters.total_5xx kept ∙ c.failures;
      }
  Step-Counted {t} (complete before after f o e) c =
      let waiting = ap length e ∙ length-append before (f ∷ after) in
      let left = length-append before after in
      record {
        active = omega (arith, c.active, waiting, left);
        total = omega (arith, c.total, waiting, left);
        bytes = ap (λ n. n + o.bytes) c.bytes;
        failures = ap (λ n. if leb 500 o.status then n + 1 else n) c.failures;
      }
  Step-Counted {t} (break_off before after f e) c =
      let waiting = ap length e ∙ length-append before (f ∷ after) in
      let left = length-append before after in
      record {
        active = omega (arith, c.active, waiting, left);
        total = omega (arith, c.total, waiting, left);
        bytes = c.bytes;
        failures = c.failures;
      }

  -- However requests arrive, are refused, finish and are broken off in between, the gauge of active requests
  -- is the number of those in flight, the total is those in flight, finished and broken off, and the response
  -- bytes and the failures are the sums over the outcomes of the finished ones, if all this holds at the start.
  pub Steps-Counted : {t u : Traffic} → Steps t u → Counted t → Counted u
  Steps-Counted stay c = c
  Steps-Counted (then_step before last) c = Step-Counted last (Steps-Counted before c)
