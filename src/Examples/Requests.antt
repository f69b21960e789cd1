-- ===== src/Examples/Requests.antt =====
-- Runs of the public traffic of a small server.
use sealtun.Prelude.{
  ℕ, zero, suc, ◌-◌, ◌++◌, ap, str_eq_refl, length-append, ◌≡◌, ◌↔◌, refl, true, false, [], ◌∷◌,
  none, some, Bytes, codes, ok, arith, str_eq, length,
}
use sealtun.Text.{contains, has_prefix}
use sealtun.Text.Trim.{trim_space}
use sealtun.PublicAuth.{
  BasicAuth, new_basic_auth, validate, check, validate_username, has_control_rune, hash_password,
}
use sealtun.PublicAuth.Credentials.{IsBcrypt, new_basic_auth-check}
use sealtun.Tunnel.BasicCache
use sealtun.Tunnel.Audit
use sealtun.Tunnel.RequestLog
use sealtun.Tunnel.Traffic.{Counters, Server, Flight, Outcome, finish, abort, arrive, unprotected}
use sealtun.Tunnel.Traffic.Admission.{Gate, arrive-Gate}
use sealtun.Tunnel.Traffic.Flights.{
  Traffic, Steps, Counted, complete, break_off, stay, then_step, Steps-Counted,
}
use sealtun.Examples.Stand.{
  zeros, small_world, small_hashing, small_policy, bearer_request, small_platform-Recodes,
}

abbrev counters : Counters
counters = record {
  total_requests = 2;
  active_requests = 2;
  total_response_bytes = 0;
  total_5xx = 0;
  last_status = 0;
  last_request_at = 0;
  total_duration_ms = 0;
}

abbrev server : Server small_world
server = record {
  basic_auth = none;
  access_policy = some small_policy;
  matchers = [];
  basic_cache = BasicCache.new;
  rate_limiter = none;
  audit = Audit.new;
  request_log = RequestLog.new;
  counters = counters;
}

arrive-Gate_example :
    Gate small_world server bearer_request 7 (arrive small_world server bearer_request 7).1
arrive-Gate_example = arrive-Gate small_world small_platform-Recodes server bearer_request 7

abbrev flight : Flight small_world
flight = record {
  kind = unprotected;
  request = bearer_request;
  client = some b'c';
  started = 7;
  captured = record { preview = []; replay = []; omitted = false; truncated = false };
}

abbrev failure : Outcome small_world
failure = record { status = 502; bytes = 40; now = 3000007 }

abbrev waiting : Traffic small_world
waiting = record { server = server; in_flight = flight ∷ flight ∷ []; done = []; aborted = [] }

waiting-Counted : Counted small_world waiting
waiting-Counted = record { active = refl; total = refl; bytes = refl; failures = refl }

abbrev answered : Traffic small_world
answered = record {
  server = finish small_world server flight failure;
  in_flight = flight ∷ [];
  done = failure ∷ [];
  aborted = [];
}

abbrev ended : Traffic small_world
ended = record {
  server = abort small_world (finish small_world server flight failure);
  in_flight = [];
  done = failure ∷ [];
  aborted = flight ∷ [];
}

ended-Steps : Steps small_world waiting ended
ended-Steps =
    then_step {u = answered} (then_step stay (complete [] (flight ∷ []) flight failure refl))
      (break_off [] [] flight refl)

Steps-Counted_example : Counted small_world ended
Steps-Counted_example = Steps-Counted small_world ended-Steps waiting-Counted

length-zeros : (n : ℕ) → length (zeros n) ≡ n
length-zeros zero = refl
length-zeros (suc n) = ap suc (length-zeros n)

small_hashing-IsBcrypt : IsBcrypt small_hashing
small_hashing-IsBcrypt = record {
  sized = sized;
  costed = λ salt password hash h. ground (arith, sized salt password hash h);
  agrees = λ salt password hash h. ground (arith, str_eq_refl hash);
}
  where
    sized :
        (salt password hash : Bytes)
        → small_hashing.generate salt password ≡ some hash
        → length hash ≡ 60
    sized salt password hash h = ground (
      arith,
      length-append (zeros (60 - length password)) password,
      length-zeros (60 - length password),
    )

abbrev ann : BasicAuth
ann = record { username = codes "ann"; password_hash = zeros 58 ++ codes "pw" }

ann_made : new_basic_auth small_hashing [] (codes " ann ") (codes "pw") ≡ ok ann
unfolding new_basic_auth hash_password validate_username has_control_rune str_eq trim_space contains
    has_prefix
ann_made = refl

new_basic_auth-check_example :
    (validate small_hashing ann ≡ ok tt)
    × (check small_hashing ann (trim_space (codes " ann ")) (codes "pw") ≡ true)
    × ((name word : Bytes)
        → (check small_hashing ann name word ≡ true) ↔ (
            (name ≡ trim_space (codes " ann "))
            × (small_hashing.compare ann.password_hash word ≡ true)))
new_basic_auth-check_example =
    new_basic_auth-check small_hashing [] (codes " ann ") (codes "pw") small_hashing-IsBcrypt
      ann_made
