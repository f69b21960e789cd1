-- ===== src/AccessPolicy/RateLimiter/Bounded.antt =====
-- The map of buckets is bounded, whatever keys the clients send.
use sealtun.Prelude.{
  ℕ, ◌+◌, ◌≤◌, ◌≡◌, List, [], ◌∷◌, some, Bytes, arith, length, if◌then◌else◌, str_eq_refl,
}
use sealtun.Assoc.{lookup, insert, has, lookup-insert, length-insert, length-keep}
use sealtun.AccessPolicy.RateLimiter.{
  max_buckets, overflow_key, Spec, Bucket, Limiter, new, is_live, prune, slot, admit, allow,
  bucket_key, Call, run,
}

-- All but one of the buckets may belong to clients; the last is the shared one.
abbrev pub IsBounded : List (Bytes × Bucket) → Type 0
IsBounded m = length m + 1 ≤ max_buckets + (if has overflow_key m then 1 else 0)

prune-IsBounded : (l : Limiter) (now : ℕ) → IsBounded l.buckets → IsBounded (prune l now).buckets
unfolding prune
prune-IsBounded l now h =
    ground (arith, length-keep overflow_key (is_live l.spec.window now) l.buckets)

insert-IsBounded :
    (key : Bytes) (b : Bucket) (m : List (Bytes × Bucket))
    → IsBounded m
    → IsBounded (insert (slot key m) b m)
unfolding slot
insert-IsBounded key b m h = ground (
  arith,
  length-insert key b m,
  length-insert overflow_key b m,
  lookup-insert key overflow_key b m,
  lookup-insert overflow_key overflow_key b m,
  str_eq_refl overflow_key,
)

admit-IsBounded :
    (l : Limiter) (key : Bytes) (now : ℕ)
    → IsBounded l.buckets
    → IsBounded (admit l key now).0.buckets
unfolding admit
admit-IsBounded l key now h =
    let l' = prune l now in insert-IsBounded key _ l'.buckets (prune-IsBounded l now h)

allow-IsBounded :
    (l : Limiter) (key : Bytes) (now clock : ℕ)
    → IsBounded l.buckets
    → IsBounded (allow l key now clock).0.buckets
unfolding allow
allow-IsBounded l key now clock h = admit-IsBounded l (bucket_key key) _ h

run-IsBounded : (l : Limiter) (cs : List Call) → IsBounded l.buckets → IsBounded (run l cs).buckets
unfolding run
run-IsBounded l [] h = h
run-IsBounded l (c ∷ cs) h =
    run-IsBounded (allow l c.key c.now c.clock).0 cs (allow-IsBounded l c.key c.now c.clock h)

new-IsBounded : (spec : Spec) {l : Limiter} → new spec ≡ some l → IsBounded l.buckets
unfolding new lookup
new-IsBounded spec {l} e = ground arith

-- Whatever keys and times its callers send, a new limiter never holds more than 65536 buckets.
pub run_bounded :
    (spec : Spec) (l : Limiter) (cs : List Call)
    → new spec ≡ some l
    → length (run l cs).buckets ≤ max_buckets
run_bounded spec l cs e = ground (arith, run-IsBounded l cs (new-IsBounded spec e))
