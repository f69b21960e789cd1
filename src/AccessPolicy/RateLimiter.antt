-- ===== src/AccessPolicy/RateLimiter.antt =====
-- The fixed-window rate limiter. A time is a number of nanoseconds, 0 the zero `time.Time`; the
-- difference of two times is read only where it is compared with a positive bound, so that it may
-- stop at 0. Counters are numbers from zero up: a Go int does not run over within one window.
pub mod Bounded
pub mod Windows
use sealtun.Prelude.{
  ℕ, ◌+◌, ◌-◌, ◌*◌, ◌^◌, Bool, true, false, not, ◌&&◌, ◌||◌, List, [], ◌∷◌, Option, none, some,
  Bytes, codes, str_eq, length, leb, ltb, ◌==◌, if◌then◌else◌, is_some,
}
use sealtun.Assoc.{lookup, insert, keep, has}
use sealtun.Text.Trim.{trim_space}

abbrev pub prune_threshold : ℕ
prune_threshold = 1024

-- One second.
abbrev pub prune_interval : ℕ
prune_interval = 1000000000

abbrev pub max_buckets : ℕ
max_buckets = 65536

-- "\x00overflow"
abbrev pub overflow_key : Bytes
overflow_key = 0 ∷ codes "overflow"

pub record Spec : Type 0 where
  pub limit : ℕ
  pub window : ℕ
  pub raw : Bytes

pub record Bucket : Type 0 where
  pub window_start : ℕ
  pub count : ℕ

pub record Limiter : Type 0 where
  pub spec : Spec
  pub buckets : List (Bytes × Bucket)
  pub last_prune : ℕ

-- A limit or window of 0 gives no limiter.
unfoldable pub new : Spec → Option Limiter
new spec =
    if spec.limit == 0 || spec.window == 0
    then none
    else some (record { spec = spec; buckets = []; last_prune = 0 })

-- Whether a bucket stays when the map is pruned.
unfoldable pub is_live : ℕ → ℕ → Bucket → Bool
is_live window now bucket = ltb (now - bucket.window_start) (2 * window)

unfoldable pub prune : Limiter → ℕ → Limiter
prune l now =
    if leb (length l.buckets) prune_threshold
    then l
    else if not (l.last_prune == 0) && ltb (now - l.last_prune) prune_interval
    then l
    else record l { last_prune = now; buckets = keep (is_live l.spec.window now) l.buckets }

unfoldable pub bucket_key : Bytes → Bytes
bucket_key raw = let key = trim_space raw in if str_eq key [] then codes "unknown" else key

-- The bucket that a client is counted in: its own, or the shared one when the map is full.
unfoldable pub slot : Bytes → List (Bytes × Bucket) → Bytes
slot key buckets =
    if not (has key buckets) && leb (max_buckets - 1) (length buckets) then overflow_key else key

abbrev pub found : Option Bucket → Bucket
found none = record { window_start = 0; count = 0 }
found (some bucket) = bucket

unfoldable pub current : ℕ → ℕ → Bucket → Bucket
current window now bucket =
    if bucket.window_start == 0
      || leb window (now - bucket.window_start)
      || ltb now bucket.window_start
    then record { window_start = now; count = 0 }
    else bucket

unfoldable pub counted : ℕ → ℕ → Bucket → Bucket
unfolding current
counted window now bucket = let b = current window now bucket in record b { count = b.count + 1 }

-- `Allow` behind the nil test and the two defaults, under the lock.
unfoldable pub admit : Limiter → Bytes → ℕ → Limiter × Bool
admit l key now =
    let l' = prune l now in
    let k = slot key l'.buckets in
    let bucket = counted l'.spec.window now (found (lookup k l'.buckets)) in
    (record l' { buckets = insert k bucket l'.buckets }, leb bucket.count l'.spec.limit)

-- `clock` is the reading of `time.Now`, which stands in for a zero time.
unfoldable pub allow : Limiter → Bytes → ℕ → ℕ → Limiter × Bool
unfolding bucket_key
allow l key now clock = admit l (bucket_key key) (if now == 0 then clock else now)

-- A nil limiter allows every request.
unfoldable pub allow? : Option Limiter → Bytes → ℕ → ℕ → Option Limiter × Bool
allow? none key now clock = (none, true)
allow? (some l) key now clock = let (l', passed) = allow l key now clock in (some l', passed)

-- One call of `Allow`, and the calls that one limiter serves, in the order of its lock.
pub record Call : Type 0 where
  pub key : Bytes
  pub now : ℕ
  pub clock : ℕ

unfoldable pub run : Limiter → List Call → Limiter
unfolding allow
run l [] = l
run l (c ∷ cs) = run (allow l c.key c.now c.clock).0 cs

-- How many of the calls of one client are allowed.
unfoldable pub served : Bytes → Limiter → List Call → ℕ
unfolding allow
served key l [] = 0
served key l (c ∷ cs) =
    let (l', passed) = allow l c.key c.now c.clock in
    (if passed && str_eq (bucket_key c.key) key then 1 else 0) + served key l' cs
