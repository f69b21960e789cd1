-- ===== src/AccessPolicy/RateLimiter/Windows.antt =====
-- Within one window of time a client is allowed at most `limit` requests.
use sealtun.Prelude.{
  ℕ, ◌+◌, ◌≤◌, ◌<◌, ◌≡◌, ◌⊎◌, inl, inr, refl, ap, ◌∙◌, Bool, true, false, List, [], ◌∷◌, some,
  Bytes, arith, length, leb, ◌==◌, ◌&&◌, if◌then◌else◌, Option-cases, str_eq, str_eq_iff,
  str_eq_refl, All,
}
use sealtun.Assoc.{
  lookup, insert, has, lookup-insert, length-insert, keep-All, All-insert, lookup-All,
}
use sealtun.AccessPolicy.RateLimiter.{
  max_buckets, overflow_key, Spec, Bucket, Limiter, new, is_live, prune, slot, current, counted,
  found, admit, allow, bucket_key, Call, served,
}

module _ (start limit window : ℕ) where
  -- The bucket was opened in the window, by `now`.
  abbrev Opened : ℕ → Bucket → Type 0
  Opened now b = (0 < b.window_start) × (start ≤ b.window_start) × (b.window_start ≤ now)

  abbrev AllOpened : ℕ → List (Bytes × Bucket) → Type 0
  AllOpened now = All (λ e. Opened now e.1)

  AllOpened-is_live :
      (now : ℕ) (m : List (Bytes × Bucket))
      → now < start + window
      → AllOpened now m
      → All (λ e. is_live window now e.1 ≡ true) m
  unfolding is_live
  AllOpened-is_live now [] h a = tt
  AllOpened-is_live now ((k, b) ∷ m) h (o, a) = (ground arith, AllOpened-is_live now m h a)

  AllOpened-later :
      {now later : ℕ} (m : List (Bytes × Bucket))
      → now ≤ later
      → AllOpened now m
      → AllOpened later m
  AllOpened-later [] h a = tt
  AllOpened-later ((k, b) ∷ m) h ((p, o, c), a) = ((p, o, omega arith), AllOpened-later m h a)

  -- No bucket is old enough to be pruned.
  prune_keeps :
      (l : Limiter) (now : ℕ)
      → l.spec.window ≡ window
      → now < start + window
      → AllOpened now l.buckets
      → (prune l now).buckets ≡ l.buckets
  unfolding prune
  prune_keeps l now w h a = ground (
    arith,
    keep-All (is_live l.spec.window now) l.buckets (rw w (AllOpened-is_live now l.buckets h a)),
  )

  current_open :
      (now : ℕ) (b : Bucket) → now < start + window → Opened now b → current window now b ≡ b
  unfolding current
  current_open now b h o = ground arith

  counted_count :
      (now : ℕ) (k : Bytes) (m : List (Bytes × Bucket))
      → now < start + window
      → AllOpened now m
      → (counted window now (found (lookup k m))).count ≡ (found (lookup k m)).count + 1
  unfolding counted
  counted_count now k m h a = elim (Option-cases (lookup k m)) [
    | inl e ↦ rw (e, found) (ground arith)
    | inr (b, e) ↦
        rw (e, found)
          (ground (arith, current_open now b h (lookup-All (λ e. Opened now e.1) k m e a)))
  ]

  counted-Opened :
      (now : ℕ) (k : Bytes) (m : List (Bytes × Bucket))
      → 0 < start
      → start ≤ now
      → now < start + window
      → AllOpened now m
      → Opened now (counted window now (found (lookup k m)))
  unfolding counted
  counted-Opened now k m p s h a = elim (Option-cases (lookup k m)) [
    | inl e ↦ rw (e, found) (ground arith)
    | inr (b, e) ↦
        let o = lookup-All (λ e. Opened now e.1) k m e a in
        rw (e, found) (ground (arith, current_open now b h o, o))
  ]

-- `n` requests of the client were allowed: they are counted in its own bucket, or in the shared one
-- if the map was full before the client had one.
abbrev Counts : Bytes → ℕ → List (Bytes × Bucket) → Type 0
Counts key n m =
    ((has key m ≡ true) × (n ≤ (found (lookup key m)).count))
    ⊎ ((has key m ≡ false) × (n ≡ 0))
    ⊎ ((has key m ≡ false)
        × (max_buckets ≤ length m + 1)
        × (n ≤ (found (lookup overflow_key m)).count))

abbrev hit : Bool → Bytes → Bytes → ℕ
hit passed k key = if passed && str_eq k key then 1 else 0

module _ (key k : Bytes) (n limit : ℕ) (b : Bucket) (m : List (Bytes × Bucket)) where
  insert-Counts :
      b.count ≡ (found (lookup (slot k m) m)).count + 1
      → n ≤ limit
      → Counts key n m
      → Counts key (n + hit (leb b.count limit) k key) (insert (slot k m) b m)
        × (n + hit (leb b.count limit) k key ≤ limit)
  unfolding slot
  insert-Counts e l c = ground (
    arith,
    lookup-insert k key b m,
    lookup-insert overflow_key key b m,
    lookup-insert k overflow_key b m,
    lookup-insert overflow_key overflow_key b m,
    length-insert k b m,
    length-insert overflow_key b m,
    str_eq_iff k key,
    str_eq_iff overflow_key key,
    str_eq_iff k overflow_key,
    str_eq_refl overflow_key,
  )

-- The calls follow one another in time, from `now` on, and all are made before `stop`.
abbrev pub Within : ℕ → ℕ → List Call → Type 0
Within now stop [] = Unit {0}
Within now stop (c ∷ cs) = (now ≤ c.now) × (c.now < stop) × Within c.now stop cs

module _ (start : ℕ) (key : Bytes) (spec : Spec) where
  -- What holds between two calls: `n` requests of the client were allowed so far.
  record Inv (now n : ℕ) (l : Limiter) : Type 0 where
    same : l.spec ≡ spec
    positive : 0 < start
    after : start ≤ now
    opened : AllOpened start spec.limit spec.window now l.buckets
    capped : n ≤ spec.limit
    counts : Counts key n l.buckets

  prune-spec : (l : Limiter) (now : ℕ) → (prune l now).spec ≡ l.spec
  unfolding prune
  prune-spec l now = ground arith

  admit-Inv :
      (l : Limiter) (k : Bytes) {t n : ℕ} (now : ℕ)
      → Inv t n l
      → t ≤ now
      → now < start + spec.window
      → Inv now (n + hit (admit l k now).1 k key) (admit l k now).0
  unfolding admit
  admit-Inv l k {t} {n} now v le lt =
      let m = l.buckets in
      let open' =
        AllOpened-later start spec.limit spec.window {now = t} {later = now} m le v.opened in
      let kept : (prune l now).buckets ≡ m =
        prune_keeps start spec.limit spec.window l now (ap (λ s. s.window) v.same) lt open' in
      let same : (prune l now).spec ≡ spec = prune-spec l now ∙ v.same in
      let b = counted spec.window now (found (lookup (slot k m) m)) in
      let step =
        insert-Counts key k n spec.limit b m
          (counted_count start spec.limit spec.window now (slot k m) m lt open') v.capped
          v.counts in
      let fresh =
        counted-Opened start spec.limit spec.window now (slot k m) m v.positive
          (omega (arith, v.after)) lt open' in
      rw (kept, same)
        (record {
          same = refl;
          positive = v.positive;
          after = omega (arith, v.after);
          opened =
              All-insert (λ e. Opened start spec.limit spec.window now e.1) (slot k m) b m fresh
                open';
          capped = step.1;
          counts = step.0;
        })

  served_from :
      (l : Limiter) (cs : List Call) (t n : ℕ)
      → Inv t n l
      → Within t (start + spec.window) cs
      → n + served key l cs ≤ spec.limit
  unfolding served allow
  served_from l [] t n v w = omega (arith, v.capped)
  served_from l (c ∷ cs) t n v (le, lt, w) =
      let now_set : (if c.now == 0 then c.clock else c.now) ≡ c.now =
        ground (arith, v.positive, v.after) in
      let k = bucket_key c.key in
      rw now_set
        (omega (arith, served_from (admit l k c.now).0 cs c.now _ (admit-Inv l k c.now v le lt) w))

-- A new limiter allows a client at most `limit` requests in any window of time: whatever calls of
-- whatever clients come in, in the order of their times and all within one window's length, no more
-- than `limit` of those that are made under the client's key are allowed, also when the map is full
-- and the client shares a bucket.
pub served-le_limit :
    (spec : Spec) (l : Limiter) (key : Bytes) (start : ℕ) (cs : List Call)
    → new spec ≡ some l
    → 0 < start
    → Within start (start + spec.window) cs
    → served key l cs ≤ spec.limit
unfolding new lookup
served-le_limit spec l key start cs e p w =
    let fresh : Inv start key spec start 0 l = record {
      same = ground arith;
      positive = p;
      after = omega arith;
      opened = ground arith;
      capped = omega arith;
      counts = ground arith;
    } in
    omega (arith, served_from start key spec l cs start 0 fresh w)
