-- ===== src/Tunnel/BasicCache/Handlers.antt =====
-- Many requests in `authorizedBasicAuth` at once: each access to the map of headers and to its count is a
-- step of its own, and the steps of the requests interleave.
pub mod Alone
use sealtun.Prelude.{
  ◌+◌, ◌≡◌, inl, inr, refl, sym, Bool, true, false, List, [], ◌∷◌, ◌++◌, Option, some, Bytes,
  str_eq, leb, if◌then◌else◌, any, All, All-append, Bool-cases, if_elim, arith,
}
use mathlib.Core.Path.{subst}
use sealtun.Http.{Request}
use sealtun.PublicAuth.{BasicAuth, Hashing}
use sealtun.Tunnel.BasicCache.{
  Cache, max_entries, is_cached, authorization, basic_auth_header_digest, check_credentials,
  checked, room_in, store, cache_basic_auth_header, authorized_basic_auth,
}
use sealtun.Tunnel.BasicCache.Sound.{Accepted, found-Accepted, cached-any, checked-right}

-- Where a request stands: before it looks its header up, before the check of its credentials, before it
-- reads the count, while it deletes the headers of a full cache, before `LoadOrStore`, before it adds to the
-- count, or with its answer.
pub data Place : Type 0 where
  looking checking measuring flushing storing counting : Place
  answered : Bool → Place

-- The cache, and the requests with their Authorization headers.
pub record Handlers : Type 0 where
  pub cache : Cache
  pub requests : List (Bytes × Place)

All-parts : {A : Type 0} (P : A → Type 0) (xs ys : List A) → All P (xs ++ ys) → All P xs × All P ys
All-parts P [] ys h = (tt, h)
All-parts P (x ∷ xs) ys (p, h) = let (l, r) = All-parts P xs ys h in ((p, l), r)

module _ (hashing : Hashing) (parse_basic : Bytes → Option (Bytes × Bytes))
    (config : BasicAuth) where
  -- The next access of a request with the header; at `flushing` it is the end of the deletions,
  -- however many there were, and the store of 0 in the count.
  unfoldable pub advance : (header : Bytes) → Cache → Place → Cache × Place
  advance header c looking =
      if str_eq header []
      then (c, checking)
      else if is_cached c (basic_auth_header_digest hashing header)
      then (c, answered true)
      else (c, checking)
  advance header c checking =
      if check_credentials hashing parse_basic config (parse_basic header)
      then (if str_eq header [] then (c, answered true) else (c, measuring))
      else (c, answered false)
  advance header c measuring = if leb max_entries c.count then (c, flushing) else (c, storing)
  advance header c flushing = (record c { count = 0 }, storing)
  advance header c storing =
      if is_cached c (basic_auth_header_digest hashing header)
      then (c, answered true)
      else (record c { headers = basic_auth_header_digest hashing header ∷ c.headers }, counting)
  advance header c counting = (record c { count = c.count + 1 }, answered true)
  advance header c (answered b) = (c, answered b)

  pub data Step : Handlers → Handlers → Type 0 where
    arrive :
        {s : Handlers} (header : Bytes)
        → Step s (record s { requests = (header, looking) ∷ s.requests })
    access :
        {s : Handlers} (before after : List (Bytes × Place)) (header : Bytes) (at next : Place)
        (c : Cache)
        → s.requests ≡ before ++ (header, at) ∷ after
        → advance header s.cache at ≡ (c, next)
        → Step s (record { cache = c; requests = before ++ (header, next) ∷ after })
    -- One deletion in the loop over the headers, of any that is there.
    delete :
        {s : Handlers} (before after : List (Bytes × Place)) (header : Bytes)
        (kept others : List Bytes) (digest : Bytes)
        → s.requests ≡ before ++ (header, flushing) ∷ after
        → s.cache.headers ≡ kept ++ digest ∷ others
        → Step s (record s { cache = record (s.cache) { headers = kept ++ others } })

  pub data Steps : Handlers → Handlers → Type 0 where
    stay : {s : Handlers} → Steps s s
    then_step : {s t u : Handlers} → Steps s t → Step t u → Steps s u

  -- A request that has got so far has right credentials in a header of its digest.
  abbrev pub Right : Bytes × Place → Type 0
  Right (header, looking) = Unit {0}
  Right (header, checking) = Unit {0}
  Right (header, answered false) = Unit {0}
  Right (header, _) = Accepted hashing parse_basic config (basic_auth_header_digest hashing header)

  pub record IsSound (s : Handlers) : Type 0 where
    pub accepted : All (Accepted hashing parse_basic config) s.cache.headers
    pub right : All Right s.requests

  -- A cache and a place after an access.
  abbrev Fine : Bytes → Cache × Place → Type 0
  Fine header (c, at) = All (Accepted hashing parse_basic config) c.headers × Right (header, at)

  advance-Fine :
      (header : Bytes) (c : Cache) (at : Place)
      → All (Accepted hashing parse_basic config) c.headers
      → Right (header, at)
      → Fine header (advance header c at)
  unfolding advance
  advance-Fine header c looking h r =
      if_elim (Fine header) (str_eq header []) (λ none_sent. (h, tt))
        (λ sent.
          if_elim (Fine header) (is_cached c (basic_auth_header_digest hashing header))
            (λ known. (
              h,
              found-Accepted hashing parse_basic config (basic_auth_header_digest hashing header)
                  c.headers h (cached-any hashing parse_basic c header known),
            ))
            (λ unknown. (h, tt)))
  advance-Fine header c checking h r =
      if_elim (Fine header) (check_credentials hashing parse_basic config (parse_basic header))
        (λ good.
          let a = checked-right hashing parse_basic config header good in
          if_elim (Fine header) (str_eq header []) (λ none_sent. (h, a)) (λ sent. (h, a)))
        (λ bad. (h, tt))
  advance-Fine header c measuring h r =
      if_elim (Fine header) (leb max_entries c.count) (λ full. (h, r)) (λ room. (h, r))
  advance-Fine header c flushing h r = (h, r)
  advance-Fine header c storing h r =
      if_elim (Fine header) (is_cached c (basic_auth_header_digest hashing header))
        (λ known. (h, r)) (λ unknown. ((r, h), r))
  advance-Fine header c counting h r = (h, r)
  advance-Fine header c (answered b) h r = (h, r)

  Step-IsSound : {s t : Handlers} → Step s t → IsSound s → IsSound t
  Step-IsSound (arrive header) i = record { accepted = i.accepted; right = (tt, i.right) }
  Step-IsSound {s} (access before after header at next c e a) i =
      let (left, (r, rest)) =
        All-parts Right before ((header, at) ∷ after) (subst (All Right) e i.right) in
      let (fine, right) = subst (Fine header) a (advance-Fine header s.cache at i.accepted r) in
      record {
        accepted = fine;
        right = All-append Right before ((header, next) ∷ after) left (right, rest);
      }
  Step-IsSound {s} (delete before after header kept others digest e l) i =
      let (left, (r, rest)) =
        All-parts (Accepted hashing parse_basic config) kept (digest ∷ others)
          (subst (All (Accepted hashing parse_basic config)) l i.accepted) in
      record {
        accepted = All-append (Accepted hashing parse_basic config) kept others left rest;
        right = i.right;
      }

  -- However the accesses of the requests to the cache interleave, the deletions from a full cache included,
  -- the cache holds digests of headers alone that hold credentials that the check accepts, and each request
  -- that is let through has a header of such a digest, if all this holds at the start: so a cached answer is
  -- as good as a new one up to a collision of SHA-256.
  pub Steps-IsSound : {s t : Handlers} → Steps s t → IsSound s → IsSound t
  Steps-IsSound stay i = i
  Steps-IsSound (then_step before last) i = Step-IsSound last (Steps-IsSound before i)
