-- ===== src/Routes/Matching.antt =====
-- `MatchRoute` finds a longest matching prefix.
use mathlib.Core.List.{Memᴰ}
use sealtun.Prelude.{
  ℕ, ◌≤◌, ◌≡◌, ◌≢◌, ◌↔◌, ◌⊎◌, inl, inr, true, List, [], ◌∷◌, Option, none, some, Bytes, str_eq_iff,
  arith, length, All, Option-cases,
}
use sealtun.Routes.{
  Route, Best, normalize_path, prefix_matches, consider, match_from, matched, match_route,
}

-- The route's prefix is not blank and matches the request path.
abbrev pub Matches : Bytes → Route → Type 0
Matches request route =
    (normalize_path route.path ≢ []) × (prefix_matches (normalize_path route.path) request ≡ true)

abbrev Covers : ℕ → Option Best → Type 0
Covers n none = ⊥
Covers n (some best) = n ≤ best.len

module _ (request : Bytes) where
  consider-Covers :
      (n : ℕ) (r : Route) (best : Option Best) → Covers n best → Covers n (consider request r best)
  unfolding consider
  consider-Covers n r none h = elim h [ ]
  consider-Covers n r (some best) h = ground arith

  consider-Covers_self :
      (r : Route) (best : Option Best)
      → Matches request r
      → Covers (length (normalize_path r.path)) (consider request r best)
  unfolding consider
  consider-Covers_self r none (nonempty, m) = ground (arith, str_eq_iff (normalize_path r.path) [])
  consider-Covers_self r (some best) (nonempty, m) =
      ground (arith, str_eq_iff (normalize_path r.path) [])

  match_from-Covers :
      (n : ℕ) (best : Option Best) (rs : List Route)
      → Covers n best
      → Covers n (match_from request best rs)
  unfolding match_from
  match_from-Covers n best [] h = h
  match_from-Covers n best (r ∷ rs) h =
      match_from-Covers n (consider request r best) rs (consider-Covers n r best h)

  match_from_longest :
      (best : Option Best) (rs : List Route)
      → All
          (λ s.
            Matches request s
            → Covers (length (normalize_path s.path)) (match_from request best rs))
          rs
  unfolding match_from
  match_from_longest best [] = tt
  match_from_longest best (r ∷ rs) = (
    λ m. match_from-Covers _ (consider request r best) rs (consider-Covers_self r best m),
    match_from_longest (consider request r best) rs,
  )

  -- A best route was best before, or is listed and matches.
  IsFound : Option Best → List Route → Best → Type 0
  IsFound best rs b =
      (best ≡ some b)
      ⊎ (Memᴰ b.route rs × Matches request b.route × (b.len ≡ length (normalize_path b.route.path)))

  consider_cases :
      (r : Route) (best : Option Best) {b : Best}
      → consider request r best ≡ some b
      → (best ≡ some b)
        ⊎ ((b.route ≡ r) × Matches request b.route × (b.len ≡ length (normalize_path b.route.path)))
  unfolding consider
  consider_cases r best {b} h = ground (arith, str_eq_iff (normalize_path r.path) [])

  match_from-IsFound :
      (best : Option Best) (rs : List Route) {b : Best}
      → match_from request best rs ≡ some b
      → IsFound best rs b
  unfolding match_from IsFound
  match_from-IsFound best [] h = inl h
  match_from-IsFound best (r ∷ rs) {b} h =
      elim (match_from-IsFound (consider request r best) rs h) [
        | inr (listed, m, e) ↦ inr (Memᴰ.tail listed, m, e)
        | inl taken ↦ elim (consider_cases r best taken) [
          | inl before ↦ inl before
          | inr (same, m, e) ↦ inr (Memᴰ.head same, m, e)
        ]
      ]

-- `r` is a listed route with its prefix normalized; it matches, and no match is longer.
pub record IsLongest (routes : List Route) (request : Bytes) (r : Route) : Type 0 where
  pub source : Route
  pub listed : Memᴰ source routes
  pub path : r.path ≡ normalize_path source.path
  pub port : r.port ≡ source.port
  pub nonempty : r.path ≢ []
  pub matches : prefix_matches r.path request ≡ true
  pub longest : All (λ s. Matches request s → length (normalize_path s.path) ≤ length r.path) routes

All-map {ℓ κ ι} :
    {A : Type ℓ} {P : A → Type κ} {Q : A → Type ι} (xs : List A)
    → ((x : A) → P x → Q x)
    → All P xs
    → All Q xs
All-map [] f h = tt
All-map (x ∷ xs) f (p, h) = (f x p, All-map xs f h)

Covers-some : (n : ℕ) (m : Option Best) {b : Best} → m ≡ some b → Covers n m → n ≤ b.len
Covers-some n none e h = elim h [ ]
Covers-some n (some b') e h = ground arith

-- A route that `MatchRoute` returns is a listed one with its prefix normalized; the prefix is not
-- blank and matches, and every listed route that matches has a prefix at most as long.
pub match_route-IsLongest :
    (routes : List Route) (request : Bytes) {r : Route}
    → match_route routes request ≡ some r
    → IsLongest routes request r
unfolding match_route matched IsFound
match_route-IsLongest routes request {r} h = elim (Option-cases (match_from request none routes)) [
  | inl e ↦ absurd (ground arith)
  | inr (b, e) ↦ elim (match_from-IsFound request none routes e) [
    | inl bad ↦ cc
    | inr (listed, (nonempty, m), len) ↦
        let path : r.path ≡ normalize_path b.route.path = ground arith in
        record {
          source = b.route;
          listed = listed;
          path = path;
          port = ground arith;
          nonempty = rw path nonempty;
          matches = rw path m;
          longest =
              All-map routes
                (λ s covered found. rw (path, ← len) (Covers-some _ _ e (covered found)))
                (match_from_longest request none routes);
        }
  ]
]

none-Covers : (n : ℕ) (m : Option Best) → m ≡ none → Covers n m → ⊥
none-Covers n none e h = h
none-Covers n (some b) e h = cc

refuted :
    (request : Bytes) (route : Route) (rs : List Route)
    → All (λ s. ¬ Matches request s) rs
    → Memᴰ route rs
    → Matches request route
    → ⊥
refuted request route [] h listed m = elim listed [ ]
refuted request route (r ∷ rs) (n, h) (Memᴰ.head e) m = n (rw (← e) m)
refuted request route (r ∷ rs) (n, h) (Memᴰ.tail later) m = refuted request route rs h later m

-- `MatchRoute` finds nothing exactly when no listed route matches.
pub match_route-eq-none_iff :
    (routes : List Route) (request : Bytes)
    → (match_route routes request ≡ none) ↔ All (λ s. ¬ Matches request s) routes
unfolding match_route matched IsFound
match_route-eq-none_iff routes request = (to, from)
  where
    to : match_route routes request ≡ none → All (λ s. ¬ Matches request s) routes
    to h = elim (Option-cases (match_from request none routes)) [
      | inl e ↦
          All-map routes (λ s covered found. none-Covers _ _ e (covered found))
            (match_from_longest request none routes)
      | inr (b, e) ↦ absurd (ground arith)
    ]

    from : All (λ s. ¬ Matches request s) routes → match_route routes request ≡ none
    from h = elim (Option-cases (match_from request none routes)) [
      | inl e ↦ rw (e, matched)
      | inr (b, e) ↦ elim (match_from-IsFound request none routes e) [
        | inl bad ↦ cc
        | inr (listed, m, _) ↦ absurd (refuted request b.route routes h listed m)
      ]
    ]
