-- ===== src/Tunnel/Audit/Reading.antt =====
-- pkg/tunnel/server.go: what a query of the audit log answers.
use native.Mathlib.Nat.{mod-eq_of_lt, mod-eq-sub-mod}
use native.Mathlib.Decide.{dec_lt}
use sealtun.Prelude.{
  ℕ, zero, suc, ◌+◌, ◌-◌, ◌%◌, ◌≤◌, ◌<◌, ◌≡◌, ◌⊎◌, inl, inr, refl, sym, ap, ap₂, ◌∙◌, List, [], ◌∷◌,
  ◌++◌, Option, none, some, arith, length, get_elem?, take, drop, length-drop,
}
use sealtun.Http.{Platform}
use sealtun.Tunnel.Recent.{keep_last}
use sealtun.Tunnel.Audit.{
  max_events, Event, Audit, new, at_index, read_from, select, newest, audit_payload,
}
use sealtun.Tunnel.Audit.Ring.{
  take_past, Inv, view, rotate, new-Inv, append_all, append_all-Inv, view-append_all-new,
}

-- A window of one more entry starts with the entry at its first index, where there is one.
take-nil : (c : ℕ) → take {A = Event} c [] ≡ []
take-nil zero = refl
take-nil (suc c) = refl

take_at :
    (j c : ℕ) (xs : List Event)
    → take (suc c) (drop j xs) ≡ at_index (get_elem? xs j) (take c (drop (suc j) xs))
take_at zero c [] = sym (take-nil c)
take_at (suc j) c [] = sym (take-nil c)
take_at zero c (x ∷ xs) = refl
take_at (suc j) c (x ∷ xs) = take_at j c xs

-- An index before the end of the list, or one round past it.
IsAt : ℕ → ℕ → ℕ → Type 0
IsAt length index j = (index ≡ j) ⊎ (index ≡ j + length)

mod_at : (n m j : ℕ) → j < m → IsAt m n j → n % m ≡ j
unfolding IsAt
mod_at n m j h (inl e) = ap (λ k. k % m) e ∙ mod-eq_of_lt h
mod_at n m j h (inr e) =
    let past : m ≤ n = omega arith in
    let back : n - m ≡ j = omega arith in
    mod-eq-sub-mod past ∙ ap (λ k. k % m) back ∙ mod-eq_of_lt h

next-IsAt : (start i m j : ℕ) → IsAt m (start + i) j → IsAt m (start + (i + 1)) (suc j)
unfolding IsAt
next-IsAt start i m j (inl e) = inl (omega arith)
next-IsAt start i m j (inr e) = inr (omega arith)

read_from-window :
    (xs : List Event) (start i c j : ℕ)
    → IsAt (length xs) (start + i) j
    → j + c ≤ length xs
    → read_from xs start i c ≡ take c (drop j xs)
unfolding read_from
read_from-window xs start i zero j h fits = refl
read_from-window xs start i (suc c) j h fits =
    let here : (start + i) % length xs ≡ j =
      mod_at (start + i) (length xs) j (omega (arith, fits)) h in
    ap (λ n. at_index (get_elem? xs n) (read_from xs start (i + 1) c)) here
    ∙ ap (at_index (get_elem? xs j)) (
        read_from-window xs start (i + 1) c (suc j) (next-IsAt start i (length xs) j h)
          (omega (arith, fits)))
    ∙ sym (take_at j c xs)

at_index-append :
    (o : Option Event) (xs ys : List Event) → at_index o (xs ++ ys) ≡ at_index o xs ++ ys
at_index-append none xs ys = refl
at_index-append (some x) xs ys = refl

read_at :
    (xs : List Event) (start i j d : ℕ) → i ≡ j → read_from xs start i d ≡ read_from xs start j d
read_at xs start i j d e = ap (λ n. read_from xs start n d) e

read_from-append :
    (xs : List Event) (start i c d : ℕ)
    → read_from xs start i (c + d) ≡ read_from xs start i c ++ read_from xs start (i + c) d
unfolding read_from
read_from-append xs start i zero d =
    let count : 0 + d ≡ d = omega arith in
    ap (read_from xs start i) count ∙ read_at xs start i (i + 0) d (omega arith)
read_from-append xs start i (suc c) d =
    let count : suc c + d ≡ suc (c + d) = omega arith in
    let o = get_elem? xs ((start + i) % length xs) in
    ap (read_from xs start i) count
    ∙ ap (at_index o) (read_from-append xs start (i + 1) c d)
    ∙ at_index-append o (read_from xs start (i + 1) c) (read_from xs start ((i + 1) + c) d)
    ∙ ap (λ ys. at_index o (read_from xs start (i + 1) c) ++ ys)
        (read_at xs start ((i + 1) + c) (i + suc c) d (omega arith))

-- The loop gives the events from the start of the ring on, and then those before it.
read_from-rotate :
    (xs : List Event) (start : ℕ)
    → start ≤ length xs
    → read_from xs start 0 (length xs) ≡ rotate start xs
unfolding IsAt
read_from-rotate xs start h =
    let rest = length xs - start in
    let count : length xs ≡ rest + start = omega (arith, h) in
    let first : read_from xs start 0 rest ≡ drop start xs =
      read_from-window xs start 0 rest start (inl (omega arith)) (omega (arith, h))
      ∙ take_past rest (drop start xs) (omega (arith, length-drop start xs)) in
    let second : read_from xs start (0 + rest) start ≡ take start xs =
      read_from-window xs start (0 + rest) start 0 (inr (omega (arith, h))) (omega (arith, h)) in
    ap (read_from xs start 0) count ∙ read_from-append xs start 0 rest start ∙ ap₂ ◌++◌ first second

newest_short : (limit : ℕ) (es : List Event) → length es ≤ limit → newest limit es ≡ es
unfolding newest
newest_short limit es h = ground arith

newest-keep_last : (limit : ℕ) (es : List Event) → 0 < limit → newest limit es ≡ keep_last limit es
unfolding newest
newest-keep_last limit es h = elim (dec_lt limit (length es)) [
  | yes more ↦ ground arith
  | no fewer ↦
      let none_dropped : length es - limit ≡ 0 = omega arith in
      newest_short limit es (omega arith) ∙ ap (λ n. drop n es) (sym none_dropped)
]

start_le : (a : Audit) → Inv a → a.start ≤ length a.events
start_le a h = elim (dec_lt (length a.events) max_events) [
  | yes short ↦ omega (arith, h.flat short)
  | no full ↦ omega (arith, h.start)
]

audit_payload_of :
    (platform : Platform) (a : Audit) (cutoff limit : ℕ)
    → Inv a
    → 0 < limit
    → audit_payload platform a cutoff limit ≡ record {
      events = keep_last limit (select platform cutoff (view a));
      total = length (select platform cutoff (view a));
    }
unfolding audit_payload
audit_payload_of platform a cutoff limit h positive =
    let read : read_from a.events a.start 0 (length a.events) ≡ view a =
      read_from-rotate a.events a.start (start_le a h) in
    ap
      (λ es. record {
        events = newest limit (select platform cutoff es);
        total = length (select platform cutoff es);
      })
      read
    ∙ ap (λ es. record { events = es; total = length (select platform cutoff (view a)) })
        (newest-keep_last limit (select platform cutoff (view a)) positive)

-- After any events on a new server, a query with a positive limit answers the last `limit` of
-- those among the last 1000 events that are not older than the cutoff, oldest first, and their
-- number before that limit was applied.
pub audit_payload-recorded :
    (platform : Platform) (es : List Event) (cutoff limit : ℕ)
    → 0 < limit
    → audit_payload platform (append_all new es) cutoff limit ≡ record {
      events = keep_last limit (select platform cutoff (keep_last max_events es));
      total = length (select platform cutoff (keep_last max_events es));
    }
audit_payload-recorded platform es cutoff limit positive =
    audit_payload_of platform (append_all new es) cutoff limit (append_all-Inv new es new-Inv)
      positive
    ∙ ap
        (λ log. record {
          events = keep_last limit (select platform cutoff log);
          total = length (select platform cutoff log);
        })
        (view-append_all-new es)
