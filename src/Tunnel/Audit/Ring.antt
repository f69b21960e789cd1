-- ===== src/Tunnel/Audit/Ring.antt =====
-- pkg/tunnel/server.go: the ring of audit events as a log of the last ones, and the loop of
-- `auditPayload` as the reading of that log.
use native.Mathlib.Decide.{dec_lt}
use sealtun.Prelude.{
  ℕ, zero, suc, ◌+◌, ◌%◌, ◌≤◌, ◌<◌, ◌≡◌, refl, sym, ap, ap₂, ◌∙◌, List, [], ◌∷◌, ◌++◌, arith,
  length, set, take, drop, length-append, length-set, length-drop, append-nil, append_assoc,
  take-append-drop,
}
use sealtun.Tunnel.Recent.{keep_last, push-keep_last, push, push_short, push_full, drop-append}
use mathlib.Core.Path.{subst}
use sealtun.Tunnel.Audit.{max_events, Event, Audit, new, append}

module _ {A : Type 0} where
  -- The list that starts at index `i` and goes on from the front.
  abbrev pub rotate : ℕ → List A → List A
  rotate i xs = drop i xs ++ take i xs

  drop_past : (i : ℕ) (xs : List A) → length xs ≤ i → drop i xs ≡ []
  drop_past zero [] h = refl
  drop_past (suc i) [] h = refl
  drop_past zero (x ∷ xs) h = absurd (omega arith)
  drop_past (suc i) (x ∷ xs) h = drop_past i xs (omega arith)

  pub take_past : (i : ℕ) (xs : List A) → length xs ≤ i → take i xs ≡ xs
  take_past zero [] h = refl
  take_past (suc i) [] h = refl
  take_past zero (x ∷ xs) h = absurd (omega arith)
  take_past (suc i) (x ∷ xs) h = ap (◌∷◌ x) (take_past i xs (omega arith))

  rotate_all : (i : ℕ) (xs : List A) → length xs ≤ i → rotate i xs ≡ xs
  rotate_all i xs h = ap₂ ◌++◌ (drop_past i xs h) (take_past i xs h)

  drop-set : (i : ℕ) (xs : List A) (x : A) → drop (suc i) (set xs i x) ≡ drop (suc i) xs
  drop-set i [] x = refl
  drop-set zero (y ∷ xs) x = refl
  drop-set (suc i) (y ∷ xs) x = drop-set i xs x

  take-set :
      (i : ℕ) (xs : List A) (x : A)
      → i < length xs
      → take (suc i) (set xs i x) ≡ take i xs ++ x ∷ []
  take-set i [] x h = absurd (omega arith)
  take-set zero (y ∷ xs) x h = refl
  take-set (suc i) (y ∷ xs) x h = ap (◌∷◌ y) (take-set i xs x (omega arith))

  pub length-rotate : (i : ℕ) (xs : List A) → length (rotate i xs) ≡ length xs
  length-rotate i xs = omega (
    arith,
    length-append (drop i xs) (take i xs),
    length-append (take i xs) (drop i xs),
    ap length (take-append-drop i xs),
  )

  drop-suc : (i : ℕ) (xs : List A) → drop (suc i) xs ≡ drop 1 (drop i xs)
  drop-suc i [] = ap (drop 1) (sym (drop_past i [] (omega arith)))
  drop-suc zero (x ∷ xs) = refl
  drop-suc (suc i) (x ∷ xs) = drop-suc i xs

  -- Overwriting the first item of the rotated list drops it and puts the new one last.
  rotate-set :
      (i : ℕ) (xs : List A) (x : A)
      → i < length xs
      → rotate (suc i) (set xs i x) ≡ drop 1 (rotate i xs) ++ x ∷ []
  rotate-set i xs x h =
      let tail : drop (suc i) xs ≡ drop 1 (drop i xs) = drop-suc i xs in
      ap₂ ◌++◌ (drop-set i xs x) (take-set i xs x h)
      ∙ sym (append_assoc (drop (suc i) xs) (take i xs) (x ∷ []))
      ∙ ap (λ m. (m ++ take i xs) ++ x ∷ []) tail
      ∙ ap (λ m. m ++ x ∷ [])
          (sym (drop-append 1 (drop i xs) (take i xs) (omega (arith, length-drop i xs))))

-- The events, oldest first.
abbrev pub view : Audit → List Event
view a = rotate a.start a.events

-- The ring starts at its front until it is full.
pub record Inv (a : Audit) : Type 0 where
  pub bounded : length a.events ≤ max_events
  pub start : a.start < max_events
  pub flat : length a.events < max_events → a.start ≡ 0

pub new-Inv : Inv new
new-Inv = record { bounded = omega arith; start = omega arith; flat = λ _. refl }

-- The ring after a full round starts at the front again.
rotate_wrapped :
    (i : ℕ) (xs : List Event)
    → i < length xs
    → length xs ≡ max_events
    → rotate ((i + 1) % max_events) xs ≡ rotate (suc i) xs
rotate_wrapped i xs h full = elim (dec_lt (i + 1) max_events) [
  | yes small ↦ let same : (i + 1) % max_events ≡ suc i = omega arith in ap (λ n. rotate n xs) same
  | no large ↦
      let front : (i + 1) % max_events ≡ 0 = omega arith in
      ap (λ n. rotate n xs) front ∙ append-nil xs ∙ sym (rotate_all (suc i) xs (omega arith))
]

rotate_front : (i : ℕ) → i ≡ 0 → (xs : List Event) → rotate i xs ≡ xs
rotate_front i h xs = ap (λ n. rotate n xs) h ∙ append-nil xs

append_short :
    (a : Audit) (e : Event)
    → length a.events < max_events
    → append a e ≡ record a { events = a.events ++ e ∷ [] }
unfolding append
append_short a e h = ground arith

append_full :
    (a : Audit) (e : Event)
    → max_events ≤ length a.events
    → append a e ≡ record { events = set a.events a.start e; start = (a.start + 1) % max_events }
unfolding append
append_full a e h = ground arith

pub append-Inv : (a : Audit) (e : Event) → Inv a → Inv (append a e)
append-Inv a e h = elim (dec_lt (length a.events) max_events) [
  | yes short ↦ subst Inv (sym (append_short a e short)) (record {
    bounded = omega (arith, length-append a.events (e ∷ []));
    start = h.start;
    flat = λ _. h.flat short;
  })
  | no long ↦ subst Inv (sym (append_full a e (omega arith))) (record {
    bounded = omega (arith, length-set a.events a.start e, h.bounded);
    start = omega arith;
    flat = λ small. absurd (omega (arith, length-set a.events a.start e));
  })
]

pub view-append : (a : Audit) (e : Event) → Inv a → view (append a e) ≡ push max_events (view a) e
view-append a e h = elim (dec_lt (length a.events) max_events) [
  | yes short ↦
      ap view (append_short a e short)
      ∙ rotate_front a.start (h.flat short) (a.events ++ e ∷ [])
      ∙ ap (λ xs. xs ++ e ∷ []) (sym (rotate_front a.start (h.flat short) a.events))
      ∙ sym (push_short max_events (view a) e (omega (arith, length-rotate a.start a.events)))
  | no long ↦
      ap view (append_full a e (omega arith))
      ∙ rotate_wrapped a.start (set a.events a.start e)
          (omega (arith, length-set a.events a.start e, h.start))
          (omega (arith, length-set a.events a.start e, h.bounded))
      ∙ rotate-set a.start a.events e (omega (arith, h.start))
      ∙ sym (push_full max_events (view a) e (omega (arith, length-rotate a.start a.events)))
]

-- The ring after the events `es`.
abbrev pub append_all : Audit → List Event → Audit
append_all a [] = a
append_all a (e ∷ es) = append_all (append a e) es

pub append_all-Inv : (a : Audit) (es : List Event) → Inv a → Inv (append_all a es)
append_all-Inv a [] h = h
append_all-Inv a (e ∷ es) h = append_all-Inv (append a e) es (append-Inv a e h)

view-append_all :
    (a : Audit) (old es : List Event)
    → Inv a
    → view a ≡ keep_last max_events old
    → view (append_all a es) ≡ keep_last max_events (old ++ es)
view-append_all a old [] h v = v ∙ ap (keep_last max_events) (sym (append-nil old))
view-append_all a old (e ∷ es) h v =
    let now : view (append a e) ≡ keep_last max_events (old ++ e ∷ []) =
      view-append a e h
      ∙ ap (λ m. push max_events m e) v
      ∙ push-keep_last max_events old e (omega arith) in
    view-append_all (append a e) (old ++ e ∷ []) es (append-Inv a e h) now
    ∙ ap (keep_last max_events) (append_assoc old (e ∷ []) es)

pub view-append_all-new : (es : List Event) → view (append_all new es) ≡ keep_last max_events es
view-append_all-new es = view-append_all new [] es new-Inv refl
