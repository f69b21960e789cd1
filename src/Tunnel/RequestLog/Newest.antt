-- ===== src/Tunnel/RequestLog/Newest.antt =====
-- The log holds the newest requests, and capturing changes no request that is forwarded.
use sealtun.Prelude.{
  ℕ, zero, suc, ◌+◌, ◌≤◌, ◌<◌, ◌≡◌, ◌⊎◌, inl, inr, refl, sym, ap, ◌∙◌, true, List, [], ◌∷◌, ◌++◌,
  reverse, Option, none, some, pos, Bytes, codes, arith, length, take, drop, ltb, ◌==◌, ◌||◌,
  if◌then◌else◌, length-append, length-reverse, length-take, take-append-drop, append_assoc,
  append-nil, Bool-cases,
}
use sealtun.Http.{Request, get}
use sealtun.Tunnel.Recent.{push, keep_last, push-keep_last}
use sealtun.Tunnel.RequestLog.{
  capacity, preview_max, replay_max, Captured, Entry, Log, new, add, effective, list, buffered,
  shown, captured_of, textual, capture_body, capture_request_body,
}

-- The entries with their sequence numbers from `k` + 1 on.
abbrev pub number : ℕ → List Entry → List Entry
number k [] = []
number k (e ∷ es) = record e { seq = k + 1 } ∷ number (k + 1) es

pub add_all : Log → List Entry → Log
add_all log [] = log
add_all log (e ∷ es) = add_all (add log e) es

number-append :
    (k : ℕ) (es fs : List Entry) → number k (es ++ fs) ≡ number k es ++ number (k + length es) fs
number-append k [] fs = ap (λ n. number n fs) (omega arith)
number-append k (e ∷ es) fs =
    ap (◌∷◌ (record e { seq = k + 1 }))
      (number-append (k + 1) es fs ∙ ap (λ n. number (k + 1) es ++ number n fs) (omega arith))

-- What the log holds when the entries `es` have been added.
record Holds (log : Log) (es : List Entry) : Type 0 where
  entries : log.entries ≡ keep_last capacity (number 0 es)
  next : log.next_seq ≡ length es

add-Holds :
    (log : Log) (es : List Entry) (e : Entry) → Holds log es → Holds (add log e) (es ++ e ∷ [])
unfolding add
add-Holds log es e h = record {
  entries =
      ap (λ xs. push capacity xs (record e { seq = log.next_seq + 1 })) h.entries
      ∙ push-keep_last capacity (number 0 es) _ (omega arith)
      ∙ ap (keep_last capacity) (
          ap (λ n. number 0 es ++ record e { seq = n } ∷ []) (omega (arith, h.next))
          ∙ sym (number-append 0 es (e ∷ [])));
  next = omega (arith, h.next, length-append es (e ∷ []));
}

add_all-Holds :
    (log : Log) (done es : List Entry) → Holds log done → Holds (add_all log es) (done ++ es)
unfolding add_all
add_all-Holds log done [] h = rw (append-nil done) h
add_all-Holds log done (e ∷ es) h =
    rw (← append_assoc done (e ∷ []) es)
      (add_all-Holds (add log e) (done ++ e ∷ []) es (add-Holds log done e h))

new-Holds : Holds new []
new-Holds = record { entries = refl; next = refl }

take_all : {A : Type 0} (n : ℕ) (xs : List A) → length xs ≤ n → take n xs ≡ xs
take_all zero [] h = refl
take_all zero (x ∷ xs) h = absurd (omega arith)
take_all (suc n) [] h = refl
take_all (suc n) (x ∷ xs) h = ap (◌∷◌ x) (take_all n xs (omega arith))

list-take : (log : Log) (k : ℕ) → 0 < k → list log (pos k) ≡ take k (reverse log.entries)
unfolding list effective
list-take log k h = elim (Bool-cases (k == 0 || ltb (length log.entries) k)) [
  | inl e ↦
      let fits : length log.entries ≤ k = ground arith in
      rw e (
        take_all (length log.entries) (reverse log.entries)
          (omega (arith, length-reverse log.entries))
        ∙ sym (take_all k (reverse log.entries) (omega (arith, length-reverse log.entries))))
  | inr e ↦ rw e
]

-- After any requests were added to a new log, a list with a positive limit gives the newest of the
-- last 200 of them, newest first, each under its number in the order of arrival; and the next number
-- goes on from there.
pub list-add_all :
    (es : List Entry) (k : ℕ)
    → 0 < k
    → (list (add_all new es) (pos k) ≡ take k (reverse (keep_last capacity (number 0 es))))
      × ((add_all new es).next_seq ≡ length es)
list-add_all es k h =
    let holds = add_all-Holds new [] es new-Holds in
    (list-take (add_all new es) k h ∙ ap (λ xs. take k (reverse xs)) holds.entries, holds.next)

-- What is kept of a request's body is bounded, and is the whole body where it is said to be.
pub record IsCapture (r : Request) (c : Captured) : Type 0 where
  pub preview : length c.preview ≤ preview_max
  pub replay : length c.replay ≤ replay_max
  pub exact : (c.omitted ≡ true) ⊎ (r.body ≡ some c.replay) ⊎ ((r.body ≡ none) × (c.replay ≡ []))
  pub omits : c.omitted ≡ true → c.replay ≡ []

cap_bound : (n : ℕ) (text : Bytes) → length (if ltb n (length text) then take n text else text) ≤ n
cap_bound n text = ground (arith, length-take n text)

shown_bound : (text : Bytes) → length (shown text) ≤ preview_max
unfolding shown
shown_bound text = cap_bound preview_max text

restored :
    (n : ℕ) (r : Request) (body : Bytes)
    → r.body ≡ some body
    → record r { body = some (take n body ++ drop n body) } ≡ r
restored n r body e =
    ap (λ (b : Option Bytes). record r { body = b }) (ap some (take-append-drop n body) ∙ sym e)

captured_of-IsCapture :
    (r : Request) (text : Bytes)
    → (length text ≤ replay_max → r.body ≡ some text)
    → IsCapture r (captured_of text)
unfolding captured_of
captured_of-IsCapture r text h = elim (Bool-cases (ltb replay_max (length text))) [
  | inl e ↦ rw e (record {
    preview = shown_bound text;
    replay = omega arith;
    exact = inl refl;
    omits = λ _. refl;
  })
  | inr e ↦
      let fits : length text ≤ replay_max = ground arith in
      rw e (record {
        preview = shown_bound text;
        replay = fits;
        exact = inr (inl (h fits));
        omits = λ q. cc;
      })
]

buffered_small : (n : ℕ) (body : Bytes) → length (take (n + 1) body) ≤ n → take (n + 1) body ≡ body
buffered_small n body h = take_all (n + 1) body (omega (arith, h, length-take (n + 1) body))

module _ (parse_media_type : Bytes → Option Bytes) where
  capture_body-IsCapture :
      (r : Request) (body : Option Bytes)
      → r.body ≡ body
      → IsCapture r (capture_body parse_media_type r body).0
        × ((capture_body parse_media_type r body).1 ≡ r)
  unfolding capture_body buffered
  capture_body-IsCapture r none e = (
    record {
      preview = omega arith;
      replay = omega arith;
      exact = inr (inr (e, refl));
      omits = λ h. cc;
    },
    refl,
  )
  capture_body-IsCapture r (some body) e =
      elim (Bool-cases
        (textual parse_media_type (parse_media_type (get (codes "Content-Type") r.header)))) [
          | inr t ↦ rw t (
            record {
              preview = omega arith;
              replay = omega arith;
              exact = inl refl;
              omits = λ h. refl;
            },
            refl,
          )
          | inl t ↦ rw t (
            captured_of-IsCapture r (take (replay_max + 1) body)
                (λ fits. e ∙ ap some (sym (buffered_small replay_max body fits))),
            restored (replay_max + 1) r body e,
          )
        ]

  -- Capturing leaves the request as it was, its body included, byte for byte. The preview has at most
  -- 4 KiB and the body kept for replay at most 32 KiB; unless the body is marked as omitted, what is
  -- kept for replay is the whole body, and if it is, nothing is kept.
  pub capture_request_body-IsCapture :
      (r : Request)
      → IsCapture r (capture_request_body parse_media_type r).0
        × ((capture_request_body parse_media_type r).1 ≡ r)
  unfolding capture_request_body
  capture_request_body-IsCapture r = capture_body-IsCapture r r.body refl
