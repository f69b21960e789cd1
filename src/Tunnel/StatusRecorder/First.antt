-- ===== src/Tunnel/StatusRecorder/First.antt =====
-- The first status is the one that is sent and noted.
use sealtun.Prelude.{ℕ, ◌+◌, ◌≡◌, ap, ◌∙◌, true, false, List, [], ◌∷◌, arith}
use sealtun.Tunnel.StatusRecorder.{
  Recorder, new, write_header, write, hijack, Call, header, content, taken, call, run,
}

abbrev size : Call → ℕ
size (header status) = 0
size (content n) = n
size (taken supported) = 0

-- What a handler writes, in bytes.
abbrev pub total : List Call → ℕ
total [] = 0
total (c ∷ cs) = size c + total cs

-- The status after more calls: that of a hijacked connection is 101.
abbrev pub status_after : ℕ → List Call → ℕ
status_after status [] = status
status_after status (taken true ∷ cs) = status_after 101 cs
status_after status (taken false ∷ cs) = status_after status cs
status_after status (header s ∷ cs) = status_after status cs
status_after status (content n ∷ cs) = status_after status cs

-- A recorder that has begun its response.
abbrev begun : ℕ → ℕ → List ℕ → Recorder
begun status bytes sent = record {
  status = status;
  wrote_header = true;
  bytes = bytes;
  sent = sent;
}

run-begun :
    (status bytes : ℕ) (sent : List ℕ) (cs : List Call)
    → run (begun status bytes sent) cs ≡ begun (status_after status cs) (bytes + total cs) sent
unfolding run call write_header write hijack
run-begun status bytes sent [] = ap (λ n. begun status n sent) (omega arith)
run-begun status bytes sent (header s ∷ cs) =
    run-begun status bytes sent cs ∙ ap (λ n. begun (status_after status cs) n sent) (omega arith)
run-begun status bytes sent (content n ∷ cs) =
    run-begun status (bytes + n) sent cs
    ∙ ap (λ n. begun (status_after status cs) n sent) (omega arith)
run-begun status bytes sent (taken true ∷ cs) =
    run-begun 101 bytes sent cs ∙ ap (λ n. begun (status_after 101 cs) n sent) (omega arith)
run-begun status bytes sent (taken false ∷ cs) =
    run-begun status bytes sent cs ∙ ap (λ n. begun (status_after status cs) n sent) (omega arith)

-- After the first `WriteHeader` of a response, whatever else is called, that status is the one
-- status that is passed on; it is the status noted unless the connection is hijacked, which notes
-- 101; and the bytes noted are those written. So a 1xx status that is written first is the last one.
pub run-write_header :
    (status : ℕ) (cs : List Call)
    → ((run new (header status ∷ cs)).sent ≡ status ∷ [])
      × ((run new (header status ∷ cs)).status ≡ status_after status cs)
      × ((run new (header status ∷ cs)).bytes ≡ total cs)
unfolding run call write_header
run-write_header status cs =
    let e = run-begun status 0 (status ∷ []) cs in
    (ap Recorder.sent e, ap Recorder.status e, ap Recorder.bytes e ∙ omega arith)
