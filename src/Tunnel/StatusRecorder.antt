-- ===== src/Tunnel/StatusRecorder.antt =====
-- pkg/tunnel/server.go: the response writer that notes the status and the size of a response.
pub mod First
use sealtun.Prelude.{ℕ, ◌+◌, Bool, true, false, List, [], ◌∷◌, ◌++◌, if◌then◌else◌}

-- `sent` are the status codes that `WriteHeader` passed on to the writer below.
pub record Recorder : Type 0 where
  pub status : ℕ
  pub wrote_header : Bool
  pub bytes : ℕ
  pub sent : List ℕ

abbrev pub new : Recorder
new = record { status = 200; wrote_header = false; bytes = 0; sent = [] }

unfoldable pub write_header : Recorder → ℕ → Recorder
write_header r status =
    if r.wrote_header
    then r
    else record r { status = status; wrote_header = true; sent = r.sent ++ status ∷ [] }

-- `n` is what the writer below says it wrote.
unfoldable pub write : Recorder → ℕ → Recorder
write r n =
    let begun = if r.wrote_header then r else record r { status = 200; wrote_header = true } in
    record begun { bytes = begun.bytes + n }

-- `supported` says whether the writer below can be hijacked.
unfoldable pub hijack : Recorder → Bool → Recorder
hijack r supported = if supported then record r { status = 101 } else r

pub data Call : Type 0 where
  header : ℕ → Call
  content : ℕ → Call
  taken : Bool → Call

unfoldable pub call : Recorder → Call → Recorder
unfolding write_header write hijack
call r (header status) = write_header r status
call r (content n) = write r n
call r (taken supported) = hijack r supported

unfoldable pub run : Recorder → List Call → Recorder
unfolding call
run r [] = r
run r (c ∷ cs) = run (call r c) cs
