-- ===== src/Debug/Served.antt =====
-- A session is served: WaitForPacket answers each request once and ends with the one that lets the
-- program run on.
use lt_kernel.Prelude.{ℕ, ◌+◌, ◌*◌, ◌<◌, ◌≤◌, ◌≡◌, true, List, [], ◌∷◌, ◌++◌, length}
use lt_kernel.Prelude.Result.{Result, ok}
use lt_kernel.Debug.{KeDebugContext, Debugger}
use lt_kernel.Debug.Commands.{set_eflags}
use lt_kernel.Debug.Session.{request_packet, IsPlain, resumed, answer_packet}

-- The bytes of the requests `rs`, and those of the answers to them.
abbrev pub packets : List (ℕ × List ℕ) → List ℕ
packets [] = []
packets (q ∷ qs) = request_packet q.0 q.1 ++ packets qs

abbrev pub answers : List (ℕ × List ℕ) → KeDebugContext → List ℕ
answers [] context = []
answers (q ∷ qs) context = answer_packet q.0 context ++ answers qs context

-- A command is a word, and a packet has less than 2^28 bytes behind its fields.
abbrev pub IsRequest : ℕ × List ℕ → Type 0
IsRequest q = (q.0 < 0x100000000) × (length q.1 < 0x10000000)

abbrev pub ArePlain : List (ℕ × List ℕ) → Type 0
ArePlain [] = Unit
ArePlain (q ∷ qs) = IsRequest q × IsPlain q.0 × ArePlain qs

-- What a session of `count` requests that are answered, and one with the command `c`, does.
pub record Served (qs : List (ℕ × List ℕ)) (c : ℕ) (more : List ℕ) (d : Debugger)
    (r : Result Debugger) : Type 0 where
  pub out : Debugger
  pub runs : r ≡ ok out
  pub input : out.input ≡ more
  pub output : out.output ≡ d.output ++ answers qs d.context
  pub context : out.context ≡ (set_eflags (resumed c d.context.eflags) d).context
  pub kept : (x : ℕ) → x ≤ d.heap.requests → out.heap.live x ≡ d.heap.live x
  pub leaked : (k : ℕ) → k < length qs → out.heap.live (d.heap.requests + 2 * k + 2) ≡ true
