-- ===== src/HttpPoller/Receive.antt =====
-- The buffer after a transfer, and the time that it took.
use yurei_jsonrpc_client.Prelude.{
  ℕ, ◌+◌, ◌-◌, ◌*◌, ◌≤◌, ◌<◌, ◌≡◌, ap, sym, Bool, true, ◌==◌, none, some, List, [], ◌∷◌, ◌++◌,
  arith, length, Bytes, append_assoc, append-nil,
}
use yurei_jsonrpc_client.HttpPoller.{write_callback, receive, Instant, latency_us}

-- The pieces one after the other, when all of them could be stored.
abbrev pub stored : List Bytes → List (Bool × Bytes)
stored [] = []
stored (p ∷ ps) = (true, p) ∷ stored ps

abbrev pub joined : List Bytes → Bytes
joined [] = []
joined (p ∷ ps) = p ++ joined ps

receive_from :
    (pieces : List Bytes) (text : Bytes)
    → receive (stored pieces) (some text) ≡ (true, some (text ++ joined pieces))
unfolding receive write_callback
receive_from [] text = ap (λ (t : Bytes). (true, some t)) (sym (append-nil text))
receive_from (p ∷ ps) text =
    let same : (length p == length p) ≡ true = ground arith in
    rw (same, receive_from ps (text ++ p), append_assoc text p (joined ps))

-- With memory for every piece, a transfer of a piece or more leaves the whole answer in the
-- buffer, its pieces in order.
pub receive-joined :
    (piece : Bytes) (pieces : List Bytes)
    → receive (stored (piece ∷ pieces)) none ≡ (true, some (joined (piece ∷ pieces)))
unfolding receive write_callback
receive-joined piece pieces =
    let same : (length piece == length piece) ≡ true = ground arith in
    rw (same, receive_from pieces piece)

abbrev pub nanos_of : Instant → ℕ
nanos_of t = t.seconds * 1_000_000_000 + t.nanos

-- An instant whose nanoseconds are less than a second.
abbrev pub IsNormal : Instant → Type 0
IsNormal t = t.nanos < 1_000_000_000

-- Between two readings of the clock, the second not before the first, the latency is the time that
-- passed, in microseconds, to within less than one.
pub latency_us-nanos :
    (start end : Instant)
    → IsNormal start
    → IsNormal end
    → nanos_of start ≤ nanos_of end
    → (latency_us start end * 1000 < nanos_of end - nanos_of start + 1000)
      × (nanos_of end - nanos_of start < latency_us start end * 1000 + 1000)
unfolding latency_us
latency_us-nanos start end hs he h = (ground arith, ground arith)
