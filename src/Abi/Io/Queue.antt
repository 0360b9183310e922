-- ===== src/Abi/Io/Queue.antt =====
-- The loops of `io_read` and `io_write` of kernel/abi.zig, over a port that keeps what comes in and sends what is
-- written.
use zigu.Base.{
  ℕ, zero, suc, ◌≡◌, ◌⊎◌, true, false, inl, inr, List, [], ◌∷◌, ◌++◌, append-nil, append_assoc,
  take, refl, ap, sym, ◌∙◌,
}
use zigu.Udp.{skip}
use zigu.Abi.Io.{Uart, read_serial, write_serial}

-- The port is a queue of the bytes that have come in.
abbrev pub IsQueue : {U : Type 0} → Uart U → (U → List ℕ) → Type 0
IsQueue {U} dev pending =
    (u : U)
    → ((pending u ≡ []) × (dev.rx_ready u ≡ false))
      ⊎ ((b : ℕ) × (bytes : List ℕ) × (pending u ≡ b ∷ bytes)
          × (dev.rx_ready u ≡ true)
          × ((dev.read_byte u).0 ≡ b)
          × (pending (dev.read_byte u).1 ≡ bytes))

-- Over a port that is a queue, as many bytes are read as there is room for and have come in, in their order, and
-- the others stay.
pub read_serial-take :
    {U : Type 0} (dev : Uart U) (pending : U → List ℕ) (room : ℕ) (u : U)
    → IsQueue dev pending
    → let (bytes, u') = read_serial dev room u in
      (bytes ≡ take room (pending u)) × (pending u' ≡ skip room (pending u))
unfolding read_serial
read_serial-take dev pending zero u queue = (refl, refl)
read_serial-take dev pending (suc room) u queue = elim (queue u) [
  | inl (empty, quiet) ↦ rw (read_serial, quiet, empty) (refl, refl)
  | inr (b, bytes, has, ready, first, left) ↦
      let (later, rest) = read_serial-take dev pending room (dev.read_byte u).1 queue in
      rw (read_serial, ready, has)
        (
          ap (λ c. c ∷ (read_serial dev room (dev.read_byte u).1).0) first
              ∙ ap (λ l. b ∷ l) (later ∙ ap (take room) left),
          rest ∙ ap (skip room) left,
        )
]

-- What is written to the port is sent behind what was sent.
abbrev pub IsSink : {U : Type 0} → Uart U → (U → List ℕ) → Type 0
IsSink {U} dev sent = (b : ℕ) (u : U) → sent (dev.write_byte b u) ≡ sent u ++ (b ∷ [])

-- All bytes are sent, in their order.
pub write_serial-append :
    {U : Type 0} (dev : Uart U) (sent : U → List ℕ) (buf : List ℕ) (u : U)
    → IsSink dev sent
    → sent (write_serial dev buf u) ≡ sent u ++ buf
unfolding write_serial
write_serial-append dev sent [] u sink = sym (append-nil (sent u))
write_serial-append dev sent (b ∷ buf) u sink =
    write_serial-append dev sent buf (dev.write_byte b u) sink
    ∙ ap (λ l. l ++ buf) (sink b u)
    ∙ append_assoc (sent u) (b ∷ []) buf
