-- ===== src/Abi/Poll/Tests.antt =====
-- A port whose clock advances by one at each read, and a handle on it.
use zigu.Base.{
  ℕ, suc, ◌==◌, ◌+◌, ◌*◌, ◌^◌, ◌≡◌, true, false, some, [], ◌∷◌, replicate, done, refl, arith,
}
use zigu.Net.Sample.{Wire, wire}
use zigu.Abi.Codes.{ok, cap_io}
use zigu.Abi.Caps.{same_kind}
use zigu.Abi.Caps.History.{boot}
use zigu.Abi.Handles.{unused, validate_handle}
use zigu.Abi.Io.{Uart, kind_none, kind_serial, probe_io_events}
use zigu.Abi.Net.Agreement.Calls.{start}
use zigu.Abi.Net.{poll_incoming}
use zigu.Abi.Poll.{PollState, check_events, io_poll}
use zigu.Abi.Poll.Waiting.{Ends, io_poll-Ends}

-- Nothing can be sent, and a byte comes in at the tick 5.
abbrev uart : Uart ℕ
uart = record {
  rx_ready = λ u. u == 5;
  tx_ready = λ u. false;
  read_byte = λ u. (65, u);
  write_byte = λ b u. u;
}

abbrev state : PollState ℕ Wire
state = record {
  io = record {
    caps = record boot { active = same_kind cap_io };
    io_table = record { in_use = true; gen = 1 } ∷ replicate 31 unused;
    io_kind = kind_serial ∷ replicate 31 kind_none;
    uart = 0;
  };
  net = start (record { coming = []; sent = [] });
}

io_poll-Ends_example :
    Ends uart
      (λ u. (u, suc u))
      100
      ((2 * 2 ^ 56 + 1) ∷ [])
      (record state { net = poll_incoming wire state.net })
      (io_poll uart (λ u. (u, suc u)) 100 wire false ((2 * 2 ^ 56 + 1) ∷ []) 100 state)
io_poll-Ends_example =
    io_poll-Ends uart (λ u. (u, suc u)) wire 100 100 ((2 * 2 ^ 56 + 1) ∷ []) state
      (λ u. omega arith) refl (omega arith) (omega arith) (omega arith)

-- The byte is seen when it comes in.
polled :
    io_poll uart (λ u. (u, suc u)) 100 wire false ((2 * 2 ^ 56 + 1) ∷ []) 100 state
    ≡ done (
      (ok, ((2 * 2 ^ 56 + 1, 1) ∷ []), some 1),
      record { io = record (state.io) { uart = 5 }; net = poll_incoming wire state.net },
    )
unfolding io_poll check_events probe_io_events validate_handle
polled = refl
