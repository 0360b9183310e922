-- ===== src/Abi/Poll.antt =====
-- `io_poll` of kernel/abi.zig, over the handles of io and of the network.
pub mod Events
pub mod Waiting
mod Tests
use zigu.Base.{
  ℕ, zero, suc, ◌+◌, ◌-◌, ◌^◌, ◌==◌, ltb, leb, not, Bool, true, false, if◌then◌else◌, Option, none,
  some, List, [], ◌∷◌, length, Run, done, out_of_fuel,
}
use zigu.Udp.{Sockets, udp_poll_readable}
use zigu.Net.{Device}
use zigu.Abi.Codes.{
  ErrorCode, ok, err_invalid, err_permission, err_would_block, err_timeout, cap_io, handle_io,
  handle_net, tag, io_readable, io_writable, event_bit,
}
use zigu.Abi.Caps.{allow}
use zigu.Abi.Handles.{handle_tag}
use zigu.Abi.Net.{NetState, validate, poll_incoming}
use zigu.Abi.Io.{Uart, IoState, validate_io, probe_io_events}

-- The state that the call reads; the capabilities are those of `io`.
pub record PollState (U T : Type 0) : Type 0 where
  pub io : IoState U
  pub net : NetState T

-- UDP sockets are always writable.
pub probe_net_events : ℕ → Sockets → ℕ
probe_net_events idx socks =
    (if udp_poll_readable idx socks then event_bit io_readable else 0) + event_bit io_writable

-- The events of a handle: 0 where the loop passes it over.
pub handle_events : {U T : Type 0} → Uart U → ℕ → PollState U T → ℕ
handle_events dev handle s =
    if handle_tag handle == tag handle_io
    then (elim (validate_io s.io handle) [ none ↦ 0 | some id ↦ probe_io_events dev id s.io ])
    else if handle_tag handle == tag handle_net
    then (elim (validate s.net handle) [
      | none ↦ 0
      | some id ↦ probe_net_events id s.net.udp_sockets
    ])
    else 0

-- `checkEvents`: the events that it writes; it returns how many.
pub check_events : {U T : Type 0} → Uart U → List ℕ → PollState U T → List (ℕ × ℕ)
unfolding handle_events
check_events dev [] s = []
check_events dev (handle ∷ handles) s =
    let rest = check_events dev handles s in
    let ev = handle_events dev handle s in if ev == 0 then rest else (handle, ev) ∷ rest

-- The code, the events that were written, and `*count_out`, with the state.
abbrev pub Polled : Type 0 → Type 0 → Type 0
Polled U T = (ErrorCode × List (ℕ × ℕ) × Option ℕ) × PollState U T

-- `rdtsc`, which lets time pass at the port.
abbrev pub ticked : {U T : Type 0} → (U → ℕ × U) → PollState U T → PollState U T
ticked rdtsc s = record s { io = record (s.io) { uart = (rdtsc s.io.uart).1 } }

module _ {U T : Type 0} (dev : Uart U) (rdtsc : U → ℕ × U) where
  -- The loop of a call without handles.
  pub sleep_loop : ℕ → ℕ → ℕ → PollState U T → Run (Polled U T)
  sleep_loop zero start timeout s = out_of_fuel
  sleep_loop (suc fuel) start timeout s =
      let now = (rdtsc s.io.uart).0 in
      elim (leb timeout (now - start)) [
        | true ↦ done ((err_timeout, [], some 0), ticked rdtsc s)
        | false ↦ sleep_loop fuel start timeout (ticked rdtsc s)
      ]

  -- The loop of a call with handles.
  pub wait_loop : ℕ → ℕ → ℕ → List ℕ → PollState U T → Run (Polled U T)
  unfolding check_events
  wait_loop zero start timeout handles s = out_of_fuel
  wait_loop (suc fuel) start timeout handles s =
      let events = check_events dev handles s in
      let now = (rdtsc s.io.uart).0 in
      elim (ltb 0 (length events)) [
        | true ↦ done ((ok, events, some (length events)), s)
        | false ↦ elim (leb timeout (now - start)) [
          | true ↦ done ((err_timeout, [], some 0), ticked rdtsc s)
          | false ↦ wait_loop fuel start timeout handles (ticked rdtsc s)
        ]
      ]

  -- The first check, and what follows it.
  pub poll_handles : ℕ → List ℕ → ℕ → PollState U T → Run (Polled U T)
  unfolding check_events wait_loop
  poll_handles fuel handles timeout s =
      let events = check_events dev handles s in
      elim (ltb 0 (length events)) [
        | true ↦ done ((ok, events, some (length events)), s)
        | false ↦
            if timeout == 0
            then done ((err_would_block, [], some 0), s)
            else wait_loop fuel (rdtsc s.io.uart).0 timeout handles (ticked rdtsc s)
      ]

  -- `null` tells whether the pointer to the handles is null; `events_out` and `count_out` are not.
  pub io_poll : ℕ → Device T → Bool → List ℕ → ℕ → PollState U T → Run (Polled U T)
  unfolding poll_handles sleep_loop
  io_poll fuel below null handles timeout s =
      if not (allow cap_io s.io.caps)
      then done ((err_permission, [], none), s)
      else if length handles == 0
      then (if timeout == 0
          then done ((err_would_block, [], some 0), s)
          else sleep_loop fuel (rdtsc s.io.uart).0 timeout (ticked rdtsc s))
      else if null
      then done ((err_invalid, [], some 0), s)
      else poll_handles fuel handles timeout (record s { net = poll_incoming below s.net })
