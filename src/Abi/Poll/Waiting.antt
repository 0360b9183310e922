-- ===== src/Abi/Poll/Waiting.antt =====
-- `io_poll` of kernel/abi.zig ends, and what it then answers.
use zigu.Base.{
  ℕ, zero, suc, ◌+◌, ◌-◌, ◌<◌, ◌≤◌, ◌≡◌, ◌⊎◌, ◌==◌, ltb, leb, ltb→lt, Bool-cases, true, false, some,
  inl, inr, List, [], ◌∷◌, length, Run, done, refl, subst, arith,
}
use zigu.Net.{Device}
use zigu.Abi.Codes.{ok, err_timeout, cap_io}
use zigu.Abi.Caps.{allow}
use zigu.Abi.Net.{poll_incoming}
use zigu.Abi.Io.{Uart}
use zigu.Abi.Poll.Events.{AreEvents, check_events-AreEvents}
use zigu.Abi.Poll.{PollState, Polled, check_events, ticked, wait_loop, poll_handles, io_poll}

-- The counter advances between two reads.
abbrev pub Advances : {U : Type 0} → (U → ℕ × U) → Type 0
Advances {U} rdtsc = (u : U) → (rdtsc u).0 < (rdtsc (rdtsc u).1).0

-- The state with the port as it is after some reads of the counter.
abbrev pub IsLater : {U T : Type 0} → PollState U T → PollState U T → Type 0
IsLater {U} s s' = (u : U) × (s' ≡ record s { io = record (s.io) { uart = u } })

-- Either the events that the handles have in the state that is reached, one at least, and their number; or no
-- handle had an event before the counter was read last, and that read shows the end of the timeout.
abbrev pub IsAnswer :
    {U T : Type 0} → Uart U → (U → ℕ × U) → ℕ → List ℕ → PollState U T → Polled U T → Type 0
IsAnswer {U} {T} dev rdtsc end handles polled ((rc, events, count), s) =
    ((rc ≡ ok)
      × IsLater polled s
      × AreEvents dev s handles events
      × (0 < length events)
      × (count ≡ some (length events)))
    ⊎ ((rc ≡ err_timeout)
        × (events ≡ [])
        × (count ≡ some 0)
        × ((before : PollState U T) × IsLater polled before
            × (s ≡ ticked rdtsc before)
            × AreEvents dev before handles []
            × (end ≤ (rdtsc before.io.uart).0)))

-- It ends with such an answer.
abbrev pub Ends :
    {U T : Type 0} → Uart U → (U → ℕ × U) → ℕ → List ℕ → PollState U T → Run (Polled U T) → Type 0
Ends {U} {T} dev rdtsc end handles polled run =
    (answer : Polled U T) × (run ≡ done answer) × IsAnswer dev rdtsc end handles polled answer

check_events-none :
    {U T : Type 0} (dev : Uart U) (handles : List ℕ) (s : PollState U T)
    → ltb 0 (length (check_events dev handles s)) ≡ false
    → AreEvents dev s handles []
check_events-none dev handles s h =
    let empty : check_events dev handles s ≡ [] = nothing (check_events dev handles s) h in
    subst (AreEvents dev s handles) empty (check_events-AreEvents dev s handles)
  where
    nothing : (events : List (ℕ × ℕ)) → ltb 0 (length events) ≡ false → events ≡ []
    nothing [] h = refl
    nothing (e ∷ events) h = absurd (ground arith)

module _ {U T : Type 0} (dev : Uart U) (rdtsc : U → ℕ × U) (advances : Advances rdtsc) where
  wait_loop-Ends :
      (fuel start timeout : ℕ) (handles : List ℕ) (polled : PollState U T) (u : U)
      → let s = record polled { io = record (polled.io) { uart = u } } in
        1 ≤ fuel
        → start ≤ (rdtsc u).0
        → start + timeout < (rdtsc u).0 + fuel
        → Ends dev rdtsc
            (start + timeout)
            handles
            polled
            (wait_loop dev rdtsc fuel start timeout handles s)
  unfolding wait_loop
  wait_loop-Ends zero start timeout handles polled u h before enough = absurd (omega (arith, h))
  wait_loop-Ends (suc fuel) start timeout handles polled u h before enough =
      let s = record polled { io = record (polled.io) { uart = u } } in
      let events = check_events dev handles s in
      let now = (rdtsc u).0 in
      elim (Bool-cases (ltb 0 (length events))) [
        | inl found ↦ (
          ((ok, events, some (length events)), s),
          rw (wait_loop, found) refl,
          inl (
            refl,
            (u, refl),
            check_events-AreEvents dev s handles,
            ltb→lt 0 (length events) found,
            refl,
          ),
        )
        | inr nothing ↦ elim (Bool-cases (leb timeout (now - start))) [
          | inl over ↦
              let none_there = check_events-none dev handles s nothing in
              let ended : start + timeout ≤ now = ground (arith, before, over) in
              (
                ((err_timeout, [], some 0), ticked rdtsc s),
                rw (wait_loop, nothing, over) refl,
                inr (refl, refl, refl, (s, (u, refl), refl, none_there, ended)),
              )
          | inr early ↦
              let later : now < (rdtsc (rdtsc u).1).0 = advances u in
              let left : now < start + timeout = ground (arith, before) in
              let (answer, ends, good) =
                wait_loop-Ends fuel start timeout handles polled (rdtsc u).1
                  (omega (arith, left, enough)) (omega (arith, before, later))
                  (omega (arith, later, enough)) in
              (answer, rw (wait_loop, nothing, early) ends, good)
        ]
      ]

  poll_handles-Ends :
      (fuel timeout : ℕ) (handles : List ℕ) (s : PollState U T)
      → 0 < timeout
      → timeout ≤ fuel
      → Ends dev rdtsc
          ((rdtsc s.io.uart).0 + timeout)
          handles
          s
          (poll_handles dev rdtsc fuel handles timeout s)
  unfolding poll_handles
  poll_handles-Ends fuel timeout handles s h enough =
      let events = check_events dev handles s in
      elim (Bool-cases (ltb 0 (length events))) [
        | inl found ↦ (
          ((ok, events, some (length events)), s),
          rw (poll_handles, found) refl,
          inl (
            refl,
            (s.io.uart, refl),
            check_events-AreEvents dev s handles,
            ltb→lt 0 (length events) found,
            refl,
          ),
        )
        | inr nothing ↦
            let later = advances s.io.uart in
            let some_time : (timeout == 0) ≡ false = ground arith in
            let (answer, ends, good) =
              wait_loop-Ends fuel (rdtsc s.io.uart).0 timeout handles s (rdtsc s.io.uart).1
                (omega (arith, h, enough)) (omega (arith, later)) (omega (arith, later, enough)) in
            (answer, rw (poll_handles, nothing, some_time) ends, good)
      ]

-- The capability is active, there are handles and a timeout, the counter advances between two reads, and there
-- are as many rounds as the timeout: `io_poll` drains the network and returns. Either it answers with the events
-- that exactly the polled handles have in the state that it has reached, in their order: those of the port, and
-- those of a socket, which is readable when it has data and always writable; one at least, and their number. Or
-- it answers with `err_timeout`, no handle had an event before the counter was read last, and that read is at
-- least the timeout, in ticks of the counter, after the first.
pub io_poll-Ends :
    {U T : Type 0} (dev : Uart U) (rdtsc : U → ℕ × U) (below : Device T) (fuel timeout : ℕ)
    (handles : List ℕ) (s : PollState U T)
    → Advances rdtsc
    → allow cap_io s.io.caps ≡ true
    → 0 < length handles
    → 0 < timeout
    → timeout ≤ fuel
    → Ends dev rdtsc
        ((rdtsc s.io.uart).0 + timeout)
        handles
        (record s { net = poll_incoming below s.net })
        (io_poll dev rdtsc fuel below false handles timeout s)
unfolding io_poll
io_poll-Ends dev rdtsc below fuel timeout handles s advances allowed some_handle h enough =
    let polled = record s { net = poll_incoming below s.net } in
    let given : (length handles == 0) ≡ false = ground arith in
    let (answer, ends, good) =
      poll_handles-Ends dev rdtsc advances fuel timeout handles polled h enough in
    (answer, rw (io_poll, allowed, given) ends, good)
