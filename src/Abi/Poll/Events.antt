-- ===== src/Abi/Poll/Events.antt =====
-- The events of the handles that `io_poll` of kernel/abi.zig is given, as abi.h describes them: bit 0 says that there
-- is something to read, bit 1 that something can be written.
use zigu.Base.{
  ℕ, ◌+◌, ◌≡◌, ◌≢◌, ◌⊎◌, ◌==◌, ◌&&◌, ltb, Bool, Bool-cases, if◌then◌else◌, Option-cases, ==→eq,
  none, inl, inr, List, [], ◌∷◌, get_or, refl, ap, arith,
}
use zigu.Udp.{Sockets, closed, udp_poll_readable}
use zigu.Abi.Codes.{tag}
use zigu.Abi.Handles.{Entry, handle_tag, validate_handle}
use zigu.Abi.Handles.Table.{IsValid, validate_handle-IsValid}
use zigu.Abi.Net.{validate}
use zigu.Abi.Io.{Uart, IoKind, kind_none, kind_serial, kind_socket, validate_io, probe_io_events}
use zigu.Abi.Poll.{PollState, probe_net_events, handle_events, check_events}

abbrev pub bit : ℕ → Bool → ℕ
bit n on = if on then n else 0

-- The handle is that of an entry of the io table with this kind.
abbrev pub IsIo : {U T : Type 0} → IoKind → PollState U T → ℕ → Type 0
IsIo kind s handle =
    (id : ℕ) × IsValid s.io.io_table 2 handle id × (get_or s.io.io_kind id kind_none ≡ kind)

-- The handle is that of this socket.
abbrev pub IsSocket : {U T : Type 0} → PollState U T → ℕ → ℕ → Type 0
IsSocket s handle id = IsValid s.net.net_table 4 handle id

-- A socket has data.
abbrev pub has_data : ℕ → Sockets → Bool
has_data id socks =
    ltb id 16 && ((get_or socks id closed).in_use && (get_or socks id closed).has_data)

-- The events of a handle: those of the port, through a handle of the kind for it; those of a socket, which can always
-- be written; and none of any other handle.
abbrev pub HasEvents : {U T : Type 0} → Uart U → PollState U T → ℕ → ℕ → Type 0
HasEvents dev s handle ev =
    (IsIo kind_serial s handle
      × (ev ≡ bit 1 (dev.rx_ready s.io.uart) + bit 2 (dev.tx_ready s.io.uart)))
    ⊎ (((id : ℕ) × IsSocket s handle id × (ev ≡ bit 1 (has_data id s.net.udp_sockets) + 2))
        ⊎ (¬ (IsIo kind_serial s handle) × ((id : ℕ) → ¬ (IsSocket s handle id)) × (ev ≡ 0)))

-- The events of the handles, in their order, without the handles that have none.
abbrev pub AreEvents : {U T : Type 0} → Uart U → PollState U T → List ℕ → List (ℕ × ℕ) → Type 0
AreEvents dev s [] events = events ≡ []
AreEvents dev s (handle ∷ handles) events =
    (ev : ℕ) × HasEvents dev s handle ev
    × (((ev ≡ 0) × AreEvents dev s handles events)
        ⊎ ((ev ≢ 0)
            × ((rest : List (ℕ × ℕ)) × (events ≡ (handle, ev) ∷ rest)
                × AreEvents dev s handles rest)))

udp_poll_readable-has_data :
    (id : ℕ) (socks : Sockets) → udp_poll_readable id socks ≡ has_data id socks
unfolding udp_poll_readable
udp_poll_readable-has_data id socks = ground arith

module _ {U T : Type 0} (dev : Uart U) (s : PollState U T) where
  probe_io_events-HasEvents :
      (handle id : ℕ) (kind : IoKind)
      → IsValid s.io.io_table 2 handle id
      → get_or s.io.io_kind id kind_none ≡ kind
      → HasEvents dev s handle (probe_io_events dev id s.io)
  unfolding probe_io_events
  probe_io_events-HasEvents handle id kind_serial valid e =
      rw (probe_io_events, e) (inl ((id, valid, e), refl))
  probe_io_events-HasEvents handle id kind_socket valid e =
      rw (probe_io_events, e)
        (inr (
          inr (
            λ (id', valid', e'). cc (valid.1, valid'.1, e, e'),
            λ id' socket. cc (valid.0, socket.0),
            refl,
          )))
  probe_io_events-HasEvents handle id kind_none valid e =
      rw (probe_io_events, e)
        (inr (
          inr (
            λ (id', valid', e'). cc (valid.1, valid'.1, e, e'),
            λ id' socket. cc (valid.0, socket.0),
            refl,
          )))

  -- A handle of neither table has no event.
  none-HasEvents :
      (handle : ℕ)
      → ((id : ℕ) → ¬ (IsValid s.io.io_table 2 handle id))
      → ((id : ℕ) → ¬ (IsSocket s handle id))
      → HasEvents dev s handle 0
  none-HasEvents handle io net = inr (inr (λ (id, valid, e). io id valid, net, refl))

  refused :
      (table : List Entry) (tag handle : ℕ)
      → validate_handle table tag handle ≡ none
      → (id : ℕ) → ¬ (IsValid table tag handle id)
  refused table tag handle e id valid =
      let known = (validate_handle-IsValid table tag handle id).1 valid in cc (e, known)

  handle_events-HasEvents : (handle : ℕ) → HasEvents dev s handle (handle_events dev handle s)
  unfolding handle_events probe_net_events
  handle_events-HasEvents handle = elim (Bool-cases (handle_tag handle == 2)) [
    | inl io ↦
        let tagged : handle_tag handle ≡ 2 = ==→eq (handle_tag handle) 2 io in
        let not_net : (id : ℕ) → ¬ (IsSocket s handle id) = λ id socket. cc (socket.0, tagged) in
        elim (Option-cases (validate_io s.io handle)) [
          | inl e ↦
              rw (handle_events, io, e)
                (none-HasEvents handle (refused s.io.io_table 2 handle e) not_net)
          | inr (id, e) ↦
              rw (handle_events, io, e)
                (probe_io_events-HasEvents handle id (get_or s.io.io_kind id kind_none)
                  ((validate_handle-IsValid s.io.io_table 2 handle id).0 e) refl)
        ]
    | inr other ↦
        let not_io : (id : ℕ) → ¬ (IsValid s.io.io_table 2 handle id) =
          λ id valid. ground (arith, valid.0, other) in
        elim (Bool-cases (handle_tag handle == 4)) [
          | inl net ↦ elim (Option-cases (validate s.net handle)) [
            | inl e ↦
                rw (handle_events, other, net, e)
                  (none-HasEvents handle not_io (refused s.net.net_table 4 handle e))
            | inr (id, e) ↦
                let socket = (validate_handle-IsValid s.net.net_table 4 handle id).0 e in
                rw (handle_events, other, net, e)
                  (inr (
                    inl (
                      id,
                      socket,
                      ap (λ b. bit 1 b + 2) (udp_poll_readable-has_data id s.net.udp_sockets),
                    )))
          ]
          | inr unknown ↦
              let not_net : (id : ℕ) → ¬ (IsSocket s handle id) =
                λ id socket. ground (arith, socket.0, unknown) in
              rw (handle_events, other, unknown) (none-HasEvents handle not_io not_net)
        ]
  ]

  pub check_events-AreEvents :
      (handles : List ℕ) → AreEvents dev s handles (check_events dev handles s)
  unfolding check_events
  check_events-AreEvents [] = refl
  check_events-AreEvents (handle ∷ handles) =
      let ev = handle_events dev handle s in
      let later = check_events-AreEvents handles in
      elim (Bool-cases (ev == 0)) [
        | inl quiet ↦ (
          ev,
          handle_events-HasEvents handle,
          inl (==→eq ev 0 quiet, rw (check_events, quiet) later),
        )
        | inr ready ↦
            let some_event : ev ≢ 0 = λ e. ground (arith, e, ready) in
            (
              ev,
              handle_events-HasEvents handle,
              inr (some_event, (check_events dev handles s, rw (check_events, ready) refl, later)),
            )
      ]
