-- ===== src/Abi/Net.antt =====
-- The network calls of kernel/abi.zig, `net_socket` to `net_close`, on x86_64: each with its capability,
-- its handles and the network stack of kernel/net.zig.
pub mod Permission
pub mod Agreement
pub mod Python
mod Tests
use zigu.Base.{
  ℕ, ◌+◌, ◌*◌, ◌==◌, ◌&&◌, ◌||◌, ltb, not, Bool, true, false, if◌then◌else◌, Option, none, some,
  List, [], ◌∷◌, length, get_or, take,
}
use zigu.Abi.Codes.{
  ErrorCode, ok, err_invalid, err_io, err_unsupported, err_permission, err_would_block, cap_net,
  handle_net, tag,
}
use zigu.Abi.Caps.{Caps, allow}
use zigu.Abi.Handles.{Entry, handle_id, alloc_handle, validate_handle, close_handle}
use zigu.Udp.{Sockets, udp_socket_init, udp_socket_close, udp_bind, udp_connect, udp_send, udp_recv}
use zigu.Net.{Device, Lower, ip_send, process_incoming}

pub record NetState (T : Type 0) : Type 0 where
  pub caps : Caps
  pub net_table : List Entry
  pub udp_sockets : Sockets
  pub lower : Lower T

abbrev pub allow_net : {T : Type 0} → NetState T → Bool
allow_net s = allow cap_net s.caps

abbrev pub validate : {T : Type 0} → NetState T → ℕ → Option ℕ
validate s sock = validate_handle s.net_table (tag handle_net) sock

-- The new socket of a handle that was given out.
pub socket_result :
    {T : Type 0}
    → (ErrorCode × Option ℕ) × List Entry
    → NetState T
    → (ErrorCode × Option ℕ) × NetState T
socket_result ((rc, none), table) s = ((rc, none), record s { net_table = table })
socket_result ((rc, some handle), table) s =
    let socks = udp_socket_init (handle_id handle) s.udp_sockets in
    ((rc, some handle), record s { net_table = table; udp_sockets = socks })

-- `handle_out` tells whether the pointer is not null.
pub net_socket : {T : Type 0} → ℕ → ℕ → ℕ → Bool → NetState T → (ErrorCode × Option ℕ) × NetState T
unfolding socket_result
net_socket domain type_ protocol handle_out s =
    if not (allow_net s)
    then ((err_permission, none), s)
    else if not handle_out
    then ((err_invalid, none), s)
    else if not (domain == 2) || (not (type_ == 2) || not (protocol == 17))
    then ((err_unsupported, none), s)
    else socket_result (alloc_handle (tag handle_net) s.net_table) s

-- `addr` is what the pointer and `addr_len` name; `null` tells whether the pointer is null.
pub parse_net_addr : Bool → List ℕ → Option (List ℕ × ℕ)
parse_net_addr null addr =
    if ltb (length addr) 6
    then none
    else if null
    then none
    else some (take 4 addr, get_or addr 4 0 * 256 + get_or addr 5 0)

abbrev pub address_result : {T : Type 0} → NetState T → Bool × Sockets → ErrorCode × NetState T
address_result s (true, socks) = (ok, record s { udp_sockets = socks })
address_result s (false, socks) = (err_invalid, record s { udp_sockets = socks })

-- What `net_bind` and `net_connect` do alike: the handle, the address, the socket's operation `on`.
pub on_address :
    {T : Type 0}
    → (ℕ → List ℕ → ℕ → Sockets → Bool × Sockets)
    → ℕ
    → Bool
    → List ℕ
    → NetState T
    → ErrorCode × NetState T
unfolding parse_net_addr
on_address on sock null addr s =
    if not (allow_net s) then (err_permission, s) else elim (validate s sock) [
      | none ↦ (err_invalid, s)
      | some idx ↦ elim (parse_net_addr null addr) [
        | none ↦ (err_invalid, s)
        | some (ip, port) ↦ address_result s (on idx ip port s.udp_sockets)
      ]
    ]

pub net_bind : {T : Type 0} → ℕ → Bool → List ℕ → NetState T → ErrorCode × NetState T
unfolding on_address
net_bind sock null addr s =
    on_address (λ idx ip port socks. udp_bind idx port socks) sock null addr s

pub net_connect : {T : Type 0} → ℕ → Bool → List ℕ → NetState T → ErrorCode × NetState T
unfolding on_address
net_connect sock null addr s = on_address udp_connect sock null addr s

-- `buf` is what the pointer and `len` name; `*wrote_out` where it is written.
pub send_result :
    {T : Type 0} → NetState T → ℕ → Bool × (Sockets × Lower T) → (ErrorCode × Option ℕ) × NetState T
send_result s len (true, (socks, lower)) =
    ((ok, some len), record s { udp_sockets = socks; lower = lower })
send_result s len (false, (socks, lower)) =
    ((err_io, none), record s { udp_sockets = socks; lower = lower })

pub net_send :
    {T : Type 0} → Device T → ℕ → Bool → List ℕ → NetState T → (ErrorCode × Option ℕ) × NetState T
unfolding send_result
net_send dev sock null buf s =
    if not (allow_net s) then ((err_permission, none), s) else elim (validate s sock) [
      | none ↦ ((err_invalid, none), s)
      | some idx ↦
          if ltb 0 (length buf) && null
          then ((err_invalid, none), s)
          else if length buf == 0
          then ((ok, some 0), s)
          else send_result s (length buf) (udp_send (ip_send dev) idx buf (s.udp_sockets, s.lower))
    ]

-- The sockets and the layers below after `processIncoming`.
pub poll_incoming : {T : Type 0} → Device T → NetState T → NetState T
poll_incoming dev s =
    let (socks, lower) = process_incoming dev (s.udp_sockets, s.lower) in
    record s { udp_sockets = socks; lower = lower }

-- The code, what is written into the buffer, and `*read_out` where it is written.
pub recv_result :
    {T : Type 0}
    → NetState T
    → Option (List ℕ) × Sockets
    → (ErrorCode × (List ℕ × Option ℕ)) × NetState T
recv_result s (none, socks) = ((err_would_block, ([], some 0)), record s { udp_sockets = socks })
recv_result s (some buf, socks) = ((ok, (buf, some (length buf))), record s { udp_sockets = socks })

pub net_recv :
    {T : Type 0}
    → Device T
    → ℕ
    → Bool
    → ℕ
    → NetState T
    → (ErrorCode × (List ℕ × Option ℕ)) × NetState T
unfolding poll_incoming recv_result
net_recv dev sock null len s =
    let drained = poll_incoming dev s in
    if not (allow_net s) then ((err_permission, ([], none)), s) else elim (validate s sock) [
      | none ↦ ((err_invalid, ([], none)), s)
      | some idx ↦
          if ltb 0 len && null
          then ((err_invalid, ([], none)), s)
          else recv_result drained (udp_recv idx len drained.udp_sockets)
    ]

pub net_close : {T : Type 0} → ℕ → NetState T → ErrorCode × NetState T
net_close sock s =
    let (rc, table) = close_handle s.net_table (tag handle_net) sock in
    if not (allow_net s) then (err_permission, s) else elim (validate s sock) [
      | none ↦ (err_invalid, s)
      | some idx ↦
          (rc, record s { net_table = table; udp_sockets = udp_socket_close idx s.udp_sockets })
    ]
