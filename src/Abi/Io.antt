-- ===== src/Abi/Io.antt =====
-- The calls `io_open` to `io_close` and `ipc_channel_create` to `ipc_close` of kernel/abi.zig. The serial port,
-- kernel/serial.zig, is a parameter.
pub mod Serial
pub mod Queue
pub mod Ipc
mod Tests
use zigu.Base.{
  ℕ, zero, suc, ◌+◌, ◌*◌, ◌^◌, ◌==◌, ◌&&◌, ltb, not, Bool, true, false, if◌then◌else◌, Option, none,
  some, List, [], ◌∷◌, length, get_or, set, replicate, Run, done, fault,
}
use zigu.Abi.Codes.{
  ErrorCode, ok, err_invalid, err_permission, err_would_block, cap_io, handle_io, tag, io_readable,
  io_writable, event_bit,
}
use zigu.Abi.Caps.{Caps, Mask, allow, reset_caps}
use zigu.Abi.Handles.{Entry, handle_id, alloc_handle, validate_handle, close_handle, reset_table}

-- `rxReady`, `txReady`, `readByte` and `writeByte`, over a state of the port.
pub record Uart (U : Type 0) : Type 0 where
  pub rx_ready : U → Bool
  pub tx_ready : U → Bool
  pub read_byte : U → ℕ × U
  pub write_byte : ℕ → U → U

pub data IoKind : Type 0 where
  kind_none : IoKind
  kind_serial : IoKind
  kind_socket : IoKind

pub record IoState (U : Type 0) : Type 0 where
  pub caps : Caps
  pub io_table : List Entry
  pub io_kind : List IoKind
  pub uart : U

-- The bytes at a pointer begin with the prefix.
pub path_starts_with : List ℕ → List ℕ → Bool
path_starts_with path [] = true
path_starts_with [] (ch ∷ prefix) = false
path_starts_with (c ∷ path) (ch ∷ prefix) = c == ch && path_starts_with path prefix

-- "serial"
abbrev pub serial_prefix : List ℕ
serial_prefix = 115 ∷ 101 ∷ 114 ∷ 105 ∷ 97 ∷ 108 ∷ []

abbrev pub validate_io : {U : Type 0} → IoState U → ℕ → Option ℕ
validate_io s io = validate_handle s.io_table (tag handle_io) io

-- The handle that was given out, with its kind.
pub open_result :
    {U : Type 0}
    → List ℕ
    → (ErrorCode × Option ℕ) × List Entry
    → IoState U
    → (ErrorCode × Option ℕ) × IoState U
unfolding path_starts_with
open_result path ((rc, none), table) s = ((rc, none), record s { io_table = table })
open_result path ((rc, some handle), table) s =
    let kind = if path_starts_with path serial_prefix then kind_serial else kind_none in
    (
      (rc, some handle),
      record s { io_table = table; io_kind = set s.io_kind (handle_id handle) kind },
    )

-- `path` is what the pointer names, `null` whether it is null, `handle_out` whether the other one is not.
pub io_open : {U : Type 0} → Bool → List ℕ → Bool → IoState U → (ErrorCode × Option ℕ) × IoState U
unfolding open_result
io_open null path handle_out s =
    if not (allow cap_io s.caps)
    then ((err_permission, none), s)
    else if not handle_out
    then ((err_invalid, none), s)
    else if null
    then ((err_invalid, none), s)
    else open_result path (alloc_handle (tag handle_io) s.io_table) s

-- `while (n < len and serial.rxReady())`, with the bytes that there is room for.
pub read_serial : {U : Type 0} → Uart U → ℕ → U → List ℕ × U
read_serial dev zero uart = ([], uart)
read_serial dev (suc room) uart =
    let (b, uart') = dev.read_byte uart in
    let (bytes, uart'') = read_serial dev room uart' in
    if dev.rx_ready uart then (b ∷ bytes, uart'') else ([], uart)

pub write_serial : {U : Type 0} → Uart U → List ℕ → U → U
write_serial dev [] uart = uart
write_serial dev (b ∷ buf) uart = write_serial dev buf (dev.write_byte b uart)

-- What is read, with `*read_out`.
abbrev pub read_result :
    {U : Type 0} → IoState U → List ℕ × U → (ErrorCode × (List ℕ × Option ℕ)) × IoState U
read_result s ([], uart) = ((err_would_block, ([], some 0)), record s { uart = uart })
read_result s (b ∷ bytes, uart) =
    ((ok, (b ∷ bytes, some (suc (length bytes)))), record s { uart = uart })

-- By the kind of the handle. The serial port takes the address of the buffer, which must not be null.
pub read_kind :
    {U : Type 0}
    → Uart U
    → IoKind
    → Bool
    → ℕ
    → IoState U
    → Run ((ErrorCode × (List ℕ × Option ℕ)) × IoState U)
unfolding read_serial
read_kind dev kind_serial null len s =
    if null then fault else done (read_result s (read_serial dev len s.uart))
read_kind dev kind_socket null len s = done ((err_would_block, ([], some 0)), s)
read_kind dev kind_none null len s = done ((err_would_block, ([], some 0)), s)

pub io_read :
    {U : Type 0}
    → Uart U
    → ℕ
    → Bool
    → ℕ
    → IoState U
    → Run ((ErrorCode × (List ℕ × Option ℕ)) × IoState U)
unfolding read_kind
io_read dev io null len s =
    if not (allow cap_io s.caps)
    then done ((err_permission, ([], none)), s)
    else elim (validate_io s io) [
      | none ↦ done ((err_invalid, ([], none)), s)
      | some idx ↦
          if ltb 0 len && null
          then done ((err_invalid, ([], none)), s)
          else read_kind dev (get_or s.io_kind idx kind_none) null len s
    ]

pub write_kind :
    {U : Type 0}
    → Uart U
    → IoKind
    → Bool
    → List ℕ
    → IoState U
    → Run ((ErrorCode × Option ℕ) × IoState U)
unfolding write_serial
write_kind dev kind_serial null buf s =
    if null
    then fault
    else done ((ok, some (length buf)), record s { uart = write_serial dev buf s.uart })
write_kind dev kind_socket null buf s = done ((ok, some (length buf)), s)
write_kind dev kind_none null buf s = done ((ok, some (length buf)), s)

pub io_write :
    {U : Type 0} → Uart U → ℕ → Bool → List ℕ → IoState U → Run ((ErrorCode × Option ℕ) × IoState U)
unfolding write_kind
io_write dev io null buf s =
    if not (allow cap_io s.caps)
    then done ((err_permission, none), s)
    else elim (validate_io s io) [
      | none ↦ done ((err_invalid, none), s)
      | some idx ↦
          if ltb 0 (length buf) && null
          then done ((err_invalid, none), s)
          else write_kind dev (get_or s.io_kind idx kind_none) null buf s
    ]

pub io_close : {U : Type 0} → ℕ → IoState U → ErrorCode × IoState U
io_close io s =
    let (rc, table) = close_handle s.io_table (tag handle_io) io in
    if not (allow cap_io s.caps) then (err_permission, s) else elim (validate_io s io) [
      | none ↦ (err_invalid, s)
      | some idx ↦ (rc, record s { io_table = table; io_kind = set s.io_kind idx kind_none })
    ]

unfoldable pub probe_io_events : {U : Type 0} → Uart U → ℕ → IoState U → ℕ
probe_io_events dev idx s = elim (get_or s.io_kind idx kind_none) [
  | kind_serial ↦
      (if dev.rx_ready s.uart then event_bit io_readable else 0)
      + (if dev.tx_ready s.uart then event_bit io_writable else 0)
  | kind_socket ↦ 0
  | kind_none ↦ 0
]

-- `resetCapsForWorkload`: no capability is issued, and no handle of io is left.
pub reset_for_workload : {U : Type 0} → Mask → IoState U → IoState U
unfolding reset_caps reset_table
reset_for_workload mask s = record s {
  caps = reset_caps mask s.caps;
  io_kind = replicate (length s.io_kind) kind_none;
  io_table = reset_table s.io_table;
}
