-- ===== src/Abi/Io/Ipc.antt =====
-- The calls `ipc_channel_create` to `ipc_close` of kernel/abi.zig.
use zigu.Base.{ℕ, ◌&&◌, ltb, not, Bool, if◌then◌else◌, Option, none, some, List, length}
use zigu.Abi.Codes.{
  ErrorCode, ok, err_invalid, err_permission, err_would_block, cap_ipc, handle_ipc, tag,
}
use zigu.Abi.Caps.{Caps, allow}
use zigu.Abi.Handles.{Entry, alloc_handle, validate_handle, close_handle}

pub record IpcState : Type 0 where
  pub caps : Caps
  pub ipc_table : List Entry

abbrev created : IpcState → (ErrorCode × Option ℕ) × List Entry → (ErrorCode × Option ℕ) × IpcState
created s (answer, table) = (answer, record s { ipc_table = table })

pub ipc_channel_create : Bool → IpcState → (ErrorCode × Option ℕ) × IpcState
ipc_channel_create handle_out s =
    if not (allow cap_ipc s.caps)
    then ((err_permission, none), s)
    else if not handle_out
    then ((err_invalid, none), s)
    else created s (alloc_handle (tag handle_ipc) s.ipc_table)

-- Nothing takes the bytes.
pub ipc_send : ℕ → Bool → List ℕ → IpcState → ErrorCode
ipc_send ch null buf s =
    if not (allow cap_ipc s.caps)
    then err_permission
    else elim (validate_handle s.ipc_table (tag handle_ipc) ch) [
      | none ↦ err_invalid
      | some idx ↦ if ltb 0 (length buf) && null then err_invalid else ok
    ]

pub ipc_recv : ℕ → Bool → ℕ → IpcState → ErrorCode × Option ℕ
ipc_recv ch null len s =
    if not (allow cap_ipc s.caps)
    then (err_permission, none)
    else elim (validate_handle s.ipc_table (tag handle_ipc) ch) [
      | none ↦ (err_invalid, none)
      | some idx ↦ if ltb 0 len && null then (err_invalid, none) else (err_would_block, some 0)
    ]

pub ipc_close : ℕ → IpcState → ErrorCode × IpcState
ipc_close ch s =
    let (rc, table) = close_handle s.ipc_table (tag handle_ipc) ch in
    if not (allow cap_ipc s.caps) then (err_permission, s) else (rc, record s { ipc_table = table })
