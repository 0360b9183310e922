-- ===== src/Ukernel/Globals.antt =====
-- The globals of the Python module, `mp_module_ukernel_globals_table` of kernel/mp_port/modukernel.c, and
-- `ukernel.version`.
use zigu.Base.{ℕ, ◌≡◌, List, [], ◌∷◌, Option, none, some}
use zigu.Memory.Sample.{codes}
use zigu.Abi.Codes.{
  Capability, cap_log, cap_time, cap_task, cap_mem, cap_io, cap_ipc, cap_net, cap_trace, kind,
}

-- The text of the version.
pub mod_ukernel_version : List ℕ
mod_ukernel_version = codes "0.2.0"

-- The function objects.
pub data Function : Type 0 where
  log_obj : Function
  time_ms_obj : Function
  sleep_ms_obj : Function
  version_obj : Function
  net_udp_socket_obj : Function
  net_bind_obj : Function
  net_connect_obj : Function
  net_send_obj : Function
  net_recv_obj : Function
  net_close_obj : Function

pub data Global : Type 0 where
  name_of : List ℕ → Global
  function : Function → Global
  constant : ℕ → Global

-- The defines `ABI_CAP_LOG` to `ABI_CAP_NET`; no other capability has one.
abbrev pub abi_cap : Capability → Option ℕ
abi_cap cap_log = some 1
abi_cap cap_time = some 2
abi_cap cap_task = some 3
abi_cap cap_mem = some 4
abi_cap cap_io = some 5
abi_cap cap_ipc = none
abi_cap cap_net = some 7
abi_cap cap_trace = none

pub globals_table : List (List ℕ × Global)
globals_table =
    (codes "__name__", name_of (codes "ukernel"))
    ∷ (codes "log", function log_obj)
    ∷ (codes "time_ms", function time_ms_obj)
    ∷ (codes "sleep_ms", function sleep_ms_obj)
    ∷ (codes "version", function version_obj)
    ∷ (codes "net_udp_socket", function net_udp_socket_obj)
    ∷ (codes "net_bind", function net_bind_obj)
    ∷ (codes "net_connect", function net_connect_obj)
    ∷ (codes "net_send", function net_send_obj)
    ∷ (codes "net_recv", function net_recv_obj)
    ∷ (codes "net_close", function net_close_obj)
    ∷ (codes "CAP_LOG", constant 1)
    ∷ (codes "CAP_TIME", constant 2)
    ∷ (codes "CAP_TASK", constant 3)
    ∷ (codes "CAP_MEM", constant 4)
    ∷ (codes "CAP_IO", constant 5)
    ∷ (codes "CAP_NET", constant 7)
    ∷ []

-- The numbers of the module are those of the kernel.
abi_cap-kind : (c : Capability) (n : ℕ) → abi_cap c ≡ some n → n ≡ kind c
abi_cap-kind cap_log n h = cc h
abi_cap-kind cap_time n h = cc h
abi_cap-kind cap_task n h = cc h
abi_cap-kind cap_mem n h = cc h
abi_cap-kind cap_io n h = cc h
abi_cap-kind cap_ipc n h = absurd (cc h)
abi_cap-kind cap_net n h = cc h
abi_cap-kind cap_trace n h = absurd (cc h)
