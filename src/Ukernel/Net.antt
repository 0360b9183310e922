-- ===== src/Ukernel/Net.antt =====
-- The networking functions of kernel/mp_port/modukernel.c, `mod_ukernel_net_udp_socket` to
-- `mod_ukernel_net_close`.
pub mod Sending
pub mod Receiving
use zigu.Base.{
  ℕ, ltb, leb, ◌==◌, ◌||◌, if◌then◌else◌, Option, none, some, List, length, take, Run, done, fault,
  ◌>>=◌,
}
use zigu.Base.Int.{ℤ, pos, negsuc}
use zigu.Memory.{Memory}
use zigu.Ukernel.Runtime.{
  Received, Kernel, Python, Value, none_value, int_value, bytes_value, Reply, returned,
  raised_os_error, raised_value_error, raised_conversion, unsigned, signed_int, reply_of,
}
use zigu.Ukernel.Address.{Ip, parse_ip, build_addr}

-- AF_INET, SOCK_DGRAM, UDP
pub mod_ukernel_net_udp_socket : {S : Type 0} → Kernel S → S → Reply × S
mod_ukernel_net_udp_socket kernel s =
    let ((rc, handle), t) = kernel.net_socket 2 2 17 s in (reply_of rc (int_value handle), t)

-- What `net_bind` and `net_connect` do, with the call of the kernel as `call`: the conversions in
-- their order, the parsed address, the call.
pub address_call :
    {Obj S : Type 0}
    → Python Obj
    → (ℕ → List ℕ → S → ℕ × S)
    → Obj
    → Obj
    → Obj
    → Memory
    → S
    → Reply × S
address_call python call sock_obj ip_obj port_obj m s = elim (python.get_int sock_obj) [
  | none ↦ (raised_conversion, s)
  | some sock ↦ elim (python.get_data ip_obj) [
    | none ↦ (raised_conversion, s)
    | some (ip_str, ip_len) ↦ elim (python.get_int port_obj) [
      | none ↦ (raised_conversion, s)
      | some port ↦ elim (parse_ip ip_str ip_len m) [
        | none ↦ (raised_value_error, s)
        | some ip ↦
            let (rc, t) = call (unsigned 64 sock) (build_addr ip (unsigned 32 port)) s in
            (reply_of rc none_value, t)
      ]
    ]
  ]
]

pub mod_ukernel_net_bind :
    {Obj S : Type 0} → Python Obj → Kernel S → Obj → Obj → Obj → Memory → S → Reply × S
unfolding address_call
mod_ukernel_net_bind python kernel sock_obj ip_obj port_obj m s =
    address_call python kernel.net_bind sock_obj ip_obj port_obj m s

pub mod_ukernel_net_connect :
    {Obj S : Type 0} → Python Obj → Kernel S → Obj → Obj → Obj → Memory → S → Reply × S
unfolding address_call
mod_ukernel_net_connect python kernel sock_obj ip_obj port_obj m s =
    address_call python kernel.net_connect sock_obj ip_obj port_obj m s

pub mod_ukernel_net_send : {Obj S : Type 0} → Python Obj → Kernel S → Obj → Obj → S → Reply × S
mod_ukernel_net_send python kernel sock_obj data_obj s = elim (python.get_int sock_obj) [
  | none ↦ (raised_conversion, s)
  | some sock ↦ elim (python.get_buffer data_obj) [
    | none ↦ (raised_conversion, s)
    | some bytes ↦
        let ((rc, wrote), t) = kernel.net_send (unsigned 64 sock) bytes 0 s in
        (reply_of rc (int_value wrote), t)
  ]
]

-- The size of the read: what was asked for, between 1 and the size of the buffer, else that size.
pub clamp_size : ℤ → ℕ
clamp_size (pos n) = if n == 0 || ltb 2048 n then 2048 else n
clamp_size (negsuc n) = 2048

-- The bytes object of the first `nread` bytes of the buffer: beyond what was written it is
-- uninitialised.
pub new_bytes : Received → Run Value
new_bytes r = if leb r.nread (length r.buf) then done (bytes_value (take r.nread r.buf)) else fault

-- What follows the kernel's `net_recv`: code 9 is ERR_WOULD_BLOCK.
pub reply_received : {S : Type 0} → Received → S → Run (Reply × S)
unfolding new_bytes
reply_received r t =
    if r.rc == 9
    then done (returned none_value, t)
    else if r.rc == 0
    then new_bytes r >>= (λ value. done (returned value, t))
    else done (raised_os_error (signed_int r.rc), t)

pub mod_ukernel_net_recv :
    {Obj S : Type 0} → Python Obj → Kernel S → Obj → Obj → S → Run (Reply × S)
unfolding clamp_size reply_received
mod_ukernel_net_recv python kernel sock_obj size_obj s = elim (python.get_int sock_obj) [
  | none ↦ done (raised_conversion, s)
  | some sock ↦ elim (python.get_int size_obj) [
    | none ↦ done (raised_conversion, s)
    | some bufsize ↦
        let (r, t) = kernel.net_recv (unsigned 64 sock) (clamp_size bufsize) 0 s in
        reply_received r t
  ]
]

pub mod_ukernel_net_close : {Obj S : Type 0} → Python Obj → Kernel S → Obj → S → Reply × S
mod_ukernel_net_close python kernel sock_obj s = elim (python.get_int sock_obj) [
  | none ↦ (raised_conversion, s)
  | some sock ↦ let (rc, t) = kernel.net_close (unsigned 64 sock) s in (reply_of rc none_value, t)
]
