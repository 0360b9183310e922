-- ===== src/Abi/Net/Python.antt =====
-- The module ukernel of kernel/mp_port/modukernel.c over the network calls of kernel/abi.zig.
pub mod Arrival
use zigu.Base.{
  take-all, ℕ, zero, suc, ◌+◌, ◌-◌, ◌*◌, ◌%◌, ◌^◌, ◌<◌, ◌≤◌, ◌≡◌, ◌==◌, ◌&&◌, ◌||◌, ltb, leb, not,
  Bool, Bool-cases, true, false, if◌then◌else◌, Option, none, some, Option-cases, inl, inr, List,
  [], ◌∷◌, length, get_or, take, Run, done, ◌>>=◌, refl, ap, subst, sym, ◌∙◌, arith,
}
use zigu.Base.Int.{ℤ, pos, negsuc}
use zigu.Ukernel.Runtime.{
  Received, Kernel, Python, Value, none_value, bytes_value, Reply, returned, raised_os_error,
  unsigned,
}
use zigu.Ukernel.Net.{mod_ukernel_net_recv, clamp_size}
use zigu.Ukernel.Net.Receiving.{RecvFits, FitsBuffer, mod_ukernel_net_recv-FitsBuffer}
use zigu.Udp.{Sockets, closed, udp_segment, udp_process_incoming, udp_recv}
use zigu.Udp.Delivery.{IsFirst, udp_recv-udp_segment}
use zigu.Abi.Codes.{ErrorCode, ok, code, err_permission}
use zigu.Net.{Device}
use zigu.Abi.Net.{
  NetState, allow_net, validate, net_socket, net_bind, net_connect, net_send, net_recv, net_close,
  poll_incoming, recv_result,
}
use zigu.Abi.Net.Permission.{net-Denied}

-- `*out`, which the callers have set to 0.
abbrev pub or_zero : Option ℕ → ℕ
or_zero none = 0
or_zero (some n) = n

abbrev coded : {T : Type 0} → ErrorCode × NetState T → ℕ × NetState T
coded (rc, s) = (code rc, s)

abbrev coded_out : {T : Type 0} → (ErrorCode × Option ℕ) × NetState T → (ℕ × ℕ) × NetState T
coded_out ((rc, out), s) = ((code rc, or_zero out), s)

abbrev coded_received :
    {T : Type 0} → (ErrorCode × (List ℕ × Option ℕ)) × NetState T → Received × NetState T
coded_received ((rc, (buf, read)), s) =
    (record { rc = code rc; buf = buf; nread = or_zero read }, s)

-- The kernel that the module's functions call; the pointers that they pass are not null. The clock and
-- the console are parameters.
pub kernel_of :
    {T : Type 0}
    → Device T
    → (NetState T → ℕ × NetState T)
    → (List ℕ → NetState T → NetState T)
    → Kernel (NetState T)
unfolding net_bind net_connect
kernel_of dev ticks serial = record {
  net_socket = λ domain type_ protocol s. coded_out (net_socket domain type_ protocol true s);
  net_bind = λ sock addr s. coded (net_bind sock false addr s);
  net_connect = λ sock addr s. coded (net_connect sock false addr s);
  net_send = λ sock buf flags s. coded_out (net_send dev sock false buf s);
  net_recv = λ sock len flags s. coded_received (net_recv dev sock false len s);
  net_close = λ sock s. coded (net_close sock s);
  kernel_ticks_ms = ticks;
  serial_write_bytes = serial;
}

length-take : (n : ℕ) (xs : List ℕ) → length (take n xs) ≤ n
length-take zero xs = omega arith
length-take (suc n) [] = omega arith
length-take (suc n) (x ∷ xs) = omega (arith, length-take n xs)

-- The bytes that are received, and how many.
abbrev Fits : ℕ → Option (List ℕ) → Type 0
Fits len none = Unit
Fits len (some buf) = length buf ≤ len

udp_recv-Fits : (idx len : ℕ) (socks : Sockets) → Fits len (udp_recv idx len socks).0
unfolding udp_recv
udp_recv-Fits idx len socks = elim (Bool-cases (leb 16 idx)) [
  | inl outside ↦ rw (udp_recv, outside) tt
  | inr inside ↦
      elim (Bool-cases
        (not (get_or socks idx closed).in_use || not (get_or socks idx closed).has_data)) [
          | inl empty ↦ rw (udp_recv, inside, empty) tt
          | inr ready ↦ rw (udp_recv, inside, ready) (length-take len (get_or socks idx closed).rx)
        ]
]

-- What `net_recv` reports and has written, when it succeeds.
abbrev Reports : {T : Type 0} → ℕ → (ErrorCode × (List ℕ × Option ℕ)) × NetState T → Type 0
Reports len ((rc, (buf, read)), s) = code rc ≡ 0 → (or_zero read ≤ length buf) × (length buf ≤ len)

module _ {T : Type 0} where
  recv_result-Reports :
      (len : ℕ) (s : NetState T) (r : Option (List ℕ) × Sockets)
      → Fits len r.0
      → Reports len (recv_result s r)
  unfolding recv_result
  recv_result-Reports len s (none, socks) h = λ e. (omega (arith, e), omega (arith, e))
  recv_result-Reports len s (some buf, socks) h = λ e. (omega arith, h)

  net_recv-Reports :
      (dev : Device T) (sock : ℕ) (null : Bool) (len : ℕ) (s : NetState T)
      → Reports len (net_recv dev sock null len s)
  unfolding net_recv
  net_recv-Reports dev sock null len s = elim (Bool-cases (allow_net s)) [
    | inr denied ↦ rw (net_recv, denied) (λ e. absurd (omega (arith, e)))
    | inl allowed ↦ elim (Option-cases (validate s sock)) [
      | inl e ↦ rw (net_recv, allowed, e) (λ e'. absurd (omega (arith, e')))
      | inr (idx, e) ↦ elim (Bool-cases (ltb 0 len && null)) [
        | inl missing ↦ rw (net_recv, allowed, e, missing) (λ e'. absurd (omega (arith, e')))
        | inr there ↦
            let drained = poll_incoming dev s in
            let reports =
              recv_result-Reports len drained (udp_recv idx len drained.udp_sockets)
                (udp_recv-Fits idx len drained.udp_sockets) in
            rw (net_recv, allowed, e, there) reports
      ]
    ]
  ]

  kernel_of-RecvFits :
      (dev : Device T) (ticks : NetState T → ℕ × NetState T)
      (serial : List ℕ → NetState T → NetState T)
      → RecvFits (kernel_of dev ticks serial)
  unfolding kernel_of
  kernel_of-RecvFits dev ticks serial sock len flags s e = net_recv-Reports dev sock false len s e

-- Over the kernel's own calls, in any state and whatever the frames that come in hold, `net_recv` returns or
-- raises: it reads only what was received, and a bytes object that it returns has at most 2048 bytes.
pub kernel_of-FitsBuffer :
    {Obj T : Type 0} (python : Python Obj) (dev : Device T) (ticks : NetState T → ℕ × NetState T)
    (serial : List ℕ → NetState T → NetState T) (sock_obj size_obj : Obj) (s : NetState T)
    → (reply : Reply) × (t : NetState T) × (mod_ukernel_net_recv python
          (kernel_of dev ticks serial)
          sock_obj
          size_obj
          s
        ≡ done (reply, t))
      × FitsBuffer reply
kernel_of-FitsBuffer python dev ticks serial sock_obj size_obj s =
    mod_ukernel_net_recv-FitsBuffer python (kernel_of dev ticks serial) sock_obj size_obj s
      (kernel_of-RecvFits dev ticks serial)
