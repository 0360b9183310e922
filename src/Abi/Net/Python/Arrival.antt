-- ===== src/Abi/Net/Python/Arrival.antt =====
-- From the frame that the driver hands to kernel/net.zig to the bytes object that ukernel.net_recv of
-- kernel/mp_port/modukernel.c returns.
use zigu.Base.{
  ℕ, ◌^◌, ◌<◌, ◌≤◌, ◌≡◌, ◌&&◌, ltb, true, false, Option, none, some, List, length, take, done, ap,
  ◌∙◌, arith,
}
use zigu.Base.Int.{ℤ}
use zigu.Ukernel.Runtime.{Python, returned, bytes_value, unsigned}
use zigu.Ukernel.Net.{mod_ukernel_net_recv, clamp_size}
use zigu.Ukernel.Net.Receiving.{mod_ukernel_net_recv-returned}
use zigu.Udp.{Sockets, proto_udp, udp_segment, udp_process_incoming, udp_recv}
use zigu.Udp.Delivery.{IsFirst, udp_recv-udp_segment}
use zigu.Abi.Codes.{ErrorCode, ok, code}
use zigu.Net.{Device, our_ip, ethertype_ipv4, eth_frame, ip_packet}
use zigu.Net.Incoming.{process_incoming-ip_packet}
use zigu.Abi.Net.{NetState, allow_net, validate, net_recv, poll_incoming, recv_result}
use zigu.Abi.Net.Python.{kernel_of, or_zero}

-- The frame that a host sends us with a segment of UDP.
abbrev pub udp_frame : List ℕ → List ℕ → ℕ → List ℕ → List ℕ → List ℕ
udp_frame dst_mac src_mac id src_ip segment =
    eth_frame dst_mac src_mac ethertype_ipv4 (ip_packet id proto_udp src_ip our_ip segment)

module _ {T : Type 0} where
  recv_result-some :
      (s : NetState T) (r : Option (List ℕ) × Sockets) (buf : List ℕ)
      → r.0 ≡ some buf
      → (recv_result s r).0 ≡ (ok, (buf, some (length buf)))
  unfolding recv_result
  recv_result-some s (none, socks) buf h = absurd (cc h)
  recv_result-some s (some other, socks) buf h = cc h

  -- The driver has this frame and then none.
  abbrev pub HasOne : Device T → List ℕ → T → Type 0
  HasOne dev frame d = ((dev.rx_poll d).0 ≡ some frame) × ((dev.rx_poll (dev.rx_poll d).1).0 ≡ none)

  poll_incoming-one :
      (dev : Device T) (s : NetState T) (dst_mac src_mac : List ℕ) (id : ℕ)
      (src_ip segment : List ℕ)
      → length dst_mac ≡ 6
      → length src_mac ≡ 6
      → length src_ip ≡ 4
      → HasOne dev (udp_frame dst_mac src_mac id src_ip segment) s.lower.device
      → (poll_incoming dev s).udp_sockets ≡ udp_process_incoming src_ip segment s.udp_sockets
  unfolding poll_incoming
  poll_incoming-one dev s dst_mac src_mac id src_ip segment h h' h1 (frame, quiet) =
      process_incoming-ip_packet dev dst_mac src_mac id src_ip segment s.udp_sockets s.lower h h' h1
        frame quiet

  net_recv-udp_frame :
      (dev : Device T) (s : NetState T) (sock idx len src_port dst_port id : ℕ)
      (dst_mac src_mac src_ip payload : List ℕ)
      → allow_net s ≡ true
      → validate s sock ≡ some idx
      → idx < 16
      → IsFirst dst_port s.udp_sockets idx
      → src_port < 2 ^ 16
      → dst_port < 2 ^ 16
      → length payload ≤ 1464
      → length dst_mac ≡ 6
      → length src_mac ≡ 6
      → length src_ip ≡ 4
      → HasOne dev
          (udp_frame dst_mac src_mac id src_ip (udp_segment src_port dst_port payload))
          s.lower.device
      → (net_recv dev sock false len s).0
        ≡ (ok, (take len payload, some (length (take len payload))))
  unfolding net_recv
  net_recv-udp_frame dev s sock idx len src_port dst_port id dst_mac src_mac src_ip payload allowed
        valid small first h h' few dst src four arrives =
      let segment = udp_segment src_port dst_port payload in
      let socks = poll_incoming-one dev s dst_mac src_mac id src_ip segment dst src four arrives in
      let (got, gone) =
        udp_recv-udp_segment src_ip src_port dst_port payload s.udp_sockets idx len h h' few small
          first in
      let drained = poll_incoming dev s in
      let there : (ltb 0 len && false) ≡ false = ground arith in
      let result =
        recv_result-some drained (udp_recv idx len drained.udp_sockets) (take len payload)
          (ap (λ l. (udp_recv idx len l).0) socks ∙ got) in
      rw (net_recv, allowed, valid, there) result

-- A frame comes in, of Ethernet with a packet of IPv4 to our address with the segment that `udpSend` builds for
-- a port, and no other, while the network is allowed, and the socket of a valid handle is the first that is
-- bound to that port: `net_recv` of Python with that handle returns the bytes that were sent, as many of them
-- as it asks for. The driver hands out boundedly many frames.
pub mod_ukernel_net_recv-udp_frame :
    {Obj T : Type 0} (python : Python Obj) (dev : Device T) (ticks : NetState T → ℕ × NetState T)
    (serial : List ℕ → NetState T → NetState T) (sock_obj size_obj : Obj) (sock size : ℤ)
    (s : NetState T) (idx src_port dst_port id : ℕ) (dst_mac src_mac src_ip payload : List ℕ)
    → python.get_int sock_obj ≡ some sock
    → python.get_int size_obj ≡ some size
    → allow_net s ≡ true
    → validate s (unsigned 64 sock) ≡ some idx
    → idx < 16
    → IsFirst dst_port s.udp_sockets idx
    → src_port < 2 ^ 16
    → dst_port < 2 ^ 16
    → length payload ≤ 1464
    → length dst_mac ≡ 6
    → length src_mac ≡ 6
    → length src_ip ≡ 4
    → HasOne dev
        (udp_frame dst_mac src_mac id src_ip (udp_segment src_port dst_port payload))
        s.lower.device
    → (t : NetState T) × (mod_ukernel_net_recv python
          (kernel_of dev ticks serial)
          sock_obj
          size_obj
          s
        ≡ done (returned (bytes_value (take (clamp_size size) payload)), t))
unfolding kernel_of
mod_ukernel_net_recv-udp_frame python dev ticks serial sock_obj size_obj sock size s idx src_port
      dst_port id dst_mac src_mac src_ip payload e e1 allowed valid small first h h' few dst src
      four arrives =
    let kernel = kernel_of dev ticks serial in
    let bytes = take (clamp_size size) payload in
    let got =
      net_recv-udp_frame dev s (unsigned 64 sock) idx (clamp_size size) src_port dst_port id dst_mac
        src_mac src_ip payload allowed valid small first h h' few dst src four arrives in
    let received : (kernel.net_recv (unsigned 64 sock) (clamp_size size) 0 s).0
        ≡ (record { rc = 0; buf = bytes; nread = length bytes }) =
      ap
        (λ (r : ErrorCode × (List ℕ × Option ℕ)). (record {
          rc = code r.0;
          buf = r.1.0;
          nread = or_zero r.1.1;
        }))
        got in
    (
      (kernel.net_recv (unsigned 64 sock) (clamp_size size) 0 s).1,
      mod_ukernel_net_recv-returned python kernel sock_obj size_obj sock size bytes s e e1 received,
    )
