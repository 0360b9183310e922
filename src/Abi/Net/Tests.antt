-- ===== src/Abi/Net/Tests.antt =====
-- Runs of the network's calls, and the theorems on them at concrete states.
use zigu.Base.{
  ℕ, ◌+◌, ◌*◌, ◌^◌, ◌≡◌, true, false, some, none, [], ◌∷◌, ◌++◌, take, replicate, refl, arith, done,
}
use zigu.Base.Int.{ℤ, pos}
use zigu.Memory.Sample.{codes}
use zigu.Ukernel.Runtime.{Python, Reply, returned, bytes_value}
use zigu.Ukernel.Net.{mod_ukernel_net_recv, clamp_size}
use zigu.Ukernel.Net.Receiving.{FitsBuffer}
use zigu.Udp.{closed, udp_segment}
use zigu.Udp.Delivery.{IsFirst}
use zigu.Abi.Codes.{cap_net}
use zigu.Abi.Caps.{same_kind}
use zigu.Abi.Caps.History.{boot, set_policy, acquire, enter}
use zigu.Abi.Handles.{unused, validate_handle}
use zigu.Net.{no_entry}
use zigu.Net.Sample.{Wire, wire, our_mac, peer_mac, peer_ip}
use zigu.Abi.Net.{NetState}
use zigu.Abi.Net.Agreement.Operations.{Agrees}
use zigu.Abi.Net.Agreement.Calls.{
  on_caps, socket, bind, recv, close, run, start, start-Agrees, run-Agrees,
}
use zigu.Abi.Net.Python.{kernel_of, kernel_of-FitsBuffer}
use zigu.Abi.Net.Python.Arrival.{udp_frame, mod_ukernel_net_recv-udp_frame}

abbrev sock_0 : ℕ
sock_0 = 4 * 2 ^ 56 + 1

abbrev no_frames : Wire
no_frames = record { coming = []; sent = [] }

-- One socket is open, bound to the port 4433, and a frame is on its way to it.
abbrev listening : NetState Wire
listening = record {
  caps = record boot { active = same_kind cap_net };
  net_table = record { in_use = true; gen = 1 } ∷ replicate 15 unused;
  udp_sockets =
      record closed { in_use = true; local_port = 4433; bound = true } ∷ replicate 15 closed;
  lower = record {
    arp_table = replicate 8 no_entry;
    ip_id_counter = 1;
    device = record {
      coming = udp_frame our_mac peer_mac 7 peer_ip (udp_segment 53 4433 (codes "hello")) ∷ [];
      sent = [];
    };
  };
}

-- Objects that are their number.
abbrev python : Python ℤ
python = record { get_int = λ z. some z; get_data = λ z. none; get_buffer = λ z. none }

run-Agrees_example : Agrees (
    run wire
      (on_caps (set_policy (same_kind cap_net))
        ∷ on_caps (acquire 7 true)
        ∷ on_caps (enter false ((5 * 2 ^ 56 + 7 * 2 ^ 48) ∷ []))
        ∷ socket 2 2 17 true
        ∷ bind sock_0 false (peer_ip ++ (17 ∷ 81 ∷ []))
        ∷ recv sock_0 false 100
        ∷ close sock_0
        ∷ [])
      (start no_frames))
run-Agrees_example =
    run-Agrees wire
      (on_caps (set_policy (same_kind cap_net))
        ∷ on_caps (acquire 7 true)
        ∷ on_caps (enter false ((5 * 2 ^ 56 + 7 * 2 ^ 48) ∷ []))
        ∷ socket 2 2 17 true
        ∷ bind sock_0 false (peer_ip ++ (17 ∷ 81 ∷ []))
        ∷ recv sock_0 false 100
        ∷ close sock_0
        ∷ [])
      (start no_frames) (start-Agrees no_frames)

kernel_of-FitsBuffer_example :
    (reply : Reply) × (t : NetState Wire) × (mod_ukernel_net_recv python
        (kernel_of wire (λ s. (0, s)) (λ b s. s))
        (pos sock_0)
        (pos 3)
        listening
      ≡ done (reply, t))
    × FitsBuffer reply
kernel_of-FitsBuffer_example =
    kernel_of-FitsBuffer python wire (λ s. (0, s)) (λ b s. s) (pos sock_0) (pos 3) listening

IsFirst-4433 : IsFirst 4433 listening.udp_sockets 0
IsFirst-4433 = (omega arith, refl, λ i h. absurd (omega (arith, h)))

mod_ukernel_net_recv-udp_frame_example :
    (t : NetState Wire) × (mod_ukernel_net_recv python
        (kernel_of wire (λ s. (0, s)) (λ b s. s))
        (pos sock_0)
        (pos 3)
        listening
      ≡ done (returned (bytes_value (take (clamp_size (pos 3)) (codes "hello"))), t))
unfolding validate_handle
mod_ukernel_net_recv-udp_frame_example =
    mod_ukernel_net_recv-udp_frame python wire (λ s. (0, s)) (λ b s. s) (pos sock_0) (pos 3)
      (pos sock_0) (pos 3) listening 0 53 4433 7 our_mac peer_mac peer_ip (codes "hello") refl refl
      refl refl (omega arith) IsFirst-4433 (omega arith) (omega arith) (omega arith) refl refl refl
      (refl, refl)
