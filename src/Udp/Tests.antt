-- ===== src/Udp/Tests.antt =====
-- A packet that comes in for three sockets.
use zigu.Base.{ℕ, zero, suc, ◌<◌, ◌≡◌, get_or, true, false, some, none, [], ◌∷◌, take, refl, arith}
use zigu.Memory.Sample.{codes}
use zigu.Udp.{UdpSocket, Sockets, closed, no_ip, udp_segment, udp_process_incoming, udp_recv}
use zigu.Udp.Delivery.{takes, IsFirst, udp_recv-udp_segment}

abbrev bound_to : ℕ → UdpSocket
bound_to port = record closed { in_use = true; local_port = port; bound = true }

abbrev socks : Sockets
socks = bound_to 53 ∷ bound_to 4433 ∷ bound_to 4433 ∷ []

segment_bytes : udp_segment 4660 4433 (codes "hi") ≡ 18 ∷ 52 ∷ 17 ∷ 81 ∷ 0 ∷ 10 ∷ 0 ∷ 0 ∷ codes "hi"
unfolding udp_segment
segment_bytes = refl

IsFirst-4433 : IsFirst 4433 socks 1
IsFirst-4433 = (omega arith, refl, other)
  where
    other : (i : ℕ) → i < 1 → takes 4433 (get_or socks i closed) ≡ false
    other zero h = refl
    other (suc i) h = absurd (omega (arith, h))

recv_hello :
    (udp_recv 1 9 (udp_process_incoming no_ip (udp_segment 4660 4433 (codes "hello")) socks)).0
    ≡ some (codes "hello")
unfolding udp_recv udp_process_incoming udp_segment
recv_hello = refl

udp_recv-udp_segment_example :
    let socks' =
      udp_process_incoming (10 ∷ 0 ∷ 2 ∷ 2 ∷ []) (udp_segment 4660 4433 (codes "hello")) socks in
    let (out, socks'') = udp_recv 1 2 socks' in
    (out ≡ some (take 2 (codes "hello"))) × ((udp_recv 1 2 socks'').0 ≡ none)
udp_recv-udp_segment_example =
    udp_recv-udp_segment (10 ∷ 0 ∷ 2 ∷ 2 ∷ []) 4660 4433 (codes "hello") socks 1 2 (omega arith)
      (omega arith) (omega arith) (omega arith) IsFirst-4433
