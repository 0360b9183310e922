-- ===== src/Udp/Segment.antt =====
-- The segment that `udpSend` builds, as `udpProcessIncoming` reads it.
use zigu.Base.{
  ℕ, suc, ◌+◌, ◌-◌, ◌*◌, ◌/◌, ◌%◌, ◌^◌, ◌<◌, ◌≤◌, ◌≡◌, ltb, false, List, length, take, take-all,
  refl, arith,
}
use zigu.Udp.{Sockets, udp_segment, udp_process_incoming, deliver}

-- A segment that is built for two 16-bit ports and data that fit in a packet is taken apart into them.
pub udp_process_incoming-udp_segment :
    (src_ip : List ℕ) (src_port dst_port : ℕ) (payload : List ℕ) (socks : Sockets)
    → src_port < 2 ^ 16
    → dst_port < 2 ^ 16
    → length payload ≤ 1464
    → udp_process_incoming src_ip (udp_segment src_port dst_port payload) socks
      ≡ deliver src_ip src_port dst_port payload socks
unfolding udp_process_incoming udp_segment
udp_process_incoming-udp_segment src_ip src_port dst_port payload socks h h' few =
    let len : (8 + length payload) / 256 * 256 + (8 + length payload) % 256 ≡ 8 + length payload =
      omega arith in
    let src : src_port / 256 * 256 + src_port % 256 ≡ src_port = omega arith in
    let dst : dst_port / 256 * 256 + dst_port % 256 ≡ dst_port = omega arith in
    let all : take (8 + length payload - 8) payload ≡ payload =
      take-all (8 + length payload - 8) payload (omega arith) in
    let long : ltb (8 + length payload) 8 ≡ false = ground arith in
    let whole : ltb (8 + length payload) (8 + length payload) ≡ false = ground arith in
    let eight : (suc (suc (suc (suc (suc (suc (suc (suc (length payload)))))))))
        ≡ 8 + length payload =
      omega arith in
    rw (udp_process_incoming, len, src, dst, eight, long, whole, all) refl

pub length-udp_segment :
    (local_port remote_port : ℕ) (payload : List ℕ)
    → length (udp_segment local_port remote_port payload) ≡ 8 + length payload
unfolding udp_segment
length-udp_segment local_port remote_port payload = omega arith
