-- ===== src/Net/Frames.antt =====
-- What the layers of kernel/net.zig build, as they read it: the frame of Ethernet, the packets of ARP and IPv4.
use zigu.Base.{
  ℕ, suc, ◌+◌, ◌*◌, ◌/◌, ◌%◌, ◌≡◌, ltb, Bool, false, if◌then◌else◌, none, some, List, [], ◌∷◌,
  length, refl, ap, arith,
}
use zigu.Udp.{Sockets, proto_udp, udp_process_incoming}
use zigu.Net.{
  Device, Lower, ethertype_arp, ethertype_ipv4, eth_frame, parse_eth_header, arp_packet, arp_store,
  arp_process, arp_send_reply, process_frame, ip_header, ip_packet, ip_process, our_ip,
}

-- The bytes of a list by their number.
abbrev pub Four : List ℕ → Type 0
Four xs = (a b c d : ℕ) × (xs ≡ a ∷ b ∷ c ∷ d ∷ [])

pub length-Four : (xs : List ℕ) → length xs ≡ 4 → Four xs
length-Four (a ∷ b ∷ c ∷ d ∷ []) h = (a, b, c, d, refl)
length-Four [] h = absurd (omega (arith, h))
length-Four (a ∷ []) h = absurd (omega (arith, h))
length-Four (a ∷ b ∷ []) h = absurd (omega (arith, h))
length-Four (a ∷ b ∷ c ∷ []) h = absurd (omega (arith, h))
length-Four (a ∷ b ∷ c ∷ d ∷ e ∷ xs) h = absurd (omega (arith, h))

abbrev pub Six : List ℕ → Type 0
Six xs = (a b : ℕ) × (ys : List ℕ) × (xs ≡ a ∷ b ∷ ys) × Four ys

pub length-Six : (xs : List ℕ) → length xs ≡ 6 → Six xs
length-Six (a ∷ b ∷ ys) h = (a, b, ys, refl, length-Four ys (omega (arith, h)))
length-Six [] h = absurd (omega (arith, h))
length-Six (a ∷ []) h = absurd (omega (arith, h))

long :
    (n : ℕ)
    → ltb (suc (suc (suc (suc (suc (suc (suc (suc (suc (suc (suc (suc (suc (suc (n))))))))))))))) 14
      ≡ false
long n = ground arith

longer :
    (n : ℕ)
    → ltb
        (suc (
          suc (
            suc (
              suc (
                suc (
                  suc (
                    suc (
                      suc (
                        suc (
                          suc (
                            suc (suc (suc (suc (suc (suc (suc (suc (suc (suc (n)))))))))))))))))))))
        20
      ≡ false
longer n = ground arith

-- A frame that is built for two addresses of six bytes is taken apart into its type and its payload.
pub parse_eth_header-eth_frame :
    (dst_mac our_mac : List ℕ) (ethertype : ℕ) (payload : List ℕ)
    → length dst_mac ≡ 6
    → length our_mac ≡ 6
    → parse_eth_header (eth_frame dst_mac our_mac ethertype payload) ≡ some (ethertype, payload)
unfolding parse_eth_header eth_frame
parse_eth_header-eth_frame dst_mac our_mac ethertype payload h h' =
    let (a, b, ys, e, (c, d, m, n, f)) = length-Six dst_mac h in
    let (a', b', ys', e', (c', d', m', n', f')) = length-Six our_mac h' in
    let type' : ethertype / 256 * 256 + ethertype % 256 ≡ ethertype = omega arith in
    rw (e, f, e', f') rw (parse_eth_header, type')
      (ap (λ (short : Bool). if short then none else some (ethertype, payload))
        (long (length payload)))

-- A UDP packet that is built for our address is handed to the sockets, with its source.
pub ip_process-ip_packet :
    (id : ℕ) (src payload : List ℕ) (socks : Sockets)
    → length src ≡ 4
    → ip_process (ip_packet id proto_udp src our_ip payload) socks
      ≡ udp_process_incoming src payload socks
unfolding ip_process ip_packet ip_header
ip_process-ip_packet id src payload socks h =
    let (a, b, c, d, e) = length-Four src h in
    rw e (
      ap
        (λ (short : Bool).
          if short
          then socks
          else if short
          then socks
          else udp_process_incoming (a ∷ b ∷ c ∷ d ∷ []) payload socks)
        (longer (length payload)))

module _ {D : Type 0} (dev : Device D) where
  -- A whole frame with a UDP packet for our address.
  pub process_frame-ip_packet :
      (dst_mac src_mac : List ℕ) (id : ℕ) (src payload : List ℕ) (socks : Sockets) (lower : Lower D)
      → length dst_mac ≡ 6
      → length src_mac ≡ 6
      → length src ≡ 4
      → process_frame dev
          (eth_frame dst_mac src_mac ethertype_ipv4 (ip_packet id proto_udp src our_ip payload))
          (socks, lower)
        ≡ (udp_process_incoming src payload socks, lower)
  unfolding process_frame
  process_frame-ip_packet dst_mac src_mac id src payload socks lower h h' h1 =
      let packet = ip_packet id proto_udp src our_ip payload in
      let parsed = parse_eth_header-eth_frame dst_mac src_mac ethertype_ipv4 packet h h' in
      rw (process_frame, parsed)
        (ap (λ (l : Sockets). (l, lower)) (ip_process-ip_packet id src payload socks h1))

  -- A whole frame with a packet of ARP.
  pub process_frame-arp_packet :
      (dst_mac src_mac payload : List ℕ) (socks : Sockets) (lower : Lower D)
      → length dst_mac ≡ 6
      → length src_mac ≡ 6
      → process_frame dev (eth_frame dst_mac src_mac ethertype_arp payload) (socks, lower)
        ≡ (socks, arp_process dev payload lower)
  unfolding process_frame
  process_frame-arp_packet dst_mac src_mac payload socks lower h h' =
      rw (process_frame, parse_eth_header-eth_frame dst_mac src_mac ethertype_arp payload h h') refl

  -- The answer of a host is stored.
  pub arp_process-reply :
      (mac ip tha tpa : List ℕ) (lower : Lower D)
      → length mac ≡ 6
      → length ip ≡ 4
      → length tha ≡ 6
      → length tpa ≡ 4
      → arp_process dev (arp_packet 2 mac ip tha tpa) lower
        ≡ record lower { arp_table = arp_store ip mac lower.arp_table }
  unfolding arp_process arp_packet
  arp_process-reply mac ip tha tpa lower h h1 h2 h3 =
      let (a, b, ys, e, (c, d, m, n, f)) = length-Six mac h in
      let (a1, b1, c1, d1, e1) = length-Four ip h1 in
      let (a2, b2, ys2, e2, (c2, d2, m2, n2, f2)) = length-Six tha h2 in
      let (a3, b3, c3, d3, e3) = length-Four tpa h3 in rw (e, f, e1, e2, f2, e3) refl

  -- The question of a host for our address is answered to it, and the host is stored.
  pub arp_process-request :
      (mac ip tha : List ℕ) (lower : Lower D)
      → length mac ≡ 6
      → length ip ≡ 4
      → length tha ≡ 6
      → arp_process dev (arp_packet 1 mac ip tha our_ip) lower
        ≡ arp_send_reply dev mac ip (record lower { arp_table = arp_store ip mac lower.arp_table })
  unfolding arp_process arp_packet
  arp_process-request mac ip tha lower h h1 h2 =
      let (a, b, ys, e, (c, d, m, n, f)) = length-Six mac h in
      let (a1, b1, c1, d1, e1) = length-Four ip h1 in
      let (a2, b2, ys2, e2, (c2, d2, m2, n2, f2)) = length-Six tha h2 in rw (e, f, e1, e2, f2) refl
