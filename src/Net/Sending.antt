-- ===== src/Net/Sending.antt =====
-- What the driver is given to send: `ethSend` to `udpSend` of kernel/net.zig, composed.
use zigu.Base.{
  ℕ, ◌+◌, ◌%◌, ◌^◌, ◌<◌, ◌≤◌, ◌≡◌, ltb, leb, not, Bool, true, false, if◌then◌else◌, some, List, [],
  ◌∷◌, ◌++◌, length, length-append, get_or, All, refl, ap, ◌∙◌, arith,
}
use zigu.Udp.{Sockets, closed, proto_udp, udp_segment, udp_send}
use zigu.Udp.Segment.{length-udp_segment}
use zigu.Net.Frames.{process_frame-arp_packet, arp_process-request}
use zigu.Net.Resolve.{Outcome, arp_store-Outcome}
use zigu.Net.Subnet.{same_subnet-is_local}
use zigu.Net.Written.{arp_question, arp_answer, datagram, datagram_of, hop}
use zigu.Net.{
  ArpEntry, Device, Lower, ethertype_arp, arp_packet, arp_store, arp_send_reply, process_frame,
  our_ip, our_netmask, gateway_ip, ethertype_ipv4, same_subnet, eth_frame, eth_send, arp_lookup,
  arp_resolve, ip_header, ip_packet, send_resolved, ip_send,
}

abbrev pub no_mac : List ℕ
no_mac = 0 ∷ 0 ∷ 0 ∷ 0 ∷ 0 ∷ 0 ∷ []

-- The driver is given the frame.
abbrev pub answered : {D : Type 0} → Device D → List ℕ → List ArpEntry → Lower D → Lower D
answered dev frame table lower = record lower {
  arp_table = table;
  device = (dev.tx_packet frame lower.device).1;
}

-- The host is stored, and the driver is given the answer to it.
abbrev pub Answers : {D : Type 0} → Device D → List ℕ → List ℕ → List ℕ → Sockets × Lower D → Type 0
Answers dev frame mac ip (socks, lower) =
    (table : List ArpEntry) × Outcome ip mac lower.arp_table table
    × (process_frame dev frame (socks, lower)
        ≡ (socks, answered dev (arp_answer (dev.get_mac lower.device) mac ip) table lower))

-- The host that a packet is handed to: the destination, or the gateway outside the subnet.
abbrev next_hop : List ℕ → List ℕ
next_hop dst_ip = if not (same_subnet dst_ip our_ip our_netmask) then gateway_ip else dst_ip

-- The driver sends the frame, and the counter of the packets goes on.
abbrev pub transmitted :
    {D : Type 0} → Device D → List ℕ → Sockets × Lower D → Bool × (Sockets × Lower D)
transmitted dev frame (socks, lower) =
    let (sent, device) = dev.tx_packet frame lower.device in
    (
      sent,
      (socks, record lower { ip_id_counter = (lower.ip_id_counter + 1) % 2 ^ 16; device = device }),
    )

next_hop-hop :
    (dst_ip : List ℕ) → length dst_ip ≡ 4 → All (λ b. b < 256) dst_ip → next_hop dst_ip ≡ hop dst_ip
next_hop-hop (a ∷ b ∷ c ∷ d ∷ []) h (ha, (hb, (hc, (hd, nil)))) =
    rw (same_subnet-is_local a b c d ha hb hc hd) ground arith
next_hop-hop [] h bytes = absurd (omega (arith, h))
next_hop-hop (a ∷ []) h bytes = absurd (omega (arith, h))
next_hop-hop (a ∷ b ∷ []) h bytes = absurd (omega (arith, h))
next_hop-hop (a ∷ b ∷ c ∷ []) h bytes = absurd (omega (arith, h))
next_hop-hop (a ∷ b ∷ c ∷ d ∷ e ∷ rest) h bytes = absurd (omega (arith, h))

length-ip_packet :
    (id protocol : ℕ) (src dst payload : List ℕ)
    → length src ≡ 4
    → length dst ≡ 4
    → length (ip_packet id protocol src dst payload) ≡ 20 + length payload
unfolding ip_packet ip_header
length-ip_packet id protocol src dst payload h h' =
    let header = length-append src dst in
    let whole = length-append (src ++ dst) payload in omega (arith, h, h', header, whole)

-- The frame of a datagram, byte by byte.
eth_frame-datagram :
    (mac our_mac : List ℕ) (id : ℕ) (dst_ip : List ℕ) (src_port dst_port : ℕ) (payload : List ℕ)
    → eth_frame mac our_mac ethertype_ipv4
        (ip_packet id proto_udp our_ip dst_ip (udp_segment src_port dst_port payload))
      ≡ datagram mac our_mac id dst_ip src_port dst_port payload
unfolding eth_frame ip_packet ip_header udp_segment
eth_frame-datagram mac our_mac id dst_ip src_port dst_port payload =
    let len = length-udp_segment src_port dst_port payload in
    let total : 20 + length (udp_segment src_port dst_port payload) ≡ 28 + length payload =
      omega (arith, len) in
    ap (λ n. datagram_of n mac our_mac id dst_ip src_port dst_port payload) total

module _ {D : Type 0} (dev : Device D) where
  eth_send-fits :
      (dst_mac : List ℕ) (ethertype : ℕ) (payload : List ℕ) (lower : Lower D)
      → length payload ≤ 1500
      → eth_send dev dst_mac ethertype payload lower ≡ (
          let (sent, device) =
            dev.tx_packet
              (eth_frame dst_mac (dev.get_mac lower.device) ethertype payload)
              lower.device in
          (sent, record lower { device = device }))
  unfolding eth_send
  eth_send-fits dst_mac ethertype payload lower h =
      let fits : ltb 1500 (length payload) ≡ false = ground arith in rw (eth_send, fits) refl

  length-arp_packet :
      (oper : ℕ) (sha spa tha tpa : List ℕ)
      → length sha ≡ 6
      → length spa ≡ 4
      → length tha ≡ 6
      → length tpa ≡ 4
      → length (arp_packet oper sha spa tha tpa) ≡ 28
  unfolding arp_packet
  length-arp_packet oper sha spa tha tpa h h1 h2 h3 =
      let last = length-append tha tpa in
      let middle = length-append spa (tha ++ tpa) in
      let whole = length-append sha (spa ++ (tha ++ tpa)) in
      omega (arith, h, h1, h2, h3, last, middle, whole)

  -- The question of a host for our address comes in, byte by byte, the addresses have their lengths, and the
  -- table of addresses is not empty: the host is stored with its card, and the driver is given one frame, with
  -- these bytes: to the card of the host, from ours, the answer of ARP that 172.16.0.2 is at our card.
  pub process_frame-request :
      (dst_mac src_mac mac ip tha : List ℕ) (socks : Sockets) (lower : Lower D)
      → length dst_mac ≡ 6
      → length src_mac ≡ 6
      → length mac ≡ 6
      → length ip ≡ 4
      → length tha ≡ 6
      → length (dev.get_mac lower.device) ≡ 6
      → 0 < length lower.arp_table
      → Answers dev (arp_question dst_mac src_mac mac ip tha) mac ip (socks, lower)
  unfolding arp_send_reply eth_frame arp_packet
  process_frame-request dst_mac src_mac mac ip tha socks lower dst src sha spa six ours some_entry =
      let our_mac = dev.get_mac lower.device in
      let pkt = arp_packet 2 our_mac our_ip mac ip in
      let table = arp_store ip mac lower.arp_table in
      let stored = record lower { arp_table = table } in
      let short = length-arp_packet 2 our_mac our_ip mac ip ours refl sha spa in
      let replied : arp_send_reply dev mac ip stored
          ≡ answered dev (eth_frame mac our_mac ethertype_arp pkt) table lower =
        ap (λ (r : Bool × Lower D). r.1)
          (eth_send-fits mac ethertype_arp pkt stored (omega (arith, short))) in
      (
        table,
        arp_store-Outcome ip mac lower.arp_table some_entry,
        process_frame-arp_packet dev dst_mac src_mac (arp_packet 1 mac ip tha our_ip) socks lower
              dst src
            ∙ ap (λ (l : Lower D). (socks, l))
                (arp_process-request dev mac ip tha lower sha spa six ∙ replied),
      )

  send_resolved-fits :
      (packet mac : List ℕ) (socks : Sockets) (lower : Lower D)
      → length packet ≤ 1500
      → send_resolved dev packet (some mac, (socks, lower)) ≡ (
          let (sent, device) =
            dev.tx_packet
              (eth_frame mac (dev.get_mac lower.device) ethertype_ipv4 packet)
              lower.device in
          (sent, (socks, record lower { device = device })))
  unfolding send_resolved
  send_resolved-fits packet mac socks lower h =
      ap (λ (r : Bool × Lower D). (r.0, (socks, r.1)))
        (eth_send-fits mac ethertype_ipv4 packet lower h)

  arp_resolve-known :
      (ip mac : List ℕ) (socks : Sockets) (lower : Lower D)
      → arp_lookup ip lower.arp_table ≡ some mac
      → arp_resolve dev ip (socks, lower) ≡ (some mac, (socks, lower))
  unfolding arp_resolve
  arp_resolve-known ip mac socks lower h = rw (arp_resolve, h) refl

  ip_send-transmitted :
      (dst_ip : List ℕ) (protocol : ℕ) (payload mac : List ℕ) (socks : Sockets) (lower : Lower D)
      → length dst_ip ≡ 4
      → length payload ≤ 1480
      → arp_lookup (next_hop dst_ip) lower.arp_table ≡ some mac
      → ip_send dev dst_ip protocol payload (socks, lower)
        ≡ transmitted dev
            (eth_frame mac
              (dev.get_mac lower.device)
              ethertype_ipv4
              (ip_packet lower.ip_id_counter protocol our_ip dst_ip payload))
            (socks, lower)
  unfolding ip_send
  ip_send-transmitted dst_ip protocol payload mac socks lower h few known =
      let packet = ip_packet lower.ip_id_counter protocol our_ip dst_ip payload in
      let counted = record lower { ip_id_counter = (lower.ip_id_counter + 1) % 2 ^ 16 } in
      let whole = length-ip_packet lower.ip_id_counter protocol our_ip dst_ip payload refl h in
      let fits : ltb 1480 (length payload) ≡ false = ground arith in
      let resolved = arp_resolve-known (next_hop dst_ip) mac socks counted known in
      rw (ip_send, fits)
        (ap (send_resolved dev packet) resolved
          ∙ send_resolved-fits packet mac socks counted (omega (arith, whole, few)))

  -- A socket in use that is connected to an address of four bytes sends at most 1464 bytes, and the card of the
  -- next host, which is the destination on 172.16.0.x and else 172.16.0.1, is in the table: the driver is given
  -- one frame, with these bytes: to that card, from ours, with the packet of IPv4 to the remote address, with the
  -- segment of UDP between the two ports.
  pub udp_send-transmitted :
      (idx : ℕ) (payload mac : List ℕ) (socks : Sockets) (lower : Lower D)
      → let sock = get_or socks idx closed in
        idx < 16
        → sock.in_use ≡ true
        → sock.connected ≡ true
        → length sock.remote_ip ≡ 4
        → All (λ b. b < 256) sock.remote_ip
        → length payload ≤ 1464
        → arp_lookup (hop sock.remote_ip) lower.arp_table ≡ some mac
        → udp_send (ip_send dev) idx payload (socks, lower)
          ≡ transmitted dev
              (datagram mac
                (dev.get_mac lower.device)
                lower.ip_id_counter
                sock.remote_ip
                sock.local_port
                sock.remote_port
                payload)
              (socks, lower)
  unfolding udp_send
  udp_send-transmitted idx payload mac socks lower small used connected four bytes few known =
      let sock = get_or socks idx closed in
      let segment = udp_segment sock.local_port sock.remote_port payload in
      let inside : leb 16 idx ≡ false = ground arith in
      let fits : ltb 1464 (length payload) ≡ false = ground arith in
      let len = length-udp_segment sock.local_port sock.remote_port payload in
      let next = next_hop-hop sock.remote_ip four bytes in
      let there : arp_lookup (next_hop sock.remote_ip) lower.arp_table ≡ some mac =
        ap (λ ip. arp_lookup ip lower.arp_table) next ∙ known in
      let sent =
        ip_send-transmitted sock.remote_ip proto_udp segment mac socks lower four
          (omega (arith, len, few)) there in
      let frame =
        eth_frame-datagram mac (dev.get_mac lower.device) lower.ip_id_counter sock.remote_ip
          sock.local_port sock.remote_port payload in
      rw (udp_send, inside, used, connected, fits)
        (sent ∙ ap (λ bytes. transmitted dev bytes (socks, lower)) frame)
