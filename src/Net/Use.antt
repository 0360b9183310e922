-- ===== src/Net/Use.antt =====
-- The layers below UDP leave the same sockets in use.
use zigu.Base.{
  ℕ, zero, suc, ◌+◌, ◌-◌, ◌*◌, ◌/◌, ◌%◌, ◌^◌, ◌==◌, ◌||◌, ltb, leb, not, Bool, Bool-cases, true,
  false, if◌then◌else◌, Option, none, some, Option-cases, inl, inr, List, length, get_or,
}
use zigu.Udp.{Sockets, closed, proto_udp, skip, udp_process_incoming, udp_send, udp_segment}
use zigu.Udp.Use.{SameUse, SameUse-refl, SameUse-trans, if-SameUse, udp_process_incoming-SameUse}
use zigu.Net.{
  Device, Lower, ipv4_hdr_size, our_ip, our_netmask, gateway_ip, slice, ip_eql, same_subnet,
  ip_packet, ip_process, parse_eth_header, ethertype_arp, ethertype_ipv4, arp_process,
  process_frame, process_polls, process_incoming, arp_lookup, arp_send_request, arp_spin,
  arp_attempts, arp_resolve, send_resolved, ip_send,
}

ip_process-SameUse : (payload : List ℕ) (socks : Sockets) → SameUse socks (ip_process payload socks)
unfolding ip_process
ip_process-SameUse payload socks =
    let ihl = get_or payload 0 0 % 16 * 4 in
    let data_bytes = skip ihl payload in
    let taken = udp_process_incoming (slice payload 12 4) data_bytes socks in
    let udp = if get_or payload 9 0 == proto_udp then taken else socks in
    let ours = if not (ip_eql (slice payload 16 4) our_ip) then socks else udp in
    let sized = if ltb ihl ipv4_hdr_size || ltb (length payload) ihl then socks else ours in
    let version = if not (get_or payload 0 0 / 16 == 4) then socks else sized in
    let same = SameUse-refl socks in
    if-SameUse (ltb (length payload) ipv4_hdr_size) socks socks version same (
      if-SameUse (not (get_or payload 0 0 / 16 == 4)) socks socks sized same (
        if-SameUse (ltb ihl ipv4_hdr_size || ltb (length payload) ihl) socks socks ours same (
          if-SameUse (not (ip_eql (slice payload 16 4) our_ip)) socks socks udp same (
            if-SameUse (get_or payload 9 0 == proto_udp) socks taken socks
              (udp_process_incoming-SameUse (slice payload 12 4) data_bytes socks) same))))

-- The same sockets are in use as in `socks`.
abbrev Keeps : {D : Type 0} → Sockets → Sockets × Lower D → Type 0
Keeps socks s = SameUse socks s.0

module _ {D : Type 0} (dev : Device D) where
  if-Keeps :
      (b : Bool) (socks : Sockets) (x y : Sockets × Lower D)
      → Keeps socks x
      → Keeps socks y
      → Keeps socks (if b then x else y)
  if-Keeps true socks x y h h' = h
  if-Keeps false socks x y h h' = h'

  process_frame-Keeps :
      (frame : List ℕ) (s : Sockets × Lower D) → Keeps s.0 (process_frame dev frame s)
  unfolding process_frame
  process_frame-Keeps frame (socks, lower) = elim (Option-cases (parse_eth_header frame)) [
    | inl e ↦ rw (process_frame, e) (SameUse-refl socks)
    | inr ((ethertype, payload), e) ↦
        let arp : Sockets × Lower D = (socks, arp_process dev payload lower) in
        let ip : Sockets × Lower D = (ip_process payload socks, lower) in
        let rest = if ethertype == ethertype_ipv4 then ip else (socks, lower) in
        let keeps = if-Keeps (ethertype == ethertype_arp) socks arp rest (SameUse-refl socks) (
          if-Keeps (ethertype == ethertype_ipv4) socks ip (socks, lower)
            (ip_process-SameUse payload socks) (SameUse-refl socks)) in
        rw (process_frame, e) keeps
  ]

  process_polls-Keeps : (polls : ℕ) (s : Sockets × Lower D) → Keeps s.0 (process_polls dev polls s)
  unfolding process_polls
  process_polls-Keeps zero s = SameUse-refl s.0
  process_polls-Keeps (suc polls) (socks, lower) =
      let polled = record lower { device = (dev.rx_poll lower.device).1 } in
      elim (Option-cases (dev.rx_poll lower.device).0) [
        | inl e ↦ rw (process_polls, e) (SameUse-refl socks)
        | inr (frame, e) ↦
            let first = process_frame dev frame (socks, polled) in
            let later =
              SameUse-trans socks first.0 (process_polls dev polls first).0
                (process_frame-Keeps frame (socks, polled)) (process_polls-Keeps polls first) in
            rw (process_polls, e) later
      ]

  pub process_incoming-Keeps : (s : Sockets × Lower D) → Keeps s.0 (process_incoming dev s)
  unfolding process_incoming
  process_incoming-Keeps s = process_polls-Keeps (suc (dev.pending s.1.device)) s

  arp_spin-Keeps :
      (spins : ℕ) (ip : List ℕ) (s : Sockets × Lower D) → Keeps s.0 (arp_spin dev spins ip s).1
  unfolding arp_spin
  arp_spin-Keeps zero ip s = SameUse-refl s.0
  arp_spin-Keeps (suc spins) ip s =
      let polled = process_incoming dev s in
      elim (Option-cases (arp_lookup ip polled.1.arp_table)) [
        | inl e ↦
            let later =
              SameUse-trans s.0 polled.0 (arp_spin dev spins ip polled).1.0
                (process_incoming-Keeps s) (arp_spin-Keeps spins ip polled) in
            rw (arp_spin, e) later
        | inr (mac, e) ↦ rw (arp_spin, e) (process_incoming-Keeps s)
      ]

  arp_attempts-Keeps :
      (spins attempts : ℕ) (ip : List ℕ) (s : Sockets × Lower D)
      → Keeps s.0 (arp_attempts dev spins attempts ip s).1
  unfolding arp_attempts
  arp_attempts-Keeps spins zero ip s = SameUse-refl s.0
  arp_attempts-Keeps spins (suc attempts) ip (socks, lower) =
      let spun = arp_spin dev spins ip (socks, arp_send_request dev ip lower) in
      let first = arp_spin-Keeps spins ip (socks, arp_send_request dev ip lower) in
      elim (Option-cases spun.0) [
        | inl e ↦
            let later =
              SameUse-trans socks spun.1.0 (arp_attempts dev spins attempts ip spun.1).1.0 first
                (arp_attempts-Keeps spins attempts ip spun.1) in
            rw (arp_attempts, e) later
        | inr (mac, e) ↦ rw (arp_attempts, e) first
      ]

  arp_resolve-Keeps : (ip : List ℕ) (s : Sockets × Lower D) → Keeps s.0 (arp_resolve dev ip s).1
  unfolding arp_resolve
  arp_resolve-Keeps ip (socks, lower) = elim (Option-cases (arp_lookup ip lower.arp_table)) [
    | inl e ↦ rw (arp_resolve, e) (arp_attempts-Keeps 100000 5 ip (socks, lower))
    | inr (mac, e) ↦ rw (arp_resolve, e) (SameUse-refl socks)
  ]

  send_resolved-Keeps :
      (packet : List ℕ) (socks : Sockets) (r : Option (List ℕ) × (Sockets × Lower D))
      → Keeps socks r.1
      → Keeps socks (send_resolved dev packet r).1
  unfolding send_resolved
  send_resolved-Keeps packet socks (none, s) h = h
  send_resolved-Keeps packet socks (some dst_mac, (socks', lower)) h = h

  ip_send-Keeps :
      (dst_ip : List ℕ) (protocol : ℕ) (payload : List ℕ) (s : Sockets × Lower D)
      → Keeps s.0 (ip_send dev dst_ip protocol payload s).1
  unfolding ip_send
  ip_send-Keeps dst_ip protocol payload (socks, lower) =
      let packet = ip_packet lower.ip_id_counter protocol our_ip dst_ip payload in
      let counted = record lower { ip_id_counter = (lower.ip_id_counter + 1) % 2 ^ 16 } in
      let next_hop = if not (same_subnet dst_ip our_ip our_netmask) then gateway_ip else dst_ip in
      let resolved = arp_resolve dev next_hop (socks, counted) in
      let keeps =
        send_resolved-Keeps packet socks resolved (arp_resolve-Keeps next_hop (socks, counted)) in
      elim (Bool-cases (ltb (1500 - ipv4_hdr_size) (length payload))) [
        | inl large ↦ rw (ip_send, large) (SameUse-refl socks)
        | inr small ↦ rw (ip_send, small) keeps
      ]

  pub udp_send-Keeps :
      (idx : ℕ) (payload : List ℕ) (s : Sockets × Lower D)
      → Keeps s.0 (udp_send (ip_send dev) idx payload s).1
  unfolding udp_send
  udp_send-Keeps idx payload (socks, lower) =
      let sock = get_or socks idx closed in
      let segment = udp_segment sock.local_port sock.remote_port payload in
      let sent = ip_send-Keeps sock.remote_ip proto_udp segment (socks, lower) in
      elim (Bool-cases (leb 16 idx)) [
        | inl outside ↦ rw (udp_send, outside) (SameUse-refl socks)
        | inr inside ↦ elim (Bool-cases (not sock.in_use || not sock.connected)) [
          | inl unready ↦ rw (udp_send, inside, unready) (SameUse-refl socks)
          | inr ready ↦ elim (Bool-cases (ltb 1464 (length payload))) [
            | inl large ↦ rw (udp_send, inside, ready, large) (SameUse-refl socks)
            | inr small ↦ rw (udp_send, inside, ready, small) sent
          ]
        ]
      ]
