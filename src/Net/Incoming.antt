-- ===== src/Net/Incoming.antt =====
-- The loop of `processIncoming` of kernel/net.zig, which ends when the driver has no frame.
use zigu.Base.{
  ℕ, zero, suc, ◌<◌, ◌≤◌, ◌≡◌, ◌==◌, ◌&&◌, ◌||◌, ltb, not, Bool, Bool-cases, true, false,
  if◌then◌else◌, none, some, Option-cases, inl, inr, List, length, get_or, refl, ap, ◌∙◌, arith,
}
use zigu.Udp.{Sockets, word, udp_process_incoming, proto_udp}
use zigu.Net.{
  Device, Lower, arp_size, slice, ip_eql, ethertype_arp, ethertype_ipv4, our_ip, eth_frame,
  eth_send, arp_packet, arp_process, arp_send_reply, arp_store, ip_packet, parse_eth_header,
  process_frame, process_polls, process_incoming,
}
use zigu.Net.Frames.{process_frame-ip_packet}

-- The state below after a poll.
abbrev pub polled_of : {D : Type 0} → Device D → Lower D → Lower D
polled_of dev lower = record lower { device = (dev.rx_poll lower.device).1 }

module _ {D : Type 0} (dev : Device D) where
  eth_send-pending :
      (dst_mac : List ℕ) (ethertype : ℕ) (payload : List ℕ) (lower : Lower D)
      → dev.pending (eth_send dev dst_mac ethertype payload lower).1.device
        ≤ dev.pending lower.device
  unfolding eth_send
  eth_send-pending dst_mac ethertype payload lower = elim (Bool-cases (ltb 1500 (length payload))) [
    | inl large ↦ rw (eth_send, large) (omega arith)
    | inr small ↦
        let frame = eth_frame dst_mac (dev.get_mac lower.device) ethertype payload in
        rw (eth_send, small) (dev.send_keeps lower.device frame)
  ]

  arp_send_reply-pending :
      (mac ip : List ℕ) (lower : Lower D)
      → dev.pending (arp_send_reply dev mac ip lower).device ≤ dev.pending lower.device
  unfolding arp_send_reply
  arp_send_reply-pending mac ip lower =
      let pkt = arp_packet 2 (dev.get_mac lower.device) our_ip mac ip in
      eth_send-pending mac ethertype_arp pkt lower

  if-pending :
      (b : Bool) (n : ℕ) (x y : Lower D)
      → dev.pending x.device ≤ n
      → dev.pending y.device ≤ n
      → dev.pending (if b then x else y).device ≤ n
  if-pending true n x y h h' = h
  if-pending false n x y h h' = h'

  arp_process-pending :
      (payload : List ℕ) (lower : Lower D)
      → dev.pending (arp_process dev payload lower).device ≤ dev.pending lower.device
  unfolding arp_process
  arp_process-pending payload lower =
      let sha = slice payload 8 6 in
      let spa = slice payload 14 4 in
      let stored = record lower { arp_table = arp_store spa sha lower.arp_table } in
      let asked = word payload 6 == 1 && ip_eql (slice payload 24 4) our_ip in
      let replied = if asked then arp_send_reply dev sha spa stored else stored in
      let other_protocol = not (get_or payload 2 0 == 8) || not (get_or payload 3 0 == 0) in
      let known = if other_protocol then lower else replied in
      let other_hardware = not (get_or payload 0 0 == 0) || not (get_or payload 1 0 == 1) in
      let n = dev.pending lower.device in
      let same : n ≤ n = omega arith in
      if-pending (ltb (length payload) arp_size) n lower (if other_hardware then lower else known)
        same
        (if-pending other_hardware n lower known same (
          if-pending other_protocol n lower replied same (
            if-pending asked n (arp_send_reply dev sha spa stored) stored
              (arp_send_reply-pending sha spa stored) same)))

  process_frame-pending :
      (frame : List ℕ) (s : Sockets × Lower D)
      → dev.pending (process_frame dev frame s).1.device ≤ dev.pending s.1.device
  unfolding process_frame
  process_frame-pending frame (socks, lower) = elim (Option-cases (parse_eth_header frame)) [
    | inl e ↦ rw (process_frame, e) (omega arith)
    | inr ((ethertype, payload), e) ↦ elim (Bool-cases (ethertype == ethertype_arp)) [
      | inl arp ↦ rw (process_frame, e, arp) (arp_process-pending payload lower)
      | inr other ↦ elim (Bool-cases (ethertype == ethertype_ipv4)) [
        | inl ip ↦ rw (process_frame, e, other, ip) (omega arith)
        | inr unknown ↦ rw (process_frame, e, other, unknown) (omega arith)
      ]
    ]
  ]

  -- Two numbers of polls that the bound allows are the same.
  process_polls-enough :
      (m n : ℕ) (s : Sockets × Lower D)
      → dev.pending s.1.device < m
      → dev.pending s.1.device < n
      → process_polls dev m s ≡ process_polls dev n s
  unfolding process_polls
  process_polls-enough zero n s h h' = absurd (omega (arith, h))
  process_polls-enough (suc m) zero s h h' = absurd (omega (arith, h'))
  process_polls-enough (suc m) (suc n) (socks, lower) h h' =
      let polled = record lower { device = (dev.rx_poll lower.device).1 } in
      elim (Option-cases (dev.rx_poll lower.device).0) [
        | inl e ↦ rw (process_polls, e) refl
        | inr (frame, e) ↦
            let fewer = dev.poll_falls lower.device frame e in
            let first = process_frame dev frame (socks, polled) in
            let after = process_frame-pending frame (socks, polled) in
            rw (process_polls, e)
              (process_polls-enough m n first (omega (arith, fewer, after, h))
                (omega (arith, fewer, after, h')))
      ]

  -- The bound on the frames falls with each frame that is handed out and does not rise when one is sent:
  -- granted more polls than the bound, `process_incoming` ends in the same state, since its loop is over.
  pub process_incoming-enough :
      (polls : ℕ) (s : Sockets × Lower D)
      → dev.pending s.1.device ≤ polls
      → process_polls dev (suc polls) s ≡ process_incoming dev s
  unfolding process_incoming
  process_incoming-enough polls s h =
      process_polls-enough (suc polls) (suc (dev.pending s.1.device)) s (omega (arith, h))
        (omega arith)

  -- The driver has no frame.
  pub process_incoming-idle :
      (socks : Sockets) (lower : Lower D)
      → (dev.rx_poll lower.device).0 ≡ none
      → process_incoming dev (socks, lower) ≡ (socks, polled_of dev lower)
  unfolding process_incoming process_polls
  process_incoming-idle socks lower e = rw (process_incoming, process_polls, e) refl

  -- The driver has one frame and then none.
  pub process_incoming-one :
      (frame : List ℕ) (socks socks' : Sockets) (lower lower' : Lower D)
      → (dev.rx_poll lower.device).0 ≡ some frame
      → process_frame dev frame (socks, polled_of dev lower) ≡ (socks', lower')
      → (dev.rx_poll lower'.device).0 ≡ none
      → process_incoming dev (socks, lower) ≡ (socks', polled_of dev lower')
  unfolding process_incoming process_polls
  process_incoming-one frame socks socks' lower lower' e h e' =
      let two = suc (suc (dev.pending lower.device)) in
      let enough =
        process_polls-enough (suc (dev.pending lower.device)) two (socks, lower) (omega arith)
          (omega arith) in
      let first : process_polls dev two (socks, lower)
          ≡ process_polls dev (suc (dev.pending lower.device)) (socks', lower') =
        rw (process_polls, e) (ap (process_polls dev (suc (dev.pending lower.device))) h) in
      let second : process_polls dev (suc (dev.pending lower.device)) (socks', lower')
          ≡ (socks', polled_of dev lower') =
        rw (process_polls, e') refl in
      enough ∙ first ∙ second

  -- A single UDP packet for our address comes in: the driver has its frame and then none.
  pub process_incoming-ip_packet :
      (dst_mac src_mac : List ℕ) (id : ℕ) (src payload : List ℕ) (socks : Sockets) (lower : Lower D)
      → length dst_mac ≡ 6
      → length src_mac ≡ 6
      → length src ≡ 4
      → (dev.rx_poll lower.device).0
        ≡ some
            (eth_frame dst_mac src_mac ethertype_ipv4 (ip_packet id proto_udp src our_ip payload))
      → (dev.rx_poll (dev.rx_poll lower.device).1).0 ≡ none
      → (process_incoming dev (socks, lower)).0 ≡ udp_process_incoming src payload socks
  process_incoming-ip_packet dst_mac src_mac id src payload socks lower h h' h1 e e' =
      let frame =
        eth_frame dst_mac src_mac ethertype_ipv4 (ip_packet id proto_udp src our_ip payload) in
      let taken =
        process_frame-ip_packet dev dst_mac src_mac id src payload socks (polled_of dev lower) h h'
          h1 in
      ap (λ (s : Sockets × Lower D). s.0)
        (process_incoming-one frame socks (udp_process_incoming src payload socks) lower
          (polled_of dev lower) e taken e')
