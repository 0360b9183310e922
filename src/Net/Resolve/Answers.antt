-- ===== src/Net/Resolve/Answers.antt =====
-- What `arpResolve` of kernel/net.zig answers, and that it waits for the answer of a host.
use zigu.Base.{
  ℕ, zero, suc, ◌<◌, ◌≡◌, Bool-cases, ltb, Option, none, some, Option-cases, inl, inr, List, [],
  ◌∷◌, length, refl, ap, subst, sym, ◌∙◌, arith,
}
use zigu.Udp.{Sockets}
use zigu.Net.{
  Device, Lower, our_ip, ethertype_arp, eth_send, eth_frame, arp_packet, arp_lookup, arp_store,
  arp_send_request, process_incoming, arp_spin, arp_attempts, arp_resolve,
}
use zigu.Net.Frames.{process_frame-arp_packet, arp_process-reply}
use zigu.Net.Incoming.{polled_of, process_incoming-idle, process_incoming-one}
use zigu.Net.Resolve.{arp_lookup-arp_store}

module _ {D : Type 0} (dev : Device D) where
  -- What is answered is what the table then has.
  abbrev Known : List ℕ → Option (List ℕ) × (Sockets × Lower D) → Type 0
  Known ip (answer, (socks, lower)) = answer ≡ arp_lookup ip lower.arp_table

  arp_spin-Known :
      (spins : ℕ) (ip : List ℕ) (s : Sockets × Lower D) → Known ip (arp_spin dev (suc spins) ip s)
  unfolding arp_spin
  arp_spin-Known zero ip s =
      elim (Option-cases (arp_lookup ip (process_incoming dev s).1.arp_table)) [
        | inr (mac, e) ↦ rw (arp_spin, e) (sym e)
        | inl e ↦ rw (arp_spin, e) (sym e)
      ]
  arp_spin-Known (suc spins) ip s =
      elim (Option-cases (arp_lookup ip (process_incoming dev s).1.arp_table)) [
        | inr (mac, e) ↦ rw (arp_spin, e) (sym e)
        | inl e ↦ rw (arp_spin, e) (arp_spin-Known spins ip (process_incoming dev s))
      ]

  arp_attempts-Known :
      (spins attempts : ℕ) (ip : List ℕ) (s : Sockets × Lower D)
      → Known ip (arp_attempts dev (suc spins) (suc attempts) ip s)
  unfolding arp_attempts
  arp_attempts-Known spins zero ip (socks, lower) =
      let spun = arp_spin dev (suc spins) ip (socks, arp_send_request dev ip lower) in
      let known = arp_spin-Known spins ip (socks, arp_send_request dev ip lower) in
      elim (Option-cases spun.0) [
        | inr (mac, e) ↦ rw (arp_attempts, e) (sym e ∙ known)
        | inl e ↦ rw (arp_attempts, e) (sym e ∙ known)
      ]
  arp_attempts-Known spins (suc attempts) ip (socks, lower) =
      let spun = arp_spin dev (suc spins) ip (socks, arp_send_request dev ip lower) in
      let known = arp_spin-Known spins ip (socks, arp_send_request dev ip lower) in
      elim (Option-cases spun.0) [
        | inr (mac, e) ↦ rw (arp_attempts, e) (sym e ∙ known)
        | inl e ↦ rw (arp_attempts, e) (arp_attempts-Known spins attempts ip spun.1)
      ]

  -- Whether the address was known, came in, or did not within all rounds: the answer is what the table has
  -- afterwards.
  pub arp_resolve-arp_lookup :
      (ip : List ℕ) (s : Sockets × Lower D)
      → let (answer, s') = arp_resolve dev ip s in answer ≡ arp_lookup ip s'.1.arp_table
  unfolding arp_resolve
  arp_resolve-arp_lookup ip (socks, lower) = elim (Option-cases (arp_lookup ip lower.arp_table)) [
    | inr (mac, e) ↦ rw (arp_resolve, e) (sym e)
    | inl e ↦ rw (arp_resolve, e) (arp_attempts-Known 99999 4 ip (socks, lower))
  ]

  -- The driver has no frame for so many polls, then this one, and then none.
  abbrev pub AnswersIn : ℕ → List ℕ → D → Type 0
  AnswersIn zero frame d =
      ((dev.rx_poll d).0 ≡ some frame) × ((dev.rx_poll (dev.rx_poll d).1).0 ≡ none)
  AnswersIn (suc polls) frame d =
      ((dev.rx_poll d).0 ≡ none) × AnswersIn polls frame (dev.rx_poll d).1

  arp_spin-found :
      (spins : ℕ) (ip mac : List ℕ) (s s' : Sockets × Lower D)
      → process_incoming dev s ≡ s'
      → arp_lookup ip s'.1.arp_table ≡ some mac
      → (arp_spin dev (suc spins) ip s).0 ≡ some mac
  unfolding arp_spin
  arp_spin-found spins ip mac s s' h found =
      let e : arp_lookup ip (process_incoming dev s).1.arp_table ≡ some mac =
        ap (λ (t : Sockets × Lower D). arp_lookup ip t.1.arp_table) h ∙ found in
      rw (arp_spin, e) refl

  arp_spin-missed :
      (spins : ℕ) (ip : List ℕ) (s s' : Sockets × Lower D)
      → process_incoming dev s ≡ s'
      → arp_lookup ip s'.1.arp_table ≡ none
      → arp_spin dev (suc spins) ip s ≡ arp_spin dev spins ip s'
  unfolding arp_spin
  arp_spin-missed spins ip s s' h missed =
      let e : arp_lookup ip (process_incoming dev s).1.arp_table ≡ none =
        ap (λ (t : Sockets × Lower D). arp_lookup ip t.1.arp_table) h ∙ missed in
      rw (arp_spin, e) (ap (arp_spin dev spins ip) h)

  arp_attempts-found :
      (spins attempts : ℕ) (ip mac : List ℕ) (socks : Sockets) (lower : Lower D)
      → (arp_spin dev spins ip (socks, arp_send_request dev ip lower)).0 ≡ some mac
      → (arp_attempts dev spins (suc attempts) ip (socks, lower)).0 ≡ some mac
  unfolding arp_attempts
  arp_attempts-found spins attempts ip mac socks lower e = rw (arp_attempts, e) refl

  arp_send_request-arp_table :
      (ip : List ℕ) (lower : Lower D) → (arp_send_request dev ip lower).arp_table ≡ lower.arp_table
  unfolding arp_send_request eth_send
  arp_send_request-arp_table ip lower =
      let pkt = arp_packet 1 (dev.get_mac lower.device) our_ip (0 ∷ 0 ∷ 0 ∷ 0 ∷ 0 ∷ 0 ∷ []) ip in
      elim (Bool-cases (ltb 1500 (length pkt))) [
        | inl large ↦ rw (arp_send_request, eth_send, large) refl
        | inr small ↦ rw (arp_send_request, eth_send, small) refl
      ]

  module _ (dst_mac src_mac mac ip tha tpa : List ℕ) (dst : length dst_mac ≡ 6)
      (src : length src_mac ≡ 6) (sha : length mac ≡ 6) (spa : length ip ≡ 4) (six : length tha ≡ 6)
      (four : length tpa ≡ 4) where
    -- The frame with the answer of the host.
    abbrev reply_frame : List ℕ
    reply_frame = eth_frame dst_mac src_mac ethertype_arp (arp_packet 2 mac ip tha tpa)

    arp_spin-reply :
        (polls spins : ℕ) (socks : Sockets) (lower : Lower D)
        → polls < spins
        → 0 < length lower.arp_table
        → arp_lookup ip lower.arp_table ≡ none
        → AnswersIn polls reply_frame lower.device
        → (arp_spin dev spins ip (socks, lower)).0 ≡ some mac
    arp_spin-reply polls zero socks lower h few missing answers = absurd (omega (arith, h))
    arp_spin-reply zero (suc spins) socks lower h few missing (frame, quiet) =
        let polled = polled_of dev lower in
        let stored = record polled { arp_table = arp_store ip mac polled.arp_table } in
        let taken =
          process_frame-arp_packet dev dst_mac src_mac (arp_packet 2 mac ip tha tpa) socks polled
            dst src
          ∙ ap (λ (l : Lower D). (socks, l))
              (arp_process-reply dev mac ip tha tpa polled sha spa six four) in
        let after =
          process_incoming-one dev reply_frame socks socks lower stored frame taken quiet in
        arp_spin-found spins ip mac (socks, lower) (socks, polled_of dev stored) after
          (arp_lookup-arp_store ip mac lower.arp_table few)
    arp_spin-reply (suc polls) (suc spins) socks lower h few missing (quiet, answers) =
        let after = process_incoming-idle dev socks lower quiet in
        ap (λ r. r.0)
          (arp_spin-missed spins ip (socks, lower) (socks, polled_of dev lower) after missing)
        ∙ arp_spin-reply polls spins socks (polled_of dev lower) (omega (arith, h)) few missing
            answers

    -- The table is not empty and does not have the address, and once the question is sent the driver has no
    -- frame for fewer than 100000 polls, then the frame with the answer of the host and then none, and it hands
    -- out boundedly many frames: `arp_resolve` answers with the card of the host. The frame is for addresses of
    -- the right lengths.
    pub arp_resolve-reply :
        (polls : ℕ) (socks : Sockets) (lower : Lower D)
        → polls < 100000
        → 0 < length lower.arp_table
        → arp_lookup ip lower.arp_table ≡ none
        → AnswersIn polls reply_frame (arp_send_request dev ip lower).device
        → (arp_resolve dev ip (socks, lower)).0 ≡ some mac
    unfolding arp_resolve
    arp_resolve-reply polls socks lower h few missing answers =
        let asked = arp_send_request dev ip lower in
        let table = arp_send_request-arp_table ip lower in
        let spun =
          arp_spin-reply polls 100000 socks asked h (subst (λ t. 0 < length t) (sym table) few)
            (ap (arp_lookup ip) table ∙ missing) answers in
        rw (arp_resolve, missing) (arp_attempts-found 100000 4 ip mac socks lower spun)
