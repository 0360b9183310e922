-- ===== src/Net/Tests.antt =====
-- The layers below UDP at concrete frames.
use zigu.Base.{ℕ, ◌≡◌, true, some, List, [], ◌∷◌, replicate, refl, arith}
use zigu.Memory.Sample.{codes}
use zigu.Udp.{Sockets, closed, udp_send}
use zigu.Net.{
  Lower, no_entry, our_ip, ethertype_arp, eth_frame, arp_packet, arp_lookup, arp_store,
  arp_send_request, arp_resolve, ip_checksum, ip_header, process_frame, ip_send,
}
use zigu.Net.Sample.{Wire, wire, our_mac, peer_mac, peer_ip}
use zigu.Net.Resolve.{Outcome, arp_store-Outcome}
use zigu.Net.Resolve.Answers.{arp_resolve-reply}
use zigu.Net.Written.{arp_question, datagram}
use zigu.Net.Sending.{no_mac, Answers, process_frame-request, transmitted, udp_send-transmitted}

-- The answer of the peer is on its way.
abbrev reply : List ℕ
reply = eth_frame our_mac peer_mac ethertype_arp (arp_packet 2 peer_mac peer_ip our_mac our_ip)

abbrev asking : Lower Wire
asking = record {
  arp_table = replicate 8 no_entry;
  ip_id_counter = 1;
  device = record { coming = reply ∷ []; sent = [] };
}

abbrev known : Lower Wire
known = record {
  arp_table = record { ip = peer_ip; mac = peer_mac; valid = true } ∷ replicate 7 no_entry;
  ip_id_counter = 1;
  device = record { coming = []; sent = [] };
}

abbrev socks : Sockets
socks =
    record closed {
      in_use = true;
      local_port = 53;
      bound = true;
      connected = true;
      remote_ip = 8 ∷ 8 ∷ 8 ∷ 8 ∷ [];
      remote_port = 4433;
    }
    ∷ replicate 15 closed

-- The card of the peer is stored by its answer.
stored : arp_lookup peer_ip (process_frame wire reply (socks, asking)).1.arp_table ≡ some peer_mac
unfolding process_frame arp_lookup eth_frame arp_packet
stored = refl

-- A header whose checksum is known.
checksum :
    ip_checksum (ip_header 115 0 17 0 (192 ∷ 168 ∷ 0 ∷ 1 ∷ []) (192 ∷ 168 ∷ 0 ∷ 199 ∷ [])) ≡ 0xb861
unfolding ip_checksum ip_header
checksum = refl

arp_store-Outcome_example :
    Outcome peer_ip our_mac known.arp_table (arp_store peer_ip our_mac known.arp_table)
arp_store-Outcome_example = arp_store-Outcome peer_ip our_mac known.arp_table (omega arith)

arp_resolve-reply_example : (arp_resolve wire peer_ip (socks, asking)).0 ≡ some peer_mac
unfolding arp_lookup arp_send_request
arp_resolve-reply_example =
    arp_resolve-reply wire our_mac peer_mac peer_mac peer_ip our_mac our_ip refl refl refl refl refl
      refl 0 socks asking (omega arith) (omega arith) refl (refl, refl)

udp_send-transmitted_example :
    udp_send (ip_send wire) 0 (codes "hi") (socks, known)
    ≡ transmitted wire
        (datagram peer_mac our_mac 1 (8 ∷ 8 ∷ 8 ∷ 8 ∷ []) 53 4433 (codes "hi"))
        (socks, known)
unfolding arp_lookup
udp_send-transmitted_example =
    udp_send-transmitted wire 0 (codes "hi") peer_mac socks known (omega arith) refl refl refl
      (omega arith, (omega arith, (omega arith, (omega arith, tt)))) (omega arith) refl

process_frame-request_example :
    Answers wire
      (arp_question our_mac peer_mac peer_mac peer_ip no_mac)
      peer_mac
      peer_ip
      (socks, asking)
process_frame-request_example =
    process_frame-request wire our_mac peer_mac peer_mac peer_ip no_mac socks asking refl refl refl
      refl refl refl (omega arith)
