-- ===== src/Net.antt =====
-- The layers of kernel/net.zig below UDP: Ethernet, ARP and IPv4. The network device, kernel/virtio_net.zig,
-- is a parameter.
pub mod Checksum
pub mod Resolve
pub mod Incoming
pub mod Frames
pub mod Subnet
pub mod Written
pub mod Sending
pub mod Sample
pub mod Use
mod Tests
use Prim.Native.Nat.{bit_and}
use zigu.Base.{
  ℕ, zero, suc, ◌+◌, ◌-◌, ◌*◌, ◌/◌, ◌%◌, ◌^◌, ◌<◌, ◌≤◌, ◌≡◌, ◌==◌, ◌&&◌, ◌||◌, ltb, not, Bool, true,
  false, if◌then◌else◌, Option, none, some, List, [], ◌∷◌, ◌++◌, length, get_or, take,
}
use zigu.Udp.{Sockets, word, skip, proto_udp, udp_process_incoming}

-- The driver, over its state: the address of the card, `txPacket`, `rxPoll`, and what is assumed of it: there is a
-- bound on the frames that `rxPoll` hands out before it has none, which falls with each frame and which
-- sending does not raise.
pub record Device (D : Type 0) : Type 0 where
  pub get_mac : D → List ℕ
  pub tx_packet : List ℕ → D → Bool × D
  pub rx_poll : D → Option (List ℕ) × D
  pub pending : D → ℕ
  pub poll_falls :
      (d : D) (frame : List ℕ) → (rx_poll d).0 ≡ some frame → pending (rx_poll d).1 < pending d
  pub send_keeps : (d : D) (frame : List ℕ) → pending (tx_packet frame d).1 ≤ pending d

pub record ArpEntry : Type 0 where
  pub ip : List ℕ
  pub mac : List ℕ
  pub valid : Bool

abbrev pub no_entry : ArpEntry
no_entry = record { ip = 0 ∷ 0 ∷ 0 ∷ 0 ∷ []; mac = 0 ∷ 0 ∷ 0 ∷ 0 ∷ 0 ∷ 0 ∷ []; valid = false }

-- `arp_table`, `ip_id_counter`, and the state of the device.
pub record Lower (D : Type 0) : Type 0 where
  pub arp_table : List ArpEntry
  pub ip_id_counter : ℕ
  pub device : D

abbrev pub our_ip : List ℕ
our_ip = 172 ∷ 16 ∷ 0 ∷ 2 ∷ []

abbrev pub our_netmask : List ℕ
our_netmask = 255 ∷ 255 ∷ 255 ∷ 0 ∷ []

abbrev pub gateway_ip : List ℕ
gateway_ip = 172 ∷ 16 ∷ 0 ∷ 1 ∷ []

abbrev pub broadcast_mac : List ℕ
broadcast_mac = 255 ∷ 255 ∷ 255 ∷ 255 ∷ 255 ∷ 255 ∷ []

abbrev pub ethertype_ipv4 : ℕ
ethertype_ipv4 = 0x0800

abbrev pub ethertype_arp : ℕ
ethertype_arp = 0x0806

abbrev pub eth_hdr_size : ℕ
eth_hdr_size = 14

abbrev pub arp_size : ℕ
arp_size = 28

abbrev pub ipv4_hdr_size : ℕ
ipv4_hdr_size = 20

abbrev pub ip_eql : List ℕ → List ℕ → Bool
ip_eql a b =
    get_or a 0 0 == get_or b 0 0
    && (get_or a 1 0 == get_or b 1 0
        && (get_or a 2 0 == get_or b 2 0 && get_or a 3 0 == get_or b 3 0))

pub same_subnet : List ℕ → List ℕ → List ℕ → Bool
same_subnet a b mask =
    let at = λ (x : List ℕ) (i : ℕ). bit_and (get_or x i 0) (get_or mask i 0) in
    at a 0 == at b 0 && (at a 1 == at b 1 && (at a 2 == at b 2 && at a 3 == at b 3))

-- `n` bytes from `i` on.
abbrev pub slice : List ℕ → ℕ → ℕ → List ℕ
slice xs i n = take n (skip i xs)

-- The frame that `ethSend` builds.
pub eth_frame : List ℕ → List ℕ → ℕ → List ℕ → List ℕ
eth_frame dst_mac our_mac ethertype payload =
    dst_mac ++ (our_mac ++ ((ethertype / 256) ∷ (ethertype % 256) ∷ payload))

pub parse_eth_header : List ℕ → Option (ℕ × List ℕ)
parse_eth_header frame =
    if ltb (length frame) eth_hdr_size then none else some (word frame 12, skip eth_hdr_size frame)

pub arp_lookup : List ℕ → List ArpEntry → Option (List ℕ)
arp_lookup ip [] = none
arp_lookup ip (entry ∷ table) =
    if entry.valid && ip_eql entry.ip ip then some entry.mac else arp_lookup ip table

-- The first loop of `arpStore`: the valid entry of the address, if there is one.
pub arp_update : List ℕ → List ℕ → List ArpEntry → Option (List ArpEntry)
arp_update ip mac [] = none
arp_update ip mac (entry ∷ table) =
    let rest = arp_update ip mac table in
    if entry.valid && ip_eql entry.ip ip
    then some (record entry { mac = mac } ∷ table)
    else elim rest [ none ↦ none | some table' ↦ some (entry ∷ table') ]

-- The second loop: the first entry that is not valid.
pub arp_fill : List ℕ → List ℕ → List ArpEntry → Option (List ArpEntry)
arp_fill ip mac [] = none
arp_fill ip mac (entry ∷ table) =
    let rest = arp_fill ip mac table in
    if not entry.valid
    then some (record { ip = ip; mac = mac; valid = true } ∷ table)
    else elim rest [ none ↦ none | some table' ↦ some (entry ∷ table') ]

-- The table is full.
abbrev pub arp_overwrite : List ℕ → List ℕ → List ArpEntry → List ArpEntry
arp_overwrite ip mac [] = []
arp_overwrite ip mac (entry ∷ table) = record { ip = ip; mac = mac; valid = true } ∷ table

pub arp_store : List ℕ → List ℕ → List ArpEntry → List ArpEntry
unfolding arp_update arp_fill
arp_store ip mac table = elim (arp_update ip mac table) [
  | some table' ↦ table'
  | none ↦ elim (arp_fill ip mac table) [ some table' ↦ table' | none ↦ arp_overwrite ip mac table ]
]

-- `ArpPacket`, with the operation 1 for a request and 2 for a reply.
pub arp_packet : ℕ → List ℕ → List ℕ → List ℕ → List ℕ → List ℕ
arp_packet oper sha spa tha tpa = 0 ∷ 1 ∷ 8 ∷ 0 ∷ 6 ∷ 4 ∷ 0 ∷ oper ∷ (sha ++ (spa ++ (tha ++ tpa)))

-- The words of `ipChecksum`, the last of an odd number of bytes on the left of a word.
pub sum_words : List ℕ → ℕ
sum_words [] = 0
sum_words (a ∷ []) = a * 256
sum_words (a ∷ b ∷ bytes) = a * 256 + b + sum_words bytes

-- `while (sum > 0xFFFF)`: two rounds are enough for 32 bits.
pub fold_carry : ℕ → ℕ → ℕ
fold_carry zero sum = sum
fold_carry (suc fuel) sum =
    let rest = fold_carry fuel (sum % 65536 + sum / 65536) in if ltb 0xffff sum then rest else sum

pub ip_checksum : List ℕ → ℕ
unfolding sum_words fold_carry
ip_checksum bytes = 0xffff - fold_carry 2 (sum_words bytes)

-- `Ipv4Header`, with the checksum `cksum`.
pub ip_header : ℕ → ℕ → ℕ → ℕ → List ℕ → List ℕ → List ℕ
ip_header total_len id protocol cksum src dst =
    0x45
    ∷ 0
    ∷ (total_len / 256)
    ∷ (total_len % 256)
    ∷ (id / 256)
    ∷ (id % 256)
    ∷ 0x40
    ∷ 0
    ∷ 64
    ∷ protocol
    ∷ (cksum / 256)
    ∷ (cksum % 256)
    ∷ (src ++ dst)

-- The packet that `ipSend` builds: the checksum is that of the header with a checksum of 0.
pub ip_packet : ℕ → ℕ → List ℕ → List ℕ → List ℕ → List ℕ
unfolding ip_header ip_checksum
ip_packet id protocol src dst payload =
    let total_len = ipv4_hdr_size + length payload in
    let cksum = ip_checksum (ip_header total_len id protocol 0 src dst) in
    ip_header total_len id protocol cksum src dst ++ payload

pub ip_process : List ℕ → Sockets → Sockets
ip_process payload socks =
    let ihl = get_or payload 0 0 % 16 * 4 in
    if ltb (length payload) ipv4_hdr_size
    then socks
    else if not (get_or payload 0 0 / 16 == 4)
    then socks
    else if ltb ihl ipv4_hdr_size || ltb (length payload) ihl
    then socks
    else if not (ip_eql (slice payload 16 4) our_ip)
    then socks
    else if get_or payload 9 0 == proto_udp
    then udp_process_incoming (slice payload 12 4) (skip ihl payload) socks
    else socks

module _ {D : Type 0} (dev : Device D) where
  pub eth_send : List ℕ → ℕ → List ℕ → Lower D → Bool × Lower D
  unfolding eth_frame
  eth_send dst_mac ethertype payload lower =
      let frame = eth_frame dst_mac (dev.get_mac lower.device) ethertype payload in
      let (sent, device) = dev.tx_packet frame lower.device in
      if ltb 1500 (length payload) then (false, lower) else (sent, record lower { device = device })

  pub arp_send_request : List ℕ → Lower D → Lower D
  unfolding eth_send arp_packet
  arp_send_request target_ip lower =
      let pkt =
        arp_packet 1 (dev.get_mac lower.device) our_ip (0 ∷ 0 ∷ 0 ∷ 0 ∷ 0 ∷ 0 ∷ []) target_ip in
      (eth_send broadcast_mac ethertype_arp pkt lower).1

  pub arp_send_reply : List ℕ → List ℕ → Lower D → Lower D
  unfolding eth_send arp_packet
  arp_send_reply target_mac target_ip lower =
      let pkt = arp_packet 2 (dev.get_mac lower.device) our_ip target_mac target_ip in
      (eth_send target_mac ethertype_arp pkt lower).1

  pub arp_process : List ℕ → Lower D → Lower D
  unfolding arp_store arp_send_reply
  arp_process payload lower =
      let sha = slice payload 8 6 in
      let spa = slice payload 14 4 in
      let stored = record lower { arp_table = arp_store spa sha lower.arp_table } in
      if ltb (length payload) arp_size
      then lower
      else if not (get_or payload 0 0 == 0) || not (get_or payload 1 0 == 1)
      then lower
      else if not (get_or payload 2 0 == 8) || not (get_or payload 3 0 == 0)
      then lower
      else if word payload 6 == 1 && ip_eql (slice payload 24 4) our_ip
      then arp_send_reply sha spa stored
      else stored

  -- One frame: the branches of the `switch`.
  pub process_frame : List ℕ → Sockets × Lower D → Sockets × Lower D
  unfolding parse_eth_header arp_process ip_process
  process_frame frame (socks, lower) = elim (parse_eth_header frame) [
    | none ↦ (socks, lower)
    | some (ethertype, payload) ↦
        if ethertype == ethertype_arp
        then (socks, arp_process payload lower)
        else if ethertype == ethertype_ipv4
        then (ip_process payload socks, lower)
        else (socks, lower)
  ]

  -- The loop of `processIncoming`, with the polls that are left.
  pub process_polls : ℕ → Sockets × Lower D → Sockets × Lower D
  unfolding process_frame
  process_polls zero s = s
  process_polls (suc polls) (socks, lower) =
      let (frame, device) = dev.rx_poll lower.device in
      let polled = record lower { device = device } in
      elim frame [
        | none ↦ (socks, polled)
        | some bytes ↦ process_polls polls (process_frame bytes (socks, polled))
      ]

  -- The loop ends where the driver has no frame, within the bound that the record of the driver assumes.
  pub process_incoming : Sockets × Lower D → Sockets × Lower D
  unfolding process_polls
  process_incoming s = process_polls (suc (dev.pending s.1.device)) s

  -- The inner loop of `arpResolve`, with the rounds that are left.
  pub arp_spin : ℕ → List ℕ → Sockets × Lower D → Option (List ℕ) × (Sockets × Lower D)
  unfolding process_incoming arp_lookup
  arp_spin zero ip s = (none, s)
  arp_spin (suc spins) ip s =
      let polled = process_incoming s in
      elim (arp_lookup ip polled.1.arp_table) [
        | some mac ↦ (some mac, polled)
        | none ↦ arp_spin spins ip polled
      ]

  -- The outer loop; `spins` is the bound of the inner one.
  pub arp_attempts : ℕ → ℕ → List ℕ → Sockets × Lower D → Option (List ℕ) × (Sockets × Lower D)
  unfolding arp_spin arp_send_request
  arp_attempts spins zero ip s = (none, s)
  arp_attempts spins (suc attempts) ip (socks, lower) =
      let (found, polled) = arp_spin spins ip (socks, arp_send_request ip lower) in
      elim found [ some mac ↦ (some mac, polled) | none ↦ arp_attempts spins attempts ip polled ]

  pub arp_resolve : List ℕ → Sockets × Lower D → Option (List ℕ) × (Sockets × Lower D)
  unfolding arp_attempts arp_lookup
  arp_resolve ip (socks, lower) = elim (arp_lookup ip lower.arp_table) [
    | some mac ↦ (some mac, (socks, lower))
    | none ↦ arp_attempts 100000 5 ip (socks, lower)
  ]

  -- What `ipSend` does once the address is resolved.
  pub send_resolved : List ℕ → Option (List ℕ) × (Sockets × Lower D) → Bool × (Sockets × Lower D)
  unfolding eth_send
  send_resolved packet (none, s) = (false, s)
  send_resolved packet (some dst_mac, (socks, lower)) =
      let (sent, lower') = eth_send dst_mac ethertype_ipv4 packet lower in (sent, (socks, lower'))

  pub ip_send : List ℕ → ℕ → List ℕ → Sockets × Lower D → Bool × (Sockets × Lower D)
  unfolding ip_packet same_subnet arp_resolve send_resolved
  ip_send dst_ip protocol payload (socks, lower) =
      let packet = ip_packet lower.ip_id_counter protocol our_ip dst_ip payload in
      let counted = record lower { ip_id_counter = (lower.ip_id_counter + 1) % 2 ^ 16 } in
      let next_hop = if not (same_subnet dst_ip our_ip our_netmask) then gateway_ip else dst_ip in
      if ltb (1500 - ipv4_hdr_size) (length payload)
      then (false, (socks, lower))
      else send_resolved packet (arp_resolve next_hop (socks, counted))
