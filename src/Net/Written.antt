-- ===== src/Net/Written.antt =====
-- The bytes of frames for kernel/net.zig, field by field: the question and the answer of ARP, and a UDP datagram.
use zigu.Base.{ℕ, ◌+◌, ◌/◌, ◌%◌, if◌then◌else◌, List, [], ◌∷◌, ◌++◌, length}
use zigu.Net.{ip_checksum}
use zigu.Net.Subnet.{is_local}

-- Who has 172.16.0.2? `mac` at `ip` asks; `tha` is not read.
abbrev pub arp_question : List ℕ → List ℕ → List ℕ → List ℕ → List ℕ → List ℕ
arp_question to from mac ip tha =
    to
    ++ (from
        ++ (8
            ∷ 6
            ∷ 0
            ∷ 1
            ∷ 8
            ∷ 0
            ∷ 6
            ∷ 4
            ∷ 0
            ∷ 1
            ∷ (mac ++ (ip ++ (tha ++ (172 ∷ 16 ∷ 0 ∷ 2 ∷ []))))))

-- 172.16.0.2 is at `our_mac`: the answer to `mac` at `ip`.
abbrev pub arp_answer : List ℕ → List ℕ → List ℕ → List ℕ
arp_answer our_mac mac ip =
    mac
    ++ (our_mac
        ++ (8 ∷ 6 ∷ 0 ∷ 1 ∷ 8 ∷ 0 ∷ 6 ∷ 4 ∷ 0 ∷ 2 ∷ (our_mac ++ (172 ∷ 16 ∷ 0 ∷ 2 ∷ (mac ++ ip)))))

-- The header of IPv4, from 172.16.0.2, without options, not to be fragmented, with a time to live of 64.
abbrev pub ipv4_bytes : ℕ → ℕ → ℕ → List ℕ → List ℕ
ipv4_bytes total_len id cksum dst_ip =
    0x45
    ∷ 0
    ∷ total_len / 256
    ∷ total_len % 256
    ∷ id / 256
    ∷ id % 256
    ∷ 0x40
    ∷ 0
    ∷ 64
    ∷ 17
    ∷ cksum / 256
    ∷ cksum % 256
    ∷ 172
    ∷ 16
    ∷ 0
    ∷ 2
    ∷ dst_ip

-- The segment of UDP, without a checksum.
abbrev pub udp_bytes : ℕ → ℕ → List ℕ → List ℕ
udp_bytes src_port dst_port payload =
    src_port / 256
    ∷ src_port % 256
    ∷ dst_port / 256
    ∷ dst_port % 256
    ∷ (8 + length payload) / 256
    ∷ (8 + length payload) % 256
    ∷ 0
    ∷ 0
    ∷ payload

-- A datagram in its frame; the checksum is that of the header with a checksum of 0.
abbrev pub datagram_of : ℕ → List ℕ → List ℕ → ℕ → List ℕ → ℕ → ℕ → List ℕ → List ℕ
datagram_of total_len mac our_mac id dst_ip src_port dst_port payload =
    let cksum = ip_checksum (ipv4_bytes total_len id 0 dst_ip) in
    mac
    ++ (our_mac
        ++ (8 ∷ 0 ∷ (ipv4_bytes total_len id cksum dst_ip ++ udp_bytes src_port dst_port payload)))

abbrev pub datagram : List ℕ → List ℕ → ℕ → List ℕ → ℕ → ℕ → List ℕ → List ℕ
datagram mac our_mac id dst_ip src_port dst_port payload =
    datagram_of (28 + length payload) mac our_mac id dst_ip src_port dst_port payload

-- The host that a packet is handed to: the destination on 172.16.0.x, else the gateway 172.16.0.1.
abbrev pub hop : List ℕ → List ℕ
hop dst_ip = if is_local dst_ip then dst_ip else 172 ∷ 16 ∷ 0 ∷ 1 ∷ []
