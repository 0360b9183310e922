-- ===== src/Udp.antt =====
-- The UDP sockets of kernel/net.zig: `UdpSocket` to `udpPollReadable`. `ipSend` is an argument
-- of `udpSend`: it is in Net.antt, which hands the packets that come in to this file.
pub mod Segment
pub mod Delivery
pub mod Use
mod Tests
use zigu.Base.{
  ℕ, zero, suc, ◌+◌, ◌-◌, ◌*◌, ◌/◌, ◌%◌, ◌==◌, ◌&&◌, ◌||◌, ltb, leb, not, Bool, true, false,
  if◌then◌else◌, Option, none, some, List, [], ◌∷◌, ◌++◌, length, get_or, set, take, replicate,
}

-- `rx` is `rx_buf[0..rx_len]`, the only part of the buffer that is ever read.
pub record UdpSocket : Type 0 where
  pub in_use : Bool
  pub local_port : ℕ
  pub remote_ip : List ℕ
  pub remote_port : ℕ
  pub bound : Bool
  pub connected : Bool
  pub rx : List ℕ
  pub rx_src_ip : List ℕ
  pub rx_src_port : ℕ
  pub has_data : Bool

abbrev pub no_ip : List ℕ
no_ip = 0 ∷ 0 ∷ 0 ∷ 0 ∷ []

-- The defaults of the fields.
abbrev pub closed : UdpSocket
closed = record {
  in_use = false;
  local_port = 0;
  remote_ip = no_ip;
  remote_port = 0;
  bound = false;
  connected = false;
  rx = [];
  rx_src_ip = no_ip;
  rx_src_port = 0;
  has_data = false;
}

abbrev pub max_udp_sockets : ℕ
max_udp_sockets = 16

abbrev pub rx_buf_size : ℕ
rx_buf_size = 2048

abbrev pub udp_hdr_size : ℕ
udp_hdr_size = 8

abbrev pub Sockets : Type 0
Sockets = List UdpSocket

unfoldable pub udp_socket_init : ℕ → Sockets → Sockets
udp_socket_init idx socks =
    if leb max_udp_sockets idx then socks else set socks idx (record closed { in_use = true })

unfoldable pub udp_socket_close : ℕ → Sockets → Sockets
udp_socket_close idx socks = if leb max_udp_sockets idx then socks else set socks idx closed

unfoldable pub udp_bind : ℕ → ℕ → Sockets → Bool × Sockets
udp_bind idx port socks =
    let sock = get_or socks idx closed in
    if leb max_udp_sockets idx
    then (false, socks)
    else if not sock.in_use
    then (false, socks)
    else (true, set socks idx (record sock { local_port = port; bound = true }))

unfoldable pub udp_connect : ℕ → List ℕ → ℕ → Sockets → Bool × Sockets
udp_connect idx ip port socks =
    let sock = get_or socks idx closed in
    if leb max_udp_sockets idx
    then (false, socks)
    else if not sock.in_use
    then (false, socks)
    else (
      true,
      set socks idx (record sock { remote_ip = ip; remote_port = port; connected = true }),
    )

-- The header and the data that `udpSend` puts into its buffer.
unfoldable pub udp_segment : ℕ → ℕ → List ℕ → List ℕ
udp_segment local_port remote_port payload =
    let udp_len = udp_hdr_size + length payload in
    local_port / 256
    ∷ local_port % 256
    ∷ remote_port / 256
    ∷ remote_port % 256
    ∷ udp_len / 256
    ∷ udp_len % 256
    ∷ 0
    ∷ 0
    ∷ payload

abbrev pub proto_udp : ℕ
proto_udp = 17

-- `ip_send` is `ipSend`, the destination, the protocol and the payload, over the state of the layers below
-- and the sockets: packets come in while it waits.
unfoldable pub udp_send :
    {T : Type 0}
    → (List ℕ → ℕ → List ℕ → Sockets × T → Bool × (Sockets × T))
    → ℕ
    → List ℕ
    → Sockets × T
    → Bool × (Sockets × T)
unfolding udp_segment
udp_send ip_send idx payload (socks, lower) =
    let sock = get_or socks idx closed in
    if leb max_udp_sockets idx
    then (false, (socks, lower))
    else if not sock.in_use || not sock.connected
    then (false, (socks, lower))
    else if ltb (1472 - udp_hdr_size) (length payload)
    then (false, (socks, lower))
    else ip_send sock.remote_ip proto_udp (udp_segment sock.local_port sock.remote_port payload)
        (socks, lower)

-- The loop over the sockets: the first that is bound to the port has the data.
pub deliver : List ℕ → ℕ → ℕ → List ℕ → Sockets → Sockets
deliver src_ip src_port dst_port payload [] = []
deliver src_ip src_port dst_port payload (sock ∷ socks) =
    let rest = deliver src_ip src_port dst_port payload socks in
    if sock.in_use && (sock.bound && (sock.local_port == dst_port))
    then record sock {
      rx = take rx_buf_size payload;
      rx_src_ip = src_ip;
      rx_src_port = src_port;
      has_data = true;
    }
      ∷ socks
    else sock ∷ rest

-- The two bytes from `i` on, big-endian.
abbrev pub word : List ℕ → ℕ → ℕ
word payload i = get_or payload i 0 * 256 + get_or payload (suc i) 0

abbrev pub skip {ℓ} : {A : Type ℓ} → ℕ → List A → List A
skip zero xs = xs
skip (suc n) [] = []
skip (suc n) (x ∷ xs) = skip n xs

pub udp_process_incoming : List ℕ → List ℕ → Sockets → Sockets
unfolding deliver
udp_process_incoming src_ip payload socks =
    let udp_len_raw = word payload 4 in
    if ltb (length payload) udp_hdr_size
    then socks
    else if ltb udp_len_raw udp_hdr_size || ltb (length payload) udp_len_raw
    then socks
    else deliver src_ip (word payload 0) (word payload 2)
        (take (udp_len_raw - udp_hdr_size) (skip udp_hdr_size payload)) socks

-- What is received, and the sockets; `none` when there is nothing.
unfoldable pub udp_recv : ℕ → ℕ → Sockets → Option (List ℕ) × Sockets
udp_recv idx len socks =
    let sock = get_or socks idx closed in
    if leb max_udp_sockets idx
    then (none, socks)
    else if not sock.in_use || not sock.has_data
    then (none, socks)
    else (some (take len sock.rx), set socks idx (record sock { has_data = false; rx = [] }))

unfoldable pub udp_poll_readable : ℕ → Sockets → Bool
udp_poll_readable idx socks =
    let sock = get_or socks idx closed in
    if leb max_udp_sockets idx then false else sock.in_use && sock.has_data
