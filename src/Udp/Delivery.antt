-- ===== src/Udp/Delivery.antt =====
-- Which socket has the data of a packet, and what it then receives.
use zigu.Base.{
  take-all, ℕ, zero, suc, ◌^◌, ◌<◌, ◌≤◌, ◌≡◌, ◌==◌, ◌&&◌, leb, Bool, Bool-cases, true, false, some,
  none, inl, inr, List, [], ◌∷◌, length, get_or, set, get_or-set_same, length-set, take, refl, ap,
  ◌∙◌, arith,
}
use zigu.Udp.{UdpSocket, Sockets, closed, deliver, udp_segment, udp_process_incoming, udp_recv}
use zigu.Udp.Segment.{udp_process_incoming-udp_segment}

-- The socket takes what comes in for the port.
abbrev pub takes : ℕ → UdpSocket → Bool
takes port sock = sock.in_use && (sock.bound && (sock.local_port == port))

-- The socket `idx` is the first one that takes what comes in for the port.
abbrev pub IsFirst : ℕ → Sockets → ℕ → Type 0
IsFirst port socks idx =
    (idx < length socks)
    × (takes port (get_or socks idx closed) ≡ true)
    × ((i : ℕ) → i < idx → takes port (get_or socks i closed) ≡ false)

abbrev pub received : List ℕ → ℕ → List ℕ → UdpSocket → UdpSocket
received src_ip src_port payload sock = record sock {
  rx = take 2048 payload;
  rx_src_ip = src_ip;
  rx_src_port = src_port;
  has_data = true;
}

deliver-first :
    (src_ip : List ℕ) (src_port dst_port : ℕ) (payload : List ℕ) (socks : Sockets) (idx : ℕ)
    → IsFirst dst_port socks idx
    → deliver src_ip src_port dst_port payload socks
      ≡ set socks idx (received src_ip src_port payload (get_or socks idx closed))
unfolding deliver
deliver-first src_ip src_port dst_port payload [] idx (below, taken, first) = refl
deliver-first src_ip src_port dst_port payload (sock ∷ socks) zero (below, taken, first) =
    rw (deliver, taken) refl
deliver-first src_ip src_port dst_port payload (sock ∷ socks) (suc idx) (below, taken, first) =
    let refused : takes dst_port sock ≡ false = first zero (omega arith) in
    let later =
      deliver-first src_ip src_port dst_port payload socks idx
        (omega arith, taken, λ i h. first (suc i) (omega (arith, h))) in
    rw (deliver, refused) (ap (λ l. sock ∷ l) later)

abbrev pub drained : UdpSocket → UdpSocket
drained sock = record sock { has_data = false; rx = [] }

pub udp_recv-ready :
    (idx len : ℕ) (socks : Sockets)
    → idx < 16
    → (get_or socks idx closed).in_use ≡ true
    → (get_or socks idx closed).has_data ≡ true
    → udp_recv idx len socks ≡ (
      some (take len (get_or socks idx closed).rx),
      set socks idx (drained (get_or socks idx closed)),
    )
unfolding udp_recv
udp_recv-ready idx len socks small used ready =
    let inside : leb 16 idx ≡ false = ground arith in rw (udp_recv, inside, used, ready) refl

pub udp_recv-empty :
    (idx len : ℕ) (socks : Sockets)
    → (get_or socks idx closed).has_data ≡ false
    → udp_recv idx len socks ≡ (none, socks)
unfolding udp_recv
udp_recv-empty idx len socks empty = elim (Bool-cases (leb 16 idx)) [
  | inl outside ↦ rw (udp_recv, outside) refl
  | inr inside ↦ elim (Bool-cases (get_or socks idx closed).in_use) [
    | inl used ↦ rw (udp_recv, inside, used, empty) refl
    | inr unused ↦ rw (udp_recv, inside, unused) refl
  ]
]

-- What `udpSend` builds for a port comes in, and the first socket that is bound to the port receives: it
-- has the data, as much of it as the buffer takes, and then nothing more.
pub udp_recv-udp_segment :
    (src_ip : List ℕ) (src_port dst_port : ℕ) (payload : List ℕ) (socks : Sockets) (idx len : ℕ)
    → src_port < 2 ^ 16
    → dst_port < 2 ^ 16
    → length payload ≤ 1464
    → idx < 16
    → IsFirst dst_port socks idx
    → let socks' = udp_process_incoming src_ip (udp_segment src_port dst_port payload) socks in
      let (data_out, socks'') = udp_recv idx len socks' in
      (data_out ≡ some (take len payload)) × ((udp_recv idx len socks'').0 ≡ none)
udp_recv-udp_segment src_ip src_port dst_port payload socks idx len h h' few small
      (below, taken, first) =
    let sock = get_or socks idx closed in
    let socks' = udp_process_incoming src_ip (udp_segment src_port dst_port payload) socks in
    let after = received src_ip src_port payload sock in
    let arrived : socks' ≡ set socks idx after =
      udp_process_incoming-udp_segment src_ip src_port dst_port payload socks h h' few
      ∙ deliver-first src_ip src_port dst_port payload socks idx (below, taken, first) in
    let there : get_or socks' idx closed ≡ after =
      ap (λ l. get_or l idx closed) arrived ∙ get_or-set_same socks idx after closed below in
    let used : sock.in_use ≡ true = ground arith in
    let whole : take 2048 payload ≡ payload = take-all 2048 payload (omega arith) in
    let ready =
      udp_recv-ready idx len socks' small (ap (λ (x : UdpSocket). x.in_use) there ∙ used)
        (ap (λ (x : UdpSocket). x.has_data) there) in
    let out : take len (get_or socks' idx closed).rx ≡ take len payload =
      ap (λ (x : UdpSocket). take len x.rx) there ∙ ap (take len) whole in
    let after_recv = set socks' idx (drained (get_or socks' idx closed)) in
    let below' : idx < length socks' = rw (ap length arrived ∙ length-set socks idx after) below in
    let empty : (get_or after_recv idx closed).has_data ≡ false =
      ap (λ (x : UdpSocket). x.has_data)
        (get_or-set_same socks' idx (drained (get_or socks' idx closed)) closed below') in
    (
      ap (λ r. r.0) ready ∙ ap some out,
      ap (λ r. (udp_recv idx len r.1).0) ready
          ∙ ap (λ r. r.0) (udp_recv-empty idx len after_recv empty),
    )
