-- ===== src/Udp/Use.antt =====
-- Which operations leave the same sockets in use.
use zigu.Base.{
  ℕ, zero, suc, ◌-◌, ◌≡◌, ◌⊎◌, ◌==◌, ◌&&◌, ◌||◌, leb, ltb, not, Bool, Bool-cases, true, false,
  if◌then◌else◌, inl, inr, List, [], ◌∷◌, length, get_or, length-set, set, take, refl, ap, subst,
  sym, ◌∙◌,
}
use zigu.Udp.{
  UdpSocket, Sockets, closed, udp_bind, udp_connect, udp_recv, udp_process_incoming, deliver, word,
  skip,
}

abbrev pub use_of : Sockets → ℕ → Bool
use_of socks id = (get_or socks id closed).in_use

-- The same sockets are in use.
abbrev pub SameUse : Sockets → Sockets → Type 0
SameUse socks socks' =
    (length socks' ≡ length socks) × ((id : ℕ) → use_of socks' id ≡ use_of socks id)

pub SameUse-trans : (a b c : Sockets) → SameUse a b → SameUse b c → SameUse a c
SameUse-trans a b c (len, same) (len', same') = (len' ∙ len, λ id. same' id ∙ same id)

-- A socket is replaced by one that is in use if it was.
set-use :
    (socks : Sockets) (k id : ℕ) (v : UdpSocket)
    → v.in_use ≡ use_of socks k
    → use_of (set socks k v) id ≡ use_of socks id
set-use [] k id v h = refl
set-use (sock ∷ socks) zero zero v h = h
set-use (sock ∷ socks) zero (suc id) v h = refl
set-use (sock ∷ socks) (suc k) zero v h = refl
set-use (sock ∷ socks) (suc k) (suc id) v h = set-use socks k id v h

set-SameUse :
    (socks : Sockets) (k : ℕ) (v : UdpSocket)
    → v.in_use ≡ use_of socks k
    → SameUse socks (set socks k v)
set-SameUse socks k v h = (length-set socks k v, λ id. set-use socks k id v h)

pub SameUse-refl : (socks : Sockets) → SameUse socks socks
SameUse-refl socks = (refl, λ id. refl)

-- Either nothing changes, or one socket that is in use is replaced by one in use.
abbrev Replaces : ℕ → Sockets → Sockets → Type 0
Replaces idx socks socks' =
    (socks' ≡ socks)
    ⊎ ((v : UdpSocket) × (v.in_use ≡ use_of socks idx) × (socks' ≡ set socks idx v))

Replaces-SameUse :
    (idx : ℕ) (socks socks' : Sockets) → Replaces idx socks socks' → SameUse socks socks'
Replaces-SameUse idx socks socks' (inl e) = subst (SameUse socks) (sym e) (SameUse-refl socks)
Replaces-SameUse idx socks socks' (inr (v, used, e)) =
    subst (SameUse socks) (sym e) (set-SameUse socks idx v used)

pub udp_bind-SameUse : (idx port : ℕ) (socks : Sockets) → SameUse socks (udp_bind idx port socks).1
unfolding udp_bind
udp_bind-SameUse idx port socks =
    let sock = get_or socks idx closed in
    let replaced : Replaces idx socks (udp_bind idx port socks).1 = elim (Bool-cases (leb 16 idx)) [
      | inl outside ↦ inl (rw (udp_bind, outside) refl)
      | inr inside ↦ elim (Bool-cases sock.in_use) [
        | inl used ↦ inr (
          record sock { local_port = port; bound = true },
          refl,
          rw (udp_bind, inside, used) refl,
        )
        | inr free ↦ inl (rw (udp_bind, inside, free) refl)
      ]
    ] in
    Replaces-SameUse idx socks (udp_bind idx port socks).1 replaced

pub udp_connect-SameUse :
    (idx : ℕ) (ip : List ℕ) (port : ℕ) (socks : Sockets)
    → SameUse socks (udp_connect idx ip port socks).1
unfolding udp_connect
udp_connect-SameUse idx ip port socks =
    let sock = get_or socks idx closed in
    let replaced : Replaces idx socks (udp_connect idx ip port socks).1 =
      elim (Bool-cases (leb 16 idx)) [
        | inl outside ↦ inl (rw (udp_connect, outside) refl)
        | inr inside ↦ elim (Bool-cases sock.in_use) [
          | inl used ↦ inr (
            record sock { remote_ip = ip; remote_port = port; connected = true },
            refl,
            rw (udp_connect, inside, used) refl,
          )
          | inr free ↦ inl (rw (udp_connect, inside, free) refl)
        ]
      ] in
    Replaces-SameUse idx socks (udp_connect idx ip port socks).1 replaced

pub udp_recv-SameUse : (idx len : ℕ) (socks : Sockets) → SameUse socks (udp_recv idx len socks).1
unfolding udp_recv
udp_recv-SameUse idx len socks =
    let sock = get_or socks idx closed in
    let replaced : Replaces idx socks (udp_recv idx len socks).1 = elim (Bool-cases (leb 16 idx)) [
      | inl outside ↦ inl (rw (udp_recv, outside) refl)
      | inr inside ↦ elim (Bool-cases (not sock.in_use || not sock.has_data)) [
        | inl empty ↦ inl (rw (udp_recv, inside, empty) refl)
        | inr ready ↦
            inr (record sock { has_data = false; rx = [] }, refl, rw (udp_recv, inside, ready) refl)
      ]
    ] in
    Replaces-SameUse idx socks (udp_recv idx len socks).1 replaced

pub if-SameUse :
    (b : Bool) (socks x y : Sockets)
    → SameUse socks x
    → SameUse socks y
    → SameUse socks (if b then x else y)
if-SameUse true socks x y h h' = h
if-SameUse false socks x y h h' = h'

cons-SameUse :
    (v sock : UdpSocket) (socks socks' : Sockets)
    → v.in_use ≡ sock.in_use
    → SameUse socks socks'
    → SameUse (sock ∷ socks) (v ∷ socks')
cons-SameUse v sock socks socks' used (len, same) = (ap suc len, go)
  where
    go : (id : ℕ) → use_of (v ∷ socks') id ≡ use_of (sock ∷ socks) id
    go zero = used
    go (suc id) = same id

deliver-SameUse :
    (src_ip : List ℕ) (src_port dst_port : ℕ) (payload : List ℕ) (socks : Sockets)
    → SameUse socks (deliver src_ip src_port dst_port payload socks)
unfolding deliver
deliver-SameUse src_ip src_port dst_port payload [] = SameUse-refl []
deliver-SameUse src_ip src_port dst_port payload (sock ∷ socks) =
    let rest = deliver src_ip src_port dst_port payload socks in
    let v = record sock {
      rx = take 2048 payload;
      rx_src_ip = src_ip;
      rx_src_port = src_port;
      has_data = true;
    } in
    if-SameUse (sock.in_use && (sock.bound && (sock.local_port == dst_port))) (sock ∷ socks)
      (v ∷ socks) (sock ∷ rest) (cons-SameUse v sock socks socks refl (SameUse-refl socks))
      (cons-SameUse sock sock socks rest refl
        (deliver-SameUse src_ip src_port dst_port payload socks))

pub udp_process_incoming-SameUse :
    (src_ip payload : List ℕ) (socks : Sockets)
    → SameUse socks (udp_process_incoming src_ip payload socks)
unfolding udp_process_incoming
udp_process_incoming-SameUse src_ip payload socks =
    let udp_len_raw = word payload 4 in
    let data_bytes = take (udp_len_raw - 8) (skip 8 payload) in
    let delivered = deliver src_ip (word payload 0) (word payload 2) data_bytes socks in
    let whole = deliver-SameUse src_ip (word payload 0) (word payload 2) data_bytes socks in
    let short = ltb udp_len_raw 8 || ltb (length payload) udp_len_raw in
    if-SameUse (ltb (length payload) 8) socks socks (if short then socks else delivered)
      (SameUse-refl socks) (if-SameUse short socks socks delivered (SameUse-refl socks) whole)
