-- ===== src/Abi/Net/Agreement.antt =====
-- The table of the handles and the sockets name the same sockets as open.
pub mod Operations
pub mod Calls
use zigu.Base.{
  ℕ, zero, suc, ◌+◌, ◌%◌, ◌^◌, ◌<◌, ◌≤◌, ◌≡◌, ◌≢◌, ◌==◌, ◌&&◌, ◌||◌, leb, not, Bool, Bool-cases,
  ==→eq, true, false, if◌then◌else◌, Option, none, some, Option-cases, inl, inr, List, [], ◌∷◌,
  length, get_or, get_or-set_same, get_or-set_other, length-set, set, refl, ap, subst, sym, ◌∙◌,
  arith,
}
use zigu.Udp.{UdpSocket, Sockets, closed, udp_socket_init, udp_socket_close}
use zigu.Udp.Use.{SameUse, use_of}
use zigu.Abi.Codes.{ErrorCode, handle_net, tag}
use zigu.Abi.Handles.{Entry, unused, handle_id, alloc_handle, validate_handle, close_handle}
use zigu.Abi.Handles.Table.{
  IsFree, IsValid, GivesOut, alloc_handle-GivesOut, validate_handle-IsValid,
}
use zigu.Abi.Handles.Revoked.{close_handle-valid, freed}
use zigu.Abi.Net.{NetState}

-- Sixteen entries and sockets, with generations of 16 bits; an entry is in use where its socket is.
abbrev pub Agree : List Entry → Sockets → Type 0
Agree table socks =
    (length table ≡ 16)
    × (length socks ≡ 16)
    × ((id : ℕ)
        → ((get_or table id unused).gen < 2 ^ 16)
          × ((get_or table id unused).in_use ≡ use_of socks id))

pub SameUse-Agree :
    (table : List Entry) (socks socks' : Sockets)
    → SameUse socks socks'
    → Agree table socks
    → Agree table socks'
SameUse-Agree table socks socks' (len, same) (n, m, agree) =
    (n, len ∙ m, λ id. let (small, used) = agree id in (small, used ∙ sym (same id)))

-- An entry and its socket change together.
set-Agree :
    (table : List Entry) (socks : Sockets) (k : ℕ) (e : Entry) (sock : UdpSocket)
    → k < 16
    → e.gen < 2 ^ 16
    → e.in_use ≡ sock.in_use
    → Agree table socks
    → Agree (set table k e) (set socks k sock)
set-Agree table socks k e sock below small used (n, m, agree) = (
  length-set table k e ∙ n,
  length-set socks k sock ∙ m,
  λ id. elim (Bool-cases (k == id)) [
    | inl same ↦
        let eq : k ≡ id = ==→eq k id same in
        let here = get_or-set_same table k e unused (omega (arith, below, n)) in
        let there = get_or-set_same socks k sock closed (omega (arith, below, m)) in
        subst
          (λ i.
            ((get_or (set table k e) i unused).gen < 2 ^ 16)
            × ((get_or (set table k e) i unused).in_use ≡ use_of (set socks k sock) i))
          eq
          (
            rw here small,
            ap (λ (x : Entry). x.in_use) here ∙ used ∙ sym (ap (λ (x : UdpSocket). x.in_use) there),
          )
    | inr other ↦
        let apart : k ≢ id = λ e'. ground arith in
        let (small', used') = agree id in
        (
          rw (get_or-set_other table k id e unused apart) small',
          ap (λ (x : Entry). x.in_use) (get_or-set_other table k id e unused apart)
              ∙ used'
              ∙ sym (
                  ap (λ (x : UdpSocket). x.in_use) (get_or-set_other socks k id sock closed apart)),
        )
  ],
)

-- A handle that is given out opens its socket.
pub alloc-Agree :
    (table : List Entry) (socks : Sockets) (out : (ErrorCode × Option ℕ) × List Entry)
    → Agree table socks
    → GivesOut (tag handle_net) table out
    → Agree out.1
        (elim out.0.1 [ none ↦ socks | some handle ↦ udp_socket_init (handle_id handle) socks ])
unfolding udp_socket_init
alloc-Agree table socks ((rc, none), table') agree (code, same, busy) =
    subst (λ t. Agree t socks) (sym same) agree
alloc-Agree table socks ((rc, some handle), table') agree
      (code, (id, (below, free), valid, new, kept)) =
    let (n, m, each) = agree in
    let small : id < 16 = omega (arith, below, n) in
    let inside : leb 16 id ≡ false = ground arith in
    let opened =
      set-Agree table socks id (record (get_or table id unused) { in_use = true })
        (record closed { in_use = true }) small (each id).0 refl agree in
    rw (new, valid.1) rw (udp_socket_init, inside) opened

-- A handle that is closed closes its socket.
pub close-Agree :
    (table : List Entry) (socks : Sockets) (sock id : ℕ)
    → Agree table socks
    → validate_handle table (tag handle_net) sock ≡ some id
    → Agree (close_handle table (tag handle_net) sock).1 (udp_socket_close id socks)
unfolding udp_socket_close
close-Agree table socks sock id agree h =
    let valid = (validate_handle-IsValid table (tag handle_net) sock id).0 h in
    let (t, i, below, used, gen) = valid in
    let small : id < 16 = omega (arith, below, agree.0) in
    let inside : leb 16 id ≡ false = ground arith in
    let shut = set-Agree table socks id (freed table id) closed small (omega arith) refl agree in
    rw (close_handle-valid table (tag handle_net) sock id valid) rw (udp_socket_close, inside) shut
