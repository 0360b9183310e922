-- ===== src/Abi/Net/Agreement/Calls.antt =====
-- Histories of calls on the network and on the capabilities of kernel/abi.zig.
use zigu.Base.{ℕ, zero, suc, replicate, ◌≡◌, Bool, List, [], ◌∷◌, get_or, refl, ap, sym, ◌∙◌, arith}
use zigu.Udp.{UdpSocket, closed, udp_bind, udp_connect}
use zigu.Udp.Use.{udp_bind-SameUse, udp_connect-SameUse}
use zigu.Abi.Caps.History.{Op, boot}
use zigu.Abi.Caps.History as Caps
use zigu.Abi.Handles.{Entry, unused}
use zigu.Net.{Device, no_entry}
use zigu.Abi.Net.{NetState, net_socket, net_bind, net_connect, net_send, net_recv, net_close}
use zigu.Abi.Net.Agreement.Operations.{
  Agrees, net_socket-Agrees, on_address-Agrees, net_send-Agrees, net_recv-Agrees, net_close-Agrees,
}

-- The calls, with their arguments.
pub data Call : Type 0 where
  on_caps : Op → Call
  socket : ℕ → ℕ → ℕ → Bool → Call
  bind : ℕ → Bool → List ℕ → Call
  connect : ℕ → Bool → List ℕ → Call
  send : ℕ → Bool → List ℕ → Call
  recv : ℕ → Bool → ℕ → Call
  close : ℕ → Call

pub step : {T : Type 0} → Device T → Call → NetState T → NetState T
unfolding net_socket net_bind net_connect net_send net_recv net_close
step dev (on_caps op) s = record s { caps = Caps.step op s.caps }
step dev (socket domain type_ protocol handle_out) s =
    (net_socket domain type_ protocol handle_out s).1
step dev (bind sock null addr) s = (net_bind sock null addr s).1
step dev (connect sock null addr) s = (net_connect sock null addr s).1
step dev (send sock null buf) s = (net_send dev sock null buf s).1
step dev (recv sock null len) s = (net_recv dev sock null len s).1
step dev (close sock) s = (net_close sock s).1

pub run : {T : Type 0} → Device T → List Call → NetState T → NetState T
unfolding step
run dev [] s = s
run dev (call ∷ calls) s = run dev calls (step dev call s)

module _ {T : Type 0} where
  step-Agrees :
      (dev : Device T) (call : Call) (s : NetState T) → Agrees s → Agrees (step dev call s)
  unfolding step net_bind net_connect
  step-Agrees dev (on_caps op) s h = h
  step-Agrees dev (socket domain type_ protocol handle_out) s h =
      net_socket-Agrees domain type_ protocol handle_out s h
  step-Agrees dev (bind sock null addr) s h =
      on_address-Agrees (λ idx ip port socks. udp_bind idx port socks)
        (λ idx ip port socks. udp_bind-SameUse idx port socks) sock null addr s h
  step-Agrees dev (connect sock null addr) s h =
      on_address-Agrees udp_connect udp_connect-SameUse sock null addr s h
  step-Agrees dev (send sock null buf) s h = net_send-Agrees dev sock null buf s h
  step-Agrees dev (recv sock null len) s h = net_recv-Agrees dev sock null len s h
  step-Agrees dev (close sock) s h = net_close-Agrees sock s h

-- From a state with sixteen entries and sixteen sockets, of which an entry is in use exactly where its
-- socket is, and with generations of 16 bits, every history of calls, on the capabilities too, leads to
-- such a state.
pub run-Agrees :
    {T : Type 0} (dev : Device T) (calls : List Call) (s : NetState T)
    → Agrees s
    → Agrees (run dev calls s)
unfolding run
run-Agrees dev [] s h = h
run-Agrees dev (call ∷ calls) s h =
    run-Agrees dev calls (step dev call s) (step-Agrees dev call s h)

-- The state of the kernel's start.
abbrev pub start : {T : Type 0} → T → NetState T
start device = record {
  caps = boot;
  net_table = replicate 16 unused;
  udp_sockets = replicate 16 closed;
  lower = record { arp_table = replicate 8 no_entry; ip_id_counter = 1; device = device };
}

get_or-replicate : {A : Type 0} (n i : ℕ) (a : A) → get_or (replicate n a) i a ≡ a
get_or-replicate zero i a = refl
get_or-replicate (suc n) zero a = refl
get_or-replicate (suc n) (suc i) a = get_or-replicate n i a

pub start-Agrees : {T : Type 0} (device : T) → Agrees (start device)
start-Agrees device = (
  refl,
  refl,
  λ id.
      let entry = get_or-replicate 16 id unused in
      let sock = get_or-replicate 16 id closed in
      (
        omega (arith, ap (λ (e : Entry). e.gen) entry),
        ap (λ (e : Entry). e.in_use) entry ∙ sym (ap (λ (x : UdpSocket). x.in_use) sock),
      ),
)
