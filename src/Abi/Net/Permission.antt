-- ===== src/Abi/Net/Permission.antt =====
-- The network calls of a workload that has not entered the capability of the network.
use zigu.Base.{ℕ, ◌≡◌, Bool, false, none, List, [], refl}
use zigu.Abi.Codes.{err_permission}
use zigu.Udp.{Sockets, udp_bind, udp_connect}
use zigu.Net.{Device}
use zigu.Abi.Net.{
  NetState, allow_net, net_socket, net_bind, net_connect, net_send, net_recv, net_close, on_address,
}

module _ {T : Type 0} (s : NetState T) (denied : allow_net s ≡ false) where
  net_socket-denied :
      (domain type_ protocol : ℕ) (handle_out : Bool)
      → net_socket domain type_ protocol handle_out s ≡ ((err_permission, none), s)
  unfolding net_socket
  net_socket-denied domain type_ protocol handle_out = rw (net_socket, denied) refl

  on_address-denied :
      (on : ℕ → List ℕ → ℕ → Sockets → Bool × Sockets) (sock : ℕ) (null : Bool) (addr : List ℕ)
      → on_address on sock null addr s ≡ (err_permission, s)
  unfolding on_address
  on_address-denied on sock null addr = rw (on_address, denied) refl

  net_send-denied :
      (dev : Device T) (sock : ℕ) (null : Bool) (buf : List ℕ)
      → net_send dev sock null buf s ≡ ((err_permission, none), s)
  unfolding net_send
  net_send-denied dev sock null buf = rw (net_send, denied) refl

  net_recv-denied :
      (dev : Device T) (sock : ℕ) (null : Bool) (len : ℕ)
      → net_recv dev sock null len s ≡ ((err_permission, ([], none)), s)
  unfolding net_recv
  net_recv-denied dev sock null len = rw (net_recv, denied) refl

  net_close-denied : (sock : ℕ) → net_close sock s ≡ (err_permission, s)
  unfolding net_close
  net_close-denied sock = rw (net_close, denied) refl

-- Each of the six calls, whatever its arguments are, answers `err_permission`, writes nothing and changes no
-- part of the state.
abbrev pub Denied : {T : Type 0} → NetState T → Device T → Type 0
Denied s dev =
    ((domain type_ protocol : ℕ) (handle_out : Bool)
      → net_socket domain type_ protocol handle_out s ≡ ((err_permission, none), s))
    × ((sock : ℕ) (null : Bool) (addr : List ℕ)
        → (net_bind sock null addr s ≡ (err_permission, s))
          × (net_connect sock null addr s ≡ (err_permission, s)))
    × ((sock : ℕ) (null : Bool) (buf : List ℕ)
        → net_send dev sock null buf s ≡ ((err_permission, none), s))
    × ((sock : ℕ) (null : Bool) (len : ℕ)
        → net_recv dev sock null len s ≡ ((err_permission, ([], none)), s))
    × ((sock : ℕ) → net_close sock s ≡ (err_permission, s))

-- While the capability of the network is not active, each of the six network calls, whatever its arguments
-- are, answers `err_permission`, writes nothing and changes no part of the state.
pub net-Denied : {T : Type 0} (s : NetState T) (dev : Device T) → allow_net s ≡ false → Denied s dev
unfolding net_bind net_connect
net-Denied s dev denied = (
  net_socket-denied s denied,
  λ sock null addr. (
    on_address-denied s denied (λ idx ip port socks. udp_bind idx port socks) sock null addr,
    on_address-denied s denied udp_connect sock null addr,
  ),
  net_send-denied s denied dev,
  net_recv-denied s denied dev,
  net_close-denied s denied,
)
