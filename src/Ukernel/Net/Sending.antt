-- ===== src/Ukernel/Net/Sending.antt =====
-- What reaches the kernel from `net_bind` and `net_connect`.
use zigu.Base.{ℕ, ◌/◌, ◌%◌, ◌^◌, ◌≡◌, ◌==◌, none, some, [], ◌∷◌, if◌then◌else◌, refl, arith}
use zigu.Base.Int.{ℤ}
use zigu.Memory.{Memory, bytes_at}
use zigu.Ukernel.Runtime.{
  Kernel, Python, none_value, returned, raised_os_error, raised_value_error, unsigned, signed_int,
}
use zigu.Ukernel.Address.{Ip, build_addr}
use zigu.Ukernel.Address.Dotted.{IsIp, dotted, parse_ip-dotted}
use zigu.Ukernel.Address.Octets.{parts_of, four, parse_ip-parts_of}
use zigu.Ukernel.Net.{mod_ukernel_net_bind, mod_ukernel_net_connect, address_call}

build_addr-port :
    (ip : Ip) (port : ℕ)
    → build_addr ip port
      ≡ ip.a ∷ ip.b ∷ ip.c ∷ ip.d ∷ (port % 2 ^ 16 / 256) ∷ (port % 2 ^ 16 % 256) ∷ []
unfolding build_addr
build_addr-port ip port =
    let high : port / 2 ^ 8 % 256 ≡ port % 2 ^ 16 / 256 = omega arith in
    let low : port % 2 ^ 8 % 256 ≡ port % 2 ^ 16 % 256 = omega arith in rw (high, low) refl

-- `net_connect` of a dotted decimal address calls the kernel once, with the four octets in their order
-- and the port modulo 65536, high byte first, and returns None, or raises OSError with the kernel's
-- code where that is not 0.
pub connect-dotted :
    {Obj S : Type 0} (python : Python Obj) (kernel : Kernel S) (sock_obj ip_obj port_obj : Obj)
    (m : Memory) (s : S) (sock port : ℤ) (ip_str ip_len : ℕ) (ip : Ip)
    → python.get_int sock_obj ≡ some sock
    → python.get_data ip_obj ≡ some (ip_str, ip_len)
    → python.get_int port_obj ≡ some port
    → IsIp ip
    → bytes_at ip_str ip_len m ≡ dotted ip
    → mod_ukernel_net_connect python kernel sock_obj ip_obj port_obj m s ≡ (
        let p = unsigned 32 port % 2 ^ 16 in
        let addr = ip.a ∷ ip.b ∷ ip.c ∷ ip.d ∷ (p / 256) ∷ (p % 256) ∷ [] in
        let (rc, t) = kernel.net_connect (unsigned 64 sock) addr s in
        (if rc == 0 then returned none_value else raised_os_error (signed_int rc), t))
unfolding mod_ukernel_net_connect address_call
connect-dotted python kernel sock_obj ip_obj port_obj m s sock port ip_str ip_len ip hs hi hp h
      text =
    rw
      (
        mod_ukernel_net_connect,
        address_call,
        hs,
        hi,
        hp,
        parse_ip-dotted ip ip_str ip_len m h text,
        build_addr-port ip (unsigned 32 port),
      )
      refl

-- `net_bind` of a text that is not an address raises ValueError, and the kernel is not called.
pub bind-invalid :
    {Obj S : Type 0} (python : Python Obj) (kernel : Kernel S) (sock_obj ip_obj port_obj : Obj)
    (m : Memory) (s : S) (sock port : ℤ) (ip_str ip_len : ℕ)
    → python.get_int sock_obj ≡ some sock
    → python.get_data ip_obj ≡ some (ip_str, ip_len)
    → python.get_int port_obj ≡ some port
    → four (parts_of 0 (bytes_at ip_str ip_len m)) ≡ none
    → mod_ukernel_net_bind python kernel sock_obj ip_obj port_obj m s ≡ (raised_value_error, s)
unfolding mod_ukernel_net_bind address_call
bind-invalid python kernel sock_obj ip_obj port_obj m s sock port ip_str ip_len hs hi hp h =
    rw (mod_ukernel_net_bind, address_call, hs, hi, hp, parse_ip-parts_of ip_str ip_len m, h) refl
