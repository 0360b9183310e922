-- ===== src/Ukernel/Net/Receiving.antt =====
-- The bytes that `net_recv` hands to Python.
use zigu.Base.{
  ℕ, zero, suc, Option-cases, some, leb, true, ap, ◌∙◌, ◌≡◌, ◌≤◌, ◌==◌, List, [], ◌∷◌, refl, arith,
  length, take, done, le→leb, Bool-cases, ==→eq, inl, inr,
}
use zigu.Base.Int.{ℤ, pos, negsuc}
use zigu.Ukernel.Runtime.{
  Received, Kernel, Python, Value, none_value, bytes_value, Reply, returned, raised_os_error,
  raised_conversion, unsigned, signed_int,
}
use zigu.Ukernel.Net.{mod_ukernel_net_recv, clamp_size, new_bytes, reply_received}

-- What `net_recv` of the kernel promises: on success it has written the bytes that it reports, and at
-- most `len`.
abbrev pub RecvFits : {S : Type 0} → Kernel S → Type 0
RecvFits {S} kernel =
    (sock len flags : ℕ) (s : S)
    → (kernel.net_recv sock len flags s).0.rc ≡ 0
    → ((kernel.net_recv sock len flags s).0.nread ≤ length (kernel.net_recv sock len flags s).0.buf)
      × (length (kernel.net_recv sock len flags s).0.buf ≤ len)

clamp_size_le : (z : ℤ) → clamp_size z ≤ 2048
unfolding clamp_size
clamp_size_le (pos n) = ground arith
clamp_size_le (negsuc n) = omega arith

-- A bytes object is no longer than the buffer.
abbrev pub FitsBuffer : Reply → Type 0
FitsBuffer (returned (bytes_value bytes)) = length bytes ≤ 2048
FitsBuffer _ = Unit

length-take_le : (n : ℕ) (xs : List ℕ) → length (take n xs) ≤ length xs
length-take_le zero xs = omega arith
length-take_le (suc n) [] = omega arith
length-take_le (suc n) (x ∷ xs) = omega (arith, length-take_le n xs)

new_bytes-fits :
    (r : Received)
    → r.nread ≤ length r.buf
    → length r.buf ≤ 2048
    → (value : Value) × (new_bytes r ≡ done value) × FitsBuffer (returned value)
unfolding new_bytes
new_bytes-fits r h k = (
  bytes_value (take r.nread r.buf),
  ground (arith, le→leb r.nread (length r.buf) h),
  omega (arith, k, length-take_le r.nread r.buf),
)

reply_received-fits :
    {S : Type 0} (r : Received) (t : S)
    → (r.rc ≡ 0 → (r.nread ≤ length r.buf) × (length r.buf ≤ 2048))
    → (reply : Reply) × (u : S) × (reply_received r t ≡ done (reply, u)) × FitsBuffer reply
unfolding reply_received
reply_received-fits r t h = elim (Bool-cases (r.rc == 9)) [
  | inl e ↦ (returned none_value, t, rw e refl, tt)
  | inr e ↦ elim (Bool-cases (r.rc == 0)) [
    | inl e0 ↦
        let (h1, h2) = h (==→eq r.rc 0 e0) in
        let (value, ev, fits) = new_bytes-fits r h1 h2 in
        (returned value, t, rw (e, e0, ev) refl, fits)
    | inr e0 ↦ (raised_os_error (signed_int r.rc), t, rw (e, e0) refl, tt)
  ]
]

-- Over a kernel whose `net_recv` writes at most the bytes asked for and reports at most what it has
-- written, `net_recv` always returns or raises: it never reads past what was received, and a bytes
-- object that it returns has at most 2048 bytes, whatever size was asked for.
pub mod_ukernel_net_recv-FitsBuffer :
    {Obj S : Type 0} (python : Python Obj) (kernel : Kernel S) (sock_obj size_obj : Obj) (s : S)
    → RecvFits kernel
    → (reply : Reply) × (t : S) × (mod_ukernel_net_recv python kernel sock_obj size_obj s
        ≡ done (reply, t))
      × FitsBuffer reply
unfolding mod_ukernel_net_recv
mod_ukernel_net_recv-FitsBuffer python kernel sock_obj size_obj s fits =
    elim (Option-cases (python.get_int sock_obj)) [
      | inl e ↦ (raised_conversion, s, rw (mod_ukernel_net_recv, e) refl, tt)
      | inr (sock, e) ↦ elim (Option-cases (python.get_int size_obj)) [
        | inl e1 ↦ (raised_conversion, s, rw (mod_ukernel_net_recv, e, e1) refl, tt)
        | inr (size, e1) ↦
            let r = kernel.net_recv (unsigned 64 sock) (clamp_size size) 0 s in
            let bound : r.0.rc ≡ 0 → (r.0.nread ≤ length r.0.buf) × (length r.0.buf ≤ 2048) = λ ok.
              let (h1, h2) = fits (unsigned 64 sock) (clamp_size size) 0 s ok in
              (h1, omega (arith, h2, clamp_size_le size)) in
            let (reply, u, er, f) = reply_received-fits r.0 r.1 bound in
            (reply, u, rw (mod_ukernel_net_recv, e, e1) er, f)
      ]
    ]

take-length : (xs : List ℕ) → take (length xs) xs ≡ xs
take-length [] = refl
take-length (x ∷ xs) = ap (λ l. x ∷ l) (take-length xs)

reply_received-whole :
    {S : Type 0} (r : Received) (buf : List ℕ) (t : S)
    → r ≡ (record { rc = 0; buf = buf; nread = length buf })
    → reply_received r t ≡ done (returned (bytes_value buf), t)
unfolding reply_received new_bytes
reply_received-whole r buf t h =
    let whole : leb (length buf) (length buf) ≡ true = ground arith in
    ap (λ x. reply_received x t) h ∙ rw (reply_received, whole, take-length buf) refl

-- What the kernel has received is returned.
pub mod_ukernel_net_recv-returned :
    {Obj S : Type 0} (python : Python Obj) (kernel : Kernel S) (sock_obj size_obj : Obj)
    (sock size : ℤ) (buf : List ℕ) (s : S)
    → python.get_int sock_obj ≡ some sock
    → python.get_int size_obj ≡ some size
    → (kernel.net_recv (unsigned 64 sock) (clamp_size size) 0 s).0
      ≡ (record { rc = 0; buf = buf; nread = length buf })
    → mod_ukernel_net_recv python kernel sock_obj size_obj s
      ≡ done
          (returned (bytes_value buf), (kernel.net_recv (unsigned 64 sock) (clamp_size size) 0 s).1)
unfolding mod_ukernel_net_recv
mod_ukernel_net_recv-returned python kernel sock_obj size_obj sock size buf s e e1 h =
    let r = kernel.net_recv (unsigned 64 sock) (clamp_size size) 0 s in
    rw (mod_ukernel_net_recv, e, e1) (reply_received-whole r.0 buf r.1 h)
