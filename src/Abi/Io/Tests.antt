-- ===== src/Abi/Io/Tests.antt =====
-- A port with two queues, and a handle on it.
use zigu.Base.{
  ℕ, zero, suc, ◌⊎◌, ◌+◌, ◌*◌, ◌^◌, ◌≡◌, Bool, true, false, inl, inr, List, [], ◌∷◌, ◌++◌, get_or,
  replicate, take, refl, arith,
}
use zigu.Udp.{skip}
use zigu.Memory.Sample.{codes}
use zigu.Abi.Codes.{cap_io}
use zigu.Abi.Caps.{same_kind}
use zigu.Abi.Caps.History.{boot}
use zigu.Abi.Handles.{unused, validate_handle}
use zigu.Abi.Io.{
  Uart, IoState, kind_none, kind_serial, io_open, io_close, read_serial, write_serial,
}
use zigu.Abi.Io.Serial.{IsIo, Serves, Refused, io_open-Serves, io_close-refuses}
use zigu.Abi.Io.Queue.{IsQueue, read_serial-take}

pub record Queues : Type 0 where
  pub coming : List ℕ
  pub sent : List ℕ

abbrev has_some : List ℕ → Bool
has_some [] = false
has_some (b ∷ bytes) = true

abbrev uart : Uart Queues
uart = record {
  rx_ready = λ u. has_some u.coming;
  tx_ready = λ u. true;
  read_byte = λ u. (get_or u.coming 0 0, record u { coming = skip 1 u.coming });
  write_byte = λ b u. record u { sent = u.sent ++ (b ∷ []) };
}

abbrev port : Queues
port = record { coming = codes "ok"; sent = [] }

abbrev idle : IoState Queues
idle = record {
  caps = record boot { active = same_kind cap_io };
  io_table = replicate 32 unused;
  io_kind = replicate 32 kind_none;
  uart = port;
}

abbrev opened : IoState Queues
opened = record idle {
  io_table = record { in_use = true; gen = 1 } ∷ replicate 31 unused;
  io_kind = kind_serial ∷ replicate 31 kind_none;
}

gen-replicate : (n id : ℕ) → (get_or (replicate n unused) id unused).gen ≡ 1
gen-replicate zero id = refl
gen-replicate (suc n) zero = refl
gen-replicate (suc n) (suc id) = gen-replicate n id

idle-IsIo : IsIo idle
idle-IsIo = (refl, refl, λ id. omega (arith, gen-replicate 32 id))

written : (write_serial uart (codes "hi") port).sent ≡ codes "hi"
unfolding write_serial
written = refl

queue : IsQueue uart (λ u. u.coming)
queue u = split u.coming
  where
    split :
        (bytes : List ℕ)
        → ((bytes ≡ []) × (has_some bytes ≡ false))
          ⊎ ((b : ℕ) × (rest : List ℕ) × (bytes ≡ b ∷ rest)
              × (has_some bytes ≡ true)
              × (get_or bytes 0 0 ≡ b)
              × (skip 1 bytes ≡ rest))
    split [] = inl (refl, refl)
    split (b ∷ rest) = inr (b, rest, refl, refl, refl, refl)

io_open-Serves_example :
    Serves uart
      (λ u. u.coming)
      (λ u. u.sent)
      (codes "serial0")
      idle
      (io_open false (codes "serial0") true idle)
io_open-Serves_example =
    io_open-Serves uart (λ u. u.coming) (λ u. u.sent) queue (λ b u. refl) (codes "serial0") idle
      refl idle-IsIo

io_close-refuses_example :
    Refused uart (2 * 2 ^ 56 + 1) 3 false (codes "hi") (io_close (2 * 2 ^ 56 + 1) opened).1
unfolding validate_handle
io_close-refuses_example =
    io_close-refuses uart (2 * 2 ^ 56 + 1) 0 3 false (codes "hi") opened refl refl (omega arith)

read_serial-take_example :
    let (bytes, u') = read_serial uart 1 port in
    (bytes ≡ take 1 (codes "ok")) × (u'.coming ≡ skip 1 (codes "ok"))
read_serial-take_example = read_serial-take uart (λ u. u.coming) 1 port queue
