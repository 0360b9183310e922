-- ===== src/Ukernel/Tests.antt =====
-- The functions of `ukernel` over a kernel that records its calls.
use zigu.Base.{
  ℕ, ◌+◌, ◌≡◌, ltb, ◌==◌, if◌then◌else◌, refl, arith, none, some, Option, List, [], ◌∷◌, ◌++◌,
  length, done,
}
use zigu.Base.Int.{ℤ, pos}
use zigu.Memory.{Memory, bytes_at}
use zigu.Memory.Sample.{codes, place}
use zigu.Ukernel.Runtime.{Kernel, Python, returned, none_value}
use zigu.Ukernel.Address.{Ip, parse_ip}
use zigu.Ukernel.Address.Octets.{four, parts_of, parse_ip-parts_of}
use zigu.Ukernel.Net.{mod_ukernel_net_connect}
use zigu.Ukernel.Net.Sending.{connect-dotted}
use zigu.Ukernel.Console.{mod_ukernel_sleep_ms}
use zigu.Ukernel.Console.Sleep.{mod_ukernel_sleep_ms-after}

-- A Python object: an integer or a string.
data Sample : Type 0 where
  integer : ℤ → Sample
  string : ℕ → ℕ → Sample

abbrev sample_int : Sample → Option ℤ
sample_int (integer z) = some z
sample_int (string a n) = none

abbrev sample_data : Sample → Option (ℕ × ℕ)
sample_data (integer z) = none
sample_data (string a n) = some (a, n)

abbrev python : Python Sample
python = record { get_int = sample_int; get_data = sample_data; get_buffer = λ obj. none }

-- The state: the time, and the addresses that were passed on.
abbrev State : Type 0
State = ℕ × List (List ℕ)

-- Every read of the clock takes 4 ms, and every message is "hello".
abbrev kernel : Kernel State
kernel = record {
  net_socket = λ domain type protocol s. ((0, 7), s);
  net_bind = λ sock addr s. (0, (s.0, addr ∷ s.1));
  net_connect = λ sock addr s. (if sock == 7 then 0 else 2, (s.0, addr ∷ s.1));
  net_send = λ sock bytes flags s. ((0, length bytes), s);
  net_recv = λ sock len flags s. (
    record {
      rc = 0;
      buf = if ltb len 5 then [] else codes "hello";
      nread = if ltb len 5 then 0 else 5;
    },
    s,
  );
  net_close = λ sock s. (0, s);
  kernel_ticks_ms = λ s. (s.0, (s.0 + 4, s.1));
  serial_write_bytes = λ bytes s. s;
}

-- "172.16.0.1" at 100, "1..2" at 120, "..." at 130 and "1.2.3" at 140.
abbrev text : Memory
text = place 100 (
    codes "172.16.0.1"
    ++ (codes "          " ++ (codes "1..2      " ++ (codes "...       " ++ codes "1.2.3"))))

abbrev gateway : Ip
gateway = record { a = 172; b = 16; c = 0; d = 1 }

parse_gateway : parse_ip 100 10 text ≡ some gateway
unfolding parse_ip
parse_gateway = refl

parse_dots : parse_ip 130 3 text ≡ some (record { a = 0; b = 0; c = 0; d = 0 })
unfolding parse_ip
parse_dots = refl

parse_three : parse_ip 140 5 text ≡ none
unfolding parse_ip
parse_three = refl

parse_ip-parts_of_example : parse_ip 120 4 text ≡ four (parts_of 0 (bytes_at 120 4 text))
parse_ip-parts_of_example = parse_ip-parts_of 120 4 text

connect-dotted_example :
    mod_ukernel_net_connect python kernel
      (integer (pos 7))
      (string 100 10)
      (integer (pos 75000))
      text
      (0, [])
    ≡ (returned none_value, (0, (172 ∷ 16 ∷ 0 ∷ 1 ∷ 36 ∷ 248 ∷ []) ∷ []))
unfolding bytes_at
connect-dotted_example =
    connect-dotted python kernel (integer (pos 7)) (string 100 10) (integer (pos 75000)) text
      (0, []) (pos 7) (pos 75000) 100 10 gateway refl refl refl (omega arith) refl

mod_ukernel_sleep_ms-after_example :
    mod_ukernel_sleep_ms 3 python kernel (integer (pos 7)) (100, [])
    ≡ done (returned none_value, (112, []))
mod_ukernel_sleep_ms-after_example =
    mod_ukernel_sleep_ms-after kernel python (integer (pos 7)) 6 1 3 (100, []) refl (omega arith)
      (omega arith) (λ j h. ground arith)
