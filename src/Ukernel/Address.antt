-- ===== src/Ukernel/Address.antt =====
-- The address helpers of kernel/mp_port/modukernel.c: `parse_ip` and `build_addr`.
pub mod Octets
pub mod Dotted
use zigu.Base.{
  ℕ, zero, suc, ◌+◌, ◌-◌, ◌*◌, ◌/◌, ◌%◌, ◌^◌, ◌==◌, ◌&&◌, ltb, leb, if◌then◌else◌, Option, none,
  some, List, [], ◌∷◌, get_or, set,
}
use zigu.Memory.{Memory}

-- `unsigned char ip[4]`
pub record Ip : Type 0 where
  pub a : ℕ
  pub b : ℕ
  pub c : ℕ
  pub d : ℕ

-- The loop over the text, with `k` bytes left: how many dots were met, and `parts`; `none` is the
-- early `return -1`.
pub parse_loop : ℕ → ℕ → ℕ → ℕ → List ℕ → Memory → Option (ℕ × List ℕ)
parse_loop zero i s part parts m = some (part, parts)
parse_loop (suc k) i s part parts m =
    let c = m (s + i) in
    let value = (get_or parts part 0 * 10 + (c - b'0')) % 2 ^ 32 in
    let next_part = parse_loop k (i + 1) s (part + 1) parts m in
    let next_digit = parse_loop k (i + 1) s part (set parts part value) m in
    if ltb part 4
    then (if c == b'.'
        then next_part
        else if leb b'0' c && leb c b'9'
        then (if ltb 255 value then none else next_digit)
        else none)
    else some (part, parts)

-- The check behind the loop, and the copy into `ip`.
pub finish : ℕ × List ℕ → Option Ip
finish (part, parts) =
    if part == 3
    then some (record {
      a = get_or parts 0 0 % 256;
      b = get_or parts 1 0 % 256;
      c = get_or parts 2 0 % 256;
      d = get_or parts 3 0 % 256;
    })
    else none

-- `none` is the result -1.
unfoldable pub parse_ip : ℕ → ℕ → Memory → Option Ip
unfolding parse_loop finish
parse_ip s len m = elim (parse_loop len 0 s 0 (0 ∷ 0 ∷ 0 ∷ 0 ∷ []) m) [
  | none ↦ none
  | some r ↦ finish r
]

-- The six bytes of a `net_addr_v4_t`: the address, and the port with its high byte first.
unfoldable pub build_addr : Ip → ℕ → List ℕ
build_addr ip port = ip.a ∷ ip.b ∷ ip.c ∷ ip.d ∷ (port / 2 ^ 8 % 256) ∷ (port % 2 ^ 8 % 256) ∷ []
