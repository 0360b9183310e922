-- ===== src/Libc/Convert.antt =====
-- The number parsers of kernel/libc_shim.c: `strtol`, `strtoul`, `strtoll`, `strtoull`. A base is not
-- negative. Loops over the text run on fuel.
mod Decimal
mod Tests
use zigu.Base.{
  ℕ, zero, suc, ◌+◌, ◌-◌, ◌*◌, ◌^◌, ◌%◌, ◌==◌, ◌&&◌, ◌||◌, leb, if◌then◌else◌, Option, none, some,
  Bool, true, false, Run, done, fault, out_of_fuel, ◌>>=◌,
}
use zigu.Base.Int.{ℤ, pos, negsuc, neg_ℤ, pos_part, neg_part}
use zigu.Memory.{Memory}
use zigu.Memory.Word.{store64}

-- `while (*s == ' ' || *s == '\t' || *s == '\n') s++`
pub skip_blanks : ℕ → ℕ → Memory → Run ℕ
skip_blanks zero s m = out_of_fuel
skip_blanks (suc fuel) s m =
    let rest = skip_blanks fuel (s + 1) m in
    if m s == b' ' || (m s == 9 || m s == 10) then rest else done s

-- Whether there is a minus, and the address behind the sign.
pub read_sign : ℕ → Memory → Bool × ℕ
read_sign s m =
    if m s == b'-' then (true, s + 1) else if m s == b'+' then (false, s + 1) else (false, s)

-- The base, and the address behind its prefix.
pub read_base : ℕ → ℕ → Memory → ℕ × ℕ
read_base base s m =
    if base == 0
    then (if m s == b'0'
        then (if m (s + 1) == b'x' || m (s + 1) == b'X'
            then (16, s + 2)
            else if m (s + 1) == b'b' || m (s + 1) == b'B'
            then (2, s + 2)
            else (8, s + 1))
        else (10, s))
    else if base == 16 && (m s == b'0' && (m (s + 1) == b'x' || m (s + 1) == b'X'))
    then (16, s + 2)
    else (base, s)

pub digit_of : ℕ → Option ℕ
digit_of c =
    if leb b'0' c && leb c b'9'
    then some (c - b'0')
    else if leb b'a' c && leb c b'f'
    then some (c - b'a' + 10)
    else if leb b'A' c && leb c b'F'
    then some (c - b'A' + 10)
    else none

-- The loop over the digits: `result`, and where it stops. A result beyond `long` is undefined
-- behaviour.
pub strtol_loop : ℕ → ℕ → ℕ → ℕ → Memory → Run (ℕ × ℕ)
strtol_loop zero base result s m = out_of_fuel
strtol_loop (suc fuel) base result s m =
    let more = λ (d : ℕ). strtol_loop fuel base (result * base + d) (s + 1) m in
    if m s == 0 then done (result, s) else elim (digit_of (m s)) [
      | none ↦ done (result, s)
      | some d ↦
          if leb base d
          then done (result, s)
          else if leb (2 ^ 63) (result * base + d)
          then fault
          else more d
    ]

-- The value, and memory with the end of the number in `*endptr`.
pub strtol : ℕ → ℕ → ℕ → ℕ → Memory → Run (ℤ × Memory)
strtol fuel nptr endptr base m = do
  s ← skip_blanks fuel nptr m
  let (minus, behind_sign) = read_sign s m in
      let (real_base, start) = read_base base behind_sign m in
      do
        (result, behind) ← strtol_loop fuel real_base 0 start m
        done (
          if minus then neg_ℤ (pos result) else pos result,
          if endptr == 0 then m else store64 m endptr behind,
        )

-- `(unsigned long)strtol(nptr, endptr, base)`
pub strtoul : ℕ → ℕ → ℕ → ℕ → Memory → Run (ℕ × Memory)
strtoul fuel nptr endptr base m = do
  (z, m') ← strtol fuel nptr endptr base m
  done ((2 ^ 64 + pos_part z - neg_part z) % 2 ^ 64, m')

pub strtoll : ℕ → ℕ → ℕ → ℕ → Memory → Run (ℤ × Memory)
strtoll fuel nptr endptr base m = strtol fuel nptr endptr base m

pub strtoull : ℕ → ℕ → ℕ → ℕ → Memory → Run (ℕ × Memory)
strtoull fuel nptr endptr base m = strtoul fuel nptr endptr base m
