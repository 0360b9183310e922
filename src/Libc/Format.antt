-- ===== src/Libc/Format.antt =====
-- Formatted output of kernel/libc_shim.c: `put_char`, `put_string`, `put_uint`, `put_int`,
-- `vsnprintf`, `snprintf`. The arguments behind `...` are a list of 64-bit slots; a read past
-- its end is undefined behaviour. Walks over strings run on fuel.
pub mod Directive
pub mod Digits
pub mod Output
pub mod Numbers
pub mod Print
pub mod Decimal
mod Tests
use zigu.Base.{
  ℕ, zero, suc, ◌+◌, ◌-◌, ◌*◌, ◌/◌, ◌%◌, ◌^◌, ◌==◌, ◌&&◌, ◌||◌, ltb, leb, if◌then◌else◌, List, [],
  ◌∷◌, length, Bool, true, false, not, Run, done, fault, out_of_fuel, ◌>>=◌,
}
use zigu.Base.Int.{ℤ, pos, negsuc}
use zigu.Memory.{Memory, poke}

-- `pos`, and memory with the buffer in it.
pub record Out : Type 0 where
  pub pos : ℕ
  pub memory : Memory

pub digit_char : ℕ → ℕ
digit_char d = if ltb d 10 then b'0' + d else b'a' + (d - 10)

-- The loop over `val`: `tmp[0 .. i]`, its last character first. A write behind `tmp[23]` is
-- undefined behaviour, so that the fuel 25 is always enough.
unfoldable pub digits_loop : ℕ → ℕ → ℕ → List ℕ → Run (List ℕ)
unfolding digit_char
digits_loop zero base val tmp = out_of_fuel
digits_loop (suc fuel) base val tmp =
    let rest = digits_loop fuel base (val / base) (digit_char (val % base) ∷ tmp) in
    if val == 0 then done tmp else if leb 24 (length tmp) then fault else rest

-- The digits in `tmp`, before the padding.
unfoldable pub digits : ℕ → ℕ → Run (List ℕ)
digits base val = if val == 0 then done (b'0' ∷ []) else digits_loop 25 base val []

module _ (buf size : ℕ) where
  pub put_char : ℕ → Out → Out
  put_char c out = record {
    pos = (out.pos + 1) % 2 ^ 64;
    memory =
        if ltb out.pos ((size + 2 ^ 64 - 1) % 2 ^ 64)
        then poke out.memory (buf + out.pos) c
        else out.memory;
  }

  -- `while (i > 0) put_char(buf, size, pos, tmp[--i])`, and `put_string` of a literal
  pub put_list : List ℕ → Out → Out
  put_list [] out = out
  put_list (c ∷ cs) out = put_list cs (put_char c out)

  -- `for (int w = i; w < width; w++) put_char(buf, size, pos, pad)`, with `width - i` rounds left
  pub put_pad : ℕ → ℕ → Out → Out
  put_pad zero pad out = out
  put_pad (suc n) pad out = put_pad n pad (put_char pad out)

  pub put_string : ℕ → ℕ → Out → Run Out
  put_string zero s out = out_of_fuel
  put_string (suc fuel) s out =
      let c = out.memory s in
      let rest = put_string fuel (s + 1) (put_char c out) in if c == 0 then done out else rest

  pub put_uint : ℕ → ℕ → ℕ → ℕ → Out → Run Out
  put_uint val base width pad out = do
    tmp ← digits base val
    done (put_list tmp (put_pad (width - length tmp) pad out))

  -- The negation of the least value is undefined behaviour.
  pub put_int : ℤ → ℕ → ℕ → Out → Run Out
  unfolding put_uint
  put_int (pos n) width pad out = put_uint n 10 width pad out
  put_int (negsuc n) width pad out =
      if leb (2 ^ 63 - 1) n
      then fault
      else put_uint (suc n) 10 (if ltb 0 width then width - 1 else 0) pad (put_char b'-' out)
