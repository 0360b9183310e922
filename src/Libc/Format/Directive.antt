-- ===== src/Libc/Format/Directive.antt =====
-- `vsnprintf` and `snprintf` of kernel/libc_shim.c: the directives and the loop over the format.
pub mod Pieces
pub mod Printed
use Prim.Native.Char.{code}
use zigu.Base.{
  ℕ, zero, suc, ◌+◌, ◌-◌, ◌*◌, ◌%◌, ◌^◌, ◌==◌, ◌&&◌, ◌||◌, ltb, leb, if◌then◌else◌, List, [], ◌∷◌,
  Bool, true, false, not, Run, done, fault, out_of_fuel, ◌>>=◌,
}
use zigu.Base.Int.{ℤ, pos, negsuc}
use zigu.Memory.{Memory, poke}
use zigu.Memory.Sample.{codes}
use zigu.Libc.Format.{Out, put_char, put_list, put_string, put_uint, put_int}

-- What stands between `%` and the conversion, and the address behind it.
pub record Spec : Type 0 where
  pub pad : ℕ
  pub width : ℕ
  pub is_long : ℕ
  pub is_size : Bool
  pub fmt : ℕ

-- `while (*fmt >= '0' && *fmt <= '9')`: a width that does not fit into `int` is undefined behaviour.
pub width_loop : ℕ → ℕ → ℕ → Memory → Run (ℕ × ℕ)
width_loop zero fmt width m = out_of_fuel
width_loop (suc fuel) fmt width m =
    let wider = width * 10 + (m fmt - b'0') in
    let rest = width_loop fuel (fmt + 1) wider m in
    if leb b'0' (m fmt) && leb (m fmt) b'9'
    then (if leb (2 ^ 31) wider then fault else rest)
    else done (fmt, width)

-- The length modifier: `is_long`, `is_size`, and the address behind it.
pub length_modifier : ℕ → Memory → ℕ × Bool × ℕ
length_modifier fmt m =
    if m fmt == b'l'
    then (if m (fmt + 1) == b'l' then (2, false, fmt + 2) else (1, false, fmt + 1))
    else if m fmt == b'z'
    then (0, true, fmt + 1)
    else (0, false, fmt)

-- The flag, the width and the length modifier from `fmt` on.
pub read_spec : ℕ → ℕ → Memory → Run Spec
unfolding width_loop length_modifier
read_spec fuel fmt m =
    let zero_flag = m fmt == b'0' in
    do
      (behind_width, width) ← width_loop fuel (if zero_flag then fmt + 1 else fmt) 0 m
      let (is_long, is_size, behind) = length_modifier behind_width m in
          done (record {
            pad = if zero_flag then b'0' else b' ';
            width = width;
            is_long = is_long;
            is_size = is_size;
            fmt = behind;
          })

-- `va_arg(ap, …)`
pub next_slot : List ℕ → Run (ℕ × List ℕ)
next_slot [] = fault
next_slot (x ∷ ap) = done (x, ap)

-- The low `w` bits, as a signed number.
abbrev pub signed : ℕ → ℕ → ℤ
signed w x =
    if ltb (x % 2 ^ w) (2 ^ (w - 1)) then pos (x % 2 ^ w) else negsuc (2 ^ w - 1 - x % 2 ^ w)

-- The value for `d` and `i`; `is_size` makes no difference here.
abbrev pub signed_slot : Spec → ℕ → ℤ
signed_slot spec x = signed (if spec.is_long == 0 then 32 else 64) x

-- The value for `u`, `x` and `X`.
abbrev pub unsigned_slot : Spec → ℕ → ℕ
unsigned_slot spec x = x % 2 ^ (if spec.is_long == 0 && not spec.is_size then 32 else 64)

module _ (buf size : ℕ) where
  -- The `switch` over the conversion `c`.
  pub convert : ℕ → Spec → ℕ → List ℕ → Out → Run (List ℕ × Out)
  unfolding next_slot
  convert fuel spec c ap out =
      if c == b'd' || c == b'i'
      then (do
        (x, ap') ← next_slot ap
        out' ← put_int buf size (signed_slot spec x) spec.width spec.pad out
        done (ap', out'))
      else if c == b'u'
      then (do
        (x, ap') ← next_slot ap
        out' ← put_uint buf size (unsigned_slot spec x) 10 spec.width spec.pad out
        done (ap', out'))
      else if c == b'x' || c == b'X'
      then (do
        (x, ap') ← next_slot ap
        out' ← put_uint buf size (unsigned_slot spec x) 16 spec.width spec.pad out
        done (ap', out'))
      else if c == b'p'
      then (do
        (x, ap') ← next_slot ap
        out' ← put_uint buf size (x % 2 ^ 64) 16 0 b'0' (put_list buf size (codes "0x") out)
        done (ap', out'))
      else if c == b's'
      then (do
        (x, ap') ← next_slot ap
        out' ←
            if x == 0
            then done (put_list buf size (codes "(null)") out)
            else put_string buf size fuel x out
        done (ap', out'))
      else if c == b'c'
      then (do (x, ap') ← next_slot ap; done (ap', put_char buf size (x % 256) out))
      else if c == b'%'
      then done (ap, put_char buf size b'%' out)
      else done (ap, put_char buf size c (put_char buf size b'%' out))

  -- `while (*fmt)`
  unfoldable pub format_loop : ℕ → ℕ → List ℕ → Out → Run Out
  unfolding read_spec convert
  format_loop zero fmt ap out = out_of_fuel
  format_loop (suc fuel) fmt ap out =
      let plain = format_loop fuel (fmt + 1) ap (put_char buf size (out.memory fmt) out) in
      let behind = λ (f : ℕ) (r : List ℕ × Out). format_loop fuel (f + 1) r.0 r.1 in
      if out.memory fmt == 0 then done out else if not (out.memory fmt == b'%') then plain else do
        spec ← read_spec (suc fuel) (fmt + 1) out.memory
        r ← convert (suc fuel) spec (out.memory spec.fmt) ap out
        behind spec.fmt r

-- The result and memory: `pos` is cut to `int`.
unfoldable pub vsnprintf : ℕ → ℕ → ℕ → ℕ → List ℕ → Memory → Run (ℤ × Memory)
unfolding format_loop put_char put_list
vsnprintf fuel buf size fmt ap m = if size == 0 then done (pos 0, m) else do
  out ← format_loop buf size fuel fmt ap (record { pos = 0; memory = m })
  let last = if ltb out.pos size then out.pos else size - 1 in
      done (signed 32 out.pos, poke out.memory (buf + last) 0)

pub snprintf : ℕ → ℕ → ℕ → ℕ → List ℕ → Memory → Run (ℤ × Memory)
snprintf fuel buf size fmt args m = vsnprintf fuel buf size fmt args m
