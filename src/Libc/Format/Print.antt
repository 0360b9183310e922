-- ===== src/Libc/Format/Print.antt =====
-- `printf` of kernel/libc_shim.c: the text goes through a local buffer of 256 bytes to the serial port,
-- which is a parameter.
use Prim.Native.Nat.{min}
use zigu.Base.{
  ℕ, zero, suc, ◌+◌, ◌-◌, ◌^◌, ◌≤◌, ◌<◌, ◌≡◌, ltb, leb, if◌then◌else◌, List, [], ◌∷◌, ◌++◌, length,
  take, take-all, Bool-cases, leb→le, inl, inr, get_or, refl, ap, ◌∙◌, arith, Run, done, fault,
  ◌>>=◌,
}
use zigu.Base.Int.{ℤ, pos, negsuc}
use zigu.Memory.{Memory, bytes_at, poke}
use zigu.Libc.Strings.IsString.{IsString}
use zigu.Libc.Format.Directive.{vsnprintf}
use zigu.Libc.Format.Output.{with_text}
use zigu.Libc.Format.Directive.Pieces.{Piece, all_slots, format, text, Plain}
use zigu.Libc.Format.Directive.Printed.{Apart, vsnprintf-text}

-- The bytes that are handed on. A negative `ret` becomes a size far beyond the buffer.
pub print_result : {S : Type 0} → (List ℕ → S → S) → ℕ → ℤ → Memory → S → Run (ℤ × (Memory × S))
print_result serial_write_bytes buf (pos ret) m s =
    let n = if ltb ret 256 then ret else 256 - 1 in
    done (pos ret, (m, serial_write_bytes (bytes_at buf n m) s))
print_result serial_write_bytes buf (negsuc ret) m s = fault

-- `buf` is the address of the local buffer.
pub printf :
    {S : Type 0} → (List ℕ → S → S) → ℕ → ℕ → ℕ → List ℕ → Memory → S → Run (ℤ × (Memory × S))
unfolding vsnprintf print_result
printf serial_write_bytes fuel buf fmt ap m s =
    vsnprintf fuel buf 256 fmt ap m >>= (λ r. print_result serial_write_bytes buf r.0 r.1 s)

bytes_at-take :
    (n a : ℕ) (m : Memory) (xs : List ℕ)
    → n ≤ length xs
    → ((i : ℕ) → i < n → m (a + i) ≡ get_or xs i 0)
    → bytes_at a n m ≡ take n xs
unfolding bytes_at
bytes_at-take zero a m xs h same = refl
bytes_at-take (suc n) a m [] h same = absurd (omega (arith, h))
bytes_at-take (suc n) a m (x ∷ xs) h same =
    let first : m a ≡ x = ap m (omega arith) ∙ same 0 (omega arith) in
    let later =
      bytes_at-take n (a + 1) m xs (omega (arith, h))
        (λ i low. ap m (omega arith) ∙ same (suc i) (omega (arith, low))) in
    rw (first, later) refl

-- What the buffer holds behind `vsnprintf`.
buffer_at :
    (buf i : ℕ) (xs : List ℕ) (m : Memory)
    → i < min (length xs) 255
    → poke (with_text buf 256 0 xs m) (buf + min (length xs) 255) 0 (buf + i) ≡ get_or xs i 0
buffer_at buf i xs m h = let index : buf + i - (buf + 0) ≡ i = omega arith in rw index ground arith

take-min : (xs : List ℕ) (k : ℕ) → take (min (length xs) k) xs ≡ take k xs
take-min xs k = elim (Bool-cases (leb (length xs) k)) [
  | inl short ↦
      let low : min (length xs) k ≡ length xs = ground arith in
      rw (low, take-all (length xs) xs (omega arith), take-all k xs (leb→le (length xs) k short))
        refl
  | inr long ↦ let low : min (length xs) k ≡ k = ground arith in rw low refl
]

-- For a format of characters and directives without flag, width and length modifier, which stands outside the
-- local buffer, `printf` writes the text that it describes to the serial port, once and cut off at 255
-- characters, and returns the length of the whole text. Fuel above the number of pieces is enough.
pub printf-text :
    {S : Type 0} (serial_write_bytes : List ℕ → S → S) (ps : List Piece) (fuel buf fmt : ℕ)
    (m : Memory) (s : S)
    → length ps < fuel
    → Plain ps
    → Apart buf 256 fmt (suc (length (format ps)))
    → IsString m fmt (format ps)
    → length (text ps) < 2 ^ 31
    → (m' : Memory) × (printf serial_write_bytes fuel buf fmt (all_slots ps ++ []) m s
        ≡ done (pos (length (text ps)), (m', serial_write_bytes (take 255 (text ps)) s)))
unfolding printf print_result
printf-text serial_write_bytes ps fuel buf fmt m s enough plain apart str small =
    let xs = text ps in
    let n = length xs in
    let m' = poke (with_text buf 256 0 xs m) (buf + min n 255) 0 in
    let formatted : vsnprintf fuel buf 256 fmt (all_slots ps ++ []) m ≡ done (pos n, m') =
      vsnprintf-text buf 256 ps fuel fmt [] m enough plain (omega arith, omega arith) apart str
        small in
    let handed : (if ltb n 256 then n else 256 - 1) ≡ min n 255 = ground arith in
    let read : bytes_at buf (min n 255) m' ≡ take (min n 255) xs =
      bytes_at-take (min n 255) buf m' xs (omega arith) (λ i h. buffer_at buf i xs m h) in
    (m', rw (printf, formatted, print_result, handed, read, take-min xs 255) refl)
