-- ===== src/Libc/Strings/Build.antt =====
-- `strcpy`, `strncpy` and `strcat`.
use zigu.Base.{
  ℕ, zero, suc, ◌+◌, ◌-◌, ◌<◌, ◌≡◌, arith, List, [], ◌∷◌, ◌++◌, length, done, ne→==, ◌∙◌, ap, sym,
  fun_ext, if◌then◌else◌, ltb, leb, ◌&&◌,
}
use zigu.Memory.{Memory, poke, blit}
use zigu.Libc.Bytes.Copy.{CopiesUp}
use zigu.Libc.Bytes.Fill.{fill_up_at}
use zigu.Libc.Strings.{copy_string, strcpy, strncpy_loop, strncpy, strcat}
use zigu.Libc.Strings.IsString.{IsString, IsString-frame, IsString-at}
use zigu.Libc.Strings.Length.{strlen-length}

copy_string-blit :
    (fuel d src : ℕ) (m : Memory) (xs : List ℕ)
    → length xs < fuel
    → CopiesUp d src (suc (length xs))
    → IsString m src xs
    → (m' : Memory) × (copy_string fuel d src m ≡ done m')
      × ((a : ℕ) → m' a ≡ blit m d src (suc (length xs)) a)
unfolding copy_string
copy_string-blit zero d src m xs enough apart h = absurd (omega arith)
copy_string-blit (suc fuel) d src m [] enough apart h = (poke m d (m src), rw h, λ a. ground arith)
copy_string-blit (suc fuel) d src m (x ∷ xs) enough apart (at, ne, rest) =
    let (m', ran, same) =
      copy_string-blit fuel (d + 1) (src + 1) (poke m d (m src)) xs (omega arith) next_apart
        (IsString-frame m (poke m d (m src)) (src + 1) xs (λ a low high. ground arith) rest) in
    (m', rw (ne→== (m src) 0 (λ e. ne (sym at ∙ e))) ran, λ a. same a ∙ ground arith)
  where
    next_apart : CopiesUp (d + 1) (src + 1) (suc (length xs))
    next_apart = ground arith

IsString-copy :
    (m m' : Memory) (s d : ℕ) (xs : List ℕ)
    → ((i : ℕ) → i < suc (length xs) → m' (d + i) ≡ m (s + i))
    → IsString m s xs
    → IsString m' d xs
IsString-copy m m' s d [] same h = ground (arith, same 0 (omega arith))
IsString-copy m m' s d (x ∷ xs) same (at, ne, rest) = (
  ground (arith, same 0 (omega arith)),
  ne,
  IsString-copy m m' (s + 1) (d + 1) xs (λ i lt. ground (arith, same (suc i) (omega arith))) rest,
)

-- Where the two do not overlap, and with fuel beyond the length of the source, `strcpy` returns its
-- destination, which then holds the string; and it changes no byte but those of the copy.
pub strcpy-IsString :
    (fuel dest src : ℕ) (m : Memory) (xs : List ℕ)
    → length xs < fuel
    → CopiesUp dest src (suc (length xs))
    → IsString m src xs
    → (strcpy fuel dest src m ≡ done (dest, blit m dest src (suc (length xs))))
      × IsString (blit m dest src (suc (length xs))) dest xs
unfolding strcpy
strcpy-IsString fuel dest src m xs enough apart h =
    let (m', ran, same) = copy_string-blit fuel dest src m xs enough apart h in
    (
      rw ran (ap (λ (g : Memory). done (dest, g)) (fun_ext same)),
      IsString-copy m (blit m dest src (suc (length xs))) src dest xs (λ i lt. ground arith) h,
    )

IsString-append :
    (m m' : Memory) (s : ℕ) (xs ys : List ℕ)
    → ((a : ℕ) → a < s + length xs → m' a ≡ m a)
    → IsString m s xs
    → IsString m' (s + length xs) ys
    → IsString m' s (xs ++ ys)
IsString-append m m' s [] ys same hx hy = IsString-at m' ys (omega arith) hy
IsString-append m m' s (x ∷ xs) ys same (at, ne, rest) hy = (
  same s (omega arith) ∙ at,
  ne,
  IsString-append m m' (s + 1) xs ys (λ a lt. same a (omega arith)) rest
      (IsString-at m' ys (omega arith) hy),
)

-- Where the source does not overlap the end of the destination, and with fuel beyond both lengths,
-- `strcat` returns its destination, which then holds the two strings one behind the other; and it
-- changes no byte but those of the copy.
pub strcat-append :
    (fuel dest src : ℕ) (m : Memory) (xs ys : List ℕ)
    → length xs < fuel
    → length ys < fuel
    → CopiesUp (dest + length xs) src (suc (length ys))
    → IsString m dest xs
    → IsString m src ys
    → (strcat fuel dest src m ≡ done (dest, blit m (dest + length xs) src (suc (length ys))))
      × IsString (blit m (dest + length xs) src (suc (length ys))) dest (xs ++ ys)
unfolding strcat
strcat-append fuel dest src m xs ys enough_x enough_y apart hx hy =
    let (m', ran, same) = copy_string-blit fuel (dest + length xs) src m ys enough_y apart hy in
    let result = blit m (dest + length xs) src (suc (length ys)) in
    (
      rw (strlen-length fuel dest m xs enough_x hx, ran)
          (ap (λ (g : Memory). done (dest, g)) (fun_ext same)),
      IsString-append m result dest xs ys (λ a lt. ground arith) hx
          (IsString-copy m result src (dest + length xs) ys (λ i lt. ground arith) hy),
    )

-- What `strncpy` leaves at an address.
abbrev pub padded : Memory → ℕ → ℕ → ℕ → ℕ → Memory
padded m dest src len n a =
    if leb dest a && ltb a (dest + n)
    then (if ltb a (dest + len) then m (src + (a - dest)) else 0)
    else m a

strncpy_loop-padded :
    (k i dest src : ℕ) (m : Memory) (xs : List ℕ)
    → CopiesUp (dest + i) (src + i) (suc (length xs))
    → IsString m (src + i) xs
    → (a : ℕ) → strncpy_loop k i dest src m a ≡ padded m (dest + i) (src + i) (length xs) k a
unfolding strncpy_loop
strncpy_loop-padded zero i dest src m xs apart h a = ground arith
strncpy_loop-padded (suc k) i dest src m [] apart h a =
    rw h (ground (arith, fill_up_at (suc k) i dest 0 m a))
strncpy_loop-padded (suc k) i dest src m (x ∷ xs) apart (at, ne, rest) a =
    rw (ne→== (m (src + i)) 0 (λ e. ne (sym at ∙ e))) (
      strncpy_loop-padded k (i + 1) dest src (poke m (dest + i) (m (src + i))) xs next_apart
        next_string a
      ∙ ground arith)
  where
    next_apart : CopiesUp (dest + (i + 1)) (src + (i + 1)) (suc (length xs))
    next_apart = ground arith

    next_string : IsString (poke m (dest + i) (m (src + i))) (src + (i + 1)) xs
    next_string = IsString-at (poke m (dest + i) (m (src + i))) xs (omega arith) (
        IsString-frame m (poke m (dest + i) (m (src + i))) (src + i + 1) xs
          (λ b low high. ground arith) rest)

-- Where the two do not overlap, `strncpy` returns its destination, sets the `n` bytes there to the
-- first `n` of the string with zeroes behind it, and changes no other byte.
pub strncpy-padded :
    (dest src n : ℕ) (m : Memory) (xs : List ℕ)
    → CopiesUp dest src (suc (length xs))
    → IsString m src xs
    → strncpy dest src n m ≡ (dest, padded m dest src (length xs) n)
unfolding strncpy
strncpy-padded dest src n m xs apart h =
    ap (λ (g : Memory). (dest, g))
      (fun_ext λ a.
        strncpy_loop-padded n 0 dest src m xs start (IsString-at m xs (omega arith) h) a
        ∙ ground arith)
  where
    start : CopiesUp (dest + 0) (src + 0) (suc (length xs))
    start = ground arith
