-- ===== src/Libc/Strings.antt =====
-- The `str*` functions of kernel/libc_shim.c. A loop that runs to the terminator takes fuel; a counted
-- loop recurs on the rounds that are left. A `char` is its byte; two are equal where their bytes are.
pub mod IsString
pub mod Length
pub mod Compare
pub mod Find
pub mod Search
pub mod Build
mod Tests
use zigu.Base.{
  ℕ, zero, suc, ◌+◌, ◌-◌, ◌%◌, ◌==◌, ◌&&◌, not, Bool, if◌then◌else◌, Run, done, out_of_fuel, ◌>>=◌,
}
use zigu.Base.Int.{ℤ, pos, sub_ℕ}
use zigu.Memory.{Memory, poke}
use zigu.Libc.Bytes.{fill_up}

-- `while (s[n]) n++`
pub strlen_loop : ℕ → ℕ → ℕ → Memory → Run ℕ
strlen_loop zero s n m = out_of_fuel
strlen_loop (suc fuel) s n m =
    let rest = strlen_loop fuel s (n + 1) m in if m (s + n) == 0 then done n else rest

pub strlen : ℕ → ℕ → Memory → Run ℕ
unfolding strlen_loop
strlen fuel s m = strlen_loop fuel s 0 m

-- `while (*s1 && *s1 == *s2) { s1++; s2++; }`, and the difference at the end
pub strcmp : ℕ → ℕ → ℕ → Memory → Run ℤ
strcmp zero s1 s2 m = out_of_fuel
strcmp (suc fuel) s1 s2 m =
    let rest = strcmp fuel (s1 + 1) (s2 + 1) m in
    if not (m s1 == 0) && (m s1 == m s2) then rest else done (sub_ℕ (m s1) (m s2))

pub strncmp_loop : ℕ → ℕ → ℕ → ℕ → Memory → ℤ
strncmp_loop zero i s1 s2 m = pos 0
strncmp_loop (suc k) i s1 s2 m =
    if not (m (s1 + i) == m (s2 + i))
    then sub_ℕ (m (s1 + i)) (m (s2 + i))
    else if m (s1 + i) == 0
    then pos 0
    else strncmp_loop k (i + 1) s1 s2 m

pub strncmp : ℕ → ℕ → ℕ → Memory → ℤ
unfolding strncmp_loop
strncmp s1 s2 n m = strncmp_loop n 0 s1 s2 m

-- The argument `c` is an `int`, of which the loop looks at the low byte.
pub strchr : ℕ → ℕ → ℕ → Memory → Run ℕ
strchr zero s c m = out_of_fuel
strchr (suc fuel) s c m =
    let rest = strchr fuel (s + 1) c m in
    if m s == 0 then done (if c == 0 then s else 0) else if m s == c % 256 then done s else rest

pub strrchr_loop : ℕ → ℕ → ℕ → ℕ → Memory → Run ℕ
strrchr_loop zero s c last m = out_of_fuel
strrchr_loop (suc fuel) s c last m =
    let rest = strrchr_loop fuel (s + 1) c (if m s == c % 256 then s else last) m in
    if m s == 0 then done (if c == 0 then s else last) else rest

pub strrchr : ℕ → ℕ → ℕ → Memory → Run ℕ
unfolding strrchr_loop
strrchr fuel s c m = strrchr_loop fuel s c 0 m

-- `while ((*d++ = *src++))`
pub copy_string : ℕ → ℕ → ℕ → Memory → Run Memory
copy_string zero d src m = out_of_fuel
copy_string (suc fuel) d src m =
    let copied = poke m d (m src) in
    let rest = copy_string fuel (d + 1) (src + 1) copied in if m src == 0 then done copied else rest

pub strcpy : ℕ → ℕ → ℕ → Memory → Run (ℕ × Memory)
unfolding copy_string
strcpy fuel dest src m = do m' ← copy_string fuel dest src m; done (dest, m')

-- The two loops of `strncpy`: the second sets what is left to `'\0'`.
pub strncpy_loop : ℕ → ℕ → ℕ → ℕ → Memory → Memory
strncpy_loop zero i dest src m = m
strncpy_loop (suc k) i dest src m =
    if m (src + i) == 0
    then fill_up (suc k) i dest 0 m
    else strncpy_loop k (i + 1) dest src (poke m (dest + i) (m (src + i)))

pub strncpy : ℕ → ℕ → ℕ → Memory → ℕ × Memory
unfolding strncpy_loop
strncpy dest src n m = (dest, strncpy_loop n 0 dest src m)

-- `while (*h && *n && *h == *n) { h++; n++; }`: where `n` stops
pub match_loop : ℕ → ℕ → ℕ → Memory → Run ℕ
match_loop zero h n m = out_of_fuel
match_loop (suc fuel) h n m =
    let rest = match_loop fuel (h + 1) (n + 1) m in
    if not (m h == 0) && (not (m n == 0) && (m h == m n)) then rest else done n

pub strstr_loop : ℕ → ℕ → ℕ → Memory → Run ℕ
strstr_loop zero haystack needle m = out_of_fuel
strstr_loop (suc fuel) haystack needle m =
    let rest = strstr_loop fuel (haystack + 1) needle m in
    if m haystack == 0
    then done 0
    else do n ← match_loop (suc fuel) haystack needle m; if m n == 0 then done haystack else rest

pub strstr : ℕ → ℕ → ℕ → Memory → Run ℕ
unfolding strstr_loop match_loop
strstr fuel haystack needle m =
    if m needle == 0 then done haystack else strstr_loop fuel haystack needle m

-- `while (n < maxlen && s[n]) n++`
pub strnlen_loop : ℕ → ℕ → ℕ → Memory → ℕ
strnlen_loop zero s n m = n
strnlen_loop (suc k) s n m = if m (s + n) == 0 then n else strnlen_loop k s (n + 1) m

pub strnlen : ℕ → ℕ → Memory → ℕ
unfolding strnlen_loop
strnlen s maxlen m = strnlen_loop maxlen s 0 m

pub strcat : ℕ → ℕ → ℕ → Memory → Run (ℕ × Memory)
unfolding strlen copy_string
strcat fuel dest src m = do
  n ← strlen fuel dest m
  m' ← copy_string fuel (dest + n) src m
  done (dest, m')
