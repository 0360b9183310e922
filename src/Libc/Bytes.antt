-- ===== src/Libc/Bytes.antt =====
-- The `mem*` functions of kernel/libc_shim.c. Each loop is a function of its own, on the rounds that
-- are left. A function that takes a buffer returns the pointer that it is given and the new memory.
pub mod Copy
pub mod Fill
pub mod Compare
mod Tests
use zigu.Base.{ℕ, zero, suc, ◌+◌, ◌-◌, ◌%◌, ◌==◌, ltb, if◌then◌else◌}
use zigu.Base.Int.{ℤ, pos, sub_ℕ}
use zigu.Memory.{Memory, poke}

-- `for (i; i < n; i++) d[i] = s[i]`, with `n - i` rounds left
unfoldable pub copy_up : ℕ → ℕ → ℕ → ℕ → Memory → Memory
copy_up zero i d s m = m
copy_up (suc k) i d s m = copy_up k (i + 1) d s (poke m (d + i) (m (s + i)))

-- `for (i = n; i > 0; i--) d[i-1] = s[i-1]`
pub copy_down : ℕ → ℕ → ℕ → Memory → Memory
copy_down zero d s m = m
copy_down (suc i) d s m = copy_down i d s (poke m (d + i) (m (s + i)))

pub memcpy : ℕ → ℕ → ℕ → Memory → ℕ × Memory
unfolding copy_up
memcpy dest src n m = (dest, copy_up n 0 dest src m)

pub memmove : ℕ → ℕ → ℕ → Memory → ℕ × Memory
unfolding copy_up copy_down
memmove dest src n m =
    if ltb dest src
    then (dest, copy_up n 0 dest src m)
    else if ltb src dest
    then (dest, copy_down n dest src m)
    else (dest, m)

-- `for (i; i < n; i++) p[i] = (unsigned char)c`
unfoldable pub fill_up : ℕ → ℕ → ℕ → ℕ → Memory → Memory
fill_up zero i p c m = m
fill_up (suc k) i p c m = fill_up k (i + 1) p c (poke m (p + i) (c % 256))

pub memset : ℕ → ℕ → ℕ → Memory → ℕ × Memory
unfolding fill_up
memset s c n m = (s, fill_up n 0 s c m)

-- `for (i; i < n; i++) if (a[i] != b[i]) return a[i] - b[i]`
pub compare_up : ℕ → ℕ → ℕ → ℕ → Memory → ℤ
compare_up zero i a b m = pos 0
compare_up (suc k) i a b m =
    if m (a + i) == m (b + i) then compare_up k (i + 1) a b m else sub_ℕ (m (a + i)) (m (b + i))

pub memcmp : ℕ → ℕ → ℕ → Memory → ℤ
unfolding compare_up
memcmp s1 s2 n m = compare_up n 0 s1 s2 m
