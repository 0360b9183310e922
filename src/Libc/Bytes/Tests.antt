-- ===== src/Libc/Bytes/Tests.antt =====
-- Runs of the `mem*` functions, and their theorems at concrete ranges.
use zigu.Base.{zero, suc, ◌-◌, ◌≡◌, refl, arith}
use zigu.Base.Int.{negsuc}
use zigu.Memory.{Memory, blit}
use zigu.Memory.Sample.{codes, place}
use zigu.Libc.Bytes.{memmove, memcmp}
use zigu.Libc.Bytes.Copy.{memmove-blit}
use zigu.Libc.Bytes.Compare.{Agree}

abbrev text : Memory
text = place 100 (codes "abcdabxd")

-- Ranges that overlap: `memmove` by one to the right.
memmove_right : (memmove 101 100 3 text).1 103 ≡ b'c'
unfolding memmove
memmove_right = refl

memcmp_greater : memcmp 100 104 4 text ≡ negsuc (b'x' - b'c' - 1)
unfolding memcmp
memcmp_greater = refl

memmove-blit_example : memmove 102 100 4 text ≡ (102, blit text 102 100 4)
memmove-blit_example = memmove-blit 102 100 4 text

same_start : Agree 100 104 text 0 2
same_start zero low high = refl
same_start (suc zero) low high = refl
same_start (suc (suc j)) low high = absurd (omega arith)
