-- ===== src/Libc/Sort.antt =====
-- `qsort` of kernel/libc_shim.c: an insertion sort by swaps of neighbours. The comparison is a
-- parameter: it is called with the addresses of two elements and reads memory.
pub mod Insertion
pub mod Elements
pub mod Sorting
mod Tests
use zigu.Base.{ℕ, zero, suc, ◌+◌, ◌-◌, ◌*◌, Bool, true, false, ltb, if◌then◌else◌}
use zigu.Base.Int.{ℤ, pos, negsuc}
use zigu.Memory.{Memory}
use zigu.Libc.Bytes.{copy_up}

abbrev pub is_negative : ℤ → Bool
is_negative (pos n) = false
is_negative (negsuc n) = true

-- The three calls of `memcpy`: at most the 256 bytes of `tmp` are exchanged.
pub swap_elements : ℕ → ℕ → ℕ → ℕ → Memory → Memory
swap_elements tmp size a b m =
    let n = if ltb size 256 then size else 256 in
    copy_up n 0 b tmp (copy_up n 0 a b (copy_up n 0 tmp a m))

-- `tmp` is the address of the local buffer.
module _ (compar : ℕ → ℕ → Memory → ℤ) (tmp arr size : ℕ) where
  -- `while (j > 0 && compar(…) < 0)`
  pub sink_loop : ℕ → Memory → Memory
  unfolding swap_elements
  sink_loop zero m = m
  sink_loop (suc j) m =
      let a = arr + suc j * size in
      let b = arr + j * size in
      let rest = sink_loop j (swap_elements tmp size a b m) in
      if is_negative (compar a b m) then rest else m

  -- `for (i; i < nmemb; i++)`, with `k` rounds left
  pub sort_loop : ℕ → ℕ → Memory → Memory
  unfolding sink_loop
  sort_loop zero i m = m
  sort_loop (suc k) i m = sort_loop k (i + 1) (sink_loop i m)

pub qsort : ℕ → ℕ → ℕ → ℕ → (ℕ → ℕ → Memory → ℤ) → Memory → Memory
unfolding sort_loop
qsort tmp base nmemb size compar m = sort_loop compar tmp base size (nmemb - 1) 1 m
