-- ===== src/Libc/Sort/Tests.antt =====
-- A run of `qsort` on single bytes, and its theorem at that array.
use zigu.Base.{ℕ, ◌≡◌, Bool, ltb, refl, arith, List, get_or, inr}
use zigu.Base.Int.{ℤ, sub_ℕ}
use zigu.Memory.{Memory, bytes_at}
use zigu.Memory.Sample.{codes, place}
use zigu.Libc.Bytes.{copy_up}
use zigu.Libc.Sort.{qsort}
use zigu.Libc.Sort.Sorting.{Compares, Sorted, qsort-Sorted}

-- `*a - *b`, and the order of the first bytes.
abbrev compare_bytes : ℕ → ℕ → Memory → ℤ
compare_bytes a b m = sub_ℕ (m a) (m b)

abbrev first_less : List ℕ → List ℕ → Bool
first_less xs ys = ltb (get_or xs 0 0) (get_or ys 0 0)

abbrev array : Memory
array = place 100 (codes "cadbea")

sorted_bytes : bytes_at 100 6 (qsort 500 100 6 1 compare_bytes array) ≡ codes "aabcde"
unfolding qsort bytes_at copy_up
sorted_bytes = refl

compare_bytes-Compares : Compares compare_bytes 1 first_less
unfolding bytes_at
compare_bytes-Compares a b m = ground arith

qsort-Sorted_example : Sorted 500 100 6 1 first_less array (qsort 500 100 6 1 compare_bytes array)
qsort-Sorted_example =
    qsort-Sorted 500 100 6 1 compare_bytes first_less array compare_bytes-Compares
      (λ xs ys h. ground arith) (omega arith) (inr (omega arith))
