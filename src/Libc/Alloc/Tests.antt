-- ===== src/Libc/Alloc/Tests.antt =====
-- The theorems on the allocator at concrete states, and runs from the first state.
use zigu.Base.{
  ℕ, zero, suc, ◌<◌, ◌+◌, ◌-◌, ◌*◌, ◌^◌, ◌≡◌, refl, arith, done, [], ◌∷◌, ◌++◌, List, false,
}
use zigu.Libc.Alloc.{malloc, free, realloc, calloc}
use zigu.Libc.Alloc.State.{Heap, header_size}
use zigu.Libc.Alloc.Layout.{Block, set_live}
use zigu.Libc.Alloc.Invariant.{IsPlaced, IsHeap}
use zigu.Libc.Alloc.Stamp.{new_block}
use zigu.Libc.Alloc.Bump.{grown, grown-IsHeap}
use zigu.Libc.Alloc.Contract.{Answer, malloc-Answer}
use zigu.Libc.Alloc.Freeing.{IsFreed, free-IsFreed, free-free}
use zigu.Libc.Alloc.Zeroed.{Cleared, calloc-Cleared}
use zigu.Libc.Alloc.Resize.{Resized, realloc-Resized}
use zigu.Libc.Alloc.Safety.{first_heap, first_heap-IsHeap, malloc_wrapped}
use zigu.Libc.Alloc.History.{start, given}
use zigu.Libc.Alloc.Held.{Safe, Reaches-Safe}

-- The array at address 4096, in memory that is all 0.
abbrev base : ℕ
base = 4096

placed : IsPlaced base
placed = omega arith

abbrev booted : Heap
booted = first_heap (λ a. 0)

-- A block of 32 bytes, and one of 48 bytes behind it.
abbrev one : Heap
one = grown base 32 booted

abbrev one_block : List Block
one_block = [] ++ new_block base 32 ∷ []

one-IsHeap : IsHeap base one one_block []
one-IsHeap = grown-IsHeap (first_heap-IsHeap base (λ a. 0)) 32 refl (omega arith) refl

abbrev two : Heap
two = grown base 48 one

abbrev two_blocks : List Block
two_blocks = one_block ++ new_block (base + (0 + 32 + 32)) 48 ∷ []

two-IsHeap : IsHeap base two two_blocks []
two-IsHeap = grown-IsHeap one-IsHeap 48 refl (omega arith) refl

-- A request for 20 bytes from the first state is served behind the first header.
first_pointer : malloc base 1 20 booted ≡ done (base + 32, grown base 32 booted)
unfolding malloc
first_pointer = refl

malloc-Answer_example :
    (p : ℕ) × (h' : Heap) × (malloc base 1 100 two ≡ done (p, h'))
    × Answer base 100 two two_blocks [] p h'
malloc-Answer_example = malloc-Answer placed two-IsHeap 1 100 (omega arith) (omega arith)

free-IsFreed_example :
    IsFreed base two
      (free (4096 + 32) two)
      two_blocks
      (set_live 4096 false two_blocks)
      (4096 ∷ [])
      4096
free-IsFreed_example = free-IsFreed placed two-IsHeap 4096 32 refl

free-free_example : free (4096 + 32) (free (4096 + 32) two) ≡ free (4096 + 32) two
free-free_example = free-free placed two-IsHeap 4096 32 refl

calloc-Cleared_example :
    (p : ℕ) × (h' : Heap) × (calloc base 1 3 5 two ≡ done (p, h'))
    × Cleared placed two-IsHeap (3 * 5) p h'
calloc-Cleared_example = calloc-Cleared placed two-IsHeap 1 3 5 (omega arith) (omega arith)

realloc-Resized_example :
    (q : ℕ) × (h' : Heap) × (realloc base 1 (4096 + 32) 100 two ≡ done (q, h'))
    × Resized base 100 two two_blocks [] 4096 32 q h'
realloc-Resized_example =
    realloc-Resized placed two-IsHeap 4096 32 refl 1 100 (omega arith) (omega arith)

malloc_wrapped_example :
    malloc base 1 (2 ^ 64 - 1) one ≡ done (base + one.heap_offset + header_size, grown base 0 one)
malloc_wrapped_example =
    malloc_wrapped one-IsHeap 0 (2 ^ 64 - 1) (omega arith) (omega arith) (omega arith)

malloc_first :
    (fuel : ℕ) → 0 < fuel → malloc base fuel 20 booted ≡ done (base + 32, grown base 32 booted)
unfolding malloc
malloc_first zero h = absurd (omega (arith, h))
malloc_first (suc fuel) h = refl

malloc_second : (fuel : ℕ) → 0 < fuel → malloc base fuel 48 one ≡ done (base + 96, two)
unfolding malloc
malloc_second zero h = absurd (omega (arith, h))
malloc_second (suc fuel) h = refl

Reaches-Safe_example : Safe base ((base + 96, 48) ∷ (base + 32, 20) ∷ [])
Reaches-Safe_example = Reaches-Safe placed (
    given 48 (base + 96) (omega arith) (omega arith) (0, malloc_second)
      (given 20 (base + 32) (omega arith) (omega arith) (0, malloc_first) (start (λ a. 0))))
