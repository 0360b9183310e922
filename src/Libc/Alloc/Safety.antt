-- ===== src/Libc/Alloc/Safety.antt =====
-- What the well-formed states say of the live blocks, and that the first state is well formed.
use zigu.Base.{
  ℕ, ◌+◌, ◌-◌, ◌%◌, ◌^◌, ◌<◌, ◌≤◌, ◌≡◌, ◌≢◌, ◌⊎◌, refl, arith, ap, ◌∙◌, true, List, [], done, suc,
}
use zigu.Memory.{Memory}
use zigu.Libc.Alloc.{malloc}
use zigu.Libc.Alloc.State.{Heap, head, heap_size, header_size}
use zigu.Libc.Alloc.Layout.{Block, is_live, live_bounds}
use zigu.Libc.Alloc.Invariant.{IsPlaced, IsHeap}
use zigu.Libc.Alloc.LiveSet.{live_aligned, live_disjoint}
use zigu.Libc.Alloc.Walk.{malloc_loop-serve}
use zigu.Libc.Alloc.Bump.{grown, bump-grown}
use zigu.Libc.Alloc.Contract.{request}

-- Before the first call nothing is used and the free list is empty.
abbrev pub first_heap : Memory → Heap
first_heap m = record { heap_offset = 0; free_list = 0; memory = m }

pub first_heap-IsHeap : (libc_heap : ℕ) (m : Memory) → IsHeap libc_heap (first_heap m) [] []
first_heap-IsHeap libc_heap m = record {
  tiles = omega arith;
  within = omega arith;
  chain = refl;
  spread = tt;
  listed = λ f. refl;
}

module _ {libc_heap : ℕ} {h : Heap} {bs : List Block} {fs : List ℕ} (placed : IsPlaced libc_heap)
    (w : IsHeap libc_heap h bs fs) where
  -- The bytes of a live block start at a multiple of 16 and lie in the array; and those of two
  -- live blocks do not overlap.
  pub live_blocks_safe :
      (f n g k : ℕ)
      → is_live f n bs ≡ true
      → is_live g k bs ≡ true
      → f ≢ g
      → ((f + header_size) % 16 ≡ 0)
        × (libc_heap + header_size ≤ f + header_size)
        × (f + header_size + n ≤ libc_heap + heap_size)
        × ((f + header_size + n ≤ g + header_size) ⊎ (g + header_size + k ≤ f + header_size))
  live_blocks_safe f n g k live_f live_g ne =
      let bounds =
        live_bounds h.memory f n libc_heap (libc_heap + h.heap_offset) bs w.tiles live_f in
      (
        live_aligned h.memory f n libc_heap (libc_heap + h.heap_offset) bs w.tiles placed.aligned
            live_f,
        omega arith,
        omega (arith, w.within),
        ground (
          arith,
          live_disjoint h.memory f n g k libc_heap (libc_heap + h.heap_offset) bs w.tiles live_f
              live_g ne,
        ),
      )

-- The last 15 sizes of the type wrap to 0 in `ALIGN16`: with an empty free list and room for a header
-- `malloc` answers with a block of no bytes.
pub malloc_wrapped :
    {libc_heap : ℕ} {h : Heap} {bs : List Block} (w : IsHeap libc_heap h bs []) (fuel size : ℕ)
    → 2 ^ 64 - 15 ≤ size
    → size < 2 ^ 64
    → h.heap_offset + header_size ≤ heap_size
    → malloc libc_heap (suc fuel) size h
      ≡ done (libc_heap + h.heap_offset + header_size, grown libc_heap 0 h)
unfolding malloc
malloc_wrapped {libc_heap} {h} w fuel size huge small room = rw wraps (
    malloc_loop-serve libc_heap (suc fuel) 0 head h.free_list [] h (omega arith) w.chain
    ∙ ap done (bump-grown w 0 refl (omega arith) ∙ ground arith))
  where
    wraps : request size ≡ 0
    wraps = ground arith
