-- ===== src/Libc/Alloc/Freeing.antt =====
-- What `free` promises, and how it and `malloc` work together.
use zigu.Base.{
  ℕ, ◌+◌, ◌^◌, ◌<◌, ◌≤◌, ◌≡◌, ◌≢◌, inl, inr, refl, arith, true, false, List, ◌∷◌, ◌∙◌, ap, done,
  length, suc, ne→==, some, ==_refl, le→leb,
}
use zigu.Memory.Word.{store64, load64-store64_self, load64-store64_apart}
use zigu.Libc.Alloc.{malloc, take_block, free, release, header_of}
use zigu.Libc.Alloc.State.{Heap, head, header_size, block_size, magic}
use zigu.Libc.Alloc.Layout.{Block, is_live, set_live, header_bounds}
use zigu.Libc.Alloc.Walk.{fit, malloc_loop-serve}
use zigu.Libc.Alloc.Invariant.{IsPlaced, IsHeap}
use zigu.Libc.Alloc.LiveSet
use zigu.Libc.Alloc.Contract.{request, Outside-of_live}
use zigu.Libc.Alloc.Release.{release-IsHeap, release-Outside, live_header, is_live-header}

-- `h'` has the live blocks of `h` but the one behind the header `f`, and the bytes of all live blocks
-- of `h` are the same in both.
pub record IsFreed (libc_heap : ℕ) (h h' : Heap) (bs bs' : List Block) (fs' : List ℕ) (f : ℕ)
    : Type 0 where
  pub formed : IsHeap libc_heap h' bs' fs'
  pub gone : (k : ℕ) → is_live f k bs' ≡ false
  pub others : (g k : ℕ) → g ≢ f → is_live g k bs' ≡ is_live g k bs
  pub kept :
      (g k x : ℕ)
      → is_live g k bs ≡ true
      → g + header_size ≤ x
      → x < g + header_size + k
      → h'.memory x ≡ h.memory x

module _ {libc_heap : ℕ} {h : Heap} {bs : List Block} {fs : List ℕ} (placed : IsPlaced libc_heap)
    (w : IsHeap libc_heap h bs fs) (f n : ℕ) (live : is_live f n bs ≡ true) where
  abbrev ptr : ℕ
  ptr = f + header_size

  ptr_range : (0 < f) × (ptr < 2 ^ 64)
  ptr_range =
      let bounds =
        header_bounds h.memory f libc_heap (libc_heap + h.heap_offset) bs w.tiles
          (is_live-header f n bs live) in
      (omega (arith, placed.not_null), omega (arith, w.within, placed.in_space))

  pub header_of-ptr : header_of ptr ≡ f
  header_of-ptr = omega (arith, ptr_range)

  pub free-release : free ptr h ≡ release f h
  unfolding free
  free-release = rw (
    ne→== ptr 0 (omega arith),
    header_of-ptr,
    (live_header h.memory f n libc_heap (libc_heap + h.heap_offset) bs w.tiles live).1,
  )

  -- Freeing the pointer to a live block makes that block free and no other, puts it in front of the
  -- free list, changes no byte of a live block, and leaves a well-formed heap.
  pub free-IsFreed : IsFreed libc_heap h (free ptr h) bs (set_live f false bs) (f ∷ fs) f
  free-IsFreed = rw free-release (record {
    formed = release-IsHeap placed w f n live;
    gone = λ k. LiveSet.is_live-set_live-false f k bs;
    others = λ g k ne. LiveSet.is_live-set_live_other g k f false bs ne;
    kept = λ g k x live_g low high.
        release-Outside placed w f n live x (Outside-of_live placed w g k x live_g low high);
  })

  magic-release : magic (release f h).memory f ≡ 0
  unfolding release
  magic-release =
      load64-store64_apart (store64 h.memory (f + 16) 0) (f + 8) (f + 16) h.free_list
        (inl (omega arith))
      ∙ load64-store64_self h.memory (f + 16) 0 (omega arith)

  -- A second `free` of the same pointer changes nothing.
  pub free-free : free ptr (free ptr h) ≡ free ptr h
  free-free = rw free-release (ignored (release f h) magic-release)
    where
      ignored : (h' : Heap) → magic h'.memory f ≡ 0 → free ptr h' ≡ h'
      ignored h' unmarked = unfold free in rw (ne→== ptr 0 (omega arith), header_of-ptr, unmarked)

  release_size : block_size (release f h).memory f ≡ n
  unfolding release
  release_size =
      load64-store64_apart (store64 h.memory (f + 16) 0) (f + 8) f h.free_list (inr (omega arith))
      ∙ load64-store64_apart h.memory (f + 16) f 0 (inr (omega arith))
      ∙ (live_header h.memory f n libc_heap (libc_heap + h.heap_offset) bs w.tiles live).0

  -- The block that was freed last serves the next request that it is large enough for.
  pub malloc-free :
      (fuel size : ℕ)
      → suc (length fs) < fuel
      → request size ≤ n
      → (h' : Heap) × (malloc libc_heap fuel size (free ptr h) ≡ done (ptr, h'))
  unfolding malloc
  malloc-free fuel size enough fits =
      let h1 = release f h in
      (
        (take_block head f h1).1,
        rw free-release (
            malloc_loop-serve libc_heap fuel (request size) head h1.free_list (f ∷ fs) h1 enough
              (release-IsHeap placed w f n live).chain
            ∙ ap done (rw (chosen h1 release_size, ==_refl f) (first h1))),
      )
    where
      chosen :
          (h1 : Heap) → block_size h1.memory f ≡ n → fit h1.memory (request size) (f ∷ fs) ≡ some f
      chosen h1 e = rw (e, le→leb (request size) n fits)

      first : (h1 : Heap) → take_block head f h1 ≡ (ptr, (take_block head f h1).1)
      first h1 = unfold take_block in refl
