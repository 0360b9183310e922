-- ===== src/Libc/Alloc/Bump.antt =====
-- `malloc` with a new block at the end of the used part keeps the heap well formed.
use zigu.Base.{
  ℕ, ◌+◌, ◌%◌, ◌^◌, ◌<◌, ◌≤◌, ◌≡◌, arith, Bool, true, List, [], ◌∷◌, ◌++◌, ◌∙◌, sym, if◌then◌else◌,
  leb,
}
use zigu.Libc.Alloc.{bump}
use zigu.Libc.Alloc.State.{Heap, heap_size, header_size}
use zigu.Libc.Alloc.Layout.{Block, header_bounds}
use zigu.Libc.Alloc.Chain.{Chain-frame, has}
use zigu.Libc.Alloc.Invariant.{IsHeap, is_free-header}
use zigu.Libc.Alloc.Stamp.{new_block, stamped, Tiles-stamped, stamped_below, is_free-append_live}

-- Whether a block of `size` bytes still fits behind the used part.
abbrev pub has_room : ℕ → Heap → Bool
has_room size h = leb (h.heap_offset + header_size + size) heap_size

-- The state with a new block of `size` bytes.
abbrev pub grown : ℕ → ℕ → Heap → Heap
grown libc_heap size h = record h {
  heap_offset = h.heap_offset + header_size + size;
  memory = stamped h.memory (libc_heap + h.heap_offset) size;
}

module _ {libc_heap : ℕ} {h : Heap} {bs : List Block} {fs : List ℕ} (w : IsHeap libc_heap h bs fs)
    (size : ℕ) (aligned : size % 16 ≡ 0) (small : size + header_size + heap_size < 2 ^ 64) where
  abbrev hdr : ℕ
  hdr = libc_heap + h.heap_offset

  pub bump-grown :
      bump libc_heap size h
      ≡ (if has_room size h then (hdr + header_size, grown libc_heap size h) else (0, h))
  unfolding bump
  bump-grown = rw (exact_size, exact_offset) (ground (arith, exact_sum))
    where
      exact_size : (header_size + size) % 2 ^ 64 ≡ header_size + size
      exact_size = omega arith

      exact_sum : h.heap_offset + (header_size + size) ≡ h.heap_offset + header_size + size
      exact_sum = omega arith

      exact_offset :
          (h.heap_offset + (header_size + size)) % 2 ^ 64 ≡ h.heap_offset + (header_size + size)
      exact_offset = omega (arith, w.within)

  pub grown-IsHeap :
      has_room size h ≡ true
      → IsHeap libc_heap (grown libc_heap size h) (bs ++ new_block hdr size ∷ []) fs
  grown-IsHeap room = record {
    tiles = rw new_end (Tiles-stamped h.memory hdr size libc_heap bs aligned (omega arith) w.tiles);
    within = ground arith;
    chain =
        Chain-frame h.memory (stamped h.memory hdr size) h.free_list fs
          (λ g hg. stamped_below h.memory hdr size (g + 8) (below g hg)) w.chain;
    spread = w.spread;
    listed = λ g. w.listed g ∙ sym (is_free-append_live g hdr size bs);
  }
    where
      new_end : libc_heap + (h.heap_offset + header_size + size) ≡ hdr + header_size + size
      new_end = omega arith

      below : (g : ℕ) → has g fs ≡ true → g + 8 + 8 ≤ hdr
      below g hg = omega (
        arith,
        header_bounds h.memory g libc_heap hdr bs w.tiles
            (is_free-header g bs (sym (w.listed g) ∙ hg)),
      )
