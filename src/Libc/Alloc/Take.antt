-- ===== src/Libc/Alloc/Take.antt =====
-- `malloc` with a block of the free list keeps the heap well formed.
use zigu.Base.{
  ℕ, ◌+◌, ◌^◌, ◌<◌, ◌≡◌, inl, inr, refl, arith, true, not, ◌&&◌, ◌==◌, List, ◌∙◌, sym, ap,
}
use zigu.Memory.Word.{store64, store64_apart}
use zigu.Libc.Alloc.{take_block}
use zigu.Libc.Alloc.State.{Heap, head, block_magic, next_free, write_link}
use zigu.Libc.Alloc.Layout.{Block, Tiles, is_header, set_live, header_bounds}
use zigu.Libc.Alloc.Writes.{Tiles-store_next, Tiles-store_magic}
use zigu.Libc.Alloc.Chain.{Chain-unlink, Chain-store-Far, has, without, link_before}
use zigu.Libc.Alloc.Invariant.{IsPlaced, IsHeap, is_free-header, Outside}
use zigu.Libc.Alloc.Unlist.{
  has-without, is_free-set_live-true, Spread-without, Far-taken, link_before_head, Chain-next,
}

module _ {libc_heap : ℕ} {h : Heap} {bs : List Block} {fs : List ℕ} (placed : IsPlaced libc_heap)
    (w : IsHeap libc_heap h bs fs) (f : ℕ) (among : has f fs ≡ true) where
  listed_header : (g : ℕ) → has g fs ≡ true → is_header g bs ≡ true
  listed_header g hg = is_free-header g bs (sym (w.listed g) ∙ hg)

  abbrev unlinked : Heap
  unlinked = write_link (link_before head f fs) (next_free h.memory f) h

  next-lt : next_free h.memory f < 2 ^ 64
  next-lt = elim (Chain-next h.memory h.free_list f fs w.chain among) [
    | inl e ↦ rw e (omega arith)
    | inr hx ↦
        let bounds =
          header_bounds h.memory (next_free h.memory f) libc_heap (libc_heap + h.heap_offset) bs
            w.tiles (listed_header (next_free h.memory f) hx) in
        omega (arith, w.within, placed.in_space)
  ]

  unlinked_offset : unlinked.heap_offset ≡ h.heap_offset
  unlinked_offset = elim (link_before_head f fs) [ inl e ↦ rw e | inr (x, e, hx) ↦ rw e ]

  Tiles-unlinked : Tiles unlinked.memory libc_heap (libc_heap + h.heap_offset) bs
  Tiles-unlinked = elim (link_before_head f fs) [
    | inl e ↦ rw e w.tiles
    | inr (x, e, hx) ↦ rw e (
        Tiles-store_next h.memory x (next_free h.memory f) libc_heap (libc_heap + h.heap_offset) bs
          (listed_header x hx) w.tiles)
  ]

  unlinked-Outside : (x : ℕ) → Outside x bs → unlinked.memory x ≡ h.memory x
  unlinked-Outside x out = elim (link_before_head f fs) [
    | inl e ↦ rw e
    | inr (q, e, hq) ↦ rw e (
        store64_apart h.memory (q + 8) x (next_free h.memory f)
          (ground (arith, out q (listed_header q hq))))
  ]

  pub take_block-IsHeap :
      IsHeap libc_heap
        (take_block (link_before head f fs) f h).1
        (set_live f true bs)
        (without f fs)
  unfolding take_block
  take_block-IsHeap = record {
    tiles = rw unlinked_offset (
        Tiles-store_magic (store64 unlinked.memory (f + 8) 0) f true libc_heap
          (libc_heap + h.heap_offset) bs (inr (listed_header f among))
          (Tiles-store_next unlinked.memory f 0 libc_heap (libc_heap + h.heap_offset) bs
            (listed_header f among) Tiles-unlinked));
    within = rw unlinked_offset w.within;
    chain =
        let far = Far-taken f fs w.spread among in
        Chain-store-Far (store64 unlinked.memory (f + 8) 0) f 16 block_magic unlinked.free_list
          (without f fs) (omega arith) far
          (Chain-store-Far unlinked.memory f 8 0 unlinked.free_list (without f fs) (omega arith) far
            (Chain-unlink f (next_free h.memory f) head fs h next-lt among refl w.spread tt
              w.chain));
    spread = Spread-without f fs w.spread;
    listed = λ g.
        has-without g f fs w.spread
        ∙ ap (λ c. c && not (g == f)) (w.listed g)
        ∙ sym (is_free-set_live-true g f bs);
  }

  pub take_block-Outside :
      (x : ℕ) → Outside x bs → (take_block (link_before head f fs) f h).1.memory x ≡ h.memory x
  unfolding take_block
  take_block-Outside x out =
      let apart = out f (listed_header f among) in
      store64_apart (store64 unlinked.memory (f + 8) 0) (f + 16) x block_magic
        (ground (arith, apart))
      ∙ store64_apart unlinked.memory (f + 8) x 0 (ground (arith, apart))
      ∙ unlinked-Outside x out
