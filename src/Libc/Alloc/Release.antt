-- ===== src/Libc/Alloc/Release.antt =====
-- `free` of a live block keeps the heap well formed.
use zigu.Base.{
  ℕ, ◌+◌, ◌%◌, ◌^◌, ◌<◌, ◌≡◌, inr, refl, arith, Bool, true, false, ◌&&◌, ◌||◌, ◌==◌, List, [], ◌∷◌,
  ◌∙◌, sym,
}
use zigu.Memory.{Memory}
use zigu.Memory.Word.{store64, store64_apart, load64-store64_self}
use zigu.Libc.Alloc.{release}
use zigu.Libc.Alloc.State.{Heap, header_size, block_magic, block_size, magic}
use zigu.Libc.Alloc.Layout.{
  Block, Tiles, is_header, is_free, is_live, set_live, header_bounds, headers_apart, live_bounds,
}
use zigu.Libc.Alloc.Writes.{Tiles-store_next, Tiles-store_magic}
use zigu.Libc.Alloc.Chain.{Chain, Chain-store-Far, has, Far}
use zigu.Libc.Alloc.Invariant.{IsPlaced, IsHeap, is_free-header, Outside}

pub is_live-header : (f n : ℕ) (bs : List Block) → is_live f n bs ≡ true → is_header f bs ≡ true
is_live-header f n [] h = cc
is_live-header f n (b ∷ bs) h = ground (arith, is_live-header f n bs)

-- A header belongs to one block, so a live block is not free.
pub live_not_free :
    (m : Memory) (f n a end : ℕ) (bs : List Block)
    → Tiles m a end bs
    → is_live f n bs ≡ true
    → is_free f bs ≡ false
live_not_free m f n a end [] t h = refl
live_not_free m f n a end (b ∷ bs) t h = ground (
  arith,
  live_not_free m f n (a + header_size + b.size) end bs t.4,
  live_bounds m f n (a + header_size + b.size) end bs t.4,
  header_bounds m f (a + header_size + b.size) end bs t.4,
  is_free-header f bs,
)

-- What the header of a live block holds.
pub live_header :
    (m : Memory) (f n a end : ℕ) (bs : List Block)
    → Tiles m a end bs
    → is_live f n bs ≡ true
    → (block_size m f ≡ n) × (magic m f ≡ block_magic) × (n % 16 ≡ 0)
live_header m f n a end [] t h = cc
live_header m f n a end (b ∷ bs) t h =
    ground (arith, live_header m f n (a + header_size + b.size) end bs t.4)

is_free-set_live-false :
    (g f : ℕ) (bs : List Block)
    → is_free g (set_live f false bs) ≡ ((is_header f bs && f == g) || is_free g bs)
is_free-set_live-false g f [] = refl
is_free-set_live-false g f (b ∷ bs) = ground (arith, is_free-set_live-false g f bs)

is_header-set_live :
    (g f : ℕ) (live : Bool) (bs : List Block) → is_header g (set_live f live bs) ≡ is_header g bs
is_header-set_live g f live [] = refl
is_header-set_live g f live (b ∷ bs) = ground (arith, is_header-set_live g f live bs)

module _ {libc_heap : ℕ} {h : Heap} {bs : List Block} {fs : List ℕ} (placed : IsPlaced libc_heap)
    (w : IsHeap libc_heap h bs fs) (f n : ℕ) (live : is_live f n bs ≡ true) where
  here : is_header f bs ≡ true
  here = is_live-header f n bs live

  free_list-lt :
      (p : ℕ) (gs : List ℕ)
      → Chain h.memory p gs
      → ((g : ℕ) → has g gs ≡ true → has g fs ≡ true)
      → p < 2 ^ 64
  free_list-lt p [] c sub = omega arith
  free_list-lt p (g ∷ gs) c sub =
      let bounds =
        header_bounds h.memory g libc_heap (libc_heap + h.heap_offset) bs w.tiles
          (is_free-header g bs (sym (w.listed g) ∙ sub g (ground arith))) in
      omega (arith, w.within, placed.in_space)

  far : Far f fs
  far g hg =
      let g_free : is_free g bs ≡ true = sym (w.listed g) ∙ hg in
      ground (
        arith,
        headers_apart h.memory f g libc_heap (libc_heap + h.heap_offset) bs w.tiles here
            (is_free-header g bs g_free),
        live_not_free h.memory f n libc_heap (libc_heap + h.heap_offset) bs w.tiles live,
      )

  pub release-IsHeap : IsHeap libc_heap (release f h) (set_live f false bs) (f ∷ fs)
  unfolding release
  release-IsHeap = record {
    tiles =
        Tiles-store_next (store64 h.memory (f + 16) 0) f h.free_list libc_heap
          (libc_heap + h.heap_offset) (set_live f false bs) (is_header-set_live f f false bs ∙ here)
          (Tiles-store_magic h.memory f false libc_heap (libc_heap + h.heap_offset) bs (inr here)
            w.tiles);
    within = w.within;
    chain = (
      refl,
      omega (
        arith,
        header_bounds h.memory f libc_heap (libc_heap + h.heap_offset) bs w.tiles here,
        placed.not_null,
      ),
      rw
          (load64-store64_self (store64 h.memory (f + 16) 0) (f + 8) h.free_list
            (free_list-lt h.free_list fs w.chain (λ g hg. hg)))
          (Chain-store-Far (store64 h.memory (f + 16) 0) f 8 h.free_list h.free_list fs
            (omega arith) far
            (Chain-store-Far h.memory f 16 0 h.free_list fs (omega arith) far w.chain)),
    );
    spread = (far, w.spread);
    listed = λ g. ground (arith, w.listed g, is_free-set_live-false g f bs, here);
  }

  pub release-Outside : (x : ℕ) → Outside x bs → (release f h).memory x ≡ h.memory x
  unfolding release
  release-Outside x out =
      let apart = out f here in
      store64_apart (store64 h.memory (f + 16) 0) (f + 8) x h.free_list (ground (arith, apart))
      ∙ store64_apart h.memory (f + 16) x 0 (ground (arith, apart))
