-- ===== src/Libc/Alloc/Invariant.antt =====
-- The well-formed states of the allocator.
use zigu.Base.{ℕ, ◌+◌, ◌%◌, ◌^◌, ◌<◌, ◌≤◌, ◌≡◌, ◌⊎◌, arith, true, List, [], ◌∷◌}
use zigu.Libc.Alloc.State.{Heap, heap_size, header_size}
use zigu.Libc.Alloc.Layout.{Block, Tiles, is_header, is_free}
use zigu.Libc.Alloc.Chain.{Chain, Spread, has}

-- The static array `libc_heap` is aligned to 16 bytes, is not at `NULL`, and lies in the address space.
pub record IsPlaced (libc_heap : ℕ) : Type 0 where
  pub aligned : libc_heap % 16 ≡ 0
  pub not_null : 0 < libc_heap
  pub in_space : libc_heap + heap_size < 2 ^ 64

-- The used part of the array is made up of the blocks `bs`, and the free list leads through exactly
-- those that are free, each once.
pub record IsHeap (libc_heap : ℕ) (h : Heap) (bs : List Block) (fs : List ℕ) : Type 0 where
  pub tiles : Tiles h.memory libc_heap (libc_heap + h.heap_offset) bs
  pub within : h.heap_offset ≤ heap_size
  pub chain : Chain h.memory h.free_list fs
  pub spread : Spread fs
  pub listed : (f : ℕ) → has f fs ≡ is_free f bs

pub is_free-header : (f : ℕ) (bs : List Block) → is_free f bs ≡ true → is_header f bs ≡ true
is_free-header f [] h = cc
is_free-header f (b ∷ bs) h = ground (arith, is_free-header f bs)

-- The address belongs to no header.
abbrev pub Outside : ℕ → List Block → Type 0
Outside x bs = (q : ℕ) → is_header q bs ≡ true → (x < q) ⊎ (q + header_size ≤ x)
