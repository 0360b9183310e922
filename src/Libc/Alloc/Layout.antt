-- ===== src/Libc/Alloc/Layout.antt =====
-- The blocks of the heap in address order, and how writes to their headers change what is read.
use zigu.Base.{
  ℕ, ◌+◌, ◌%◌, ◌<◌, ◌≤◌, ◌≡◌, ◌⊎◌, inl, arith, Bool, true, false, not, ◌==◌, ◌&&◌, ◌||◌,
  if◌then◌else◌, List, [], ◌∷◌,
}
use zigu.Memory.{Memory}
use zigu.Memory.Word.{store64, load64-store64_apart}
use zigu.Libc.Alloc.State.{block_magic, block_size, magic, header_size}

pub record Block : Type 0 where
  pub at : ℕ
  pub size : ℕ
  pub live : Bool

-- From `a` up to `end` the memory holds the headers of the blocks, each behind the last one's bytes.
abbrev pub Tiles : Memory → ℕ → ℕ → List Block → Type 0
Tiles m a end [] = a ≡ end
Tiles m a end (b ∷ bs) =
    (b.at ≡ a)
    × (block_size m a ≡ b.size)
    × (b.size % 16 ≡ 0)
    × (magic m a ≡ (if b.live then block_magic else 0))
    × Tiles m (a + header_size + b.size) end bs

-- Whether a header stands at `f`; whether it is that of a free block; whether it is that of a live
-- block of `n` bytes.
abbrev pub is_header : ℕ → List Block → Bool
is_header f [] = false
is_header f (b ∷ bs) = b.at == f || is_header f bs

abbrev pub is_free : ℕ → List Block → Bool
is_free f [] = false
is_free f (b ∷ bs) = (b.at == f && not b.live) || is_free f bs

abbrev pub is_live : ℕ → ℕ → List Block → Bool
is_live f n [] = false
is_live f n (b ∷ bs) = (b.at == f && (b.size == n && b.live)) || is_live f n bs

-- The block at `f` becomes live, or free.
abbrev pub set_live : ℕ → Bool → List Block → List Block
set_live f live [] = []
set_live f live (b ∷ bs) = (if b.at == f then record b { live = live } else b) ∷ set_live f live bs

pub Tiles-le : (m : Memory) (a end : ℕ) (bs : List Block) → Tiles m a end bs → a ≤ end
Tiles-le m a end [] t = omega arith
Tiles-le m a end (b ∷ bs) t = omega (arith, Tiles-le m (a + header_size + b.size) end bs t.4)

-- A write below the blocks changes none of them.
pub Tiles-store_below :
    (m : Memory) (c v a end : ℕ) (bs : List Block)
    → c + 8 ≤ a
    → Tiles m a end bs
    → Tiles (store64 m c v) a end bs
Tiles-store_below m c v a end [] h t = t
Tiles-store_below m c v a end (b ∷ bs) h (at, size, aligned, mark, rest) = (
  at,
  rw (load64-store64_apart m c a v (inl h)) size,
  aligned,
  rw (load64-store64_apart m c (a + 16) v (inl (omega arith))) mark,
  Tiles-store_below m c v (a + header_size + b.size) end bs (omega arith) rest,
)

module _ (m : Memory) where
  pub header_bounds :
      (f a end : ℕ) (bs : List Block)
      → Tiles m a end bs
      → is_header f bs ≡ true
      → (a ≤ f) × (f + header_size ≤ end)
  header_bounds f a end [] t h = cc
  header_bounds f a end (b ∷ bs) t h = ground (
    arith,
    Tiles-le m (a + header_size + b.size) end bs t.4,
    header_bounds f (a + header_size + b.size) end bs t.4,
  )

  pub live_bounds :
      (f n a end : ℕ) (bs : List Block)
      → Tiles m a end bs
      → is_live f n bs ≡ true
      → (a ≤ f) × (f + header_size + n ≤ end)
  live_bounds f n a end [] t h = cc
  live_bounds f n a end (b ∷ bs) t h = ground (
    arith,
    Tiles-le m (a + header_size + b.size) end bs t.4,
    live_bounds f n (a + header_size + b.size) end bs t.4,
  )

  -- Two headers are the same one, or do not overlap.
  pub headers_apart :
      (f g a end : ℕ) (bs : List Block)
      → Tiles m a end bs
      → is_header f bs ≡ true
      → is_header g bs ≡ true
      → (f ≡ g) ⊎ ((f + header_size ≤ g) ⊎ (g + header_size ≤ f))
  headers_apart f g a end [] t hf hg = cc
  headers_apart f g a end (b ∷ bs) t hf hg = ground (
    arith,
    header_bounds f (a + header_size + b.size) end bs t.4,
    header_bounds g (a + header_size + b.size) end bs t.4,
    headers_apart f g (a + header_size + b.size) end bs t.4,
  )

  -- A header does not overlap the bytes of a block.
  pub payload_apart :
      (f n q x a end : ℕ) (bs : List Block)
      → Tiles m a end bs
      → is_live f n bs ≡ true
      → is_header q bs ≡ true
      → f + header_size ≤ x
      → x < f + header_size + n
      → (x < q) ⊎ (q + header_size ≤ x)
  payload_apart f n q x a end [] t hf hq low high = cc
  payload_apart f n q x a end (b ∷ bs) t hf hq low high = ground (
    arith,
    live_bounds f n (a + header_size + b.size) end bs t.4,
    header_bounds q (a + header_size + b.size) end bs t.4,
    payload_apart f n q x (a + header_size + b.size) end bs t.4,
  )
