-- ===== src/Libc/Alloc/LiveSet.antt =====
-- The live blocks as a set: which ones an operation adds and removes, and where they lie.
use zigu.Base.{ℕ, ◌+◌, ◌%◌, ◌≤◌, ◌≡◌, ◌≢◌, ◌⊎◌, refl, arith, Bool, true, false, List, [], ◌∷◌, ◌++◌}
use zigu.Memory.{Memory}
use zigu.Libc.Alloc.State.{header_size, block_size}
use zigu.Libc.Alloc.Layout.{Block, Tiles, is_free, is_live, set_live, live_bounds}
use zigu.Libc.Alloc.Stamp.{new_block}

-- The change of mark at `f` concerns no other block.
pub is_live-set_live_other :
    (g k f : ℕ) (live : Bool) (bs : List Block)
    → g ≢ f
    → is_live g k (set_live f live bs) ≡ is_live g k bs
is_live-set_live_other g k f live [] ne = refl
is_live-set_live_other g k f live (b ∷ bs) ne =
    ground (arith, is_live-set_live_other g k f live bs ne)

pub is_live-set_live-true :
    (m : Memory) (f a end : ℕ) (bs : List Block)
    → Tiles m a end bs
    → is_free f bs ≡ true
    → is_live f (block_size m f) (set_live f true bs) ≡ true
is_live-set_live-true m f a end [] t h = cc
is_live-set_live-true m f a end (b ∷ bs) t h =
    ground (arith, is_live-set_live-true m f (a + header_size + b.size) end bs t.4)

pub is_live-set_live-false : (f k : ℕ) (bs : List Block) → is_live f k (set_live f false bs) ≡ false
is_live-set_live-false f k [] = refl
is_live-set_live-false f k (b ∷ bs) = ground (arith, is_live-set_live-false f k bs)

pub is_live-append_other :
    (g k at size : ℕ) (bs : List Block)
    → g ≢ at
    → is_live g k (bs ++ new_block at size ∷ []) ≡ is_live g k bs
is_live-append_other g k at size [] ne = ground arith
is_live-append_other g k at size (b ∷ bs) ne =
    ground (arith, is_live-append_other g k at size bs ne)

pub is_live-append_new :
    (at size : ℕ) (bs : List Block) → is_live at size (bs ++ new_block at size ∷ []) ≡ true
is_live-append_new at size [] = ground arith
is_live-append_new at size (b ∷ bs) = ground (arith, is_live-append_new at size bs)

module _ (m : Memory) where
  -- Live blocks start at multiples of 16 and do not overlap.
  pub live_aligned :
      (f n a end : ℕ) (bs : List Block)
      → Tiles m a end bs
      → a % 16 ≡ 0
      → is_live f n bs ≡ true
      → (f + header_size) % 16 ≡ 0
  live_aligned f n a end [] t al h = cc
  live_aligned f n a end (b ∷ bs) t al h =
      ground (arith, live_aligned f n (a + header_size + b.size) end bs t.4)

  pub live_disjoint :
      (f n g k a end : ℕ) (bs : List Block)
      → Tiles m a end bs
      → is_live f n bs ≡ true
      → is_live g k bs ≡ true
      → f ≢ g
      → (f + header_size + n ≤ g) ⊎ (g + header_size + k ≤ f)
  live_disjoint f n g k a end [] t hf hg ne = cc
  live_disjoint f n g k a end (b ∷ bs) t hf hg ne = ground (
    arith,
    live_bounds m f n (a + header_size + b.size) end bs t.4,
    live_bounds m g k (a + header_size + b.size) end bs t.4,
    live_disjoint f n g k (a + header_size + b.size) end bs t.4,
  )
