-- ===== src/Libc/Alloc/Writes.antt =====
-- How a write to a header word changes the blocks.
use zigu.Base.{
  ℕ, ◌+◌, ◌^◌, ◌<◌, ◌≤◌, ◌≡◌, ◌⊎◌, inl, inr, arith, Bool, true, false, ◌==◌, if◌then◌else◌, List,
  [], ◌∷◌, Bool-cases, ◌∙◌, ap,
}
use zigu.Memory.{Memory}
use zigu.Memory.Word.{store64, load64-store64_self, load64-store64_apart}
use zigu.Libc.Alloc.State.{block_magic, block_size, magic, header_size}
use zigu.Libc.Alloc.Layout.{Block, Tiles, is_header, set_live, header_bounds, headers_apart}

-- Two memories with the same sizes and marks have the same blocks.
pub Tiles-frame :
    (m m' : Memory) (a end : ℕ) (bs : List Block)
    → ((f : ℕ)
        → is_header f bs ≡ true
        → (block_size m' f ≡ block_size m f) × (magic m' f ≡ magic m f))
    → Tiles m a end bs
    → Tiles m' a end bs
Tiles-frame m m' a end [] same t = t
Tiles-frame m m' a end (b ∷ bs) same (at, size, aligned, mark, rest) = (
  at,
  (same a here).0 ∙ size,
  aligned,
  (same a here).1 ∙ mark,
  Tiles-frame m m' (a + header_size + b.size) end bs (λ f h. same f (ground arith)) rest,
)
  where
    here : is_header a (b ∷ bs) ≡ true
    here = ground arith

-- A write to the `next_free` of a block changes none of the blocks.
pub Tiles-store_next :
    (m : Memory) (g v a end : ℕ) (bs : List Block)
    → is_header g bs ≡ true
    → Tiles m a end bs
    → Tiles (store64 m (g + 8) v) a end bs
Tiles-store_next m g v a end bs h t = Tiles-frame m (store64 m (g + 8) v) a end bs same t
  where
    same :
        (f : ℕ)
        → is_header f bs ≡ true
        → (block_size (store64 m (g + 8) v) f ≡ block_size m f)
          × (magic (store64 m (g + 8) v) f ≡ magic m f)
    same f hf =
        let apart = headers_apart m f g a end bs t hf h in
        (
          load64-store64_apart m (g + 8) f v (ground arith),
          load64-store64_apart m (g + 8) (f + 16) v (ground arith),
        )

-- The mark that a block carries.
abbrev pub mark_of : Bool → ℕ
mark_of live = if live then block_magic else 0

pub mark_of-lt : (live : Bool) → mark_of live < 2 ^ 64
mark_of-lt true = omega arith
mark_of-lt false = omega arith

-- A write to the mark of the block at `f`, which is one of these blocks or lies below them.
pub Tiles-store_magic :
    (m : Memory) (f : ℕ) (live : Bool) (a end : ℕ) (bs : List Block)
    → (f + header_size ≤ a) ⊎ (is_header f bs ≡ true)
    → Tiles m a end bs
    → Tiles (store64 m (f + 16) (mark_of live)) a end (set_live f live bs)
Tiles-store_magic m f live a end [] h t = t
Tiles-store_magic m f live a end (b ∷ bs) h (at, size, aligned, mark, rest) =
    elim (Bool-cases (b.at == f)) [
      | inl e ↦
          let same : a ≡ f = at_f e in
          rw e (
            at,
            load64-store64_apart m (f + 16) a (mark_of live) (inr (omega arith)) ∙ size,
            aligned,
            ap (λ x. magic (store64 m (f + 16) (mark_of live)) x) same
                ∙ load64-store64_self m (f + 16) (mark_of live) (mark_of-lt live),
            Tiles-store_magic m f live (a + header_size + b.size) end bs (inl (omega arith)) rest,
          )
      | inr e ↦ rw e (
        at,
        load64-store64_apart m (f + 16) a (mark_of live) (ground (arith, beyond e)) ∙ size,
        aligned,
        load64-store64_apart m (f + 16) (a + 16) (mark_of live) (ground (arith, beyond e)) ∙ mark,
        Tiles-store_magic m f live (a + header_size + b.size) end bs (later e) rest,
      )
    ]
  where
    at_f : (b.at == f) ≡ true → a ≡ f
    at_f e = ground arith

    later :
        (b.at == f) ≡ false → (f + header_size ≤ a + header_size + b.size) ⊎ (is_header f bs ≡ true)
    later e = ground arith

    beyond : (b.at == f) ≡ false → (f + header_size ≤ a) ⊎ (a + header_size ≤ f)
    beyond e = ground (arith, header_bounds m f (a + header_size + b.size) end bs rest)
