-- ===== src/Libc/Alloc/Stamp.antt =====
-- A new header behind the last block: what it holds, and that it leaves the blocks alone.
use zigu.Base.{
  ℕ, ◌+◌, ◌%◌, ◌^◌, ◌<◌, ◌≤◌, ◌≡◌, ◌⊎◌, inr, refl, arith, true, List, [], ◌∷◌, ◌++◌, ◌∙◌,
}
use zigu.Memory.{Memory}
use zigu.Memory.Word.{load64, store64, load64-store64_self, load64-store64_apart, store64_apart}
use zigu.Libc.Alloc.State.{header_size, block_magic, block_size, magic}
use zigu.Libc.Alloc.Layout.{Block, Tiles, is_free, Tiles-le}

Tiles-append :
    (m : Memory) (a mid end : ℕ) (bs cs : List Block)
    → Tiles m a mid bs
    → Tiles m mid end cs
    → Tiles m a end (bs ++ cs)
Tiles-append m a mid end [] cs t u = rw t u
Tiles-append m a mid end (b ∷ bs) cs (at, size, aligned, mark, rest) u =
    (at, size, aligned, mark, Tiles-append m (a + header_size + b.size) mid end bs cs rest u)

-- A write above the blocks changes none of them.
Tiles-store_above :
    (m : Memory) (c v a end : ℕ) (bs : List Block)
    → end ≤ c
    → Tiles m a end bs
    → Tiles (store64 m c v) a end bs
Tiles-store_above m c v a end [] above t = t
Tiles-store_above m c v a end (b ∷ bs) above (at, size, aligned, mark, rest) =
    let le = Tiles-le m (a + header_size + b.size) end bs rest in
    (
      at,
      load64-store64_apart m c a v (inr (omega arith)) ∙ size,
      aligned,
      load64-store64_apart m c (a + 16) v (inr (omega arith)) ∙ mark,
      Tiles-store_above m c v (a + header_size + b.size) end bs above rest,
    )

pub is_free-append_live :
    (g at size : ℕ) (bs : List Block)
    → is_free g (bs ++ record { at = at; size = size; live = true } ∷ []) ≡ is_free g bs
is_free-append_live g at size [] = ground arith
is_free-append_live g at size (b ∷ bs) = rw (is_free-append_live g at size bs)

abbrev pub new_block : ℕ → ℕ → Block
new_block at size = record { at = at; size = size; live = true }

module _ (m : Memory) (hdr size : ℕ) where
  -- The four words of a new header.
  abbrev pub stamped : Memory
  stamped =
      store64 (store64 (store64 (store64 m hdr size) (hdr + 8) 0) (hdr + 16) block_magic) (hdr + 24)
        0

  stamped_size : size < 2 ^ 64 → block_size stamped hdr ≡ size
  stamped_size h =
      rw
        (
          load64-store64_apart
              (store64 (store64 (store64 m hdr size) (hdr + 8) 0) (hdr + 16) block_magic) (hdr + 24)
              hdr 0 (inr (omega arith)),
          load64-store64_apart (store64 (store64 m hdr size) (hdr + 8) 0) (hdr + 16) hdr block_magic
              (inr (omega arith)),
          load64-store64_apart (store64 m hdr size) (hdr + 8) hdr 0 (inr (omega arith)),
        )
        (load64-store64_self m hdr size h)

  stamped-magic : magic stamped hdr ≡ block_magic
  stamped-magic =
      load64-store64_apart
        (store64 (store64 (store64 m hdr size) (hdr + 8) 0) (hdr + 16) block_magic) (hdr + 24)
        (hdr + 16) 0 (inr (omega arith))
      ∙ load64-store64_self (store64 (store64 m hdr size) (hdr + 8) 0) (hdr + 16) block_magic
          (omega arith)

  pub Tiles-stamped :
      (a : ℕ) (bs : List Block)
      → size % 16 ≡ 0
      → size < 2 ^ 64
      → Tiles m a hdr bs
      → Tiles stamped a (hdr + header_size + size) (bs ++ new_block hdr size ∷ [])
  Tiles-stamped a bs aligned small t =
      Tiles-append stamped a hdr (hdr + header_size + size) bs (new_block hdr size ∷ [])
        (Tiles-store_above
          (store64 (store64 (store64 m hdr size) (hdr + 8) 0) (hdr + 16) block_magic) (hdr + 24) 0 a
          hdr bs (omega arith)
          (Tiles-store_above (store64 (store64 m hdr size) (hdr + 8) 0) (hdr + 16) block_magic a hdr
            bs (omega arith)
            (Tiles-store_above (store64 m hdr size) (hdr + 8) 0 a hdr bs (omega arith)
              (Tiles-store_above m hdr size a hdr bs (omega arith) t))))
        (refl, stamped_size small, aligned, stamped-magic, refl)

  pub stamped_below : (g : ℕ) → g + 8 ≤ hdr → load64 stamped g ≡ load64 m g
  stamped_below g h =
      rw
        (
          load64-store64_apart
              (store64 (store64 (store64 m hdr size) (hdr + 8) 0) (hdr + 16) block_magic) (hdr + 24)
              g 0 (inr (omega arith)),
          load64-store64_apart (store64 (store64 m hdr size) (hdr + 8) 0) (hdr + 16) g block_magic
              (inr (omega arith)),
          load64-store64_apart (store64 m hdr size) (hdr + 8) g 0 (inr (omega arith)),
        )
        (load64-store64_apart m hdr g size (inr h))

  pub stamped_outside : (x : ℕ) → (x < hdr) ⊎ (hdr + header_size ≤ x) → stamped x ≡ m x
  stamped_outside x out =
      store64_apart (store64 (store64 (store64 m hdr size) (hdr + 8) 0) (hdr + 16) block_magic)
        (hdr + 24) x 0 (ground arith)
      ∙ store64_apart (store64 (store64 m hdr size) (hdr + 8) 0) (hdr + 16) x block_magic
          (ground arith)
      ∙ store64_apart (store64 m hdr size) (hdr + 8) x 0 (ground arith)
      ∙ store64_apart m hdr x size (ground arith)
