-- ===== src/Libc/Alloc/Held.antt =====
-- The blocks that a program holds after any history of `malloc` and `free` of kernel/libc_shim.c.
use zigu.Base.{ℕ, ◌+◌, ◌%◌, ◌≤◌, ◌≡◌, ◌≢◌, ◌⊎◌, inl, inr, List, [], ◌∷◌, All, arith}
use zigu.Libc.Alloc.State.{Heap, heap_size}
use zigu.Libc.Alloc.Layout.{Block, live_bounds}
use zigu.Libc.Alloc.LiveSet.{live_aligned}
use zigu.Libc.Alloc.Invariant.{IsPlaced, IsHeap}
use zigu.Libc.Alloc.Safety.{live_blocks_safe}
use zigu.Libc.Alloc.History.{Reaches, IsBacked, Differ, Distinct, Reaches-Backs}

-- The bytes of a block are aligned and lie in the array.
abbrev pub IsInside : ℕ → ℕ × ℕ → Type 0
IsInside libc_heap (p, size) = (p % 16 ≡ 0) × (libc_heap ≤ p) × (p + size ≤ libc_heap + heap_size)

-- The bytes of two blocks do not overlap.
abbrev pub AreApart : ℕ × ℕ → ℕ × ℕ → Type 0
AreApart (p, size) (q, n) = (p + size ≤ q) ⊎ (q + n ≤ p)

abbrev pub Safe : ℕ → List (ℕ × ℕ) → Type 0
Safe libc_heap [] = Unit
Safe libc_heap (block ∷ held) =
    IsInside libc_heap block × All (AreApart block) held × Safe libc_heap held

module _ {libc_heap : ℕ} {h : Heap} {bs : List Block} {fs : List ℕ} (placed : IsPlaced libc_heap)
    (w : IsHeap libc_heap h bs fs) where
  IsBacked-IsInside : (p size : ℕ) → IsBacked bs (p, size) → IsInside libc_heap (p, size)
  IsBacked-IsInside p size (f, n, at, fits, live) =
      let bounds = live_bounds h.memory f n libc_heap (libc_heap + h.heap_offset) bs w.tiles live in
      let aligned =
        live_aligned h.memory f n libc_heap (libc_heap + h.heap_offset) bs w.tiles placed.aligned
          live in
      (rw at aligned, omega (arith, bounds, at), omega (arith, bounds, at, fits, w.within))

  IsBacked-AreApart :
      (p size q k : ℕ)
      → IsBacked bs (p, size)
      → IsBacked bs (q, k)
      → q ≢ p
      → AreApart (p, size) (q, k)
  IsBacked-AreApart p size q k (f, n, at, fits, live) (g, m, at_q, fits_q, live_q) ne =
      let other : f ≢ g = λ same. ne (omega (arith, same, at, at_q)) in
      let (aligned, low, high, apart) = live_blocks_safe placed w f n g m live live_q other in
      elim apart [
        | inl before ↦ inl (omega (arith, before, at, at_q, fits))
        | inr behind ↦ inr (omega (arith, behind, at, at_q, fits_q))
      ]

  Differ-AreApart :
      (p size : ℕ) (held : List (ℕ × ℕ))
      → IsBacked bs (p, size)
      → All (IsBacked bs) held
      → Differ p held
      → All (AreApart (p, size)) held
  Differ-AreApart p size [] here backed differ = tt
  Differ-AreApart p size ((q, k) ∷ held) here (first, backed) (ne, differ) =
      (IsBacked-AreApart p size q k here first ne, Differ-AreApart p size held here backed differ)

  Distinct-Safe :
      (held : List (ℕ × ℕ)) → All (IsBacked bs) held → Distinct held → Safe libc_heap held
  Distinct-Safe [] backed distinct = tt
  Distinct-Safe ((p, size) ∷ held) (first, backed) (differ, distinct) = (
    IsBacked-IsInside p size first,
    Differ-AreApart p size held first backed differ,
    Distinct-Safe held backed distinct,
  )

-- From the first state on, `malloc` is called for sizes with `size + 47 + heap_size < 2 ^ 64`, with enough fuel,
-- pointers that were given and not freed are passed to `free`, and the program writes into the bytes that it asked
-- for, in any order: then the blocks that it holds begin at multiples of 16, lie in the array with the bytes that
-- were asked for, and no two of them overlap.
pub Reaches-Safe :
    {libc_heap : ℕ} {h : Heap} {held : List (ℕ × ℕ)}
    → IsPlaced libc_heap
    → Reaches libc_heap h held
    → Safe libc_heap held
Reaches-Safe {libc_heap} {h} {held} placed reached =
    let (bs, fs, w, backed, distinct) = Reaches-Backs placed h held reached in
    Distinct-Safe placed w held backed distinct
