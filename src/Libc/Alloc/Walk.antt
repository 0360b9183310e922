-- ===== src/Libc/Alloc/Walk.antt =====
-- The loop of `malloc` finds the first free block that is large enough.
use zigu.Base.{
  ℕ, zero, suc, ◌<◌, ◌≤◌, ◌≡◌, ◌≢◌, refl, arith, true, false, if◌then◌else◌, List, [], ◌∷◌,
  Bool-cases, inl, inr, leb, le→leb, ne→==, ==_refl, ap, ◌∙◌, length, Option, none, some, done,
}
use zigu.Memory.{Memory}
use zigu.Libc.Alloc.{malloc_loop, bump, take_block}
use zigu.Libc.Alloc.State.{Heap, Link, field, block_size, next_free}
use zigu.Libc.Alloc.Chain.{Chain, has, link_before}

-- The first header of the list whose block holds `size` bytes.
abbrev pub fit : Memory → ℕ → List ℕ → Option ℕ
fit m size [] = none
fit m size (f ∷ fs) = if leb size (block_size m f) then some f else fit m size fs

-- What `malloc` does with the block that it found, or without one.
abbrev pub serve : ℕ → ℕ → Link → List ℕ → Heap → Option ℕ → ℕ × Heap
serve libc_heap size l fs h none = bump libc_heap size h
serve libc_heap size l fs h (some f) = take_block (link_before l f fs) f h

pub fit-some :
    (m : Memory) (size f : ℕ) (fs : List ℕ)
    → fit m size fs ≡ some f
    → (has f fs ≡ true) × (size ≤ block_size m f)
fit-some m size f [] e = cc
fit-some m size f (g ∷ fs) e = ground (arith, fit-some m size f fs)

-- A block that is too small is passed over.
serve_skip :
    (libc_heap size : ℕ) (l : Link) (f : ℕ) (fs : List ℕ) (h : Heap) (o : Option ℕ)
    → fit h.memory size fs ≡ o
    → leb size (block_size h.memory f) ≡ false
    → serve libc_heap size (field f) fs h o ≡ serve libc_heap size l (f ∷ fs) h o
serve_skip libc_heap size l f fs h none e small = refl
serve_skip libc_heap size l f fs h (some g) e small = rw (ne→== f g other)
  where
    other : f ≢ g
    other p = cc (
      ap (λ x. leb size (block_size h.memory x)) p,
      small,
      le→leb size (block_size h.memory g) (fit-some h.memory size g fs e).1,
    )

pub malloc_loop-serve :
    (libc_heap fuel size : ℕ) (l : Link) (p : ℕ) (fs : List ℕ) (h : Heap)
    → length fs < fuel
    → Chain h.memory p fs
    → malloc_loop libc_heap fuel size l p h
      ≡ done (serve libc_heap size l fs h (fit h.memory size fs))
unfolding malloc_loop
malloc_loop-serve libc_heap zero size l p fs h enough c = absurd (omega arith)
malloc_loop-serve libc_heap (suc fuel) size l p [] h enough c = rw c
malloc_loop-serve libc_heap (suc fuel) size l p (f ∷ fs) h enough (at, ne, rest) =
    rw (at, ne→== f 0 ne)
      (elim (Bool-cases (leb size (block_size h.memory f))) [
        | inl fits ↦ rw (fits, ==_refl f)
        | inr small ↦ rw small (
            malloc_loop-serve libc_heap fuel size (field f) (next_free h.memory f) fs h
              (omega arith) rest
            ∙ ap done (serve_skip libc_heap size l f fs h (fit h.memory size fs) refl small))
      ])
