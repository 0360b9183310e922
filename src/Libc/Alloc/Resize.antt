-- ===== src/Libc/Alloc/Resize.antt =====
-- What `realloc` promises.
use zigu.Base.{
  ℕ, zero, suc, ◌∷◌, ◌+◌, ◌^◌, ◌<◌, ◌≤◌, ◌≡◌, ◌≢◌, ◌⊎◌, inl, inr, refl, arith, true, false, ◌==◌,
  leb, leb→le, ltb, List, ◌∙◌, ap, sym, if◌then◌else◌, Run, done, length, ne→==, none, ◌>>=◌,
  Bool-cases,
}
use zigu.Memory.{Memory, blit}
use zigu.Libc.Bytes.{copy_up}
use zigu.Libc.Bytes.Copy.{copy_up_all}
use zigu.Libc.Alloc.{malloc, realloc, move_block, free}
use zigu.Libc.Alloc.State.{Heap, heap_size, header_size, align16}
use zigu.Libc.Alloc.Layout.{Block, is_live, set_live}
use zigu.Libc.Alloc.Walk.{fit}
use zigu.Libc.Alloc.Bump.{has_room}
use zigu.Libc.Alloc.Invariant.{IsPlaced, IsHeap}
use zigu.Libc.Alloc.LiveSet.{live_disjoint}
use zigu.Libc.Alloc.Release.{live_header}
use zigu.Libc.Alloc.Freeing.{IsFreed, free-IsFreed, header_of-ptr}
use zigu.Libc.Alloc.Contract.{request, IsGrant, Answer, refused, granted, malloc-Answer}
use zigu.Libc.Alloc.Payload.{IsGrant-write}

-- The block of `n` bytes behind the header `f` of `h` has moved to the block of `k` bytes behind the
-- header `g` of `h'`, with the first `size` of its bytes, or all where there are fewer.
pub record IsMove (libc_heap size : ℕ) (h h' : Heap) (bs bs' : List Block) (fs' : List ℕ)
    (f n g k : ℕ) : Type 0 where
  pub formed : IsHeap libc_heap h' bs' fs'
  pub live : is_live g k bs' ≡ true
  pub fresh : (j : ℕ) → is_live g j bs ≡ false
  pub gone : (j : ℕ) → is_live f j bs' ≡ false
  pub copied :
      (i : ℕ) → i < n → i < size → h'.memory (g + header_size + i) ≡ h.memory (f + header_size + i)
  pub others : (q j : ℕ) → q ≢ f → q ≢ g → is_live q j bs' ≡ is_live q j bs
  pub kept :
      (q j x : ℕ)
      → q ≢ f
      → is_live q j bs ≡ true
      → q + header_size ≤ x
      → x < q + header_size + j
      → h'.memory x ≡ h.memory x

-- The answers of `realloc` for the live block of `n` bytes behind the header `f`.
pub data Resized (libc_heap size : ℕ) (h : Heap) (bs : List Block) (fs : List ℕ) (f n : ℕ)
    : ℕ → Heap → Type 0 where
  freed :
      {h' : Heap} (bs' : List Block) (fs' : List ℕ)
      → size ≡ 0
      → IsFreed libc_heap h h' bs bs' fs' f
      → Resized libc_heap size h bs fs f n 0 h'
  unmoved :
      {p : ℕ}
      → p ≡ f + header_size
      → size ≢ 0
      → request size ≤ n
      → Resized libc_heap size h bs fs f n p h
  full :
      size ≢ 0
      → n < request size
      → fit h.memory (request size) fs ≡ none
      → has_room (request size) h ≡ false
      → Resized libc_heap size h bs fs f n 0 h
  moved :
      {p : ℕ} {h' : Heap} (g k : ℕ) (bs' : List Block) (fs' : List ℕ)
      → size ≢ 0
      → n < request size
      → p ≡ g + header_size
      → size ≤ k
      → IsMove libc_heap size h h' bs bs' fs' f n g k
      → Resized libc_heap size h bs fs f n p h'

module _ {libc_heap : ℕ} {h : Heap} {bs : List Block} {fs : List ℕ} (placed : IsPlaced libc_heap)
    (w : IsHeap libc_heap h bs fs) (f n : ℕ) (live : is_live f n bs ≡ true) where
  abbrev ptr : ℕ
  ptr = f + header_size

  module _ {h1 : Heap} {bs1 : List Block} {fs1 : List ℕ} (size g k : ℕ) (enough : size ≤ k)
      (grant : IsGrant libc_heap h h1 bs bs1 fs1 g k) where
    moves_off : f ≢ g
    moves_off e = cc (ap (λ q. is_live q n bs) e, live, grant.fresh n)

    still_live : is_live f n bs1 ≡ true
    still_live = grant.others f n moves_off ∙ live

    -- The bytes that are copied.
    abbrev count : ℕ
    count = if ltb n size then n else size

    abbrev copied_heap : Heap
    copied_heap = record h1 { memory = copy_up count 0 (g + header_size) ptr h1.memory }

    apart : (f + header_size + n ≤ g) ⊎ (g + header_size + k ≤ f)
    apart =
        live_disjoint h1.memory f n g k libc_heap (libc_heap + h1.heap_offset) bs1
          grant.formed.tiles still_live grant.live moves_off

    copies : copied_heap.memory ≡ blit h1.memory (g + header_size) ptr count
    copies = copy_up_all count (g + header_size) ptr h1.memory (ground (arith, apart))

    copied-IsGrant : IsGrant libc_heap h copied_heap bs bs1 fs1 g k
    copied-IsGrant =
        IsGrant-write grant copied_heap.memory
          (λ x out. ap (λ (m : Memory). m x) copies ∙ ground arith)

    move_free : move_block ptr size (g + header_size) h1 ≡ (g + header_size, free ptr copied_heap)
    unfolding move_block
    move_free = rw (
      header_of-ptr placed w f n live,
      (live_header h1.memory f n libc_heap (libc_heap + h1.heap_offset) bs1 grant.formed.tiles
          still_live).0,
    )

    moved-IsMove :
        (h' : Heap) (bs' : List Block) (fs' : List ℕ)
        → IsFreed libc_heap copied_heap h' bs1 bs' fs' f
        → IsMove libc_heap size h h' bs bs' fs' f n g k
    moved-IsMove h' bs' fs' after = record {
      formed = after.formed;
      live = after.others g k (λ e. moves_off (sym e)) ∙ grant.live;
      fresh = grant.fresh;
      gone = after.gone;
      copied = λ i in_old in_new.
          after.kept g k (g + header_size + i) grant.live (omega arith) (omega arith)
          ∙ ap (λ (m : Memory). m (g + header_size + i)) copies
          ∙ from_blit i in_old in_new
          ∙ grant.kept f n (ptr + i) live (omega arith) (omega arith);
      others = λ q j not_f not_g. after.others q j not_f ∙ grant.others q j not_g;
      kept = λ q j x not_f live_q low high.
          let not_g : q ≢ g = λ e. cc (ap (λ z. is_live z j bs) e, live_q, grant.fresh j) in
          after.kept q j x (grant.others q j not_g ∙ live_q) low high
          ∙ copied-IsGrant.kept q j x live_q low high;
    }
      where
        from_blit :
            (i : ℕ)
            → i < n
            → i < size
            → blit h1.memory (g + header_size) ptr count (g + header_size + i) ≡ h1.memory (ptr + i)
        from_blit i in_old in_new = ground arith

  -- What `realloc` does with the answer of `malloc`.
  abbrev after_malloc : ℕ → ℕ → Heap → Run (ℕ × Heap)
  after_malloc size p h1 = if p == 0 then done (0, h1) else done (move_block ptr size p h1)

  after_malloc-Resized :
      (size p : ℕ) (h1 : Heap)
      → size ≢ 0
      → n < request size
      → Answer libc_heap size h bs fs p h1
      → (q : ℕ) × (h' : Heap) × (after_malloc size p h1 ≡ done (q, h'))
        × Resized libc_heap size h bs fs f n q h'
  after_malloc-Resized size p h1 pos short (refused none_fits no_room) =
      (0, h, refl, full pos short none_fits no_room)
  after_malloc-Resized size p h1 pos short (granted g k bs1 fs1 at enough grant) =
      let after =
        free-IsFreed placed (copied-IsGrant size g k enough grant).formed f n
          (still_live size g k enough grant) in
      (
        g + header_size,
        free ptr (copied_heap size g k enough grant),
        rw at (
            rw (ne→== (g + header_size) 0 (omega arith))
              (ap done (move_free size g k enough grant))),
        moved g k (set_live f false bs1) (f ∷ fs1) pos short refl enough (
            moved-IsMove size g k enough grant (free ptr (copied_heap size g k enough grant))
              (set_live f false bs1) (f ∷ fs1) after),
      )

  realloc-branch :
      (fuel size : ℕ)
      → length fs < fuel
      → size + 47 + heap_size < 2 ^ 64
      → size ≢ 0
      → (q : ℕ) × (h' : Heap) × ((if leb (align16 size) n
            then done (ptr, h)
            else (malloc libc_heap fuel size h >>= λ r. after_malloc size r.0 r.1))
          ≡ done (q, h'))
        × Resized libc_heap size h bs fs f n q h'
  realloc-branch fuel size enough small pos = elim (Bool-cases (leb (align16 size) n)) [
    | inl fits ↦
        rw fits (
          ptr,
          h,
          refl,
          unmoved refl pos (omega (arith, same_request, leb→le (align16 size) n fits)),
        )
    | inr short ↦
        let (p, h1, ran, answer) = malloc-Answer placed w fuel size enough small in
        rw (short, ran) (after_malloc-Resized size p h1 pos (rw same_request (ground arith)) answer)
  ]
    where
      same_request : request size ≡ align16 size
      same_request = rw (ne→== size 0 pos)

  -- For a size with `size + 47 + heap_size < 2 ^ 64`, and with fuel above the number of free blocks,
  -- `realloc` of the pointer to a live block always returns. A request for 0 bytes frees the block and
  -- answers `NULL`. Where the block is large enough it is kept, and nothing changes. Otherwise the
  -- answer is `NULL` with nothing changed, where `malloc` has nothing to give; or a new block with
  -- the old bytes, where the old block is free and all other live blocks and their bytes are kept.
  pub realloc-Resized :
      (fuel size : ℕ)
      → length fs < fuel
      → size + 47 + heap_size < 2 ^ 64
      → (q : ℕ) × (h' : Heap) × (realloc libc_heap fuel ptr size h ≡ done (q, h'))
        × Resized libc_heap size h bs fs f n q h'
  unfolding realloc
  realloc-Resized fuel zero enough small = rw (ne→== ptr 0 (omega arith)) (
    0,
    free ptr h,
    refl,
    freed (set_live f false bs) (f ∷ fs) refl (free-IsFreed placed w f n live),
  )
  realloc-Resized fuel (suc size) enough small =
      rw
        (
          ne→== ptr 0 (omega arith),
          ne→== (suc size) 0 (omega arith),
          header_of-ptr placed w f n live,
          (live_header h.memory f n libc_heap (libc_heap + h.heap_offset) bs w.tiles live).0,
        )
        (realloc-branch fuel (suc size) enough small (omega arith))
