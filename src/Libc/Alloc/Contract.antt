-- ===== src/Libc/Alloc/Contract.antt =====
-- What `malloc` and `free` promise their callers.
use zigu.Base.{
  ℕ, ◌+◌, ◌%◌, ◌^◌, ◌<◌, ◌≤◌, ◌≡◌, ◌≢◌, inl, inr, refl, arith, true, false, ◌==◌, List, [], ◌∷◌,
  ◌++◌, ◌∙◌, sym, if◌then◌else◌, Option, none, some, Bool-cases, done, length,
}
use zigu.Libc.Alloc.{malloc, take_block}
use zigu.Libc.Alloc.State.{Heap, head, heap_size, header_size, align16, block_size}
use zigu.Libc.Alloc.Layout.{Block, is_live, is_free, set_live, live_bounds, payload_apart}
use zigu.Libc.Alloc.Chain.{has, without, link_before}
use zigu.Libc.Alloc.Walk.{fit, fit-some, serve, malloc_loop-serve}
use zigu.Libc.Alloc.Invariant.{IsPlaced, IsHeap, Outside}
use zigu.Libc.Alloc.LiveSet
use zigu.Libc.Alloc.Stamp.{new_block, stamped_outside}
use zigu.Libc.Alloc.Take.{take_block-IsHeap, take_block-Outside}
use zigu.Libc.Alloc.Bump.{has_room, grown, bump-grown, grown-IsHeap}
use zigu.Libc.Alloc.Release.{live_not_free}

-- The bytes that `malloc` looks for when `size` are asked for.
abbrev pub request : ℕ → ℕ
request size = align16 (if size == 0 then 1 else size)

pub request_bounds :
    (size : ℕ)
    → size + 47 + heap_size < 2 ^ 64
    → (size ≤ request size)
      × (request size % 16 ≡ 0)
      × (request size + header_size + heap_size < 2 ^ 64)
request_bounds size h = ground arith

-- `h'` has one more live block than `h`, of `n` bytes behind the header `f`, and the bytes of all
-- other live blocks are the same in both.
pub record IsGrant (libc_heap : ℕ) (h h' : Heap) (bs bs' : List Block) (fs' : List ℕ) (f n : ℕ)
    : Type 0 where
  pub formed : IsHeap libc_heap h' bs' fs'
  pub live : is_live f n bs' ≡ true
  pub fresh : (k : ℕ) → is_live f k bs ≡ false
  pub others : (g k : ℕ) → g ≢ f → is_live g k bs' ≡ is_live g k bs
  pub kept :
      (g k x : ℕ)
      → is_live g k bs ≡ true
      → g + header_size ≤ x
      → x < g + header_size + k
      → h'.memory x ≡ h.memory x

-- The two answers to a request for `size` bytes: `NULL` with nothing changed, where no free block is
-- large enough and a new one has no room; or a pointer behind the header of a new live block.
pub data Answer (libc_heap size : ℕ) (h : Heap) (bs : List Block) (fs : List ℕ)
    : ℕ → Heap → Type 0 where
  refused :
      fit h.memory (request size) fs ≡ none
      → has_room (request size) h ≡ false
      → Answer libc_heap size h bs fs 0 h
  granted :
      (f n : ℕ) {p : ℕ} {h' : Heap} (bs' : List Block) (fs' : List ℕ)
      → p ≡ f + header_size
      → size ≤ n
      → IsGrant libc_heap h h' bs bs' fs' f n
      → Answer libc_heap size h bs fs p h'

module _ {libc_heap : ℕ} {h : Heap} {bs : List Block} {fs : List ℕ} (placed : IsPlaced libc_heap)
    (w : IsHeap libc_heap h bs fs) where
  pub Outside-of_live :
      (g k x : ℕ)
      → is_live g k bs ≡ true
      → g + header_size ≤ x
      → x < g + header_size + k
      → Outside x bs
  Outside-of_live g k x live low high q hq =
      payload_apart h.memory g k q x libc_heap (libc_heap + h.heap_offset) bs w.tiles live hq low
        high

  not_live_of_free : (f k : ℕ) → is_free f bs ≡ true → is_live f k bs ≡ false
  not_live_of_free f k free_f = elim (Bool-cases (is_live f k bs)) [
    | inl yes_live ↦
        absurd (
          cc (live_not_free h.memory f k libc_heap (libc_heap + h.heap_offset) bs w.tiles yes_live))
    | inr e ↦ e
  ]

  take_block-IsGrant :
      (f : ℕ) (among : has f fs ≡ true)
      → IsGrant libc_heap h
          (take_block (link_before head f fs) f h).1
          bs
          (set_live f true bs)
          (without f fs)
          f
          (block_size h.memory f)
  take_block-IsGrant f among =
      let free_f : is_free f bs ≡ true = sym (w.listed f) ∙ among in
      record {
        formed = take_block-IsHeap placed w f among;
        live =
            LiveSet.is_live-set_live-true h.memory f libc_heap (libc_heap + h.heap_offset) bs
              w.tiles free_f;
        fresh = λ k. not_live_of_free f k free_f;
        others = λ g k ne. LiveSet.is_live-set_live_other g k f true bs ne;
        kept = λ g k x live low high.
            take_block-Outside placed w f among x (Outside-of_live g k x live low high);
      }

  grown-IsGrant :
      (size : ℕ)
      → size % 16 ≡ 0
      → size + header_size + heap_size < 2 ^ 64
      → has_room size h ≡ true
      → IsGrant libc_heap h
          (grown libc_heap size h)
          bs
          (bs ++ new_block (libc_heap + h.heap_offset) size ∷ [])
          fs
          (libc_heap + h.heap_offset)
          size
  grown-IsGrant size aligned small room = record {
    formed = grown-IsHeap w size aligned small room;
    live = LiveSet.is_live-append_new (libc_heap + h.heap_offset) size bs;
    fresh = λ k. fresh_hdr k;
    others = λ g k ne. LiveSet.is_live-append_other g k (libc_heap + h.heap_offset) size bs ne;
    kept = λ g k x live low high. stamped_outside h.memory (libc_heap + h.heap_offset) size x (
        inl (
          omega (
            arith,
            live_bounds h.memory g k libc_heap (libc_heap + h.heap_offset) bs w.tiles live,
          )));
  }
    where
      fresh_hdr : (k : ℕ) → is_live (libc_heap + h.heap_offset) k bs ≡ false
      fresh_hdr k = elim (Bool-cases (is_live (libc_heap + h.heap_offset) k bs)) [
        | inl e ↦ absurd (
            omega (
              arith,
              live_bounds h.memory (libc_heap + h.heap_offset) k libc_heap
                  (libc_heap + h.heap_offset) bs w.tiles e,
            ))
        | inr e ↦ e
      ]

  serve-Answer :
      (size : ℕ)
      → size + 47 + heap_size < 2 ^ 64
      → (o : Option ℕ) → fit h.memory (request size) fs ≡ o
      → Answer libc_heap size h bs fs
          (serve libc_heap (request size) head fs h o).0
          (serve libc_heap (request size) head fs h o).1
  serve-Answer size small none e = elim (Bool-cases (has_room (request size) h)) [
    | inl room ↦
        rw (bump-grown w (request size) aligned fits, room)
          (granted (libc_heap + h.heap_offset) (request size)
            (bs ++ new_block (libc_heap + h.heap_offset) (request size) ∷ []) fs refl enough
            (grown-IsGrant (request size) aligned fits room))
    | inr full ↦ rw (bump-grown w (request size) aligned fits, full) (refused e full)
  ]
    where
      enough : size ≤ request size
      enough = (request_bounds size small).0

      aligned : request size % 16 ≡ 0
      aligned = (request_bounds size small).1

      fits : request size + header_size + heap_size < 2 ^ 64
      fits = (request_bounds size small).2
  serve-Answer size small (some f) e =
      let (among, large) = fit-some h.memory (request size) f fs e in
      granted f (block_size h.memory f) (set_live f true bs) (without f fs) (take_block-pointer f)
        (omega (arith, request_bounds size small)) (take_block-IsGrant f among)
    where
      take_block-pointer : (g : ℕ) → (take_block (link_before head g fs) g h).0 ≡ g + header_size
      take_block-pointer g = unfold take_block in refl

  -- For a size with `size + 47 + heap_size < 2 ^ 64`, and with fuel above the number of free blocks, `malloc`
  -- on a well-formed heap always returns. It answers `NULL` and changes nothing, where
  -- no free block is large enough and a new one has no room; or it returns a pointer to a block of at
  -- least `size` bytes that was not live before, keeps all other live blocks and their bytes, and
  -- leaves a well-formed heap.
  pub malloc-Answer :
      (fuel size : ℕ)
      → length fs < fuel
      → size + 47 + heap_size < 2 ^ 64
      → (p : ℕ) × (h' : Heap) × (malloc libc_heap fuel size h ≡ done (p, h'))
        × Answer libc_heap size h bs fs p h'
  unfolding malloc
  malloc-Answer fuel size enough small =
      let r = serve libc_heap (request size) head fs h (fit h.memory (request size) fs) in
      (
        r.0,
        r.1,
        malloc_loop-serve libc_heap fuel (request size) head h.free_list fs h enough w.chain,
        serve-Answer size small (fit h.memory (request size) fs) refl,
      )
