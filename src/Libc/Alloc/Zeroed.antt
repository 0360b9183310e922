-- ===== src/Libc/Alloc/Zeroed.antt =====
-- What `calloc` promises.
use zigu.Base.{
  ℕ, ◌+◌, ◌*◌, ◌%◌, ◌^◌, ◌<◌, ◌≤◌, ◌≡◌, ◌⊎◌, inl, inr, refl, arith, ◌==◌, List, if◌then◌else◌, Run,
  done, length, ne→==,
}
use zigu.Memory.{Memory}
use zigu.Libc.Bytes.{fill_up}
use zigu.Libc.Bytes.Fill.{fill_up_at}
use zigu.Libc.Alloc.{calloc}
use zigu.Libc.Alloc.State.{Heap, heap_size, header_size}
use zigu.Libc.Alloc.Layout.{Block}
use zigu.Libc.Alloc.Invariant.{IsPlaced, IsHeap}
use zigu.Libc.Alloc.Contract.{Answer, refused, granted, malloc-Answer}
use zigu.Libc.Alloc.Payload.{IsGrant-write}

-- The `n` bytes from `p` on are 0.
abbrev pub Zeroes : Memory → ℕ → ℕ → Type 0
Zeroes m p n = (i : ℕ) → i < n → m (p + i) ≡ 0

-- The state after `calloc` has cleared the block.
abbrev pub cleared : ℕ → ℕ → Heap → Heap
cleared total ptr h = record h { memory = fill_up total 0 ptr 0 h.memory }

-- What `calloc` does with the answer of `malloc`.
abbrev calloc_rest : ℕ → ℕ → Heap → Run (ℕ × Heap)
calloc_rest total ptr h = if ptr == 0 then done (ptr, h) else done (ptr, cleared total ptr h)

cleared-Zeroes : (total p : ℕ) (h : Heap) → Zeroes (cleared total p h).memory p total
cleared-Zeroes total p h i lt = ground (arith, fill_up_at total 0 p 0 h.memory (p + i))

module _ {libc_heap : ℕ} {h : Heap} {bs : List Block} {fs : List ℕ} (placed : IsPlaced libc_heap)
    (w : IsHeap libc_heap h bs fs) (total : ℕ) where
  -- What `calloc` promises of the pointer and the state that it returns.
  abbrev pub Cleared : ℕ → Heap → Type 0
  Cleared p h' = Answer libc_heap total h bs fs p h' × ((p ≡ 0) ⊎ Zeroes h'.memory p total)

  calloc_rest-Cleared :
      (p : ℕ) (h' : Heap)
      → Answer libc_heap total h bs fs p h'
      → (q : ℕ) × (h'' : Heap) × (calloc_rest total p h' ≡ done (q, h'')) × Cleared q h''
  calloc_rest-Cleared p h' (refused none_fits no_room) =
      (0, h, refl, (refused none_fits no_room, inl refl))
  calloc_rest-Cleared p h' (granted f n bs' fs' at enough grant) = (
    p,
    cleared total p h',
    rw (ne→== p 0 (omega arith)),
    (
      granted f n bs' fs' at enough (IsGrant-write grant (cleared total p h').memory inside),
      inr (cleared-Zeroes total p h'),
    ),
  )
    where
      inside :
          (x : ℕ)
          → (x < f + header_size) ⊎ (f + header_size + n ≤ x)
          → (cleared total p h').memory x ≡ h'.memory x
      inside x out = ground (arith, fill_up_at total 0 p 0 h'.memory x)

-- Where `nmemb * size + 47 + heap_size < 2 ^ 64`, and with fuel above the number of free
-- blocks, `calloc` on a well-formed heap always returns. It answers `NULL` and changes nothing, where
-- no free block is large enough and a new one has no room; or it returns a new live block as `malloc`
-- does, whose `nmemb * size` bytes are all 0.
pub calloc-Cleared :
    {libc_heap : ℕ} {h : Heap} {bs : List Block} {fs : List ℕ} (placed : IsPlaced libc_heap)
    (w : IsHeap libc_heap h bs fs) (fuel nmemb size : ℕ)
    → length fs < fuel
    → nmemb * size + 47 + heap_size < 2 ^ 64
    → (p : ℕ) × (h' : Heap) × (calloc libc_heap fuel nmemb size h ≡ done (p, h'))
      × Cleared placed w (nmemb * size) p h'
unfolding calloc
calloc-Cleared {libc_heap} {h} placed w fuel nmemb size enough small =
    let (p, h1, ran, answer) = malloc-Answer placed w fuel (nmemb * size) enough small in
    rw (exact, ran) (calloc_rest-Cleared placed w (nmemb * size) p h1 answer)
  where
    exact : nmemb * size % 2 ^ 64 ≡ nmemb * size
    exact = grind arith
