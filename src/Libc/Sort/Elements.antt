-- ===== src/Libc/Sort/Elements.antt =====
-- The elements of the array as lists of bytes, and what an exchange of two neighbours does to them.
use zigu.Base.{
  ℕ, zero, suc, ◌+◌, ◌-◌, ◌*◌, ◌≤◌, ◌<◌, ◌≡◌, ◌≢◌, ◌⊎◌, ◌==◌, ltb, leb, true, if◌then◌else◌,
  Bool-cases, ==→eq, ltb→lt, inl, inr, List, arith, refl,
}
use zigu.Memory.{Memory, bytes_at, blit}
use zigu.Libc.Bytes.Copy.{CopiesUp, copy_up_all}
use zigu.Libc.Sort.{swap_elements}
use zigu.Libc.Sort.Insertion.{exchange}

pub bytes_at-ext :
    (s t n : ℕ) (m m' : Memory)
    → ((i : ℕ) → i < n → m (s + i) ≡ m' (t + i))
    → bytes_at s n m ≡ bytes_at t n m'
unfolding bytes_at
bytes_at-ext s t zero m m' h = refl
bytes_at-ext s t (suc n) m m' h =
    let s0 : s + 0 ≡ s = omega arith in
    let t0 : t + 0 ≡ t = omega arith in
    let head : m s ≡ m' t = rw (s0, t0) at (h 0 (omega arith)) in
    rw
      (
        head,
        bytes_at-ext (s + 1) (t + 1) n m m' (λ i below. bytes_next i (h (suc i) (omega arith))),
      )
      refl
  where
    bytes_next : (i : ℕ) → m (s + suc i) ≡ m' (t + suc i) → m (s + 1 + i) ≡ m' (t + 1 + i)
    bytes_next i e =
        let es : s + suc i ≡ s + 1 + i = omega arith in
        let et : t + suc i ≡ t + 1 + i = omega arith in rw (es, et) at e

-- Two ranges of `n` and `k` bytes have no byte in common.
abbrev pub Apart : ℕ → ℕ → ℕ → ℕ → Type 0
Apart a n b k = (a + n ≤ b) ⊎ (b + k ≤ a)

blit-in : (m : Memory) (d s n i : ℕ) → i < n → blit m d s n (d + i) ≡ m (s + i)
blit-in m d s n i h =
    let offset : d + i - d ≡ i = omega arith in
    let low : leb d (d + i) ≡ true = ground arith in
    let high : ltb (d + i) (d + n) ≡ true = ground arith in rw (low, high, offset) refl

blit-out : (m : Memory) (d s n x : ℕ) → Apart x 1 d n → blit m d s n x ≡ m x
blit-out m d s n x h = ground arith

module _ (tmp size a b : ℕ) (m : Memory) (fits : size ≤ 256) (below : b + size ≤ a)
    (apart : Apart tmp size b (a + size - b)) where
  swap_elements-blit :
      swap_elements tmp size a b m ≡ blit (blit (blit m tmp a size) a b size) b tmp size
  unfolding swap_elements
  swap_elements-blit =
      let n : (if ltb size 256 then size else 256) ≡ size = ground arith in
      let m1 = blit m tmp a size in
      let m2 = blit m1 a b size in
      let up1 : CopiesUp tmp a size = elim apart [
        | inl h ↦ inl (omega arith)
        | inr h ↦ inr (omega arith)
      ] in
      let up2 : CopiesUp a b size = inr below in
      let up3 : CopiesUp b tmp size = elim apart [
        | inl h ↦ inr (omega arith)
        | inr h ↦ inl (omega arith)
      ] in
      rw
        (
          n,
          copy_up_all size tmp a m up1,
          copy_up_all size a b m1 up2,
          copy_up_all size b tmp m2 up3,
        )
        refl

  swap_elements-lower : (i : ℕ) → i < size → swap_elements tmp size a b m (b + i) ≡ m (a + i)
  swap_elements-lower i h =
      let m1 = blit m tmp a size in
      let m2 = blit m1 a b size in
      let out : Apart (tmp + i) 1 a size = elim apart [
        | inl k ↦ inl (omega arith)
        | inr k ↦ inr (omega arith)
      ] in
      rw
        (
          swap_elements-blit,
          blit-in m2 b tmp size i h,
          blit-out m1 a b size (tmp + i) out,
          blit-in m tmp a size i h,
        )
        refl

  swap_elements-upper : (i : ℕ) → i < size → swap_elements tmp size a b m (a + i) ≡ m (b + i)
  swap_elements-upper i h =
      let m1 = blit m tmp a size in
      let m2 = blit m1 a b size in
      let out : Apart (b + i) 1 tmp size = elim apart [
        | inl k ↦ inr (omega arith)
        | inr k ↦ inl (omega arith)
      ] in
      rw
        (
          swap_elements-blit,
          blit-out m2 b tmp size (a + i) (inr (omega arith)),
          blit-in m1 a b size i h,
          blit-out m tmp a size (b + i) out,
        )
        refl

  swap_elements-frame :
      (x : ℕ)
      → Apart x 1 tmp size
      → Apart x 1 a size
      → Apart x 1 b size
      → swap_elements tmp size a b m x ≡ m x
  swap_elements-frame x ht ha hb =
      let m1 = blit m tmp a size in
      let m2 = blit m1 a b size in
      rw
        (
          swap_elements-blit,
          blit-out m2 b tmp size x hb,
          blit-out m1 a b size x ha,
          blit-out m tmp a size x ht,
        )
        refl

-- Element `k` of the array at `arr`.
abbrev pub element : ℕ → ℕ → Memory → ℕ → List ℕ
element arr size m k = bytes_at (arr + k * size) size m

-- `tmp` is apart from the whole array.
abbrev pub Placed : ℕ → ℕ → ℕ → ℕ → Type 0
Placed tmp arr n size = Apart tmp size arr (n * size)

next_product : (j k size : ℕ) → j < k → j * size + size ≤ k * size
next_product j k size h = grind arith

pair-Placed :
    (tmp arr n size j : ℕ)
    → Placed tmp arr n size
    → suc j < n
    → (arr + j * size + size ≤ arr + suc j * size)
      × Apart tmp size (arr + j * size) (arr + suc j * size + size - (arr + j * size))
pair-Placed tmp arr n size j (inl h) hj =
    let p = next_product j (suc j) size (omega arith) in (omega (arith, p), inl (omega (arith, p)))
pair-Placed tmp arr n size j (inr h) hj =
    let p = next_product j (suc j) size (omega arith) in
    let q = next_product (suc j) n size hj in (omega (arith, p), inr (omega (arith, p, q)))

element-Apart :
    (arr size k l i : ℕ) → k ≢ l → i < size → Apart (arr + k * size + i) 1 (arr + l * size) size
element-Apart arr size k l i other h = elim (Bool-cases (ltb k l)) [
  | inl e ↦ inl (omega (arith, next_product k l size (ltb→lt k l e)))
  | inr e ↦ inr (omega (arith, next_product l k size (ground arith)))
]

element_outside :
    (tmp arr n size k i : ℕ)
    → Placed tmp arr n size
    → k < n
    → i < size
    → Apart (arr + k * size + i) 1 tmp size
element_outside tmp arr n size k i (inl h) hk hi = inr (omega arith)
element_outside tmp arr n size k i (inr h) hk hi = inl (omega (arith, next_product k n size hk))

pub swap_elements-exchange :
    (tmp arr n size j k : ℕ) (m : Memory)
    → size ≤ 256
    → Placed tmp arr n size
    → suc j < n
    → k < n
    → element arr size (swap_elements tmp size (arr + suc j * size) (arr + j * size) m) k
      ≡ exchange j (element arr size m) k
swap_elements-exchange tmp arr n size j k m fits placed hj hk =
    let a = arr + suc j * size in
    let b = arr + j * size in
    let swapped = swap_elements tmp size a b m in
    let (below, apart) = pair-Placed tmp arr n size j placed hj in
    elim (Bool-cases (k == j)) [
      | inl e ↦
          let here = ==→eq k j e in
          rw (e, here)
            (bytes_at-ext b a size swapped m (swap_elements-lower tmp size a b m fits below apart))
      | inr e ↦ rw e (elim (Bool-cases (k == suc j)) [
        | inl e1 ↦
            let here = ==→eq k (suc j) e1 in
            rw (e1, here)
              (bytes_at-ext a b size swapped m
                (swap_elements-upper tmp size a b m fits below apart))
        | inr e1 ↦ rw e1 (
            bytes_at-ext (arr + k * size) (arr + k * size) size swapped m (λ i h.
              swap_elements-frame tmp size a b m fits below apart (arr + k * size + i)
                (element_outside tmp arr n size k i placed hk h)
                (element-Apart arr size k (suc j) i (ground arith) h)
                (element-Apart arr size k j i (ground arith) h)))
      ])
    ]

pub swap_elements-frame_array :
    (tmp arr n size j x : ℕ) (m : Memory)
    → size ≤ 256
    → Placed tmp arr n size
    → suc j < n
    → Apart x 1 tmp size
    → Apart x 1 arr (n * size)
    → swap_elements tmp size (arr + suc j * size) (arr + j * size) m x ≡ m x
swap_elements-frame_array tmp arr n size j x m fits placed hj ht ha =
    let (below, apart) = pair-Placed tmp arr n size j placed hj in
    let q = next_product (suc j) n size hj in
    let upper : Apart x 1 (arr + suc j * size) size = elim ha [
      | inl h ↦ inl (omega arith)
      | inr h ↦ inr (omega (arith, q))
    ] in
    let lower : Apart x 1 (arr + j * size) size = elim ha [
      | inl h ↦ inl (omega arith)
      | inr h ↦ inr (omega (arith, q, below))
    ] in
    swap_elements-frame tmp size (arr + suc j * size) (arr + j * size) m fits below apart x ht upper
      lower
