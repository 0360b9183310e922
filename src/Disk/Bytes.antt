-- ===== src/Disk/Bytes.antt =====
-- What `readBytes` of kernel/virtio_blk.zig reads, however its bytes lie in the sectors.
use zigu.Base.{
  ltb→lt, ℕ, zero, suc, ◌+◌, ◌-◌, ◌*◌, ◌/◌, ◌%◌, ◌^◌, ◌<◌, ◌≤◌, ◌≡◌, ◌==◌, ltb, leb, not,
  Bool-cases, true, false, some, inl, inr, List, [], ◌∷◌, ◌++◌, length, take, done, ◌>>=◌, refl, ap,
  ◌∙◌, arith,
}
use zigu.Udp.{skip}
use zigu.Disk.{Disk, prepend, to_copy, read_loop, read_bytes}

-- `n` bytes of the disk from `offset` on.
abbrev pub bytes : (ℕ → ℕ) → ℕ → ℕ → List ℕ
bytes content offset zero = []
bytes content offset (suc n) = content offset ∷ bytes content (suc offset) n

-- The sectors that `len` bytes from `offset` on touch can be read, and hold this content.
abbrev pub Holds : Disk → (ℕ → ℕ) → ℕ → ℕ → Type 0
Holds disk content offset len =
    (s : ℕ)
    → s * 512 < offset + len
    → offset < s * 512 + 512
    → disk.read_one_sector s ≡ some (bytes content (s * 512) 512)

pub length-bytes : (content : ℕ → ℕ) (offset n : ℕ) → length (bytes content offset n) ≡ n
length-bytes content offset zero = refl
length-bytes content offset (suc n) = ap suc (length-bytes content (suc offset) n)

bytes_cong :
    (content : ℕ → ℕ) (offset offset' n n' : ℕ)
    → offset ≡ offset'
    → n ≡ n'
    → bytes content offset n ≡ bytes content offset' n'
bytes_cong content offset offset' n n' e e' = rw (e, e') refl

pub bytes-append :
    (content : ℕ → ℕ) (offset m n : ℕ)
    → bytes content offset m ++ bytes content (offset + m) n ≡ bytes content offset (m + n)
bytes-append content offset zero n =
    bytes_cong content (offset + 0) offset n (0 + n) (omega arith) (omega arith)
bytes-append content offset (suc m) n =
    ap (λ l. content offset ∷ l)
      (ap (λ l. bytes content (suc offset) m ++ l)
          (bytes_cong content (offset + suc m) (suc offset + m) n n (omega arith) refl)
        ∙ bytes-append content (suc offset) m n)
    ∙ bytes_cong content offset offset (suc (m + n)) (suc m + n) refl (omega arith)

skip-bytes :
    (content : ℕ → ℕ) (k offset n : ℕ)
    → k ≤ n
    → skip k (bytes content offset n) ≡ bytes content (offset + k) (n - k)
skip-bytes content zero offset n h =
    bytes_cong content offset (offset + 0) n (n - 0) (omega arith) (omega arith)
skip-bytes content (suc k) offset zero h = absurd (omega (arith, h))
skip-bytes content (suc k) offset (suc n) h =
    skip-bytes content k (suc offset) n (omega (arith, h))
    ∙ bytes_cong content (suc offset + k) (offset + suc k) (n - k) (suc n - suc k) (omega arith)
        (omega arith)

take-bytes :
    (content : ℕ → ℕ) (m offset n : ℕ)
    → m ≤ n
    → take m (bytes content offset n) ≡ bytes content offset m
take-bytes content zero offset n h = refl
take-bytes content (suc m) offset zero h = absurd (omega (arith, h))
take-bytes content (suc m) offset (suc n) h =
    ap (λ l. content offset ∷ l) (take-bytes content m (suc offset) n (omega (arith, h)))

-- A part of a sector.
pub slice-bytes :
    (content : ℕ → ℕ) (offset n k m : ℕ)
    → k + m ≤ n
    → take m (skip k (bytes content offset n)) ≡ bytes content (offset + k) m
slice-bytes content offset n k m h =
    ap (take m) (skip-bytes content k offset n (omega (arith, h)))
    ∙ take-bytes content m (offset + k) (n - k) (omega (arith, h))

-- A round reads one byte at least, and no more than are left, or the sector has.
to_copy-bounds :
    (offset r : ℕ)
    → (1 ≤ to_copy offset (suc r))
      × (to_copy offset (suc r) ≤ suc r)
      × (offset % 512 + to_copy offset (suc r) ≤ 512)
to_copy-bounds offset r = elim (Bool-cases (ltb (suc r) (512 - offset % 512))) [
  | inl few ↦
      let fewer : suc r < 512 - offset % 512 = ltb→lt (suc r) (512 - offset % 512) few in
      rw few (omega arith, omega arith, omega (arith, fewer))
  | inr many ↦ rw many (omega arith, ground arith, omega arith)
]

read_loop-step :
    (fuel : ℕ) (disk : Disk) (offset r : ℕ) (sector : List ℕ)
    → disk.read_one_sector (offset / 512) ≡ some sector
    → offset + to_copy offset (suc r) < 2 ^ 64
    → let n = to_copy offset (suc r) in
      read_loop (suc fuel) disk offset (suc r) ≡ (
        read_loop fuel disk (offset + n) (suc r - n) >>= λ rest.
        done (prepend (take n (skip (offset % 512) sector)) rest))
unfolding read_loop
read_loop-step fuel disk offset r sector e fits =
    let inside : leb (2 ^ 64) (offset + to_copy offset (suc r)) ≡ false = ground (arith, fits) in
    rw (read_loop, e, inside) refl

read_loop-bytes :
    (fuel : ℕ) (disk : Disk) (content : ℕ → ℕ) (offset remaining : ℕ)
    → remaining < fuel
    → offset + remaining < 2 ^ 64
    → Holds disk content offset remaining
    → read_loop fuel disk offset remaining ≡ done (some (bytes content offset remaining))
unfolding read_loop
read_loop-bytes zero disk content offset remaining h fits holds = absurd (omega (arith, h))
read_loop-bytes (suc fuel) disk content offset zero h fits holds = refl
read_loop-bytes (suc fuel) disk content offset (suc r) h fits holds =
    let n = to_copy offset (suc r) in
    let (some_byte, few, inside) = to_copy-bounds offset r in
    let here = holds (offset / 512) (omega arith) (omega arith) in
    let start : offset / 512 * 512 + offset % 512 ≡ offset = omega arith in
    let part : take n (skip (offset % 512) (bytes content (offset / 512 * 512) 512))
        ≡ bytes content offset n =
      slice-bytes content (offset / 512 * 512) 512 (offset % 512) n inside
      ∙ bytes_cong content (offset / 512 * 512 + offset % 512) offset n n start refl in
    let later =
      read_loop-bytes fuel disk content (offset + n) (suc r - n) (omega (arith, h, some_byte, few))
        (omega (arith, fits, few))
        (λ s below above. holds s (omega (arith, below, few)) (omega (arith, above))) in
    let whole : bytes content offset n ++ bytes content (offset + n) (suc r - n)
        ≡ bytes content offset (suc r) =
      bytes-append content offset n (suc r - n)
      ∙ bytes_cong content offset offset (n + (suc r - n)) (suc r) refl (omega (arith, few)) in
    let sector = bytes content (offset / 512 * 512) 512 in
    read_loop-step fuel disk offset r sector here (omega (arith, fits, few))
    ∙ ap (λ m. m >>= λ rest. done (prepend (take n (skip (offset % 512) sector)) rest)) later
    ∙ ap (λ l. done (some l)) (ap (λ l. l ++ bytes content (offset + n) (suc r - n)) part ∙ whole)

-- The driver is ready, the bytes end below `2 ^ 64`, and the sectors that they touch can be read: the bytes are read, wherever they
-- begin and however many sectors they span.
pub read_bytes-bytes :
    (disk : Disk) (content : ℕ → ℕ) (offset len : ℕ)
    → disk.initialized ≡ true
    → offset + len < 2 ^ 64
    → Holds disk content offset len
    → read_bytes disk offset len ≡ done (some (bytes content offset len))
unfolding read_bytes
read_bytes-bytes disk content offset zero ready fits holds =
    let unready : not disk.initialized ≡ false = rw ready refl in rw (read_bytes, unready) refl
read_bytes-bytes disk content offset (suc n) ready fits holds =
    let unready : not disk.initialized ≡ false = rw ready refl in
    let some_left : (suc n == 0) ≡ false = ground arith in
    rw (read_bytes, unready, some_left)
      (read_loop-bytes (suc (suc n)) disk content offset (suc n) (omega arith) fits holds)
