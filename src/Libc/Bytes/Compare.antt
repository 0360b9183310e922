-- ===== src/Libc/Bytes/Compare.antt =====
-- What `memcmp` says of two ranges.
use zigu.Base.{ℕ, zero, suc, ◌+◌, ◌<◌, ◌≤◌, ◌≡◌, ◌≢◌, ◌↔◌, refl, arith, ◌==◌, inl, inr, Bool-cases}
use zigu.Base.Int.{pos, sub_ℕ}
use zigu.Memory.{Memory}
use zigu.Libc.Bytes.{compare_up, memcmp}

module _ (a b : ℕ) (m : Memory) where
  -- The bytes from index `i` up to index `n` are the same in both ranges.
  abbrev pub Agree : ℕ → ℕ → Type 0
  Agree i n = (j : ℕ) → i ≤ j → j < n → m (a + j) ≡ m (b + j)

  compare_up-Agree : (k i : ℕ) → Agree i (i + k) → compare_up k i a b m ≡ pos 0
  unfolding compare_up
  compare_up-Agree zero i h = refl
  compare_up-Agree (suc k) i h = ground (
    arith,
    h i (omega arith) (omega arith),
    compare_up-Agree k (i + 1) (λ j p q. h j (omega arith) (omega arith)),
  )

  compare_up_head :
      (k i : ℕ)
      → compare_up (suc k) i a b m ≡ pos 0
      → (m (a + i) ≡ m (b + i)) × (compare_up k (i + 1) a b m ≡ pos 0)
  unfolding compare_up
  compare_up_head k i h = ground arith

  Agree-compare_up : (k i : ℕ) → compare_up k i a b m ≡ pos 0 → Agree i (i + k)
  Agree-compare_up zero i h j p q = absurd (omega arith)
  Agree-compare_up (suc k) i h j p q =
      ground (arith, compare_up_head k i h, Agree-compare_up k (i + 1) (compare_up_head k i h).1 j)

  compare_up_first :
      (k i t : ℕ)
      → i ≤ t
      → t < i + k
      → Agree i t
      → m (a + t) ≢ m (b + t)
      → compare_up k i a b m ≡ sub_ℕ (m (a + t)) (m (b + t))
  unfolding compare_up
  compare_up_first zero i t low high h ne = absurd (omega arith)
  compare_up_first (suc k) i t low high h ne = elim (Bool-cases (i == t)) [
    | inl e ↦ ground arith
    | inr e ↦ ground (
      arith,
      h i (omega arith) (ground arith),
      compare_up_first k (i + 1) t (ground arith) (omega arith) (λ l x y. h l (omega arith) y) ne,
    )
  ]

-- `memcmp` is 0 exactly where the two ranges hold the same bytes.
pub memcmp-zero_iff : (s1 s2 n : ℕ) (m : Memory) → (memcmp s1 s2 n m ≡ pos 0) ↔ Agree s1 s2 m 0 n
unfolding memcmp
memcmp-zero_iff s1 s2 n m = (
  (λ h j p q. Agree-compare_up s1 s2 m n 0 h j p (omega arith)),
  (λ h. compare_up-Agree s1 s2 m n 0 (λ j p q. h j p (omega arith))),
)

-- Where the two ranges first differ at index `t`, `memcmp` is the difference of the two bytes there.
pub memcmp_first :
    (s1 s2 n t : ℕ) (m : Memory)
    → t < n
    → Agree s1 s2 m 0 t
    → m (s1 + t) ≢ m (s2 + t)
    → memcmp s1 s2 n m ≡ sub_ℕ (m (s1 + t)) (m (s2 + t))
unfolding memcmp
memcmp_first s1 s2 n t m q h ne = compare_up_first s1 s2 m n 0 t (omega arith) (omega arith) h ne
