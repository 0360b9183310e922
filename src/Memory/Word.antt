-- ===== src/Memory/Word.antt =====
-- 64-bit words in memory, in the byte order of x86-64: the low byte first.
use Prim.Native.Nat.{◌*◌, ◌/◌, ◌%◌, ◌^◌}
use zigu.Base.{ℕ, ◌+◌, ◌-◌, ◌<◌, ◌≤◌, ◌≡◌, ◌⊎◌, arith, ltb, leb, ◌&&◌, if◌then◌else◌}
use zigu.Memory.Byte.{Memory}

-- The word whose lowest byte stands at `a`.
pub load64 : Memory → ℕ → ℕ
load64 m a =
    m a
    + 2 ^ 8
      * (m (a + 1)
          + 2 ^ 8
            * (m (a + 2)
                + 2 ^ 8
                  * (m (a + 3)
                      + 2 ^ 8
                        * (m (a + 4)
                            + 2 ^ 8 * (m (a + 5) + 2 ^ 8 * (m (a + 6) + 2 ^ 8 * m (a + 7)))))))

-- The `i`-th byte of a word, counted from the low end.
abbrev byte_of : ℕ → ℕ → ℕ
byte_of v i = v / 2 ^ (8 * i) % 2 ^ 8

pub store64 : Memory → ℕ → ℕ → Memory
store64 m a v b = if leb a b && ltb b (a + 8) then byte_of v (b - a) else m b

-- The byte `b` of the range, where it is the `i`-th.
store64_at : (m : Memory) (a v b i : ℕ) → i < 8 → b ≡ a + i → store64 m a v b ≡ byte_of v i
unfolding store64
store64_at m a v b i h e = rw e (ground (arith, cut))
  where
    cut : a + i - a ≡ i
    cut = omega arith

bytes_of_word :
    (v : ℕ)
    → v < 2 ^ 64
    → byte_of v 0
        + 2 ^ 8
          * (byte_of v 1
              + 2 ^ 8
                * (byte_of v 2
                    + 2 ^ 8
                      * (byte_of v 3
                          + 2 ^ 8
                            * (byte_of v 4
                                + 2 ^ 8
                                  * (byte_of v 5 + 2 ^ 8 * (byte_of v 6 + 2 ^ 8 * byte_of v 7))))))
      ≡ v
bytes_of_word v h = omega arith

-- A word is read back from where it was written.
pub load64-store64_self : (m : Memory) (a v : ℕ) → v < 2 ^ 64 → load64 (store64 m a v) a ≡ v
unfolding load64
load64-store64_self m a v h =
    rw
      (
        store64_at m a v a 0 (omega arith) (omega arith),
        store64_at m a v (a + 1) 1 (omega arith) (omega arith),
        store64_at m a v (a + 2) 2 (omega arith) (omega arith),
        store64_at m a v (a + 3) 3 (omega arith) (omega arith),
        store64_at m a v (a + 4) 4 (omega arith) (omega arith),
        store64_at m a v (a + 5) 5 (omega arith) (omega arith),
        store64_at m a v (a + 6) 6 (omega arith) (omega arith),
        store64_at m a v (a + 7) 7 (omega arith) (omega arith),
      )
      (bytes_of_word v h)

pub load64-store64_apart :
    (m : Memory) (a b v : ℕ) → (a + 8 ≤ b) ⊎ (b + 8 ≤ a) → load64 (store64 m a v) b ≡ load64 m b
unfolding load64 store64
load64-store64_apart m a b v h = ground arith

pub store64_apart : (m : Memory) (a b v : ℕ) → (b < a) ⊎ (a + 8 ≤ b) → store64 m a v b ≡ m b
unfolding store64
store64_apart m a b v h = ground arith

-- Where the eight bytes are the same, so is the word.
pub load64_frame :
    (m m' : Memory) (a : ℕ) → ((i : ℕ) → i < 8 → m' (a + i) ≡ m (a + i)) → load64 m' a ≡ load64 m a
unfolding load64
load64_frame m m' a same = ground (
  arith,
  same 0 (omega arith),
  same 1 (omega arith),
  same 2 (omega arith),
  same 3 (omega arith),
  same 4 (omega arith),
  same 5 (omega arith),
  same 6 (omega arith),
  same 7 (omega arith),
)
