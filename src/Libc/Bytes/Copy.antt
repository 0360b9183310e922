-- ===== src/Libc/Bytes/Copy.antt =====
-- What `memcpy` and `memmove` leave in memory.
use zigu.Base.{
  ℕ, zero, suc, ◌+◌, ◌<◌, ◌≤◌, ◌≡◌, ◌⊎◌, inl, inr, arith, ltb, ltb→lt, Bool-cases, ap, fun_ext, ◌∙◌,
}
use native.Mathlib.Nat.{add-zero}
use zigu.Memory.{Memory, poke, blit}
use zigu.Libc.Bytes.{copy_up, copy_down, memcpy, memmove}

-- Where an upward copy does not run into the rest of its source.
abbrev pub CopiesUp : ℕ → ℕ → ℕ → Type 0
CopiesUp d s k = (d ≤ s) ⊎ (s + k ≤ d)

CopiesUp-next :
    (d s i k : ℕ) → CopiesUp (d + i) (s + i) (suc k) → CopiesUp (d + (i + 1)) (s + (i + 1)) k
CopiesUp-next d s i k (inl h) = inl (omega arith)
CopiesUp-next d s i k (inr h) = inr (omega arith)

copy_up-blit :
    (k i d s : ℕ) (m : Memory)
    → CopiesUp (d + i) (s + i) k
    → (a : ℕ) → copy_up k i d s m a ≡ blit m (d + i) (s + i) k a
unfolding copy_up
copy_up-blit zero i d s m h a = ground arith
copy_up-blit (suc k) i d s m h a =
    ground
      (arith, copy_up-blit k (i + 1) d s (poke m (d + i) (m (s + i))) (CopiesUp-next d s i k h) a)

copy_down-blit : (k d s : ℕ) (m : Memory) → s < d → (a : ℕ) → copy_down k d s m a ≡ blit m d s k a
unfolding copy_down
copy_down-blit zero d s m h a = ground arith
copy_down-blit (suc k) d s m h a =
    ground (arith, copy_down-blit k d s (poke m (d + k) (m (s + k))) h a)

pub copy_up_all : (n d s : ℕ) (m : Memory) → CopiesUp d s n → copy_up n 0 d s m ≡ blit m d s n
copy_up_all n d s m h = fun_ext λ a. copy_up-blit n 0 d s m from_start a ∙ ground arith
  where
    from_start : CopiesUp (d + 0) (s + 0) n
    from_start = rw (add-zero, add-zero) h

-- Where the destination does not start inside the source, `memcpy` returns the destination, makes
-- the `n` bytes there those of the source, and changes no other byte.
pub memcpy-blit :
    (dest src n : ℕ) (m : Memory)
    → CopiesUp dest src n
    → memcpy dest src n m ≡ (dest, blit m dest src n)
unfolding memcpy
memcpy-blit dest src n m h = rw (copy_up_all n dest src m h)

-- However the two ranges overlap, `memmove` returns the destination, makes the `n` bytes there those
-- that the source had before, and changes no other byte.
pub memmove-blit : (dest src n : ℕ) (m : Memory) → memmove dest src n m ≡ (dest, blit m dest src n)
unfolding memmove
memmove-blit dest src n m = elim (Bool-cases (ltb dest src)) [
  | inl up ↦ rw (up, copy_up_all n dest src m (inl (omega (arith, ltb→lt dest src up))))
  | inr not_up ↦ rw not_up (elim (Bool-cases (ltb src dest)) [
    | inl down ↦ rw (down, fun_ext (copy_down-blit n dest src m (ltb→lt src dest down)))
    | inr not_down ↦ rw not_down (ap (λ (g : Memory). (dest, g)) (fun_ext λ a. ground arith))
  ])
]
