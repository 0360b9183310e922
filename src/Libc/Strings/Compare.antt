-- ===== src/Libc/Strings/Compare.antt =====
-- `strcmp` and `strncmp` of strings in memory.
use zigu.Base.{
  ℕ, zero, suc, ◌+◌, ◌<◌, ◌≡◌, ◌↔◌, refl, arith, List, [], ◌∷◌, length, take, done, ne→==, ==_refl,
  ◌∙◌, ap, sym, if◌then◌else◌, ◌==◌, Bool-cases, inl, inr,
}
use zigu.Base.Int.{ℤ, pos, sub_ℕ}
use zigu.Memory.{Memory}
use zigu.Libc.Strings.{strcmp, strncmp_loop, strncmp}
use zigu.Libc.Strings.IsString.{IsString, IsString-at}

-- The difference of two strings at the first place where they differ; a string that ends there counts
-- as a 0.
pub compare_bytes : List ℕ → List ℕ → ℤ
compare_bytes [] [] = pos 0
compare_bytes [] (y ∷ ys) = sub_ℕ 0 y
compare_bytes (x ∷ xs) [] = sub_ℕ x 0
compare_bytes (x ∷ xs) (y ∷ ys) = if x == y then compare_bytes xs ys else sub_ℕ x y

-- With fuel beyond the length of one of them, `strcmp` returns the difference of two strings.
pub strcmp-compare_bytes :
    (fuel s1 s2 : ℕ) (m : Memory) (xs ys : List ℕ)
    → length xs < fuel
    → IsString m s1 xs
    → IsString m s2 ys
    → strcmp fuel s1 s2 m ≡ done (compare_bytes xs ys)
unfolding strcmp compare_bytes
strcmp-compare_bytes zero s1 s2 m xs ys enough hx hy = absurd (omega arith)
strcmp-compare_bytes (suc fuel) s1 s2 m [] [] enough hx hy = rw (hx, hy)
strcmp-compare_bytes (suc fuel) s1 s2 m [] (y ∷ ys) enough hx (at, ne, rest) = rw (hx, at)
strcmp-compare_bytes (suc fuel) s1 s2 m (x ∷ xs) [] enough (at, ne, rest) hy =
    rw (at, hy, ne→== x 0 ne)
strcmp-compare_bytes (suc fuel) s1 s2 m (x ∷ xs) (y ∷ ys) enough (at, ne, rest) (at', ne', rest') =
    rw (at, at', ne→== x 0 ne)
      (elim (Bool-cases (x == y)) [
        | inl e ↦
            rw e (strcmp-compare_bytes fuel (s1 + 1) (s2 + 1) m xs ys (omega arith) rest rest')
        | inr e ↦ rw e
      ])

strncmp_loop-compare_bytes :
    (k i s1 s2 : ℕ) (m : Memory) (xs ys : List ℕ)
    → IsString m (s1 + i) xs
    → IsString m (s2 + i) ys
    → strncmp_loop k i s1 s2 m ≡ compare_bytes (take k xs) (take k ys)
unfolding strncmp_loop compare_bytes
strncmp_loop-compare_bytes zero i s1 s2 m xs ys hx hy = refl
strncmp_loop-compare_bytes (suc k) i s1 s2 m [] [] hx hy = rw (hx, hy)
strncmp_loop-compare_bytes (suc k) i s1 s2 m [] (y ∷ ys) hx (at, ne, rest) =
    rw (hx, at, ne→== 0 y (λ e. ne (sym e)))
strncmp_loop-compare_bytes (suc k) i s1 s2 m (x ∷ xs) [] (at, ne, rest) hy =
    rw (at, hy, ne→== x 0 ne)
strncmp_loop-compare_bytes (suc k) i s1 s2 m (x ∷ xs) (y ∷ ys) (at, ne, rest) (at', ne', rest') =
    rw (at, at', ne→== x 0 ne)
      (elim (Bool-cases (x == y)) [
        | inl e ↦ rw e (
            strncmp_loop-compare_bytes k (i + 1) s1 s2 m xs ys (IsString-at m xs (omega arith) rest)
              (IsString-at m ys (omega arith) rest'))
        | inr e ↦ rw e
      ])

-- `strncmp` is the difference of the first `n` bytes of two strings.
pub strncmp-compare_bytes :
    (s1 s2 n : ℕ) (m : Memory) (xs ys : List ℕ)
    → IsString m s1 xs
    → IsString m s2 ys
    → strncmp s1 s2 n m ≡ compare_bytes (take n xs) (take n ys)
unfolding strncmp
strncmp-compare_bytes s1 s2 n m xs ys hx hy =
    strncmp_loop-compare_bytes n 0 s1 s2 m xs ys (IsString-at m xs (omega arith) hx)
      (IsString-at m ys (omega arith) hy)

compare_bytes_refl : (xs : List ℕ) → compare_bytes xs xs ≡ pos 0
unfolding compare_bytes
compare_bytes_refl [] = refl
compare_bytes_refl (x ∷ xs) = rw (==_refl x) (compare_bytes_refl xs)

compare_bytes-eq :
    (s1 s2 : ℕ) (m : Memory) (xs ys : List ℕ)
    → IsString m s1 xs
    → IsString m s2 ys
    → compare_bytes xs ys ≡ pos 0
    → xs ≡ ys
unfolding compare_bytes
compare_bytes-eq s1 s2 m [] [] hx hy h = refl
compare_bytes-eq s1 s2 m [] (y ∷ ys) hx (at, ne, rest) h = ground arith
compare_bytes-eq s1 s2 m (x ∷ xs) [] (at, ne, rest) hy h = ground arith
compare_bytes-eq s1 s2 m (x ∷ xs) (y ∷ ys) (at, ne, rest) (at', ne', rest') h =
    ground (arith, compare_bytes-eq (s1 + 1) (s2 + 1) m xs ys rest rest')

-- `strcmp` is 0 exactly where the two strings are equal.
pub strcmp-zero_iff :
    (fuel s1 s2 : ℕ) (m : Memory) (xs ys : List ℕ)
    → length xs < fuel
    → IsString m s1 xs
    → IsString m s2 ys
    → (strcmp fuel s1 s2 m ≡ done (pos 0)) ↔ (xs ≡ ys)
strcmp-zero_iff fuel s1 s2 m xs ys enough hx hy =
    let ran = strcmp-compare_bytes fuel s1 s2 m xs ys enough hx hy in
    (
      (λ e. compare_bytes-eq s1 s2 m xs ys hx hy (cc)),
      (λ e. ran ∙ ap done (ap (compare_bytes xs) (sym e) ∙ compare_bytes_refl xs)),
    )
