-- ===== src/Libc/Strings/Find.antt =====
-- `strchr`, `strrchr` and `strstr` on strings in memory.
use zigu.Base.{
  ℕ, zero, suc, ◌+◌, ◌%◌, ◌<◌, ◌≡◌, refl, arith, List, [], ◌∷◌, length, done, Option, none, some,
  ne→==, ◌∙◌, ap, if◌then◌else◌, ◌==◌, Bool, true, false, Bool-cases, inl, inr, ◌&&◌,
}
use mathlib.Core.Option
use zigu.Memory.{Memory}
use zigu.Libc.Strings.{strchr, strrchr_loop, strrchr}
use zigu.Libc.Strings.IsString.{IsString}

-- Where `c` stands first, and where it stands last.
unfoldable pub index_of : ℕ → List ℕ → Option ℕ
index_of c [] = none
index_of c (x ∷ xs) = if x == c then some 0 else Option.map suc (index_of c xs)

unfoldable pub last_index_of : ℕ → List ℕ → Option ℕ
last_index_of c [] = none
last_index_of c (x ∷ xs) = elim (last_index_of c xs) [
  | some i ↦ some (suc i)
  | none ↦ if x == c then some 0 else none
]

-- Whether the first list starts with the second, and where the second stands first in it.
unfoldable pub starts_with : List ℕ → List ℕ → Bool
starts_with xs [] = true
starts_with [] (y ∷ ys) = false
starts_with (x ∷ xs) (y ∷ ys) = x == y && starts_with xs ys

unfoldable pub find_sub : List ℕ → List ℕ → Option ℕ
unfolding starts_with
find_sub ys [] = if starts_with [] ys then some 0 else none
find_sub ys (x ∷ xs) = if starts_with (x ∷ xs) ys then some 0 else Option.map suc (find_sub ys xs)

-- The pointer to an index of a string, and `NULL` for none.
abbrev pub pointer_at : ℕ → Option ℕ → ℕ
pointer_at s none = 0
pointer_at s (some i) = s + i

pub pointer_at-suc : (s : ℕ) (o : Option ℕ) → pointer_at (s + 1) o ≡ pointer_at s (Option.map suc o)
pointer_at-suc s none = refl
pointer_at-suc s (some i) = omega arith

-- With fuel beyond the length `strchr` returns. For 0 it points to the terminator, and for any other
-- `c` to the first byte that is the low byte of `c`, or is `NULL` where there is none.
pub strchr-index_of :
    (fuel s c : ℕ) (m : Memory) (xs : List ℕ)
    → length xs < fuel
    → IsString m s xs
    → strchr fuel s c m
      ≡ done (if c == 0 then s + length xs else pointer_at s (index_of (c % 256) xs))
unfolding strchr index_of
strchr-index_of zero s c m xs enough h = absurd (omega arith)
strchr-index_of (suc fuel) s c m [] enough h = rw h (ap done (ground arith))
strchr-index_of (suc fuel) s c m (x ∷ xs) enough (at, ne, rest) =
    rw (at, ne→== x 0 ne)
      (elim (Bool-cases (x == c % 256)) [
        | inl e ↦ rw e (ap done (ground arith))
        | inr e ↦ rw e (
            strchr-index_of fuel (s + 1) c m xs (omega arith) rest
            ∙ ap done (ground (arith, pointer_at-suc s (index_of (c % 256) xs))))
      ])

last_from : ℕ → ℕ → Option ℕ → ℕ
last_from s last none = last
last_from s last (some i) = s + i

strrchr_loop-last :
    (fuel s c last : ℕ) (m : Memory) (xs : List ℕ)
    → length xs < fuel
    → IsString m s xs
    → strrchr_loop fuel s c last m
      ≡ done (if c == 0 then s + length xs else last_from s last (last_index_of (c % 256) xs))
unfolding strrchr_loop last_index_of last_from
strrchr_loop-last zero s c last m xs enough h = absurd (omega arith)
strrchr_loop-last (suc fuel) s c last m [] enough h = rw h (ap done (ground arith))
strrchr_loop-last (suc fuel) s c last m (x ∷ xs) enough (at, ne, rest) =
    rw (at, ne→== x 0 ne)
      (strrchr_loop-last fuel (s + 1) c (if x == c % 256 then s else last) m xs (omega arith) rest
        ∙ ap done (ground arith))

-- With fuel beyond the length `strrchr` returns. For 0 it points to the terminator, and for any other
-- `c` to the last byte that is the low byte of `c`, or is `NULL` where there is none.
pub strrchr-last_index_of :
    (fuel s c : ℕ) (m : Memory) (xs : List ℕ)
    → length xs < fuel
    → IsString m s xs
    → strrchr fuel s c m
      ≡ done (if c == 0 then s + length xs else pointer_at s (last_index_of (c % 256) xs))
unfolding strrchr last_from
strrchr-last_index_of fuel s c m xs enough h =
    strrchr_loop-last fuel s c 0 m xs enough h ∙ ap done (ground arith)
