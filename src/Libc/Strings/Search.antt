-- ===== src/Libc/Strings/Search.antt =====
-- `strstr` on strings in memory.
use zigu.Base.{
  ℕ, zero, suc, ◌+◌, ◌<◌, ◌≡◌, refl, arith, List, [], ◌∷◌, length, done, ne→==, ◌∙◌, ap, ◌==◌,
  Bool-cases, inl, inr,
}
use zigu.Memory.{Memory}
use zigu.Libc.Strings.{match_loop, strstr_loop, strstr}
use zigu.Libc.Strings.IsString.{IsString}
use zigu.Libc.Strings.Find.{starts_with, find_sub, pointer_at, pointer_at-suc}

match_loop-starts_with :
    (fuel h n : ℕ) (m : Memory) (xs ys : List ℕ)
    → length xs < fuel
    → IsString m h xs
    → IsString m n ys
    → (p : ℕ) × (match_loop fuel h n m ≡ done p) × ((m p == 0) ≡ starts_with xs ys)
unfolding match_loop starts_with
match_loop-starts_with zero h n m xs ys enough hx hy = absurd (omega arith)
match_loop-starts_with (suc fuel) h n m [] [] enough hx hy = (n, rw hx, rw hy)
match_loop-starts_with (suc fuel) h n m [] (y ∷ ys) enough hx (at, ne, rest) =
    (n, rw hx, rw at (ne→== y 0 ne))
match_loop-starts_with (suc fuel) h n m (x ∷ xs) [] enough (at, ne, rest) hy =
    (n, rw (at, hy, ne→== x 0 ne), rw hy)
match_loop-starts_with (suc fuel) h n m (x ∷ xs) (y ∷ ys) enough (at, ne, rest) (at', ne', rest') =
    rw (at, at', ne→== x 0 ne, ne→== y 0 ne')
      (elim (Bool-cases (x == y)) [
        | inl e ↦
            rw e (match_loop-starts_with fuel (h + 1) (n + 1) m xs ys (omega arith) rest rest')
        | inr e ↦ rw e (n, refl, rw at' (ne→== y 0 ne'))
      ])

strstr_loop-find_sub :
    (fuel h n : ℕ) (m : Memory) (xs : List ℕ) (y : ℕ) (ys : List ℕ)
    → length xs < fuel
    → IsString m h xs
    → IsString m n (y ∷ ys)
    → strstr_loop fuel h n m ≡ done (pointer_at h (find_sub (y ∷ ys) xs))
unfolding strstr_loop find_sub
strstr_loop-find_sub zero h n m xs y ys enough hx hy = absurd (omega arith)
strstr_loop-find_sub (suc fuel) h n m [] y ys enough hx hy = rw hx
strstr_loop-find_sub (suc fuel) h n m (x ∷ xs) y ys enough (at, ne, rest) hy =
    let (p, ran, found) =
      match_loop-starts_with (suc fuel) h n m (x ∷ xs) (y ∷ ys) enough (at, ne, rest) hy in
    rw (at, ne→== x 0 ne, ran, found)
      (elim (Bool-cases (starts_with (x ∷ xs) (y ∷ ys))) [
        | inl e ↦ rw e (ap done (omega arith))
        | inr e ↦ rw e (
            strstr_loop-find_sub fuel (h + 1) n m xs y ys (omega arith) rest hy
            ∙ ap done (pointer_at-suc h (find_sub (y ∷ ys) xs)))
      ])

-- With fuel beyond the length of the haystack `strstr` returns: a pointer to the first place from which
-- the haystack goes on with the needle, and `NULL` where there is none.
pub strstr-find_sub :
    (fuel haystack needle : ℕ) (m : Memory) (xs ys : List ℕ)
    → length xs < fuel
    → IsString m haystack xs
    → IsString m needle ys
    → strstr fuel haystack needle m ≡ done (pointer_at haystack (find_sub ys xs))
unfolding strstr find_sub
strstr-find_sub fuel haystack needle m [] [] enough hx hy = rw hy (ap done (omega arith))
strstr-find_sub fuel haystack needle m (x ∷ xs) [] enough hx hy = rw hy (ap done (omega arith))
strstr-find_sub fuel haystack needle m xs (y ∷ ys) enough hx (at, ne, rest) =
    rw (at, ne→== y 0 ne)
      (strstr_loop-find_sub fuel haystack needle m xs y ys enough hx (at, ne, rest))
