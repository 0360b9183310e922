-- ===== src/Libc/Strings/Length.antt =====
-- `strlen` and `strnlen` of a string in memory.
use Prim.Native.Nat.{min}
use zigu.Base.{ℕ, zero, suc, ◌+◌, ◌<◌, ◌≡◌, arith, List, [], ◌∷◌, length, done, ne→==, ◌∙◌, ap}
use zigu.Memory.{Memory}
use zigu.Libc.Strings.{strlen_loop, strlen, strnlen_loop, strnlen}
use zigu.Libc.Strings.IsString.{IsString, IsString-at}

strlen_loop-length :
    (fuel s n : ℕ) (m : Memory) (xs : List ℕ)
    → length xs < fuel
    → IsString m (s + n) xs
    → strlen_loop fuel s n m ≡ done (n + length xs)
unfolding strlen_loop
strlen_loop-length zero s n m xs enough h = absurd (omega arith)
strlen_loop-length (suc fuel) s n m [] enough h = rw h (ap done (omega arith))
strlen_loop-length (suc fuel) s n m (x ∷ xs) enough (at, ne, rest) =
    rw (at, ne→== x 0 ne)
      (strlen_loop-length fuel s (n + 1) m xs (omega arith) (IsString-at m xs (omega arith) rest)
        ∙ ap done (omega arith))

-- With fuel beyond the length `strlen` returns, and the result is the length of the string.
pub strlen-length :
    (fuel s : ℕ) (m : Memory) (xs : List ℕ)
    → length xs < fuel
    → IsString m s xs
    → strlen fuel s m ≡ done (length xs)
unfolding strlen
strlen-length fuel s m xs enough h =
    strlen_loop-length fuel s 0 m xs enough (IsString-at m xs (omega arith) h)
    ∙ ap done (omega arith)

strnlen_loop-min :
    (k s n : ℕ) (m : Memory) (xs : List ℕ)
    → IsString m (s + n) xs
    → strnlen_loop k s n m ≡ n + min k (length xs)
unfolding strnlen_loop
strnlen_loop-min zero s n m xs h = omega arith
strnlen_loop-min (suc k) s n m [] h = rw h (omega arith)
strnlen_loop-min (suc k) s n m (x ∷ xs) (at, ne, rest) =
    rw (at, ne→== x 0 ne)
      (strnlen_loop-min k s (n + 1) m xs (IsString-at m xs (omega arith) rest) ∙ omega arith)

-- `strnlen` is the length of the string, or `maxlen` where that is less.
pub strnlen-min :
    (s maxlen : ℕ) (m : Memory) (xs : List ℕ)
    → IsString m s xs
    → strnlen s maxlen m ≡ min maxlen (length xs)
unfolding strnlen
strnlen-min s maxlen m xs h =
    strnlen_loop-min maxlen s 0 m xs (IsString-at m xs (omega arith) h) ∙ omega arith
