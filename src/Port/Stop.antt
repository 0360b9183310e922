-- ===== src/Port/Stop.antt =====
-- What is on the serial port when an assertion fails.
use zigu.Base.{ℕ, ◌+◌, ◌<◌, ◌≡◌, List, [], ◌∷◌, length, done, refl}
use zigu.Memory.{Memory, bytes_at}
use zigu.Memory.Sample.{codes}
use zigu.Libc.Strings.IsString.{IsString}
use zigu.Libc.Strings.Length.{strlen-length}
use zigu.Port.{halted, fatal_error, assert_func}

bytes_at-IsString :
    (m : Memory) (s : ℕ) (xs : List ℕ) → IsString m s xs → bytes_at s (length xs) m ≡ xs
unfolding bytes_at
bytes_at-IsString m s [] h = refl
bytes_at-IsString m s (x ∷ xs) (at, ne, rest) = rw (at, bytes_at-IsString m (s + 1) xs rest) refl

module _ {S : Type 0} (serial_write_bytes : List ℕ → S → S) where
  fatal_error-text :
      (fuel msg : ℕ) (xs : List ℕ) (m : Memory) (s : S)
      → length xs < fuel
      → IsString m msg xs
      → fatal_error serial_write_bytes fuel msg m s ≡ done (halted (serial_write_bytes xs s))
  unfolding fatal_error
  fatal_error-text fuel msg xs m s enough str =
      rw (fatal_error, strlen-length fuel msg m xs enough str, bytes_at-IsString m msg xs str) refl

  -- With fuel beyond the length of the two strings, a failed assertion writes the expression between
  -- "assert fail: " and a line feed, then the message of the fatal error, and halts.
  pub assert_func-text :
      (fuel failed expr : ℕ) (xs ys : List ℕ) (m : Memory) (s : S)
      → length xs < fuel
      → length ys < fuel
      → IsString m expr xs
      → IsString m failed ys
      → assert_func serial_write_bytes fuel failed expr m s
        ≡ done (
            halted (
              serial_write_bytes ys (
                serial_write_bytes
                  (10 ∷ [])
                  (serial_write_bytes xs (serial_write_bytes (codes "assert fail: ") s)))))
  unfolding assert_func
  assert_func-text fuel failed expr xs ys m s enough enough' str str' =
      let prefixed = serial_write_bytes (codes "assert fail: ") s in
      rw (assert_func, strlen-length fuel expr m xs enough str, bytes_at-IsString m expr xs str)
        (fatal_error-text fuel failed ys m
          (serial_write_bytes (10 ∷ []) (serial_write_bytes xs prefixed)) enough' str')
