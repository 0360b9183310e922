-- ===== src/Libc/Format/Tests.antt =====
-- Runs of the formatted output, and its theorems at concrete formats.
use zigu.Base.{ℕ, ◌-◌, ◌^◌, ◌≡◌, inl, refl, arith, List, [], ◌∷◌, ◌++◌, Run, done, ◌>>=◌}
use zigu.Base.Int.{ℤ}
use zigu.Memory.{Memory, poke, bytes_at}
use zigu.Memory.Sample.{codes, place}
use zigu.Libc.Format.{Out, put_pad, put_uint, put_int, digits, digits_loop}
use zigu.Libc.Format.Output.{with_text}
use zigu.Libc.Format.Directive.{vsnprintf}
use zigu.Libc.Format.Directive.Pieces.{Piece, literal, directive, unsigned, hex}
use zigu.Libc.Format.Directive.Printed.{vsnprintf-text}

-- What a call leaves in the first 12 bytes at 500, and what it returns.
abbrev printed : Run (ℤ × Memory) → Run (ℤ × List ℕ)
printed r = r >>= λ x. done (x.0, bytes_at 500 12 x.1)

-- "%u of %x" at 100, "%5d" at 110, "100%" at 120 with "!" behind its terminator.
abbrev formats : Memory
formats = place 100 (
    codes "%u of %x"
    ++ 0 ∷ 0 ∷ (codes "%5d" ++ 0 ∷ 0 ∷ 0 ∷ 0 ∷ 0 ∷ 0 ∷ 0 ∷ (codes "100%" ++ 0 ∷ codes "!")))

abbrev pieces : List Piece
pieces =
    directive (unsigned 7)
    ∷ literal b' '
    ∷ literal b'o'
    ∷ literal b'f'
    ∷ literal b' '
    ∷ directive (hex 255)
    ∷ []

abbrev start : Out
start = record { pos = 0; memory = formats }

vsnprintf-text_example :
    vsnprintf 9 500 6 100 (7 ∷ 255 ∷ []) formats
    ≡ done (ℤ.pos 7, poke (with_text 500 6 0 (codes "7 of ff") formats) 505 0)
unfolding digits digits_loop
vsnprintf-text_example =
    vsnprintf-text 500 6 pieces 9 100 [] formats (omega arith) (omega arith) (omega arith)
      (inl (omega arith)) (omega arith) (omega arith)

printed_cut :
    printed (vsnprintf 9 500 6 100 (7 ∷ 255 ∷ []) formats)
    ≡ done (ℤ.pos 7, codes "7 of " ++ (0 ∷ 0 ∷ 0 ∷ 0 ∷ 0 ∷ 0 ∷ 0 ∷ []))
unfolding vsnprintf put_uint put_int put_pad digits digits_loop bytes_at
printed_cut = refl

-- The sign stands in front of the padding.
printed_negative :
    printed (vsnprintf 9 500 20 110 ((2 ^ 32 - 5) ∷ []) formats)
    ≡ done (ℤ.pos 5, codes "-   5" ++ (0 ∷ 0 ∷ 0 ∷ 0 ∷ 0 ∷ 0 ∷ 0 ∷ []))
unfolding vsnprintf put_uint put_int put_pad digits digits_loop bytes_at
printed_negative = refl

-- A format that ends in `%` is read on behind its terminator.
printed_percent :
    printed (vsnprintf 9 500 20 120 [] formats)
    ≡ done (ℤ.pos 6, codes "100%" ++ (0 ∷ codes "!" ++ (0 ∷ 0 ∷ 0 ∷ 0 ∷ 0 ∷ 0 ∷ [])))
unfolding vsnprintf put_uint put_int put_pad digits digits_loop bytes_at
printed_percent = refl
