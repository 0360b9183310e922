-- ===== src/Libc/Convert/Tests.antt =====
-- Runs of the number parsers, and the theorem at a concrete number.
use zigu.Base.{◌≡◌, refl, arith, ◌∷◌, ◌++◌, done, fault}
use zigu.Base.Int.{ℤ, negsuc}
use zigu.Memory.{Memory}
use zigu.Memory.Word.{store64}
use zigu.Memory.Sample.{codes, place}
use zigu.Libc.Format.{digits, digits_loop}
use zigu.Libc.Convert.{strtol, skip_blanks, read_sign, read_base, strtol_loop, digit_of}
use zigu.Libc.Convert.Decimal.{strtol-int_text}

-- "-120" at 100, "  0x1fg" at 110 and "9223372036854775808" at 120.
abbrev text : Memory
text = place 100 (
    codes "-120"
    ++ 0 ∷ 0 ∷ 0 ∷ 0 ∷ 0 ∷ 0 ∷ (codes "  0x1fg" ++ 0 ∷ 0 ∷ 0 ∷ codes "9223372036854775808"))

strtol-int_text_example : strtol 9 100 200 10 text ≡ done (negsuc 119, store64 text 200 104)
unfolding digits digits_loop
strtol-int_text_example =
    strtol-int_text (negsuc 119) 9 100 200 text (omega arith) (omega arith) (omega arith)
      (omega arith)

strtol_hex : strtol 9 110 0 0 text ≡ done (ℤ.pos 31, text)
unfolding strtol skip_blanks read_sign read_base strtol_loop digit_of
strtol_hex = refl

strtol_overflow : strtol 30 120 0 10 text ≡ fault
unfolding strtol skip_blanks read_sign read_base strtol_loop digit_of
strtol_overflow = refl
