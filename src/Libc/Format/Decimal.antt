-- ===== src/Libc/Format/Decimal.antt =====
-- Digits in base 10.
use zigu.Base.{
  ℕ, zero, suc, ◌/◌, ◌%◌, ◌^◌, ◌≤◌, ◌<◌, ◌≡◌, ◌==◌, leb, List, [], ◌∷◌, length, All, refl, ap,
  subst, arith, inl, inr, Bool-cases, done, fault,
}
use zigu.Libc.Format.{digit_char, digits_loop, digits}
use zigu.Libc.Format.Output.{numeral, numeral-Spells, digits_of}

abbrev pub IsDecimal : List ℕ → Type 0
IsDecimal = All (λ c. (b'0' ≤ c) × (c ≤ b'9'))

digit_char-IsDecimal : (d : ℕ) → d < 10 → (b'0' ≤ digit_char d) × (digit_char d ≤ b'9')
unfolding digit_char
digit_char-IsDecimal d h = (ground arith, ground arith)

digits_loop-IsDecimal :
    (fuel v : ℕ) (tmp cs : List ℕ)
    → digits_loop fuel 10 v tmp ≡ done cs
    → IsDecimal tmp
    → IsDecimal cs
unfolding digits_loop
digits_loop-IsDecimal zero v tmp cs e h = absurd (ground arith)
digits_loop-IsDecimal (suc fuel) v tmp cs e h =
    let c = digit_char (v % 10) in
    elim (Bool-cases (v == 0)) [
      | inl zero_left ↦
          let same : tmp ≡ cs = ap digits_of (rw zero_left at e) in subst IsDecimal same h
      | inr e0 ↦ elim (Bool-cases (leb 24 (length tmp))) [
        | inl full ↦ let impossible : fault ≡ done cs = rw (e0, full) at e in absurd (ground arith)
        | inr room ↦
            digits_loop-IsDecimal fuel (v / 10) (c ∷ tmp) cs (rw (e0, room) at e)
              (digit_char-IsDecimal (v % 10) (omega arith), h)
      ]
    ]

-- The digits in base 10 are decimal digits.
pub numeral-IsDecimal : (v : ℕ) → v < 2 ^ 64 → IsDecimal (numeral 10 v)
unfolding digits
numeral-IsDecimal v h = elim (Bool-cases (v == 0)) [
  | inl e ↦ rw e ((omega arith, omega arith), tt)
  | inr e ↦
      let made = numeral-Spells 10 v (inl refl) h in
      rw e (digits_loop-IsDecimal 25 v [] (digits_of (digits_loop 25 10 v [])) (rw e at made.0) tt)
]
