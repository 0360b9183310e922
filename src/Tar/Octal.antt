-- ===== src/Tar/Octal.antt =====
-- The size of a file in octal digits, as `parseOctal` of kernel/tar.zig reads it.
use zigu.Base.{
  ℕ, zero, suc, ◌+◌, ◌-◌, ◌*◌, ◌/◌, ◌%◌, ◌^◌, ◌<◌, ◌≡◌, ◌==◌, ◌||◌, ltb, false, List, [], ◌∷◌, ◌++◌,
  append_assoc, length, length-append, refl, ap, ◌∙◌, arith,
}
use zigu.Tar.{octal_loop, parse_octal}

-- The digits of a number, so many of them.
abbrev pub octal_digits : ℕ → ℕ → List ℕ
octal_digits zero n = []
octal_digits (suc width) n = octal_digits width (n / 8) ++ ((48 + n % 8) ∷ [])

pub length-octal_digits : (width n : ℕ) → length (octal_digits width n) ≡ width
length-octal_digits zero n = refl
length-octal_digits (suc width) n =
    let whole = length-append (octal_digits width (n / 8)) ((48 + n % 8) ∷ []) in
    omega (arith, whole, length-octal_digits width (n / 8))

octal_loop-digit :
    (result d : ℕ) (field : List ℕ)
    → d < 8
    → octal_loop result ((48 + d) ∷ field) ≡ octal_loop (result * 8 + d) field
unfolding octal_loop
octal_loop-digit result d field h =
    let not_end : ((48 + d == 0) || (48 + d == 32)) ≡ false = ground arith in
    let digit : (ltb (48 + d) 48 || ltb 55 (48 + d)) ≡ false = ground arith in
    let value : 48 + d - 48 ≡ d = omega arith in rw (octal_loop, not_end, digit, value) refl

smaller : (n m p : ℕ) → p ≡ m * 8 → n < p → n / 8 < m
smaller n m p e h = omega (arith, e, h)

octal_loop-octal_digits :
    (width n : ℕ) (field : List ℕ)
    → n < 8 ^ width
    → octal_loop 0 (octal_digits width n ++ field) ≡ octal_loop n field
octal_loop-octal_digits zero n field h =
    let none_left : 0 ≡ n = omega (arith, h) in ap (λ r. octal_loop r field) none_left
octal_loop-octal_digits (suc width) n field h =
    let digit = 48 + n % 8 in
    let small : n / 8 < 8 ^ width = smaller n (8 ^ width) (8 ^ suc width) (omega arith) h in
    let value : n / 8 * 8 + n % 8 ≡ n = omega arith in
    ap (octal_loop 0) (append_assoc (octal_digits width (n / 8)) (digit ∷ []) field)
    ∙ octal_loop-octal_digits width (n / 8) (digit ∷ field) small
    ∙ octal_loop-digit (n / 8) (n % 8) field (omega arith)
    ∙ ap (λ r. octal_loop r field) value

-- The digits of a number that they can hold are read back, up to the byte 0 behind them.
pub parse_octal-octal_digits :
    (width n : ℕ) (rest : List ℕ)
    → n < 8 ^ width
    → parse_octal (octal_digits width n ++ (0 ∷ rest)) ≡ n
unfolding parse_octal octal_loop
parse_octal-octal_digits width n rest h = octal_loop-octal_digits width n (0 ∷ rest) h
