-- ===== src/Libc/Convert/Decimal.antt =====
-- `strtol` reads what `put_int` writes.
use zigu.Base.{
  ℕ, zero, suc, ◌+◌, ◌-◌, ◌*◌, ◌^◌, ◌≤◌, ◌<◌, ◌≡◌, ◌⊎◌, ◌==◌, ◌||◌, leb, false, true, if◌then◌else◌,
  some, List, [], ◌∷◌, length, refl, subst, arith, inl, inr, ne→==, done,
}
use zigu.Base.Int.{ℤ, negsuc, pos_part, neg_part}
use zigu.Memory.{Memory}
use zigu.Memory.Word.{store64}
use zigu.Libc.Strings.IsString.{IsString}
use zigu.Libc.Format.Digits.{number, digit_value}
use zigu.Libc.Format.Output.{numeral, numeral-Spells, int_text, padded}
use zigu.Libc.Format.Decimal.{IsDecimal, numeral-IsDecimal}
use zigu.Libc.Convert.{strtol, strtol_loop, digit_of, skip_blanks, read_sign, read_base}

digit_of-decimal : (c : ℕ) → b'0' ≤ c → c ≤ b'9' → digit_of c ≡ some (c - b'0')
unfolding digit_of
digit_of-decimal c h k = ground arith

number_grows : (n : ℕ) (cs : List ℕ) → n ≤ number 10 n cs
number_grows n [] = omega arith
number_grows n (c ∷ cs) = omega (arith, number_grows (n * 10 + digit_value c) cs)

strtol_loop-number :
    (cs : List ℕ) (fuel n s : ℕ) (m : Memory)
    → length cs < fuel
    → IsDecimal cs
    → IsString m s cs
    → number 10 n cs < 2 ^ 63
    → strtol_loop fuel 10 n s m ≡ done (number 10 n cs, s + length cs)
unfolding strtol_loop
strtol_loop-number cs zero n s m enough h str small = absurd (omega arith)
strtol_loop-number [] (suc fuel) n s m enough h str small =
    let here : s + 0 ≡ s = omega arith in rw (str, here) refl
strtol_loop-number (c ∷ cs) (suc fuel) n s m enough ((h, k), hs) (at, ne, str) small =
    let value : digit_value c ≡ c - b'0' = ground arith in
    let grows = number_grows (n * 10 + digit_value c) cs in
    let rest_small = subst (λ d. number 10 (n * 10 + d) cs < 2 ^ 63) value small in
    let digit : leb 10 (c - b'0') ≡ false = ground arith in
    let fits : leb (2 ^ 63) (n * 10 + (c - b'0')) ≡ false = ground (arith, grows, value) in
    let next : s + suc (length cs) ≡ s + 1 + length cs = omega arith in
    rw (at, ne→== c 0 ne, digit_of-decimal c h k, digit, fits, next, value)
      (strtol_loop-number cs fuel (n * 10 + (c - b'0')) (s + 1) m (omega arith) hs str rest_small)

digits_start :
    (cs : List ℕ) (s : ℕ) (m : Memory) → IsDecimal cs → IsString m s cs → (m s ≡ 0) ⊎ (b'0' ≤ m s)
digits_start [] s m h str = inl str
digits_start (c ∷ cs) s m ((h, k), hs) (at, ne, str) = inr (omega arith)

skip_blanks-none :
    (fuel s : ℕ) (m : Memory)
    → (m s == b' ' || (m s == 9 || m s == 10)) ≡ false
    → skip_blanks (suc fuel) s m ≡ done s
unfolding skip_blanks
skip_blanks-none fuel s m h = rw h refl

read_sign-none : (s : ℕ) (m : Memory) → (m s ≡ 0) ⊎ (b'0' ≤ m s) → read_sign s m ≡ (false, s)
unfolding read_sign
read_sign-none s m h =
    let minus : (m s == b'-') ≡ false = elim h [ inl e ↦ rw e refl | inr e ↦ ground arith ] in
    let plus : (m s == b'+') ≡ false = elim h [ inl e ↦ rw e refl | inr e ↦ ground arith ] in
    rw (minus, plus) refl

read_sign-minus : (s : ℕ) (m : Memory) → m s ≡ b'-' → read_sign s m ≡ (true, s + 1)
unfolding read_sign
read_sign-minus s m e = rw e refl

read_base-ten : (s : ℕ) (m : Memory) → read_base 10 s m ≡ (10, s)
unfolding read_base
read_base-ten s m = refl

padded-zero : (pad : ℕ) (cs : List ℕ) → padded 0 pad cs ≡ cs
padded-zero pad cs = let full : 0 - length cs ≡ 0 = omega arith in rw full refl

-- `strtol` in base 10 reads the text of a number that `put_int` writes without padding: the value is the
-- number, for all values of `long` but the least, and `*endptr` points behind the text.
pub strtol-int_text :
    (z : ℤ) (fuel nptr endptr : ℕ) (m : Memory)
    → pos_part z < 2 ^ 63
    → neg_part z < 2 ^ 63
    → length (int_text z 0 b' ') < fuel
    → IsString m nptr (int_text z 0 b' ')
    → strtol fuel nptr endptr 10 m
      ≡ done (z, if endptr == 0 then m else store64 m endptr (nptr + length (int_text z 0 b' ')))
unfolding strtol
strtol-int_text (ℤ.pos n) zero nptr endptr m h k enough str = absurd (omega arith)
strtol-int_text (ℤ.pos n) (suc fuel) nptr endptr m h k enough str =
    let cs = numeral 10 n in
    let (made, (spelled, short)) = numeral-Spells 10 n (inl refl) (omega arith) in
    let decimal = numeral-IsDecimal n (omega arith) in
    let same = padded-zero b' ' cs in
    let text = rw same at str in
    let start = digits_start cs nptr m decimal text in
    let unblank : (m nptr == b' ' || (m nptr == 9 || m nptr == 10)) ≡ false = elim start [
      | inl e ↦ rw e refl
      | inr e ↦ ground arith
    ] in
    let loop =
      strtol_loop-number cs (suc fuel) 0 nptr m (rw same at enough) decimal text (omega arith) in
    rw
      (
        skip_blanks-none fuel nptr m unblank,
        read_sign-none nptr m start,
        read_base-ten nptr m,
        loop,
        same,
        spelled,
      )
      refl
strtol-int_text (negsuc n) zero nptr endptr m h k enough str = absurd (omega arith)
strtol-int_text (negsuc n) (suc fuel) nptr endptr m h k enough (at, ne, str) =
    let cs = numeral 10 (suc n) in
    let enough_behind : length (padded 0 b' ' cs) < suc fuel = omega arith in
    let (made, (spelled, short)) = numeral-Spells 10 (suc n) (inl refl) (omega arith) in
    let decimal = numeral-IsDecimal (suc n) (omega arith) in
    let same = padded-zero b' ' cs in
    let unblank : (m nptr == b' ' || (m nptr == 9 || m nptr == 10)) ≡ false = rw at refl in
    let loop =
      strtol_loop-number cs (suc fuel) 0 (nptr + 1) m (rw same at enough_behind) decimal
        (rw same at str) (omega arith) in
    let not_least : leb (suc n) 0 ≡ false = ground arith in
    let pred : suc n - 0 - 1 ≡ n = omega arith in
    let behind : nptr + suc (length cs) ≡ nptr + 1 + length cs = omega arith in
    rw
      (
        skip_blanks-none fuel nptr m unblank,
        read_sign-minus nptr m at,
        read_base-ten (nptr + 1) m,
        loop,
        same,
        spelled,
        behind,
        not_least,
        pred,
      )
      refl
