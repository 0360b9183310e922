-- ===== src/Libc/Format/Digits.antt =====
-- The digits that `put_uint` writes.
use native.Mathlib.Nat.{div-lt_iff_lt-mul, div-add-mod}
use native.Mathlib.Numerals.{unary_clauses}
use zigu.Base.{
  ℕ, zero, suc, ◌+◌, ◌-◌, ◌*◌, ◌/◌, ◌%◌, ◌^◌, ◌≤◌, ◌<◌, ◌≡◌, ◌==◌, leb, false, ◌⊎◌, append-nil,
  Bool-cases, ==→eq, inl, inr, if◌then◌else◌, List, [], ◌∷◌, ◌++◌, append_assoc, length,
  length-append, refl, sym, ◌∙◌, arith, Run, done,
}
use zigu.Libc.Format.{digit_char, digits_loop, digits}

-- The number that the digits `cs` spell behind a number `n`.
abbrev pub digit_value : ℕ → ℕ
digit_value c = if leb c b'9' then c - b'0' else c - b'a' + 10

abbrev pub number : ℕ → ℕ → List ℕ → ℕ
number base n [] = n
number base n (c ∷ cs) = number base (n * base + digit_value c) cs

number-append :
    (base n : ℕ) (cs : List ℕ) (c : ℕ)
    → number base n (cs ++ c ∷ []) ≡ number base n cs * base + digit_value c
number-append base n [] c = refl
number-append base n (x ∷ cs) c = number-append base (n * base + digit_value x) cs c

digit_value-digit_char : (d : ℕ) → digit_value (digit_char d) ≡ d
unfolding digit_char
digit_value-digit_char d = ground arith

-- `cs` spells `v` and has at most `k` characters.
abbrev pub Spells : ℕ → ℕ → ℕ → List ℕ → Type 0
Spells base k v cs = (number base 0 cs ≡ v) × (length cs ≤ k)

digits_loop-Spells :
    (base k fuel v : ℕ) (tmp : List ℕ)
    → 0 < base
    → v < base ^ k
    → k < fuel
    → k + length tmp ≤ 24
    → (cs : List ℕ) × (digits_loop fuel base v tmp ≡ done (cs ++ tmp)) × Spells base k v cs
unfolding digits_loop
digits_loop-Spells base zero (suc fuel) v tmp hb h hk ht =
    let below : v < 1 = simp unary_clauses at h in
    let nothing : v ≡ 0 = omega arith in ([], ground arith, (sym nothing, omega arith))
digits_loop-Spells base (suc k) (suc fuel) v tmp hb h hk ht = elim (Bool-cases (v == 0)) [
  | inl e ↦ ([], rw e refl, (sym (==→eq v 0 e), omega arith))
  | inr e ↦
      let c = digit_char (v % base) in
      let (cs, ec, (en, el)) =
        digits_loop-Spells base k fuel (v / base) (c ∷ tmp) hb
          ((div-lt_iff_lt-mul hb).1 (simp unary_clauses at h)) (omega arith) (omega arith) in
      let room : leb 24 (length tmp) ≡ false = ground arith in
      let value : v / base * base + digit_value c ≡ v =
        rw (digit_value-digit_char (v % base)) omega (arith, div-add-mod v base) in
      (
        cs ++ c ∷ [],
        rw (e, room, append_assoc cs (c ∷ []) tmp) ec,
        (number-append base 0 cs c ∙ rw en value, omega (arith, length-append cs (c ∷ []))),
      )
]
digits_loop-Spells base k zero v tmp hb h hk ht = absurd (omega arith)

digits-digits_loop :
    (base v : ℕ) (r : Run (List ℕ))
    → (v == 0) ≡ false
    → digits_loop 25 base v [] ≡ r
    → digits base v ≡ r
unfolding digits
digits-digits_loop base v r e h = rw e h

-- A 64-bit value is spelled out in base 10 or 16, in at most 20 characters, so that `tmp[24]` is long
-- enough.
pub digits-Spells :
    (base v : ℕ)
    → (base ≡ 10) ⊎ (base ≡ 16)
    → v < 2 ^ 64
    → (cs : List ℕ) × (digits base v ≡ done cs) × Spells base 20 v cs
unfolding digits
digits-Spells base v hb h =
    let positive : 0 < base = elim hb [ inl e ↦ omega arith | inr e ↦ omega arith ] in
    let below : v < base ^ 20 = elim hb [ inl e ↦ rw e omega arith | inr e ↦ rw e omega arith ] in
    elim (Bool-cases (v == 0)) [
      | inl e ↦ (b'0' ∷ [], rw e refl, (omega (arith, ==→eq v 0 e), omega arith))
      | inr e ↦
          let (cs, ec, spelled) =
            digits_loop-Spells base 20 25 v [] positive below (omega arith) (omega arith) in
          (cs, digits-digits_loop base v (done cs) e (rw (append-nil cs) at ec), spelled)
    ]
