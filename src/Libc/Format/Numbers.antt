-- ===== src/Libc/Format/Numbers.antt =====
-- Numbers in base 10 or 16 as they are written by hand, and that `put_uint` of freestanding/libc_shim.c writes them so.
use native.Mathlib.Nat.{div-lt_iff_lt-mul}
use native.Mathlib.Numerals.{unary_clauses}
use zigu.Base.{
  ℕ, zero, suc, ◌+◌, ◌-◌, ◌/◌, ◌%◌, ◌^◌, ◌≤◌, ◌<◌, ◌≡◌, ◌==◌, ltb, leb, Bool, false, ◌⊎◌,
  append-nil, Bool-cases, inl, inr, if◌then◌else◌, List, [], ◌∷◌, ◌++◌, append_assoc, length, refl,
  ap, sym, ◌∙◌, arith, done,
}
use zigu.Libc.Format.{digit_char, digits_loop, digits}
use zigu.Libc.Format.Output.{digits_of, numeral}

-- '0' to '9', then 'a' to 'f'
abbrev pub digit : ℕ → ℕ
digit d = if ltb d 10 then 48 + d else 97 + (d - 10)

-- The digits of `v`, the highest first: at most `k` of them.
abbrev pub positional : ℕ → ℕ → ℕ → List ℕ
positional base zero v = []
positional base (suc k) v =
    if v == 0 then [] else positional base k (v / base) ++ (digit (v % base) ∷ [])

abbrev pub written_in : ℕ → ℕ → List ℕ
written_in base v = if v == 0 then 48 ∷ [] else positional base 20 v

digits_loop-positional :
    (base k fuel v : ℕ) (tmp : List ℕ)
    → 0 < base
    → v < base ^ k
    → k < fuel
    → k + length tmp ≤ 24
    → digits_loop fuel base v tmp ≡ done (positional base k v ++ tmp)
unfolding digits_loop digit_char
digits_loop-positional base k zero v tmp hb h hk ht = absurd (omega (arith, hk))
digits_loop-positional base zero (suc fuel) v tmp hb h hk ht =
    let below : v < 1 = simp unary_clauses at h in ground arith
digits_loop-positional base (suc k) (suc fuel) v tmp hb h hk ht = elim (Bool-cases (v == 0)) [
  | inl e ↦ rw e refl
  | inr e ↦
      let c = digit (v % base) in
      let ih =
        digits_loop-positional base k fuel (v / base) (c ∷ tmp) hb
          ((div-lt_iff_lt-mul hb).1 (simp unary_clauses at h)) (omega (arith, hk))
          (omega (arith, ht)) in
      let room : leb 24 (length tmp) ≡ false = ground (arith, ht) in
      rw (e, room, append_assoc (positional base k (v / base)) (c ∷ []) tmp) ih
]

if-false : {A : Type 0} (b : Bool) (x y : A) → b ≡ false → (if b then x else y) ≡ y
if-false b x y e = rw e refl

digits-written_in :
    (base v : ℕ) → (base ≡ 10) ⊎ (base ≡ 16) → v < 2 ^ 64 → digits base v ≡ done (written_in base v)
unfolding digits
digits-written_in base v hb h =
    let positive : 0 < base = elim hb [ inl e ↦ omega arith | inr e ↦ omega arith ] in
    let below : v < base ^ 20 = elim hb [ inl e ↦ rw e omega arith | inr e ↦ rw e omega arith ] in
    elim (Bool-cases (v == 0)) [
      | inl e ↦ rw e refl
      | inr e ↦
          let ran =
            digits_loop-positional base 20 25 v [] positive below (omega arith) (omega arith) in
          let all = positional base 20 v in
          if-false (v == 0) (done (48 ∷ [])) (digits_loop 25 base v []) e
          ∙ ran
          ∙ ap done (append-nil all ∙ sym (if-false (v == 0) (48 ∷ []) all e))
    ]

pub numeral-written_in :
    (base v : ℕ) → (base ≡ 10) ⊎ (base ≡ 16) → v < 2 ^ 64 → numeral base v ≡ written_in base v
numeral-written_in base v hb h = ap digits_of (digits-written_in base v hb h)
