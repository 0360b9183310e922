-- ===== src/Net/Checksum.antt =====
-- The checksum of the header of IPv4, `ipChecksum` of kernel/net.zig.
use zigu.Base.{
  ℕ, zero, suc, ◌+◌, ◌*◌, ◌/◌, ◌%◌, ◌^◌, ◌<◌, ◌≤◌, ◌≡◌, ltb, Bool-cases, false, inl, inr, List, [],
  ◌∷◌, length, All, refl, arith,
}
use zigu.Net.{fold_carry}

-- The sum of 32 bits is folded into 16 in two rounds; what is folded is the sum modulo 65535, and is 0 only for 0.
abbrev Folded : ℕ → ℕ → Type 0
Folded sum c = (k : ℕ) × (sum ≡ c + k * 65535) × (c < 65536) × (1 ≤ sum → 1 ≤ c)

-- What 16 bits hold is not folded.
fold_carry-small : (rounds sum : ℕ) → sum < 65536 → fold_carry rounds sum ≡ sum
unfolding fold_carry
fold_carry-small zero sum h = refl
fold_carry-small (suc rounds) sum h =
    let small : ltb 65535 sum ≡ false = ground arith in rw (fold_carry, small) refl

-- However many rounds more are granted.
pub fold_carry-enough :
    (rounds sum : ℕ) → sum < 2 ^ 32 → fold_carry (suc (suc rounds)) sum ≡ fold_carry 2 sum
unfolding fold_carry
fold_carry-enough rounds sum h =
    let first = sum % 65536 + sum / 65536 in
    elim (Bool-cases (ltb 65535 sum)) [
      | inr small ↦ rw (fold_carry, small) refl
      | inl large ↦ elim (Bool-cases (ltb 65535 first)) [
        | inr small ↦ rw (fold_carry, large, small) refl
        | inl larger ↦
            let over : 65535 < first = ground arith in
            let second = fold_carry-small rounds (first % 65536 + first / 65536) (omega arith) in
            rw (fold_carry, large, larger) second
      ]
    ]

-- Four bytes.
abbrev pub IsAddress : List ℕ → Type 0
IsAddress ip = (length ip ≡ 4) × All (λ b. b < 256) ip

abbrev Bytes : List ℕ → Type 0
Bytes ip = (a b c d : ℕ) × (ip ≡ a ∷ b ∷ c ∷ d ∷ []) × (a < 256) × (b < 256) × (c < 256) × (d < 256)

-- The fields of a header are in their bounds.
abbrev pub IsHeader : ℕ → ℕ → ℕ → List ℕ → List ℕ → Type 0
IsHeader total_len id protocol src dst =
    (total_len < 2 ^ 16) × (id < 2 ^ 16) × (protocol < 256) × IsAddress src × IsAddress dst
