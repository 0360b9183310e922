-- ===== src/Net/Subnet.antt =====
-- The test of `sameSubnet` of kernel/net.zig with our mask, on bytes.
use Prim.Native.Nat.{bit_and}
use zigu.Base.{
  ℕ, zero, suc, ◌<◌, ◌≡◌, ◌==◌, ◌&&◌, true, false, Bool, Bool-cases, ==→eq, inl, inr, List, [], ◌∷◌,
  refl, arith,
}
use zigu.Net.{same_subnet, our_ip, our_netmask}

abbrev all_below : ℕ → (ℕ → Bool) → Bool
all_below zero p = true
all_below (suc n) p = p n && all_below n p

all_below-true : (n : ℕ) (p : ℕ → Bool) (x : ℕ) → all_below n p ≡ true → x < n → p x ≡ true
all_below-true zero p x h below = absurd (omega (arith, below))
all_below-true (suc n) p x h below = elim (Bool-cases (x == n)) [
  | inl e ↦ rw (==→eq x n e) (ground (arith, h))
  | inr e ↦ all_below-true n p x (ground (arith, h)) (ground (arith, e))
]

bytes_kept : all_below 256 (λ x. bit_and x 255 == x) ≡ true
bytes_kept = refl

bytes_masked : all_below 256 (λ x. bit_and x 0 == 0) ≡ true
bytes_masked = refl

bit_and_kept : (x : ℕ) → x < 256 → bit_and x 255 ≡ x
bit_and_kept x h =
    ==→eq (bit_and x 255) x (all_below-true 256 (λ x. bit_and x 255 == x) x bytes_kept h)

bit_and_masked : (x : ℕ) → x < 256 → bit_and x 0 ≡ 0
bit_and_masked x h =
    ==→eq (bit_and x 0) 0 (all_below-true 256 (λ x. bit_and x 0 == 0) x bytes_masked h)

-- Whether an address is 172.16.0.x.
abbrev pub is_local : List ℕ → Bool
is_local (a ∷ b ∷ c ∷ rest) = a == 172 && (b == 16 && c == 0)
is_local _ = false

pub same_subnet-is_local :
    (a b c d : ℕ)
    → a < 256
    → b < 256
    → c < 256
    → d < 256
    → same_subnet (a ∷ b ∷ c ∷ d ∷ []) our_ip our_netmask ≡ is_local (a ∷ b ∷ c ∷ d ∷ [])
unfolding same_subnet
same_subnet-is_local a b c d ha hb hc hd =
    rw (bit_and_kept a ha, bit_and_kept b hb, bit_and_kept c hc, bit_and_masked d hd) ground arith
