-- ===== src/Libc/Strings/IsString.antt =====
-- Strings in memory.
use zigu.Base.{ℕ, ◌+◌, ◌≡◌, ◌≢◌, ◌≤◌, ◌<◌, List, [], ◌∷◌, length, suc, arith, ◌∙◌, subst}
use zigu.Memory.{Memory}

-- From `s` on the memory holds the bytes `xs`, none of them 0, and a 0 behind them.
abbrev pub IsString : Memory → ℕ → List ℕ → Type 0
IsString m s [] = m s ≡ 0
IsString m s (x ∷ xs) = (m s ≡ x) × (x ≢ 0) × IsString m (s + 1) xs

-- A string stays where the memory from its start to its terminator does.
pub IsString-frame :
    (m m' : Memory) (s : ℕ) (xs : List ℕ)
    → ((a : ℕ) → s ≤ a → a < s + suc (length xs) → m' a ≡ m a)
    → IsString m s xs
    → IsString m' s xs
IsString-frame m m' s [] same e = same s (omega arith) (omega arith) ∙ e
IsString-frame m m' s (x ∷ xs) same (at, ne, rest) = (
  same s (omega arith) (omega arith) ∙ at,
  ne,
  IsString-frame m m' (s + 1) xs (λ a low high. same a (omega arith) (omega arith)) rest,
)

pub IsString-at : (m : Memory) {s t : ℕ} (xs : List ℕ) → s ≡ t → IsString m s xs → IsString m t xs
IsString-at m xs e h = subst (λ a. IsString m a xs) e h
