-- ===== src/Memory/Byte.antt =====
-- Single bytes in memory.
use zigu.Base.{ℕ, zero, suc, ◌+◌, ◌-◌, List, [], ◌∷◌, ◌&&◌, ltb, leb, ◌==◌, if◌then◌else◌}

-- The byte at each address. The kernel runs with one flat address space.
abbrev pub Memory : Type 0
Memory = ℕ → ℕ

-- `*a = v`
abbrev pub poke : Memory → ℕ → ℕ → Memory
poke m a v b = if b == a then v else m b

-- The `n` bytes from `s` on, put at `d` all at once.
abbrev pub blit : Memory → ℕ → ℕ → ℕ → Memory
blit m d s n a = if leb d a && ltb a (d + n) then m (s + (a - d)) else m a

-- The `len` bytes from `s` on.
unfoldable pub bytes_at : ℕ → ℕ → Memory → List ℕ
bytes_at s zero m = []
bytes_at s (suc len) m = m s ∷ bytes_at (s + 1) len m
