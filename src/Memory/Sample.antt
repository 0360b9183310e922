-- ===== src/Memory/Sample.antt =====
-- Texts as their bytes, and memory with bytes at an address and 0 elsewhere.
use Prim.Native.Char.{code}
use Prim.Native.String.{String}
use zigu.Base.{ℕ, ◌-◌, List, [], ◌∷◌, get_or, if◌then◌else◌, leb}
use zigu.Memory.Byte.{Memory}

-- The bytes of an ASCII text.
abbrev pub codes : String → List ℕ
codes String.[] = []
codes (String.◌∷◌ c s) = code c ∷ codes s

abbrev pub place : ℕ → List ℕ → Memory
place s xs a = if leb s a then get_or xs (a - s) 0 else 0
