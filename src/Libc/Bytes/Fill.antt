-- ===== src/Libc/Bytes/Fill.antt =====
-- What `memset` leaves in memory, and what `memcmp` says.
use zigu.Base.{ℕ, zero, suc, ◌+◌, ◌%◌, ◌≡◌, arith, ltb, leb, ◌&&◌, if◌then◌else◌, fun_ext, ◌∙◌}
use zigu.Memory.{Memory, poke}
use zigu.Libc.Bytes.{fill_up, memset}

pub fill_up_at :
    (k i p c : ℕ) (m : Memory) (a : ℕ)
    → fill_up k i p c m a ≡ (if leb (p + i) a && ltb a (p + i + k) then c % 256 else m a)
unfolding fill_up
fill_up_at zero i p c m a = ground arith
fill_up_at (suc k) i p c m a = ground (arith, fill_up_at k (i + 1) p c (poke m (p + i) (c % 256)) a)

-- `memset` returns its pointer, sets the `n` bytes there to the low byte of `c`, and changes no
-- other byte.
pub memset_lem :
    (s c n : ℕ) (m : Memory)
    → memset s c n m ≡ (s, λ a. if leb s a && ltb a (s + n) then c % 256 else m a)
unfolding memset
memset_lem s c n m = rw (fun_ext (λ a. fill_up_at n 0 s c m a ∙ at_start a))
  where
    at_start :
        (a : ℕ)
        → (if leb (s + 0) a && ltb a (s + 0 + n) then c % 256 else m a)
          ≡ (if leb s a && ltb a (s + n) then c % 256 else m a)
    at_start a = ground arith
