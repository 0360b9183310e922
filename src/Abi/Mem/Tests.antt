-- ===== src/Abi/Mem/Tests.antt =====
-- Runs of `mem_alloc` and `mem_free`, and their theorems on a heap with two live blocks.
use zigu.Base.{
  ℕ, zero, suc, ◌+◌, ◌≡◌, ◌≢◌, ◌⊎◌, true, false, [], ◌∷◌, inl, inr, refl, arith, done, fault,
}
use zigu.Abi.Codes.{ok}
use zigu.Abi.Mem.{no_alloc, mem_heap_size, MemState, mem_alloc, mem_free, find_alloc}
use zigu.Abi.Mem.Live.{entry_at, IsLive, Within, Apart, IsWf, Serves, Refuses, mem_alloc-Serves}
use zigu.Abi.Mem.Freeing.{Releases, Rejects, mem_free-Releases}

abbrev two_live : MemState
two_live = record {
  heap_top = 48;
  alloc_table =
      record { base = 4096; size = 16; in_use = true }
      ∷ record { base = 4112; size = 32; in_use = true }
      ∷ no_alloc
      ∷ [];
}

two_live-Within :
    (i : ℕ)
    → IsLive two_live.alloc_table i
    → Within 4096 (4096 + 48) (entry_at two_live.alloc_table i)
two_live-Within zero live = (omega arith, omega arith, omega arith)
two_live-Within (suc zero) live = (omega arith, omega arith, omega arith)
two_live-Within (suc (suc zero)) live = absurd (cc live)
two_live-Within (suc (suc (suc i))) live = absurd (cc live)

two_live-Apart :
    (i j : ℕ)
    → i ≢ j
    → IsLive two_live.alloc_table i
    → IsLive two_live.alloc_table j
    → Apart (entry_at two_live.alloc_table i) (entry_at two_live.alloc_table j)
two_live-Apart zero zero ne live live' = absurd (ne refl)
two_live-Apart zero (suc zero) ne live live' = inl (omega arith)
two_live-Apart (suc zero) zero ne live live' = inr (omega arith)
two_live-Apart (suc zero) (suc zero) ne live live' = absurd (ne refl)
two_live-Apart (suc (suc zero)) j ne live live' = absurd (cc live)
two_live-Apart (suc (suc (suc i))) j ne live live' = absurd (cc live)
two_live-Apart zero (suc (suc zero)) ne live live' = absurd (cc live')
two_live-Apart zero (suc (suc (suc j))) ne live live' = absurd (cc live')
two_live-Apart (suc zero) (suc (suc zero)) ne live live' = absurd (cc live')
two_live-Apart (suc zero) (suc (suc (suc j))) ne live live' = absurd (cc live')

two_live-IsWf : IsWf 4096 two_live
two_live-IsWf = (omega arith, two_live-Within, two_live-Apart)

-- The first of two blocks is freed: its space is not reclaimed, also when the second one is freed next.
free_first :
    mem_free 4096 true 4096 two_live
    ≡ done (
      ok,
      record two_live {
        alloc_table =
            record { base = 4096; size = 16; in_use = false }
            ∷ record { base = 4112; size = 32; in_use = true }
            ∷ no_alloc
            ∷ [];
      },
    )
unfolding mem_free find_alloc
free_first = refl

-- With the array used up to its last byte, the comparison with the end of the used part is out of bounds.
free_full :
    mem_free 4096 true 4096 (record {
      heap_top = mem_heap_size;
      alloc_table = record { base = 4096; size = mem_heap_size; in_use = true } ∷ [];
    })
    ≡ fault
unfolding mem_free find_alloc
free_full = refl

mem_alloc-Serves_example :
    Serves 4096 20 two_live (mem_alloc 4096 true 20 true two_live)
    ⊎ Refuses 20 two_live (mem_alloc 4096 true 20 true two_live)
mem_alloc-Serves_example =
    mem_alloc-Serves 4096 20 two_live two_live-IsWf (omega arith) (omega arith)

mem_free-Releases_example :
    Releases 4096 4112 two_live (mem_free 4096 true 4112 two_live)
    ⊎ Rejects 4112 two_live (mem_free 4096 true 4112 two_live)
mem_free-Releases_example =
    mem_free-Releases 4096 4112 two_live two_live-IsWf (omega arith) (λ e. ground arith)
