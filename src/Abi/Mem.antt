-- ===== src/Abi/Mem.antt =====
-- `mem_alloc` and `mem_free` of kernel/abi.zig. What Zig checks at run time, an overflow and an index out of
-- bounds, is a fault.
pub mod Live
pub mod Freeing
mod Tests
use zigu.Base.{
  ℕ, zero, suc, ◌+◌, ◌-◌, ◌*◌, ◌/◌, ◌^◌, ◌==◌, ◌&&◌, ltb, leb, not, Bool, true, false,
  if◌then◌else◌, Option, none, some, List, [], ◌∷◌, get_or, set, Run, done, fault,
}
use zigu.Abi.Codes.{ErrorCode, ok, err_invalid, err_nomem, err_permission}

-- `AllocEntry`
pub record AllocEntry : Type 0 where
  pub base : ℕ
  pub size : ℕ
  pub in_use : Bool

abbrev pub no_alloc : AllocEntry
no_alloc = record { base = 0; size = 0; in_use = false }

abbrev pub mem_heap_size : ℕ
mem_heap_size = 1024 * 1024

-- `heap_top` and `alloc_table`
pub record MemState : Type 0 where
  pub heap_top : ℕ
  pub alloc_table : List AllocEntry

-- The first free slot.
pub find_slot : List AllocEntry → Option ℕ
find_slot [] = none
find_slot (entry ∷ table) =
    let rest = find_slot table in
    if not entry.in_use then some 0 else elim rest [ none ↦ none | some i ↦ some (suc i) ]

-- `heap` is the address of the array.
module _ (heap : ℕ) where
  -- From the search for a slot on.
  pub alloc_in : ℕ → Option ℕ → MemState → (ErrorCode × Option ℕ) × MemState
  alloc_in aligned none s = ((err_nomem, none), s)
  alloc_in aligned (some slot) s =
      let ptr = heap + s.heap_top in
      (
        (ok, some ptr),
        record {
          heap_top = s.heap_top + aligned;
          alloc_table =
              set s.alloc_table slot (record { base = ptr; size = aligned; in_use = true });
        },
      )

  -- `allowed` is `allow(.mem)`, `out_ptr` whether the pointer is not null.
  pub mem_alloc : Bool → ℕ → Bool → MemState → Run ((ErrorCode × Option ℕ) × MemState)
  unfolding find_slot alloc_in
  mem_alloc allowed bytes out_ptr s =
      let aligned = (bytes + 15) / 16 * 16 in
      if not allowed
      then done ((err_permission, none), s)
      else if not out_ptr
      then done ((err_invalid, none), s)
      else if bytes == 0
      then done ((err_invalid, none), s)
      else if leb (2 ^ 64) (bytes + 15)
      then fault
      else if leb (2 ^ 64) (s.heap_top + aligned)
      then fault
      else if ltb mem_heap_size (s.heap_top + aligned)
      then done ((err_nomem, none), s)
      else done (alloc_in aligned (find_slot s.alloc_table) s)

  -- The first allocation at the address that is in use.
  pub find_alloc : ℕ → List AllocEntry → Option ℕ
  find_alloc ptr [] = none
  find_alloc ptr (entry ∷ table) =
      let rest = find_alloc ptr table in
      if entry.in_use && (entry.base == ptr)
      then some 0
      else elim rest [ none ↦ none | some i ↦ some (suc i) ]

  -- The entry is released, and the space too if it is the last.
  pub release_entry : ℕ → MemState → Run (ErrorCode × MemState)
  release_entry i s =
      let entry = get_or s.alloc_table i no_alloc in
      let table = set s.alloc_table i (record entry { in_use = false }) in
      if leb mem_heap_size s.heap_top
      then fault
      else if entry.base + entry.size == heap + s.heap_top
      then done (ok, record { heap_top = s.heap_top - entry.size; alloc_table = table })
      else done (ok, record { heap_top = s.heap_top; alloc_table = table })

  pub mem_free : Bool → ℕ → MemState → Run (ErrorCode × MemState)
  unfolding find_alloc release_entry
  mem_free allowed ptr s =
      if not allowed
      then done (err_permission, s)
      else if ptr == 0
      then done (err_invalid, s)
      else elim (find_alloc ptr s.alloc_table) [
        | none ↦ done (err_invalid, s)
        | some i ↦ release_entry i s
      ]
