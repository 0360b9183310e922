-- ===== src/Abi/Mem/Live.antt =====
-- The live blocks of the kernel's heap, and what `mem_alloc` adds to them.
use zigu.Base.{
  ℕ, zero, suc, ◌+◌, ◌*◌, ◌/◌, ◌^◌, ◌<◌, ◌≤◌, ◌≡◌, ◌≢◌, ◌⊎◌, ◌==◌, ltb, leb, not, Bool-cases, ==→eq,
  true, false, if◌then◌else◌, Option, Option-cases, none, some, inl, inr, List, [], ◌∷◌, length,
  get_or, get_or-set_same, get_or-set_other, set, Run, done, refl, subst, sym, ◌∙◌, arith,
}
use zigu.Abi.Codes.{ErrorCode, ok, err_nomem}
use zigu.Abi.Mem.{AllocEntry, no_alloc, mem_heap_size, MemState, find_slot, alloc_in, mem_alloc}

abbrev pub entry_at : List AllocEntry → ℕ → AllocEntry
entry_at table i = get_or table i no_alloc

abbrev pub IsLive : List AllocEntry → ℕ → Type 0
IsLive table i = (entry_at table i).in_use ≡ true

-- A block of at least a byte, below `end`.
abbrev pub Within : ℕ → ℕ → AllocEntry → Type 0
Within start end e = (start ≤ e.base) × (0 < e.size) × (e.base + e.size ≤ end)

abbrev pub Apart : AllocEntry → AllocEntry → Type 0
Apart e f = (e.base + e.size ≤ f.base) ⊎ (f.base + f.size ≤ e.base)

-- Live blocks lie in the used part of the array, and no two of them overlap.
abbrev pub IsWf : ℕ → MemState → Type 0
IsWf heap s =
    (s.heap_top ≤ mem_heap_size)
    × ((i : ℕ)
        → IsLive s.alloc_table i
        → Within heap (heap + s.heap_top) (entry_at s.alloc_table i))
    × ((i j : ℕ)
        → i ≢ j
        → IsLive s.alloc_table i
        → IsLive s.alloc_table j
        → Apart (entry_at s.alloc_table i) (entry_at s.alloc_table j))

abbrev pub SlotFree : List AllocEntry → Option ℕ → Type 0
SlotFree table none = (i : ℕ) → i < length table → IsLive table i
SlotFree table (some i) = (i < length table) × ((entry_at table i).in_use ≡ false)

next_slot-SlotFree :
    (entry : AllocEntry) (table : List AllocEntry) (r : Option ℕ)
    → entry.in_use ≡ true
    → SlotFree table r
    → SlotFree (entry ∷ table) (elim r [ none ↦ none | some i ↦ some (suc i) ])
next_slot-SlotFree entry table none used h = go
  where
    go : (i : ℕ) → i < suc (length table) → IsLive (entry ∷ table) i
    go zero low = used
    go (suc i) low = h i (omega (arith, low))
next_slot-SlotFree entry table (some i) used (low, free) = (omega (arith, low), free)

find_slot-SlotFree : (table : List AllocEntry) → SlotFree table (find_slot table)
unfolding find_slot
find_slot-SlotFree [] = λ i low. absurd (omega (arith, low))
find_slot-SlotFree (entry ∷ table) =
    let rest : Option ℕ = elim (find_slot table) [ none ↦ none | some i ↦ some (suc i) ] in
    let later = find_slot-SlotFree table in
    elim (Bool-cases entry.in_use) [
      | inl used ↦
          subst (λ b. SlotFree (entry ∷ table) (if not b then some 0 else rest)) (sym used)
            (next_slot-SlotFree entry table (find_slot table) used later)
      | inr free ↦
          subst (λ b. SlotFree (entry ∷ table) (if not b then some 0 else rest)) (sym free)
            (omega arith, free)
    ]

-- A table in which entry `slot` is replaced: every other entry is as it was.
pub set-cases :
    (table : List AllocEntry) (slot : ℕ) (e : AllocEntry) (i : ℕ)
    → slot < length table
    → ((slot ≡ i) × (entry_at (set table slot e) i ≡ e))
      ⊎ ((slot ≢ i) × (entry_at (set table slot e) i ≡ entry_at table i))
set-cases table slot e i low = elim (Bool-cases (slot == i)) [
  | inl same ↦
      let eq = ==→eq slot i same in
      inl (
        eq,
        subst (λ j. entry_at (set table slot e) j ≡ e) eq
            (get_or-set_same table slot e no_alloc low),
      )
  | inr other ↦
      let apart : slot ≢ i = λ eq. ground arith in
      inr (apart, get_or-set_other table slot i e no_alloc apart)
]

-- A free slot takes a block behind the used part, and the used part grows by it.
set-IsWf :
    (heap slot aligned : ℕ) (s : MemState)
    → IsWf heap s
    → slot < length s.alloc_table
    → 0 < aligned
    → s.heap_top + aligned ≤ mem_heap_size
    → let e : AllocEntry = record { base = heap + s.heap_top; size = aligned; in_use = true } in
      IsWf heap (record { heap_top = s.heap_top + aligned; alloc_table = set s.alloc_table slot e })
set-IsWf heap slot aligned s (top, within, apart) low some_bytes room =
    let e : AllocEntry = record { base = heap + s.heap_top; size = aligned; in_use = true } in
    let table = set s.alloc_table slot e in
    (
      room,
      λ i live. elim (set-cases s.alloc_table slot e i low) [
        | inl (eq, here) ↦
            subst (Within heap (heap + (s.heap_top + aligned))) (sym here)
              (omega arith, some_bytes, omega arith)
        | inr (ne, same) ↦
            let old = within i (subst (λ x. x.in_use ≡ true) same live) in
            subst (Within heap (heap + (s.heap_top + aligned))) (sym same)
              (old.0, old.1, omega (arith, old))
      ],
      λ i j ne live live'. elim (set-cases s.alloc_table slot e i low) [
        | inl (eq, here) ↦ elim (set-cases s.alloc_table slot e j low) [
          | inl (eq', here') ↦ absurd (ne (sym eq ∙ eq'))
          | inr (ne', same') ↦
              let old = within j (subst (λ x. x.in_use ≡ true) same' live') in
              subst (λ x. Apart x (entry_at table j)) (sym here)
                (subst (Apart e) (sym same') (inr (omega (arith, old))))
        ]
        | inr (ne', same) ↦
            let old = within i (subst (λ x. x.in_use ≡ true) same live) in
            elim (set-cases s.alloc_table slot e j low) [
              | inl (eq', here') ↦
                  subst (λ x. Apart x (entry_at table j)) (sym same)
                    (subst (Apart (entry_at s.alloc_table i)) (sym here')
                      (inl (omega (arith, old))))
              | inr (ne'', same') ↦
                  subst (λ x. Apart x (entry_at table j)) (sym same)
                    (subst (Apart (entry_at s.alloc_table i)) (sym same') (
                      apart i j ne (subst (λ x. x.in_use ≡ true) same live)
                        (subst (λ x. x.in_use ≡ true) same' live')))
            ]
      ],
    )

-- The block that is handed out: at least the bytes asked for, behind the used part of the array and in a
-- slot that was free; it is live, and every other entry is as it was.
abbrev pub Serves : ℕ → ℕ → MemState → Run ((ErrorCode × Option ℕ) × MemState) → Type 0
Serves heap bytes s r =
    (slot aligned : ℕ) × (s' : MemState) × (r ≡ done ((ok, some (heap + s.heap_top)), s'))
    × (bytes ≤ aligned)
    × (s.heap_top + aligned ≤ mem_heap_size)
    × ((entry_at s.alloc_table slot).in_use ≡ false)
    × (entry_at s'.alloc_table slot
        ≡ (record { base = heap + s.heap_top; size = aligned; in_use = true }))
    × ((i : ℕ) → slot ≢ i → entry_at s'.alloc_table i ≡ entry_at s.alloc_table i)
    × IsWf heap s'

-- No block: the array has no room behind its used part, or all slots are taken.
abbrev pub Refuses : ℕ → MemState → Run ((ErrorCode × Option ℕ) × MemState) → Type 0
Refuses bytes s r =
    (r ≡ done ((err_nomem, none), s))
    × ((mem_heap_size < s.heap_top + (bytes + 15) / 16 * 16)
        ⊎ ((i : ℕ) → i < length s.alloc_table → IsLive s.alloc_table i))

-- With the capability and a place for the result, and for at least one and at most `2 ^ 63` bytes, `mem_alloc`
-- always returns. It answers `err_nomem` and changes nothing, where there is no room behind the used part or
-- no free slot; else it hands out a block of at least that size, which overlaps no live block and leaves
-- them as they are.
pub mem_alloc-Serves :
    (heap bytes : ℕ) (s : MemState)
    → IsWf heap s
    → 0 < bytes
    → bytes ≤ 2 ^ 63
    → let r = mem_alloc heap true bytes true s in Serves heap bytes s r ⊎ Refuses bytes s r
unfolding mem_alloc alloc_in
mem_alloc-Serves heap bytes s wf some_bytes few =
    let aligned = (bytes + 15) / 16 * 16 in
    let some_bytes' : (bytes == 0) ≡ false = ground arith in
    let fits : leb (2 ^ 64) (bytes + 15) ≡ false = ground arith in
    let top = wf.0 in
    let fits' : leb (2 ^ 64) (s.heap_top + aligned) ≡ false = ground arith in
    elim (Bool-cases (ltb mem_heap_size (s.heap_top + aligned))) [
      | inl full ↦ inr (rw (mem_alloc, some_bytes', fits, fits', full) refl, inl (ground arith))
      | inr room ↦ elim (Option-cases (find_slot s.alloc_table)) [
        | inl e ↦
            let taken : SlotFree s.alloc_table none =
              subst (SlotFree s.alloc_table) e (find_slot-SlotFree s.alloc_table) in
            inr (rw (mem_alloc, some_bytes', fits, fits', room, e) refl, inr taken)
        | inr (slot, e) ↦
            let (low, free) : SlotFree s.alloc_table (some slot) =
              subst (SlotFree s.alloc_table) e (find_slot-SlotFree s.alloc_table) in
            let below : s.heap_top + aligned ≤ mem_heap_size = ground arith in
            let entry : AllocEntry = record {
              base = heap + s.heap_top;
              size = aligned;
              in_use = true;
            } in
            inl (
              slot,
              aligned,
              record {
                heap_top = s.heap_top + aligned;
                alloc_table = set s.alloc_table slot entry;
              },
              rw (mem_alloc, some_bytes', fits, fits', room, e) refl,
              omega arith,
              below,
              free,
              get_or-set_same s.alloc_table slot entry no_alloc low,
              λ i ne. get_or-set_other s.alloc_table slot i entry no_alloc ne,
              set-IsWf heap slot aligned s wf low (omega (arith, some_bytes)) below,
            )
      ]
    ]
