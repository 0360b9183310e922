-- ===== src/Abi/Mem/Freeing.antt =====
-- What `mem_free` of kernel/abi.zig takes from the live blocks.
use zigu.Base.{
  ℕ, zero, suc, ◌+◌, ◌-◌, ◌<◌, ◌≤◌, ◌≡◌, ◌≢◌, ◌⊎◌, ◌==◌, ◌&&◌, leb, Bool-cases, ==→eq, ne→==, true,
  false, if◌then◌else◌, Option, Option-cases, none, some, inl, inr, List, [], ◌∷◌, length,
  get_or-set_same, get_or-set_other, set, Run, done, refl, ap, subst, sym, arith,
}
use zigu.Abi.Codes.{ErrorCode, ok, err_invalid}
use zigu.Abi.Mem.{
  AllocEntry, no_alloc, mem_heap_size, MemState, find_alloc, release_entry, mem_free,
}
use zigu.Abi.Mem.Live.{entry_at, IsLive, Within, Apart, IsWf, set-cases}

-- The live block at the address, or none is there.
abbrev Found : ℕ → List AllocEntry → Option ℕ → Type 0
Found ptr table none = (i : ℕ) → IsLive table i → (entry_at table i).base ≢ ptr
Found ptr table (some i) = (i < length table) × IsLive table i × ((entry_at table i).base ≡ ptr)

next-Found :
    (ptr : ℕ) (entry : AllocEntry) (table : List AllocEntry) (r : Option ℕ)
    → (entry.in_use && (entry.base == ptr)) ≡ false
    → Found ptr table r
    → Found ptr (entry ∷ table) (elim r [ none ↦ none | some i ↦ some (suc i) ])
next-Found ptr entry table none other h = go
  where
    go : (i : ℕ) → IsLive (entry ∷ table) i → (entry_at (entry ∷ table) i).base ≢ ptr
    go zero live same = ground arith
    go (suc i) live same = h i live same
next-Found ptr entry table (some i) other (low, live, same) = (omega (arith, low), live, same)

find_alloc-Found :
    (heap ptr : ℕ) (table : List AllocEntry) → Found ptr table (find_alloc heap ptr table)
unfolding find_alloc
find_alloc-Found heap ptr [] = λ i live. absurd (cc live)
find_alloc-Found heap ptr (entry ∷ table) =
    let rest : Option ℕ = elim (find_alloc heap ptr table) [
      | none ↦ none
      | some i ↦ some (suc i)
    ] in
    let later = find_alloc-Found heap ptr table in
    elim (Bool-cases (entry.in_use && (entry.base == ptr))) [
      | inl here ↦
          let live : entry.in_use ≡ true = ground arith in
          let same : entry.base ≡ ptr = ground arith in
          subst (λ b. Found ptr (entry ∷ table) (if b then some 0 else rest)) (sym here)
            (omega arith, live, same)
      | inr other ↦
          subst (λ b. Found ptr (entry ∷ table) (if b then some 0 else rest)) (sym other)
            (next-Found ptr entry table (find_alloc heap ptr table) other later)
    ]

abbrev released : MemState → ℕ → AllocEntry
released s i = record (entry_at s.alloc_table i) { in_use = false }

-- The entries that are live after a release were live before, and are others.
still-IsLive :
    (s : MemState) (i j : ℕ)
    → i < length s.alloc_table
    → IsLive (set s.alloc_table i (released s i)) j
    → (i ≢ j)
      × IsLive s.alloc_table j
      × (entry_at (set s.alloc_table i (released s i)) j ≡ entry_at s.alloc_table j)
still-IsLive s i j low live = elim (set-cases s.alloc_table i (released s i) j low) [
  | inl (eq, here) ↦
      let freed : (entry_at (set s.alloc_table i (released s i)) j).in_use ≡ false =
        ap (λ (e : AllocEntry). e.in_use) here in
      absurd (cc (freed, live))
  | inr (ne, same) ↦ (ne, subst (λ e. e.in_use ≡ true) same live, same)
]

release-IsWf :
    (heap i top : ℕ) (s : MemState)
    → IsWf heap s
    → i < length s.alloc_table
    → top ≤ s.heap_top
    → ((j : ℕ)
        → i ≢ j
        → IsLive s.alloc_table j
        → (entry_at s.alloc_table j).base + (entry_at s.alloc_table j).size ≤ heap + top)
    → IsWf heap (record { heap_top = top; alloc_table = set s.alloc_table i (released s i) })
release-IsWf heap i top s (high, within, apart) low less below =
    let table = set s.alloc_table i (released s i) in
    (
      omega (arith, high, less),
      λ j live.
          let (ne, live', same) = still-IsLive s i j low live in
          let old = within j live' in
          subst (Within heap (heap + top)) (sym same) (old.0, old.1, below j ne live'),
      λ j k ne live live2.
          let (ne', live', same) = still-IsLive s i j low live in
          let (ne2, live2', same2) = still-IsLive s i k low live2 in
          subst (λ x. Apart x (entry_at table k)) (sym same)
            (subst (Apart (entry_at s.alloc_table j)) (sym same2) (apart j k ne live' live2')),
    )

-- No other live block reaches beyond the last one.
below-last :
    (heap i : ℕ) (s : MemState)
    → IsWf heap s
    → IsLive s.alloc_table i
    → (entry_at s.alloc_table i).base + (entry_at s.alloc_table i).size ≡ heap + s.heap_top
    → (j : ℕ) → i ≢ j
    → IsLive s.alloc_table j
    → (entry_at s.alloc_table j).base + (entry_at s.alloc_table j).size
      ≤ heap + (s.heap_top - (entry_at s.alloc_table i).size)
below-last heap i s (high, within, apart) live last j ne live' =
    let here = within i live in
    let there = within j live' in
    elim (apart i j ne live live') [
      | inl h ↦ absurd (omega (arith, h, last, there))
      | inr h ↦ omega (arith, h, last, here)
    ]

-- The block at the address is no longer live, and every other entry is as it was.
abbrev pub Releases : ℕ → ℕ → MemState → Run (ErrorCode × MemState) → Type 0
Releases heap ptr s r =
    (i : ℕ) × (s' : MemState) × (r ≡ done (ok, s'))
    × IsLive s.alloc_table i
    × ((entry_at s.alloc_table i).base ≡ ptr)
    × ((entry_at s'.alloc_table i).in_use ≡ false)
    × ((j : ℕ) → i ≢ j → entry_at s'.alloc_table j ≡ entry_at s.alloc_table j)
    × IsWf heap s'

-- No live block is at the address.
abbrev pub Rejects : ℕ → MemState → Run (ErrorCode × MemState) → Type 0
Rejects ptr s r =
    (r ≡ done (err_invalid, s))
    × ((i : ℕ) → IsLive s.alloc_table i → (entry_at s.alloc_table i).base ≢ ptr)

release_entry-Releases :
    (heap ptr i : ℕ) (s : MemState)
    → IsWf heap s
    → s.heap_top < mem_heap_size
    → Found ptr s.alloc_table (some i)
    → Releases heap ptr s (release_entry heap i s)
unfolding release_entry
release_entry-Releases heap ptr i s wf room (low, live, same) =
    let entry = entry_at s.alloc_table i in
    let table = set s.alloc_table i (released s i) in
    let inside : leb mem_heap_size s.heap_top ≡ false = ground arith in
    let gone =
      ap (λ (e : AllocEntry). e.in_use)
        (get_or-set_same s.alloc_table i (released s i) no_alloc low) in
    let others =
      λ (j : ℕ) (ne : i ≢ j). get_or-set_other s.alloc_table i j (released s i) no_alloc ne in
    elim (Bool-cases (entry.base + entry.size == heap + s.heap_top)) [
      | inl last ↦
          let eq = ==→eq (entry.base + entry.size) (heap + s.heap_top) last in
          let kept =
            release-IsWf heap i (s.heap_top - entry.size) s wf low (omega arith)
              (below-last heap i s wf live eq) in
          (
            i,
            record { heap_top = s.heap_top - entry.size; alloc_table = table },
            rw (release_entry, inside, last) refl,
            live,
            same,
            gone,
            others,
            kept,
          )
      | inr amid ↦
          let kept =
            release-IsWf heap i s.heap_top s wf low (omega arith)
              (λ j ne live'. (wf.1 j live').2) in
          (
            i,
            record { heap_top = s.heap_top; alloc_table = table },
            rw (release_entry, inside, amid) refl,
            live,
            same,
            gone,
            others,
            kept,
          )
    ]

-- With the capability, for an address that is not 0 and while the heap is not used up to its last byte,
-- `mem_free` always returns. It ends the life of the live block at the address and leaves the others as they
-- are and apart; or there is none, it answers `err_invalid` and changes nothing.
pub mem_free-Releases :
    (heap ptr : ℕ) (s : MemState)
    → IsWf heap s
    → s.heap_top < mem_heap_size
    → ptr ≢ 0
    → let r = mem_free heap true ptr s in Releases heap ptr s r ⊎ Rejects ptr s r
unfolding mem_free
mem_free-Releases heap ptr s wf room some_ptr =
    let some_ptr' : (ptr == 0) ≡ false = ne→== ptr 0 some_ptr in
    elim (Option-cases (find_alloc heap ptr s.alloc_table)) [
      | inl e ↦
          let nowhere : Found ptr s.alloc_table none =
            subst (Found ptr s.alloc_table) e (find_alloc-Found heap ptr s.alloc_table) in
          inr (rw (mem_free, some_ptr', e) refl, nowhere)
      | inr (i, e) ↦
          let found : Found ptr s.alloc_table (some i) =
            subst (Found ptr s.alloc_table) e (find_alloc-Found heap ptr s.alloc_table) in
          let result : mem_free heap true ptr s ≡ release_entry heap i s =
            rw (mem_free, some_ptr', e) refl in
          inl (
            subst (Releases heap ptr s) (sym result)
              (release_entry-Releases heap ptr i s wf room found))
    ]
