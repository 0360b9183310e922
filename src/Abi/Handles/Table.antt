-- ===== src/Abi/Handles/Table.antt =====
-- What a handle that is given out says, and what it leaves of the others.
use zigu.Base.{
  ℕ, zero, suc, ◌+◌, ◌^◌, ◌<◌, ◌≤◌, ◌≡◌, ◌≢◌, ◌↔◌, true, false, if◌then◌else◌, Option, none, some,
  Bool-cases, inl, inr, List, [], ◌∷◌, All, length, get_or, set, get_or-set_same, get_or-set_other,
  length-set, refl, ap, subst, sym, ◌∙◌, arith,
}
use zigu.Abi.Codes.{ErrorCode, ok, err_busy}
use zigu.Abi.Handles.{
  Entry, unused, make_handle, handle_tag, handle_id, handle_gen, pass, alloc_result, alloc_loop,
  alloc_handle, validate_handle,
}

-- Entry `k` is free.
abbrev pub IsFree : List Entry → ℕ → Type 0
IsFree table k = (k < length table) × ((get_or table k unused).in_use ≡ false)

-- Entry `k` is free and given out, or there is none and no entry is free.
abbrev pub Allocates : ℕ → ℕ → List Entry → Option (ℕ × List Entry) → Type 0
Allocates tag i table none = All (λ e. e.in_use ≡ true) table
Allocates tag i table (some (handle, table')) =
    (k : ℕ) × IsFree table k
    × (handle ≡ make_handle tag (i + k) (get_or table k unused).gen)
    × (table' ≡ set table k (record (get_or table k unused) { in_use = true }))

pass-Allocates :
    (tag i : ℕ) (e : Entry) (table : List Entry) (r : Option (ℕ × List Entry))
    → e.in_use ≡ true
    → Allocates tag (i + 1) table r
    → Allocates tag i (e ∷ table) (pass e r)
pass-Allocates tag i e table none busy h = (busy, h)
pass-Allocates tag i e table (some (handle, table')) busy (k, (below, free), made, new) = (
  suc k,
  (omega arith, free),
  made ∙ ap (λ j. make_handle tag j (get_or table k unused).gen) (omega arith),
  ap (λ t. e ∷ t) new,
)

pub alloc_loop-Allocates :
    (tag i : ℕ) (table : List Entry) → Allocates tag i table (alloc_loop tag i table)
unfolding alloc_loop
alloc_loop-Allocates tag i [] = tt
alloc_loop-Allocates tag i (e ∷ table) =
    let rest = alloc_loop tag (i + 1) table in
    let first : Option (ℕ × List Entry) =
      some (make_handle tag i e.gen, record e { in_use = true } ∷ table) in
    elim (Bool-cases e.in_use) [
      | inl busy ↦
          subst (λ b. Allocates tag i (e ∷ table) (if b then pass e rest else first)) (sym busy)
            (pass-Allocates tag i e table rest busy (alloc_loop-Allocates tag (i + 1) table))
      | inr free ↦
          subst (λ b. Allocates tag i (e ∷ table) (if b then pass e rest else first)) (sym free)
            (zero, (omega arith, free), ap (λ j. make_handle tag j e.gen) (omega arith), refl)
    ]

-- What a handle says, when its parts fit in their fields.
make_handle-parts :
    (tag id gen : ℕ)
    → id < 2 ^ 24
    → gen < 2 ^ 16
    → let handle = make_handle tag id gen in
      (handle_tag handle ≡ tag) × (handle_id handle ≡ id) × (handle_gen handle ≡ gen)
make_handle-parts tag id gen h h' = (omega arith, omega arith, omega arith)

-- An entry is valid for a handle.
abbrev pub IsValid : List Entry → ℕ → ℕ → ℕ → Type 0
IsValid table tag handle id =
    (handle_tag handle ≡ tag)
    × (handle_id handle ≡ id)
    × (id < length table)
    × ((get_or table id unused).in_use ≡ true)
    × ((get_or table id unused).gen ≡ handle_gen handle)

-- `validateHandle` accepts exactly the handles that are valid.
pub validate_handle-IsValid :
    (table : List Entry) (tag handle id : ℕ)
    → (validate_handle table tag handle ≡ some id) ↔ IsValid table tag handle id
unfolding validate_handle
validate_handle-IsValid table tag handle id = (λ h. ground arith, λ h. ground arith)

-- The generations fit in 16 bits, and the entries' numbers in 24.
abbrev pub IsWf : List Entry → Type 0
IsWf table = (length table ≤ 2 ^ 24) × ((id : ℕ) → (get_or table id unused).gen < 2 ^ 16)

-- The one entry that changes keeps its generation.
pub set-gen :
    (table : List Entry) (k id : ℕ) (v : Entry)
    → v.gen ≡ (get_or table k unused).gen
    → (get_or (set table k v) id unused).gen ≡ (get_or table id unused).gen
set-gen [] k id v h = refl
set-gen (e ∷ table) zero zero v h = h
set-gen (e ∷ table) zero (suc id) v h = refl
set-gen (e ∷ table) (suc k) zero v h = refl
set-gen (e ∷ table) (suc k) (suc id) v h = set-gen table k id v h

-- The entries other than `k` are valid for what they were valid for.
set-IsValid :
    (table : List Entry) (k : ℕ) (v : Entry) (tag handle id : ℕ)
    → k ≢ id
    → IsValid table tag handle id
    → IsValid (set table k v) tag handle id
set-IsValid table k v tag handle id apart (t, i, below, used, gen) =
    let same = get_or-set_other table k id v unused apart in
    (t, i, rw (length-set table k v) below, rw same used, rw same gen)

-- A new handle is given out for a free entry, it is valid from then on, and every other handle that was
-- valid is still valid and names another entry; or all entries are in use, and nothing changes.
abbrev pub GivesOut : ℕ → List Entry → (ErrorCode × Option ℕ) × List Entry → Type 0
GivesOut tag table ((rc, none), table') =
    (rc ≡ err_busy) × (table' ≡ table) × All (λ e. e.in_use ≡ true) table
GivesOut tag table ((rc, some handle), table') =
    (rc ≡ ok)
    × ((id : ℕ) × IsFree table id
        × IsValid table' tag handle id
        × (table' ≡ set table id (record (get_or table id unused) { in_use = true }))
        × ((other id' : ℕ)
            → IsValid table tag other id'
            → IsValid table' tag other id' × (id ≢ id')))

alloc_loop-GivesOut :
    (tag : ℕ) (table : List Entry) (handle : ℕ) (table' : List Entry)
    → IsWf table
    → Allocates tag 0 table (some (handle, table'))
    → GivesOut tag table ((ok, some handle), table')
alloc_loop-GivesOut tag table handle table' (few, small) (k, (below, free), made, new) =
    let e = get_or table k unused in
    let v = record e { in_use = true } in
    let (t, i, g) = make_handle-parts tag k e.gen (omega (arith, few, below)) (small k) in
    let valid : IsValid (set table k v) tag (make_handle tag k e.gen) k =
      let same = get_or-set_same table k v unused below in
      (
        t,
        i,
        rw (length-set table k v) below,
        ap (λ x. x.in_use) same,
        ap (λ x. x.gen) same ∙ sym g,
      ) in
    let kept : (other id' : ℕ)
        → IsValid table tag other id'
        → IsValid table' tag other id' × (k ≢ id') =
      λ other id' other_valid.
        let (t', i', below', used, gen) = other_valid in
        let apart : k ≢ id' = λ same. cc (free, used, same) in
        (
          subst (λ x. IsValid x tag other id') (sym new)
              (set-IsValid table k v tag other id' apart other_valid),
          apart,
        ) in
    let given =
      subst (λ h. IsValid (set table k v) tag h k)
        (sym (made ∙ ap (λ j. make_handle tag j e.gen) (omega arith))) valid in
    (refl, (k, (below, free), subst (λ x. IsValid x tag handle k) (sym new) given, new, kept))

-- In a table whose sizes and generations fit their fields, either all entries are in use, the answer is
-- `err_busy` and nothing changes; or a free entry is given out with a handle that is valid from then on,
-- and every other handle that was valid stays so and names another entry.
pub alloc_handle-GivesOut :
    (tag : ℕ) (table : List Entry) → IsWf table → GivesOut tag table (alloc_handle tag table)
unfolding alloc_handle
alloc_handle-GivesOut tag table wf = go (alloc_loop tag 0 table) (alloc_loop-Allocates tag 0 table)
  where
    go :
        (r : Option (ℕ × List Entry))
        → Allocates tag 0 table r
        → GivesOut tag table (alloc_result table r)
    go none h = (refl, refl, h)
    go (some (handle, table')) h = alloc_loop-GivesOut tag table handle table' wf h
