-- ===== src/Abi/Handles/Revoked.antt =====
-- A handle that was closed, over the calls on its table that follow.
use zigu.Base.{
  ℕ, zero, suc, ◌+◌, ◌-◌, ◌%◌, ◌^◌, ◌<◌, ◌≤◌, ◌≡◌, ◌⊎◌, true, false, Option, none, some,
  Option-cases, inl, inr, List, [], ◌∷◌, get_or, set, get_or-set_same, refl, ap, subst, sym, ◌∙◌,
  arith,
}
use zigu.Abi.Codes.{ok, err_invalid}
use zigu.Abi.Handles.{
  Entry, unused, handle_gen, alloc_result, alloc_loop, alloc_handle, validate_handle, close_handle,
  reset_table,
}
use zigu.Abi.Handles.Table.{
  IsValid, Allocates, validate_handle-IsValid, set-gen, alloc_loop-Allocates,
}

-- The calls on a table, and its reset for a workload, which sets the generations back.
pub data TableOp : Type 0 where
  alloc : TableOp
  close : ℕ → TableOp
  reset : TableOp

pub step : ℕ → TableOp → List Entry → List Entry
unfolding alloc_handle close_handle reset_table
step tag alloc table = (alloc_handle tag table).1
step tag (close handle) table = (close_handle table tag handle).1
step tag reset table = reset_table table

pub run : ℕ → List TableOp → List Entry → List Entry
unfolding step
run tag [] table = table
run tag (op ∷ ops) table = run tag ops (step tag op table)

abbrev pub closes : List TableOp → ℕ
closes [] = 0
closes (alloc ∷ ops) = closes ops
closes (close handle ∷ ops) = suc (closes ops)
closes (reset ∷ ops) = closes ops

abbrev pub resets : List TableOp → ℕ
resets [] = 0
resets (alloc ∷ ops) = resets ops
resets (close handle ∷ ops) = resets ops
resets (reset ∷ ops) = suc (resets ops)

abbrev pub gen_of : List Entry → ℕ → ℕ
gen_of table id = (get_or table id unused).gen

-- A handle that is valid is closed; its entry is free and of the next generation, and the others are as
-- they were. A handle that is not valid is refused, and nothing changes.
abbrev pub freed : List Entry → ℕ → Entry
freed table id = record { in_use = false; gen = (gen_of table id + 1) % 2 ^ 16 }

pub close_handle-valid :
    (table : List Entry) (tag handle id : ℕ)
    → IsValid table tag handle id
    → close_handle table tag handle ≡ (ok, set table id (freed table id))
unfolding close_handle
close_handle-valid table tag handle id h =
    rw (close_handle, (validate_handle-IsValid table tag handle id).1 h) refl

close_handle-refused :
    (table : List Entry) (tag handle : ℕ)
    → validate_handle table tag handle ≡ none
    → close_handle table tag handle ≡ (err_invalid, table)
unfolding close_handle
close_handle-refused table tag handle h = rw (close_handle, h) refl

alloc-gen :
    (tag : ℕ) (table : List Entry) (id : ℕ) → gen_of (alloc_handle tag table).1 id ≡ gen_of table id
unfolding alloc_handle
alloc-gen tag table id = go (alloc_loop tag 0 table) (alloc_loop-Allocates tag 0 table)
  where
    go :
        (r : Option (ℕ × List Entry))
        → Allocates tag 0 table r
        → gen_of (alloc_result table r).1 id ≡ gen_of table id
    go none h = refl
    go (some (handle, table')) (k, free, made, new) =
        ap (λ t. gen_of t id) new
        ∙ set-gen table k id (record (get_or table k unused) { in_use = true }) refl

-- A generation advances at most once.
abbrev Advances : List Entry → List Entry → ℕ → Type 0
Advances table table' id =
    (gen_of table' id ≡ gen_of table id) ⊎ (gen_of table' id ≡ (gen_of table id + 1) % 2 ^ 16)

freed-Advances : (table : List Entry) (k id : ℕ) → Advances table (set table k (freed table k)) id
freed-Advances [] k id = inl refl
freed-Advances (e ∷ table) zero zero = inr refl
freed-Advances (e ∷ table) zero (suc id) = inl refl
freed-Advances (e ∷ table) (suc k) zero = inl refl
freed-Advances (e ∷ table) (suc k) (suc id) = freed-Advances table k id

close-Advances :
    (tag handle : ℕ) (table : List Entry) (id : ℕ)
    → Advances table (close_handle table tag handle).1 id
close-Advances tag handle table id = elim (Option-cases (validate_handle table tag handle)) [
  | inl e ↦ inl (ap (λ r. gen_of r.1 id) (close_handle-refused table tag handle e))
  | inr (k, e) ↦
      let closed =
        close_handle-valid table tag handle k ((validate_handle-IsValid table tag handle k).0 e) in
      subst (λ r. Advances table r.1 id) (sym closed) (freed-Advances table k id)
]

-- Without a reset, the calls advance a generation at most once for each close.
run-gen :
    (tag : ℕ) (ops : List TableOp) (table : List Entry) (id : ℕ)
    → gen_of table id < 2 ^ 16
    → resets ops ≡ 0
    → (k : ℕ) × (k ≤ closes ops) × (gen_of (run tag ops table) id ≡ (gen_of table id + k) % 2 ^ 16)
unfolding run step
run-gen tag [] table id h e = (0, omega arith, omega arith)
run-gen tag (alloc ∷ ops) table id h e =
    let same = alloc-gen tag table id in
    let (k, few, later) = run-gen tag ops (alloc_handle tag table).1 id (rw same h) e in
    (k, few, omega (arith, later, same))
run-gen tag (reset ∷ ops) table id h e = absurd (omega (arith, e))
run-gen tag (close handle ∷ ops) table id h e = elim (close-Advances tag handle table id) [
  | inl same ↦
      let (k, few, later) = run-gen tag ops (close_handle table tag handle).1 id (rw same h) e in
      (k, omega (arith, few), omega (arith, later, same))
  | inr next ↦
      let (k, few, later) =
        run-gen tag ops (close_handle table tag handle).1 id (rw next omega arith) e in
      (suc k, omega (arith, few), omega (arith, later, next))
]

-- A valid handle is closed, and then handles are given out and closed in any order, with fewer than `2 ^ 16 - 1`
-- closes and without a reset of the table: the handle is not valid.
pub close_handle-revokes :
    (tag handle id : ℕ) (ops : List TableOp) (table : List Entry)
    → IsValid table tag handle id
    → gen_of table id < 2 ^ 16
    → closes ops < 2 ^ 16 - 1
    → resets ops ≡ 0
    → validate_handle (run tag ops (close_handle table tag handle).1) tag handle ≡ none
close_handle-revokes tag handle id ops table valid small few none_reset =
    let (t, i, below, used, gen) = valid in
    let table' = set table id (freed table id) in
    let closed : (close_handle table tag handle).1 ≡ table' =
      ap (λ r. r.1) (close_handle-valid table tag handle id valid) in
    let next : gen_of table' id ≡ (gen_of table id + 1) % 2 ^ 16 =
      ap (λ (e : Entry). e.gen) (get_or-set_same table id (freed table id) unused below) in
    let (k, fewer, later) = run-gen tag ops table' id (rw next omega arith) none_reset in
    elim (Option-cases (validate_handle (run tag ops table') tag handle)) [
      | inl e ↦ rw closed e
      | inr (id', e) ↦
          let (t', i', below', used', gen') =
            (validate_handle-IsValid (run tag ops table') tag handle id').0 e in
          let same : gen_of (run tag ops table') id ≡ handle_gen handle =
            subst (λ j. gen_of (run tag ops table') j ≡ handle_gen handle) (sym i' ∙ i) gen' in
          absurd (omega (arith, later, next, same, gen, few, fewer, small))
    ]

-- Right after the close.
pub close_handle-refused_next :
    (tag handle id : ℕ) (table : List Entry)
    → IsValid table tag handle id
    → gen_of table id < 2 ^ 16
    → validate_handle (close_handle table tag handle).1 tag handle ≡ none
unfolding run
close_handle-refused_next tag handle id table valid small =
    close_handle-revokes tag handle id [] table valid small (omega arith) refl
