-- ===== src/Abi/Handles.antt =====
-- The handle tables of kernel/abi.zig: `makeHandle` to `closeHandle`.
pub mod Table
pub mod Revoked
mod Tests
use zigu.Base.{
  ℕ, zero, suc, ◌+◌, ◌*◌, ◌/◌, ◌%◌, ◌^◌, ◌==◌, ◌&&◌, ltb, leb, not, Bool, true, false,
  if◌then◌else◌, Option, none, some, List, [], ◌∷◌, length, get_or, set, replicate,
}
use zigu.Abi.Codes.{ErrorCode, ok, err_invalid, err_busy}

-- `HandleEntry`
pub record Entry : Type 0 where
  pub in_use : Bool
  pub gen : ℕ

abbrev pub unused : Entry
unused = record { in_use = false; gen = 1 }

abbrev pub make_handle : ℕ → ℕ → ℕ → ℕ
make_handle tag id gen = tag * 2 ^ 56 + id % 2 ^ 24 * 2 ^ 32 + gen

abbrev pub handle_tag : ℕ → ℕ
handle_tag handle = handle / 2 ^ 56

abbrev pub handle_id : ℕ → ℕ
handle_id handle = handle / 2 ^ 32 % 2 ^ 24

abbrev pub handle_gen : ℕ → ℕ
handle_gen handle = handle % 2 ^ 16

-- The result of the loop on the entries after `e`, which is in use.
abbrev pub pass : Entry → Option (ℕ × List Entry) → Option (ℕ × List Entry)
pass e none = none
pass e (some (handle, table)) = some (handle, e ∷ table)

-- The loop of `allocHandle`, from entry `i` on: the first free entry is taken.
pub alloc_loop : ℕ → ℕ → List Entry → Option (ℕ × List Entry)
alloc_loop tag i [] = none
alloc_loop tag i (e ∷ table) =
    let rest = alloc_loop tag (i + 1) table in
    if e.in_use
    then pass e rest
    else some (make_handle tag i e.gen, record e { in_use = true } ∷ table)

-- The code, the handle where there is one, and the table: what `allocHandle` makes of its loop.
abbrev pub alloc_result : List Entry → Option (ℕ × List Entry) → (ErrorCode × Option ℕ) × List Entry
alloc_result table none = ((err_busy, none), table)
alloc_result table (some (handle, table')) = ((ok, some handle), table')

pub alloc_handle : ℕ → List Entry → (ErrorCode × Option ℕ) × List Entry
unfolding alloc_loop
alloc_handle tag table = alloc_result table (alloc_loop tag 0 table)

unfoldable pub validate_handle : List Entry → ℕ → ℕ → Option ℕ
validate_handle table tag handle =
    let id = handle_id handle in
    let entry = get_or table id unused in
    if not (handle_tag handle == tag)
    then none
    else if leb (length table) id
    then none
    else if not entry.in_use
    then none
    else if not (entry.gen == handle_gen handle)
    then none
    else some id

pub close_handle : List Entry → ℕ → ℕ → ErrorCode × List Entry
unfolding validate_handle
close_handle table tag handle = elim (validate_handle table tag handle) [
  | none ↦ (err_invalid, table)
  | some id ↦
      let entry = get_or table id unused in
      (ok, set table id (record { in_use = false; gen = (entry.gen + 1) % 2 ^ 16 }))
]

-- All entries as they are at first, with generation 1.
unfoldable pub reset_table : List Entry → List Entry
reset_table table = replicate (length table) unused
