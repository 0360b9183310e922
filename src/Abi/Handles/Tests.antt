-- ===== src/Abi/Handles/Tests.antt =====
-- Runs of the calls on a table of two entries.
use zigu.Base.{
  ℕ, zero, suc, ◌^◌, ◌<◌, ◌≡◌, true, false, some, none, List, [], ◌∷◌, get_or, refl, arith,
}
use zigu.Abi.Codes.{ok, err_busy}
use zigu.Abi.Handles.{
  Entry, unused, make_handle, alloc_handle, validate_handle, close_handle, reset_table,
}
use zigu.Abi.Handles.Table.{GivesOut, alloc_handle-GivesOut}
use zigu.Abi.Handles.Revoked.{alloc, close, run, close_handle-revokes}

abbrev table : List Entry
table = record { in_use = true; gen = 65535 } ∷ record { in_use = false; gen = 4 } ∷ []

small : (id : ℕ) → (get_or table id unused).gen < 2 ^ 16
small zero = omega arith
small (suc zero) = omega arith
small (suc (suc id)) = omega arith

alloc_second : (alloc_handle 4 table).0 ≡ (ok, some (make_handle 4 1 4))
unfolding alloc_handle
alloc_second = refl

alloc_full : (alloc_handle 4 (alloc_handle 4 table).1).0 ≡ (err_busy, none)
unfolding alloc_handle
alloc_full = refl

close_wraps :
    close_handle table 4 (make_handle 4 0 65535)
    ≡ (ok, record { in_use = false; gen = 0 } ∷ record { in_use = false; gen = 4 } ∷ [])
unfolding close_handle
close_wraps = refl

alloc_handle-GivesOut_example : GivesOut 4 table (alloc_handle 4 table)
alloc_handle-GivesOut_example = alloc_handle-GivesOut 4 table (omega arith, small)

close_handle-revokes_example :
    validate_handle
      (run 4
        (alloc ∷ close (make_handle 4 0 0) ∷ alloc ∷ [])
        (close_handle table 4 (make_handle 4 0 65535)).1)
      4
      (make_handle 4 0 65535)
    ≡ none
close_handle-revokes_example =
    close_handle-revokes 4 (make_handle 4 0 65535) 0
      (alloc ∷ close (make_handle 4 0 0) ∷ alloc ∷ []) table (refl, refl, omega arith, refl, refl)
      (omega arith) (omega arith) refl

-- A reset sets the generations back: the first handle is closed, refused, and valid again.
reset_revives :
    let opened = alloc_handle 2 (unused ∷ []) in
    let table' = (close_handle opened.1 2 (make_handle 2 0 1)).1 in
    (opened.0 ≡ (ok, some (make_handle 2 0 1)))
    × (validate_handle table' 2 (make_handle 2 0 1) ≡ none)
    × (validate_handle (alloc_handle 2 (reset_table table')).1 2 (make_handle 2 0 1) ≡ some 0)
unfolding alloc_handle close_handle reset_table
reset_revives = (refl, refl, refl)
