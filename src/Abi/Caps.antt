-- ===== src/Abi/Caps.antt =====
-- The capabilities of kernel/abi.zig: `makeCap` to `capGenFrom`, `cap_acquire`, `cap_drop`, `cap_enter`,
-- `cap_exit`, and the policy. A mask of capabilities is the set of those whose bit is set; no other
-- bit of it is ever tested.
pub mod Decode
pub mod History
pub mod Enter
mod Tests
use zigu.Base.{
  ℕ, ◌+◌, ◌*◌, ◌/◌, ◌%◌, ◌^◌, ◌==◌, ◌&&◌, ◌||◌, ltb, not, Bool, true, false, if◌then◌else◌, Option,
  none, some, List, [], ◌∷◌, length,
}
use zigu.Abi.Codes.{
  ErrorCode, ok, err_invalid, err_unsupported, err_permission, Capability, cap_log, cap_time,
  cap_task, cap_mem, cap_io, cap_ipc, cap_net, cap_trace, kind, handle_cap, tag,
}

abbrev pub Mask : Type 0
Mask = Capability → Bool

abbrev pub same_kind : Capability → Capability → Bool
same_kind c d = kind c == kind d

abbrev pub no_caps : Mask
no_caps c = false

-- `policy_mask`, `issued_mask`, `active_mask`, `cap_gen`
pub record Caps : Type 0 where
  pub policy : Mask
  pub issued : Mask
  pub active : Mask
  pub cap_gen : Capability → ℕ

-- `@enumFromInt`: the capability of a number.
pub cap_of_kind : ℕ → Option Capability
cap_of_kind k =
    if k == 1
    then some cap_log
    else if k == 2
    then some cap_time
    else if k == 3
    then some cap_task
    else if k == 4
    then some cap_mem
    else if k == 5
    then some cap_io
    else if k == 6
    then some cap_ipc
    else if k == 7
    then some cap_net
    else if k == 8
    then some cap_trace
    else none

pub make_cap : Capability → Caps → ℕ
make_cap c s = tag handle_cap * 2 ^ 56 + kind c * 2 ^ 48 + s.cap_gen c

pub cap_kind_from : ℕ → Option Capability
unfolding cap_of_kind
cap_kind_from handle =
    if handle / 2 ^ 56 == tag handle_cap then cap_of_kind (handle / 2 ^ 48 % 256) else none

abbrev pub cap_gen_from : ℕ → ℕ
cap_gen_from handle = handle % 2 ^ 16

abbrev pub allow : Capability → Caps → Bool
allow c s = s.active c

-- The branch for a kind that can be issued.
pub issue : Capability → Caps → (ErrorCode × Option ℕ) × Caps
unfolding make_cap
issue c s =
    if s.policy c
    then ((ok, some (make_cap c s)), record s { issued = λ d. same_kind c d || s.issued d })
    else ((err_permission, none), s)

-- The `switch` on the kind.
pub acquire_kind : Option Capability → Caps → (ErrorCode × Option ℕ) × Caps
unfolding issue
acquire_kind none s = ((err_invalid, none), s)
acquire_kind (some cap_ipc) s = ((err_unsupported, none), s)
acquire_kind (some cap_trace) s = ((err_unsupported, none), s)
acquire_kind (some c) s = issue c s

-- The result, `*handle_out` where it is written, and the new state; `handle_out` tells whether the
-- pointer is not null.
pub cap_acquire : ℕ → Bool → Caps → (ErrorCode × Option ℕ) × Caps
unfolding acquire_kind cap_of_kind
cap_acquire k handle_out s =
    if not handle_out then ((err_invalid, none), s) else acquire_kind (cap_of_kind k) s

-- `cap_gen[idx] +%= 1`
pub next_gen : Capability → Caps → Capability → ℕ
next_gen c s d = if same_kind c d then (s.cap_gen d + 1) % 2 ^ 16 else s.cap_gen d

pub cap_drop : ℕ → Caps → ErrorCode × Caps
unfolding cap_kind_from next_gen
cap_drop cap s = elim (cap_kind_from cap) [
  | none ↦ (err_invalid, s)
  | some c ↦ (
    ok,
    record s {
      cap_gen = next_gen c s;
      issued = λ d. not (same_kind c d) && s.issued d;
      active = λ d. not (same_kind c d) && s.active d;
    },
  )
]

-- The tests of one handle in `cap_enter`.
pub check_cap : ℕ → Capability → Caps → Bool
check_cap handle c s = cap_gen_from handle == s.cap_gen c && (s.issued c && s.policy c)

-- The loop: the mask of the handles, or the code of the first one that is refused.
pub enter_loop : List ℕ → Mask → Caps → ErrorCode × Mask
unfolding cap_kind_from check_cap
enter_loop [] mask s = (ok, mask)
enter_loop (handle ∷ caps) mask s =
    let rest = λ (c : Capability). enter_loop caps (λ d. same_kind c d || mask d) s in
    elim (cap_kind_from handle) [
      | none ↦ (err_invalid, mask)
      | some c ↦ if check_cap handle c s then rest c else (err_permission, mask)
    ]

-- The mask replaces the active one, or the code is passed on.
pub enter_finish : ErrorCode → Mask → Caps → ErrorCode × Caps
enter_finish ok mask s = (ok, record s { active = mask })
enter_finish rc mask s = (rc, s)

-- `caps` are the `cap_count` handles; `null` tells whether the pointer to them is null.
pub cap_enter : Bool → List ℕ → Caps → ErrorCode × Caps
unfolding enter_loop enter_finish
cap_enter null caps s =
    let (rc, mask) = enter_loop caps no_caps s in
    if ltb 8 (length caps)
    then (err_invalid, s)
    else if ltb 0 (length caps) && null
    then (err_invalid, s)
    else enter_finish rc mask s

pub cap_exit : Caps → ErrorCode × Caps
cap_exit s = (ok, record s { active = no_caps })

pub set_cap_policy : Mask → Caps → Caps
set_cap_policy mask s = record s {
  policy = mask;
  issued = λ c. s.issued c && mask c;
  active = λ c. s.active c && mask c;
}

-- The part of `resetCapsForWorkload` on the masks; `cap_gen` stays.
unfoldable pub reset_caps : Mask → Caps → Caps
reset_caps mask s = record s { policy = mask; issued = no_caps; active = no_caps }
