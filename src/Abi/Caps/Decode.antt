-- ===== src/Abi/Caps/Decode.antt =====
-- A capability's handle has its kind and its generation in it.
use zigu.Base.{◌+◌, ◌*◌, ◌/◌, ◌%◌, ◌^◌, ◌<◌, ◌≡◌, some, refl, arith, true, ==_refl, ==→eq, ap}
use zigu.Abi.Codes.{
  Capability, cap_log, cap_time, cap_task, cap_mem, cap_io, cap_ipc, cap_net, cap_trace, kind,
}
use zigu.Abi.Caps.{Caps, same_kind, make_cap, cap_of_kind, cap_kind_from, cap_gen_from}

pub cap_of_kind-kind : (c : Capability) → cap_of_kind (kind c) ≡ some c
unfolding cap_of_kind
cap_of_kind-kind cap_log = refl
cap_of_kind-kind cap_time = refl
cap_of_kind-kind cap_task = refl
cap_of_kind-kind cap_mem = refl
cap_of_kind-kind cap_io = refl
cap_of_kind-kind cap_ipc = refl
cap_of_kind-kind cap_net = refl
cap_of_kind-kind cap_trace = refl

pub kind-lt : (c : Capability) → kind c < 9
kind-lt c = ground arith

pub same_kind-eq : (c d : Capability) → same_kind c d ≡ true → c ≡ d
same_kind-eq c d same =
    cc (cap_of_kind-kind c, cap_of_kind-kind d, ap cap_of_kind (==→eq (kind c) (kind d) same))

pub same_kind_refl : (c : Capability) → same_kind c c ≡ true
same_kind_refl c = ==_refl (kind c)

-- The handle that is made for a capability is taken apart into that capability and its generation.
pub cap_kind_from-make_cap :
    (c : Capability) (s : Caps)
    → s.cap_gen c < 2 ^ 16
    → (cap_kind_from (make_cap c s) ≡ some c) × (cap_gen_from (make_cap c s) ≡ s.cap_gen c)
unfolding cap_kind_from make_cap
cap_kind_from-make_cap c s h =
    let small = kind-lt c in
    let top : (5 * 2 ^ 56 + kind c * 2 ^ 48 + s.cap_gen c) / 2 ^ 56 ≡ 5 = omega arith in
    let middle : (5 * 2 ^ 56 + kind c * 2 ^ 48 + s.cap_gen c) / 2 ^ 48 % 256 ≡ kind c =
      omega arith in
    (rw (top, middle) (cap_of_kind-kind c), omega arith)
