-- ===== src/Abi/Caps/History.antt =====
-- Histories of calls on the capabilities of kernel/abi.zig.
pub mod Revoked
use zigu.Base.{
  ℕ, ◌+◌, ◌*◌, ◌%◌, ◌^◌, ◌<◌, ◌≡◌, ◌⊎◌, ◌==◌, ◌&&◌, ◌||◌, not, Bool, true, false, if◌then◌else◌,
  Option, none, some, Option-cases, Bool-cases, inl, inr, List, [], ◌∷◌, refl, ap, subst, sym, ◌∙◌,
  arith,
}
use zigu.Abi.Codes.{
  ErrorCode, Capability, cap_ipc, cap_trace, cap_log, cap_time, cap_task, cap_mem, cap_io, cap_net,
  kind,
}
use zigu.Abi.Caps.Decode.{same_kind-eq}
use zigu.Abi.Caps.Enter.{cap_enter-cases, kinds-issued}
use zigu.Abi.Caps.{
  Caps, Mask, no_caps, same_kind, cap_kind_from, cap_of_kind, issue, acquire_kind, cap_acquire,
  next_gen, cap_drop, enter_loop, enter_finish, cap_enter, cap_exit, set_cap_policy, reset_caps,
}

-- The calls on the capabilities, with their arguments.
pub data Op : Type 0 where
  acquire : ℕ → Bool → Op
  drop : ℕ → Op
  enter : Bool → List ℕ → Op
  exit : Op
  set_policy : Mask → Op
  reset : Mask → Op

pub step : Op → Caps → Caps
unfolding cap_acquire cap_drop cap_enter cap_exit set_cap_policy reset_caps
step (acquire k handle_out) s = (cap_acquire k handle_out s).1
step (drop cap) s = (cap_drop cap s).1
step (enter null caps) s = (cap_enter null caps s).1
step exit s = (cap_exit s).1
step (set_policy mask) s = set_cap_policy mask s
step (reset mask) s = reset_caps mask s

pub run : List Op → Caps → Caps
unfolding step
run [] s = s
run (op ∷ ops) s = run ops (step op s)

-- The state of the kernel's start.
abbrev pub boot : Caps
boot = record { policy = no_caps; issued = no_caps; active = no_caps; cap_gen = λ c. 0 }

-- Only what is issued is active, only what the policy allows is issued, and generations have 16 bits.
abbrev pub IsWf : Caps → Type 0
IsWf s =
    (c : Capability)
    → (s.active c ≡ true → s.issued c ≡ true)
      × (s.issued c ≡ true → s.policy c ≡ true)
      × (s.cap_gen c < 2 ^ 16)

-- Either nothing changes, or a capability that the policy allows is issued.
abbrev pub Issues : Caps → Caps → Type 0
Issues s s' =
    (s' ≡ s)
    ⊎ ((c : Capability) × (s.policy c ≡ true)
        × (s' ≡ (record s { issued = λ d. same_kind c d || s.issued d })))

issue-Issues : (c : Capability) (s : Caps) → Issues s (issue c s).1
unfolding issue
issue-Issues c s = elim (Bool-cases (s.policy c)) [
  | inl allowed ↦ inr (c, allowed, rw (issue, allowed) refl)
  | inr refused ↦ inl (rw (issue, refused) refl)
]

acquire_kind-Issues : (o : Option Capability) (s : Caps) → Issues s (acquire_kind o s).1
unfolding acquire_kind
acquire_kind-Issues none s = inl refl
acquire_kind-Issues (some cap_ipc) s = inl refl
acquire_kind-Issues (some cap_trace) s = inl refl
acquire_kind-Issues (some cap_log) s = issue-Issues cap_log s
acquire_kind-Issues (some cap_time) s = issue-Issues cap_time s
acquire_kind-Issues (some cap_task) s = issue-Issues cap_task s
acquire_kind-Issues (some cap_mem) s = issue-Issues cap_mem s
acquire_kind-Issues (some cap_io) s = issue-Issues cap_io s
acquire_kind-Issues (some cap_net) s = issue-Issues cap_net s

pub cap_acquire-Issues :
    (k : ℕ) (handle_out : Bool) (s : Caps) → Issues s (cap_acquire k handle_out s).1
unfolding cap_acquire
cap_acquire-Issues k false s = inl refl
cap_acquire-Issues k true s = acquire_kind-Issues (cap_of_kind k) s

right-true : (m a : Bool) → a ≡ true → (m || a) ≡ true
right-true true a h = refl
right-true false a h = h

masked : (m a b : Bool) → (a ≡ true → b ≡ true) → (m && a) ≡ true → (m && b) ≡ true
masked true a b f h = f h
masked false a b f h = h

unmasked : (m a : Bool) → (m && a) ≡ true → a ≡ true
unmasked true a h = h
unmasked false a h = absurd (cc h)

masked_by : (m a b : Bool) → (a ≡ true → b ≡ true) → (a && m) ≡ true → (b && m) ≡ true
masked_by true a b f h = ground arith
masked_by false a b f h = ground arith

mask_kept : (m a : Bool) → (a && m) ≡ true → m ≡ true
mask_kept m true h = h
mask_kept m false h = absurd (cc h)

next_gen-lt :
    (c : Capability) (s : Caps) (d : Capability) → s.cap_gen d < 2 ^ 16 → next_gen c s d < 2 ^ 16
unfolding next_gen
next_gen-lt c s d h = ground arith

Issues-IsWf : (s s' : Caps) → Issues s s' → IsWf s → IsWf s'
Issues-IsWf s s' (inl e) wf = subst IsWf (sym e) wf
Issues-IsWf s s' (inr (c, allowed, e)) wf = subst IsWf (sym e) (λ d.
    let (active, issued, small) = wf d in
    (
      λ h. right-true (same_kind c d) (s.issued d) (active h),
      λ h. elim (Bool-cases (same_kind c d)) [
        | inl same ↦ subst (λ x. s.policy x ≡ true) (same_kind-eq c d same) allowed
        | inr other ↦ issued (rw other at h)
      ],
      small,
    ))

cap_drop-IsWf : (cap : ℕ) (s : Caps) → IsWf s → IsWf (cap_drop cap s).1
unfolding cap_drop
cap_drop-IsWf cap s wf = elim (Option-cases (cap_kind_from cap)) [
  | inl e ↦ rw (cap_drop, e) wf
  | inr (c, e) ↦
      rw (cap_drop, e)
        (λ d.
          let (active, issued, small) = wf d in
          let m = not (same_kind c d) in
          (
            masked m (s.active d) (s.issued d) active,
            λ h. issued (unmasked m (s.issued d) h),
            next_gen-lt c s d small,
          ))
]

cap_enter-IsWf : (null : Bool) (caps : List ℕ) (s : Caps) → IsWf s → IsWf (cap_enter null caps s).1
cap_enter-IsWf null caps s wf = elim (cap_enter-cases null caps s) [
  | inl e ↦ subst IsWf (sym e) wf
  | inr (current, e) ↦
      subst IsWf (sym e)
        (λ c. let (active, issued, small) = wf c in (kinds-issued caps s c current, issued, small))
]

step-IsWf : (op : Op) (s : Caps) → IsWf s → IsWf (step op s)
unfolding step cap_exit set_cap_policy reset_caps
step-IsWf (acquire k handle_out) s wf =
    Issues-IsWf s (cap_acquire k handle_out s).1 (cap_acquire-Issues k handle_out s) wf
step-IsWf (drop cap) s wf = cap_drop-IsWf cap s wf
step-IsWf (enter null caps) s wf = cap_enter-IsWf null caps s wf
step-IsWf exit s wf = λ c. let (active, issued, small) = wf c in (λ h. absurd (cc h), issued, small)
step-IsWf (set_policy mask) s wf = λ c.
    let (active, issued, small) = wf c in
    (masked_by (mask c) (s.active c) (s.issued c) active, mask_kept (mask c) (s.issued c), small)
step-IsWf (reset mask) s wf =
    λ c. let (active, issued, small) = wf c in (λ h. absurd (cc h), λ h. absurd (cc h), small)

-- After every history of calls from a state in which this holds, as it does at the start, only issued
-- capabilities are active, only capabilities that the policy allows are issued, and every generation fits
-- in 16 bits.
pub run-IsWf : (ops : List Op) (s : Caps) → IsWf s → IsWf (run ops s)
unfolding run
run-IsWf [] s wf = wf
run-IsWf (op ∷ ops) s wf = run-IsWf ops (step op s) (step-IsWf op s wf)
