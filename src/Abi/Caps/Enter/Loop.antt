-- ===== src/Abi/Caps/Enter/Loop.antt =====
-- The loop of `cap_enter`: when it accepts all handles, and the set of their capabilities.
use zigu.Base.{
  ℕ, ◌≡◌, ◌↔◌, ◌⊎◌, ◌||◌, true, Option, none, some, Option-cases, Bool-cases, inl, inr, List, [],
  ◌∷◌, All, refl, ap, arith,
}
use zigu.Abi.Codes.{ok, err_invalid, err_permission, Capability}
use zigu.Abi.Caps.Decode.{same_kind-eq, same_kind_refl}
use zigu.Abi.Caps.{Caps, Mask, same_kind, cap_kind_from, cap_gen_from, check_cap, enter_loop}

-- The current generation of a capability that is issued and that the policy allows.
abbrev pub IsAllowed : Caps → Capability → ℕ → Type 0
IsAllowed s c handle =
    (cap_gen_from handle ≡ s.cap_gen c) × (s.issued c ≡ true) × (s.policy c ≡ true)

-- A handle that `cap_enter` accepts.
abbrev pub IsCurrent : Caps → ℕ → Type 0
IsCurrent s handle = (c : Capability) × (cap_kind_from handle ≡ some c) × IsAllowed s c handle

check_cap-IsAllowed :
    (handle : ℕ) (c : Capability) (s : Caps) → check_cap handle c s ≡ true → IsAllowed s c handle
unfolding check_cap
check_cap-IsAllowed handle c s h = (ground arith, ground arith, ground arith)

IsAllowed-check_cap :
    (handle : ℕ) (c : Capability) (s : Caps) → IsAllowed s c handle → check_cap handle c s ≡ true
unfolding check_cap
IsAllowed-check_cap handle c s (gen, issued, policy) = ground (arith, gen, issued, policy)

abbrev pub with_kind : Option Capability → Mask → Mask
with_kind none mask d = mask d
with_kind (some c) mask d = same_kind c d || mask d

-- The set of the capabilities of the handles, with those of `mask`.
abbrev pub kinds : List ℕ → Mask → Mask
kinds [] mask = mask
kinds (handle ∷ caps) mask = kinds caps (with_kind (cap_kind_from handle) mask)

pub enter_loop-kinds :
    (caps : List ℕ) (mask : Mask) (s : Caps)
    → All (IsCurrent s) caps
    → enter_loop caps mask s ≡ (ok, kinds caps mask)
unfolding enter_loop
enter_loop-kinds [] mask s h = refl
enter_loop-kinds (handle ∷ caps) mask s ((c, e, current), h) =
    rw (enter_loop, kinds, e, IsAllowed-check_cap handle c s current)
      (enter_loop-kinds caps (λ d. same_kind c d || mask d) s h)

pub enter_loop-IsCurrent :
    (caps : List ℕ) (mask : Mask) (s : Caps)
    → (enter_loop caps mask s).0 ≡ ok
    → All (IsCurrent s) caps
unfolding enter_loop
enter_loop-IsCurrent [] mask s h = tt
enter_loop-IsCurrent (handle ∷ caps) mask s h = elim (Option-cases (cap_kind_from handle)) [
  | inl e ↦ let refused : err_invalid ≡ ok = rw (enter_loop, e) at h in absurd (cc refused)
  | inr (c, e) ↦ elim (Bool-cases (check_cap handle c s)) [
    | inl current ↦
        let later : (enter_loop caps (λ d. same_kind c d || mask d) s).0 ≡ ok =
          rw (enter_loop, e, current) at h in
        (
          (c, e, check_cap-IsAllowed handle c s current),
          enter_loop-IsCurrent caps (λ d. same_kind c d || mask d) s later,
        )
    | inr stale ↦
        let refused : err_permission ≡ ok = rw (enter_loop, e, stale) at h in absurd (cc refused)
  ]
]

-- `handle` is a handle of the capability `c`.
abbrev pub IsOf : Capability → ℕ → Type 0
IsOf c handle = cap_kind_from handle ≡ some c

-- One of the handles is of the capability.
abbrev pub HasHandle : List ℕ → Capability → Type 0
HasHandle [] c = ⊥
HasHandle (handle ∷ caps) c = IsOf c handle ⊎ HasHandle caps c

pub with_kind-true :
    (o : Option Capability) (mask : Mask) (d : Capability)
    → (with_kind o mask d ≡ true) ↔ ((o ≡ some d) ⊎ (mask d ≡ true))
with_kind-true none mask d = (λ h. inr h, elim [ inl e ↦ absurd (cc e) | inr h ↦ h ])
with_kind-true (some c) mask d = elim (Bool-cases (same_kind c d)) [
  | inl same ↦ (λ h. inl (ap some (same_kind-eq c d same)), λ h. rw same refl)
  | inr other ↦ (
    λ h. inr (rw other at h),
    elim [ inl e ↦ absurd (cc (e, other, same_kind_refl d)) | inr h ↦ rw other h ],
  )
]

pub kinds-HasHandle :
    (caps : List ℕ) (mask : Mask) (d : Capability)
    → (kinds caps mask d ≡ true) ↔ (HasHandle caps d ⊎ (mask d ≡ true))
kinds-HasHandle [] mask d = (λ h. inr h, elim [ inl e ↦ absurd e | inr h ↦ h ])
kinds-HasHandle (handle ∷ caps) mask d =
    let (later, former) = kinds-HasHandle caps (with_kind (cap_kind_from handle) mask) d in
    let (here, there) = with_kind-true (cap_kind_from handle) mask d in
    (
      λ h. elim (later h) [
        | inl e ↦ inl (inr e)
        | inr e ↦ elim (here e) [ inl f ↦ inl (inl f) | inr f ↦ inr f ]
      ],
      elim [
        | inl (inl f) ↦ former (inr (there (inl f)))
        | inl (inr f) ↦ former (inl f)
        | inr f ↦ former (inr (there (inr f)))
      ],
    )
