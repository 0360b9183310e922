-- ===== src/Abi/Caps/History/Revoked.antt =====
-- A handle of a capability that was dropped, over the calls that follow.
use zigu.Base.{
  ℕ, ◌+◌, ◌-◌, ◌%◌, ◌^◌, ◌<◌, ◌≡◌, ◌≢◌, ◌⊎◌, Bool, if◌then◌else◌, Option, none, some, Option-cases,
  Bool-cases, inl, inr, List, [], ◌∷◌, All, refl, ap, arith,
}
use zigu.Abi.Codes.{ok, Capability}
use zigu.Abi.Caps.{
  Caps, same_kind, cap_kind_from, cap_gen_from, next_gen, cap_drop, cap_enter, cap_acquire,
  cap_exit, set_cap_policy, reset_caps,
}
use zigu.Abi.Caps.Decode.{same_kind_refl}
use zigu.Abi.Caps.Enter.{IsCurrent, cap_enter-IsCurrent, cap_enter-cases}
use zigu.Abi.Caps.History.{
  Op, acquire, drop, enter, exit, set_policy, reset, step, run, cap_acquire-Issues,
}

-- One drop, if the handle is of the capability `c`.
abbrev pub dropped : Option Capability → Capability → ℕ
dropped none c = 0
dropped (some d) c = if same_kind d c then 1 else 0

-- How often the calls drop the capability `c`.
abbrev pub drops : List Op → Capability → ℕ
drops [] c = 0
drops (drop cap ∷ ops) c = dropped (cap_kind_from cap) c + drops ops c
drops (acquire k handle_out ∷ ops) c = drops ops c
drops (enter null caps ∷ ops) c = drops ops c
drops (exit ∷ ops) c = drops ops c
drops (set_policy mask ∷ ops) c = drops ops c
drops (reset mask ∷ ops) c = drops ops c

cap_drop-gen :
    (cap : ℕ) (s : Caps) (c : Capability)
    → s.cap_gen c < 2 ^ 16
    → (cap_drop cap s).1.cap_gen c ≡ (s.cap_gen c + dropped (cap_kind_from cap) c) % 2 ^ 16
unfolding cap_drop next_gen
cap_drop-gen cap s c h = elim (Option-cases (cap_kind_from cap)) [
  | inl e ↦ rw (cap_drop, e) omega arith
  | inr (d, e) ↦ elim (Bool-cases (same_kind d c)) [
    | inl same ↦ rw (cap_drop, e, next_gen, same) refl
    | inr other ↦ rw (cap_drop, e, next_gen, other) omega arith
  ]
]

cap_acquire-gen :
    (k : ℕ) (handle_out : Bool) (s : Caps) (c : Capability)
    → (cap_acquire k handle_out s).1.cap_gen c ≡ s.cap_gen c
cap_acquire-gen k handle_out s c = elim (cap_acquire-Issues k handle_out s) [
  | inl e ↦ ap (λ s'. s'.cap_gen c) e
  | inr (d, allowed, e) ↦ ap (λ s'. s'.cap_gen c) e
]

cap_enter-gen :
    (null : Bool) (caps : List ℕ) (s : Caps) (c : Capability)
    → (cap_enter null caps s).1.cap_gen c ≡ s.cap_gen c
cap_enter-gen null caps s c = elim (cap_enter-cases null caps s) [
  | inl e ↦ ap (λ s'. s'.cap_gen c) e
  | inr (current, e) ↦ ap (λ s'. s'.cap_gen c) e
]

-- The calls count the drops of a capability in its generation, modulo `2 ^ 16`.
run-gen :
    (ops : List Op) (s : Caps) (c : Capability)
    → s.cap_gen c < 2 ^ 16
    → (run ops s).cap_gen c ≡ (s.cap_gen c + drops ops c) % 2 ^ 16
unfolding run step cap_exit set_cap_policy reset_caps
run-gen [] s c h = omega arith
run-gen (drop cap ∷ ops) s c h =
    let s' = (cap_drop cap s).1 in
    let e = cap_drop-gen cap s c h in
    let later = run-gen ops s' c (rw e omega arith) in omega (arith, later, e)
run-gen (acquire k handle_out ∷ ops) s c h =
    let same = cap_acquire-gen k handle_out s c in
    let later = run-gen ops (cap_acquire k handle_out s).1 c (rw same h) in
    omega (arith, later, same)
run-gen (enter null caps ∷ ops) s c h =
    let same = cap_enter-gen null caps s c in
    let later = run-gen ops (cap_enter null caps s).1 c (rw same h) in omega (arith, later, same)
run-gen (exit ∷ ops) s c h = run-gen ops (cap_exit s).1 c h
run-gen (set_policy mask ∷ ops) s c h = run-gen ops (set_cap_policy mask s) c h
run-gen (reset mask ∷ ops) s c h = run-gen ops (reset_caps mask s) c h

-- One of the handles is `handle`.
abbrev pub Has : List ℕ → ℕ → Type 0
Has [] handle = ⊥
Has (cap ∷ caps) handle = (cap ≡ handle) ⊎ Has caps handle

current-gen :
    (caps : List ℕ) (s : Caps) (handle : ℕ) (c : Capability)
    → cap_kind_from handle ≡ some c
    → All (IsCurrent s) caps
    → Has caps handle
    → cap_gen_from handle ≡ s.cap_gen c
current-gen [] s handle c e current h = absurd h
current-gen (cap ∷ caps) s handle c e ((d, f, (gen, issued, policy)), current) (inl same) =
    let kinds_eq : c ≡ d = cc (e, f, same) in cc (gen, same, kinds_eq)
current-gen (cap ∷ caps) s handle c e (first, current) (inr h) =
    current-gen caps s handle c e current h

-- A capability's handle of the current generation is dropped, and then come any calls, of which fewer than
-- `2 ^ 16 - 1` drop that capability again: handles among which the dropped one is are never entered.
pub cap_drop-revokes :
    (s : Caps) (handle : ℕ) (c : Capability) (ops : List Op) (null : Bool) (caps : List ℕ)
    → s.cap_gen c < 2 ^ 16
    → cap_kind_from handle ≡ some c
    → cap_gen_from handle ≡ s.cap_gen c
    → drops ops c < 2 ^ 16 - 1
    → Has caps handle
    → (cap_enter null caps (run ops (cap_drop handle s).1)).0 ≢ ok
cap_drop-revokes s handle c ops null caps small e gen few h entered =
    let s' = (cap_drop handle s).1 in
    let one : dropped (cap_kind_from handle) c ≡ 1 = rw (e, same_kind_refl c) refl in
    let next : s'.cap_gen c ≡ (s.cap_gen c + 1) % 2 ^ 16 =
      rw one at (cap_drop-gen handle s c small) in
    let last = run-gen ops s' c (rw next omega arith) in
    let current = cap_enter-IsCurrent null caps (run ops s') entered in
    let same = current-gen caps (run ops s') handle c e current h in
    omega (arith, next, last, same, gen, few, small)
