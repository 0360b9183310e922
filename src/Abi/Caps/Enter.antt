-- ===== src/Abi/Caps/Enter.antt =====
-- When `cap_enter` succeeds, and what is active then.
mod Loop
pub use Loop.*
use zigu.Base.{
  ℕ, ◌≤◌, ◌≡◌, ◌≢◌, ◌↔◌, ◌⊎◌, ◌&&◌, ◌||◌, ltb, true, false, Option, none, some, Option-cases,
  Bool-cases, inl, inr, List, [], ◌∷◌, length, All, refl, ap, ◌∙◌, arith, sym, subst, Bool,
}
use zigu.Abi.Codes.{
  ErrorCode, ok, err_invalid, err_permission, err_noent, err_nomem, err_busy, err_timeout, err_io,
  err_unsupported, err_would_block, err_closed, Capability,
}
use zigu.Abi.Caps.Decode.{same_kind-eq, same_kind_refl}
use zigu.Abi.Caps.{
  Caps, Mask, no_caps, same_kind, cap_kind_from, check_cap, enter_loop, cap_enter, enter_finish,
}

enter_finish-code : (rc : ErrorCode) (mask : Mask) (s : Caps) → (enter_finish rc mask s).0 ≡ rc
unfolding enter_finish
enter_finish-code rc mask s = ground arith

cap_enter-finish :
    (caps : List ℕ) (s : Caps)
    → length caps ≤ 8
    → let (rc, mask) = enter_loop caps no_caps s in cap_enter false caps s ≡ enter_finish rc mask s
unfolding cap_enter
cap_enter-finish caps s h = ground arith

-- Only handles that are all current are entered.
pub cap_enter-IsCurrent :
    (null : Bool) (caps : List ℕ) (s : Caps)
    → (cap_enter null caps s).0 ≡ ok
    → All (IsCurrent s) caps
unfolding cap_enter
cap_enter-IsCurrent null caps s h = elim (Bool-cases (ltb 8 (length caps))) [
  | inl many ↦ let refused : err_invalid ≡ ok = rw (cap_enter, many) at h in absurd (cc refused)
  | inr few ↦ elim (Bool-cases (ltb 0 (length caps) && null)) [
    | inl missing ↦
        let refused : err_invalid ≡ ok = rw (cap_enter, few, missing) at h in absurd (cc refused)
    | inr there ↦
        let (rc, mask) = enter_loop caps no_caps s in
        let finished : (enter_finish rc mask s).0 ≡ ok = rw (cap_enter, few, there) at h in
        enter_loop-IsCurrent caps no_caps s (sym (enter_finish-code rc mask s) ∙ finished)
  ]
]

-- `cap_enter` succeeds on handles that are all current, and exactly their capabilities are active then; or
-- it is refused, since one is not, and changes nothing.
abbrev pub Enters : List ℕ → Caps → ErrorCode × Caps → Type 0
Enters caps s (rc, s') =
    ((rc ≡ ok)
      × All (IsCurrent s) caps
      × ((c : Capability) → (s'.active c ≡ true) ↔ HasHandle caps c))
    ⊎ ((rc ≢ ok) × ¬ (All (IsCurrent s) caps) × (s' ≡ s))

enter_finish-cases :
    (rc : ErrorCode) (mask : Mask) (s : Caps)
    → (rc ≡ ok) ⊎ ((rc ≢ ok) × ((enter_finish rc mask s).1 ≡ s))
unfolding enter_finish
enter_finish-cases ok mask s = inl refl
enter_finish-cases err_invalid mask s = inr (λ e. absurd (cc e), refl)
enter_finish-cases err_noent mask s = inr (λ e. absurd (cc e), refl)
enter_finish-cases err_nomem mask s = inr (λ e. absurd (cc e), refl)
enter_finish-cases err_busy mask s = inr (λ e. absurd (cc e), refl)
enter_finish-cases err_timeout mask s = inr (λ e. absurd (cc e), refl)
enter_finish-cases err_io mask s = inr (λ e. absurd (cc e), refl)
enter_finish-cases err_unsupported mask s = inr (λ e. absurd (cc e), refl)
enter_finish-cases err_permission mask s = inr (λ e. absurd (cc e), refl)
enter_finish-cases err_would_block mask s = inr (λ e. absurd (cc e), refl)
enter_finish-cases err_closed mask s = inr (λ e. absurd (cc e), refl)

-- Either `cap_enter` changes nothing, or it makes active the capabilities of handles that are all current.
pub cap_enter-cases :
    (null : Bool) (caps : List ℕ) (s : Caps)
    → let s' = (cap_enter null caps s).1 in
      (s' ≡ s) ⊎ (All (IsCurrent s) caps × (s' ≡ (record s { active = kinds caps no_caps })))
unfolding cap_enter
cap_enter-cases null caps s = elim (Bool-cases (ltb 8 (length caps))) [
  | inl many ↦ inl (rw (cap_enter, many) refl)
  | inr few ↦ elim (Bool-cases (ltb 0 (length caps) && null)) [
    | inl missing ↦ inl (rw (cap_enter, few, missing) refl)
    | inr there ↦
        let (rc, mask) = enter_loop caps no_caps s in
        let finish : (cap_enter null caps s).1 ≡ (enter_finish rc mask s).1 =
          rw (cap_enter, few, there) refl in
        elim (enter_finish-cases rc mask s) [
          | inl e ↦
              let current = enter_loop-IsCurrent caps no_caps s e in
              inr (
                current,
                finish
                    ∙ ap (λ (r : ErrorCode × Mask). (enter_finish r.0 r.1 s).1)
                        (enter_loop-kinds caps no_caps s current),
              )
          | inr (refused, e) ↦ inl (finish ∙ e)
        ]
  ]
]

HasHandle-issued :
    (caps : List ℕ) (s : Caps) (c : Capability)
    → All (IsCurrent s) caps
    → HasHandle caps c
    → s.issued c ≡ true
HasHandle-issued [] s c h f = absurd f
HasHandle-issued (handle ∷ caps) s c ((d, e, (gen, issued, policy)), h) (inl f) =
    subst (λ x. s.issued x ≡ true) (cc (e, f)) issued
HasHandle-issued (handle ∷ caps) s c (first, h) (inr f) = HasHandle-issued caps s c h f

-- What handles that are all current make active is issued.
pub kinds-issued :
    (caps : List ℕ) (s : Caps) (c : Capability)
    → All (IsCurrent s) caps
    → kinds caps no_caps c ≡ true
    → s.issued c ≡ true
kinds-issued caps s c current h = elim ((kinds-HasHandle caps no_caps c).0 h) [
  | inl f ↦ HasHandle-issued caps s c current f
  | inr e ↦ absurd (cc e)
]

-- Where the pointer is not null and there are at most eight handles, either `cap_enter` succeeds, each handle
-- is of the current generation of a capability that is issued and that the policy allows, and exactly the
-- capabilities of the handles are active then; or one handle is not, and nothing changes.
pub cap_enter-Enters :
    (caps : List ℕ) (s : Caps) → length caps ≤ 8 → Enters caps s (cap_enter false caps s)
unfolding enter_finish
cap_enter-Enters caps s h =
    let (rc, mask) = enter_loop caps no_caps s in
    let opened = cap_enter-finish caps s h in
    let coded = ap (λ r. r.0) opened ∙ enter_finish-code rc mask s in
    elim (enter_finish-cases rc mask s) [
      | inl e ↦
          let current = enter_loop-IsCurrent caps no_caps s e in
          let result =
            opened
            ∙ ap (λ (r : ErrorCode × Mask). enter_finish r.0 r.1 s)
                (enter_loop-kinds caps no_caps s current) in
          inl (
            coded ∙ e,
            current,
            λ c.
                let active : (cap_enter false caps s).1.active c ≡ kinds caps no_caps c =
                  ap (λ r. r.1.active c) result in
                let (there, back) = kinds-HasHandle caps no_caps c in
                (
                  λ on. elim (there (sym active ∙ on)) [ inl f ↦ f | inr e' ↦ absurd (cc e') ],
                  λ f. active ∙ back (inl f),
                ),
          )
      | inr (refused, e) ↦ inr (
        λ accepted. refused (sym coded ∙ accepted),
        λ current. refused (ap (λ r. r.0) (enter_loop-kinds caps no_caps s current)),
        ap (λ r. r.1) opened ∙ e,
      )
    ]
