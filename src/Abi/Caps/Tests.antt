-- ===== src/Abi/Caps/Tests.antt =====
-- Runs of the capabilities' calls, and the theorems on them at concrete histories.
use zigu.Base.{ℕ, ◌+◌, ◌*◌, ◌^◌, ◌≡◌, ◌≢◌, true, false, some, none, List, [], ◌∷◌, inl, refl, arith}
use zigu.Abi.Codes.{ok, err_invalid, err_unsupported, err_permission, cap_net}
use zigu.Abi.Caps.{Caps, Mask, no_caps, same_kind, cap_acquire, cap_drop, cap_enter, cap_kind_from}
use zigu.Abi.Caps.Enter.{Enters, cap_enter-Enters}
use zigu.Abi.Caps.History.{Op, acquire, drop, enter, exit, set_policy, run, boot, IsWf, run-IsWf}
use zigu.Abi.Caps.History.Revoked.{cap_drop-revokes}

abbrev net_only : Mask
net_only = same_kind cap_net

-- The handle of the network capability in its generation `gen`.
abbrev net_handle : ℕ → ℕ
net_handle gen = 5 * 2 ^ 56 + 7 * 2 ^ 48 + gen

-- The network is allowed and issued, in generation 3.
abbrev issued_net : Caps
issued_net = record { policy = net_only; issued = net_only; active = no_caps; cap_gen = λ c. 3 }

acquire_allowed : (cap_acquire 7 true issued_net).0 ≡ (ok, some (net_handle 3))
unfolding cap_acquire
acquire_allowed = refl

acquire_refused : (cap_acquire 4 true issued_net).0 ≡ (err_permission, none)
unfolding cap_acquire
acquire_refused = refl

acquire_unsupported : (cap_acquire 6 true issued_net).0 ≡ (err_unsupported, none)
unfolding cap_acquire
acquire_unsupported = refl

enter_current : (cap_enter false (net_handle 3 ∷ []) issued_net).0 ≡ ok
unfolding cap_enter
enter_current = refl

enter_stale : (cap_enter false (net_handle 2 ∷ []) issued_net).0 ≡ err_permission
unfolding cap_enter
enter_stale = refl

enter_null : (cap_enter true (net_handle 3 ∷ []) issued_net).0 ≡ err_invalid
unfolding cap_enter
enter_null = refl

cap_enter-Enters_example :
    Enters
      (net_handle 3 ∷ net_handle 3 ∷ [])
      issued_net
      (cap_enter false (net_handle 3 ∷ net_handle 3 ∷ []) issued_net)
cap_enter-Enters_example =
    cap_enter-Enters (net_handle 3 ∷ net_handle 3 ∷ []) issued_net (omega arith)

abbrev session : List Op
session =
    set_policy net_only
    ∷ acquire 7 true
    ∷ enter false (net_handle 0 ∷ [])
    ∷ exit
    ∷ drop (net_handle 0)
    ∷ acquire 7 true
    ∷ []

run-IsWf_example : IsWf (run session boot)
run-IsWf_example = run-IsWf session boot (λ c. (λ h. h, λ h. h, omega arith))

cap_drop-revokes_example :
    (cap_enter false (net_handle 3 ∷ []) (run session (cap_drop (net_handle 3) issued_net).1)).0
    ≢ ok
unfolding cap_kind_from
cap_drop-revokes_example =
    cap_drop-revokes issued_net (net_handle 3) cap_net session false (net_handle 3 ∷ [])
      (omega arith) refl refl (omega arith) (inl refl)
