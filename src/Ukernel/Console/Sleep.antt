-- ===== src/Ukernel/Console/Sleep.antt =====
-- When `sleep_ms` comes back.
use zigu.Base.{ℕ, zero, suc, ◌+◌, ◌-◌, ◌%◌, ◌^◌, ◌≤◌, ◌<◌, ◌≡◌, refl, arith, some, done}
use zigu.Base.Int.{pos}
use zigu.Ukernel.Runtime.{Kernel, Python, returned, none_value}
use zigu.Ukernel.Console.{sleep_loop, mod_ukernel_sleep_ms}

module _ {S : Type 0} (kernel : Kernel S) where
  -- The state after `n` more reads of the clock.
  abbrev pub after : ℕ → S → S
  after zero s = s
  after (suc n) s = after n (kernel.kernel_ticks_ms s).1

  -- The time since `start` at read `n`, as the code counts it.
  abbrev pub elapsed : ℕ → S → ℕ → ℕ
  elapsed start s n = ((kernel.kernel_ticks_ms (after n s)).0 + 2 ^ 64 - start) % 2 ^ 64

  sleep_loop-after :
      (n fuel start ms : ℕ) (s : S)
      → n < fuel
      → ms ≤ elapsed start s n
      → ((j : ℕ) → j < n → elapsed start s j < ms)
      → sleep_loop fuel kernel start ms s ≡ done (after (suc n) s)
  unfolding sleep_loop
  sleep_loop-after n zero start ms s h e l = absurd (omega arith)
  sleep_loop-after zero (suc fuel) start ms s h e l = ground arith
  sleep_loop-after (suc n) (suc fuel) start ms s h e l =
      let first = l 0 (omega arith) in
      let ih =
        sleep_loop-after n fuel start ms (kernel.kernel_ticks_ms s).1 (omega arith) e
          (λ j small. l (suc j) (omega arith)) in
      ground (arith, first, ih)

  -- For a number of at least 1, `sleep_ms(ms)` reads the clock once for the start, then until a read shows at
  -- least `ms` milliseconds since the start, if one does, and returns None right after that read: neither
  -- sooner nor later. The fuel has to exceed the number of reads that show less.
  pub mod_ukernel_sleep_ms-after :
      {Obj : Type 0} (python : Python Obj) (ms_obj : Obj) (ms n fuel : ℕ) (s : S)
      → python.get_int ms_obj ≡ some (pos (suc ms))
      → n < fuel
      → suc ms ≤ elapsed (kernel.kernel_ticks_ms s).0 (kernel.kernel_ticks_ms s).1 n
      → ((j : ℕ)
          → j < n
          → elapsed (kernel.kernel_ticks_ms s).0 (kernel.kernel_ticks_ms s).1 j < suc ms)
      → mod_ukernel_sleep_ms fuel python kernel ms_obj s
        ≡ done (returned none_value, after (suc (suc n)) s)
  unfolding mod_ukernel_sleep_ms
  mod_ukernel_sleep_ms-after python ms_obj ms n fuel s e h last l =
      let (start, t) = kernel.kernel_ticks_ms s in
      rw (mod_ukernel_sleep_ms, e, sleep_loop-after n fuel start (suc ms) t h last l) refl
