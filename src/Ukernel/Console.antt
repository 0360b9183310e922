-- ===== src/Ukernel/Console.antt =====
-- `ukernel.log`, `ukernel.time_ms` and `ukernel.sleep_ms` of kernel/mp_port/modukernel.c.
pub mod Sleep
use zigu.Base.{
  ℕ, zero, suc, ◌+◌, ◌-◌, ◌%◌, ◌^◌, ◌≤◌, ◌<◌, ◌≡◌, refl, arith, ap, ltb, if◌then◌else◌, Option,
  none, some, List, [], ◌∷◌, Run, done, out_of_fuel,
}
use zigu.Base.Int.{ℤ, pos, negsuc}
use zigu.Memory.{Memory, bytes_at}
use zigu.Ukernel.Runtime.{
  Received, Kernel, Python, Value, none_value, int_value, bytes_value, Reply, returned,
  raised_os_error, raised_value_error, raised_conversion, unsigned, signed_int, reply_of,
}

-- The message and a line feed go to the serial port; the level is converted and not used.
pub mod_ukernel_log :
    {Obj S : Type 0} → Python Obj → Kernel S → Obj → Option Obj → Memory → S → Reply × S
mod_ukernel_log {Obj} {S} python kernel msg_obj level_obj m s =
    let write : ℕ → ℕ → Reply × S = λ msg len. (
      returned none_value,
      kernel.serial_write_bytes (10 ∷ []) (kernel.serial_write_bytes (bytes_at msg len m) s),
    ) in
    elim (python.get_data msg_obj) [
      | none ↦ (raised_conversion, s)
      | some (msg, len) ↦ elim level_obj [
        | none ↦ write msg len
        | some obj ↦ elim (python.get_int obj) [
          | none ↦ (raised_conversion, s)
          | some level ↦ write msg len
        ]
      ]
    ]

pub mod_ukernel_time_ms : {S : Type 0} → Kernel S → S → Reply × S
mod_ukernel_time_ms kernel s =
    let (ms, t) = kernel.kernel_ticks_ms s in (returned (int_value ms), t)

-- The loop: it ends when `ms` milliseconds have passed since `start`.
pub sleep_loop : {S : Type 0} → ℕ → Kernel S → ℕ → ℕ → S → Run S
sleep_loop zero kernel start ms s = out_of_fuel
sleep_loop (suc fuel) kernel start ms s =
    let (now, t) = kernel.kernel_ticks_ms s in
    let rest = sleep_loop fuel kernel start ms t in
    if ltb ((now + 2 ^ 64 - start) % 2 ^ 64) ms then rest else done t

pub mod_ukernel_sleep_ms : {Obj S : Type 0} → ℕ → Python Obj → Kernel S → Obj → S → Run (Reply × S)
unfolding sleep_loop
mod_ukernel_sleep_ms fuel python kernel ms_obj s = elim (python.get_int ms_obj) [
  | none ↦ done (raised_conversion, s)
  | some (negsuc n) ↦ done (returned none_value, s)
  | some (pos zero) ↦ done (returned none_value, s)
  | some (pos ms) ↦
      let (start, t) = kernel.kernel_ticks_ms s in
      elim (sleep_loop fuel kernel start ms t) [
        | done u ↦ done (returned none_value, u)
        | _ ↦ out_of_fuel
      ]
]
