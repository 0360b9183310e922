-- ===== src/Port.antt =====
-- The port of MicroPython: kernel/mp_port/mp_main.c, kernel/mp_port/mphalport.c, and how the C library of
-- kernel/libc_shim.c stops. The interpreter and the serial port are parameters; `S` is their state.
pub mod Stop
use zigu.Base.{ℕ, ◌%◌, ◌^◌, List, [], ◌∷◌, ◌++◌, Run, ◌>>=◌, done}
use zigu.Memory.{Memory, bytes_at}
use zigu.Memory.Sample.{codes}
use zigu.Libc.Strings.{strlen}

-- The result of interpreter code: a value, or an exception that is raised.
pub data Result (A Obj S : Type 0) : Type 0 where
  returns : A → S → Result A Obj S
  raises : Obj → S → Result A Obj S

abbrev pub and_then :
    {A B Obj S : Type 0} → Result A Obj S → (A → S → Result B Obj S) → Result B Obj S
and_then (returns a s) k = k a s
and_then (raises e s) k = raises e s

-- What mp_main.c calls of the interpreter, with its lexers, parse trees and objects.
pub record Interpreter (Lexer Tree Obj S : Type 0) : Type 0 where
  pub mp_lexer_new_from_str_len : List ℕ → S → Result Lexer Obj S
  pub source_name : Lexer → ℕ
  pub mp_parse : Lexer → S → Result Tree Obj S
  pub mp_compile : Tree → ℕ → S → Result Obj Obj S
  pub mp_call_function_0 : Obj → S → Result Obj Obj S
  pub mp_obj_print_exception : Obj → S → S

module _ {Lexer Tree Obj S : Type 0} (py : Interpreter Lexer Tree Obj S) where
  -- What runs between `nlr_push` and `nlr_pop`.
  pub run_source : List ℕ → S → Result Obj Obj S
  run_source src s = and_then (py.mp_lexer_new_from_str_len src s) (λ lex t.
      and_then (py.mp_parse lex t) (λ parse_tree u.
        and_then (py.mp_compile parse_tree (py.source_name lex) u)
          (λ module_fun v. py.mp_call_function_0 module_fun v)))

  -- An exception comes back to `nlr_push` and is printed.
  pub caught : Result Obj Obj S → S
  caught (returns value s) = s
  caught (raises ret_val s) = py.mp_obj_print_exception ret_val s

  pub mp_do_str : ℕ → ℕ → Memory → S → S
  unfolding run_source caught
  mp_do_str src len m s = caught (run_source (bytes_at src len m) s)

-- `MP_ENOENT`
abbrev pub mp_enoent : ℕ
mp_enoent = 2

-- `os_error` is the exception that `mp_raise_OSError` makes of a number.
pub mp_lexer_new_from_file : {Lexer Obj S : Type 0} → (ℕ → Obj) → ℕ → S → Result Lexer Obj S
mp_lexer_new_from_file os_error filename s = raises (os_error mp_enoent) s

-- `mp_import_stat_t`
pub data ImportStat : Type 0 where
  no_exist : ImportStat
  dir : ImportStat
  file : ImportStat

pub mp_import_stat : ℕ → ImportStat
mp_import_stat path = no_exist

-- The processor is halted for good.
pub data Halted (S : Type 0) : Type 0 where
  halted : S → Halted S

module _ {S : Type 0} (serial_write_bytes : List ℕ → S → S) where
  pub nlr_jump_fail : S → Halted S
  nlr_jump_fail s = halted (serial_write_bytes (codes "nlr_jump_fail" ++ (10 ∷ [])) s)

  pub fatal_error : ℕ → ℕ → Memory → S → Run (Halted S)
  fatal_error fuel msg m s =
      strlen fuel msg m >>= (λ n. done (halted (serial_write_bytes (bytes_at msg n m) s)))

  -- `failed` is the address of the literal "assertion failed".
  pub assert_func : ℕ → ℕ → ℕ → Memory → S → Run (Halted S)
  unfolding fatal_error
  assert_func fuel failed expr m s =
      let prefixed = serial_write_bytes (codes "assert fail: ") s in
      strlen fuel expr m >>= (λ n.
        fatal_error fuel failed m
          (serial_write_bytes (10 ∷ []) (serial_write_bytes (bytes_at expr n m) prefixed)))

  pub abort : S → Halted S
  abort s = halted (serial_write_bytes (codes "abort() called" ++ (10 ∷ [])) s)

  pub stack_chk_fail : S → Halted S
  unfolding abort
  stack_chk_fail s = abort s

  pub mp_hal_stdout_tx_strn : ℕ → ℕ → Memory → S → ℕ × S
  mp_hal_stdout_tx_strn str len m s = (len, serial_write_bytes (bytes_at str len m) s)

pub exit : {S : Type 0} → ℕ → S → Halted S
exit status s = halted s

-- `(int)serial_read_byte()`
pub mp_hal_stdin_rx_chr : {S : Type 0} → (S → ℕ × S) → S → ℕ × S
mp_hal_stdin_rx_chr serial_read_byte s = let (byte, t) = serial_read_byte s in (byte % 2 ^ 8, t)
