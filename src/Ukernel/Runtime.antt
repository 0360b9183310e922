-- ===== src/Ukernel/Runtime.antt =====
-- What kernel/mp_port/modukernel.c calls: the kernel's functions (its `extern` declarations) over a
-- state `S` of the kernel, and the conversions of the MicroPython runtime over its objects `Obj`.
use zigu.Base.{ℕ, ◌-◌, ◌%◌, ◌^◌, ltb, ◌==◌, if◌then◌else◌, Option, List}
use zigu.Base.Int.{ℤ, pos, negsuc}

-- A message from the network: the result code, what the kernel wrote into the buffer, and `*read_out`.
pub record Received : Type 0 where
  pub rc : ℕ
  pub buf : List ℕ
  pub nread : ℕ

-- An address argument is the bytes that its pointer and length name.
pub record Kernel (S : Type 0) : Type 0 where
  pub net_socket : ℕ → ℕ → ℕ → S → (ℕ × ℕ) × S
  pub net_bind : ℕ → List ℕ → S → ℕ × S
  pub net_connect : ℕ → List ℕ → S → ℕ × S
  pub net_send : ℕ → List ℕ → ℕ → S → (ℕ × ℕ) × S
  pub net_recv : ℕ → ℕ → ℕ → S → Received × S
  pub net_close : ℕ → S → ℕ × S
  pub kernel_ticks_ms : S → ℕ × S
  pub serial_write_bytes : List ℕ → S → S

-- `none`: the conversion raises. A string is the address and the length of its bytes.
pub record Python (Obj : Type 0) : Type 0 where
  pub get_int : Obj → Option ℤ
  pub get_data : Obj → Option (ℕ × ℕ)
  pub get_buffer : Obj → Option (List ℕ)

-- The objects that the functions return.
pub data Value : Type 0 where
  none_value : Value
  int_value : ℕ → Value
  bytes_value : List ℕ → Value

pub data Reply : Type 0 where
  returned : Value → Reply
  raised_os_error : ℤ → Reply
  raised_value_error : Reply
  raised_conversion : Reply

-- A signed value converted to `w` unsigned bits.
abbrev pub unsigned : ℕ → ℤ → ℕ
unsigned w (pos n) = n % 2 ^ w
unsigned w (negsuc n) = 2 ^ w - 1 - n % 2 ^ w

-- `(int)rc`
abbrev pub signed_int : ℕ → ℤ
signed_int rc = if ltb rc (2 ^ 31) then pos rc else negsuc (2 ^ 32 - 1 - rc)

-- `if (rc != 0) mp_raise_OSError((int)rc); return value;`
abbrev pub reply_of : ℕ → Value → Reply
reply_of rc value = if rc == 0 then returned value else raised_os_error (signed_int rc)
