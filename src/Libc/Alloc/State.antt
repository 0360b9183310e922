-- ===== src/Libc/Alloc/State.antt =====
-- The state of the allocator, and the layout of a block header.
use zigu.Base.{ℕ, ◌+◌, ◌*◌, ◌/◌, ◌%◌, ◌^◌}
use zigu.Memory.{Memory}
use zigu.Memory.Word.{load64, store64}

-- `LIBC_HEAP_SIZE`, `HEADER_SIZE`, `BLOCK_MAGIC`
abbrev pub heap_size : ℕ
heap_size = 8 * 1024 * 1024

abbrev pub header_size : ℕ
header_size = 32

abbrev pub block_magic : ℕ
block_magic = 0xdeadbeef

-- `((x) + 15) & ~(size_t)15`: the mask clears the low four bits.
abbrev pub align16 : ℕ → ℕ
align16 x = (x + 15) % 2 ^ 64 / 16 * 16

pub record Heap : Type 0 where
  pub heap_offset : ℕ
  pub free_list : ℕ
  pub memory : Memory

-- The fields of the header at an address.
abbrev pub block_size : Memory → ℕ → ℕ
block_size m hdr = load64 m hdr

abbrev pub next_free : Memory → ℕ → ℕ
next_free m hdr = load64 m (hdr + 8)

abbrev pub magic : Memory → ℕ → ℕ
magic m hdr = load64 m (hdr + 16)

-- What `block_header_t **prev` points to: `free_list`, or the `next_free` of a header.
pub data Link : Type 0 where
  head : Link
  field : ℕ → Link

-- `*prev = p`
abbrev pub write_link : Link → ℕ → Heap → Heap
write_link head p h = record h { free_list = p }
write_link (field hdr) p h = record h { memory = store64 h.memory (hdr + 8) p }

-- `*prev`
abbrev pub read_link : Link → Heap → ℕ
read_link head h = h.free_list
read_link (field hdr) h = next_free h.memory hdr
