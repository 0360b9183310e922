-- ===== src/Libc/Alloc.antt =====
-- The allocator of kernel/libc_shim.c: `malloc`, `free`, `realloc`, `calloc`. The block headers stand
-- in memory, as the four 64-bit words of `block_header_t`; the two static variables are fields of
-- the state. A pointer is an address, and `NULL` is 0. Walks of the free list run on fuel.
pub mod Bump
pub mod Zeroed
pub mod Chain
pub mod Contract
pub mod Freeing
pub mod Invariant
pub mod LiveSet
pub mod Payload
pub mod Layout
pub mod Release
pub mod Resize
pub mod Safety
pub mod History
pub mod Held
pub mod Stamp
pub mod State
pub mod Take
mod Tests
pub mod Unlist
pub mod Walk
pub mod Writes
use zigu.Base.{
  ℕ, zero, suc, ◌+◌, ◌-◌, ◌*◌, ◌/◌, ◌%◌, ◌^◌, ◌==◌, ltb, leb, if◌then◌else◌, Run, done, fault,
  out_of_fuel, ◌>>=◌,
}
use zigu.Memory.{Memory, poke}
use zigu.Memory.Word.{load64, store64}
use zigu.Libc.Bytes.{copy_up, fill_up}
use State.{
  Heap, Link, head, field, header_size, heap_size, block_magic, align16, block_size, next_free,
  magic, write_link,
}

module _ (libc_heap : ℕ) where
  -- The part of `malloc` behind the loop: a new block at the end of the used part.
  pub bump : ℕ → Heap → ℕ × Heap
  bump size h =
      let needed = (header_size + size) % 2 ^ 64 in
      let hdr = libc_heap + h.heap_offset in
      if ltb heap_size ((h.heap_offset + needed) % 2 ^ 64) then (0, h) else (
        hdr + header_size,
        record h {
          heap_offset = (h.heap_offset + needed) % 2 ^ 64;
          memory =
              store64
                (store64 (store64 (store64 h.memory hdr size) (hdr + 8) 0) (hdr + 16) block_magic)
                (hdr + 24) 0;
        },
      )

-- The branch of the loop that takes a block: it is unlinked, marked as allocated, and returned.
pub take_block : Link → ℕ → Heap → ℕ × Heap
take_block prev blk h =
    let unlinked = write_link prev (next_free h.memory blk) h in
    (
      blk + header_size,
      record unlinked {
        memory = store64 (store64 unlinked.memory (blk + 8) 0) (blk + 16) block_magic;
      },
    )

module _ (libc_heap : ℕ) where
  -- `while (blk) …`: the first block that is large enough, or a new one.
  pub malloc_loop : ℕ → ℕ → Link → ℕ → Heap → Run (ℕ × Heap)
  malloc_loop zero size prev blk h = out_of_fuel
  malloc_loop (suc fuel) size prev blk h =
      let rest = malloc_loop fuel size (field blk) (next_free h.memory blk) h in
      if blk == 0
      then done (bump libc_heap size h)
      else if leb size (block_size h.memory blk)
      then done (take_block prev blk h)
      else rest

  pub malloc : ℕ → ℕ → Heap → Run (ℕ × Heap)
  unfolding malloc_loop bump take_block
  malloc fuel size h = malloc_loop fuel (align16 (if size == 0 then 1 else size)) head h.free_list h

-- `(block_header_t *)((char *)ptr - HEADER_SIZE)`
abbrev pub header_of : ℕ → ℕ
header_of ptr = (ptr + 2 ^ 64 - header_size) % 2 ^ 64

-- The part of `free` behind its two guards.
pub release : ℕ → Heap → Heap
release hdr h = record h {
  free_list = hdr;
  memory = store64 (store64 h.memory (hdr + 16) 0) (hdr + 8) h.free_list;
}

pub free : ℕ → Heap → Heap
unfolding release
free ptr h =
    let hdr = header_of ptr in
    if ptr == 0 then h else if magic h.memory hdr == block_magic then release hdr h else h

-- What `realloc` does once it has a new block: copy the old bytes, and free the old block.
pub move_block : ℕ → ℕ → ℕ → Heap → ℕ × Heap
move_block ptr size new_ptr h =
    let old_size = block_size h.memory (header_of ptr) in
    let copy_size = if ltb old_size size then old_size else size in
    (new_ptr, free ptr (record h { memory = copy_up copy_size 0 new_ptr ptr h.memory }))

module _ (libc_heap : ℕ) where
  pub realloc : ℕ → ℕ → ℕ → Heap → Run (ℕ × Heap)
  realloc fuel ptr size h =
      if ptr == 0
      then malloc libc_heap fuel size h
      else if size == 0
      then done (0, free ptr h)
      else if leb (align16 size) (block_size h.memory (header_of ptr))
      then done (ptr, h)
      else do
        (new_ptr, h') ← malloc libc_heap fuel size h
        if new_ptr == 0 then done (0, h') else done (move_block ptr size new_ptr h')

  pub calloc : ℕ → ℕ → ℕ → Heap → Run (ℕ × Heap)
  calloc fuel nmemb size h =
      let total = nmemb * size % 2 ^ 64 in
      do
        (ptr, h') ← malloc libc_heap fuel total h
        if ptr == 0
            then done (ptr, h')
            else done (ptr, record h' { memory = fill_up total 0 ptr 0 h'.memory })
