-- ===== src/Disk.antt =====
-- `readBytes` of kernel/virtio_blk.zig, over `readOneSector` as a parameter.
pub mod Bytes
use zigu.Base.{
  ℕ, zero, suc, ◌+◌, ◌-◌, ◌*◌, ◌/◌, ◌%◌, ◌^◌, ◌==◌, ltb, leb, not, Bool, true, false, if◌then◌else◌,
  Option, none, some, List, [], ◌∷◌, ◌++◌, take, Run, done, fault, out_of_fuel, ◌>>=◌,
}
use zigu.Udp.{skip}

-- `initialized`, which `isReady` returns too, and `readOneSector`: the 512 bytes of a sector, or nothing.
pub record Disk : Type 0 where
  pub initialized : Bool
  pub read_one_sector : ℕ → Option (List ℕ)

abbrev pub sector_size : ℕ
sector_size = 512

abbrev pub prepend : List ℕ → Option (List ℕ) → Option (List ℕ)
prepend xs none = none
prepend xs (some ys) = some (xs ++ ys)

-- How many bytes a round copies.
abbrev pub to_copy : ℕ → ℕ → ℕ
to_copy offset remaining =
    let available = sector_size - offset % sector_size in
    if ltb remaining available then remaining else available

-- The loop over the sectors: the bytes that are still to be read. The offset has 64 bits, and a sum that does not
-- fit panics.
pub read_loop : ℕ → Disk → ℕ → ℕ → Run (Option (List ℕ))
read_loop zero disk offset remaining = out_of_fuel
read_loop (suc fuel) disk offset zero = done (some [])
read_loop (suc fuel) disk offset (suc r) =
    let n = to_copy offset (suc r) in
    elim (disk.read_one_sector (offset / sector_size)) [
      | none ↦ done none
      | some sector_buf ↦ elim (leb (2 ^ 64) (offset + n)) [
        | true ↦ fault
        | false ↦ read_loop fuel disk (offset + n) (suc r - n) >>= λ rest.
            done (prepend (take n (skip (offset % sector_size) sector_buf)) rest)
      ]
    ]

-- What is read into `out`, or nothing. A round copies a byte at least.
pub read_bytes : Disk → ℕ → ℕ → Run (Option (List ℕ))
unfolding read_loop
read_bytes disk byte_offset len =
    if not disk.initialized
    then done none
    else if len == 0
    then done (some [])
    else read_loop (suc len) disk byte_offset len
