-- ===== src/Tar.antt =====
-- The reader of the disk image, kernel/tar.zig.
pub mod Octal
pub mod Header
pub mod Names
pub mod Finding
mod Tests
use zigu.Base.{
  ℕ, zero, suc, ◌+◌, ◌-◌, ◌*◌, ◌/◌, ◌%◌, ◌^◌, ◌==◌, ◌&&◌, ◌||◌, ltb, leb, not, Bool, true, false,
  if◌then◌else◌, Option, none, some, List, [], ◌∷◌, ◌++◌, length, get_or, take, Run, done, fault,
  out_of_fuel, ◌>>=◌,
}
use zigu.Udp.{skip}
use zigu.Net.{slice}
use zigu.Disk.{Disk, read_bytes}

abbrev pub tar_block_size : ℕ
tar_block_size = 512

abbrev pub max_file_size : ℕ
max_file_size = 1024 * 1024

-- The fields of `TarHeader` that are read.
abbrev pub header_name : List ℕ → List ℕ
header_name header = slice header 0 100

abbrev pub header_size : List ℕ → List ℕ
header_size header = slice header 124 12

abbrev pub typeflag : List ℕ → ℕ
typeflag header = get_or header 156 0

-- The loop of `parseOctal`. Twelve digits stay below 2 ^ 36.
pub octal_loop : ℕ → List ℕ → ℕ
octal_loop result [] = result
octal_loop result (c ∷ field) =
    let rest = octal_loop (result * 8 + (c - 48)) field in
    if c == 0 || c == 32 then result else if ltb c 48 || ltb 55 c then result else rest

pub parse_octal : List ℕ → ℕ
unfolding octal_loop
parse_octal field = octal_loop 0 field

pub str_eql : List ℕ → List ℕ → Bool
str_eql [] [] = true
str_eql [] (c ∷ b) = false
str_eql (c ∷ a) [] = false
str_eql (c ∷ a) (d ∷ b) = c == d && str_eql a b

-- `header_name[0..name_len]`
pub name_of : List ℕ → List ℕ
name_of [] = []
name_of (c ∷ header) = let rest = name_of header in if c == 0 then [] else c ∷ rest

pub name_match : List ℕ → List ℕ → Bool
unfolding str_eql name_of
name_match header target =
    let name = name_of header in
    if str_eql name target
    then true
    else ltb 2 (length name)
      && (get_or name 0 0 == 46 && (get_or name 1 0 == 47 && str_eql (skip 2 name) target))

pub is_zero_block : List ℕ → Bool
is_zero_block [] = true
is_zero_block (b ∷ buf) = b == 0 && is_zero_block buf

-- `is_regular`: '0' or 0.
abbrev pub is_regular : List ℕ → Bool
is_regular header = typeflag header == 48 || typeflag header == 0

abbrev pub data_blocks : ℕ → ℕ
data_blocks file_size = (file_size + tar_block_size - 1) / tar_block_size

-- The file is found: its content, unless it is too large or cannot be read.
pub load_file : Disk → ℕ → ℕ → Run (Option (List ℕ))
load_file disk data_offset file_size =
    if ltb max_file_size file_size then done none else read_bytes disk data_offset file_size

-- A round of the loop over the headers, with what was read at its offset and the rounds that come after it. An
-- offset that does not fit in 64 bits is a fault.
pub header_round :
    (ℕ → ℕ → Run (Option (List ℕ)))
    → Disk
    → List ℕ
    → ℕ
    → ℕ
    → Option (List ℕ)
    → Run (Option (List ℕ))
unfolding parse_octal name_match is_zero_block load_file
header_round continue disk filename byte_offset zero_blocks none = done none
header_round continue disk filename byte_offset zero_blocks (some header) =
    let file_size = parse_octal (header_size header) in
    elim (is_zero_block header) [
      | true ↦ elim (leb 2 (suc zero_blocks)) [
        | true ↦ done none
        | false ↦
            let next = byte_offset + tar_block_size in
            if leb (2 ^ 64) next then fault else continue next (suc zero_blocks)
      ]
      | false ↦ elim (is_regular header && name_match (header_name header) filename) [
        | true ↦ load_file disk (byte_offset + tar_block_size) file_size
        | false ↦
            let next = byte_offset + (tar_block_size + data_blocks file_size * tar_block_size) in
            if leb (2 ^ 64) next then fault else continue next 0
      ]
    ]

pub find_loop : ℕ → Disk → List ℕ → ℕ → ℕ → Run (Option (List ℕ))
unfolding header_round
find_loop zero disk filename byte_offset zero_blocks = out_of_fuel
find_loop (suc fuel) disk filename byte_offset zero_blocks =
    read_bytes disk byte_offset tar_block_size
    >>= header_round (find_loop fuel disk filename) disk filename byte_offset zero_blocks

-- What is found, or nothing.
pub find_file : ℕ → Disk → List ℕ → Run (Option (List ℕ))
unfolding find_loop
find_file fuel disk filename =
    if not disk.initialized then done none else find_loop fuel disk filename 0 0
