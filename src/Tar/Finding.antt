-- ===== src/Tar/Finding.antt =====
-- What `findFile` of kernel/tar.zig finds in an archive.
use zigu.Base.{
  ℕ, zero, suc, ◌+◌, ◌-◌, ◌*◌, ◌^◌, ◌<◌, ◌≤◌, ◌≡◌, ◌==◌, ◌&&◌, ◌||◌, ltb, leb, not, Bool,
  Bool-cases, true, false, if◌then◌else◌, Option, none, some, inl, inr, List, [], ◌∷◌, All, length,
  replicate, done, ◌>>=◌, refl, ap, ◌∙◌, arith,
}
use zigu.Disk.{Disk, read_bytes}
use zigu.Disk.Bytes.{bytes, read_bytes-bytes}
use zigu.Tar.{
  header_name, header_size, is_regular, data_blocks, parse_octal, name_match, is_zero_block,
  load_file, header_round, find_loop, find_file,
}
use zigu.Tar.Names.{named, name_match-named}
use zigu.Tar.Header.{
  File, header_of, IsFile, header_name-header_of, header_size-header_of, typeflag-header_of,
  is_zero_block-header_of,
}

-- The files of an archive that begins at `offset`, and its end, of two empty blocks, below `size`.
abbrev pub Layout : (ℕ → ℕ) → ℕ → ℕ → List File → Type 0
Layout content size offset [] =
    (bytes content offset 512 ≡ replicate 512 0)
    × (bytes content (offset + 512) 512 ≡ replicate 512 0)
    × (offset + 1024 ≤ size)
Layout content size offset (file ∷ files) =
    (bytes content offset 512 ≡ header_of file)
    × (bytes content (offset + 512) (length file.content) ≡ file.content)
    × (offset + 512 + length file.content ≤ size)
    × (blocks : ℕ) × (length file.content ≤ blocks * 512)
    × (blocks * 512 < length file.content + 512)
    × Layout content size (offset + (512 + blocks * 512)) files

-- The driver is ready, and every sector of the image can be read.
abbrev pub IsImage : Disk → (ℕ → ℕ) → ℕ → Type 0
IsImage disk content size =
    (disk.initialized ≡ true)
    × (size < 2 ^ 64)
    × ((s : ℕ) → s * 512 < size → disk.read_one_sector s ≡ some (bytes content (s * 512) 512))

-- A regular file with this name, or with this name behind "./".
abbrev pub wanted : List ℕ → File → Bool
wanted filename file = (file.flag == 48 || file.flag == 0) && named filename file.name

-- The first file that is wanted; one that is too large is not returned.
abbrev pub first_file : List ℕ → List File → Option (List ℕ)
first_file filename [] = none
first_file filename (file ∷ files) =
    let rest = first_file filename files in
    if wanted filename file
    then (if ltb 1048576 (length file.content) then none else some file.content)
    else rest

-- The branches of a round, with what its header is.
module _ (fuel : ℕ) (disk : Disk) (filename : List ℕ) (offset z : ℕ) (header : List ℕ)
    (read : read_bytes disk offset 512 ≡ done (some header)) where
  abbrev next_header : ℕ
  next_header = offset + (512 + data_blocks (parse_octal (header_size header)) * 512)

  read_round :
      find_loop (suc fuel) disk filename offset z
      ≡ header_round (find_loop fuel disk filename) disk filename offset z (some header)
  unfolding find_loop
  read_round =
      ap (λ r. r >>= header_round (find_loop fuel disk filename) disk filename offset z) read

  round_empty :
      is_zero_block header ≡ true
      → z ≡ 0
      → leb (2 ^ 64) (offset + 512) ≡ false
      → find_loop (suc fuel) disk filename offset z ≡ find_loop fuel disk filename (offset + 512) 1
  unfolding header_round
  round_empty empty first fits =
      let once : leb 2 (suc z) ≡ false = ground arith in
      read_round
      ∙ rw (header_round, empty, once, fits)
          (ap (λ k. find_loop fuel disk filename (offset + 512) (suc k)) first)

  round_end :
      is_zero_block header ≡ true → z ≡ 1 → find_loop (suc fuel) disk filename offset z ≡ done none
  unfolding header_round
  round_end empty second = read_round ∙ rw (header_round, empty, second) refl

  round_found :
      is_zero_block header ≡ false
      → (is_regular header && name_match (header_name header) filename) ≡ true
      → find_loop (suc fuel) disk filename offset z
        ≡ load_file disk (offset + 512) (parse_octal (header_size header))
  unfolding header_round
  round_found used match = read_round ∙ rw (header_round, used, match) refl

  round_skipped :
      is_zero_block header ≡ false
      → (is_regular header && name_match (header_name header) filename) ≡ false
      → leb (2 ^ 64) next_header ≡ false
      → find_loop (suc fuel) disk filename offset z ≡ find_loop fuel disk filename next_header 0
  unfolding header_round
  round_skipped used other fits = read_round ∙ rw (header_round, used, other, fits) refl

is_zero_block-zeros : (n : ℕ) → is_zero_block (replicate n 0) ≡ true
unfolding is_zero_block
is_zero_block-zeros zero = refl
is_zero_block-zeros (suc n) = is_zero_block-zeros n

Layout-inside :
    (content : ℕ → ℕ) (size offset : ℕ) (files : List File)
    → Layout content size offset files
    → offset + 512 ≤ size
Layout-inside content size offset [] (first, second, inside) = omega (arith, inside)
Layout-inside content size offset (file ∷ files) (head, body, inside, blocks, enough, few, rest) =
    omega (arith, inside)

header-wanted :
    (filename : List ℕ) (file : File)
    → IsFile file
    → 0 < length filename
    → (is_regular (header_of file) && name_match (header_name (header_of file)) filename)
      ≡ wanted filename file
header-wanted filename file ok some_name =
    ap (λ t. (t == 48 || t == 0) && name_match (header_name (header_of file)) filename)
      (typeflag-header_of file ok)
    ∙ ap (λ n. (file.flag == 48 || file.flag == 0) && name_match n filename)
        (header_name-header_of file ok)
    ∙ ap (λ b. (file.flag == 48 || file.flag == 0) && b)
        (name_match-named file.name filename (100 - length file.name) ok.0 some_name)

module _ (disk : Disk) (content : ℕ → ℕ) (size : ℕ) (image : IsImage disk content size) where
  read_bytes-image :
      (offset len : ℕ)
      → offset + len ≤ size
      → read_bytes disk offset len ≡ done (some (bytes content offset len))
  read_bytes-image offset len h =
      read_bytes-bytes disk content offset len image.0 (omega (arith, h, image.1))
        (λ s below above. image.2 s (omega (arith, h, below)))

  load_file-image :
      (offset : ℕ) (file : File)
      → offset + length file.content ≤ size
      → bytes content offset (length file.content) ≡ file.content
      → load_file disk offset (length file.content)
        ≡ done (if ltb 1048576 (length file.content) then none else some file.content)
  unfolding load_file
  load_file-image offset file h body = elim (Bool-cases (ltb 1048576 (length file.content))) [
    | inl large ↦ rw (load_file, large) refl
    | inr small ↦
        rw (load_file, small)
          (read_bytes-image offset (length file.content) h ∙ ap (λ l. done (some l)) body)
  ]

  find_loop-first_file :
      (fuel : ℕ) (filename : List ℕ) (offset zero_blocks : ℕ) (files : List File)
      → suc (length files) < fuel
      → zero_blocks ≡ 0
      → 0 < length filename
      → All IsFile files
      → Layout content size offset files
      → find_loop fuel disk filename offset zero_blocks ≡ done (first_file filename files)
  find_loop-first_file zero filename offset z files h e some_name ok layout =
      absurd (omega (arith, h))
  find_loop-first_file (suc zero) filename offset z files h e some_name ok layout =
      absurd (omega (arith, h))
  find_loop-first_file (suc (suc fuel)) filename offset z [] h e some_name ok
        (first, second, inside) =
      let read =
        read_bytes-image offset 512 (omega (arith, inside)) ∙ ap (λ l. done (some l)) first in
      let read2 =
        read_bytes-image (offset + 512) 512 (omega (arith, inside))
        ∙ ap (λ l. done (some l)) second in
      let below = image.1 in
      let fits : leb (2 ^ 64) (offset + 512) ≡ false = ground (arith, inside, below) in
      round_empty (suc fuel) disk filename offset z (replicate 512 0) read (is_zero_block-zeros 512)
        e fits
      ∙ round_end fuel disk filename (offset + 512) 1 (replicate 512 0) read2
          (is_zero_block-zeros 512) refl
  find_loop-first_file (suc (suc fuel)) filename offset z (file ∷ files) h e some_name (ok, oks)
        (head, body, inside, blocks, enough, few, rest) =
      let header = header_of file in
      let len = length file.content in
      let read =
        read_bytes-image offset 512 (omega (arith, inside)) ∙ ap (λ l. done (some l)) head in
      let used = is_zero_block-header_of file ok in
      let sized : parse_octal (header_size header) ≡ len = header_size-header_of file ok in
      elim (Bool-cases (wanted filename file)) [
        | inl match ↦
            let found =
              round_found (suc fuel) disk filename offset z header read used
                (header-wanted filename file ok some_name ∙ match) in
            rw match (
              found
              ∙ ap (load_file disk (offset + 512)) sized
              ∙ load_file-image (offset + 512) file inside body)
        | inr other ↦
            let next = offset + (512 + blocks * 512) in
            let counted : data_blocks len ≡ blocks = omega (arith, enough, few) in
            let far = Layout-inside content size next files rest in
            let below = image.1 in
            let fits : leb (2 ^ 64) next ≡ false = ground (arith, far, below) in
            let there : offset + (512 + data_blocks (parse_octal (header_size header)) * 512)
                ≡ next =
              ap (λ n. offset + (512 + data_blocks n * 512)) sized
              ∙ ap (λ n. offset + (512 + n * 512)) counted in
            let skipped =
              round_skipped (suc fuel) disk filename offset z header read used
                (header-wanted filename file ok some_name ∙ other)
                (ap (leb (2 ^ 64)) there ∙ fits) in
            rw other (
              skipped
              ∙ ap (λ n. find_loop (suc fuel) disk filename n 0) there
              ∙ find_loop-first_file (suc fuel) filename next 0 files (omega (arith, h)) refl
                  some_name oks rest)
      ]

-- The image has the headers and the contents of an archive, whose files are well-formed, and its end: with more
-- rounds than files and the two empty blocks, and for a name that is not empty, `find_file` finds the content of the first regular file with the
-- name, or with the name behind "./", unless it has more than 1 MB, and nothing if there is none.
pub find_file-first_file :
    (disk : Disk) (content : ℕ → ℕ) (size fuel : ℕ) (filename : List ℕ) (files : List File)
    → IsImage disk content size
    → suc (length files) < fuel
    → 0 < length filename
    → All IsFile files
    → Layout content size 0 files
    → find_file fuel disk filename ≡ done (first_file filename files)
unfolding find_file
find_file-first_file disk content size fuel filename files image h some_name ok layout =
    let ready : not disk.initialized ≡ false = rw image.0 refl in
    rw (find_file, ready)
      (find_loop-first_file disk content size image fuel filename 0 0 files h refl some_name ok
        layout)
