-- ===== src/Tar/Tests.antt =====
-- An image with one file, and runs of the reader on it.
use zigu.Base.{
  ℕ, ◌*◌, ◌≡◌, ◌↔◌, true, some, List, [], ◌∷◌, ◌++◌, get_or, replicate, done, refl, arith,
}
use zigu.Memory.Sample.{codes}
use zigu.Disk.{Disk, read_bytes}
use zigu.Disk.Bytes.{bytes, read_bytes-bytes}
use zigu.Tar.{parse_octal, name_match, find_file}
use zigu.Tar.Names.{IsText, Names, name_match-Names}
use zigu.Tar.Header.{File, header_of, IsFile}
use zigu.Tar.Finding.{Layout, first_file, find_file-first_file}

abbrev script : File
script = record {
  name = codes "./a.py";
  owner = replicate 24 48;
  stamp = replicate 20 32;
  flag = 48;
  trailer = replicate 355 0;
  content = codes "print(1)";
}

abbrev image : List ℕ
image = header_of script ++ codes "print(1)"

abbrev content : ℕ → ℕ
content i = get_or image i 0

abbrev disk : Disk
disk = record { initialized = true; read_one_sector = λ s. some (bytes content (s * 512) 512) }

read_bytes-bytes_example : read_bytes disk 510 20 ≡ done (some (bytes content 510 20))
read_bytes-bytes_example =
    read_bytes-bytes disk content 510 20 refl (omega arith) (λ s below above. refl)

octal : parse_octal (codes "00000000017") ≡ 15
unfolding parse_octal
octal = refl

a_py-IsText : IsText (codes "./a.py")
a_py-IsText = (
  λ e. absurd (omega (arith, e)),
  (
    λ e. absurd (omega (arith, e)),
    (
      λ e. absurd (omega (arith, e)),
      (
        λ e. absurd (omega (arith, e)),
        (λ e. absurd (omega (arith, e)), (λ e. absurd (omega (arith, e)), tt)),
      ),
    ),
  ),
)

name_match-Names_example :
    (name_match (codes "./a.py" ++ replicate 94 0) (codes "a.py") ≡ true)
    ↔ Names (codes "./a.py") (codes "a.py")
name_match-Names_example =
    name_match-Names (codes "./a.py") (codes "a.py") 94 a_py-IsText (omega arith)

script-IsFile : IsFile script
script-IsFile = (a_py-IsText, omega arith, omega arith, refl, refl, refl, omega arith)

one_file : Layout content 2048 0 (script ∷ [])
unfolding header_of
one_file = (refl, refl, omega arith, 1, omega arith, omega arith, (refl, refl, omega arith))

find_file-first_file_example :
    find_file 4 disk (codes "a.py") ≡ done (first_file (codes "a.py") (script ∷ []))
find_file-first_file_example =
    find_file-first_file disk content 2048 4 (codes "a.py") (script ∷ [])
      (refl, omega arith, λ s h. refl) (omega arith) (omega arith) (script-IsFile, tt) one_file
