-- ===== src/Tar/Header.antt =====
-- The header of a file as an archiver writes it, and the fields that kernel/tar.zig reads of it.
use zigu.Base.{
  ℕ, zero, suc, ◌+◌, ◌-◌, ◌<◌, ◌≤◌, ◌≡◌, ◌^◌, ne→==, false, List, [], ◌∷◌, ◌++◌, append_assoc,
  length, length-append, length-replicate, get_or, replicate, take, refl, ap, ◌∙◌, arith,
}
use zigu.Udp.{skip}
use zigu.Tar.{header_name, header_size, typeflag, parse_octal, is_zero_block}
use zigu.Tar.Octal.{octal_digits, length-octal_digits, parse_octal-octal_digits}
use zigu.Tar.Names.{IsText}

-- A file, with the fields that the kernel does not read: the mode and the owner, the time and the checksum, and
-- what stands behind the flag.
pub record File : Type 0 where
  pub name : List ℕ
  pub owner : List ℕ
  pub stamp : List ℕ
  pub flag : ℕ
  pub trailer : List ℕ
  pub content : List ℕ

-- The name is padded with zeros; the size has eleven octal digits and a 0.
unfoldable pub header_of : File → List ℕ
header_of file =
    (file.name ++ replicate (100 - length file.name) 0)
    ++ (file.owner
        ++ ((octal_digits 11 (length file.content) ++ (0 ∷ []))
            ++ (file.stamp ++ (file.flag ∷ file.trailer))))

-- The fields have their lengths, and the name is a text that is not empty.
abbrev pub IsFile : File → Type 0
IsFile file =
    IsText file.name
    × (1 ≤ length file.name)
    × (length file.name ≤ 100)
    × (length file.owner ≡ 24)
    × (length file.stamp ≡ 20)
    × (length file.trailer ≡ 355)
    × (length file.content < 8 ^ 11)

take-append : (n : ℕ) (xs ys : List ℕ) → length xs ≡ n → take n (xs ++ ys) ≡ xs
take-append zero [] ys h = refl
take-append zero (x ∷ xs) ys h = absurd (omega (arith, h))
take-append (suc n) [] ys h = absurd (omega (arith, h))
take-append (suc n) (x ∷ xs) ys h = ap (λ l. x ∷ l) (take-append n xs ys (omega (arith, h)))

skip-append : (n k : ℕ) (xs ys : List ℕ) → length xs ≡ n → skip (n + k) (xs ++ ys) ≡ skip k ys
skip-append zero k [] ys h = ap (λ i. skip i ys) (omega arith)
skip-append zero k (x ∷ xs) ys h = absurd (omega (arith, h))
skip-append (suc n) k [] ys h = absurd (omega (arith, h))
skip-append (suc n) k (x ∷ xs) ys h =
    let next : suc n + k ≡ suc (n + k) = omega arith in
    rw next (skip-append n k xs ys (omega (arith, h)))

get_or-append :
    (n k : ℕ) (xs ys : List ℕ) → length xs ≡ n → get_or (xs ++ ys) (n + k) 0 ≡ get_or ys k 0
get_or-append zero k [] ys h = ap (λ i. get_or ys i 0) (omega arith)
get_or-append zero k (x ∷ xs) ys h = absurd (omega (arith, h))
get_or-append (suc n) k [] ys h = absurd (omega (arith, h))
get_or-append (suc n) k (x ∷ xs) ys h =
    let next : suc n + k ≡ suc (n + k) = omega arith in
    rw next (get_or-append n k xs ys (omega (arith, h)))

is_zero_block-text :
    (text rest : List ℕ) → IsText text → 1 ≤ length text → is_zero_block (text ++ rest) ≡ false
unfolding is_zero_block
is_zero_block-text [] rest h some_text = absurd (omega (arith, some_text))
is_zero_block-text (c ∷ text) rest (h, later) some_text = rw (is_zero_block, ne→== c 0 h) refl

module _ (file : File) (ok : IsFile file) where
  length-padded : length (file.name ++ replicate (100 - length file.name) 0) ≡ 100
  length-padded =
      let whole = length-append file.name (replicate (100 - length file.name) 0) in
      let zeros = length-replicate {A = ℕ} (100 - length file.name) 0 in
      omega (arith, whole, zeros, ok.2)

  length-size : length (octal_digits 11 (length file.content) ++ (0 ∷ [])) ≡ 12
  length-size =
      let whole = length-append (octal_digits 11 (length file.content)) (0 ∷ []) in
      omega (arith, whole, length-octal_digits 11 (length file.content))

  abbrev padded : List ℕ
  padded = file.name ++ replicate (100 - length file.name) 0

  abbrev size_field : List ℕ
  size_field = octal_digits 11 (length file.content) ++ (0 ∷ [])

  -- What stands behind the size.
  abbrev behind : List ℕ
  behind = file.stamp ++ (file.flag ∷ file.trailer)

  pub header_name-header_of :
      header_name (header_of file) ≡ file.name ++ replicate (100 - length file.name) 0
  unfolding header_of
  header_name-header_of =
      take-append 100 padded (file.owner ++ (size_field ++ behind)) length-padded

  pub header_size-header_of : parse_octal (header_size (header_of file)) ≡ length file.content
  unfolding header_of
  header_size-header_of =
      let here : skip 124 (header_of file) ≡ size_field ++ behind =
        skip-append 100 24 padded (file.owner ++ (size_field ++ behind)) length-padded
        ∙ skip-append 24 0 file.owner (size_field ++ behind) ok.3 in
      let digits : header_size (header_of file) ≡ size_field =
        ap (take 12) here ∙ take-append 12 size_field behind length-size in
      ap parse_octal digits ∙ parse_octal-octal_digits 11 (length file.content) [] ok.6

  pub typeflag-header_of : typeflag (header_of file) ≡ file.flag
  unfolding header_of
  typeflag-header_of =
      get_or-append 100 56 padded (file.owner ++ (size_field ++ behind)) length-padded
      ∙ get_or-append 24 32 file.owner (size_field ++ behind) ok.3
      ∙ get_or-append 12 20 size_field behind length-size
      ∙ get_or-append 20 0 file.stamp (file.flag ∷ file.trailer) ok.4

  pub is_zero_block-header_of : is_zero_block (header_of file) ≡ false
  unfolding header_of
  is_zero_block-header_of =
      ap is_zero_block (
        append_assoc file.name (replicate (100 - length file.name) 0)
          (file.owner ++ (size_field ++ behind)))
      ∙ is_zero_block-text file.name
          (replicate (100 - length file.name) 0 ++ (file.owner ++ (size_field ++ behind))) ok.0 ok.1

  pub length-header_of : length (header_of file) ≡ 512
  unfolding header_of
  length-header_of =
      let rest = length-append padded (file.owner ++ (size_field ++ behind)) in
      let rest2 = length-append file.owner (size_field ++ behind) in
      let rest3 = length-append size_field behind in
      let rest4 = length-append file.stamp (file.flag ∷ file.trailer) in
      omega (arith, rest, rest2, rest3, rest4, length-padded, length-size, ok.3, ok.4, ok.5)
