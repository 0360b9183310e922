-- ===== src/Libc/Ctype.antt =====
-- The character classes of kernel/mp_port/include/ctype.h, and `abs` of stdlib.h next to it.
use zigu.Base.{
  ℕ, ◌+◌, ◌-◌, ◌≡◌, ◌==◌, ◌&&◌, ◌||◌, leb, Bool, true, false, if◌then◌else◌, refl, arith,
  Bool-cases, inl, inr,
}
use zigu.Base.Int.{ℤ, pos, negsuc}

-- `c >= low && c <= high`, for bounds that are not negative
abbrev pub between : ℕ → ℕ → ℤ → Bool
between low high (pos c) = leb low c && leb c high
between low high (negsuc c) = false

pub isdigit : ℤ → Bool
isdigit c = between b'0' b'9' c

pub isalpha : ℤ → Bool
isalpha c = between b'a' b'z' c || between b'A' b'Z' c

pub isalnum : ℤ → Bool
unfolding isalpha isdigit
isalnum c = isalpha c || isdigit c

pub isspace : ℤ → Bool
isspace (pos c) = (c == 32) || ((c == 9) || ((c == 10) || ((c == 13) || ((c == 12) || (c == 11)))))
isspace (negsuc c) = false

pub isupper : ℤ → Bool
isupper c = between b'A' b'Z' c

pub islower : ℤ → Bool
islower c = between b'a' b'z' c

-- `c - 32` and `c + 32` for a character of the class, which is not negative
abbrev pub minus_32 : ℤ → ℤ
minus_32 (pos c) = pos (c - 32)
minus_32 (negsuc c) = negsuc (c + 32)

abbrev pub plus_32 : ℤ → ℤ
plus_32 (pos c) = pos (c + 32)
plus_32 (negsuc c) = if leb c 31 then pos (31 - c) else negsuc (c - 32)

pub toupper : ℤ → ℤ
unfolding islower
toupper c = if islower c then minus_32 c else c

pub tolower : ℤ → ℤ
unfolding isupper
tolower c = if isupper c then plus_32 c else c

pub isprint : ℤ → Bool
isprint (pos c) = leb 0x20 c && leb (c + 1) 0x7f
isprint (negsuc c) = false

pub isxdigit : ℤ → Bool
unfolding isdigit
isxdigit c = isdigit c || (between b'a' b'f' c || between b'A' b'F' c)

-- What is below stays below: the lower case of the upper case is the lower case, for every `int`.
tolower-toupper : (c : ℤ) → tolower (toupper c) ≡ tolower c
unfolding tolower toupper isupper islower
tolower-toupper (negsuc c) = refl
tolower-toupper (pos c) = elim (Bool-cases (leb b'a' c && leb c b'z')) [
  | inl lower ↦
      let inside : (leb b'A' (c - 32) && leb (c - 32) b'Z') ≡ true = ground arith in
      let outside : (leb b'A' c && leb c b'Z') ≡ false = ground arith in
      let back : c - 32 + 32 ≡ c = ground arith in rw (toupper, lower, inside, outside, back) refl
  | inr other ↦ rw (toupper, other) refl
]
