-- ===== src/Tar/Names.antt =====
-- Which names `nameMatch` of kernel/tar.zig takes for the name of a file.
use zigu.Base.{
  ◌||◌, ℕ, zero, suc, ◌<◌, ◌≡◌, ◌≢◌, ◌⊎◌, ◌↔◌, ◌==◌, ◌&&◌, ltb, ==_refl, ne→==, Bool, Bool-cases,
  true, false, if◌then◌else◌, inl, inr, List, [], ◌∷◌, ◌++◌, All, length, get_or, replicate, refl,
  ap, sym, ◌∙◌, arith,
}
use zigu.Udp.{skip}
use zigu.Tar.{str_eql, name_of, name_match}

str_eql→eq : (a b : List ℕ) → str_eql a b ≡ true → a ≡ b
unfolding str_eql
str_eql→eq [] [] h = refl
str_eql→eq [] (c ∷ b) h = absurd (cc h)
str_eql→eq (c ∷ a) [] h = absurd (cc h)
str_eql→eq (c ∷ a) (d ∷ b) h =
    let same : c ≡ d = ground arith in
    let rest : str_eql a b ≡ true = ground arith in rw (same, str_eql→eq a b rest) refl

str_eql_refl : (a : List ℕ) → str_eql a a ≡ true
unfolding str_eql
str_eql_refl [] = refl
str_eql_refl (c ∷ a) = rw (str_eql, ==_refl c, str_eql_refl a) refl

-- No byte is 0.
abbrev pub IsText : List ℕ → Type 0
IsText name = All (λ c. c ≢ 0) name

name_of-zeros : (k : ℕ) → name_of (replicate k 0) ≡ []
unfolding name_of
name_of-zeros zero = refl
name_of-zeros (suc k) = refl

pub name_of-padded : (name : List ℕ) (k : ℕ) → IsText name → name_of (name ++ replicate k 0) ≡ name
unfolding name_of
name_of-padded [] k h = name_of-zeros k
name_of-padded (c ∷ name) k (h, text) =
    let other : (c == 0) ≡ false = ne→== c 0 h in
    rw (name_of, other) (ap (λ l. c ∷ l) (name_of-padded name k text))

-- The name, or the name behind "./".
abbrev pub Names : List ℕ → List ℕ → Type 0
Names name target = (name ≡ target) ⊎ (name ≡ 46 ∷ 47 ∷ target)

-- The test on the name without its padding.
abbrev matches : List ℕ → List ℕ → Bool
matches name target =
    if str_eql name target
    then true
    else ltb 2 (length name)
      && (get_or name 0 0 == 46 && (get_or name 1 0 == 47 && str_eql (skip 2 name) target))

name_match-matches :
    (name target : List ℕ) (k : ℕ)
    → IsText name
    → name_match (name ++ replicate k 0) target ≡ matches name target
unfolding name_match
name_match-matches name target k text = ap (λ n. matches n target) (name_of-padded name k text)

dotted :
    (name target : List ℕ)
    → (ltb 2 (length name)
        && (get_or name 0 0 == 46 && (get_or name 1 0 == 47 && str_eql (skip 2 name) target)))
      ≡ true
    → name ≡ 46 ∷ 47 ∷ target
dotted [] target h = absurd (cc h)
dotted (a ∷ []) target h = absurd (cc h)
dotted (a ∷ b ∷ rest) target h =
    let dot : a ≡ 46 = ground arith in
    let slash : b ≡ 47 = ground arith in
    let same : str_eql rest target ≡ true = ground arith in
    rw (dot, slash, str_eql→eq rest target same) refl

matches-Names : (name target : List ℕ) → matches name target ≡ true → Names name target
matches-Names name target h = elim (Bool-cases (str_eql name target)) [
  | inl same ↦ inl (str_eql→eq name target same)
  | inr other ↦ inr (dotted name target (sym (rw other refl) ∙ h))
]

Names-matches :
    (name target : List ℕ) → 0 < length target → Names name target → matches name target ≡ true
Names-matches name target some_name (inl e) = rw (e, str_eql_refl target) refl
Names-matches name target some_name (inr e) =
    let long : ltb 2 (suc (suc (length target))) ≡ true = ground arith in
    elim (Bool-cases (str_eql (46 ∷ 47 ∷ target) target)) [
      | inl same ↦ rw e (rw same refl)
      | inr other ↦ rw e (rw (other, long, str_eql_refl target) refl)
    ]

-- A field with a name and zeros behind it matches a target that is not empty exactly if the name is the target,
-- or the target behind "./".
pub name_match-Names :
    (name target : List ℕ) (k : ℕ)
    → IsText name
    → 0 < length target
    → (name_match (name ++ replicate k 0) target ≡ true) ↔ Names name target
name_match-Names name target k text some_name =
    let plain = name_match-matches name target k text in
    (
      λ h. matches-Names name target (sym plain ∙ h),
      λ named. plain ∙ Names-matches name target some_name named,
    )

-- The same test, written on its own.
abbrev pub named : List ℕ → List ℕ → Bool
named target name = str_eql name target || str_eql name (46 ∷ 47 ∷ target)

named-Names : (target name : List ℕ) → named target name ≡ true → Names name target
named-Names target name h = elim (Bool-cases (str_eql name target)) [
  | inl same ↦ inl (str_eql→eq name target same)
  | inr other ↦ inr (str_eql→eq name (46 ∷ 47 ∷ target) (sym (rw other refl) ∙ h))
]

Names-named : (target name : List ℕ) → Names name target → named target name ≡ true
Names-named target name (inl e) = rw (e, str_eql_refl target) refl
Names-named target name (inr e) = elim (Bool-cases (str_eql (46 ∷ 47 ∷ target) target)) [
  | inl same ↦ rw e (rw same refl)
  | inr other ↦ rw e (rw (other, str_eql_refl (46 ∷ 47 ∷ target)) refl)
]

pub name_match-named :
    (name target : List ℕ) (k : ℕ)
    → IsText name
    → 0 < length target
    → name_match (name ++ replicate k 0) target ≡ named target name
name_match-named name target k text some_name =
    let (there, back) = name_match-Names name target k text some_name in
    elim (Bool-cases (named target name)) [
      | inl is_named ↦ back (named-Names target name is_named) ∙ sym is_named
      | inr other ↦ elim (Bool-cases (name_match (name ++ replicate k 0) target)) [
        | inl same ↦ absurd (cc (other, Names-named target name (there same)))
        | inr none_matches ↦ none_matches ∙ sym other
      ]
    ]
