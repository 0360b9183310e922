-- ===== src/Libc/Sort/Sorting.antt =====
-- `qsort` on the elements of the array.
use mathlib.Core.List.{Perm}
use mathlib.Core.List.Perm
use zigu.Base.{
  ℕ, zero, suc, ◌+◌, ◌-◌, ◌*◌, ◌≤◌, ◌<◌, ◌≡◌, Bool, true, false, Bool-cases, inl, inr, List, arith,
  refl, sym, ap, ◌∙◌, subst,
}
use zigu.Base.Int.{ℤ}
use zigu.Memory.{Memory, bytes_at}
use zigu.Libc.Sort.{swap_elements, sink_loop, sort_loop, qsort, is_negative}
use zigu.Libc.Sort.Insertion.{
  exchange, items, items-ext, sink, insert_all, Ascends, insert_all-Ascends, insert_all-perm,
}
use zigu.Libc.Sort.Elements.{
  Apart, element, Placed, swap_elements-exchange, swap_elements-frame_array,
}

-- `compar` compares the bytes of two elements by `lt`.
abbrev pub Compares : (ℕ → ℕ → Memory → ℤ) → ℕ → (List ℕ → List ℕ → Bool) → Type 0
Compares compar size lt =
    (a b : ℕ) (m : Memory) → is_negative (compar a b m) ≡ lt (bytes_at a size m) (bytes_at b size m)

-- Nothing changes outside the array and the local buffer.
abbrev pub KeepsRest : ℕ → ℕ → ℕ → ℕ → Memory → Memory → Type 0
KeepsRest tmp arr n size m m' = (x : ℕ) → Apart x 1 tmp size → Apart x 1 arr (n * size) → m' x ≡ m x

module _ (compar : ℕ → ℕ → Memory → ℤ) (tmp arr n size : ℕ) (lt : List ℕ → List ℕ → Bool)
    (compares : Compares compar size lt) (fits : size ≤ 256) (placed : Placed tmp arr n size) where
  abbrev Shows : (ℕ → List ℕ) → Memory → Type 0
  Shows f m = (k : ℕ) → k < n → element arr size m k ≡ f k

  exchange-Shows :
      (j : ℕ) (f : ℕ → List ℕ) (m : Memory)
      → suc j < n
      → Shows f m
      → Shows (exchange j f) (swap_elements tmp size (arr + suc j * size) (arr + j * size) m)
  exchange-Shows j f m hj shows k hk =
      swap_elements-exchange tmp arr n size j k m fits placed hj hk
      ∙ ground (arith, shows k hk, shows j (omega arith), shows (suc j) hj)

  sink_loop-Shows :
      (j : ℕ) (f : ℕ → List ℕ) (m : Memory)
      → j < n
      → Shows f m
      → Shows (sink lt j f) (sink_loop compar tmp arr size j m)
        × KeepsRest tmp arr n size m (sink_loop compar tmp arr size j m)
  unfolding sink sink_loop
  sink_loop-Shows zero f m h shows = (shows, λ x ht ha. refl)
  sink_loop-Shows (suc j) f m h shows =
      let a = arr + suc j * size in
      let b = arr + j * size in
      let test : is_negative (compar a b m) ≡ lt (f (suc j)) (f j) =
        rw (sym (shows (suc j) h), sym (shows j (omega arith))) (compares a b m) in
      elim (Bool-cases (lt (f (suc j)) (f j))) [
        | inl less ↦
            let (rest, kept) =
              sink_loop-Shows j (exchange j f) (swap_elements tmp size a b m) (omega arith)
                (exchange-Shows j f m h shows) in
            rw (test, less)
              (
                rest,
                λ x ht ha.
                    kept x ht ha
                    ∙ swap_elements-frame_array tmp arr n size j x m fits placed h ht ha,
              )
        | inr more ↦ rw (test, more) (shows, λ x ht ha. refl)
      ]

  sort_loop-Shows :
      (k i : ℕ) (f : ℕ → List ℕ) (m : Memory)
      → k + i ≤ n
      → Shows f m
      → Shows (insert_all lt k i f) (sort_loop compar tmp arr size k i m)
        × KeepsRest tmp arr n size m (sort_loop compar tmp arr size k i m)
  unfolding insert_all sort_loop
  sort_loop-Shows zero i f m h shows = (shows, λ x ht ha. refl)
  sort_loop-Shows (suc k) i f m h shows =
      let (sunk, kept) = sink_loop-Shows i f m (omega arith) shows in
      let (rest, kept_rest) =
        sort_loop-Shows k (i + 1) (sink lt i f) (sink_loop compar tmp arr size i m) (omega arith)
          sunk in
      (rest, λ x ht ha. kept_rest x ht ha ∙ kept x ht ha)

-- The sort, for elements of at most 256 bytes.
abbrev pub Sorted : ℕ → ℕ → ℕ → ℕ → (List ℕ → List ℕ → Bool) → Memory → Memory → Type 0
Sorted tmp base nmemb size lt m m' =
    Ascends lt nmemb (element base size m')
    × Perm (items (element base size m') 0 nmemb) (items (element base size m) 0 nmemb)
    × KeepsRest tmp base nmemb size m m'

-- For elements of at most 256 bytes, an array that does not meet the local buffer, and a comparison that
-- looks at the bytes of the two elements only and never finds each less than the other, `qsort`
-- leaves a permutation of the elements in which none is less than the one in front of it, and
-- changes no byte outside the array and the local buffer.
pub qsort-Sorted :
    (tmp base nmemb size : ℕ) (compar : ℕ → ℕ → Memory → ℤ) (lt : List ℕ → List ℕ → Bool)
    (m : Memory)
    → Compares compar size lt
    → ((a b : List ℕ) → lt a b ≡ true → lt b a ≡ false)
    → size ≤ 256
    → Placed tmp base nmemb size
    → Sorted tmp base nmemb size lt m (qsort tmp base nmemb size compar m)
unfolding qsort
qsort-Sorted tmp base zero size compar lt m compares asym fits placed =
    (λ k h. absurd (omega arith), Perm.refl _, λ x ht ha. refl)
qsort-Sorted tmp base (suc n) size compar lt m compares asym fits placed =
    let rounds : suc n - 1 ≡ n = omega arith in
    let same_rounds : qsort tmp base (suc n) size compar m ≡ sort_loop compar tmp base size n 1 m =
      ap (λ k. sort_loop compar tmp base size k 1 m) rounds in
    let f = element base size m in
    let g = insert_all lt n 1 f in
    let m' = sort_loop compar tmp base size n 1 m in
    let one : n + 1 ≡ suc n = omega arith in
    let (shows, kept) =
      sort_loop-Shows compar tmp base (suc n) size lt compares fits placed n 1 f m (omega arith)
        (λ k h. refl) in
    let ascends = insert_all-Ascends lt asym n 1 f (λ k h. absurd (omega arith)) in
    let same : items (element base size m') 0 (suc n) ≡ items g 0 (suc n) =
      items-ext (element base size m') g 0 (suc n) (λ k low high. shows k (omega arith)) in
    subst (Sorted tmp base (suc n) size lt m) (sym same_rounds) (
      λ k h. rw (shows (suc k) h, shows k (omega arith)) (ascends k (omega arith)),
      subst (λ l. Perm l (items f 0 (suc n))) (sym same)
          (insert_all-perm lt n 1 (suc n) f (omega arith)),
      kept,
    )
