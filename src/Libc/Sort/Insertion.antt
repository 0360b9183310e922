-- ===== src/Libc/Sort/Insertion.antt =====
-- The sort on a family of elements, in place of memory: it keeps the elements and puts them in order.
use mathlib.Core.List.{Perm}
use mathlib.Core.List.Perm
use zigu.Base.{
  ℕ, zero, suc, ◌+◌, ◌≤◌, ◌<◌, ◌≡◌, ◌≢◌, ◌==◌, Bool, true, false, if◌then◌else◌, Bool-cases, ==→eq,
  inl, inr, List, [], ◌∷◌, arith, refl,
}

module _ {A : Type 0} where
  -- Elements `j` and `j + 1` exchanged.
  abbrev pub exchange : ℕ → (ℕ → A) → ℕ → A
  exchange j f k = if k == j then f (suc j) else if k == suc j then f j else f k

  -- Elements `i` to `i + n - 1`.
  abbrev pub items : (ℕ → A) → ℕ → ℕ → List A
  items f i zero = []
  items f i (suc n) = f i ∷ items f (suc i) n

module _ {A : Type 0} (lt : A → A → Bool) where
  -- Element `j` goes down past the greater ones.
  unfoldable pub sink : ℕ → (ℕ → A) → ℕ → A
  sink zero f = f
  sink (suc j) f = let rest = sink j (exchange j f) in if lt (f (suc j)) (f j) then rest else f

  -- Elements `i` to `i + k - 1` go down in turn.
  unfoldable pub insert_all : ℕ → ℕ → (ℕ → A) → ℕ → A
  insert_all zero i f = f
  insert_all (suc k) i f = insert_all k (i + 1) (sink i f)

  -- None of the first `n` elements is less than the one in front of it.
  abbrev pub Ascends : ℕ → (ℕ → A) → Type 0
  Ascends n f = (k : ℕ) → suc k < n → lt (f (suc k)) (f k) ≡ false

  -- The same of elements `0` to `i`, but for element `j`, which may be less than those in front of it.
  abbrev AscendsBut : ℕ → ℕ → (ℕ → A) → Type 0
  AscendsBut j i f =
      ((k : ℕ) → suc k ≤ i → suc k ≢ j → lt (f (suc k)) (f k) ≡ false)
      × ((k : ℕ) → suc (suc k) ≤ i → suc k ≡ j → lt (f (suc (suc k))) (f k) ≡ false)

  module _ (asym : (a b : A) → lt a b ≡ true → lt b a ≡ false) where
    exchange-AscendsBut :
        (j i : ℕ) (f : ℕ → A)
        → lt (f (suc j)) (f j) ≡ true
        → AscendsBut (suc j) i f
        → AscendsBut j i (exchange j f)
    exchange-AscendsBut j i f less (h1, h2) = (
      λ k below other. ground (arith, h1 k, h2 j, asym (f (suc j)) (f j)),
      λ k below here. ground (arith, h1 k),
    )

    sink-Ascends : (j i : ℕ) (f : ℕ → A) → j ≤ i → AscendsBut j i f → Ascends (suc i) (sink j f)
    unfolding sink
    sink-Ascends zero i f le h = λ k below. h.0 k (omega arith) (omega arith)
    sink-Ascends (suc j) i f le h = elim (Bool-cases (lt (f (suc j)) (f j))) [
      | inl less ↦
          rw less (sink-Ascends j i (exchange j f) (omega arith) (exchange-AscendsBut j i f less h))
      | inr more ↦ rw more (λ k below. ground (arith, h.0 k))
    ]

    pub insert_all-Ascends :
        (k i : ℕ) (f : ℕ → A) → Ascends i f → Ascends (k + i) (insert_all k i f)
    unfolding insert_all
    insert_all-Ascends zero i f h = λ j below. h j (omega arith)
    insert_all-Ascends (suc k) i f h =
        let but : AscendsBut i i f =
          (λ j below other. h j (omega arith), λ j below here. absurd (omega arith)) in
        let next = sink-Ascends i i f (omega arith) but in
        let more : suc k + i ≡ k + (i + 1) = omega arith in
        let start : suc i ≡ i + 1 = omega arith in
        rw more (insert_all-Ascends k (i + 1) (sink i f) (rw start at next))

module _ {A : Type 0} where
  pub items-ext :
      (f g : ℕ → A) (i n : ℕ)
      → ((k : ℕ) → i ≤ k → k < i + n → f k ≡ g k)
      → items f i n ≡ items g i n
  items-ext f g i zero h = refl
  items-ext f g i (suc n) h =
      rw
        (
          h i (omega arith) (omega arith),
          items-ext f g (suc i) n (λ k low high. h k (omega arith) (omega arith)),
        )
        refl

  exchange-perm :
      (j i n : ℕ) (f : ℕ → A)
      → i ≤ j
      → suc j < i + n
      → Perm (items (exchange j f) i n) (items f i n)
  exchange-perm j i zero f le lt = absurd (omega arith)
  exchange-perm j i (suc zero) f le lt = absurd (omega arith)
  exchange-perm j i (suc (suc n)) f le lt = elim (Bool-cases (i == j)) [
    | inl e ↦
        let here : j ≡ i = ground (arith, ==→eq i j e) in
        let first : exchange j f i ≡ f (suc i) = ground (arith, here) in
        let second : exchange j f (suc i) ≡ f i = ground (arith, here) in
        let rest : items (exchange j f) (suc (suc i)) n ≡ items f (suc (suc i)) n =
          items-ext (exchange j f) f (suc (suc i)) n (λ k low high. ground (arith, here)) in
        rw (first, second, rest) (Perm.swap (f i) (f (suc i)) (items f (suc (suc i)) n))
    | inr e ↦
        let first : exchange j f i ≡ f i = ground arith in
        rw first (Perm.cons (f i) (exchange-perm j (suc i) (suc n) f (ground arith) (omega arith)))
  ]

module _ {A : Type 0} (lt : A → A → Bool) where
  sink-perm : (j n : ℕ) (f : ℕ → A) → j < n → Perm (items (sink lt j f) 0 n) (items f 0 n)
  unfolding sink
  sink-perm zero n f h = Perm.refl _
  sink-perm (suc j) n f h = elim (Bool-cases (lt (f (suc j)) (f j))) [
    | inl less ↦ rw less (
        Perm.trans (sink-perm j n (exchange j f) (omega arith))
          (exchange-perm j 0 n f (omega arith) (omega arith)))
    | inr more ↦ rw more (Perm.refl _)
  ]

  pub insert_all-perm :
      (k i n : ℕ) (f : ℕ → A) → k + i ≤ n → Perm (items (insert_all lt k i f) 0 n) (items f 0 n)
  unfolding insert_all
  insert_all-perm zero i n f h = Perm.refl _
  insert_all-perm (suc k) i n f h =
      Perm.trans (insert_all-perm k (i + 1) n (sink lt i f) (omega arith))
        (sink-perm i n f (omega arith))
