-- ===== src/Libc/Alloc/History.antt =====
-- Histories of `malloc` and `free` (kernel/libc_shim.c), from the first state on, and the blocks that the program
-- holds then.
use zigu.Base.{
  ℕ, suc, ◌+◌, ◌^◌, ◌<◌, ◌≤◌, ◌≡◌, ◌≢◌, ◌⊎◌, ◌==◌, Bool-cases, true, false, if◌then◌else◌, inl, inr,
  List, [], ◌∷◌, length, All, refl, ap, sym, subst, ◌∙◌, arith, done,
}
use zigu.Memory.{Memory}
use zigu.Libc.Alloc.{malloc, free}
use zigu.Libc.Alloc.State.{Heap, heap_size, header_size}
use zigu.Libc.Alloc.Layout.{Block, is_live, set_live}
use zigu.Libc.Alloc.Invariant.{IsPlaced, IsHeap}
use zigu.Libc.Alloc.Contract.{Answer, refused, granted, malloc-Answer}
use zigu.Libc.Alloc.Freeing.{free-IsFreed}
use zigu.Libc.Alloc.Payload.{WritesIn, write-IsHeap}
use zigu.Libc.Alloc.Safety.{first_heap, first_heap-IsHeap}

-- What `malloc` answers with enough fuel.
abbrev pub Mallocs : ℕ → ℕ → Heap → ℕ → Heap → Type 0
Mallocs libc_heap size h p h' =
    (bound : ℕ) × ((fuel : ℕ) → bound < fuel → malloc libc_heap fuel size h ≡ done (p, h'))

abbrev pub IsHeld : ℕ → List (ℕ × ℕ) → Type 0
IsHeld p [] = ⊥
IsHeld p ((q, size) ∷ held) = (q ≡ p) ⊎ IsHeld p held

abbrev pub HasBlock : ℕ → ℕ → List (ℕ × ℕ) → Type 0
HasBlock p n [] = ⊥
HasBlock p n ((q, size) ∷ held) = ((q ≡ p) × (size ≡ n)) ⊎ HasBlock p n held

-- No byte but the `n` from `p` on differs.
abbrev pub WritesTo : Memory → Memory → ℕ → ℕ → Type 0
WritesTo m m' p n = (x : ℕ) → (x < p) ⊎ (p + n ≤ x) → m' x ≡ m x

abbrev pub forget : ℕ → List (ℕ × ℕ) → List (ℕ × ℕ)
forget p [] = []
forget p ((q, size) ∷ held) = if q == p then forget p held else (q, size) ∷ forget p held

-- The states that calls reach, with writes of the program into the blocks that it holds: the pointers that the program has been given and has not freed, and the sizes
-- that it asked for.
pub data Reaches (libc_heap : ℕ) : Heap → List (ℕ × ℕ) → Type 0 where
  start : (m : Memory) → Reaches libc_heap (first_heap m) []
  denied :
      {h h' : Heap} {held : List (ℕ × ℕ)} (size : ℕ)
      → size + 47 + heap_size < 2 ^ 64
      → Mallocs libc_heap size h 0 h'
      → Reaches libc_heap h held
      → Reaches libc_heap h' held
  given :
      {h h' : Heap} {held : List (ℕ × ℕ)} (size p : ℕ)
      → size + 47 + heap_size < 2 ^ 64
      → p ≢ 0
      → Mallocs libc_heap size h p h'
      → Reaches libc_heap h held
      → Reaches libc_heap h' ((p, size) ∷ held)
  released :
      {h : Heap} {held : List (ℕ × ℕ)} (p : ℕ)
      → IsHeld p held
      → Reaches libc_heap h held
      → Reaches libc_heap (free p h) (forget p held)
  written :
      {h : Heap} {held : List (ℕ × ℕ)} (p size : ℕ) (m' : Memory)
      → HasBlock p size held
      → WritesTo h.memory m' p size
      → Reaches libc_heap h held
      → Reaches libc_heap (record h { memory = m' }) held

-- The pointer is that of a live block with room for the size.
abbrev pub IsBacked : List Block → ℕ × ℕ → Type 0
IsBacked bs (p, size) = (f n : ℕ) × (p ≡ f + header_size) × (size ≤ n) × (is_live f n bs ≡ true)

abbrev pub Differ : ℕ → List (ℕ × ℕ) → Type 0
Differ p held = All (λ (b : ℕ × ℕ). b.0 ≢ p) held

abbrev pub Distinct : List (ℕ × ℕ) → Type 0
Distinct [] = Unit
Distinct ((p, size) ∷ held) = Differ p held × Distinct held

abbrev pub Backs : ℕ → Heap → List (ℕ × ℕ) → Type 0
Backs libc_heap h held =
    (bs : List Block) × (fs : List ℕ) × IsHeap libc_heap h bs fs
    × All (IsBacked bs) held
    × Distinct held

Differ-forget : (p q : ℕ) (held : List (ℕ × ℕ)) → Differ q held → Differ q (forget p held)
Differ-forget p q [] h = tt
Differ-forget p q ((r, size) ∷ held) (ne, h) = elim (Bool-cases (r == p)) [
  | inl e ↦ rw e (Differ-forget p q held h)
  | inr e ↦ rw e (ne, Differ-forget p q held h)
]

Distinct-forget : (p : ℕ) (held : List (ℕ × ℕ)) → Distinct held → Distinct (forget p held)
Distinct-forget p [] h = tt
Distinct-forget p ((r, size) ∷ held) (ne, h) = elim (Bool-cases (r == p)) [
  | inl e ↦ rw e (Distinct-forget p held h)
  | inr e ↦ rw e (Differ-forget p r held ne, Distinct-forget p held h)
]

-- What a new live block and a freed one leave of the others.
abbrev Others : ℕ → List Block → List Block → Type 0
Others f bs bs' = (g k : ℕ) → g ≢ f → is_live g k bs' ≡ is_live g k bs

forget-IsBacked :
    (f : ℕ) (bs bs' : List Block) (held : List (ℕ × ℕ))
    → Others f bs bs'
    → All (IsBacked bs) held
    → All (IsBacked bs') (forget (f + header_size) held)
forget-IsBacked f bs bs' [] others h = tt
forget-IsBacked f bs bs' ((q, size) ∷ held) others ((g, n, at, fits, live), h) =
    elim (Bool-cases (q == f + header_size)) [
      | inl e ↦ rw e (forget-IsBacked f bs bs' held others h)
      | inr e ↦
          let ne : g ≢ f = λ same. ground (arith, at, same, e) in
          rw e ((g, n, at, fits, others g n ne ∙ live), forget-IsBacked f bs bs' held others h)
    ]

-- A new block is not that of a pointer that is held.
fresh-IsBacked :
    (f : ℕ) (bs bs' : List Block) (held : List (ℕ × ℕ))
    → Others f bs bs'
    → ((k : ℕ) → is_live f k bs ≡ false)
    → All (IsBacked bs) held
    → All (IsBacked bs') held × Differ (f + header_size) held
fresh-IsBacked f bs bs' [] others fresh h = (tt, tt)
fresh-IsBacked f bs bs' ((q, size) ∷ held) others fresh ((g, n, at, fits, live), h) =
    let ne : g ≢ f = λ same. cc (ap (λ x. is_live x n bs) same, live, fresh n) in
    let apart : q ≢ f + header_size = λ same. ne (omega (arith, same, at)) in
    let (later, differ) = fresh-IsBacked f bs bs' held others fresh h in
    (((g, n, at, fits, others g n ne ∙ live), later), (apart, differ))

IsHeld-IsBacked :
    (p : ℕ) (bs : List Block) (held : List (ℕ × ℕ))
    → IsHeld p held
    → All (IsBacked bs) held
    → (f n : ℕ) × (p ≡ f + header_size) × (is_live f n bs ≡ true)
IsHeld-IsBacked p bs [] h backed = absurd h
IsHeld-IsBacked p bs ((q, size) ∷ held) (inl same) ((f, n, at, fits, live), backed) =
    (f, n, sym same ∙ at, live)
IsHeld-IsBacked p bs ((q, size) ∷ held) (inr h) (first, backed) = IsHeld-IsBacked p bs held h backed

HasBlock-IsBacked :
    (p size : ℕ) (bs : List Block) (held : List (ℕ × ℕ))
    → HasBlock p size held
    → All (IsBacked bs) held
    → IsBacked bs (p, size)
HasBlock-IsBacked p size bs [] h backed = absurd h
HasBlock-IsBacked p size bs ((q, n) ∷ held) (inl (same, same_size))
      ((f, k, at, fits, live), backed) =
    (f, k, sym same ∙ at, omega (arith, same_size, fits), live)
HasBlock-IsBacked p size bs ((q, n) ∷ held) (inr h) (first, backed) =
    HasBlock-IsBacked p size bs held h backed

module _ {libc_heap : ℕ} (placed : IsPlaced libc_heap) where
  malloc-Mallocs :
      (size p : ℕ) (h h' : Heap) (bs : List Block) (fs : List ℕ)
      → IsHeap libc_heap h bs fs
      → size + 47 + heap_size < 2 ^ 64
      → Mallocs libc_heap size h p h'
      → Answer libc_heap size h bs fs p h'
  malloc-Mallocs size p h h' bs fs w small (bound, ran) =
      let fuel = suc (bound + length fs) in
      let (q, h'', ran', answer) = malloc-Answer placed w fuel size (omega arith) small in
      let same = sym ran' ∙ ran fuel (omega arith) in
      let same_pointer : q ≡ p = cc same in
      let same_heap : h'' ≡ h' = cc same in
      subst (λ x. Answer libc_heap size h bs fs p x) same_heap
        (subst (λ x. Answer libc_heap size h bs fs x h'') same_pointer answer)

  Answer-given :
      (size p : ℕ) (h h' : Heap) (held : List (ℕ × ℕ)) (bs : List Block) (fs : List ℕ)
      → p ≢ 0
      → All (IsBacked bs) held
      → Distinct held
      → Answer libc_heap size h bs fs p h'
      → Backs libc_heap h' ((p, size) ∷ held)
  Answer-given size p h h' held bs fs ne backed distinct (refused fits room) = absurd (ne refl)
  Answer-given size p h h' held bs fs ne backed distinct (granted f n bs' fs' at enough grant) =
      let (others, differ) = fresh-IsBacked f bs bs' held grant.others grant.fresh backed in
      (
        bs',
        fs',
        grant.formed,
        ((f, n, at, enough, grant.live), others),
        (subst (λ x. Differ x held) (sym at) differ, distinct),
      )

  Answer-denied :
      (size : ℕ) (h h' : Heap) (held : List (ℕ × ℕ)) (bs : List Block) (fs : List ℕ) (p : ℕ)
      → p ≡ 0
      → Backs libc_heap h held
      → Answer libc_heap size h bs fs p h'
      → Backs libc_heap h' held
  Answer-denied size h h' held bs fs p none_given backs (refused fits room) = backs
  Answer-denied size h h' held bs fs p none_given backs (granted f n bs' fs' at enough grant) =
      absurd (omega (arith, none_given, at))

  pub Reaches-Backs :
      (h : Heap) (held : List (ℕ × ℕ)) → Reaches libc_heap h held → Backs libc_heap h held
  Reaches-Backs h held (start m) = ([], [], first_heap-IsHeap libc_heap m, tt, tt)
  Reaches-Backs h' held (denied {h} size small ran reached) =
      let (bs, fs, w, backed, distinct) = Reaches-Backs h held reached in
      Answer-denied size h h' held bs fs 0 refl (bs, fs, w, backed, distinct)
        (malloc-Mallocs size 0 h h' bs fs w small ran)
  Reaches-Backs h' all (given {h} {held = held} size p small ne ran reached) =
      let (bs, fs, w, backed, distinct) = Reaches-Backs h held reached in
      Answer-given size p h h' held bs fs ne backed distinct
        (malloc-Mallocs size p h h' bs fs w small ran)
  Reaches-Backs h' left (released {h} {held} p among reached) =
      let (bs, fs, w, backed, distinct) = Reaches-Backs h held reached in
      let (f, n, at, live) = IsHeld-IsBacked p bs held among backed in
      let freed = free-IsFreed placed w f n live in
      subst (λ q. Backs libc_heap (free q h) (forget q held)) (sym at)
        (
          set_live f false bs,
          f ∷ fs,
          freed.formed,
          forget-IsBacked f bs (set_live f false bs) held freed.others backed,
          Distinct-forget (f + header_size) held distinct,
        )
  Reaches-Backs h' held (written {h} p size m' among writes reached) =
      let (bs, fs, w, backed, distinct) = Reaches-Backs h held reached in
      let (f, n, at, fits, live) = HasBlock-IsBacked p size bs held among backed in
      let inside : WritesIn h.memory m' f n = λ x. elim [
        | inl low ↦ writes x (inl (omega (arith, low, at)))
        | inr high ↦ writes x (inr (omega (arith, high, at, fits)))
      ] in
      (bs, fs, write-IsHeap w f n live m' inside, backed, distinct)
