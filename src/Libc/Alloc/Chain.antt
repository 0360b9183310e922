-- ===== src/Libc/Alloc/Chain.antt =====
-- The free list: the headers that `next_free` leads through, and what unlinking one does.
use zigu.Base.{
  ℕ, ◌+◌, ◌^◌, ◌<◌, ◌≤◌, ◌≡◌, ◌≢◌, ◌⊎◌, inl, inr, refl, arith, Bool, true, false, ◌==◌, ◌||◌,
  if◌then◌else◌, List, [], ◌∷◌, Bool-cases, ◌∙◌, ap, ==→eq,
}
use mathlib.Core.Path.{subst}
use zigu.Memory.{Memory}
use zigu.Memory.Word.{store64, load64-store64_self, load64-store64_apart}
use zigu.Libc.Alloc.State.{Heap, Link, head, field, read_link, write_link, next_free, header_size}

-- From `p` the `next_free` fields lead through the headers `fs` to `NULL`.
abbrev pub Chain : Memory → ℕ → List ℕ → Type 0
Chain m p [] = p ≡ 0
Chain m p (f ∷ fs) = (p ≡ f) × (f ≢ 0) × Chain m (next_free m f) fs

abbrev pub has : ℕ → List ℕ → Bool
has f [] = false
has f (g ∷ fs) = g == f || has f fs

abbrev pub without : ℕ → List ℕ → List ℕ
without f [] = []
without f (g ∷ fs) = if g == f then fs else g ∷ without f fs

-- The header at `q` overlaps none of these; no two of these overlap.
abbrev pub Far : ℕ → List ℕ → Type 0
Far q fs = (g : ℕ) → has g fs ≡ true → (q + header_size ≤ g) ⊎ (g + header_size ≤ q)

abbrev pub Spread : List ℕ → Type 0
Spread [] = Unit
Spread (f ∷ fs) = Far f fs × Spread fs

abbrev pub LinkFar : Link → List ℕ → Type 0
LinkFar head fs = Unit
LinkFar (field q) fs = Far q fs

-- The link in front of `f`, in a list that `l` leads to.
abbrev pub link_before : Link → ℕ → List ℕ → Link
link_before l f [] = l
link_before l f (g ∷ fs) = if g == f then l else link_before (field g) f fs

pub Chain-frame :
    (m m' : Memory) (p : ℕ) (fs : List ℕ)
    → ((g : ℕ) → has g fs ≡ true → next_free m' g ≡ next_free m g)
    → Chain m p fs
    → Chain m' p fs
Chain-frame m m' p [] same c = c
Chain-frame m m' p (f ∷ fs) same (at, ne, rest) = (
  at,
  ne,
  rw (same f (ground arith))
      (Chain-frame m m' (next_free m f) fs (λ g h. same g (ground arith)) rest),
)

pub Chain-store-Far :
    (m : Memory) (q k v p : ℕ) (fs : List ℕ)
    → k + 8 ≤ header_size
    → Far q fs
    → Chain m p fs
    → Chain (store64 m (q + k) v) p fs
Chain-store-Far m q k v p fs small far c =
    Chain-frame m (store64 m (q + k) v) p fs
      (λ g h. load64-store64_apart m (q + k) (g + 8) v (apart g (far g h))) c
  where
    apart :
        (g : ℕ)
        → (q + header_size ≤ g) ⊎ (g + header_size ≤ q)
        → (q + k + 8 ≤ g + 8) ⊎ (g + 8 + 8 ≤ q + k)
    apart g (inl h) = inl (omega arith)
    apart g (inr h) = inr (omega arith)

pub link_before_field :
    (g f : ℕ) (fs : List ℕ)
    → (x : ℕ) × (link_before (field g) f fs ≡ field x) × (has x (g ∷ fs) ≡ true)
link_before_field g f [] = (g, refl, ground arith)
link_before_field g f (g' ∷ fs) = elim (Bool-cases (g' == f)) [
  | inl e ↦ (g, rw e, ground arith)
  | inr e ↦ let (x, is, among) = link_before_field g' f fs in (x, rw e is, ground arith)
]

-- A link leads to what is written to it; and a write to the `next_free` of a header changes no link
-- that stands elsewhere.
Chain-write_link :
    (l : Link) (v : ℕ) (fs : List ℕ) (h : Heap)
    → v < 2 ^ 64
    → LinkFar l fs
    → Chain h.memory v fs
    → Chain (write_link l v h).memory (read_link l (write_link l v h)) fs
Chain-write_link head v fs h v_lt far c = c
Chain-write_link (field q) v fs h v_lt far c =
    rw (load64-store64_self h.memory (q + 8) v v_lt)
      (Chain-store-Far h.memory q 8 v v fs (omega arith) far c)

read_link_other :
    (l : Link) (x v : ℕ) (fs : List ℕ) (h : Heap)
    → has x fs ≡ true
    → LinkFar l fs
    → read_link l (write_link (field x) v h) ≡ read_link l h
read_link_other head x v fs h among far = refl
read_link_other (field q) x v fs h among far =
    load64-store64_apart h.memory (x + 8) (q + 8) v (ground (arith, far x among))

-- Unlinking `f` leaves the list without it.
pub Chain-unlink :
    (f v : ℕ) (l : Link) (fs : List ℕ) (h : Heap)
    → v < 2 ^ 64
    → has f fs ≡ true
    → next_free h.memory f ≡ v
    → Spread fs
    → LinkFar l fs
    → Chain h.memory (read_link l h) fs
    → Chain
        (write_link (link_before l f fs) v h).memory
        (read_link l (write_link (link_before l f fs) v h))
        (without f fs)
Chain-unlink f v l [] h v_lt among e spread far c = cc
Chain-unlink f v l (g ∷ fs) h v_lt among e spread far (at, ne, rest) = elim (Bool-cases (g == f)) [
  | inl hit ↦ rw hit (
      Chain-write_link l v fs h v_lt (LinkFar_tail l far)
        (subst (λ p. Chain h.memory p fs) (next_is hit) rest))
  | inr miss ↦ rw miss (
      let (x, is, here) = link_before_field g f fs in
      (
        rw is (read_link_other l x v (g ∷ fs) h here far ∙ at),
        ne,
        Chain-unlink f v (field g) fs h v_lt (ground arith) e spread.1 spread.0 rest,
      ))
]
  where
    LinkFar_tail : (k : Link) → LinkFar k (g ∷ fs) → LinkFar k fs
    LinkFar_tail head far' = tt
    LinkFar_tail (field q) far' = λ z hz. far' z (ground arith)

    next_is : (g == f) ≡ true → next_free h.memory g ≡ v
    next_is hit = ap (λ z. next_free h.memory z) (==→eq g f hit) ∙ e
