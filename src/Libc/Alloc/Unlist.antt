-- ===== src/Libc/Alloc/Unlist.antt =====
-- The free list and the blocks when a block is taken out of the list.
use zigu.Base.{
  ℕ, ◌+◌, ◌≤◌, ◌≡◌, ◌⊎◌, inl, inr, refl, arith, true, not, ◌&&◌, ◌==◌, List, [], ◌∷◌, Bool-cases,
  ==→eq,
}
use mathlib.Core.Path.{subst}
use zigu.Memory.{Memory}
use zigu.Libc.Alloc.State.{head, field, header_size, next_free}
use zigu.Libc.Alloc.Layout.{Block, is_free, set_live}
use zigu.Libc.Alloc.Chain.{Chain, Spread, Far, has, without, link_before, link_before_field}

pub has-without :
    (g f : ℕ) (fs : List ℕ) → Spread fs → has g (without f fs) ≡ (has g fs && not (g == f))
has-without g f [] s = refl
has-without g f (x ∷ fs) s = ground (arith, has-without g f fs s.1, s.0 g)

pub is_free-set_live-true :
    (g f : ℕ) (bs : List Block) → is_free g (set_live f true bs) ≡ (is_free g bs && not (g == f))
is_free-set_live-true g f [] = refl
is_free-set_live-true g f (b ∷ bs) = ground (arith, is_free-set_live-true g f bs)

Far-without : (q f : ℕ) (fs : List ℕ) → Spread fs → Far q fs → Far q (without f fs)
Far-without q f fs s far g h = far g (ground (arith, has-without g f fs s))

pub Spread-without : (f : ℕ) (fs : List ℕ) → Spread fs → Spread (without f fs)
Spread-without f [] s = tt
Spread-without f (x ∷ fs) (far, s) = elim (Bool-cases (x == f)) [
  | inl e ↦ rw e s
  | inr e ↦ rw e (Far-without x f fs s far, Spread-without f fs s)
]

-- What is taken out of the list overlaps nothing that is left in it.
pub Far-taken : (f : ℕ) (fs : List ℕ) → Spread fs → has f fs ≡ true → Far f (without f fs)
Far-taken f [] s among g h = cc
Far-taken f (x ∷ fs) (far, s) among g h = elim (Bool-cases (x == f)) [
  | inl e ↦
      subst (λ q. (q + header_size ≤ g) ⊎ (g + header_size ≤ q)) (==→eq x f e) (far g (rw e at h))
  | inr e ↦ let hf : has f fs ≡ true = ground arith in behind hf (Far-taken f fs s hf g) (rw e at h)
]
  where
    behind :
        has f fs ≡ true
        → (has g (without f fs) ≡ true → (f + header_size ≤ g) ⊎ (g + header_size ≤ f))
        → has g (x ∷ without f fs) ≡ true
        → (f + header_size ≤ g) ⊎ (g + header_size ≤ f)
    behind hf rest hg = ground (arith, rest, far f hf)

-- Where the link in front of `f` stands.
pub link_before_head :
    (f : ℕ) (fs : List ℕ)
    → (link_before head f fs ≡ head)
      ⊎ ((x : ℕ) × (link_before head f fs ≡ field x) × (has x fs ≡ true))
link_before_head f [] = inl refl
link_before_head f (g ∷ fs) = elim (Bool-cases (g == f)) [
  | inl e ↦ inl (rw e)
  | inr e ↦ rw e (inr (link_before_field g f fs))
]

-- What `next_free` of a listed block holds: `NULL`, or a listed block.
pub Chain-next :
    (m : Memory) (p f : ℕ) (fs : List ℕ)
    → Chain m p fs
    → has f fs ≡ true
    → (next_free m f ≡ 0) ⊎ (has (next_free m f) fs ≡ true)
Chain-next m p f [] c among = cc
Chain-next m p f (g ∷ []) (at, ne, c) among = inl (ground arith)
Chain-next m p f (g ∷ g' ∷ fs) (at, ne, c) among =
    ground (arith, Chain-next m (next_free m g) f (g' ∷ fs) c)
