-- ===== src/Libc/Alloc/Payload.antt =====
-- A write into the bytes of a live block leaves the heap well formed.
use zigu.Base.{ℕ, ◌+◌, ◌<◌, ◌≤◌, ◌≡◌, ◌⊎◌, arith, true, List, ◌∙◌, sym, ap, ◌≢◌}
use zigu.Memory.{Memory}
use zigu.Memory.Word.{load64, load64_frame}
use zigu.Libc.Alloc.State.{Heap, header_size}
use zigu.Libc.Alloc.Layout.{Block, is_header, is_live, payload_apart}
use zigu.Libc.Alloc.Chain.{Chain-frame}
use zigu.Libc.Alloc.Writes.{Tiles-frame}
use zigu.Libc.Alloc.LiveSet.{live_disjoint}
use zigu.Libc.Alloc.Contract.{IsGrant}
use zigu.Libc.Alloc.Invariant.{IsHeap, is_free-header}

-- `m'` is `m` but for bytes in the live block of `n` bytes behind the header `f`.
abbrev pub WritesIn : Memory → Memory → ℕ → ℕ → Type 0
WritesIn m m' f n = (x : ℕ) → (x < f + header_size) ⊎ (f + header_size + n ≤ x) → m' x ≡ m x

module _ {libc_heap : ℕ} {h : Heap} {bs : List Block} {fs : List ℕ} (w : IsHeap libc_heap h bs fs)
    (f n : ℕ) (live : is_live f n bs ≡ true) (m' : Memory) (inside : WritesIn h.memory m' f n) where
  same_word :
      (q k : ℕ)
      → is_header q bs ≡ true
      → k + 8 ≤ header_size
      → load64 m' (q + k) ≡ load64 h.memory (q + k)
  same_word q k hq small = load64_frame h.memory m' (q + k) same_byte
    where
      apart :
          (x : ℕ) → f + header_size ≤ x → x < f + header_size + n → (x < q) ⊎ (q + header_size ≤ x)
      apart x =
          payload_apart h.memory f n q x libc_heap (libc_heap + h.heap_offset) bs w.tiles live hq

      same_byte : (i : ℕ) → i < 8 → m' (q + k + i) ≡ h.memory (q + k + i)
      same_byte i lt = inside (q + k + i) (ground (arith, apart (q + k + i)))

  pub write-IsHeap : IsHeap libc_heap (record h { memory = m' }) bs fs
  write-IsHeap = record {
    tiles =
        Tiles-frame h.memory m' libc_heap (libc_heap + h.heap_offset) bs
          (λ q hq. (ground (arith, same_word q 0 hq), same_word q 16 hq (omega arith))) w.tiles;
    within = w.within;
    chain =
        Chain-frame h.memory m' h.free_list fs
          (λ q hq. same_word q 8 (is_free-header q bs (sym (w.listed q) ∙ hq)) (omega arith))
          w.chain;
    spread = w.spread;
    listed = w.listed;
  }

-- A write into the block that was just granted leaves it a grant.
pub IsGrant-write :
    {libc_heap : ℕ} {h h' : Heap} {bs bs' : List Block} {fs' : List ℕ} {f n : ℕ}
    → IsGrant libc_heap h h' bs bs' fs' f n
    → (m' : Memory) → WritesIn h'.memory m' f n
    → IsGrant libc_heap h (record h' { memory = m' }) bs bs' fs' f n
IsGrant-write {libc_heap} {h' = h'} {bs} {bs'} {f} {n} grant m' inside = record {
  formed = write-IsHeap grant.formed f n grant.live m' inside;
  live = grant.live;
  fresh = grant.fresh;
  others = grant.others;
  kept = λ g k x live low high.
      let other : g ≢ f = λ e. cc (ap (λ q. is_live q k bs) e, live, grant.fresh k) in
      inside x (
        ground (
          arith,
          live_disjoint h'.memory f n g k libc_heap (libc_heap + h'.heap_offset) bs'
              grant.formed.tiles grant.live (grant.others g k other ∙ live) (λ e. other (sym e)),
        ))
      ∙ grant.kept g k x live low high;
}
