-- ===== src/Libc/Format/Directive/Printed.antt =====
-- What `vsnprintf` prints for a list of pieces.
use Prim.Native.Nat.{min}
use zigu.Base.{
  ℕ, zero, suc, ◌+◌, ◌-◌, ◌%◌, ◌^◌, ◌≤◌, ◌<◌, ◌≡◌, ◌≢◌, ◌⊎◌, ltb, true, if◌then◌else◌, inl, inr,
  List, [], ◌∷◌, ◌++◌, length, append_assoc, refl, ◌∙◌, arith, done, ne→==, lt→ltb,
}
use zigu.Base.Int.{ℤ}
use zigu.Memory.{Memory, poke}
use zigu.Libc.Strings.IsString.{IsString, IsString-frame}
use zigu.Libc.Format.{Out, put_list}
use zigu.Libc.Format.Directive.{format_loop, vsnprintf}
use zigu.Libc.Format.Output.{put_list-frame, put_list-append, put_list-shown, with_text}
use zigu.Libc.Format.Directive.Pieces.{
  Piece, literal, directive, text_of, slots, format, all_slots, text, Plain, format_loop-directive,
  format_loop-literal,
}

module _ (buf size : ℕ) where
  -- The `n` bytes from `s` on are outside the buffer.
  abbrev pub Apart : ℕ → ℕ → Type 0
  Apart s n = (s + n ≤ buf) ⊎ (buf + size ≤ s)

  abbrev pub Room : Type 0
  Room = (size ≢ 0) × (size < 2 ^ 64)

  IsString-put_list :
      (s : ℕ) (xs cs : List ℕ) (out : Out)
      → Room
      → Apart s (suc (length xs))
      → IsString out.memory s xs
      → IsString (put_list buf size cs out).memory s xs
  IsString-put_list s xs cs out (h0, h) apart str =
      IsString-frame out.memory (put_list buf size cs out).memory s xs
        (λ a low high.
          put_list-frame buf size cs out a h0 h
            (elim apart [ inl below ↦ inl (omega arith) | inr above ↦ inr (omega arith) ]))
        str

  Apart-next : (s n : ℕ) → Apart s (suc n) → Apart (s + 1) n
  Apart-next s n (inl below) = inl (omega arith)
  Apart-next s n (inr above) = inr (omega arith)

  format_loop-text :
      (ps : List Piece) (fuel fmt : ℕ) (ap : List ℕ) (out : Out)
      → length ps < fuel
      → Plain ps
      → Room
      → Apart fmt (suc (length (format ps)))
      → IsString out.memory fmt (format ps)
      → format_loop buf size fuel fmt (all_slots ps ++ ap) out
        ≡ done (put_list buf size (text ps) out)
  unfolding format_loop put_list
  format_loop-text ps zero fmt ap out enough plain room apart str = absurd (omega arith)
  format_loop-text [] (suc fuel) fmt ap out enough plain room apart str = rw str refl
  format_loop-text (literal c ∷ ps) (suc fuel) fmt ap out enough (hp, plain) room apart
        (at, h0, str) =
      let next = Apart-next fmt (suc (length (format ps))) apart in
      let kept = IsString-put_list (fmt + 1) (format ps) (c ∷ []) out room next str in
      format_loop-literal buf size fuel fmt c (all_slots ps ++ ap) out at h0 hp
      ∙ format_loop-text ps fuel (fmt + 1) ap (put_list buf size (c ∷ []) out) (omega arith) plain
          room next kept
  format_loop-text (directive d ∷ ps) (suc fuel) fmt ap out enough plain room apart
        (at, h0, (at1, h1, str)) =
      let n = suc (length (format ps)) in
      let next = Apart-next (fmt + 1) n (Apart-next fmt (suc n) apart) in
      let kept = IsString-put_list (fmt + 1 + 1) (format ps) (text_of d) out room next str in
      rw
        (
          append_assoc (slots d) (all_slots ps) ap,
          put_list-append buf size (text_of d) (text ps) out,
        )
        (format_loop-directive buf size fuel fmt d (all_slots ps ++ ap) out at at1
          ∙ format_loop-text ps fuel (fmt + 1 + 1) ap (put_list buf size (text_of d) out)
              (omega arith) plain room next kept)

  -- For a format of characters and directives without flag, width and length modifier (`%d`, `%u`,
  -- `%x`, `%p`, `%c`, `%%`), which stands outside the buffer, for a size that is not 0 and below `2 ^ 64` and
  -- a text shorter than `2 ^ 31`, `vsnprintf` puts the text that it describes, with numbers in base 10 or 16 without leading zeros,
  -- into the buffer, cut off at `size - 1` characters, and a 0 behind it, changes nothing else, and
  -- returns the length of the whole text. Fuel above the number of pieces is enough.
  pub vsnprintf-text :
      (ps : List Piece) (fuel fmt : ℕ) (ap : List ℕ) (m : Memory)
      → length ps < fuel
      → Plain ps
      → Room
      → Apart fmt (suc (length (format ps)))
      → IsString m fmt (format ps)
      → length (text ps) < 2 ^ 31
      → vsnprintf fuel buf size fmt (all_slots ps ++ ap) m
        ≡ done (
          ℤ.pos (length (text ps)),
          poke (with_text buf size 0 (text ps) m) (buf + min (length (text ps)) (size - 1)) 0,
        )
  unfolding vsnprintf
  vsnprintf-text ps fuel fmt ap m enough plain room apart str small =
      let start : Out = record { pos = 0; memory = m } in
      let loop = format_loop-text ps fuel fmt ap start enough plain room apart str in
      let printed = put_list-shown buf size (text ps) start (room.0, room.1, omega arith) in
      let some_room = ne→== size 0 room.0 in
      let n = length (text ps) in
      let counted : 0 + n ≡ n = omega arith in
      let uncut : n % 2 ^ 32 ≡ n = omega arith in
      let positive : ltb n (2 ^ 31) ≡ true = lt→ltb n (2 ^ 31) small in
      let last : (if ltb n size then n else size - 1) ≡ min n (size - 1) = ground arith in
      rw (some_room, loop, printed, counted, uncut, positive, last) refl
