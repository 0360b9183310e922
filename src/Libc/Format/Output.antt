-- ===== src/Libc/Format/Output.antt =====
-- What the `put_*` functions leave in the buffer.
use zigu.Base.{
  ℕ, zero, suc, ◌+◌, ◌-◌, ◌%◌, ◌^◌, ◌≤◌, ◌<◌, ◌≡◌, ◌≢◌, ◌⊎◌, ◌&&◌, ltb, leb, false, inl,
  if◌then◌else◌, List, [], ◌∷◌, ◌++◌, length, length-append, length-replicate, replicate, get_or,
  refl, sym, ap, ◌∙◌, fun_ext, arith, Run, done,
}
use zigu.Base.Int.{ℤ, negsuc, pos_part, neg_part}
use zigu.Memory.{Memory, poke}
use zigu.Libc.Format.{Out, put_char, put_list, put_pad, put_uint, put_int, digits}
use zigu.Libc.Format.Digits.{Spells, digits-Spells}

-- The digits of `v`, as `put_uint` makes them.
abbrev pub digits_of : Run (List ℕ) → List ℕ
digits_of (done cs) = cs
digits_of _ = []

abbrev pub numeral : ℕ → ℕ → List ℕ
numeral base v = digits_of (digits base v)

pub numeral-Spells :
    (base v : ℕ)
    → (base ≡ 10) ⊎ (base ≡ 16)
    → v < 2 ^ 64
    → (digits base v ≡ done (numeral base v)) × Spells base 20 v (numeral base v)
numeral-Spells base v hb h =
    let (cs, e, spelled) = digits-Spells base v hb h in
    let same : numeral base v ≡ cs = ap digits_of e in rw same (e, spelled)

-- `cs` on the right of a field of `width` characters
abbrev pub padded : ℕ → ℕ → List ℕ → List ℕ
padded width pad cs = replicate (width - length cs) pad ++ cs

-- The text of a signed number: a negative one has its sign on the left of the padding.
abbrev pub int_text : ℤ → ℕ → ℕ → List ℕ
int_text (ℤ.pos n) width pad = padded width pad (numeral 10 n)
int_text (negsuc n) width pad = b'-' ∷ padded (width - 1) pad (numeral 10 (suc n))

Out-ext :
    (out other : Out)
    → out.pos ≡ other.pos
    → ((a : ℕ) → out.memory a ≡ other.memory a)
    → out ≡ other
Out-ext out other hp hm i = record { pos = hp i; memory = fun_ext hm i }

module _ (buf size : ℕ) where
  -- Memory with `text` at `pos` of the buffer, cut off in front of the buffer's last byte.
  abbrev pub with_text : ℕ → List ℕ → Memory → Memory
  with_text p text m a =
      if leb (buf + p) a && (ltb a (buf + p + length text) && ltb a (buf + (size - 1)))
      then get_or text (a - (buf + p)) 0
      else m a

  get_or-cons :
      (c : ℕ) (cs : List ℕ) (i : ℕ)
      → get_or (c ∷ cs) i 0 ≡ (if leb i 0 then c else get_or cs (i - 1) 0)
  get_or-cons c cs zero = refl
  get_or-cons c cs (suc i) = ground arith

  with_text-poke :
      (p c : ℕ) (cs : List ℕ) (m : Memory) (a : ℕ)
      → with_text (p + 1) cs (if ltb p (size - 1) then poke m (buf + p) c else m) a
        ≡ with_text p (c ∷ cs) m a
  with_text-poke p c cs m a =
      let next : a - (buf + (p + 1)) ≡ a - (buf + p) - 1 = omega arith in
      rw next ground (arith, get_or-cons c cs (a - (buf + p)))

  -- Room in `pos` for `n` more characters.
  abbrev pub Counts : ℕ → Out → Type 0
  Counts n out = (size ≢ 0) × (size < 2 ^ 64) × (out.pos + n < 2 ^ 64)

  abbrev pub shown : List ℕ → Out → Out
  shown text out = record {
    pos = out.pos + length text;
    memory = with_text out.pos text out.memory;
  }

  put_char-pos :
      (c : ℕ) (out : Out)
      → Counts 1 out
      → put_char buf size c out ≡ record {
        pos = out.pos + 1;
        memory = if ltb out.pos (size - 1) then poke out.memory (buf + out.pos) c else out.memory;
      }
  unfolding put_char
  put_char-pos c out (h0, h, hp) =
      let next : (out.pos + 1) % 2 ^ 64 ≡ out.pos + 1 = omega arith in
      let room : (size + 2 ^ 64 - 1) % 2 ^ 64 ≡ size - 1 = omega arith in rw (next, room) refl

  pub put_list-shown :
      (text : List ℕ) (out : Out)
      → Counts (length text) out
      → put_list buf size text out ≡ shown text out
  unfolding put_list
  put_list-shown [] out h = Out-ext out (shown [] out) (omega arith) (λ a. ground arith)
  put_list-shown (c ∷ cs) out (h0, h, hp) =
      let step : Out = record {
        pos = out.pos + 1;
        memory = if ltb out.pos (size - 1) then poke out.memory (buf + out.pos) c else out.memory;
      } in
      rw (put_char-pos c out (h0, h, omega arith)) (
        put_list-shown cs step (h0, h, omega arith)
        ∙ Out-ext (shown cs step) (shown (c ∷ cs) out) (omega arith)
            (λ a. with_text-poke out.pos c cs out.memory a))

  pub put_list-append :
      (xs ys : List ℕ) (out : Out)
      → put_list buf size (xs ++ ys) out ≡ put_list buf size ys (put_list buf size xs out)
  unfolding put_list
  put_list-append [] ys out = refl
  put_list-append (x ∷ xs) ys out = put_list-append xs ys (put_char buf size x out)

  put_pad-replicate :
      (n pad : ℕ) (out : Out) → put_pad buf size n pad out ≡ put_list buf size (replicate n pad) out
  unfolding put_pad put_list
  put_pad-replicate zero pad out = refl
  put_pad-replicate (suc n) pad out = put_pad-replicate n pad (put_char buf size pad out)

  pub put_uint-numeral :
      (val base width pad : ℕ) (out : Out)
      → (base ≡ 10) ⊎ (base ≡ 16)
      → val < 2 ^ 64
      → put_uint buf size val base width pad out
        ≡ done (put_list buf size (padded width pad (numeral base val)) out)
  unfolding put_uint
  put_uint-numeral val base width pad out hb h =
      let (e, spelled) = numeral-Spells base val hb h in
      let n = width - length (numeral base val) in
      rw
        (
          e,
          put_pad-replicate n pad out,
          sym (put_list-append (replicate n pad) (numeral base val) out),
        )
        refl

  -- `put_uint` in base 10 or 16 writes the digits of the value, on the left of them as many `pad`
  -- characters as are missing from the width, cut off in front of the buffer's last byte; `pos` counts
  -- all of them. The digits spell the value, and there are at most 20.
  pub put_uint-shown :
      (val base width pad : ℕ) (out : Out)
      → (base ≡ 10) ⊎ (base ≡ 16)
      → val < 2 ^ 64
      → Counts (width + 20) out
      → Spells base 20 val (numeral base val)
        × (put_uint buf size val base width pad out
            ≡ done (shown (padded width pad (numeral base val)) out))
  put_uint-shown val base width pad out hb h (h0, hs, hp) =
      let (e, spelled) = numeral-Spells base val hb h in
      let cs = numeral base val in
      let fits : Counts (length (padded width pad cs)) out = (
        h0,
        hs,
        omega (
          arith,
          spelled,
          length-append (replicate (width - length cs) pad) cs,
          length-replicate (width - length cs) pad,
        ),
      ) in
      (
        spelled,
        put_uint-numeral val base width pad out hb h
            ∙ ap done (put_list-shown (padded width pad cs) out fits),
      )

  pub put_int-text :
      (z : ℤ) (width pad : ℕ) (out : Out)
      → pos_part z < 2 ^ 63
      → neg_part z < 2 ^ 63
      → put_int buf size z width pad out ≡ done (put_list buf size (int_text z width pad) out)
  unfolding put_int put_list
  put_int-text (ℤ.pos n) width pad out h k =
      put_uint-numeral n 10 width pad out (inl refl) (omega arith)
  put_int-text (negsuc n) width pad out h k =
      let defined : leb (2 ^ 63 - 1) n ≡ false = ground arith in
      let less : (if ltb 0 width then width - 1 else 0) ≡ width - 1 = ground arith in
      rw (defined, less)
        (put_uint-numeral (suc n) 10 (width - 1) pad (put_char buf size b'-' out) (inl refl)
          (omega arith))

  -- Nothing outside the buffer changes.
  pub put_list-frame :
      (text : List ℕ) (out : Out) (a : ℕ)
      → size ≢ 0
      → size < 2 ^ 64
      → (a < buf) ⊎ (buf + size ≤ a)
      → (put_list buf size text out).memory a ≡ out.memory a
  unfolding put_list put_char
  put_list-frame [] out a h0 h ha = refl
  put_list-frame (c ∷ cs) out a h0 h ha =
      let room : (size + 2 ^ 64 - 1) % 2 ^ 64 ≡ size - 1 = omega arith in
      put_list-frame cs (put_char buf size c out) a h0 h ha ∙ rw room ground arith
