-- ===== src/Libc/Format/Directive/Pieces.antt =====
-- Formats made of characters and of directives without flag, width and length modifier.
use zigu.Base.{
  ℕ, suc, ◌+◌, ◌%◌, ◌^◌, ◌<◌, ◌≡◌, ◌≢◌, ◌==◌, ◌&&◌, leb, false, inl, inr, List, [], ◌∷◌, ◌++◌,
  length, replicate, refl, ap, ◌∙◌, ◌-◌, ◌⊎◌, arith, done, ne→==,
}
use zigu.Base.Int.{ℤ, negsuc, pos_part, neg_part}
use zigu.Memory.{Memory}
use zigu.Libc.Format.{Out, put_list}
use zigu.Libc.Format.Directive.{
  Spec, read_spec, width_loop, length_modifier, convert, next_slot, signed, format_loop,
}
use zigu.Libc.Format.Output.{numeral, padded, int_text, put_uint-numeral, put_int-text}
use zigu.Libc.Format.Numbers.{written_in, numeral-written_in}

-- `%d`, `%u`, `%x`, `%p`, `%c` with their slots, and `%%`
pub data Directive : Type 0 where
  decimal : ℕ → Directive
  unsigned : ℕ → Directive
  hex : ℕ → Directive
  pointer : ℕ → Directive
  character : ℕ → Directive
  percent : Directive

pub data Piece : Type 0 where
  literal : ℕ → Piece
  directive : Directive → Piece

abbrev pub letter : Directive → ℕ
letter (decimal x) = b'd'
letter (unsigned x) = b'u'
letter (hex x) = b'x'
letter (pointer x) = b'p'
letter (character x) = b'c'
letter percent = b'%'

abbrev pub slots : Directive → List ℕ
slots (decimal x) = x ∷ []
slots (unsigned x) = x ∷ []
slots (hex x) = x ∷ []
slots (pointer x) = x ∷ []
slots (character x) = x ∷ []
slots percent = []

-- A signed number in base 10.
abbrev pub signed_text : ℤ → List ℕ
signed_text (ℤ.pos n) = written_in 10 n
signed_text (negsuc n) = b'-' ∷ written_in 10 (suc n)

-- What a directive prints.
abbrev pub text_of : Directive → List ℕ
text_of (decimal x) = signed_text (signed 32 x)
text_of (unsigned x) = written_in 10 (x % 2 ^ 32)
text_of (hex x) = written_in 16 (x % 2 ^ 32)
text_of (pointer x) = b'0' ∷ b'x' ∷ written_in 16 (x % 2 ^ 64)
text_of (character x) = x % 256 ∷ []
text_of percent = b'%' ∷ []

-- The format, the slots and the text of a list of pieces.
abbrev pub format : List Piece → List ℕ
format [] = []
format (literal c ∷ ps) = c ∷ format ps
format (directive d ∷ ps) = b'%' ∷ letter d ∷ format ps

abbrev pub all_slots : List Piece → List ℕ
all_slots [] = []
all_slots (literal c ∷ ps) = all_slots ps
all_slots (directive d ∷ ps) = slots d ++ all_slots ps

abbrev pub text : List Piece → List ℕ
text [] = []
text (literal c ∷ ps) = c ∷ text ps
text (directive d ∷ ps) = text_of d ++ text ps

-- No literal is `%`.
abbrev pub Plain : List Piece → Type 0
Plain [] = Unit
Plain (literal c ∷ ps) = (c ≢ b'%') × Plain ps
Plain (directive d ∷ ps) = Plain ps

abbrev no_modifier : ℕ → Spec
no_modifier fmt = record { pad = b' '; width = 0; is_long = 0; is_size = false; fmt = fmt }

length_modifier-none :
    (fmt : ℕ) (m : Memory)
    → (m fmt == b'l') ≡ false
    → (m fmt == b'z') ≡ false
    → length_modifier fmt m ≡ (0, false, fmt)
unfolding length_modifier
length_modifier-none fmt m hl hz = rw (hl, hz) refl

read_spec-none :
    (fuel fmt : ℕ) (m : Memory)
    → (m fmt == b'0') ≡ false
    → (leb b'0' (m fmt) && leb (m fmt) b'9') ≡ false
    → (m fmt == b'l') ≡ false
    → (m fmt == b'z') ≡ false
    → read_spec (suc fuel) fmt m ≡ done (no_modifier fmt)
unfolding read_spec width_loop
read_spec-none fuel fmt m h0 hd hl hz = rw (h0, hd, length_modifier-none fmt m hl hz) refl

read_spec-letter :
    (fuel fmt : ℕ) (m : Memory) (d : Directive)
    → m fmt ≡ letter d
    → read_spec (suc fuel) fmt m ≡ done (no_modifier fmt)
read_spec-letter fuel fmt m (decimal x) e =
    read_spec-none fuel fmt m (rw e refl) (rw e refl) (rw e refl) (rw e refl)
read_spec-letter fuel fmt m (unsigned x) e =
    read_spec-none fuel fmt m (rw e refl) (rw e refl) (rw e refl) (rw e refl)
read_spec-letter fuel fmt m (hex x) e =
    read_spec-none fuel fmt m (rw e refl) (rw e refl) (rw e refl) (rw e refl)
read_spec-letter fuel fmt m (pointer x) e =
    read_spec-none fuel fmt m (rw e refl) (rw e refl) (rw e refl) (rw e refl)
read_spec-letter fuel fmt m (character x) e =
    read_spec-none fuel fmt m (rw e refl) (rw e refl) (rw e refl) (rw e refl)
read_spec-letter fuel fmt m percent e =
    read_spec-none fuel fmt m (rw e refl) (rw e refl) (rw e refl) (rw e refl)

signed-bounds : (x : ℕ) → (pos_part (signed 32 x) < 2 ^ 63) × (neg_part (signed 32 x) < 2 ^ 63)
signed-bounds x = (ground arith, ground arith)

-- Without a width there is no padding.
padded-numeral :
    (pad base v : ℕ)
    → (base ≡ 10) ⊎ (base ≡ 16)
    → v < 2 ^ 64
    → padded 0 pad (numeral base v) ≡ written_in base v
padded-numeral pad base v hb h =
    let none_left : 0 - length (numeral base v) ≡ 0 = omega arith in
    ap (λ n. replicate n pad ++ numeral base v) none_left ∙ numeral-written_in base v hb h

int_text-signed_text :
    (z : ℤ) → pos_part z < 2 ^ 63 → neg_part z < 2 ^ 63 → int_text z 0 b' ' ≡ signed_text z
int_text-signed_text (ℤ.pos n) h k = padded-numeral b' ' 10 n (inl refl) (omega (arith, h))
int_text-signed_text (negsuc n) h k =
    ap (λ l. b'-' ∷ l) (padded-numeral b' ' 10 (suc n) (inl refl) (omega (arith, k)))

module _ (buf size : ℕ) where
  convert-text_of :
      (fuel fmt : ℕ) (d : Directive) (ap : List ℕ) (out : Out)
      → convert buf size fuel (no_modifier fmt) (letter d) (slots d ++ ap) out
        ≡ done (ap, put_list buf size (text_of d) out)
  unfolding convert next_slot put_list
  convert-text_of fuel fmt (decimal x) rest out =
      let (h, k) = signed-bounds x in
      rw (put_int-text buf size (signed 32 x) 0 b' ' out h k)
        (ap (λ l. done (rest, put_list buf size l out)) (int_text-signed_text (signed 32 x) h k))
  convert-text_of fuel fmt (unsigned x) rest out =
      let digits = padded-numeral b' ' 10 (x % 2 ^ 32) (inl refl) (omega arith) in
      rw (put_uint-numeral buf size (x % 2 ^ 32) 10 0 b' ' out (inl refl) (omega arith))
        (ap (λ l. done (rest, put_list buf size l out)) digits)
  convert-text_of fuel fmt (hex x) rest out =
      let digits = padded-numeral b' ' 16 (x % 2 ^ 32) (inr refl) (omega arith) in
      rw (put_uint-numeral buf size (x % 2 ^ 32) 16 0 b' ' out (inr refl) (omega arith))
        (ap (λ l. done (rest, put_list buf size l out)) digits)
  convert-text_of fuel fmt (pointer x) rest out =
      let prefixed = put_list buf size (b'0' ∷ b'x' ∷ []) out in
      let digits = padded-numeral b'0' 16 (x % 2 ^ 64) (inr refl) (omega arith) in
      rw (put_uint-numeral buf size (x % 2 ^ 64) 16 0 b'0' prefixed (inr refl) (omega arith))
        (ap (λ l. done (rest, put_list buf size l prefixed)) digits)
  convert-text_of fuel fmt (character x) rest out = refl
  convert-text_of fuel fmt percent rest out = refl

  pub format_loop-directive :
      (fuel fmt : ℕ) (d : Directive) (ap : List ℕ) (out : Out)
      → out.memory fmt ≡ b'%'
      → out.memory (fmt + 1) ≡ letter d
      → format_loop buf size (suc fuel) fmt (slots d ++ ap) out
        ≡ format_loop buf size fuel (fmt + 1 + 1) ap (put_list buf size (text_of d) out)
  unfolding format_loop
  format_loop-directive fuel fmt d ap out e el =
      let spec = read_spec-letter fuel (fmt + 1) out.memory d el in
      let converted = convert-text_of (suc fuel) (fmt + 1) d ap out in
      rw (e, spec, el, converted) refl

  pub format_loop-literal :
      (fuel fmt c : ℕ) (ap : List ℕ) (out : Out)
      → out.memory fmt ≡ c
      → c ≢ 0
      → c ≢ b'%'
      → format_loop buf size (suc fuel) fmt ap out
        ≡ format_loop buf size fuel (fmt + 1) ap (put_list buf size (c ∷ []) out)
  unfolding format_loop put_list
  format_loop-literal fuel fmt c ap out e h0 hp = rw (e, ne→== c 0 h0, ne→== c b'%' hp) refl
