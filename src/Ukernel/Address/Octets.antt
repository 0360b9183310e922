-- ===== src/Ukernel/Address/Octets.antt =====
-- What texts `parse_ip` accepts, and what it reads.
use zigu.Base.{
  ℕ, zero, suc, ◌+◌, ◌-◌, ◌*◌, ◌%◌, ◌^◌, ◌≤◌, ◌≡◌, ◌==◌, ◌&&◌, ltb, leb, if◌then◌else◌, Option,
  none, some, List, [], ◌∷◌, ◌++◌, get_or, set, refl, sym, arith, ap, replicate, ◌≢◌, Bool-cases,
  leb→le, inl, inr, length, All, append_assoc, length-append, length-replicate,
}
use mathlib.Core.Option
use zigu.Memory.{Memory, bytes_at}
use zigu.Ukernel.Address.{Ip, parse_loop, finish, parse_ip}

-- The values of the parts of a text between its dots, `v` being what the first part starts from: `none`
-- where a byte is neither a dot nor a digit, or a value passes 255. An empty part has the value 0.
unfoldable pub parts_of : ℕ → List ℕ → Option (List ℕ)
parts_of v [] = some (v ∷ [])
parts_of v (c ∷ text) =
    let value = v * 10 + (c - b'0') in
    let behind = parts_of 0 text in
    let more = parts_of value text in
    if c == b'.'
    then Option.map (λ vs. v ∷ vs) behind
    else if leb b'0' c && leb c b'9'
    then (if ltb 255 value then none else more)
    else none

-- The address, where there are four parts.
abbrev pub four : Option (List ℕ) → Option Ip
four (some (a ∷ b ∷ c ∷ d ∷ [])) = some (record { a = a; b = b; c = c; d = d })
four _ = none

finish_loop : Option (ℕ × List ℕ) → Option Ip
finish_loop none = none
finish_loop (some r) = finish r

get_or-append : (pre rest : List ℕ) (v : ℕ) → get_or (pre ++ v ∷ rest) (length pre) 0 ≡ v
get_or-append [] rest v = refl
get_or-append (p ∷ pre) rest v = get_or-append pre rest v

set-append : (pre rest : List ℕ) (v x : ℕ) → set (pre ++ v ∷ rest) (length pre) x ≡ pre ++ x ∷ rest
set-append [] rest v x = refl
set-append (p ∷ pre) rest v x = ap (λ l. p ∷ l) (set-append pre rest v x)

abbrev Small : List ℕ → Type 0
Small = All (λ v. v ≤ 255)

Small-append : (pre : List ℕ) (v : ℕ) → Small pre → v ≤ 255 → Small (pre ++ v ∷ [])
Small-append [] v h hv = (hv, tt)
Small-append (p ∷ pre) v (hp, h) hv = (hp, Small-append pre v h hv)

-- At the end of the text the address is there if the fourth part was reached.
finish-four :
    (pre rest : List ℕ) (v : ℕ)
    → length pre + suc (length rest) ≡ 4
    → Small pre
    → v ≤ 255
    → finish (length pre, pre ++ v ∷ rest) ≡ four (some (pre ++ v ∷ []))
unfolding finish
finish-four [] rest v e h hv = refl
finish-four (a ∷ []) rest v e h hv = refl
finish-four (a ∷ b ∷ []) rest v e h hv = refl
finish-four (a ∷ b ∷ c ∷ []) rest v e h hv = ground arith
finish-four (a ∷ b ∷ c ∷ d ∷ pre) rest v e h hv = absurd (omega arith)

map-nonempty : (v : ℕ) (o : Option (List ℕ)) → Option.map (λ vs. v ∷ vs) o ≢ some []
map-nonempty v none = ground arith
map-nonempty v (some vs) = ground arith

parts_of-nonempty : (v : ℕ) (text : List ℕ) → parts_of v text ≢ some []
unfolding parts_of
parts_of-nonempty v [] = ground arith
parts_of-nonempty v (c ∷ text) =
    ground (arith, parts_of-nonempty (v * 10 + (c - b'0')) text, map-nonempty v (parts_of 0 text))

-- A fifth part is refused.
five_parts :
    (pre : List ℕ) (v : ℕ) (o : Option (List ℕ))
    → length pre ≡ 3
    → o ≢ some []
    → four (Option.map (λ vs. (pre ++ v ∷ []) ++ vs) o) ≡ none
five_parts (a ∷ b ∷ c ∷ []) v none e h = refl
five_parts (a ∷ b ∷ c ∷ []) v (some []) e h = absurd (h refl)
five_parts (a ∷ b ∷ c ∷ []) v (some (x ∷ xs)) e h = refl
five_parts [] v o e h = absurd (omega arith)
five_parts (a ∷ []) v o e h = absurd (omega arith)
five_parts (a ∷ b ∷ []) v o e h = absurd (omega arith)
five_parts (a ∷ b ∷ c ∷ d ∷ pre) v o e h = absurd (omega arith)

map-append :
    (pre : List ℕ) (v : ℕ) (o : Option (List ℕ))
    → Option.map (λ vs. pre ++ vs) (Option.map (λ vs. v ∷ vs) o)
      ≡ Option.map (λ vs. (pre ++ v ∷ []) ++ vs) o
map-append pre v none = refl
map-append pre v (some vs) = ap some (sym (append_assoc pre (v ∷ []) vs))

parse_loop-full :
    (k i s : ℕ) (parts : List ℕ) (m : Memory) → parse_loop k i s 4 parts m ≡ some (4, parts)
unfolding parse_loop
parse_loop-full zero i s parts m = refl
parse_loop-full (suc k) i s parts m = refl

-- The rest of the loop reads the rest of the text.
abbrev Agrees : ℕ → ℕ → ℕ → Memory → Type 0
Agrees k i s m =
    (pre : List ℕ) (v n : ℕ)
    → length pre + suc n ≡ 4
    → Small pre
    → v ≤ 255
    → finish_loop (parse_loop k i s (length pre) (pre ++ v ∷ replicate n 0) m)
      ≡ four (Option.map (λ vs. pre ++ vs) (parts_of v (bytes_at (s + i) k m)))

parse_loop_dot :
    (k i s : ℕ) (m : Memory) (pre : List ℕ) (v n : ℕ)
    → Agrees k i s m
    → length pre + suc n ≡ 4
    → Small pre
    → v ≤ 255
    → finish_loop (parse_loop k i s (length pre + 1) (pre ++ v ∷ replicate n 0) m)
      ≡ four (
          Option.map
            (λ vs. pre ++ vs)
            (Option.map (λ vs. v ∷ vs) (parts_of 0 (bytes_at (s + i) k m))))
unfolding finish_loop finish
parse_loop_dot k i s m pre v zero ih e h hv =
    let four_parts : length pre + 1 ≡ 4 = omega arith in
    rw
      (
        map-append pre v (parts_of 0 (bytes_at (s + i) k m)),
        five_parts pre v (parts_of 0 (bytes_at (s + i) k m)) (omega arith)
            (parts_of-nonempty 0 (bytes_at (s + i) k m)),
        four_parts,
        parse_loop-full k i s (pre ++ v ∷ []) m,
      )
      refl
parse_loop_dot k i s m pre v (suc n) ih e h hv =
    let step =
      ih (pre ++ v ∷ []) 0 n (omega (arith, length-append pre (v ∷ []))) (Small-append pre v h hv)
        (omega arith) in
    rw
      (
        map-append pre v (parts_of 0 (bytes_at (s + i) k m)),
        sym (length-append pre (v ∷ [])),
        sym (append_assoc pre (v ∷ []) (0 ∷ replicate n 0)),
      )
      step

loop-parts_of : (k i s : ℕ) (m : Memory) → Agrees k i s m
unfolding parse_loop parts_of bytes_at finish_loop
loop-parts_of zero i s m pre v n e h hv =
    finish-four pre (replicate n 0) v (rw (length-replicate {A = ℕ} n 0) e) h hv
loop-parts_of (suc k) i s m pre v n e h hv =
    let ih = loop-parts_of k (i + 1) s m in
    let value = v * 10 + (m (s + i) - b'0') in
    let next_index : s + i + 1 ≡ s + (i + 1) = omega arith in
    let dot = parse_loop_dot k (i + 1) s m pre v n ih e h hv in
    let digit = λ (small : value ≤ 255). ih pre value n e h small in
    rw (get_or-append pre (replicate n 0) v, set-append pre (replicate n 0) v (value % 2 ^ 32))
      elim (Bool-cases (leb (m (s + i)) b'9')) [
        | inl digit_or_less ↦
            let no_wrap : value % 2 ^ 32 ≡ value =
              ground (arith, leb→le (m (s + i)) b'9' digit_or_less) in
            rw (no_wrap, next_index) ground (arith, dot, digit)
        | inr above ↦ rw (above, next_index) ground (arith, dot)
      ]

map-same : (o : Option (List ℕ)) → Option.map (λ vs. vs) o ≡ o
map-same none = refl
map-same (some vs) = refl

-- `parse_ip` reads `len` bytes as parts between dots. It has an address exactly if there are four parts,
-- each of digits only and at most 255, and the address is then these parts; an empty part counts as 0.
pub parse_ip-parts_of :
    (s len : ℕ) (m : Memory) → parse_ip s len m ≡ four (parts_of 0 (bytes_at s len m))
unfolding parse_ip finish_loop
parse_ip-parts_of s len m =
    let agree = loop-parts_of len 0 s m [] 0 3 refl tt (omega arith) in
    let start : s + 0 ≡ s = omega arith in
    let same = map-same (parts_of 0 (bytes_at s len m)) in
    let agree_at_start = rw (start, same) at agree in ground (arith, agree_at_start)

pub parts_of-digit :
    (v d : ℕ) (text : List ℕ)
    → d ≤ 9
    → v * 10 + d ≤ 255
    → parts_of v ((b'0' + d) ∷ text) ≡ parts_of (v * 10 + d) text
unfolding parts_of
parts_of-digit v d text h small =
    let value : b'0' + d - b'0' ≡ d = omega arith in rw value ground arith

pub parts_of-first :
    (d : ℕ) (text : List ℕ) → d ≤ 9 → parts_of 0 ((b'0' + d) ∷ text) ≡ parts_of d text
parts_of-first d text h =
    let value : 0 * 10 + d ≡ d = omega arith in
    rw value at (parts_of-digit 0 d text h (omega arith))

pub parts_of-dot :
    (v : ℕ) (text : List ℕ) → parts_of v (b'.' ∷ text) ≡ Option.map (λ vs. v ∷ vs) (parts_of 0 text)
unfolding parts_of
parts_of-dot v text = refl

pub parts_of-nil : (v : ℕ) → parts_of v [] ≡ some (v ∷ [])
unfolding parts_of
parts_of-nil v = refl
