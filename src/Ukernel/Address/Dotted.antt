-- ===== src/Ukernel/Address/Dotted.antt =====
-- Addresses written in dotted decimals, and the port behind them.
use zigu.Base.{
  ℕ, ◌+◌, ◌*◌, ◌/◌, ◌%◌, ◌≤◌, ◌≡◌, ltb, subst, ◌∙◌, append-nil, Bool-cases, inl, inr, if◌then◌else◌,
  Option, some, List, [], ◌∷◌, ◌++◌, refl, ap, arith,
}
use mathlib.Core.Option
use zigu.Memory.{Memory, bytes_at}
use zigu.Ukernel.Address.{Ip, parse_ip}
use zigu.Ukernel.Address.Octets.{
  parts_of, parts_of-digit, parts_of-first, parts_of-dot, parts_of-nil, parse_ip-parts_of,
}

-- A value of at most three digits, in decimal.
abbrev pub decimal : ℕ → List ℕ
decimal v =
    if ltb v 10
    then (b'0' + v) ∷ []
    else if ltb v 100
    then (b'0' + v / 10) ∷ (b'0' + v % 10) ∷ []
    else (b'0' + v / 100) ∷ (b'0' + v / 10 % 10) ∷ (b'0' + v % 10) ∷ []

-- `a.b.c.d`
abbrev pub dotted : Ip → List ℕ
dotted ip =
    decimal ip.a ++ (b'.' ∷ (decimal ip.b ++ (b'.' ∷ (decimal ip.c ++ (b'.' ∷ decimal ip.d)))))

abbrev pub IsIp : Ip → Type 0
IsIp ip = (ip.a ≤ 255) × (ip.b ≤ 255) × (ip.c ≤ 255) × (ip.d ≤ 255)

parts_of-decimal :
    (v : ℕ) (text : List ℕ) → v ≤ 255 → parts_of 0 (decimal v ++ text) ≡ parts_of v text
parts_of-decimal v text h = elim (Bool-cases (ltb v 10)) [
  | inl one ↦ rw one (parts_of-first v text (ground arith))
  | inr more ↦ elim (Bool-cases (ltb v 100)) [
    | inl two ↦
        let whole : v / 10 * 10 + v % 10 ≡ v = omega arith in
        rw
          (
            more,
            two,
            parts_of-first (v / 10) ((b'0' + v % 10) ∷ text) (ground arith),
            parts_of-digit (v / 10) (v % 10) text (omega arith) (omega arith),
            whole,
          )
          refl
    | inr three ↦
        let tens : v / 100 * 10 + v / 10 % 10 ≡ v / 10 = omega arith in
        let whole : v / 10 * 10 + v % 10 ≡ v = omega arith in
        rw
          (
            more,
            three,
            parts_of-first (v / 100) ((b'0' + v / 10 % 10) ∷ (b'0' + v % 10) ∷ text) (omega arith),
            parts_of-digit (v / 100) (v / 10 % 10) ((b'0' + v % 10) ∷ text) (omega arith)
                (omega arith),
            tens,
            parts_of-digit (v / 10) (v % 10) text (omega arith) (omega arith),
            whole,
          )
          refl
  ]
]

parts_of-dotted :
    (ip : Ip) → IsIp ip → parts_of 0 (dotted ip) ≡ some (ip.a ∷ ip.b ∷ ip.c ∷ ip.d ∷ [])
parts_of-dotted ip (ha, hb, hc, hd) =
    let behind_b = decimal ip.c ++ (b'.' ∷ decimal ip.d) in
    let behind_a = decimal ip.b ++ (b'.' ∷ behind_b) in
    let put = λ (v : ℕ) (o : Option (List ℕ)). Option.map (λ vs. v ∷ vs) o in
    let last =
      subst (λ text. parts_of 0 text ≡ some (ip.d ∷ [])) (append-nil (decimal ip.d))
        (parts_of-decimal ip.d [] hd ∙ parts_of-nil ip.d) in
    let third =
      parts_of-decimal ip.c (b'.' ∷ decimal ip.d) hc
      ∙ parts_of-dot ip.c (decimal ip.d)
      ∙ ap (put ip.c) last in
    let second =
      parts_of-decimal ip.b (b'.' ∷ behind_b) hb
      ∙ parts_of-dot ip.b behind_b
      ∙ ap (put ip.b) third in
    parts_of-decimal ip.a (b'.' ∷ behind_a) ha ∙ parts_of-dot ip.a behind_a ∙ ap (put ip.a) second

-- An address written as `a.b.c.d` in decimals is read back.
pub parse_ip-dotted :
    (ip : Ip) (s len : ℕ) (m : Memory)
    → IsIp ip
    → bytes_at s len m ≡ dotted ip
    → parse_ip s len m ≡ some ip
parse_ip-dotted ip s len m h text = rw (parse_ip-parts_of s len m, text, parts_of-dotted ip h) refl
