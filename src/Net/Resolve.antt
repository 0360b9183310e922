-- ===== src/Net/Resolve.antt =====
-- The table of the addresses, `arpLookup` and `arpStore` of kernel/net.zig, and `arpResolve` over it.
pub mod Answers
use zigu.Base.{
  ℕ, zero, suc, ◌+◌, ◌<◌, ◌≤◌, ◌≡◌, ◌⊎◌, ◌==◌, ◌&&◌, ==_refl, All, not, Bool, Bool-cases, true,
  false, if◌then◌else◌, Option, none, some, Option-cases, inl, inr, List, [], ◌∷◌, length, get_or,
  refl, ap, subst, sym, ◌∙◌, arith,
}
use zigu.Udp.{Sockets}
use zigu.Net.{
  Device, Lower, ArpEntry, no_entry, ip_eql, arp_lookup, arp_update, arp_fill, arp_overwrite,
  arp_store, arp_send_request, process_incoming, arp_spin, arp_attempts, arp_resolve,
}

-- Which address an entry has.
abbrev pub holds : List ℕ → ArpEntry → Bool
holds ip entry = entry.valid && ip_eql entry.ip ip

pub ip_eql_refl : (ip : List ℕ) → ip_eql ip ip ≡ true
ip_eql_refl ip =
    rw
      (
        ==_refl (get_or ip 0 0),
        ==_refl (get_or ip 1 0),
        ==_refl (get_or ip 2 0),
        ==_refl (get_or ip 3 0),
      )
      refl

ip_eql-same : (a b c : List ℕ) → ip_eql a b ≡ true → ip_eql a c ≡ ip_eql b c
ip_eql-same a b c h =
    let e0 : get_or a 0 0 ≡ get_or b 0 0 = ground arith in
    let e1 : get_or a 1 0 ≡ get_or b 1 0 = ground arith in
    let e2 : get_or a 2 0 ≡ get_or b 2 0 = ground arith in
    let e3 : get_or a 3 0 ≡ get_or b 3 0 = ground arith in rw (e0, e1, e2, e3) refl

arp_lookup-skip :
    (ip : List ℕ) (entry : ArpEntry) (table : List ArpEntry)
    → holds ip entry ≡ false
    → arp_lookup ip (entry ∷ table) ≡ arp_lookup ip table
unfolding arp_lookup
arp_lookup-skip ip entry table h = rw (arp_lookup, h) refl

arp_lookup-here :
    (ip : List ℕ) (entry : ArpEntry) (table : List ArpEntry)
    → holds ip entry ≡ true
    → arp_lookup ip (entry ∷ table) ≡ some entry.mac
unfolding arp_lookup
arp_lookup-here ip entry table h = rw (arp_lookup, h) refl

-- The address has the new card, and every other address what it had.
abbrev pub Stored : List ℕ → List ℕ → List ArpEntry → List ArpEntry → Type 0
Stored ip mac table table' =
    (arp_lookup ip table' ≡ some mac)
    × ((other : List ℕ)
        → ip_eql ip other ≡ false
        → arp_lookup other table' ≡ arp_lookup other table)

Stored-cons :
    (ip mac : List ℕ) (entry : ArpEntry) (table table' : List ArpEntry)
    → holds ip entry ≡ false
    → Stored ip mac table table'
    → Stored ip mac (entry ∷ table) (entry ∷ table')
Stored-cons ip mac entry table table' h (new, kept) = (
  arp_lookup-skip ip entry table' h ∙ new,
  λ other apart. elim (Bool-cases (holds other entry)) [
    | inl found ↦
        arp_lookup-here other entry table' found ∙ sym (arp_lookup-here other entry table found)
    | inr missed ↦
        arp_lookup-skip other entry table' missed
        ∙ kept other apart
        ∙ sym (arp_lookup-skip other entry table missed)
  ],
)

-- An entry that no other address has is replaced by one that has the address.
Stored-here :
    (ip mac : List ℕ) (entry entry' : ArpEntry) (table : List ArpEntry)
    → holds ip entry' ≡ true
    → entry'.mac ≡ mac
    → ((other : List ℕ)
        → ip_eql ip other ≡ false
        → (holds other entry ≡ false) × (holds other entry' ≡ false))
    → Stored ip mac (entry ∷ table) (entry' ∷ table)
Stored-here ip mac entry entry' table h e apart = (
  arp_lookup-here ip entry' table h ∙ ap some e,
  λ other differs.
      let (old, new) = apart other differs in
      arp_lookup-skip other entry' table new ∙ sym (arp_lookup-skip other entry table old),
)

abbrev Updated : List ℕ → List ℕ → List ArpEntry → Option (List ArpEntry) → Type 0
Updated ip mac table none = arp_lookup ip table ≡ none
Updated ip mac table (some table') = Stored ip mac table table'

arp_update-Updated :
    (ip mac : List ℕ) (table : List ArpEntry) → Updated ip mac table (arp_update ip mac table)
unfolding arp_update arp_lookup
arp_update-Updated ip mac [] = refl
arp_update-Updated ip mac (entry ∷ table) = elim (Bool-cases (holds ip entry)) [
  | inl found ↦
      let used : entry.valid ≡ true = ground arith in
      let same : ip_eql entry.ip ip ≡ true = ground arith in
      let stored =
        Stored-here ip mac entry (record entry { mac = mac }) table found refl
          (λ other differs.
            let e : ip_eql entry.ip other ≡ false = ip_eql-same entry.ip ip other same ∙ differs in
            (rw (used, e) refl, rw (used, e) refl)) in
      rw (arp_update, found) stored
  | inr missed ↦ elim (Option-cases (arp_update ip mac table)) [
    | inl e ↦
        let later = subst (Updated ip mac table) e (arp_update-Updated ip mac table) in
        rw (arp_update, missed, e) (arp_lookup-skip ip entry table missed ∙ later)
    | inr (table', e) ↦
        let later = subst (Updated ip mac table) e (arp_update-Updated ip mac table) in
        rw (arp_update, missed, e) (Stored-cons ip mac entry table table' missed later)
  ]
]

-- Every entry is valid.
abbrev pub IsFull : List ArpEntry → Type 0
IsFull table = All (λ (entry : ArpEntry). entry.valid ≡ true) table

abbrev Filled : List ℕ → List ℕ → List ArpEntry → Option (List ArpEntry) → Type 0
Filled ip mac table none = IsFull table
Filled ip mac table (some table') = Stored ip mac table table'

arp_fill-Filled :
    (ip mac : List ℕ) (table : List ArpEntry)
    → arp_lookup ip table ≡ none
    → Filled ip mac table (arp_fill ip mac table)
unfolding arp_fill
arp_fill-Filled ip mac [] h = tt
arp_fill-Filled ip mac (entry ∷ table) h = elim (Bool-cases entry.valid) [
  | inr free ↦
      let empty : not entry.valid ≡ true = rw free refl in
      let stored =
        Stored-here ip mac entry (record { ip = ip; mac = mac; valid = true }) table
          (ip_eql_refl ip) refl (λ other differs. (rw free refl, differs)) in
      rw (arp_fill, empty) stored
  | inl used ↦ elim (Bool-cases (holds ip entry)) [
    | inl found ↦ absurd (cc (h, arp_lookup-here ip entry table found))
    | inr missed ↦
        let taken : not entry.valid ≡ false = rw used refl in
        let later =
          arp_fill-Filled ip mac table (sym (arp_lookup-skip ip entry table missed) ∙ h) in
        elim (Option-cases (arp_fill ip mac table)) [
          | inl e ↦ rw (arp_fill, taken, e) (used, subst (Filled ip mac table) e later)
          | inr (table', e) ↦
              let stored = subst (Filled ip mac table) e later in
              rw (arp_fill, taken, e) (Stored-cons ip mac entry table table' missed stored)
        ]
  ]
]

-- Either only the address changes, or the table is full, and its first entry gives way.
abbrev pub Outcome : List ℕ → List ℕ → List ArpEntry → List ArpEntry → Type 0
Outcome ip mac table table' =
    Stored ip mac table table'
    ⊎ ((entry : ArpEntry) × (rest : List ArpEntry) × (table ≡ entry ∷ rest)
        × IsFull table
        × (arp_lookup ip table ≡ none)
        × (table' ≡ record { ip = ip; mac = mac; valid = true } ∷ rest))

-- A pair is stored in a table that is not empty. Either the address is looked up with its new card, and every
-- other address as before; or all entries were valid and none had the address, and the first one gives way.
pub arp_store-Outcome :
    (ip mac : List ℕ) (table : List ArpEntry)
    → 0 < length table
    → Outcome ip mac table (arp_store ip mac table)
unfolding arp_store
arp_store-Outcome ip mac [] h = absurd (omega (arith, h))
arp_store-Outcome ip mac (entry ∷ rest) h =
    let table = entry ∷ rest in
    elim (Option-cases (arp_update ip mac table)) [
      | inr (table', e) ↦
          rw (arp_store, e) (inl (subst (Updated ip mac table) e (arp_update-Updated ip mac table)))
      | inl e ↦
          let missing = subst (Updated ip mac table) e (arp_update-Updated ip mac table) in
          elim (Option-cases (arp_fill ip mac table)) [
            | inr (table', f) ↦
                rw (arp_store, e, f)
                  (inl (subst (Filled ip mac table) f (arp_fill-Filled ip mac table missing)))
            | inl f ↦
                let full = subst (Filled ip mac table) f (arp_fill-Filled ip mac table missing) in
                rw (arp_store, e, f) (inr (entry, rest, refl, full, missing, refl))
          ]
    ]

-- Whatever the table holds, the address that was stored is looked up with its card.
pub arp_lookup-arp_store :
    (ip mac : List ℕ) (table : List ArpEntry)
    → 0 < length table
    → arp_lookup ip (arp_store ip mac table) ≡ some mac
arp_lookup-arp_store ip mac table h = elim (arp_store-Outcome ip mac table h) [
  | inl (new, kept) ↦ new
  | inr (entry, rest, e, full, missing, e') ↦
      ap (arp_lookup ip) e'
      ∙ arp_lookup-here ip (record { ip = ip; mac = mac; valid = true }) rest (ip_eql_refl ip)
]
