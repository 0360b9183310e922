-- ===== src/Abi/Io/Serial.antt =====
-- A handle that `io_open` of kernel/abi.zig gives out, and what is written and read through it.
use zigu.Base.{
  ℕ, ◌^◌, ◌<◌, ◌≡◌, ◌&&◌, ltb, Bool, true, false, if◌then◌else◌, Option, none, some, List, [], ◌∷◌,
  ◌++◌, ◌⊎◌, All, take, Bool-cases, inl, inr, length, get_or, get_or-set_same, set, done, refl, ap,
  subst, sym, ◌∙◌, arith,
}
use zigu.Abi.Codes.{ErrorCode, ok, err_invalid, err_busy, err_would_block, cap_io, handle_io, tag}
use zigu.Abi.Caps.{allow}
use zigu.Abi.Handles.{Entry, unused, handle_id, alloc_handle, validate_handle, close_handle}
use zigu.Abi.Handles.Table.{GivesOut, alloc_handle-GivesOut, validate_handle-IsValid}
use zigu.Abi.Handles.Revoked.{gen_of, close_handle-refused_next}
use zigu.Udp.{skip}
use zigu.Abi.Io.Queue.{IsQueue, IsSink, read_serial-take, write_serial-append}
use zigu.Abi.Io.{
  Uart, IoKind, kind_none, kind_serial, IoState, path_starts_with, serial_prefix, validate_io,
  open_result, io_open, read_serial, write_serial, read_result, read_kind, io_read, write_kind,
  io_write, io_close,
}

-- 32 entries with generations of 16 bits, and a kind for each.
abbrev pub IsIo : {U : Type 0} → IoState U → Type 0
IsIo s =
    (length s.io_table ≡ 32)
    × (length s.io_kind ≡ 32)
    × ((id : ℕ) → (get_or s.io_table id unused).gen < 2 ^ 16)

-- A valid handle of an entry of this kind.
abbrev pub Opened : {U : Type 0} → IoKind → ℕ → IoState U → Type 0
Opened kind handle s =
    (id : ℕ) × (validate_io s handle ≡ some id) × (get_or s.io_kind id kind_none ≡ kind)

abbrev pub kind_of : List ℕ → IoKind
kind_of path = if path_starts_with path serial_prefix then kind_serial else kind_none

-- What is given out for a path: a handle of its kind, or nothing when all entries are in use.
abbrev pub Gives : {U : Type 0} → List ℕ → IoState U → (ErrorCode × Option ℕ) × IoState U → Type 0
Gives path s ((rc, none), s') =
    (rc ≡ err_busy) × All (λ (e : Entry). e.in_use ≡ true) s.io_table × (s' ≡ s)
Gives path s ((rc, some handle), s') =
    (rc ≡ ok) × Opened (kind_of path) handle s' × (s'.caps ≡ s.caps) × (s'.uart ≡ s.uart)

-- The path begins with "serial".
abbrev pub IsSerial : List ℕ → Type 0
IsSerial path = take 6 path ≡ 115 ∷ 101 ∷ 114 ∷ 105 ∷ 97 ∷ 108 ∷ []

-- The answer of a read that has these bytes.
abbrev pub got : List ℕ → ErrorCode × (List ℕ × Option ℕ)
got [] = (err_would_block, ([], some 0))
got (b ∷ bytes) = (ok, (b ∷ bytes, some (length (b ∷ bytes))))

module _ {U : Type 0} (dev : Uart U) (pending sent : U → List ℕ) where
  -- All bytes that are written are sent, and those that are read have come in.
  abbrev pub OverPort : ℕ → IoState U → Type 0
  OverPort handle s =
      ((buf : List ℕ)
        → (u : U) × (sent u ≡ sent s.uart ++ buf)
          × (io_write dev handle false buf s
              ≡ done ((ok, some (length buf)), record s { uart = u })))
      × ((len : ℕ)
          → (u : U) × (pending u ≡ skip len (pending s.uart))
            × (io_read dev handle false len s
                ≡ done (got (take len (pending s.uart)), record s { uart = u })))

  -- What is written is lost, and nothing is read.
  abbrev pub Lost : ℕ → IoState U → Type 0
  Lost handle s =
      ((buf : List ℕ) → io_write dev handle false buf s ≡ done ((ok, some (length buf)), s))
      × ((len : ℕ) → io_read dev handle false len s ≡ done ((err_would_block, ([], some 0)), s))

  -- All entries are in use, or a handle is given out, by the path.
  abbrev pub Serves : List ℕ → IoState U → (ErrorCode × Option ℕ) × IoState U → Type 0
  Serves path s ((rc, none), s') =
      (rc ≡ err_busy) × All (λ (e : Entry). e.in_use ≡ true) s.io_table × (s' ≡ s)
  Serves path s ((rc, some handle), s') =
      (rc ≡ ok)
      × (s'.uart ≡ s.uart)
      × ((IsSerial path × OverPort handle s') ⊎ (¬ (IsSerial path) × Lost handle s'))

path_starts_with-take :
    (path prefix : List ℕ)
    → path_starts_with path prefix ≡ true
    → take (length prefix) path ≡ prefix
unfolding path_starts_with
path_starts_with-take path [] h = refl
path_starts_with-take [] (ch ∷ prefix) h = absurd (cc h)
path_starts_with-take (c ∷ path) (ch ∷ prefix) h =
    let same : c ≡ ch = ground (arith, h) in
    let later : path_starts_with path prefix ≡ true = ground (arith, h) in
    rw (path_starts_with-take path prefix later, same) refl

take-path_starts_with :
    (path prefix : List ℕ)
    → take (length prefix) path ≡ prefix
    → path_starts_with path prefix ≡ true
unfolding path_starts_with
take-path_starts_with path [] h = refl
take-path_starts_with [] (ch ∷ prefix) h = absurd (cc h)
take-path_starts_with (c ∷ path) (ch ∷ prefix) h =
    let same : c ≡ ch = cc h in
    let later : take (length prefix) path ≡ prefix = cc h in
    ground (arith, same, take-path_starts_with path prefix later)

module _ {U : Type 0} where
  open_result-Gives :
      (path : List ℕ) (out : (ErrorCode × Option ℕ) × List Entry) (s : IoState U)
      → IsIo s
      → GivesOut (tag handle_io) s.io_table out
      → Gives path s (open_result path out s)
  unfolding open_result
  open_result-Gives path ((code, none), table) s wf (busy, same, all) =
      (busy, all, ap (λ (t : List Entry). record s { io_table = t }) same)
  open_result-Gives path ((code, some handle), table) s wf
        (good, (id, (below, free), valid, new, kept)) =
      let kinds = wf.1 in
      let size = wf.0 in
      let here : handle_id handle ≡ id = valid.1 in
      let its_kind =
        ap (λ i. get_or (set s.io_kind i (kind_of path)) id kind_none) here
        ∙ get_or-set_same s.io_kind id (kind_of path) kind_none
            (omega (arith, below, kinds, size)) in
      (
        good,
        (id, (validate_handle-IsValid table (tag handle_io) handle id).1 valid, its_kind),
        refl,
        refl,
      )

  io_open-Gives :
      (path : List ℕ) (s : IoState U)
      → allow cap_io s.caps ≡ true
      → IsIo s
      → Gives path s (io_open false path true s)
  unfolding io_open
  io_open-Gives path s allowed wf =
      let few = wf.0 in
      let given = alloc_handle-GivesOut (tag handle_io) s.io_table (omega (arith, few), wf.2) in
      rw (io_open, allowed)
        (open_result-Gives path (alloc_handle (tag handle_io) s.io_table) s wf given)

  io_write-Opened :
      (dev : Uart U) (kind : IoKind) (handle : ℕ) (buf : List ℕ) (s : IoState U)
      → allow cap_io s.caps ≡ true
      → Opened kind handle s
      → io_write dev handle false buf s ≡ write_kind dev kind false buf s
  unfolding io_write
  io_write-Opened dev kind handle buf s allowed (id, valid, its_kind) =
      let there : (ltb 0 (length buf) && false) ≡ false = ground arith in
      rw (io_write, allowed, valid, there) (ap (λ k. write_kind dev k false buf s) its_kind)

  io_read-Opened :
      (dev : Uart U) (kind : IoKind) (handle len : ℕ) (s : IoState U)
      → allow cap_io s.caps ≡ true
      → Opened kind handle s
      → io_read dev handle false len s ≡ read_kind dev kind false len s
  unfolding io_read
  io_read-Opened dev kind handle len s allowed (id, valid, its_kind) =
      let there : (ltb 0 len && false) ≡ false = ground arith in
      rw (io_read, allowed, valid, there) (ap (λ k. read_kind dev k false len s) its_kind)

  read_result-got :
      (s : IoState U) (r : List ℕ × U) → read_result s r ≡ (got r.0, record s { uart = r.1 })
  read_result-got s ([], uart) = refl
  read_result-got s (b ∷ bytes, uart) = refl

module _ {U : Type 0} (dev : Uart U) (pending sent : U → List ℕ) (queue : IsQueue dev pending)
    (sink : IsSink dev sent) where
  Opened-OverPort :
      (handle : ℕ) (s : IoState U)
      → allow cap_io s.caps ≡ true
      → Opened kind_serial handle s
      → OverPort dev pending sent handle s
  unfolding write_kind read_kind
  Opened-OverPort handle s allowed opened = (
    λ buf. (
      write_serial dev buf s.uart,
      write_serial-append dev sent buf s.uart sink,
      io_write-Opened dev kind_serial handle buf s allowed opened,
    ),
    λ len.
        let r = read_serial dev len s.uart in
        let (bytes, rest) = read_serial-take dev pending len s.uart queue in
        (
          r.1,
          rest,
          io_read-Opened dev kind_serial handle len s allowed opened
              ∙ ap (λ x. done x)
                  (read_result-got s r ∙ ap (λ b. (got b, record s { uart = r.1 })) bytes),
        ),
  )

  Opened-Lost :
      (handle : ℕ) (s : IoState U)
      → allow cap_io s.caps ≡ true
      → Opened kind_none handle s
      → Lost dev pending sent handle s
  unfolding write_kind read_kind
  Opened-Lost handle s allowed opened = (
    λ buf. io_write-Opened dev kind_none handle buf s allowed opened,
    λ len. io_read-Opened dev kind_none handle len s allowed opened,
  )

  Gives-Serves :
      (path : List ℕ) (s : IoState U) (r : (ErrorCode × Option ℕ) × IoState U)
      → allow cap_io s.caps ≡ true
      → Gives path s r
      → Serves dev pending sent path s r
  Gives-Serves path s ((rc, none), s') allowed given = given
  Gives-Serves path s ((rc, some handle), s') allowed (good, opened, caps, uart) =
      let still : allow cap_io s'.caps ≡ true = ap (allow cap_io) caps ∙ allowed in
      elim (Bool-cases (path_starts_with path serial_prefix)) [
        | inl serial ↦
            let kind : kind_of path ≡ kind_serial = rw serial refl in
            (
              good,
              uart,
              inl (
                path_starts_with-take path serial_prefix serial,
                Opened-OverPort handle s' still (subst (λ k. Opened k handle s') kind opened),
              ),
            )
        | inr other ↦
            let kind : kind_of path ≡ kind_none = rw other refl in
            (
              good,
              uart,
              inr (
                λ h. absurd (cc (other, take-path_starts_with path serial_prefix h)),
                Opened-Lost handle s' still (subst (λ k. Opened k handle s') kind opened),
              ),
            )
      ]

  -- The port is a queue of what comes in and sends what is written, the capability is active, and the table has
  -- its 32 entries, with generations of 16 bits. Either all entries are in use, the answer is `err_busy` and
  -- nothing changes; or a handle is given out. If the path begins with "serial", all bytes that are written
  -- through the handle are sent, in their order, and a read has the bytes that have come in, as many as there is
  -- room for, and leaves the others; and else what is written is taken and lost and nothing is read.
  pub io_open-Serves :
      (path : List ℕ) (s : IoState U)
      → allow cap_io s.caps ≡ true
      → IsIo s
      → Serves dev pending sent path s (io_open false path true s)
  io_open-Serves path s allowed wf =
      Gives-Serves path s (io_open false path true s) allowed (io_open-Gives path s allowed wf)

abbrev pub Refused : {U : Type 0} → Uart U → ℕ → ℕ → Bool → List ℕ → IoState U → Type 0
Refused dev io len null buf s =
    (io_read dev io null len s ≡ done ((err_invalid, ([], none)), s))
    × (io_write dev io null buf s ≡ done ((err_invalid, none), s))
    × (io_close io s ≡ (err_invalid, s))

refused :
    {U : Type 0} (dev : Uart U) (io len : ℕ) (null : Bool) (buf : List ℕ) (s : IoState U)
    → allow cap_io s.caps ≡ true
    → validate_io s io ≡ none
    → Refused dev io len null buf s
unfolding io_close io_read io_write
refused dev io len null buf s allowed gone = (
  rw (io_read, allowed, gone) refl,
  rw (io_write, allowed, gone) refl,
  rw (io_close, allowed, gone) refl,
)

-- A valid handle is closed: with the capability still active, neither reading nor writing through it is possible.
pub io_close-refuses :
    {U : Type 0} (dev : Uart U) (io id len : ℕ) (null : Bool) (buf : List ℕ) (s : IoState U)
    → allow cap_io s.caps ≡ true
    → validate_io s io ≡ some id
    → gen_of s.io_table id < 2 ^ 16
    → Refused dev io len null buf (io_close io s).1
unfolding io_close
io_close-refuses {U} dev io id len null buf s allowed valid small =
    let table = (close_handle s.io_table (tag handle_io) io).1 in
    let gone : validate_handle table (tag handle_io) io ≡ none =
      close_handle-refused_next (tag handle_io) io id s.io_table
        ((validate_handle-IsValid s.io_table (tag handle_io) io id).0 valid) small in
    let closed : IoState U = record s { io_table = table; io_kind = set s.io_kind id kind_none } in
    let after : (io_close io s).1 ≡ closed = rw (io_close, allowed, valid) refl in
    subst (Refused dev io len null buf) (sym after)
      (refused dev io len null buf closed allowed gone)
