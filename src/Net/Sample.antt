-- ===== src/Net/Sample.antt =====
-- A device for the tests: the frames that are to come, and those that were sent.
use zigu.Base.{ℕ, ◌<◌, ◌≡◌, true, Option, none, some, List, [], ◌∷◌, ◌++◌, length, arith}
use zigu.Net.{Device}

pub record Wire : Type 0 where
  pub coming : List (List ℕ)
  pub sent : List (List ℕ)

abbrev pub our_mac : List ℕ
our_mac = 82 ∷ 84 ∷ 0 ∷ 18 ∷ 52 ∷ 86 ∷ []

abbrev pub peer_mac : List ℕ
peer_mac = 2 ∷ 0 ∷ 0 ∷ 0 ∷ 0 ∷ 1 ∷ []

abbrev pub peer_ip : List ℕ
peer_ip = 172 ∷ 16 ∷ 0 ∷ 1 ∷ []

abbrev poll : List (List ℕ) → List (List ℕ) → Option (List ℕ) × Wire
poll [] sent = (none, record { coming = []; sent = sent })
poll (frame ∷ frames) sent = (some frame, record { coming = frames; sent = sent })

pub falls :
    (coming sent : List (List ℕ)) (frame : List ℕ)
    → (poll coming sent).0 ≡ some frame
    → length (poll coming sent).1.coming < length coming
falls [] sent frame h = absurd (cc h)
falls (first ∷ rest) sent frame h = omega arith

abbrev pub wire : Device Wire
wire = record {
  get_mac = λ d. our_mac;
  tx_packet = λ frame d. (true, record d { sent = d.sent ++ (frame ∷ []) });
  rx_poll = λ d. poll d.coming d.sent;
  pending = λ d. length d.coming;
  poll_falls = λ d frame h. falls d.coming d.sent frame h;
  send_keeps = λ d frame. omega arith;
}
