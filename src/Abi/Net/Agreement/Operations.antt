-- ===== src/Abi/Net/Agreement/Operations.antt =====
-- Each network call leaves the table of the handles and the sockets in agreement.
use zigu.Base.{
  ℕ, ◌==◌, ◌&&◌, ◌||◌, ltb, not, Bool, Bool-cases, true, false, if◌then◌else◌, Option, none, some,
  Option-cases, inl, inr, List, [], length, arith,
}
use zigu.Udp.{Sockets, udp_send, udp_recv}
use zigu.Udp.Use.{SameUse, udp_recv-SameUse}
use zigu.Abi.Codes.{ErrorCode, err_invalid, err_unsupported, ok, err_permission, handle_net, tag}
use zigu.Abi.Handles.{Entry, alloc_handle}
use zigu.Abi.Handles.Table.{GivesOut, alloc_handle-GivesOut}
use zigu.Net.{Device, Lower, ip_send, process_incoming}
use zigu.Net.Use.{process_incoming-Keeps, udp_send-Keeps}
use zigu.Abi.Net.{
  NetState, allow_net, validate, net_socket, socket_result, on_address, address_result,
  parse_net_addr, net_send, send_result, poll_incoming, recv_result, net_recv, net_close,
}
use zigu.Abi.Net.Agreement.{Agree, SameUse-Agree, alloc-Agree, close-Agree}

abbrev pub Agrees : {T : Type 0} → NetState T → Type 0
Agrees s = Agree s.net_table s.udp_sockets

module _ {T : Type 0} where
  if-Agrees :
      {R : Type 0} (b : Bool) (x y : R × NetState T)
      → Agrees x.1
      → Agrees y.1
      → Agrees (if b then x else y).1
  if-Agrees true x y h h' = h
  if-Agrees false x y h h' = h'

  socket_result-Agrees :
      (out : (ErrorCode × Option ℕ) × List Entry) (s : NetState T)
      → Agrees s
      → GivesOut (tag handle_net) s.net_table out
      → Agrees (socket_result out s).1
  unfolding socket_result
  socket_result-Agrees ((rc, none), table) s h given =
      alloc-Agree s.net_table s.udp_sockets ((rc, none), table) h given
  socket_result-Agrees ((rc, some handle), table) s h given =
      alloc-Agree s.net_table s.udp_sockets ((rc, some handle), table) h given

  pub net_socket-Agrees :
      (domain type_ protocol : ℕ) (handle_out : Bool) (s : NetState T)
      → Agrees s
      → Agrees (net_socket domain type_ protocol handle_out s).1
  unfolding net_socket
  net_socket-Agrees domain type_ protocol handle_out s h =
      let given =
        alloc_handle-GivesOut (tag handle_net) s.net_table (omega (arith, h.0), λ id. (h.2 id).0) in
      let result = socket_result (alloc_handle (tag handle_net) s.net_table) s in
      let known = socket_result-Agrees (alloc_handle (tag handle_net) s.net_table) s h given in
      let unknown = not (domain == 2) || (not (type_ == 2) || not (protocol == 17)) in
      let checked = if unknown then ((err_unsupported, none), s) else result in
      let asked = if not handle_out then ((err_invalid, none), s) else checked in
      if-Agrees (not (allow_net s)) ((err_permission, none), s) asked h
        (if-Agrees (not handle_out) ((err_invalid, none), s) checked h
          (if-Agrees unknown ((err_unsupported, none), s) result h known))

  address_result-Agrees :
      (s : NetState T) (r : Bool × Sockets)
      → Agrees s
      → SameUse s.udp_sockets r.1
      → Agrees (address_result s r).1
  address_result-Agrees s (true, socks) h same =
      SameUse-Agree s.net_table s.udp_sockets socks same h
  address_result-Agrees s (false, socks) h same =
      SameUse-Agree s.net_table s.udp_sockets socks same h

  pub on_address-Agrees :
      (on : ℕ → List ℕ → ℕ → Sockets → Bool × Sockets)
      → ((idx : ℕ) (ip : List ℕ) (port : ℕ) (socks : Sockets)
          → SameUse socks (on idx ip port socks).1)
      → (sock : ℕ) (null : Bool) (addr : List ℕ) (s : NetState T) → Agrees s
      → Agrees (on_address on sock null addr s).1
  unfolding on_address
  on_address-Agrees on same sock null addr s h = elim (Bool-cases (allow_net s)) [
    | inr denied ↦ rw (on_address, denied) h
    | inl allowed ↦ elim (Option-cases (validate s sock)) [
      | inl e ↦ rw (on_address, allowed, e) h
      | inr (idx, e) ↦ elim (Option-cases (parse_net_addr null addr)) [
        | inl f ↦ rw (on_address, allowed, e, f) h
        | inr ((ip, port), f) ↦
            let changed =
              address_result-Agrees s (on idx ip port s.udp_sockets) h
                (same idx ip port s.udp_sockets) in
            rw (on_address, allowed, e, f) changed
      ]
    ]
  ]

  send_result-Agrees :
      (s : NetState T) (len : ℕ) (r : Bool × (Sockets × Lower T))
      → Agrees s
      → SameUse s.udp_sockets r.1.0
      → Agrees (send_result s len r).1
  unfolding send_result
  send_result-Agrees s len (true, (socks, lower)) h same =
      SameUse-Agree s.net_table s.udp_sockets socks same h
  send_result-Agrees s len (false, (socks, lower)) h same =
      SameUse-Agree s.net_table s.udp_sockets socks same h

  pub net_send-Agrees :
      (dev : Device T) (sock : ℕ) (null : Bool) (buf : List ℕ) (s : NetState T)
      → Agrees s
      → Agrees (net_send dev sock null buf s).1
  unfolding net_send
  net_send-Agrees dev sock null buf s h = elim (Bool-cases (allow_net s)) [
    | inr denied ↦ rw (net_send, denied) h
    | inl allowed ↦ elim (Option-cases (validate s sock)) [
      | inl e ↦ rw (net_send, allowed, e) h
      | inr (idx, e) ↦
          let out = udp_send (ip_send dev) idx buf (s.udp_sockets, s.lower) in
          let sent = send_result s (length buf) out in
          let counted = if length buf == 0 then ((ok, some 0), s) else sent in
          let known =
            send_result-Agrees s (length buf) out h
              (udp_send-Keeps dev idx buf (s.udp_sockets, s.lower)) in
          let both =
            if-Agrees (ltb 0 (length buf) && null) ((err_invalid, none), s) counted h
              (if-Agrees (length buf == 0) ((ok, some 0), s) sent h known) in
          rw (net_send, allowed, e) both
    ]
  ]

  poll_incoming-Agrees : (dev : Device T) (s : NetState T) → Agrees s → Agrees (poll_incoming dev s)
  unfolding poll_incoming
  poll_incoming-Agrees dev s h =
      SameUse-Agree s.net_table s.udp_sockets (process_incoming dev (s.udp_sockets, s.lower)).0
        (process_incoming-Keeps dev (s.udp_sockets, s.lower)) h

  recv_result-Agrees :
      (s : NetState T) (r : Option (List ℕ) × Sockets)
      → Agrees s
      → SameUse s.udp_sockets r.1
      → Agrees (recv_result s r).1
  unfolding recv_result
  recv_result-Agrees s (none, socks) h same = SameUse-Agree s.net_table s.udp_sockets socks same h
  recv_result-Agrees s (some buf, socks) h same =
      SameUse-Agree s.net_table s.udp_sockets socks same h

  pub net_recv-Agrees :
      (dev : Device T) (sock : ℕ) (null : Bool) (len : ℕ) (s : NetState T)
      → Agrees s
      → Agrees (net_recv dev sock null len s).1
  unfolding net_recv
  net_recv-Agrees dev sock null len s h = elim (Bool-cases (allow_net s)) [
    | inr denied ↦ rw (net_recv, denied) h
    | inl allowed ↦ elim (Option-cases (validate s sock)) [
      | inl e ↦ rw (net_recv, allowed, e) h
      | inr (idx, e) ↦
          let drained = poll_incoming dev s in
          let got = recv_result drained (udp_recv idx len drained.udp_sockets) in
          let known =
            recv_result-Agrees drained (udp_recv idx len drained.udp_sockets)
              (poll_incoming-Agrees dev s h) (udp_recv-SameUse idx len drained.udp_sockets) in
          let both = if-Agrees (ltb 0 len && null) ((err_invalid, ([], none)), s) got h known in
          rw (net_recv, allowed, e) both
    ]
  ]

  pub net_close-Agrees : (sock : ℕ) (s : NetState T) → Agrees s → Agrees (net_close sock s).1
  unfolding net_close
  net_close-Agrees sock s h = elim (Bool-cases (allow_net s)) [
    | inr denied ↦ rw (net_close, denied) h
    | inl allowed ↦ elim (Option-cases (validate s sock)) [
      | inl e ↦ rw (net_close, allowed, e) h
      | inr (idx, e) ↦
          let shut = close-Agree s.net_table s.udp_sockets sock idx h e in
          rw (net_close, allowed, e) shut
    ]
  ]
