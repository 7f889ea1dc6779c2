-- ===== src/TcpServer/Dead.antt =====
-- tcpserver.c: sending to a client whose sender has ended.
use pd_iemnet.Prelude.{
  ◌≤◌, ◌≡◌, refl, ap, sym, ◌∙◌, true, false, Option, none, some, List, ◌∷◌, ◌++◌, ◌==◌, ◌⊎◌, inl,
  inr, arith, if◌then◌else◌, length, ltb, length-append, Bool-cases,
}
use pd_iemnet.Prelude.Int.{minus_one}
use pd_iemnet.Chunk.{Chunk}
use pd_iemnet.Os.{Os}
use pd_iemnet.Sender.{Sender, sender_send}
use pd_iemnet.TcpServer.{Ptr, null, Conn, Conns, Server, update, emits, slot}
use pd_iemnet.TcpServer.Table.{disconnect_socket}
use pd_iemnet.TcpServer.Send.{send_chunk, send_report, send_bytes_client, send_bytes}
use pd_iemnet.TcpServer.Live.{Entry, Inv, Inv-keep, Live-at}
use pd_iemnet.TcpServer.Lookup.{disconnect_socket-index, slot-at}
use pd_iemnet.TcpServer.Disconnect.{disconnect-Inv}

-- There is no sender, or its thread has ended.
abbrev pub Dead : Conn → Type 0
Dead c = (c.sender ≡ none) ⊎ ((s : Sender) × (c.sender ≡ some s) × (s.isrunning ≡ false))

send_chunk-Dead :
    (os : Os) (c : Conn) (chunk : Option Chunk)
    → Dead c
    → send_chunk os c.sender chunk ≡ (minus_one, c.sender)
unfolding sender_send
send_chunk-Dead os c chunk (inl e) =
    ap (λ o. send_chunk os o chunk) e ∙ ap (λ o. (minus_one, o)) (sym e)
send_chunk-Dead os c chunk (inr (s, e, r)) =
    ap (λ o. send_chunk os o chunk) e ∙ ground (arith, r) ∙ ap (λ o. (minus_one, o)) (sym e)

update-same : (h : Conns) (p : Ptr) (c : Conn) → h p ≡ some c → update h p (some c) ≡ h
unfolding update
update-same h p c at = λ i q. at_all q i
  where
    at_all : (q : Ptr) → (if q == p then some c else h q) ≡ h q
    at_all q = elim (Bool-cases (q == p)) [
      | inl e ↦ let same : q ≡ p = ground arith in rw (e, same, at) refl
      | inr e ↦ rw e refl
    ]

-- With two places to spare in the table, a message to a client whose sender has ended disconnects
-- that client and no other; it never faults.
pub send_bytes-Dead :
    (os : Os) (x : Server) (ls : List Entry) (e : Entry) (rs : List Entry) (chunk : Option Chunk)
    (v : Inv x (ls ++ e ∷ rs)) (c : Conn)
    → 2 ≤ v.room
    → x.heap e.0 ≡ some c
    → Dead c
    → (y : Server) × (send_bytes os x (length ls) chunk ≡ some y) × Inv y (ls ++ rs)
unfolding send_bytes send_bytes_client
send_bytes-Dead os x ls e rs chunk v c two at dead =
    let o = Live-at x.heap ls e rs v.live in
    let present : (e.0 == null) ≡ false = ground (arith, o.ne_null) in
    let inside : ltb (length ls) x.maxconnections ≡ true =
      ground (arith, v.cap, length-append ls (e ∷ rs)) in
    let here : slot x (length ls) ≡ some e.0 = slot-at x ls e rs v in
    let told =
      emits (record x { heap = update x.heap e.0 (some c) })
        (send_report (length ls) minus_one c.fd) in
    let w : Inv told (ls ++ e ∷ rs) =
      Inv-keep x told (ls ++ e ∷ rs) refl refl refl (update-same x.heap e.0 c at) v in
    let fd : c.fd ≡ e.1 = ground (arith, o.at, o.socket, at) in
    let two' : 2 ≤ w.room = omega (arith, v.cap, w.cap) in
    let (y, _, step, _, u, _, _, _) = disconnect-Inv told ls e rs w two' in
    (
      y,
      rw (inside, here, present, at, send_chunk-Dead os c chunk dead)
          (ap (disconnect_socket told) fd ∙ disconnect_socket-index told ls e rs w ∙ step),
      u,
    )
