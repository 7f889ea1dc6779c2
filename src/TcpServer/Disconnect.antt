-- ===== src/TcpServer/Disconnect.antt =====
-- tcpserver.c: `tcpserver_disconnect` closes one connection and keeps the others, if the table has
-- two places to spare; if not, it reads or writes behind the table.
use mathlib.Core.List.{append_assoc, map-append}
use pd_iemnet.Prelude.{
  ℕ, suc, ◌+◌, ◌-◌, ◌≤◌, ◌<◌, ◌≡◌, refl, ap, sym, ◌∙◌, false, none, some, List, ◌∷◌, ◌++◌, ◌==◌,
  get_elem?, length, replicate, arith, length-append, length-replicate, length-map,
}
use pd_iemnet.Prelude.Int.{pos}
use pd_iemnet.Output.{statusout, connectout, iemnet_numconnout}
use pd_iemnet.Os.{outs}
use pd_iemnet.TcpServer.{Ptr, null, disconnect, Conn, Server, update, deref, emits, does}
use pd_iemnet.TcpServer.Info.{info_connection}
use pd_iemnet.TcpServer.Table.{close_gap, disconnect_index, socketreceiver_free, release, decrement}
use pd_iemnet.Output.Reports.{count_report, numconnout-report}
use pd_iemnet.TcpServer.Reports.{
  connection_report, given_back, info_connection-disconnect, release-given_back,
}
use pd_iemnet.TcpServer.Live.{Entry, ptrs, Open, Inv, Live-at, Live-remove}
use pd_iemnet.TcpServer.Gap.{get_elem?-at, close_gap-append, close_gap_overrun}

array_split :
    (ls : List Entry) (e : Entry) (rs : List Entry) (tail : List Ptr)
    → ptrs (ls ++ e ∷ rs) ++ tail ≡ ptrs ls ++ e.0 ∷ (ptrs rs ++ tail)
array_split ls e rs tail =
    ap (λ l. l ++ tail) (map-append (λ (o : Entry). o.0) ls (e ∷ rs))
    ∙ append_assoc (ptrs ls) (e.0 ∷ ptrs rs) tail

array_join :
    (ls rs : List Entry) (tail : List Ptr) → ptrs (ls ++ rs) ++ tail ≡ ptrs ls ++ (ptrs rs ++ tail)
array_join ls rs tail =
    ap (λ l. l ++ tail) (map-append (λ (o : Entry). o.0) ls rs)
    ∙ append_assoc (ptrs ls) (ptrs rs) tail

-- The server after `tcpserver_disconnect` of connection `c` behind `e`.
abbrev pub disconnected : Server → List Entry → Entry → List Entry → Conn → ℕ → Server
disconnected x ls e rs c room =
    emits
      (record (does (emits x (info_connection c disconnect)) (release c)) {
        heap = update x.heap e.0 none;
        sr = ptrs (ls ++ rs) ++ replicate (suc room) null;
        nconnections = length (ls ++ rs);
      })
      (iemnet_numconnout (some statusout) (some connectout) (pos (length (ls ++ rs))))

disconnect_step :
    (x : Server) (ls : List Entry) (e : Entry) (rs : List Entry) (v : Inv x (ls ++ e ∷ rs))
    (room : ℕ)
    → v.room ≡ suc (suc room)
    → (o : Open x.heap e)
    → disconnect_index x (length ls) ≡ some (disconnected x ls e rs o.conn (suc (suc room)))
unfolding disconnect_index deref socketreceiver_free
disconnect_step x ls e rs v room r o =
    let llen : length (ptrs ls) ≡ length ls = length-map ls (λ (o : Entry). o.0) in
    let rlen : length (ptrs rs) ≡ length rs = length-map rs (λ (o : Entry). o.0) in
    let arr : x.sr ≡ ptrs ls ++ e.0 ∷ (ptrs rs ++ replicate (suc (suc room)) null) =
      v.array
      ∙ ap (λ n. ptrs (ls ++ e ∷ rs) ++ replicate n null) r
      ∙ array_split ls e rs (replicate (suc (suc room)) null) in
    let here : get_elem? x.sr (length ls) ≡ some e.0 =
      ap (λ l. get_elem? l (length ls)) arr
      ∙ get_elem?-at (ptrs ls) e.0 (ptrs rs ++ replicate (suc (suc room)) null) (length ls)
          (sym (length-map ls (λ (o : Entry). o.0))) in
    let present : (e.0 == null) ≡ false = ground (arith, o.ne_null) in
    let gap : close_gap x.sr (length ls) x.nconnections
        ≡ some (ptrs (ls ++ rs) ++ replicate (suc (suc (suc room))) null) =
      ap (λ l. close_gap l (length ls) x.nconnections) arr
      ∙ close_gap-append (ptrs ls) e.0 (ptrs rs) room (length ls) x.nconnections (sym llen)
          (omega (arith, v.count, llen, rlen, length-append ls (e ∷ rs)))
      ∙ ap some (sym (array_join ls rs (replicate (suc (suc (suc room))) null))) in
    let fewer : decrement x.nconnections ≡ length (ls ++ rs) =
      omega (arith, v.count, v.cap, v.small, length-append ls (e ∷ rs), length-append ls rs) in
    rw (here, present, o.at, gap, fewer)

-- With two places to spare, `tcpserver_disconnect` of an open connection never faults. It removes
-- exactly that connection from the table, keeps the others in their order, and frees it. Outside it
-- reports the disconnection with the number, socket, host name, port and address of the connection,
-- joins the thread of its sender and removes its poll function, if it has these, closes its socket,
-- and reports the new number of connections, in this order and nothing else.
pub disconnect-Inv :
    (x : Server) (ls : List Entry) (e : Entry) (rs : List Entry) (v : Inv x (ls ++ e ∷ rs))
    → 2 ≤ v.room
    → (y : Server) × (c : Conn) × (disconnect_index x (length ls) ≡ some y)
      × (x.heap e.0 ≡ some c)
      × Inv y (ls ++ rs)
      × (y.maxconnections ≡ x.maxconnections)
      × (y.heap ≡ update x.heap e.0 none)
      × (y.log
          ≡ ((x.log ++ outs (connection_report (some "disconnect") c)) ++ given_back c)
            ++ outs (count_report (length (ls ++ rs))))
unfolding update
disconnect-Inv x ls e rs v two =
    let o = Live-at x.heap ls e rs v.live in
    let r : v.room ≡ suc (suc (v.room - 2)) = omega arith in
    (
      disconnected x ls e rs o.conn (suc (suc (v.room - 2))),
      o.conn,
      disconnect_step x ls e rs v (v.room - 2) r o,
      o.at,
      record {
        room = suc (suc (suc (v.room - 2)));
        array = refl;
        count = refl;
        cap = omega (arith, v.cap, length-append ls (e ∷ rs), length-append ls rs);
        small = v.small;
        live = Live-remove x.heap ls e rs v.live;
      },
      refl,
      refl,
      rw
          (
            info_connection-disconnect o.conn,
            release-given_back o.conn (rw o.socket o.valid),
            numconnout-report (length (ls ++ rs)),
          )
          refl,
    )

-- With fewer than two places to spare, which is the case when the number of connections is the
-- maximum or one below it, `tcpserver_disconnect` of an open connection accesses the table behind
-- its end.
pub disconnect_overrun :
    (x : Server) (ls : List Entry) (e : Entry) (rs : List Entry) (v : Inv x (ls ++ e ∷ rs))
    → v.room < 2
    → disconnect_index x (length ls) ≡ none
unfolding disconnect_index deref socketreceiver_free
disconnect_overrun x ls e rs v h =
    let o = Live-at x.heap ls e rs v.live in
    let here : get_elem? x.sr (length ls) ≡ some e.0 =
      ap (λ l. get_elem? l (length ls)) (v.array ∙ array_split ls e rs (replicate v.room null))
      ∙ get_elem?-at (ptrs ls) e.0 (ptrs rs ++ replicate v.room null) (length ls)
          (sym (length-map ls (λ (o : Entry). o.0))) in
    let present : (e.0 == null) ≡ false = ground (arith, o.ne_null) in
    let size : length x.sr ≡ length (ls ++ e ∷ rs) + v.room =
      ap length v.array
      ∙ omega (
        arith,
        length-append (ptrs (ls ++ e ∷ rs)) (replicate v.room null),
        length-map (ls ++ e ∷ rs) (λ (o : Entry). o.0),
        length-replicate {A = Ptr} v.room null,
      ) in
    let gap : close_gap x.sr (length ls) x.nconnections ≡ none =
      close_gap_overrun x.sr (length ls) x.nconnections
        (omega (arith, v.count, length-append ls (e ∷ rs))) (omega (arith, v.count, size)) in
    rw (here, present, o.at, gap)
