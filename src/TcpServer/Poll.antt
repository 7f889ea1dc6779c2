-- ===== src/TcpServer/Poll.antt =====
-- iemnet_receiver.c and tcpserver.c: the receiver of a connection polls, and the server outputs.
use pd_iemnet.Prelude.{
  ℕ, suc, ◌≡◌, refl, ◌∙◌, false, Option, some, List, ◌∷◌, ◌++◌, inl, inr, arith, length,
}
use pd_iemnet.Prelude.Int.{pos, ltb_ℤ}
use pd_iemnet.Chunk.Laws.{IsDest, IsFresh, Ample}
use pd_iemnet.Chunk.FloatLists.{IsBytes}
use pd_iemnet.Receiver.{Received, pollfun}
use pd_iemnet.Receiver.Laws.{received_chunk-bytes, received_chunk-none, of_peer, of_peer-IsChunk}
use pd_iemnet.Os.{Os, outs}
use pd_iemnet.TcpServer.{Server, Conn}
use pd_iemnet.Output.Reports.{bytes_report, streamout-report}
use pd_iemnet.TcpServer.Reports.{connection_report, info_connection-receive}
use pd_iemnet.TcpServer.Table.{disconnect_index}
use pd_iemnet.TcpServer.Control.{receive_callback}
use pd_iemnet.TcpServer.Live.{Entry, Inv}
use pd_iemnet.TcpServer.Receive.{receive_callback-bytes, receive_callback-end}

-- The callback of the receiver of an entry.
abbrev pub poll : Os → Entry → Server → Received → Option Server
poll os e x r = pollfun os.malloc (λ y. receive_callback os y e.0) x r

pub poll-bytes :
    (os : Os) (x : Server) (ls : List Entry) (e : Entry) (rs : List Entry) (r : Received) (n : ℕ)
    → Inv x (ls ++ e ∷ rs)
    → Ample os.malloc
    → IsFresh os.fresh
    → IsDest x.floatlist
    → r.result ≡ pos (suc n)
    → length r.bytes ≡ suc n
    → IsBytes r.bytes
    → (y : Server) × (c : Conn) × (poll os e x r ≡ some y)
      × (x.heap e.0 ≡ some c)
      × Inv y (ls ++ e ∷ rs)
      × IsDest y.floatlist
      × (y.log
          ≡ (x.log ++ outs (connection_report (some "receive") c))
            ++ outs (bytes_report x.serialize r.bytes))
unfolding pollfun
poll-bytes os x ls e rs r n v a ok d result len b =
    let chunk = received_chunk-bytes os.malloc r n a result len in
    elim (receive_callback-bytes os x ls e rs (of_peer r (suc n)) v ok d
      (of_peer-IsChunk r n len b)) [
        | inl (_, (m, full)) ↦ absurd (ground (arith, a m, full))
        | inr (y, c, step, at, w, dest, log) ↦ (
          y,
          c,
          rw chunk step,
          at,
          w,
          dest,
          log ∙ rw (info_connection-receive c, streamout-report r.bytes x.serialize) refl,
        )
      ]

-- When `recvfrom` returns 0 or an error, that connection is disconnected.
pub poll-end :
    (os : Os) (x : Server) (ls : List Entry) (e : Entry) (rs : List Entry) (r : Received)
    → Inv x (ls ++ e ∷ rs)
    → ltb_ℤ (pos 0) r.result ≡ false
    → poll os e x r ≡ disconnect_index x (length ls)
unfolding pollfun
poll-end os x ls e rs r v h =
    rw (received_chunk-none os.malloc r h) (receive_callback-end os x ls e rs v)
