-- ===== src/TcpServer/Receive.antt =====
-- tcpserver.c: `tcpserver_receive_callback`.
use pd_iemnet.Prelude.{
  ℕ, ◌≡◌, refl, ap, ◌∙◌, false, none, some, List, ◌∷◌, ◌++◌, ◌==◌, ◌⊎◌, inl, inr, arith, length,
  map,
}
use pd_iemnet.Output.{msgout, set_float, iemnet_streamout}
use pd_iemnet.Chunk.{Chunk, FloatList, atoms}
use pd_iemnet.Chunk.Laws.{IsChunk, IsDest, IsFresh}
use pd_iemnet.Chunk.FloatLists.{chunk2list-atoms}
use pd_iemnet.Os.{Os, outs}
use pd_iemnet.TcpServer.{null, receive, Conn, Server, emits}
use pd_iemnet.TcpServer.Info.{info_connection}
use pd_iemnet.TcpServer.Table.{disconnect_index, disconnect_socket}
use pd_iemnet.TcpServer.Control.{receive_callback, receive_event, receive_chunk}
use pd_iemnet.TcpServer.Live.{Entry, Inv, Inv-keep, Live-at}
use pd_iemnet.TcpServer.Lookup.{disconnect_socket-index}

-- The server after bytes came for a connection, `l` being the list that holds them.
abbrev received : Server → Conn → FloatList → Server
received x c l =
    emits (record (emits x (info_connection c receive)) { floatlist = some l })
      (iemnet_streamout (some msgout) (atoms l) x.serialize)

-- Bytes that arrive on an open connection are reported with that connection, and then its bytes are
-- output, in order and nothing more; the connections stay as they are. The one failure is a float
-- list that has to grow and finds no memory: then the program faults.
pub receive_callback-bytes :
    (os : Os) (x : Server) (ls : List Entry) (e : Entry) (rs : List Entry) (chunk : Chunk)
    → Inv x (ls ++ e ∷ rs)
    → IsFresh os.fresh
    → IsDest x.floatlist
    → IsChunk chunk
    → ((receive_callback os x e.0 (some chunk) ≡ none) × ((m : ℕ) × (os.malloc m ≡ false)))
      ⊎ ((y : Server) × (c : Conn) × (receive_callback os x e.0 (some chunk) ≡ some y)
          × (x.heap e.0 ≡ some c)
          × Inv y (ls ++ e ∷ rs)
          × IsDest y.floatlist
          × (y.log
              ≡ (x.log ++ outs (info_connection c receive))
                ++ outs (iemnet_streamout (some msgout) (map set_float chunk.bytes) x.serialize)))
unfolding receive_callback receive_event receive_chunk
receive_callback-bytes os x ls e rs chunk v ok d w =
    let o = Live-at x.heap ls e rs v.live in
    let present : (e.0 == null) ≡ false = ground (arith, o.ne_null) in
    elim (chunk2list-atoms os.malloc os.fresh ok x.floatlist chunk d w) [
      | inl (f, m) ↦ inl (rw (present, o.at, o.owned) (rw f refl), m)
      | inr (l, f, g, a) ↦ inr (
        received x o.conn l,
        o.conn,
        rw (present, o.at, o.owned) (rw f refl),
        o.at,
        Inv-keep x (received x o.conn l) (ls ++ e ∷ rs) refl refl refl refl v,
        g,
        ap
            (λ t.
              (x.log ++ outs (info_connection o.conn receive))
              ++ outs (iemnet_streamout (some msgout) t x.serialize))
            a,
      )
    ]

-- The end of a connection is a disconnection of that connection, and nothing else.
pub receive_callback-end :
    (os : Os) (x : Server) (ls : List Entry) (e : Entry) (rs : List Entry)
    → Inv x (ls ++ e ∷ rs)
    → receive_callback os x e.0 none ≡ disconnect_index x (length ls)
unfolding receive_callback
receive_callback-end os x ls e rs v =
    let o = Live-at x.heap ls e rs v.live in
    let present : (e.0 == null) ≡ false = ground (arith, o.ne_null) in
    rw (present, o.at, o.owned)
      (ap (disconnect_socket x) o.socket ∙ disconnect_socket-index x ls e rs v)
