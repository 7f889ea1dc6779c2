-- ===== src/UdpServer/Receive.antt =====
-- udpserver.c: `udpserver_receive_callback` for an address that is new.
use pd_iemnet.Prelude.{
  ℕ, ◌+◌, ◌<◌, ◌≡◌, ◌≢◌, refl, ap, sym, ◌∙◌, false, Option, some, List, [], ◌∷◌, ◌++◌, ◌==◌, inl,
  inr, arith, All, length, map, length-append,
}
use mathlib.Core.Path.{subst}
use pd_iemnet.Prelude.Int.{pos}
use pd_iemnet.Output.{
  Atom, msgout, statusout, connectout, set_float, outlet_list, iemnet_numconnout,
}
use pd_iemnet.Output.Reports.{
  address_report, count_report, bytes_report, addrout-report, numconnout-report,
}
use pd_iemnet.Chunk.{Chunk, FloatList, chunk2list, atoms}
use pd_iemnet.Chunk.Laws.{Ample, IsChunk, IsDest, IsFresh}
use pd_iemnet.Chunk.FloatLists.{chunk2list-atoms}
use pd_iemnet.Os.{Effect, outs}
use pd_iemnet.TcpServer.{null}
use pd_iemnet.UdpServer.{Server, Env, deref, does}
use pd_iemnet.UdpServer.Info.{info_connection}
use pd_iemnet.UdpServer.Control.{receive_callback, receive_from}
use pd_iemnet.UdpServer.Live.{Entry, Inv, Alive-at}
use pd_iemnet.UdpServer.Find.{Unknown}
use pd_iemnet.UdpServer.Add.{newcomer, sender_add-new}

some_list :
    (env : Env) (dest : Option FloatList) (c : Chunk)
    → Ample env.os.malloc
    → IsFresh env.os.fresh
    → IsDest dest
    → IsChunk c
    → (l : FloatList) × (chunk2list env.os.malloc env.os.fresh (some c) dest ≡ some l)
      × (atoms l ≡ map set_float c.bytes)
some_list env dest c a ok d w = elim (chunk2list-atoms env.os.malloc env.os.fresh ok dest c d w) [
  | inl (_, (m, full)) ↦ absurd (ground (arith, a m, full))
  | inr (l, e, _, same) ↦ (l, e, same)
]

-- What is sent to the outlets for `bytes` from a new client, when `n` clients are registered then.
abbrev told : Chunk → ℕ → List Atom → List Effect
told c n bytes = outs (
    info_connection c.addr c.port
    ++ (iemnet_numconnout (some statusout) (some connectout) (pos n)
        ++ outlet_list msgout bytes ∷ []))

told-report :
    (c : Chunk) (n : ℕ)
    → told c n (map set_float c.bytes)
      ≡ outs (address_report c.addr c.port ++ (count_report n ++ bytes_report false c.bytes))
unfolding info_connection
told-report c n = rw (addrout-report c.addr c.port, numconnout-report n) refl

-- A datagram from an address that is not registered, at a server that accepts clients and has room
-- and memory: the address becomes the next client, its four bytes and its port are reported, then the
-- new number of clients is, each to the status outlet and to its own, and then the bytes are output
-- as one list.
pub receive_callback-new :
    (env : Env) (x : Server) (es : List Entry) (c : Chunk)
    → Inv x es
    → Unknown c.addr c.port es
    → x.accept ≢ 0
    → env.alloc ≢ null
    → All (λ o. env.alloc ≢ o.0) es
    → x.nconnections < x.maxconnections
    → Ample env.os.malloc
    → IsFresh env.os.fresh
    → IsDest x.floatlist
    → IsChunk c
    → (y : Server) × (receive_callback env x (some c) ≡ some y)
      × Inv y (es ++ (env.alloc, newcomer env x c.addr c.port) ∷ [])
      × (y.log
          ≡ x.log
            ++ outs (
                address_report c.addr c.port
                ++ (count_report (length es + 1) ++ bytes_report false c.bytes)))
unfolding receive_callback receive_from deref
receive_callback-new env x es c v u accepts ne apart free a ok d w =
    elim (sender_add-new env x es c.addr c.port v u accepts ne apart) [
      | inr (full, _) ↦ absurd (omega arith)
      | inl (_, (y, step, inv, log, list)) ↦
          let e : Entry = (env.alloc, newcomer env x c.addr c.port) in
          let there : (env.alloc == null) ≡ false = ground (arith, ne) in
          let here : y.heap env.alloc ≡ some e.1 = (Alive-at y.heap es e [] inv.alive).1 in
          let count : y.nconnections ≡ length es + 1 =
            omega (arith, inv.count, length-append es (e ∷ [])) in
          let changed : (x.nconnections == y.nconnections) ≡ false =
            ground (arith, v.count, count) in
          let (l, made, same) = some_list env y.floatlist c a ok (subst IsDest (sym list) d) w in
          (
            does (record y { floatlist = some l }) (told c y.nconnections (atoms l)),
            rw (step, there, here, made, changed) refl,
            record {
              room = inv.room;
              array = inv.array;
              count = inv.count;
              cap = inv.cap;
              small = inv.small;
              alive = inv.alive;
            },
            ap (λ t. t ++ told c y.nconnections (atoms l)) log
                ∙ ap (λ n. x.log ++ told c n (atoms l)) count
                ∙ ap (λ t. x.log ++ told c (length es + 1) t) same
                ∙ ap (λ t. x.log ++ t) (told-report c (length es + 1)),
          )
    ]
