-- ===== src/TcpServer/Target.antt =====
-- tcpserver.c: the default target and what is sent to it.
use pd_iemnet.Prelude.{
  ℕ, suc, ◌+◌, ◌-◌, ◌≡◌, ◌≢◌, refl, ap, ◌∙◌, true, false, none, some, List, ◌∷◌, ◌++◌, ◌==◌, arith,
  length, ltb, All, length-append,
}
use pd_iemnet.Prelude.Int.{ℤ, pos, negsuc, neg, is_neg, eqb_ℤ}
use pd_iemnet.Output.{Atom}
use pd_iemnet.Os.{Os}
use pd_iemnet.TcpServer.{null, Server, slot, deref}
use pd_iemnet.TcpServer.Table.{socket2index}
use pd_iemnet.TcpServer.Send.{defaulttarget, defaultsend, broadcast, send_toclient, send_butclient}
use pd_iemnet.TcpServer.Live.{Entry, Inv, Inv-keep, Live-at}
use pd_iemnet.TcpServer.Lookup.{socket2index-index, index_of_at, slot-at, index_of-none}

-- The server with a socket as its default target.
abbrev pub aimed : Server → ℤ → Server
aimed x fd = record x { defaulttarget = fd }

-- Choosing a client as the target keeps its socket, positive for the client itself and negative for
-- all others; choosing client 0 means all of them. The choice never faults and leaves the table as it
-- is.
pub defaulttarget-socket :
    (x : Server) (ls : List Entry) (e : Entry) (rs : List Entry)
    → Inv x (ls ++ e ∷ rs)
    → (defaulttarget x (pos (length ls + 1)) ≡ some (aimed x e.1))
      × (defaulttarget x (negsuc (length ls)) ≡ some (aimed x (neg e.1)))
      × (defaulttarget x (pos 0) ≡ some (aimed x (pos 0)))
unfolding defaulttarget deref
defaulttarget-socket x ls e rs v =
    let o = Live-at x.heap ls e rs v.live in
    let present : (e.0 == null) ≡ false = ground (arith, o.ne_null) in
    let here : slot x (length ls) ≡ some e.0 = slot-at x ls e rs v in
    let count = length-append ls (e ∷ rs) in
    let below : ltb x.nconnections (length ls + 1) ≡ false = ground (arith, v.count, count) in
    let below' : ltb x.nconnections (suc (length ls)) ≡ false = ground (arith, v.count, count) in
    let above : ltb 0 (length ls + 1) ≡ true = ground arith in
    let above' : ltb 0 (suc (length ls)) ≡ true = ground arith in
    let index : length ls + 1 - 1 ≡ length ls = omega arith in
    let index' : suc (length ls) - 1 ≡ length ls = omega arith in
    let none_below : ltb x.nconnections 0 ≡ false = ground arith in
    (
      rw (below, above, index, here, present, o.at) (ap (λ f. some (aimed x f)) o.socket),
      rw (below', above', index', here, present, o.at) (ap (λ f. some (aimed x (neg f))) o.socket),
      rw none_below refl,
    )

found-at :
    (x : Server) (ls : List Entry) (e : Entry) (rs : List Entry) (fd : ℤ)
    → Inv x (ls ++ e ∷ rs)
    → socket2index (aimed x fd) e.1 ≡ some (some (length ls))
found-at x ls e rs fd v =
    socket2index-index (aimed x fd) (ls ++ e ∷ rs) e.1
      (Inv-keep x (aimed x fd) (ls ++ e ∷ rs) refl refl refl refl v)
    ∙ ap some (index_of_at ls e rs x.heap v.live)

-- A message to a target whose socket is positive goes to the client that has the socket, and to a
-- negative target to all but that client, under the number that the client has now, which may be
-- another than when it was chosen. With target 0 it goes to all.
pub defaultsend-target :
    (os : Os) (x : Server) (ls : List Entry) (e : Entry) (rs : List Entry) (n : ℕ)
    (argv : List Atom)
    → e.1 ≡ pos (suc n)
    → Inv x (ls ++ e ∷ rs)
    → (defaultsend os (aimed x e.1) argv ≡ send_toclient os (aimed x e.1) (length ls) argv)
      × (defaultsend os (aimed x (neg e.1)) argv
          ≡ send_butclient os (aimed x (neg e.1)) (length ls) argv)
      × (defaultsend os (aimed x (pos 0)) argv ≡ broadcast os (aimed x (pos 0)) argv)
unfolding defaultsend
defaultsend-target os x ls e rs n argv positive v =
    let plus : is_neg e.1 ≡ false = rw positive refl in
    let nonzero : eqb_ℤ e.1 (pos 0) ≡ false = rw positive (ground arith) in
    let minus : is_neg (neg e.1) ≡ true = rw positive (ground arith) in
    let back : neg (neg e.1) ≡ e.1 = rw positive (ground arith) in
    (
      rw (plus, nonzero, found-at x ls e rs e.1 v) refl,
      rw (minus, back, found-at x ls e rs (neg e.1) v) refl,
      refl,
    )

-- A message to a target that is gone, be it one client or all but one, goes to all that are left, and
-- the target is 0 from then on.
pub defaultsend-gone :
    (os : Os) (x : Server) (es : List Entry) (n : ℕ) (argv : List Atom)
    → Inv x es
    → All (λ e. e.1 ≢ pos (suc n)) es
    → (defaultsend os (aimed x (pos (suc n))) argv ≡ broadcast os (aimed x (pos 0)) argv)
      × (defaultsend os (aimed x (negsuc n)) argv ≡ broadcast os (aimed x (pos 0)) argv)
unfolding defaultsend
defaultsend-gone os x es n argv v h =
    let gone : (fd : ℤ) → socket2index (aimed x fd) (pos (suc n)) ≡ some none = λ fd.
      socket2index-index (aimed x fd) es (pos (suc n))
        (Inv-keep x (aimed x fd) es refl refl refl refl v)
      ∙ ap some (index_of-none (pos (suc n)) es 0 h) in
    let nonzero : eqb_ℤ (pos (suc n)) (pos 0) ≡ false = ground arith in
    (rw (nonzero, gone (pos (suc n))) refl, rw (gone (negsuc n)) refl)
