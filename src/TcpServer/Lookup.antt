-- ===== src/TcpServer/Lookup.antt =====
-- tcpserver.c: finding a connection by its socket or its number, and `tcpserver_disconnect_socket`.
use mathlib.Core.List.{append_assoc, map-append}
use pd_iemnet.Prelude.{
  ℕ, suc, ◌+◌, ◌-◌, ◌≡◌, ◌≢◌, refl, ap, sym, ◌∙◌, Bool, true, false, Option, none, some, List, [],
  ◌∷◌, ◌++◌, ltb, leb, length, arith, length-append, get_elem?, replicate, ◌==◌, length-map, All,
  ◌&&◌, if◌then◌else◌,
}
use pd_iemnet.Prelude.Int.{ℤ, pos, eqb_ℤ, eqb_ℤ_iff, eqb_ℤ_self}
use pd_iemnet.TcpServer.{Ptr, null, Server, slot, deref, Conns}
use pd_iemnet.TcpServer.Table.{
  find_loop, socket2index, fixindex, disconnect_index, disconnect_client, disconnect_socket,
}
use pd_iemnet.TcpServer.Live.{Entry, ptrs, Open, Live, Alone-at, Inv}
use pd_iemnet.TcpServer.Gap.{get_elem?-at}

-- The place of a socket among the open connections.
abbrev pub index_of : ℤ → List Entry → ℕ → Option ℕ
index_of fd [] i = none
index_of fd (e ∷ es) i =
    let rest = index_of fd es (i + 1) in elim (eqb_ℤ e.1 fd) [ true ↦ some i | false ↦ rest ]

find_loop_step :
    (n i : ℕ) (x : Server) (fd : ℤ) (e : Entry)
    → slot x i ≡ some e.0
    → Open x.heap e
    → find_loop (suc n) i x fd
      ≡ elim (eqb_ℤ e.1 fd) [ true ↦ some (some i) | false ↦ find_loop n (i + 1) x fd ]
unfolding find_loop deref
find_loop_step n i x fd e s o =
    let present : (e.0 == null) ≡ false = ground (arith, o.ne_null) in
    let same = o.socket in ground (arith, present, s, o.at, same)

found :
    (b : Bool) (i : ℕ) {r : Option (Option ℕ)} {o : Option ℕ}
    → r ≡ some o
    → elim b [ true ↦ some (some i) | false ↦ r ] ≡ some (elim b [ true ↦ some i | false ↦ o ])
found true i e = refl
found false i e = e

find_loop-index :
    (x : Server) (ls rs : List Entry) (tail : List Ptr) (i : ℕ) (fd : ℤ)
    → x.sr ≡ ptrs ls ++ (ptrs rs ++ tail)
    → i ≡ length ls
    → Live x.heap rs
    → find_loop (length rs) i x fd ≡ some (index_of fd rs i)
unfolding find_loop
find_loop-index x ls [] tail i fd a e l = refl
find_loop-index x ls (r ∷ rs) tail i fd a e l =
    let here : slot x i ≡ some r.0 =
      ap (λ t. get_elem? t i) a
      ∙ get_elem?-at (ptrs ls) r.0 (ptrs rs ++ tail) i
          (e ∙ sym (length-map ls (λ (o : Entry). o.0))) in
    let moved : x.sr ≡ ptrs (ls ++ r ∷ []) ++ (ptrs rs ++ tail) =
      a
      ∙ sym (append_assoc (ptrs ls) (r.0 ∷ []) (ptrs rs ++ tail))
      ∙ ap (λ t. t ++ (ptrs rs ++ tail)) (sym (map-append (λ (o : Entry). o.0) ls (r ∷ []))) in
    find_loop_step (length rs) i x fd r here l.0
    ∙ found (eqb_ℤ r.1 fd) i (
        find_loop-index x (ls ++ r ∷ []) rs tail (i + 1) fd moved
          (omega (arith, length-append ls (r ∷ []))) l.2)

-- `tcpserver_socket2index` never faults; it returns the number of the first open connection on the
-- socket, or -1 if there is none.
pub socket2index-index :
    (x : Server) (es : List Entry) (fd : ℤ) → Inv x es → socket2index x fd ≡ some (index_of fd es 0)
unfolding socket2index
socket2index-index x es fd v =
    ap (λ n. find_loop n 0 x fd) v.count
    ∙ find_loop-index x [] es (replicate v.room null) 0 fd v.array refl v.live

index_of-split :
    (ls : List Entry) (e : Entry) (rs : List Entry) (i : ℕ) (h : Conns)
    → Live h (ls ++ e ∷ rs)
    → index_of e.1 (ls ++ e ∷ rs) i ≡ some (i + length ls)
index_of-split [] e rs i h l = rw (eqb_ℤ_self e.1, index_of) (ap some (omega arith))
index_of-split (o ∷ ls) e rs i h l =
    let apart : eqb_ℤ o.1 e.1 ≡ false =
      ground (arith, (Alone-at o ls e rs l.1).1, eqb_ℤ_iff o.1 e.1) in
    rw (apart, index_of) (index_of-split ls e rs (i + 1) h l.2 ∙ ap some (omega arith))

pub index_of_at :
    (ls : List Entry) (e : Entry) (rs : List Entry) (h : Conns)
    → Live h (ls ++ e ∷ rs)
    → index_of e.1 (ls ++ e ∷ rs) 0 ≡ some (length ls)
index_of_at ls e rs h l = index_of-split ls e rs 0 h l ∙ ap some (omega arith)

pub index_of-none :
    (fd : ℤ) (es : List Entry) (i : ℕ) → All (λ e. e.1 ≢ fd) es → index_of fd es i ≡ none
index_of-none fd [] i h = refl
index_of-none fd (e ∷ es) i h =
    let apart : eqb_ℤ e.1 fd ≡ false = ground (arith, h.0, eqb_ℤ_iff e.1 fd) in
    rw (apart, index_of) (index_of-none fd es (i + 1) h.1)

-- The client numbers that are accepted are 1 to the number of connections; each gives the index one
-- below it.
pub fixindex_range :
    (x : Server) (client : ℕ)
    → fixindex x (pos client)
      ≡ (if ltb 0 client && leb client x.nconnections then some (client - 1) else none)
unfolding fixindex
fixindex_range x client = ground arith

disconnect_client_at :
    (x : Server) (i : ℕ)
    → fixindex x (pos (i + 1)) ≡ some i
    → disconnect_client x (pos (i + 1)) ≡ disconnect_index x i
unfolding disconnect_client
disconnect_client_at x i e = rw (e, disconnect_client)

-- Disconnecting by the socket of an open connection is disconnecting that connection.
pub disconnect_socket-index :
    (x : Server) (ls : List Entry) (e : Entry) (rs : List Entry)
    → Inv x (ls ++ e ∷ rs)
    → disconnect_socket x e.1 ≡ disconnect_index x (length ls)
unfolding disconnect_socket
disconnect_socket-index x ls e rs v =
    let number : fixindex x (pos (length ls + 1)) ≡ some (length ls) =
      rw (fixindex_range x (length ls + 1)) (ground (arith, v.count, length-append ls (e ∷ rs))) in
    rw (socket2index-index x (ls ++ e ∷ rs) e.1 v, index_of_at ls e rs x.heap v.live)
      (disconnect_client_at x (length ls) number)

-- Disconnecting by a socket that no open connection has changes nothing.
pub disconnect_socket-none :
    (x : Server) (es : List Entry) (fd : ℤ)
    → Inv x es
    → All (λ e. e.1 ≢ fd) es
    → disconnect_socket x fd ≡ some x
unfolding disconnect_socket
disconnect_socket-none x es fd v h = rw (socket2index-index x es fd v, index_of-none fd es 0 h)

-- The pointer of a connection stands at its index.
pub slot-at :
    (x : Server) (ls : List Entry) (e : Entry) (rs : List Entry)
    → Inv x (ls ++ e ∷ rs)
    → slot x (length ls) ≡ some e.0
slot-at x ls e rs v =
    ap (λ l. get_elem? l (length ls))
      (v.array
        ∙ ap (λ l. l ++ replicate v.room null) (map-append (λ (o : Entry). o.0) ls (e ∷ rs))
        ∙ append_assoc (ptrs ls) (e.0 ∷ ptrs rs) (replicate v.room null))
    ∙ get_elem?-at (ptrs ls) e.0 (ptrs rs ++ replicate v.room null) (length ls)
        (sym (length-map ls (λ (o : Entry). o.0)))
