-- ===== src/TcpServer/Numbers.antt =====
-- tcpserver.c: the client number that each connection carries, `sr_client`.
use mathlib.Core.Path.{subst}
use pd_iemnet.Prelude.{
  ℕ, suc, ◌+◌, ◌≤◌, ◌≡◌, ◌≢◌, none, some, List, [], ◌∷◌, ◌++◌, length, arith, All,
}
use pd_iemnet.TcpServer.{Ptr, Conn, Conns, Server, update}
use pd_iemnet.TcpServer.Table.{disconnect_index}
use pd_iemnet.TcpServer.Live.{Entry, Inv, Live, Alone-ptr, Alone-at}
use pd_iemnet.TcpServer.Disconnect.{disconnect-Inv}

-- The connections carry the numbers from `i` on, in order.
abbrev pub Numbered : Conns → List Entry → ℕ → Type 0
Numbered h [] i = Unit {0}
Numbered h (e ∷ es) i = ((c : Conn) × (h e.0 ≡ some c) × (c.client ≡ i)) × Numbered h es (i + 1)

Numbered-update :
    (h : Conns) (p : Ptr) (es : List Entry) (i : ℕ)
    → All (λ o. p ≢ o.0) es
    → Numbered h es i
    → Numbered (update h p none) es i
unfolding update
Numbered-update h p [] i a n = tt
Numbered-update h p (e ∷ es) i a n =
    let (c, at, m) = n.0 in
    ((c, ground (arith, a.0, at), m), Numbered-update h p es (i + 1) a.1 n.1)

ends : (i : ℕ) → i + 1 ≡ i + 0 + 1
ends i = omega arith

shifts : (i n : ℕ) → i + 1 + n + 1 ≡ i + suc n + 1
shifts i n = omega arith

starts : (n : ℕ) → 0 + n + 1 ≡ n + 1
starts n = omega arith

Numbered-remove :
    (h : Conns) (ls : List Entry) (e : Entry) (rs : List Entry) (i : ℕ)
    → Live h (ls ++ e ∷ rs)
    → Numbered h (ls ++ e ∷ rs) i
    → Numbered (update h e.0 none) ls i × Numbered (update h e.0 none) rs (i + length ls + 1)
unfolding update
Numbered-remove h [] e rs i l n = (
  tt,
  subst (Numbered (update h e.0 none) rs) (ends i)
      (Numbered-update h e.0 rs (i + 1) (Alone-ptr e rs l.1) n.1),
)
Numbered-remove h (a ∷ ls) e rs i l n =
    let apart = (Alone-at a ls e rs l.1).0 in
    let (c, at, m) = n.0 in
    let (lefts, rights) = Numbered-remove h ls e rs (i + 1) l.2 n.1 in
    (
      ((c, ground (arith, apart, at), m), lefts),
      subst (Numbered (update h e.0 none) rs) (shifts i (length ls)) rights,
    )

-- If the connections carry their numbers, then after `tcpserver_disconnect` of one of them those
-- behind it still carry the numbers that they had before, one above those under which they now stand
-- in the table.
pub disconnect-stale_numbers :
    (x : Server) (ls : List Entry) (e : Entry) (rs : List Entry) (v : Inv x (ls ++ e ∷ rs))
    → 2 ≤ v.room
    → Numbered x.heap (ls ++ e ∷ rs) 0
    → (y : Server) × (disconnect_index x (length ls) ≡ some y)
      × Inv y (ls ++ rs)
      × Numbered y.heap ls 0
      × Numbered y.heap rs (length ls + 1)
disconnect-stale_numbers x ls e rs v two n =
    let (y, c, step, _, w, _, freed, _) = disconnect-Inv x ls e rs v two in
    let (lefts, rights) = Numbered-remove x.heap ls e rs 0 v.live n in
    (
      y,
      step,
      w,
      rw freed lefts,
      rw freed (subst (Numbered (update x.heap e.0 none) rs) (starts (length ls)) rights),
    )
