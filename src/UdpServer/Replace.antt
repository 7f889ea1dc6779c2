-- ===== src/UdpServer/Replace.antt =====
-- udpserver.c: the table of clients when one of them is changed where it is.
use mathlib.Core.List.{map-append}
use pd_iemnet.Prelude.{
  ◌≡◌, ◌≢◌, ap, sym, ◌∙◌, some, List, [], ◌∷◌, ◌++◌, length, replicate, arith, All, get_elem?,
  length-map, length-append,
}
use pd_iemnet.Os.{Effect}
use pd_iemnet.TcpServer.{null}
use pd_iemnet.TcpServer.Gap.{get_elem?-at}
use pd_iemnet.UdpServer.{Client, Clients, Server, store, slot}
use pd_iemnet.UdpServer.Live.{Entry, ptrs, Alive, Alive-store, array_split, apart_at, Inv}

pub slot-here :
    (x : Server) (ls : List Entry) (e : Entry) (rs : List Entry) (v : Inv x (ls ++ e ∷ rs))
    → slot x (length ls) ≡ some e.0
slot-here x ls e rs v =
    ap (λ l. get_elem? l (length ls)) (array_split x ls e rs v)
    ∙ get_elem?-at (ptrs ls) e.0 (ptrs rs ++ replicate v.room null) (length ls)
        (sym (length-map ls (λ (o : Entry). o.0)))

Alive-replace :
    (h : Clients) (ls : List Entry) (e : Entry) (rs : List Entry) (c : Client)
    → Alive h (ls ++ e ∷ rs)
    → Alive (store h e.0 (some c)) (ls ++ (e.0, c) ∷ rs)
unfolding store
Alive-replace h [] e rs c l = ((l.0.0, ground arith), l.1, Alive-store h e.0 (some c) rs l.1 l.2)
Alive-replace h (a ∷ ls) e rs c l =
    let apart = apart_at a ls e rs l.1 in
    let at = l.0.1 in
    ((l.0.0, ground (arith, apart, at)), away ls e l.1, Alive-replace h ls e rs c l.2)
  where
    away :
        (ls : List Entry) (e : Entry)
        → All (λ o. a.0 ≢ o.0) (ls ++ e ∷ rs)
        → All (λ o. a.0 ≢ o.0) (ls ++ (e.0, c) ∷ rs)
    away [] e n = n
    away (o ∷ ls) e n = (n.0, away ls e n.1)

ptrs-replace :
    (ls : List Entry) (e : Entry) (rs : List Entry) (c : Client)
    → ptrs (ls ++ (e.0, c) ∷ rs) ≡ ptrs (ls ++ e ∷ rs)
ptrs-replace ls e rs c =
    map-append (λ (o : Entry). o.0) ls ((e.0, c) ∷ rs)
    ∙ sym (map-append (λ (o : Entry). o.0) ls (e ∷ rs))

-- Another client at the same place, and another log.
pub replace-Inv :
    (x : Server) (ls : List Entry) (e : Entry) (rs : List Entry) (c : Client) (log : List Effect)
    → Inv x (ls ++ e ∷ rs)
    → Inv (record x { heap = store x.heap e.0 (some c); log = log }) (ls ++ (e.0, c) ∷ rs)
replace-Inv x ls e rs c log v =
    let size : length (ls ++ (e.0, c) ∷ rs) ≡ length (ls ++ e ∷ rs) =
      omega (arith, length-append ls ((e.0, c) ∷ rs), length-append ls (e ∷ rs)) in
    record {
      room = v.room;
      array = v.array ∙ ap (λ t. t ++ replicate v.room null) (sym (ptrs-replace ls e rs c));
      count = v.count ∙ sym size;
      cap = omega (arith, v.cap, size);
      small = v.small;
      alive = Alive-replace x.heap ls e rs c v.alive;
    }
