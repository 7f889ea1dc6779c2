-- ===== src/TcpServer/DisconnectAll.antt =====
-- tcpserver.c: `tcpserver_disconnect_all` counts up while the table moves down.
use mathlib.Core.List.{append_assoc, append-nil}
use mathlib.Core.Path.{subst}
use pd_iemnet.Prelude.{
  ℕ, zero, suc, ◌+◌, ◌≤◌, ◌<◌, ◌≡◌, refl, ap, sym, ◌∙◌, Option, some, List, [], ◌∷◌, ◌++◌, length,
  arith, length-append,
}
use pd_iemnet.TcpServer.{Server}
use pd_iemnet.TcpServer.Table.{disconnect_index, all_loop, disconnect_all}
use pd_iemnet.TcpServer.Live.{Entry, Inv}
use pd_iemnet.TcpServer.Disconnect.{disconnect-Inv}

-- The second, fourth, … of a list.
abbrev pub odds {ℓ} : {A : Type ℓ} → List A → List A
odds [] = []
odds (a ∷ []) = []
odds (a ∷ b ∷ rest) = b ∷ odds rest

abbrev Left : Server → List Entry → Option Server → Type 0
Left x es r = (y : Server) × (r ≡ some y) × Inv y es × (y.maxconnections ≡ x.maxconnections)

all_loop_stop :
    (fuel : ℕ) (x : Server) (id : ℕ) → 0 < fuel → x.nconnections ≤ id → all_loop fuel id x ≡ some x
unfolding all_loop
all_loop_stop zero x id f h = absurd (omega arith)
all_loop_stop (suc fuel) x id f h = ground arith

all_loop_go :
    (fuel : ℕ) (x y : Server) (id : ℕ)
    → id < x.nconnections
    → disconnect_index x id ≡ some y
    → all_loop (suc fuel) id x ≡ all_loop fuel (id + 1) y
unfolding all_loop
all_loop_go fuel x y id h e = ground arith

all_loop-odds :
    (fuel : ℕ) (x : Server) (ls rs : List Entry) (id : ℕ) (v : Inv x (ls ++ rs))
    → id ≡ length ls
    → length rs < fuel
    → 2 ≤ v.room
    → Left x (ls ++ odds rs) (all_loop fuel id x)
all_loop-odds zero x ls rs id v e f r = absurd (omega arith)
all_loop-odds (suc fuel) x ls [] id v e f r = (
  x,
  all_loop_stop (suc fuel) x id (omega arith) (omega (arith, v.count, ap length (append-nil ls))),
  v,
  refl,
)
all_loop-odds (suc fuel) x ls (a ∷ []) id v e f r =
    let (y, _, step, _, w, m, _, _) = disconnect-Inv x ls a [] v r in
    (
      y,
      all_loop_go fuel x y id (omega (arith, v.count, length-append ls (a ∷ []))) (rw e step)
          ∙ all_loop_stop fuel y (id + 1) (omega arith)
              (omega (arith, w.count, ap length (append-nil ls))),
      w,
      m,
    )
all_loop-odds (suc fuel) x ls (a ∷ b ∷ rs) id v e f r =
    let (y, _, step, _, w, m, _, _) = disconnect-Inv x ls a (b ∷ rs) v r in
    let w' : Inv y ((ls ++ b ∷ []) ++ rs) = subst (Inv y) (sym (append_assoc ls (b ∷ []) rs)) w in
    let wider : 2 ≤ w'.room = omega (
      arith,
      v.cap,
      w'.cap,
      m,
      length-append ls (a ∷ b ∷ rs),
      length-append (ls ++ b ∷ []) rs,
      length-append ls (b ∷ []),
    ) in
    let longer : id + 1 ≡ length (ls ++ b ∷ []) = omega (arith, length-append ls (b ∷ [])) in
    let below : id < x.nconnections = omega (arith, v.count, length-append ls (a ∷ b ∷ rs)) in
    let (z, loop, u, n) =
      all_loop-odds fuel y (ls ++ b ∷ []) rs (id + 1) w' longer (omega arith) wider in
    (
      z,
      all_loop_go fuel x y id below (rw e step) ∙ loop,
      subst (Inv z) (append_assoc ls (b ∷ []) (odds rs)) u,
      n ∙ m,
    )

-- "Disconnect all" leaves every second client connected: with two places to spare in the table,
-- `tcpserver_disconnect_all` never faults, and the second, fourth, sixth … of the open connections
-- are still open after it, in their order, and no others.
pub disconnect_all-odds :
    (x : Server) (es : List Entry) (v : Inv x es) → 2 ≤ v.room → Left x (odds es) (disconnect_all x)
unfolding disconnect_all
disconnect_all-odds x es v r =
    all_loop-odds (suc x.nconnections) x [] es 0 v refl (omega (arith, v.count)) r
