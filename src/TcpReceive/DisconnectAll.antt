-- ===== src/TcpReceive/DisconnectAll.antt =====
-- tcpreceive.c: `tcpreceive_disconnect_all`.
use mathlib.Core.List.{append_assoc, append-nil}
use mathlib.Core.Path.{subst}
use pd_iemnet.Prelude.{
  ◌+◌, ◌≡◌, refl, ap, sym, ◌∙◌, List, [], ◌∷◌, ◌++◌, length, arith, All, length-append,
}
use pd_iemnet.Prelude.Int.{pos}
use pd_iemnet.Resource.{sockets, lost}
use pd_iemnet.Resource.Links.{socket_of}
use pd_iemnet.TcpReceive.{Slot, Listener, disconnect, all_loop, disconnect_all}
use pd_iemnet.TcpReceive.Slots.{open_sockets, IsFree, Inv, free-socket_of}
use pd_iemnet.TcpReceive.Disconnect.{round}

-- What the loop over the slots `cs` has done when it ends in `y`.
abbrev Swept : Listener → List Slot → Listener → Type 0
Swept x cs y =
    Inv y × All IsFree y.connection × (lost sockets y.log ≡ lost sockets x.log ++ open_sockets cs)

All-snoc : (ls : List Slot) (c : Slot) → All IsFree ls → IsFree c → All IsFree (ls ++ c ∷ [])
All-snoc [] c a f = (f, tt)
All-snoc (l ∷ ls) c a f = (a.0, All-snoc ls c a.1 f)

length-snoc : (ls : List Slot) (c : Slot) → length (ls ++ c ∷ []) ≡ length ls + 1
length-snoc ls c = omega (arith, length-append ls (c ∷ []))

all_loop-Swept :
    (x : Listener) (ls cs : List Slot)
    → Inv x
    → x.connection ≡ ls ++ cs
    → All IsFree ls
    → Swept x cs (all_loop (length cs) (length ls) x)
unfolding all_loop
all_loop-Swept x ls [] v at a =
    (v, subst (All IsFree) (sym (at ∙ append-nil ls)) a, sym (append-nil (lost sockets x.log)))
all_loop-Swept x ls (c ∷ cs) v at a =
    let (d, (f, w, there, closed)) = round x ls c cs v at in
    let y = (disconnect x (length ls)).0 in
    let (inv, freed, rest) =
      subst (λ n. Swept y cs (all_loop (length cs) n y)) (length-snoc ls d)
        (all_loop-Swept y (ls ++ d ∷ []) cs w (there ∙ sym (append_assoc ls (d ∷ []) cs))
          (All-snoc ls d a f)) in
    (
      inv,
      freed,
      rest
          ∙ ap (λ l. l ++ open_sockets cs) closed
          ∙ append_assoc (lost sockets x.log) (socket_of c.socket) (open_sockets cs),
    )

free-open_sockets : (cs : List Slot) → All IsFree cs → open_sockets cs ≡ []
free-open_sockets [] a = refl
free-open_sockets (c ∷ cs) a = rw (free-socket_of c a.0) (free-open_sockets cs a.1)

-- Disconnecting all leaves every slot free and no connection counted, and closes each socket that
-- was open once, in the order of the slots.
pub disconnect_all-closes :
    (x : Listener)
    → Inv x
    → Inv (disconnect_all x)
      × All IsFree (disconnect_all x).connection
      × ((disconnect_all x).nconnections ≡ pos 0)
      × (lost sockets (disconnect_all x).log ≡ lost sockets x.log ++ open_sockets x.connection)
unfolding disconnect_all
disconnect_all-closes x v =
    let (inv, freed, closed) =
      subst (λ n. Swept x x.connection (all_loop n 0 x)) v.full
        (all_loop-Swept x [] x.connection v refl tt) in
    (inv, freed, inv.count ∙ ap (λ l. pos (length l)) (free-open_sockets _ freed), closed)
