-- ===== src/TcpReceive/Disconnect.antt =====
-- tcpreceive.c: `tcpreceive_disconnect`.
use mathlib.Core.List.{append-nil}
use mathlib.Core.Path.{subst}
use pd_iemnet.Prelude.{
  Bool-cases, Option-cases, ℕ, ◌≡◌, refl, ap, sym, ◌∙◌, true, false, some, List, [], ◌∷◌, ◌++◌,
  length, get_elem?, ltb, arith, All, ◌⊎◌, inl, inr, length-append, set-append, get_elem?-append,
}
use pd_iemnet.Prelude.Int.{pos, pred_ℤ}
use pd_iemnet.Output.{statusout, connectout, iemnet_numconnout}
use pd_iemnet.Os.{outs, iemnet_closesocket}
use pd_iemnet.Receiver.{receiver_destroy}
use pd_iemnet.Resource.{sockets, lost, lost-append, lost-outs}
use pd_iemnet.Resource.Links.{socket_of, closesocket-lost, receiver_destroy-lost}
use pd_iemnet.TcpReceive.{max_connections, Slot, Listener, disconnect, clear_slot, cleared}
use pd_iemnet.TcpReceive.Slots.{
  Distinct, open_sockets, IsFree, IsBusy, IsSlot, Inv, free-socket_of, open_sockets-free,
  open_sockets-busy, All-replace, length-replace, Distinct-remove, IsSlot-at,
}

cleared-IsFree : (c : Slot) → IsFree (cleared c)
cleared-IsFree c = record { unset = refl; no_port = refl; silent = refl }

lost-release :
    (c : Slot)
    → lost sockets (receiver_destroy c.receiver ++ iemnet_closesocket c.socket) ≡ socket_of c.socket
lost-release c =
    lost-append sockets (receiver_destroy c.receiver) (iemnet_closesocket c.socket)
    ∙ ap (λ l. l ++ lost sockets (iemnet_closesocket c.socket)) (receiver_destroy-lost c.receiver)
    ∙ closesocket-lost c.socket

abbrev pub Disconnected : Listener → List Slot → Slot → List Slot → Type 0
Disconnected x ls c rs =
    (IsFree c × (disconnect x (length ls) ≡ (x, false)))
    ⊎ (IsBusy c
        × ((y : Listener) × (disconnect x (length ls) ≡ (y, true))
            × Inv y
            × (open_sockets x.connection ≡ open_sockets ls ++ c.socket ∷ open_sockets rs)
            × (y.connection ≡ ls ++ cleared c ∷ rs)
            × (y.nconnections ≡ pos (length (open_sockets ls ++ open_sockets rs)))
            × (y.log
                ≡ (x.log ++ (receiver_destroy c.receiver ++ iemnet_closesocket c.socket))
                  ++ outs (iemnet_numconnout (some statusout) (some connectout) y.nconnections))))

module _ (x : Listener) (ls : List Slot) (c : Slot) (rs : List Slot) (v : Inv x)
    (at : x.connection ≡ ls ++ c ∷ rs) where
  inside : ltb (length ls) max_connections ≡ true
  inside =
      let size = v.full in let there = ap length at in ground (arith, length-append ls (c ∷ rs))

  pub disconnect-found : get_elem? x.connection (length ls) ≡ some c
  disconnect-found = rw at (get_elem?-append ls c rs)

  -- A free slot is left as it is.
  pub disconnect-free : IsFree c → disconnect x (length ls) ≡ (x, false)
  unfolding disconnect
  disconnect-free f = rw (inside, disconnect-found, f.no_port) refl

  pub disconnect-busy : IsBusy c → disconnect x (length ls) ≡ (clear_slot x (length ls) c, true)
  unfolding disconnect
  disconnect-busy b =
      let p : ltb 0 c.port ≡ true = ground (arith, b.peer) in rw (inside, disconnect-found, p) refl

  pub clear_slot-connection : (clear_slot x (length ls) c).connection ≡ ls ++ cleared c ∷ rs
  unfolding clear_slot
  clear_slot-connection = rw at (set-append ls c (cleared c) rs)

  pub clear_slot-log :
      (clear_slot x (length ls) c).log
      ≡ (x.log ++ (receiver_destroy c.receiver ++ iemnet_closesocket c.socket))
        ++ outs (
            iemnet_numconnout
              (some statusout)
              (some connectout)
              (clear_slot x (length ls) c).nconnections)
  unfolding clear_slot
  clear_slot-log = refl

  pub clear_slot-count :
      IsBusy c
      → (clear_slot x (length ls) c).nconnections
        ≡ pos (length (open_sockets ls ++ open_sockets rs))
  unfolding clear_slot
  clear_slot-count b =
      let all = open_sockets-busy ls c rs b in
      let n : x.nconnections ≡ pos (length (open_sockets (ls ++ c ∷ rs))) =
        subst (λ l. x.nconnections ≡ pos (length (open_sockets l))) at v.count in
      ground (
        arith,
        n,
        ap length all,
        length-append (open_sockets ls) (c.socket ∷ open_sockets rs),
        length-append (open_sockets ls) (open_sockets rs),
      )

  remaining :
      open_sockets (clear_slot x (length ls) c).connection ≡ open_sockets ls ++ open_sockets rs
  remaining =
      ap open_sockets clear_slot-connection ∙ open_sockets-free ls (cleared c) rs (cleared-IsFree c)

  pub clear_slot-Inv : IsBusy c → Inv (clear_slot x (length ls) c)
  clear_slot-Inv b = record {
    full =
        ap length clear_slot-connection
        ∙ length-replace ls c (cleared c) rs
        ∙ ap length (sym at)
        ∙ v.full;
    slots =
        subst (All IsSlot) (sym clear_slot-connection) (
          All-replace ls c (cleared c) rs (inl (cleared-IsFree c)) (subst (All IsSlot) at v.slots));
    distinct = subst Distinct (sym remaining) (
        Distinct-remove (open_sockets ls) c.socket (open_sockets rs)
          (subst Distinct (ap open_sockets at ∙ open_sockets-busy ls c rs b) v.distinct));
    count = clear_slot-count b ∙ ap (λ l. pos (length l)) (sym remaining);
  }

  pub clear_slot-lost :
      lost sockets (clear_slot x (length ls) c).log ≡ lost sockets x.log ++ socket_of c.socket
  unfolding clear_slot
  clear_slot-lost =
      lost-append sockets (x.log ++ (receiver_destroy c.receiver ++ iemnet_closesocket c.socket)) _
      ∙ ap
          (λ l.
            lost sockets (x.log ++ (receiver_destroy c.receiver ++ iemnet_closesocket c.socket))
            ++ l)
          (lost-outs sockets
            (iemnet_numconnout (some statusout) (some connectout) (pred_ℤ x.nconnections)))
      ∙ append-nil _
      ∙ lost-append sockets x.log _
      ∙ ap (λ l. lost sockets x.log ++ l) (lost-release c)

  -- Disconnecting a slot that holds a connection frees that slot and no other, counts the connection
  -- off, and gives its receiver and then its socket back before it reports the new number; a slot
  -- that holds none is left as it is.
  pub tcpreceive_disconnect-Inv : Disconnected x ls c rs
  tcpreceive_disconnect-Inv = elim (IsSlot-at ls c rs (subst (All IsSlot) at v.slots)) [
    | inl f ↦ inl (f, disconnect-free f)
    | inr b ↦ inr (
      b,
      (
        clear_slot x (length ls) c,
        disconnect-busy b,
        clear_slot-Inv b,
        ap open_sockets at ∙ open_sockets-busy ls c rs b,
        clear_slot-connection,
        clear_slot-count b,
        clear_slot-log,
      ),
    )
  ]

  -- One round of the loop over all slots.
  abbrev pub Round : Slot → Listener → Type 0
  Round d y =
      IsFree d
      × Inv y
      × (y.connection ≡ ls ++ d ∷ rs)
      × (lost sockets y.log ≡ lost sockets x.log ++ socket_of c.socket)

  pub round : (d : Slot) × Round d (disconnect x (length ls)).0
  round = elim (IsSlot-at ls c rs (subst (All IsSlot) at v.slots)) [
    | inl f ↦ rw (disconnect-free f) (
      c,
      (
        f,
        v,
        at,
        sym (
            ap (λ l. lost sockets x.log ++ l) (free-socket_of c f)
            ∙ append-nil (lost sockets x.log)),
      ),
    )
    | inr b ↦
        rw (disconnect-busy b)
          (cleared c, (cleared-IsFree c, clear_slot-Inv b, clear_slot-connection, clear_slot-lost))
  ]

split_at :
    (cs : List Slot) (i : ℕ) (c : Slot)
    → get_elem? cs i ≡ some c
    → (ls : List Slot) × (rs : List Slot) × (cs ≡ ls ++ c ∷ rs) × (length ls ≡ i)
split_at [] i c e = absurd (cc)
split_at (d ∷ cs) ℕ.zero c e = ([], cs, ground arith, refl)
split_at (d ∷ cs) (ℕ.suc i) c e =
    let (ls, rs, at, n) = split_at cs i c e in (d ∷ ls, rs, ap (λ l. d ∷ l) at, ap ℕ.suc n)

pub disconnect_any-Inv : (x : Listener) (i : ℕ) → Inv x → Inv (disconnect x i).0
unfolding disconnect
disconnect_any-Inv x i v = elim (Option-cases (get_elem? x.connection i)) [
  | inl e ↦ elim (Bool-cases (ltb i max_connections)) [ inl m ↦ rw m (rw e v) | inr m ↦ rw m v ]
  | inr (c, e) ↦
      let (ls, rs, at, n) = split_at x.connection i c e in
      subst (λ k. Inv (disconnect x k).0) n
        (elim (tcpreceive_disconnect-Inv x ls c rs v at) [
          | inl (f, same) ↦ rw same v
          | inr (b, (y, step, w, _, _, _, _)) ↦ rw step w
        ])
]
