-- ===== src/TcpReceive/Connect.antt =====
-- tcpreceive.c: `tcpreceive_connectpoll` and `tcpreceive_addconnection`.
use mathlib.Core.Path.{subst}
use pd_iemnet.Prelude.{
  length-append, sym, ◌∙◌, suc, ℕ, ◌<◌, ◌≡◌, ◌≢◌, refl, ap, true, false, none, some, List, [], ◌∷◌,
  ◌++◌, length, arith, All, ◌⊎◌, inl, inr,
}
use pd_iemnet.Prelude.Int.{succ_ℤ, eqb_ℤ_self, ℤ, pos, minus_one, is_neg, eqb_ℤ, ntohs, ntohl}
use pd_iemnet.Os.{outs, Os, open_socket, iemnet_closesocket}
use pd_iemnet.Receiver.{receiver_create}
use pd_iemnet.TcpReceive.{
  addrout, iemnet_addrout, connectout, statusout, iemnet_numconnout, max_connections, Slot,
  Listener, Accepted, occupied, add_loop, addconnection, connectpoll, welcome,
}
use pd_iemnet.TcpReceive.Slots.{
  Distinct-insert, Distinct, All-replace, length-replace, open_sockets-busy, open_sockets-free,
  Inv-keep, IsBusy, open_sockets, IsFree, IsSlot, Inv,
}

-- The slots in front are all in use.
abbrev Front : List Slot → Type 0
Front = All (λ c. is_neg c.socket ≡ false)

-- How the search for a free slot ends: there is none, or it takes the first one.
abbrev Added : Os → ℤ → ℕ → ℕ → List Slot → Type 0
Added os fd addr port cs =
    ((add_loop os fd addr port cs ≡ none) × Front cs)
    ⊎ ((ls : List Slot) × (c : Slot) × (rs : List Slot) × (cs ≡ ls ++ c ∷ rs)
        × Front ls
        × IsFree c
        × (add_loop os fd addr port cs ≡ some (ls ++ occupied os fd addr port ∷ rs)))

add_loop-Added :
    (os : Os) (fd : ℤ) (addr port : ℕ) (cs : List Slot) → All IsSlot cs → Added os fd addr port cs
unfolding add_loop
add_loop-Added os fd addr port [] a = inl (refl, tt)
add_loop-Added os fd addr port (c ∷ cs) (inl f, a) =
    let here : eqb_ℤ c.socket minus_one ≡ true = rw f.unset refl in
    inr ([], c, cs, refl, tt, f, rw here refl)
add_loop-Added os fd addr port (c ∷ cs) (inr b, a) =
    let full : eqb_ℤ c.socket minus_one ≡ false = ground (arith, b.valid) in
    elim (add_loop-Added os fd addr port cs a) [
      | inl (e, f) ↦ inl (rw (full, e) refl, (b.valid, f))
      | inr (ls, d, rs, at, f, g, e) ↦
          inr (c ∷ ls, d, rs, ap (λ l. c ∷ l) at, (b.valid, f), g, rw (full, e) refl)
    ]

Front-length : (cs : List Slot) → Front cs → length (open_sockets cs) ≡ length cs
Front-length [] f = refl
Front-length (c ∷ cs) f = rw f.0 (ap ℕ.suc (Front-length cs f.1))

-- The object once the connection is in the slot `c`.
abbrev accepted : Os → Listener → Accepted → List Slot → List Slot → Listener
accepted os x a ls rs =
    let addr = ntohl a.from.s_addr in
    let port = ntohs a.from.sin_port in
    welcome
      (record x {
        connection = ls ++ occupied os a.fd addr port ∷ rs;
        log = (x.log ++ open_socket a.fd ∷ []) ++ (receiver_create os.malloc a.fd).1;
      })
      addr port

accepted-Inv :
    (os : Os) (x : Listener) (a : Accepted) (ls : List Slot) (c : Slot) (rs : List Slot)
    → Inv x
    → is_neg a.fd ≡ false
    → 0 < ntohs a.from.sin_port
    → All (λ t. a.fd ≢ t) (open_sockets x.connection)
    → x.connection ≡ ls ++ c ∷ rs
    → IsFree c
    → Inv (accepted os x a ls rs)
unfolding welcome
accepted-Inv os x a ls c rs v ok peer new at f =
    let d = occupied os a.fd (ntohl a.from.s_addr) (ntohs a.from.sin_port) in
    let b : IsBusy d = record { valid = ok; peer = peer; owner = refl } in
    let before = ap open_sockets at ∙ open_sockets-free ls c rs f in
    let after = open_sockets-busy ls d rs b in
    record {
      full = length-replace ls c d rs ∙ ap length (sym at) ∙ v.full;
      slots = All-replace ls c d rs (inr b) (subst (All IsSlot) at v.slots);
      distinct = subst Distinct (sym after) (
          Distinct-insert (open_sockets ls) a.fd (open_sockets rs)
            (subst (All (λ t. a.fd ≢ t)) before new) (subst Distinct before v.distinct));
      count = ground (
        arith,
        v.count,
        ap length before,
        ap length after,
        length-append (open_sockets ls) (a.fd ∷ open_sockets rs),
        length-append (open_sockets ls) (open_sockets rs),
      );
    }

-- What a request does to `x` when all slots are in use, and when one is free.
abbrev pub Requested : Os → Listener → Accepted → Listener → Type 0
Requested os x a y =
    let addr = ntohl a.from.s_addr in
    let port = ntohs a.from.sin_port in
    ((length (open_sockets x.connection) ≡ max_connections)
      × (y.connection ≡ x.connection)
      × (y.log ≡ (x.log ++ open_socket a.fd ∷ []) ++ iemnet_closesocket a.fd))
    ⊎ ((ls : List Slot) × (c : Slot) × (rs : List Slot) × (x.connection ≡ ls ++ c ∷ rs)
        × (length (open_sockets ls) ≡ length ls)
        × IsFree c
        × (y.connection ≡ ls ++ occupied os a.fd addr port ∷ rs)
        × (y.nconnections ≡ pos (suc (length (open_sockets x.connection))))
        × (y.log
            ≡ ((x.log ++ open_socket a.fd ∷ []) ++ (receiver_create os.malloc a.fd).1)
              ++ outs (
                  iemnet_numconnout (some statusout) (some connectout) y.nconnections
                  ++ iemnet_addrout (some statusout) (some addrout) addr port)))

pub tcpreceive_connectpoll-Inv :
    (os : Os) (x : Listener) (a : Accepted)
    → Inv x
    → is_neg a.fd ≡ false
    → 0 < ntohs a.from.sin_port
    → All (λ t. a.fd ≢ t) (open_sockets x.connection)
    → Inv (connectpoll os x x.connectsocket a)
      × Requested os x a (connectpoll os x x.connectsocket a)
unfolding connectpoll addconnection welcome
tcpreceive_connectpoll-Inv os x a v ok peer new =
    elim (add_loop-Added os a.fd (ntohl a.from.s_addr) (ntohs a.from.sin_port) x.connection
      v.slots) [
        | inl (e, f) ↦
            rw (eqb_ℤ_self x.connectsocket, ok, e)
              (Inv-keep x _ refl refl v, inl (Front-length x.connection f ∙ v.full, refl, refl))
        | inr (ls, c, rs, at, f, g, e) ↦
            rw (eqb_ℤ_self x.connectsocket, ok, e)
              (
                accepted-Inv os x a ls c rs v ok peer new at g,
                inr (ls, c, rs, at, Front-length ls f, g, refl, ap succ_ℤ v.count, refl),
              )
      ]
