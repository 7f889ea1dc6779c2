-- ===== src/UdpServer/Add.antt =====
-- udpserver.c: `udpserver_sender_add` registers each address once.
use mathlib.Core.List.{append_assoc, map-append}
use pd_iemnet.Prelude.{
  ℕ, suc, ◌+◌, ◌-◌, ◌<◌, ◌≡◌, ◌≢◌, refl, ap, sym, ◌∙◌, true, false, some, List, [], ◌∷◌, ◌++◌,
  length, replicate, arith, All, ◌==◌, length-map, length-append, ltb, Bool-cases, ◌⊎◌, inl, inr,
}
use pd_iemnet.TcpServer.{null, set_slot}
use pd_iemnet.TcpServer.Gap.{set_slot-at}
use pd_iemnet.Sender.{sender_create}
use pd_iemnet.Hostname.{dotted}
use pd_iemnet.UdpServer.{Client, Clients, Server, Env, store, deref}
use pd_iemnet.UdpServer.Table.{equal_addr, sender_new, append_sender, touch_sender, sender_add}
use pd_iemnet.UdpServer.Find.{Unknown, find_sender-Unknown, find_sender-index}
use pd_iemnet.UdpServer.Replace.{slot-here, replace-Inv}
use pd_iemnet.UdpServer.Live.{Entry, ptrs, Alive, Alive-at, Alive-store, Inv}

-- The client that is made for an address.
abbrev pub newcomer : Env → Server → (host port : ℕ) → Client
newcomer env x host port = record {
  host = host;
  port = port;
  hostname = dotted host;
  uniq = x.uniq;
  sender = sender_create env.os.malloc env.os.spawn x.connectsocket;
  lastseen = env.now;
}

Alive-append :
    (h : Clients) (es : List Entry) (e : Entry)
    → Alive h es
    → All (λ o. e.0 ≢ o.0) es
    → (e.0 ≢ null) × (h e.0 ≡ some e.1)
    → Alive h (es ++ e ∷ [])
Alive-append h [] e l n a = (a, tt, tt)
Alive-append h (o ∷ es) e l n a =
    (l.0, apart es e l.1 (λ q. n.0 (sym q)), Alive-append h es e l.2 n.1 a)
  where
    apart :
        (es : List Entry) (e : Entry)
        → All (λ k. o.0 ≢ k.0) es
        → o.0 ≢ e.0
        → All (λ k. o.0 ≢ k.0) (es ++ e ∷ [])
    apart [] e n m = (m, tt)
    apart (k ∷ es) e n m = (n.0, apart es e n.1 m)

append_sender-Inv :
    (env : Env) (x : Server) (es : List Entry) (host port : ℕ) (v : Inv x es)
    → env.alloc ≢ null
    → All (λ o. env.alloc ≢ o.0) es
    → x.nconnections < x.maxconnections
    → (y : Server) × (append_sender env x host port ≡ some (env.alloc, y))
      × Inv y (es ++ (env.alloc, newcomer env x host port) ∷ [])
      × (y.log ≡ x.log)
      × (y.floatlist ≡ x.floatlist)
unfolding append_sender sender_new store
append_sender-Inv env x es host port v ne apart free =
    let e : Entry = (env.alloc, newcomer env x host port) in
    let there : (env.alloc == null) ≡ false = ground (arith, ne) in
    let r : v.room ≡ suc (v.room - 1) = omega (arith, v.cap, v.count) in
    let arr : x.sr ≡ ptrs es ++ null ∷ replicate (v.room - 1) null =
      v.array ∙ ap (λ n. ptrs es ++ replicate n null) r in
    let slots : set_slot x.sr x.nconnections env.alloc
        ≡ some (ptrs (es ++ e ∷ []) ++ replicate (v.room - 1) null) =
      ap (λ l. set_slot l x.nconnections env.alloc) arr
      ∙ set_slot-at (ptrs es) null env.alloc (replicate (v.room - 1) null) x.nconnections
          (v.count ∙ sym (length-map es (λ (o : Entry). o.0)))
      ∙ ap some (
          sym (
            ap (λ l. l ++ replicate (v.room - 1) null) (map-append (λ (o : Entry). o.0) es (e ∷ []))
            ∙ append_assoc (ptrs es) (env.alloc ∷ []) (replicate (v.room - 1) null))) in
    (
      record x {
        uniq = x.uniq + 1;
        heap = store x.heap env.alloc (some e.1);
        sr = ptrs (es ++ e ∷ []) ++ replicate (v.room - 1) null;
        nconnections = x.nconnections + 1;
      },
      rw (there, slots) refl,
      record {
        room = v.room - 1;
        array = refl;
        count = omega (arith, v.count, length-append es (e ∷ []));
        cap = omega (arith, v.cap, v.count, length-append es (e ∷ []));
        small = v.small;
        alive =
            Alive-append (store x.heap env.alloc (some e.1)) es e
              (Alive-store x.heap env.alloc (some e.1) es apart v.alive) apart (ne, ground arith);
      },
      refl,
      refl,
    )

touch_sender-Inv :
    (env : Env) (x : Server) (ls : List Entry) (e : Entry) (rs : List Entry)
    (v : Inv x (ls ++ e ∷ rs))
    → (y : Server) × (touch_sender env x (length ls) ≡ some (e.0, y))
      × Inv y (ls ++ (e.0, record e.1 { lastseen = env.now }) ∷ rs)
unfolding touch_sender deref
touch_sender-Inv env x ls e rs v =
    let c = record e.1 { lastseen = env.now } in
    let l = Alive-at x.heap ls e rs v.alive in
    let present : (e.0 == null) ≡ false = let ne = l.0 in ground (arith, ne) in
    (
      record x { heap = store x.heap e.0 (some c) },
      rw (slot-here x ls e rs v, present, l.1) refl,
      replace-Inv x ls e rs c x.log v,
    )

-- A message from an address that is not registered registers it under the next number, if the server
-- accepts clients and has room, and sends nothing to an outlet; if it has no room, nothing changes
-- and the result is NULL.
pub sender_add-new :
    (env : Env) (x : Server) (es : List Entry) (host port : ℕ)
    → Inv x es
    → Unknown host port es
    → x.accept ≢ 0
    → env.alloc ≢ null
    → All (λ o. env.alloc ≢ o.0) es
    → ((x.nconnections < x.maxconnections)
        × ((y : Server) × (sender_add env x host port ≡ some (env.alloc, y))
            × Inv y (es ++ (env.alloc, newcomer env x host port) ∷ [])
            × (y.log ≡ x.log)
            × (y.floatlist ≡ x.floatlist)))
      ⊎ ((x.nconnections ≡ x.maxconnections) × (sender_add env x host port ≡ some (null, x)))
unfolding sender_add
sender_add-new env x es host port v u accepts ne apart =
    let known : (x.accept == 0) ≡ false = ground (arith, accepts) in
    elim (Bool-cases (ltb x.nconnections x.maxconnections)) [
      | inr full ↦ inr (
        ground (arith, v.cap, v.count),
        rw (known, find_sender-Unknown x es host port v u, full) refl,
      )
      | inl free ↦
          let (y, step, w, log, list) =
            append_sender-Inv env x es host port v ne apart (ground arith) in
          inl (
            ground arith,
            (y, rw (known, find_sender-Unknown x es host port v u, free) step, w, log, list),
          )
    ]

-- A message from an address that is registered keeps the table as it is, and only renews the time at
-- which that client was seen.
pub sender_add-known :
    (env : Env) (x : Server) (ls : List Entry) (e : Entry) (rs : List Entry) (host port : ℕ)
    → Inv x (ls ++ e ∷ rs)
    → Unknown host port ls
    → equal_addr host port e.1.host e.1.port ≡ true
    → x.accept ≢ 0
    → (y : Server) × (sender_add env x host port ≡ some (e.0, y))
      × Inv y (ls ++ (e.0, record e.1 { lastseen = env.now }) ∷ rs)
unfolding sender_add
sender_add-known env x ls e rs host port v u same accepts =
    let known : (x.accept == 0) ≡ false = ground (arith, accepts) in
    let (y, step, w) = touch_sender-Inv env x ls e rs v in
    (y, rw (known, find_sender-index x ls e rs host port v u same) step, w)
