-- ===== src/UdpServer/Table.antt =====
-- udpserver.c: making and freeing clients, and the table of clients.
use pd_iemnet.Prelude.{
  ℕ, zero, suc, ◌+◌, ◌-◌, ◌%◌, ◌^◌, Bool, Option, none, some, List, [], ◌∷◌, ◌++◌, ◌==◌, ltb, leb,
  if◌then◌else◌, ◌>>=◌, get_elem?, ◌&&◌,
}
use pd_iemnet.Prelude.Int.{ℤ, pos, negsuc, eqb_ℤ, ltb_ℤ}
use pd_iemnet.Os.{Effect, join_sender, iemnet_closesocket}
use pd_iemnet.Sender.{sender_create}
use pd_iemnet.Hostname.{dotted}
use pd_iemnet.TcpServer.{Ptr, null, set_slot}
use pd_iemnet.UdpServer.{Client, Server, Env, store, does, slot, deref}

-- NULL, and the server as it was, if there is no memory.
unfoldable pub sender_new : Env → Server → (host port : ℕ) → Ptr × Server
sender_new env x host port =
    if env.alloc == null
    then (null, x)
    else let c : Client = record {
      host = host;
      port = port;
      hostname = dotted host;
      uniq = x.uniq;
      sender = sender_create env.os.malloc env.os.spawn x.connectsocket;
      lastseen = env.now;
    } in
      (env.alloc, record x { uniq = x.uniq + 1; heap = store x.heap env.alloc (some c) })

-- The sender is destroyed, and then the socket closed whose number is the client's `uniq`.
unfoldable pub release : Client → List Effect
release c =
    elim c.sender [ none ↦ [] | some s ↦ join_sender s.sockfd ∷ [] ]
    ++ iemnet_closesocket (pos c.uniq)

unfoldable pub sender_free : Server → Ptr → Option Server
unfolding release
sender_free x p =
    if p == null
    then some x
    else do c ← x.heap p; some (does (record x { heap = store x.heap p none }) (release c))

-- The loop of `udpserver_socket2index` from index `i`, with the rounds that are left. A fault is
-- `none`, the result -1 is `some none`.
unfoldable pub find_loop : ℕ → ℕ → Server → ℤ → Option (Option ℕ)
find_loop zero i x sockfd = some none
find_loop (suc n) i x sockfd =
    let rest = find_loop n (i + 1) x sockfd in
    do p ← slot x i; c ← deref x p; if eqb_ℤ (pos c.uniq) sockfd then some (some i) else rest

unfoldable pub socket2index : Server → ℤ → Option (Option ℕ)
unfolding find_loop
socket2index x sockfd = find_loop x.nconnections 0 x sockfd

-- The index of a client number, counted from 1; `none` is the result -1.
unfoldable pub fixindex : Server → ℤ → Option ℕ
fixindex x (negsuc n) = none
fixindex x (pos client) =
    if ltb client 1
    then none
    else if leb x.nconnections 0
    then none
    else if ltb x.nconnections client
    then none
    else some (client - 1)

abbrev pub equal_addr : (host1 port1 host2 port2 : ℕ) → Bool
equal_addr host1 port1 host2 port2 = (port1 == port2) && (host1 == host2)

-- The loop of `udpserver__find_sender`, as `find_loop`; a NULL pointer ends it.
unfoldable pub address_loop : ℕ → ℕ → Server → (host port : ℕ) → Option (Option ℕ)
address_loop zero i x host port = some none
address_loop (suc n) i x host port =
    let rest = address_loop n (i + 1) x host port in
    do
      p ← slot x i
      if p == null then some none else (do
        c ← deref x p
        if equal_addr host port c.host c.port then some (some i) else rest)

unfoldable pub find_sender : Server → (host port : ℕ) → Option (Option ℕ)
unfolding address_loop
find_sender x host port = address_loop x.nconnections 0 x host port

-- `x->x_sr[id] = udpserver_sender_new(x, host, port); x->x_nconnections++;`
unfoldable pub append_sender : Env → Server → (host port : ℕ) → Option (Ptr × Server)
append_sender env x host port =
    let (p, y) = sender_new env x host port in
    do
      sr ← set_slot y.sr x.nconnections p
      some (p, record y { sr = sr; nconnections = x.nconnections + 1 })

-- `x->x_sr[id]->sr_lastseen = clock_getlogicaltime()`
unfoldable pub touch_sender : Env → Server → ℕ → Option (Ptr × Server)
touch_sender env x id = do
  p ← slot x id
  c ← deref x p
  some (p, record x { heap = store x.heap p (some (record c { lastseen = env.now })) })

-- The client with the address, which is added if it is new; NULL if none may be added.
unfoldable pub sender_add : Env → Server → (host port : ℕ) → Option (Ptr × Server)
sender_add env x host port = if x.accept == 0 then some (null, x) else do
  id ← find_sender x host port
  elim id [
    | some i ↦ touch_sender env x i
    | none ↦
        if ltb x.nconnections x.maxconnections
        then append_sender env x host port
        else some (null, x)
  ]

-- `for(i = id; i<x->x_nconnections; i++) x->x_sr[id] = x->x_sr[id+1]`, with the rounds that are left;
-- the body does not use `i`.
unfoldable pub shift_loop : ℕ → (id : ℕ) → List Ptr → Option (List Ptr)
shift_loop zero id sr = some sr
shift_loop (suc n) id sr = do p ← get_elem? sr (id + 1); sr' ← set_slot sr id p; shift_loop n id sr'

abbrev pub decrement : ℕ → ℕ
decrement n = (n + 2 ^ 32 - 1) % 2 ^ 32

-- What `udpserver_sender_remove` does to a client behind `p`, which is not NULL.
unfoldable pub remove_at : Server → ℕ → Ptr → Option Server
remove_at x id p = do
  y ← sender_free x p
  shifted ← shift_loop (y.nconnections - id) id y.sr
  sr ← set_slot shifted id null
  some (record y { sr = sr; nconnections = decrement y.nconnections })

unfoldable pub sender_remove : Server → ℕ → Option Server
sender_remove x id =
    if ltb id x.nconnections
    then (do p ← slot x id; if p == null then some x else remove_at x id p)
    else some x

-- `clock_gettimesince`
abbrev pub since : Env → ℕ → ℕ
since env t = env.now - t

-- `udpserver_sender_free(x->x_sr[id]); x->x_sr[id] = NULL;`
unfoldable pub expire : Server → ℕ → Ptr → Option Server
expire x id p = do y ← sender_free x p; sr ← set_slot y.sr id null; some (record y { sr = sr })

-- `*sr++ = x->x_sr[id]`, `to` being the index that the pointer `sr` stands at.
unfoldable pub move_to : Server → ℕ → Ptr → Option (ℕ × Server)
move_to x to p = do sr ← set_slot x.sr to p; some (to + 1, record x { sr = sr })

abbrev pub expired : Env → (timeout : ℤ) → Client → Bool
expired env timeout c = ltb_ℤ timeout (pos (since env c.lastseen))

-- The first loop of `udpserver_sender_autoremove`, for the pointer `p` at the index `id`
unfoldable pub sweep_one : Env → (id to : ℕ) → Server → Ptr → Option (ℕ × Server)
unfolding expire move_to
sweep_one env id to x p = if p == null then some (to, x) else do
  c ← deref x p
  if expired env x.timeout c then (do y ← expire x id p; some (to, y)) else move_to x to p

-- and from the index `id`, with the rounds that are left
unfoldable pub sweep_loop : Env → ℕ → (id to : ℕ) → Server → Option (ℕ × Server)
unfolding sweep_one
sweep_loop env zero id to x = some (to, x)
sweep_loop env (suc n) id to x = do
  p ← slot x id
  (to', y) ← sweep_one env id to x p
  sweep_loop env n (id + 1) to' y

-- `while(sr < (x->x_sr+x->x_maxconnections)) *sr++ = NULL`, with the rounds that are left
unfoldable pub clear_loop : ℕ → (to : ℕ) → List Ptr → Option (List Ptr)
clear_loop zero to sr = some sr
clear_loop (suc n) to sr = do sr' ← set_slot sr to null; clear_loop n (to + 1) sr'

-- The loop that counts the pointers in front of the first NULL, with the rounds that are left
unfoldable pub count_loop : ℕ → (id : ℕ) → List Ptr → Option ℕ
count_loop zero id sr = some 0
count_loop (suc n) id sr =
    let rest = (do k ← count_loop n (id + 1) sr; some (k + 1)) in
    do p ← get_elem? sr id; if p == null then some 0 else rest

unfoldable pub sweep : Env → Server → Option Server
unfolding sweep_loop clear_loop count_loop
sweep env x = do
  (to, y) ← sweep_loop env x.nconnections 0 0 (record x { lastchecked = env.now })
  sr ← clear_loop (y.maxconnections - to) to y.sr
  n ← count_loop y.maxconnections 0 sr
  some (record y { sr = sr; nconnections = n })

unfoldable pub sender_autoremove : Env → Server → Option Server
sender_autoremove env x =
    let swept = sweep env x in
    if ltb_ℤ (pos 0) x.timeout
    then (if ltb 0 (since env x.lastchecked) then swept else some x)
    else some x
