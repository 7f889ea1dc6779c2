-- ===== src/TcpServer/Control.antt =====
-- tcpserver.c: receiving, accepting, the listening socket, settings, and the object's life.
use pd_iemnet.Prelude.{
  ℕ, zero, suc, ◌+◌, Bool, true, Option, none, some, List, [], ◌∷◌, ◌++◌, ◌==◌, ltb, leb, take,
  if◌then◌else◌, ◌>>=◌, replicate, not,
}
use pd_iemnet.Prelude.Int.{ℤ, pos, minus_one, is_neg, pos_part, eqb_ℤ, ltb_ℤ, ntohs}
use pd_iemnet.Chunk.{Chunk, SockAddrIn, chunk2list, floatlist_create, atoms}
use pd_iemnet.Output.{
  float, msgout, statusout, connectout, Message, outlet_anything, iemnet_numconnout,
  iemnet_streamout, iemnet_socket2addressout,
}
use pd_iemnet.Os.{Os, add_poll, rm_poll, iemnet_closesocket}
use pd_iemnet.TcpServer.{
  Ptr, null, illegal, server_info, connect, receive, Conn, Server, does, emits, slot, deref,
  set_slot,
}
use pd_iemnet.TcpServer.Info.{info_event, info_connection, sin_port_of}
use pd_iemnet.TcpServer.Table.{socketreceiver_new, socketreceiver_free, disconnect_socket}

-- A chunk is reported and sent on. The float list must not be NULL.
unfoldable pub receive_chunk : Os → Server → Conn → Chunk → Option Server
receive_chunk os x y chunk = do
  let told = emits x (info_connection y receive)
  list ← chunk2list os.malloc os.fresh (some chunk) told.floatlist
  let kept = record told { floatlist = some list }
  some (emits kept (iemnet_streamout (some msgout) (atoms list) x.serialize))

-- What data, or NULL for a disconnection, does to the server of a connection.
unfoldable pub receive_event : Os → Server → Conn → Option Chunk → Option Server
receive_event os x y none = disconnect_socket x y.fd
receive_event os x y (some chunk) = receive_chunk os x y chunk

-- `y0` is the connection that the data came for.
unfoldable pub receive_callback : Os → Server → (y0 : Ptr) → Option Chunk → Option Server
unfolding receive_event receive_chunk
receive_callback os x y0 c =
    let received = (do y ← x.heap y0; if y.owned then receive_event os x y c else some x) in
    if y0 == null then some x else received

-- What `accept` returns, and where the new connection is allocated.
pub record Incoming : Type 0 where
  pub fd : ℤ
  pub addr : SockAddrIn
  pub alloc : Ptr

unfoldable pub number_of_connections : Server → Server
number_of_connections x =
    emits x (iemnet_numconnout (some statusout) (some connectout) (pos x.nconnections))

-- `x->x_sr[x->x_nconnections] = y; x->x_nconnections++;`
unfoldable pub add_connection : Server → Ptr → Option Server
add_connection x p = do
  sr ← set_slot x.sr x.nconnections p
  some (record x { sr = sr; nconnections = x.nconnections + 1 })

unfoldable pub connectpoll : Os → Server → ℤ → Incoming → Option Server
unfolding number_of_connections add_connection
connectpoll os x fd i =
    let told = emits x (info_event connect) in
    if not (eqb_ℤ fd x.connectsocket)
    then some x
    else if is_neg i.fd
    then some (number_of_connections told)
    else if not x.accepting
    then some (number_of_connections (does told (iemnet_closesocket i.fd)))
    else if leb x.maxconnections x.nconnections
    then some (does told (iemnet_closesocket i.fd))
    else elim (socketreceiver_new os i.alloc told i.fd i.addr x.nconnections) [
      | none ↦ some (does told (iemnet_closesocket i.fd))
      | some (p, made) ↦ do
        added ← add_connection made p
        y ← deref added p
        some (number_of_connections (emits added (info_connection y illegal)))
    ]

-- What `socket`, `bind` and `listen` return. `setsockopt` changes nothing that is modelled.
pub record Binding : Type 0 where
  pub socket : ℤ
  pub bind : ℤ
  pub listen : ℤ

unfoldable pub port_message : ℤ → List Message
port_message p = outlet_anything statusout "port" (float p ∷ []) ∷ []

-- Stops listening, if the server does.
unfoldable pub close_listener : Server → Server
close_listener x =
    if is_neg x.connectsocket
    then x
    else does (record x { connectsocket = minus_one; port = minus_one })
        (rm_poll x.connectsocket ∷ iemnet_closesocket x.connectsocket)

-- The port that the socket is bound to, if the system tells.
abbrev pub port_in_use : Os → ℤ → ℤ → ℤ
port_in_use os sockfd portno = elim (os.sockname sockfd) [
  | none ↦ portno
  | some a ↦ pos (ntohs (sin_port_of a))
]

unfoldable pub listening : Os → Server → ℤ → ℤ → Server
listening os x sockfd portno =
    let port = port_in_use os sockfd portno in
    emits (record (does x (add_poll sockfd ∷ [])) { connectsocket = sockfd; port = port })
      (iemnet_socket2addressout (os.sockname sockfd) statusout "local_address" ++ port_message port)

unfoldable pub port : Os → Server → ℤ → Binding → Server
unfolding close_listener listening port_message
port os x portno b =
    let told = emits x (info_event server_info) in
    let closed = close_listener told in
    let failed = emits (does closed (iemnet_closesocket b.socket)) (port_message minus_one) in
    if eqb_ℤ x.port portno
    then told
    else if is_neg b.socket
    then closed
    else if is_neg b.bind
    then failed
    else if is_neg b.listen
    then failed
    else listening os closed b.socket portno

unfoldable pub serialize : Server → Bool → Server
serialize x doit = record x { serialize = doit }

unfoldable pub accept : Server → Bool → Server
accept x doit = record x { accepting = doit }

-- `resizebytes` of the table; `tail` is what the new places hold.
abbrev pub resize_slots : List Ptr → (tail : List Ptr) → ℕ → List Ptr
resize_slots sr tail n = take n (sr ++ tail)

-- `maxconnf` as the integer below it; `ok` is whether `resizebytes` succeeds.
unfoldable pub maxconnections : Server → ℤ → (ok : Bool) → (tail : List Ptr) → Server
maxconnections x maxconnf ok tail =
    let maxconn = pos_part maxconnf in
    if ltb_ℤ maxconnf (pos 1)
    then x
    else if ltb maxconn x.nconnections
    then x
    else if maxconn == x.maxconnections
    then x
    else if ok
    then record x { sr = resize_slots x.sr tail maxconn; maxconnections = maxconn }
    else x

abbrev pub max_connect : ℕ
max_connect = 32

unfoldable pub new : Os → ℤ → Binding → Server
unfolding port
new os fportno b =
    port os
      (record {
        serialize = true;
        accepting = true;
        sr = replicate max_connect null;
        nconnections = 0;
        maxconnections = max_connect;
        connectsocket = minus_one;
        port = minus_one;
        defaulttarget = pos 0;
        floatlist = floatlist_create os.malloc os.fresh 1024;
        heap = λ p. none;
        log = [];
      })
      fportno b

-- `for(i = 0; i < x->x_maxconnections; i++) if (NULL != x->x_sr[i]) …`, with the rounds left
free_loop : ℕ → ℕ → Server → Option Server
free_loop zero i x = some x
free_loop (suc n) i x = do
  p ← slot x i
  y ← socketreceiver_free x p
  sr ← set_slot y.sr i null
  free_loop n (i + 1) (record y { sr = sr })

unfoldable pub free : Server → Option Server
unfolding free_loop
free x = do
  y ← free_loop x.maxconnections 0 x
  some (
      does (record y { floatlist = none })
        (if is_neg y.connectsocket
          then []
          else rm_poll y.connectsocket ∷ iemnet_closesocket y.connectsocket))
