-- ===== src/TcpReceive.antt =====
-- tcpreceive.c: a server that only receives. Its connections are the slots of an array of fixed
-- size; a slot whose socket is -1 is free.
pub mod Slots
pub mod Disconnect
pub mod DisconnectAll
pub mod Connect
pub mod Poll
pub mod Runs
use pd_iemnet.Prelude.{
  ℕ, zero, suc, ◌+◌, Bool, true, false, Option, none, some, List, [], ◌∷◌, ◌++◌, ltb, get_elem?,
  set, replicate, if◌then◌else◌, ◌>>=◌, not,
}
use pd_iemnet.Prelude.Int.{ℤ, pos, minus_one, is_neg, eqb_ℤ, succ_ℤ, pred_ℤ, ntohl, ntohs}
use pd_iemnet.Chunk.{Chunk, SockAddrIn, FloatList, chunk2list, floatlist_create, atoms}
use pd_iemnet.Output.{
  Message, msgout, addrout, connectout, statusout, iemnet_addrout, iemnet_numconnout,
  iemnet_streamout,
}
use pd_iemnet.Os.{Os, Effect, open_socket, add_poll, rm_poll, outs, iemnet_closesocket}
use pd_iemnet.Receiver.{Receiver, receiver_create, receiver_destroy}
use pd_iemnet.TcpServer.Control.{Binding, port_message, port_in_use}

abbrev pub max_connections : ℕ
max_connections = 128

-- `t_tcpconnection`; `owned` is whether `owner` is set.
pub record Slot : Type 0 where
  pub addr : ℕ
  pub port : ℕ
  pub socket : ℤ
  pub owned : Bool
  pub receiver : Option Receiver

pub record Listener : Type 0 where
  pub connectsocket : ℤ
  pub port : ℤ
  pub serialize : Bool
  pub nconnections : ℤ
  pub connection : List Slot
  pub floatlist : Option FloatList
  pub log : List Effect

abbrev pub does : Listener → List Effect → Listener
does x es = record x { log = x.log ++ es }

abbrev pub emits : Listener → List Message → Listener
emits x ms = does x (outs ms)

abbrev pub shift_index : Option ℕ → Option ℕ
shift_index none = none
shift_index (some i) = some (suc i)

-- The index of the first slot with this socket; `none` is the result -1.
unfoldable pub find_loop : List Slot → ℤ → Option ℕ
find_loop [] fd = none
find_loop (c ∷ cs) fd =
    let rest = shift_index (find_loop cs fd) in if eqb_ℤ c.socket fd then some 0 else rest

unfoldable pub find_socket : Listener → ℤ → Option ℕ
find_socket x fd = find_loop x.connection fd

-- The slot `c` with a connection in it.
abbrev pub occupied : Os → (fd : ℤ) (addr port : ℕ) → Slot
occupied os fd addr port = record {
  addr = addr;
  port = port;
  socket = fd;
  owned = true;
  receiver = (receiver_create os.malloc fd).0;
}

-- The first free slot is taken; `none` when there is none.
unfoldable pub add_loop : Os → ℤ → ℕ → ℕ → List Slot → Option (List Slot)
add_loop os fd addr port [] = none
add_loop os fd addr port (c ∷ cs) =
    let rest = (do ds ← add_loop os fd addr port cs; some (c ∷ ds)) in
    if eqb_ℤ c.socket minus_one then some (occupied os fd addr port ∷ cs) else rest

-- `none` is the result 0, with nothing changed.
unfoldable pub addconnection : Os → Listener → ℤ → ℕ → ℕ → Option Listener
addconnection os x fd addr port = do
  cs ← add_loop os fd addr port x.connection
  some (does (record x { connection = cs }) (receiver_create os.malloc fd).1)

-- What `accept` returns.
pub record Accepted : Type 0 where
  pub fd : ℤ
  pub from : SockAddrIn

-- The report of a new connection, `x_nconnections` being counted up already.
unfoldable pub welcome : Listener → ℕ → ℕ → Listener
welcome x addr port =
    let y = record x { nconnections = succ_ℤ x.nconnections } in
    emits y (
      iemnet_numconnout (some statusout) (some connectout) y.nconnections
      ++ iemnet_addrout (some statusout) (some addrout) addr port)

unfoldable pub connectpoll : Os → Listener → ℤ → Accepted → Listener
unfolding welcome
connectpoll os x fd a =
    let addr = ntohl a.from.s_addr in
    let port = ntohs a.from.sin_port in
    let opened = does x (open_socket a.fd ∷ []) in
    if not (eqb_ℤ fd x.connectsocket)
    then x
    else if is_neg a.fd
    then x
    else elim (addconnection os opened a.fd addr port) [
      | none ↦ does opened (iemnet_closesocket a.fd)
      | some y ↦ welcome y addr port
    ]

abbrev pub cleared : Slot → Slot
cleared c = record c { receiver = none; socket = minus_one; addr = 0; port = 0 }

unfoldable pub clear_slot : Listener → ℕ → Slot → Listener
clear_slot x id c =
    let n = pred_ℤ x.nconnections in
    emits
      (does (record x { connection = set x.connection id (cleared c); nconnections = n })
        (receiver_destroy c.receiver ++ iemnet_closesocket c.socket))
      (iemnet_numconnout (some statusout) (some connectout) n)

-- The result is whether there was a connection.
unfoldable pub disconnect : Listener → ℕ → Listener × Bool
unfolding clear_slot
disconnect x id =
    if ltb id max_connections
    then elim (get_elem? x.connection id) [
      | none ↦ (x, false)
      | some c ↦ if ltb 0 c.port then (clear_slot x id c, true) else (x, false)
    ]
    else (x, false)

-- The loop from index `i`, with the rounds that are left.
unfoldable pub all_loop : ℕ → ℕ → Listener → Listener
all_loop zero i x = x
all_loop (suc n) i x = all_loop n (i + 1) (disconnect x i).0

unfoldable pub disconnect_all : Listener → Listener
disconnect_all x = all_loop max_connections 0 x

unfoldable pub disconnect_socket : Listener → ℤ → Listener × Bool
disconnect_socket x fd = elim (find_socket x fd) [ none ↦ (x, false) | some i ↦ disconnect x i ]

-- The bytes of a chunk are output. The float list must not be NULL.
unfoldable pub read_bytes : Os → Listener → Chunk → Option Listener
read_bytes os x c = do
  list ← chunk2list os.malloc os.fresh (some c) x.floatlist
  let kept = record x { floatlist = some list }
  some (emits kept (iemnet_streamout (some msgout) (atoms list) x.serialize))

-- What data, or NULL for a disconnection, does to the connection in a slot.
unfoldable pub read_event : Os → Listener → ℕ → Option Chunk → Option Listener
unfolding read_bytes
read_event os x index none = some (disconnect x index).0
read_event os x index (some c) = read_bytes os x c

-- `index` is the result of `tcpreceive_find_socket`.
unfoldable pub read_found : Os → Listener → Option Chunk → (index : Option ℕ) → Option Listener
read_found os x c none = some x
read_found os x c (some index) = read_event os x index c

-- `w` is the slot that the receiver was made for.
unfoldable pub read_slot : Os → Listener → Option Chunk → (w : Option Slot) → Option Listener
unfolding read_found
read_slot os x c none = none
read_slot os x c (some y) = if y.owned then read_found os x c (find_socket x y.socket) else some x

unfoldable pub read_callback : Os → Listener → (w : ℕ) → Option Chunk → Option Listener
unfolding read_slot read_found
read_callback os x w c = read_slot os x c (get_elem? x.connection w)

-- Stops listening, if the object does.
unfoldable pub close_listener : Listener → Listener
close_listener x =
    if is_neg x.connectsocket
    then x
    else does (record x { connectsocket = minus_one; port = minus_one })
        (rm_poll x.connectsocket ∷ iemnet_closesocket x.connectsocket)

unfoldable pub listening : Os → Listener → ℤ → ℤ → Listener
unfolding port_message
listening os x sockfd portno =
    let p = port_in_use os sockfd portno in
    emits (record (does x (add_poll sockfd ∷ [])) { connectsocket = sockfd; port = p })
      (port_message p)

unfoldable pub set_port : Os → Listener → ℤ → Binding → Listener
unfolding close_listener listening
set_port os x portno b =
    let closed = close_listener x in
    let opened = does closed (open_socket b.socket ∷ []) in
    let failed = emits (does opened (iemnet_closesocket b.socket)) (port_message minus_one) in
    if eqb_ℤ x.port portno
    then x
    else if is_neg b.socket
    then closed
    else if is_neg b.bind
    then failed
    else if is_neg b.listen
    then failed
    else listening os opened b.socket portno

unfoldable pub set_serialize : Listener → Bool → Listener
set_serialize x doit = record x { serialize = doit }

-- The first half of `tcpreceive_free`.
unfoldable pub release_listener : Listener → Listener
release_listener x =
    if is_neg x.connectsocket
    then x
    else does x (rm_poll x.connectsocket ∷ iemnet_closesocket x.connectsocket)

unfoldable pub free : Listener → Listener
free x = record (disconnect_all (release_listener x)) { floatlist = none }

abbrev pub empty_slot : Slot
empty_slot = record { addr = 0; port = 0; socket = minus_one; owned = false; receiver = none }

unfoldable pub new : Os → ℤ → Binding → Listener
new os portno b =
    set_port os
      (record {
        connectsocket = minus_one;
        port = minus_one;
        serialize = true;
        nconnections = pos 0;
        connection = replicate max_connections empty_slot;
        floatlist = floatlist_create os.malloc os.fresh 1024;
        log = [];
      })
      portno b
