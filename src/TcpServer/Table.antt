-- ===== src/TcpServer/Table.antt =====
-- tcpserver.c: making and freeing connections, and the table of connections.
use pd_iemnet.Prelude.{
  ℕ, zero, suc, ◌+◌, ◌-◌, ◌%◌, ◌^◌, true, Option, none, some, List, [], ◌∷◌, ◌++◌, ◌==◌, ltb, leb,
  if◌then◌else◌, ◌>>=◌, get_elem?, ◌&&◌,
}
use pd_iemnet.Prelude.Int.{ℤ, pos, negsuc, ntohs, ntohl, eqb_ℤ}
use pd_iemnet.Chunk.{SockAddrIn}
use pd_iemnet.Output.{statusout, connectout, iemnet_numconnout}
use pd_iemnet.Os.{Os, Effect, join_sender, rm_poll, add_poll, iemnet_closesocket}
use pd_iemnet.Sender.{sender_create}
use pd_iemnet.Hostname.{dotted}
use pd_iemnet.TcpServer.{
  Ptr, null, disconnect, Conn, Server, update, does, emits, slot, deref, set_slot,
}
use pd_iemnet.TcpServer.Info.{info_connection}

abbrev sizeof_receiver : ℕ
sizeof_receiver = 24

-- `fresh` is what `getbytes` returns; NULL is a failure. The receiver is polled from here on.
unfoldable pub socketreceiver_new :
    Os → (fresh : Ptr) → Server → ℤ → SockAddrIn → ℕ → Option (Ptr × Server)
socketreceiver_new os fresh x sockfd addr client =
    if fresh == null
    then none
    else let host = ntohl addr.s_addr in
      let received = os.malloc sizeof_receiver in
      let y : Conn = record {
        owned = true;
        host = host;
        port = ntohs addr.sin_port;
        fd = sockfd;
        client = client;
        sender = sender_create os.malloc os.spawn sockfd;
        receiver = received;
        hostname = dotted host;
      } in
      some (
        fresh,
        does (record x { heap = update x.heap fresh (some y) })
            (if received then add_poll sockfd ∷ [] else []),
      )

-- `iemnet__sender_destroy` and `iemnet__receiver_destroy`, of what is there, then the socket
unfoldable pub release : Conn → List Effect
release c =
    elim c.sender [ none ↦ [] | some s ↦ join_sender s.sockfd ∷ [] ]
    ++ ((if c.receiver then rm_poll c.fd ∷ [] else []) ++ iemnet_closesocket c.fd)

unfoldable pub socketreceiver_free : Server → Ptr → Option Server
unfolding release
socketreceiver_free x p =
    if p == null
    then some x
    else do c ← x.heap p; some (does (record x { heap = update x.heap p none }) (release c))

-- The loop of `tcpserver_socket2index` from index `i`, with the rounds that are left. A fault is
-- `none`, the result -1 is `some none`.
unfoldable pub find_loop : ℕ → ℕ → Server → ℤ → Option (Option ℕ)
find_loop zero i x sockfd = some none
find_loop (suc n) i x sockfd =
    let rest = find_loop n (i + 1) x sockfd in
    do p ← slot x i; c ← deref x p; if eqb_ℤ c.fd sockfd then some (some i) else rest

unfoldable pub socket2index : Server → ℤ → Option (Option ℕ)
unfolding find_loop
socket2index x sockfd = find_loop x.nconnections 0 x sockfd

-- The index of a client number, counted from 1; `none` is the result -1.
unfoldable pub fixindex : Server → ℤ → Option ℕ
fixindex x (negsuc n) = none
fixindex x (pos client) =
    if leb x.nconnections 0
    then none
    else if ltb 0 client && leb client x.nconnections
    then some (client - 1)
    else none

-- `for(k = client; k < x->x_nconnections; k++) x->x_sr[k] = x->x_sr[k + 1]`, with the rounds that
-- are left
unfoldable pub shift_loop : ℕ → ℕ → List Ptr → Option (List Ptr)
shift_loop zero k sr = some sr
shift_loop (suc n) k sr = do
  p ← get_elem? sr (k + 1)
  sr' ← set_slot sr k p
  shift_loop n (k + 1) sr'

-- `nconnections--` of an unsigned int
abbrev pub decrement : ℕ → ℕ
decrement n = (n + 2 ^ 32 - 1) % 2 ^ 32

-- The gap is closed, and the slot behind the last one that was moved is cleared.
unfoldable pub close_gap : List Ptr → (client nconnections : ℕ) → Option (List Ptr)
close_gap sr client n = do
  cleared ← set_slot sr client null
  shifted ← shift_loop (n - client) client cleared
  set_slot shifted ((if leb client n then n else client) + 1) null

unfoldable pub disconnect_index : Server → ℕ → Option Server
disconnect_index x client = do
  p ← slot x client
  c ← deref x p
  y ← socketreceiver_free (emits x (info_connection c disconnect)) p
  sr ← close_gap y.sr client y.nconnections
  let n = decrement y.nconnections
  some (
      emits (record y { sr = sr; nconnections = n })
        (iemnet_numconnout (some statusout) (some connectout) (pos n)))

-- disconnect a client by number
unfoldable pub disconnect_client : Server → ℤ → Option Server
disconnect_client x fclient = elim (fixindex x fclient) [
  | none ↦ some x
  | some client ↦ disconnect_index x client
]

-- disconnect a client by socket
unfoldable pub disconnect_socket : Server → ℤ → Option Server
disconnect_socket x fsocket = do
  id ← socket2index x fsocket
  elim id [ none ↦ some x | some i ↦ disconnect_client x (pos (i + 1)) ]

-- `for(id = 0; id<x->x_nconnections; id++) tcpserver_disconnect(x, id)`; out of fuel it faults.
unfoldable pub all_loop : (fuel id : ℕ) → Server → Option Server
all_loop zero id x = none
all_loop (suc fuel) id x =
    let round = (do y ← disconnect_index x id; all_loop fuel (id + 1) y) in
    if ltb id x.nconnections then round else some x

unfoldable pub disconnect_all : Server → Option Server
disconnect_all x = all_loop (suc x.nconnections) 0 x
