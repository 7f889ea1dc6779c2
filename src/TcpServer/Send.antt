-- ===== src/TcpServer/Send.antt =====
-- tcpserver.c: sending to one, to all, or to all but one of the connections.
use pd_iemnet.Prelude.{
  ℕ, zero, suc, ◌+◌, ◌-◌, ◌*◌, Option, none, some, List, [], ◌∷◌, ◌++◌, ◌==◌, ltb, leb, length,
  take, set, ◌&&◌, if◌then◌else◌, ◌>>=◌,
}
use pd_iemnet.Prelude.Int.{ℤ, pos, minus_one, is_neg, eqb_ℤ, neg, pos_part}
use pd_iemnet.Chunk.{Chunk, chunk_create_list, atom_getint}
use pd_iemnet.Output.{Atom, float, symbol, set_float, statusout, Message, outlet_anything}
use pd_iemnet.Os.{Os}
use pd_iemnet.Sender.{Sender, sender_send}
use pd_iemnet.TcpServer.{Ptr, null, send, Server, update, emits, slot, deref}
use pd_iemnet.TcpServer.Info.{info_event, info_client}
use pd_iemnet.TcpServer.Table.{socket2index, fixindex, disconnect_socket}

-- `iemnet__sender_send` if there is a sender: -1 if there is none.
abbrev pub send_chunk : Os → Option Sender → Option Chunk → ℤ × Option Sender
send_chunk os none chunk = (minus_one, none)
send_chunk os (some s) chunk = let (size, s') = sender_send os.malloc s chunk in (size, some s')

unfoldable pub send_report : ℕ → ℤ → ℤ → List Message
send_report client size sockfd =
    info_event send
    ++ outlet_anything statusout "sendbuffersize"
        (set_float (client + 1) ∷ float size ∷ float sockfd ∷ [])
      ∷ []

unfoldable pub send_bytes_client : Os → Server → Ptr → ℕ → Option Chunk → Option Server
unfolding send_report
send_bytes_client os x sr client chunk = if sr == null then some x else do
  c ← x.heap sr
  let (size, s) = send_chunk os c.sender chunk
  let y =
      emits (record x { heap = update x.heap sr (some (record c { sender = s })) })
        (send_report client size c.fd)
  if is_neg size then disconnect_socket y c.fd else some y

unfoldable pub send_bytes : Os → Server → ℕ → Option Chunk → Option Server
send_bytes os x client chunk =
    if ltb client x.maxconnections
    then (do sr ← slot x client; send_bytes_client os x sr client chunk)
    else send_bytes_client os x null client chunk

-- `for(i = 0; i<nsr; i++)` over the copied pointers
unfoldable pub send_bytes_clients : Os → Server → List Ptr → ℕ → Option Chunk → Option Server
send_bytes_clients os x [] i chunk = some x
send_bytes_clients os x (p ∷ sr) i chunk = do
  y ← send_bytes_client os x p i chunk
  send_bytes_clients os y sr (i + 1) chunk

abbrev pub sizeof_ptr : ℕ
sizeof_ptr = 8

-- `sr = calloc(…)` and the loop that copies the first pointers of the table into it
unfoldable pub snapshot : Os → Server → Option (List Ptr)
snapshot os x =
    if os.malloc (x.nconnections * sizeof_ptr) && leb x.nconnections (length x.sr)
    then some (take x.nconnections x.sr)
    else none

-- broadcasts a message to all connected clients but the given one
unfoldable pub send_butclient : Os → Server → ℕ → List Atom → Option Server
send_butclient os x but argv = if x.nconnections == 0 then some x else do
  let chunk = chunk_create_list os.malloc argv
  sr ← snapshot os x
  let kept = if ltb but x.nconnections then set sr but null else sr
  send_bytes_clients os x kept 0 chunk

-- broadcasts a message to all connected clients
unfoldable pub broadcast : Os → Server → List Atom → Option Server
broadcast os x argv = if x.nconnections == 0 then some x else do
  let chunk = chunk_create_list os.malloc argv
  sr ← snapshot os x
  send_bytes_clients os x sr 0 chunk

-- sends a message to a given client
unfoldable pub send_toclient : Os → Server → ℕ → List Atom → Option Server
send_toclient os x client argv = send_bytes os x client (chunk_create_list os.malloc argv)

-- `for(client = 0; client<x->x_nconnections; client++) tcpserver_info_client(x, client)`
info_clients : (rounds client : ℕ) → Server → Option Server
info_clients zero client x = some x
info_clients (suc n) client x = do y ← info_client x client; info_clients n (client + 1) y

unfoldable pub send_client : Os → Server → List Atom → Option Server
unfolding info_clients
send_client os x [] = info_clients x.nconnections 0 x
send_client os x (a ∷ argv) = elim (fixindex x (atom_getint a)) [
  | none ↦ some x
  | some client ↦ elim argv [
    | [] ↦ info_client x client
    | b ∷ rest ↦ send_toclient os x client (b ∷ rest)
  ]
]

unfoldable pub defaultsend : Os → Server → List Atom → Option Server
defaultsend os x argv =
    let all = broadcast os (record x { defaulttarget = pos 0 }) argv in
    if is_neg x.defaulttarget
    then (do
      found ← socket2index x (neg x.defaulttarget)
      elim found [ none ↦ all | some client ↦ send_butclient os x client argv ])
    else if eqb_ℤ x.defaulttarget (pos 0)
    then all
    else (do
      found ← socket2index x x.defaulttarget
      elim found [ none ↦ all | some client ↦ send_toclient os x client argv ])

-- The client number becomes the socket of that client, with the sign of the number.
unfoldable pub defaulttarget : Server → ℤ → Option Server
defaulttarget x rawclient =
    let client = if is_neg rawclient then pos_part (neg rawclient) else pos_part rawclient in
    if ltb x.nconnections client then some x else do
      sockfd ←
          (if ltb 0 client
            then (do p ← slot x (client - 1); c ← deref x p; some c.fd)
            else some (pos 0))
      some (record x { defaulttarget = if is_neg rawclient then neg sockfd else sockfd })

unfoldable pub targetsocket : Server → ℤ → Server
targetsocket x sockfd = record x { defaulttarget = sockfd }

-- send a message to a client by its socket
unfoldable pub send_socket : Os → Server → List Atom → Option Server
send_socket os x [] = some x
send_socket os x (float sockfd ∷ argv) = do
  client ← socket2index x sockfd
  elim client [ none ↦ some x | some i ↦ send_bytes os x i (chunk_create_list os.malloc argv) ]
send_socket os x (symbol s ∷ argv) = do client ← socket2index x (pos 0); some x
