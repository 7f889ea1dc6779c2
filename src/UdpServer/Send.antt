-- ===== src/UdpServer/Send.antt =====
-- udpserver.c: disconnecting and sending.
use pd_iemnet.Prelude.{
  ℕ, zero, suc, ◌+◌, ◌-◌, Bool, false, Option, none, some, List, [], ◌∷◌, ◌++◌, ◌==◌, ltb, leb,
  if◌then◌else◌, ◌>>=◌,
}
use pd_iemnet.Prelude.Int.{ℤ, pos, is_neg, eqb_ℤ, neg, pos_part}
use pd_iemnet.Chunk.{Chunk, chunk_create_list, atom_getint}
use pd_iemnet.Output.{
  Atom, float, set_float, statusout, connectout, Message, outlet_anything, iemnet_numconnout,
}
use pd_iemnet.Sender.{Sender, sender_send}
use pd_iemnet.TcpServer.{Ptr, null}
use pd_iemnet.UdpServer.{Server, Env, store, emits, slot, deref}
use pd_iemnet.UdpServer.Table.{socket2index, fixindex, sender_remove, sender_autoremove}
use pd_iemnet.UdpServer.Info.{info_client, info_connection}

abbrev sizeof_sender : ℕ
sizeof_sender = 56

-- The address that is reported, if there is memory for a copy of it.
unfoldable pub address_of : Env → Server → ℕ → Option (List Message)
address_of env x client =
    if env.os.malloc sizeof_sender
    then (do p ← slot x client; c ← deref x p; some (info_connection c.host c.port))
    else some []

unfoldable pub disconnect_index : Env → Server → ℕ → Option Server
unfolding address_of
disconnect_index env x client = if leb x.nconnections client then some x else do
  address ← address_of env x client
  removed ← sender_remove x client
  y ← sender_autoremove env removed
  some (
      emits y
        (address ++ iemnet_numconnout (some statusout) (some connectout) (pos y.nconnections)))

unfoldable pub disconnect_client : Env → Server → ℤ → Option Server
disconnect_client env x fclient = elim (fixindex x fclient) [
  | none ↦ some x
  | some client ↦ disconnect_index env x client
]

-- `for(id = 0; id<x->x_nconnections; id++) udpserver_disconnect(x, id)`; out of fuel it faults.
unfoldable pub all_loop : Env → (fuel id : ℕ) → Server → Option Server
all_loop env zero id x = none
all_loop env (suc fuel) id x =
    let round = (do y ← disconnect_index env x id; all_loop env fuel (id + 1) y) in
    if ltb id x.nconnections then round else some x

unfoldable pub disconnect_all : Env → Server → Option Server
unfolding all_loop
disconnect_all env x = all_loop env (suc x.nconnections) 0 x

-- The size is 0 if there is no sender.
unfoldable pub send_chunk : Env → Option Sender → Chunk → ℤ × Option Sender
send_chunk env none chunk = (pos 0, none)
send_chunk env (some s) chunk =
    let (size, s') = sender_send env.os.malloc s (some chunk) in (size, some s')

-- The chunk gets the client's address, and must not be NULL.
unfoldable pub send_to : Env → Server → ℕ → Ptr → Option Chunk → Option Server
unfolding send_chunk
send_to env x client p none = none
send_to env x client p (some chunk) = do
  c ← deref x p
  let (size, s) = send_chunk env c.sender (record chunk { addr = c.host; port = c.port })
  let y =
      emits (record x { heap = store x.heap p (some (record c { sender = s })) })
        (outlet_anything statusout "sendbuffersize"
            (set_float (client + 1) ∷ float size ∷ set_float c.uniq ∷ [])
          ∷ [])
  if is_neg size then disconnect_index env y client else some y

unfoldable pub send_bytes : Env → Server → ℕ → Option Chunk → Option Server
unfolding send_to
send_bytes env x client chunk =
    if ltb client x.maxconnections
    then (do p ← slot x client; if p == null then some x else send_to env x client p chunk)
    else some x

abbrev pub is_but : Option ℕ → ℕ → Bool
is_but none client = false
is_but (some but) client = client == but

-- `for(client = 0; client < x->x_nconnections; client++) if(client != but) udpserver_send_bytes(…)`;
-- `but` is `none` in a broadcast. Out of fuel it faults.
unfoldable pub send_loop :
    Env → (fuel client : ℕ) → (but : Option ℕ) → Server → Option Chunk → Option Server
send_loop env zero client but x chunk = none
send_loop env (suc fuel) client but x chunk =
    let round = (do
      y ← (if is_but but client then some x else send_bytes env x client chunk)
      send_loop env fuel (client + 1) but y chunk) in
    if ltb client x.nconnections then round else some x

unfoldable pub send_butclient : Env → Server → ℕ → List Atom → Option Server
unfolding send_loop
send_butclient env x but argv =
    send_loop env (suc x.nconnections) 0 (some but) x (chunk_create_list env.os.malloc argv)

unfoldable pub send_toclient : Env → Server → ℕ → List Atom → Option Server
send_toclient env x client argv = send_bytes env x client (chunk_create_list env.os.malloc argv)

-- `for(client = 0; client<x->x_nconnections; client++) udpserver_info_client(x, client)`
unfoldable pub info_clients : Env → (rounds client : ℕ) → Server → Option Server
info_clients env zero client x = some x
info_clients env (suc n) client x = do
  y ← info_client env x client
  info_clients env n (client + 1) y

unfoldable pub send_client : Env → Server → List Atom → Option Server
unfolding info_clients
send_client env x [] = info_clients env x.nconnections 0 x
send_client env x (a ∷ argv) = elim (fixindex x (atom_getint a)) [
  | none ↦ some x
  | some client ↦ elim argv [
    | [] ↦ info_client env x client
    | b ∷ rest ↦ send_toclient env x client (b ∷ rest)
  ]
]

unfoldable pub broadcast : Env → Server → List Atom → Option Server
unfolding send_loop
broadcast env x argv = do
  swept ← sender_autoremove env x
  y ← send_loop env (suc swept.nconnections) 0 none swept (chunk_create_list env.os.malloc argv)
  some (
      if x.nconnections == y.nconnections
      then y
      else emits y (outlet_anything statusout "connections" (set_float y.nconnections ∷ []) ∷ []))

unfoldable pub defaultsend : Env → Server → List Atom → Option Server
defaultsend env x argv =
    let all = broadcast env (record x { defaulttarget = pos 0 }) argv in
    if is_neg x.defaulttarget
    then (do
      found ← socket2index x (neg x.defaulttarget)
      elim found [ none ↦ all | some client ↦ send_butclient env x client argv ])
    else if eqb_ℤ x.defaulttarget (pos 0)
    then all
    else (do
      found ← socket2index x x.defaulttarget
      elim found [ none ↦ all | some client ↦ send_toclient env x client argv ])

-- The socket of a client number, 0 for 0.
unfoldable pub socket_of : Server → ℕ → Option ℤ
socket_of x client =
    if ltb 0 client
    then (do p ← slot x (client - 1); c ← deref x p; some (pos c.uniq))
    else some (pos 0)

-- The client number becomes the socket of that client, with the sign of the number.
unfoldable pub defaulttarget : Server → ℤ → Option Server
unfolding socket_of
defaulttarget x rawclient =
    let client = if is_neg rawclient then pos_part (neg rawclient) else pos_part rawclient in
    if ltb x.nconnections client then some x else do
      sockfd ← socket_of x client
      some (record x { defaulttarget = if is_neg rawclient then neg sockfd else sockfd })
