-- ===== src/UdpServer/Control.antt =====
-- udpserver.c: receiving, adding clients, the socket, settings, and the object's life.
use Prim.Native.String.{String}
use text.Mathlib.Text.{◌==◌ as str_eq}
use pd_iemnet.Prelude.{
  ℕ, zero, suc, ◌+◌, ◌%◌, ◌^◌, Bool, true, false, Option, none, some, List, [], ◌∷◌, ◌++◌, ◌==◌,
  ◌&&◌, ◌||◌, ltb, if◌then◌else◌, ◌>>=◌, replicate, not,
}
use pd_iemnet.Prelude.Int.{ℤ, pos, minus_one, is_neg, pos_part, ltb_ℤ, ntohs, ntohl}
use pd_iemnet.Chunk.{Chunk, chunk2list, floatlist_create, atoms, atom_getint}
use pd_iemnet.Output.{
  Atom, float, symbol, msgout, statusout, connectout, Message, outlet_anything, outlet_list,
  iemnet_numconnout, iemnet_socket2addressout,
}
use pd_iemnet.Os.{Os, iemnet_closesocket}
use pd_iemnet.Receiver.{receiver_create, receiver_destroy}
use pd_iemnet.TcpServer.{null, set_slot}
use pd_iemnet.TcpServer.Info.{sin_port_of}
use pd_iemnet.TcpServer.Control.{resize_slots, max_connect}
use pd_iemnet.UdpServer.{Server, Env, does, emits, slot, deref}
use pd_iemnet.UdpServer.Table.{sender_add, sender_free}
use pd_iemnet.UdpServer.Info.{info_connection}

-- The connection is reported, and the data output; the float list must not be NULL.
unfoldable pub receive_from : Env → Server → (conns : ℕ) → (host port : ℕ) → Chunk → Option Server
receive_from env x conns host port chunk = do
  list ← chunk2list env.os.malloc env.os.fresh (some chunk) x.floatlist
  some (
      emits (record x { floatlist = some list })
        (info_connection host port
          ++ ((if conns == x.nconnections
                then []
                else iemnet_numconnout (some statusout) (some connectout) (pos x.nconnections))
              ++ outlet_list msgout (atoms list) ∷ [])))

unfoldable pub receive_callback : Env → Server → Option Chunk → Option Server
unfolding receive_from
receive_callback env x none = some x
receive_callback env x (some c) = do
  (p, y) ← sender_add env x c.addr c.port
  if p == null
      then some y
      else (do sdr ← deref y p; receive_from env y x.nconnections sdr.host sdr.port c)

-- `hp` is what `gethostbyname` finds, in network byte order.
unfoldable pub add_client : Env → Server → (hp : Option ℕ) → ℤ → Option Server
add_client env x hp f = if ltb_ℤ f (pos 1) || not (ltb_ℤ f (pos 0xFFFF)) then some x else elim hp [
  | none ↦ some x
  | some a ↦ do (p, y) ← sender_add env x (ntohl a) (pos_part f % 2 ^ 16); some y
]

-- What `socket` and `bind` return, and what `gethostbyname` finds for the interface.
pub record Binding : Type 0 where
  pub socket : ℤ
  pub bind : ℤ
  pub hp : Option ℕ

port_message : ℤ → List Message
port_message p = outlet_anything statusout "port" (float p ∷ []) ∷ []

abbrev pub same_address : Option String → Option String → Bool
same_address none none = true
same_address (some a) (some b) = str_eq a b
same_address _ _ = false

-- `-1` as an `unsigned short`
abbrev pub no_port : ℕ
no_port = 65535

-- The socket is closed, if there is one.
unfoldable pub close_port : Server → Server
close_port x =
    if is_neg x.connectsocket
    then x
    else does (record x { connectsocket = minus_one; port = no_port; ifaddr = none })
        (iemnet_closesocket x.connectsocket)

-- The port that is used, if the system tells.
abbrev pub port_in_use : Os → ℤ → ℕ → ℕ
port_in_use os sockfd portno = elim (os.sockname sockfd) [
  | none ↦ portno
  | some a ↦ ntohs (sin_port_of a)
]

unfoldable pub bound : Env → Server → Option String → (portno : ℕ) → ℤ → Server
unfolding port_message
bound env x ifaddr portno sockfd =
    let (receiver, effects) = receiver_create env.os.malloc sockfd in
    let port = port_in_use env.os sockfd portno in
    emits
      (record (does x effects) {
        receiver = receiver;
        connectsocket = sockfd;
        port = port;
        ifaddr = ifaddr;
      })
      (iemnet_socket2addressout (env.os.sockname sockfd) statusout "local_address"
        ++ port_message (pos port))

-- Whether the interface, if one is named, is not found.
abbrev pub bad_host : Option String → Option ℕ → Bool
bad_host (some name) none = true
bad_host _ _ = false

unfoldable pub do_bind : Env → Server → Option String → (portno : ℕ) → Binding → Server
unfolding close_port bound port_message
do_bind env x ifaddr portno b =
    let closed = close_port x in
    if (x.port == portno) && same_address x.ifaddr ifaddr
    then x
    else if is_neg b.socket
    then closed
    else if bad_host ifaddr b.hp
    then does closed (iemnet_closesocket b.socket)
    else if is_neg b.bind
    then emits (does closed (iemnet_closesocket b.socket)) (port_message minus_one)
    else bound env closed ifaddr portno b.socket

unfoldable pub port : Env → Server → ℤ → Binding → Server
port env x fportno b =
    if is_neg fportno || not (ltb_ℤ fportno (pos 0xFFFF))
    then x
    else do_bind env x none (pos_part fportno) b

-- `atom_getsymbol` of an atom that is no float
abbrev pub interface : Atom → Option String
interface (float f) = none
interface (symbol s) = some s

unfoldable pub bind : Env → Server → List Atom → Binding → Server
bind env x (a ∷ []) b = do_bind env x (interface a) x.port b
bind env x (a ∷ p ∷ []) b =
    let fportno = atom_getint p in
    if is_neg fportno || ltb_ℤ (pos 0xFFFF) fportno
    then x
    else do_bind env x (interface a) (pos_part fportno) b
bind env x _ b = x

unfoldable pub set_accept : Server → ℤ → Server
set_accept x f = record x { accept = pos_part f % 256 }

unfoldable pub set_timeout : Server → ℤ → Server
set_timeout x f = record x { timeout = f }

-- `maxconnf` as the integer below it; `ok` is whether `resizebytes` succeeds, and `tail` what the new
-- places hold.
unfoldable pub maxconnections : Server → ℤ → (ok : Bool) → (tail : List ℕ) → Server
maxconnections x maxconnf ok tail =
    let maxconn = pos_part maxconnf in
    if ltb_ℤ maxconnf (pos 1)
    then x
    else if ltb maxconn x.nconnections
    then x
    else if maxconn == x.maxconnections
    then x
    else if ok
    then record x { sr = resize_slots x.sr tail maxconn; maxconnections = maxconn }
    else x

-- `pd_new` clears the object; `uniq` is the counter that all servers share.
unfoldable pub new : Env → (uniq : ℕ) → ℤ → Binding → Server
unfolding port
new env uniq fportno b =
    record (port env
      (record {
        sr = replicate max_connect null;
        nconnections = 0;
        maxconnections = max_connect;
        connectsocket = minus_one;
        port = no_port;
        ifaddr = none;
        accept = 0;
        timeout = pos 0;
        lastchecked = 0;
        defaulttarget = pos 0;
        receiver = none;
        floatlist = floatlist_create env.os.malloc env.os.fresh 1024;
        uniq = uniq;
        heap = λ p. none;
        log = [];
      })
      fportno b) { accept = 1 }

-- `for(i = 0; i < x->x_maxconnections; i++) if (NULL != x->x_sr[i]) …`, with the rounds left
unfoldable pub free_loop : ℕ → ℕ → Server → Option Server
free_loop zero i x = some x
free_loop (suc n) i x = do
  p ← slot x i
  y ← sender_free x p
  sr ← set_slot y.sr i null
  free_loop n (i + 1) (record y { sr = sr })

unfoldable pub free : Server → Option Server
unfolding free_loop
free x = do
  y ← free_loop x.maxconnections 0 x
  let z = does (record y { receiver = none }) (receiver_destroy y.receiver)
  some (
      does (record z { connectsocket = minus_one; floatlist = none })
        (iemnet_closesocket z.connectsocket))
