-- ===== src/TcpClient.antt =====
-- tcpclient.c: a client of one connection. A command that dereferences NULL gives `none`.
pub mod Balance
pub mod Keeps
pub mod Connect
pub mod Runs
pub mod Messages
use Prim.Native.String.{String}
use pd_iemnet.Prelude.{
  ℕ, Bool, true, false, Option, none, some, List, [], ◌∷◌, ◌++◌, ◌==◌, ◌||◌, not, if◌then◌else◌,
  ◌>>=◌,
}
use pd_iemnet.Prelude.Int.{ℤ, pos, minus_one, is_neg, eqb_ℤ, ltb_ℤ, to_ushort, ntohl}
use pd_iemnet.Chunk.{Chunk, FloatList, chunk_create_list, chunk2list, floatlist_create, atoms}
use pd_iemnet.Output.{
  Atom, float, symbol, set_float, Message, msgout, addrout, connectout, statusout, outlet_anything,
  iemnet_addrout, iemnet_numconnout, iemnet_streamout, iemnet_socket2addressout,
}
use pd_iemnet.Os.{Os, Effect, open_socket, outs, iemnet_closesocket}
use pd_iemnet.Sender.{Sender, sender_send, sender_getsize}
use pd_iemnet.Sender.Connect.{iemnet_connect}
use pd_iemnet.Receiver.{Receiver, receiver_create, receiver_destroy}
use pd_iemnet.Link.{Dial, create_sender, destroy_sender, receiver_size}

pub record Client : Type 0 where
  pub sender : Option Sender
  pub receiver : Option Receiver
  pub serialize : Bool
  pub fd : ℤ
  pub hostname : Option String
  pub connectstate : ℕ
  pub port : ℤ
  pub addr : ℕ
  pub timeout : ℤ
  pub floatlist : Option FloatList
  pub log : List Effect

abbrev pub does : Client → List Effect → Client
does x es = record x { log = x.log ++ es }

abbrev pub emits : Client → List Message → Client
emits x ms = does x (outs ms)

-- `iemnet__numconnout` to the outlets of the object
abbrev pub connections : ℕ → List Message
connections n = iemnet_numconnout (some statusout) (some connectout) (pos n)

-- `if(x->x_hostname || x->x_port)`
abbrev pub is_some : Option String → Bool
is_some none = false
is_some (some h) = true

abbrev pub in_use : Client → Bool
in_use x = is_some x.hostname || not (eqb_ℤ x.port (pos 0))

-- The lines on the server, of a client that is connected.
unfoldable pub server_report : Client → String → List Message
server_report x hostname =
    outlet_anything statusout "server"
      (float x.fd ∷ symbol hostname ∷ set_float (to_ushort x.port) ∷ [])
    ∷ outlet_anything statusout "bufsize"
        (float (receiver_size x.receiver) ∷ float (sender_getsize x.sender) ∷ [])
    ∷ []

unfoldable pub local_address : Os → ℤ → List Message
local_address os fd =
    if is_neg fd then [] else iemnet_socket2addressout (os.sockname fd) statusout "local_address"

-- `gensym(hostname)` needs a name.
unfoldable pub info_server : Client → (hostname : Option String) → Option Client
unfolding server_report
info_server x none = none
info_server x (some h) = some (emits x (server_report x h))

unfoldable pub info : Os → Client → Option Client
unfolding info_server server_report local_address
info os x =
    let told = emits (emits x (local_address os x.fd)) (connections x.connectstate) in
    if x.connectstate == 0 then some told else info_server told x.hostname

-- What is given back, and the result: whether there was a socket.
unfoldable pub do_disconnect : ℤ → Option Sender → Option Receiver → List Effect × Bool
do_disconnect fd sender receiver =
    (destroy_sender sender ++ (receiver_destroy receiver ++ iemnet_closesocket fd), not (is_neg fd))

-- What a connection that has been made leaves in the object; `*senderOUT` and the like are the
-- fields of the object.
unfoldable pub linked : Os → Client → ℤ → ℕ → Client
linked os x sockfd h_addr =
    let (sender, started) = create_sender os sockfd in
    let (receiver, polled) = receiver_create os.malloc sockfd in
    does (record x { sender = sender; receiver = receiver; addr = ntohl h_addr })
      (started ++ polled)

-- The result is the socket, or a negative number; `host` is what `gethostbyname` finds.
unfoldable pub connect_to : Os → Client → Dial → (host : Option ℕ) → ℤ × Client
unfolding linked
connect_to os x d none = (minus_one, x)
connect_to os x d (some h_addr) =
    let opened = does x (open_socket d.socket ∷ []) in
    if is_neg d.socket
    then (d.socket, x)
    else if is_neg (iemnet_connect x.timeout d.answers).0
    then (minus_one, does opened (iemnet_closesocket d.socket))
    else (d.socket, linked os opened d.socket h_addr)

unfoldable pub do_connect : Os → Client → Dial → ℤ × Client
unfolding connect_to
do_connect os x d = connect_to os x d d.host

unfoldable pub tick : Client → Client
tick x = emits x (connections 1)

-- `tcpclient_connect` first ends what is connected.
unfoldable pub hang_up : Client → Client
unfolding do_disconnect
hang_up x =
    let (given_back, state) = do_disconnect x.fd x.sender x.receiver in
    if in_use x
    then emits (does (record x { connectstate = 0; sender = none; receiver = none }) given_back)
        (if state then connections 0 else [])
    else x

-- The client once `tcpclient_do_connect` has been called.
unfoldable pub dialled : Os → Client → String → ℤ → Dial → Client
dialled os x hostname portno d =
    let (state, y) =
      do_connect os (record (hang_up x) { hostname = some hostname; port = portno }) d in
    record y { connectstate = if ltb_ℤ (pos 0) state then 1 else 0; fd = state }

unfoldable pub connect : Os → Client → String → ℤ → Dial → Option Client
unfolding dialled
connect os x hostname portno d = info os (dialled os x hostname portno d)

unfoldable pub disconnect : Client → Client
unfolding do_disconnect
disconnect x =
    let given_back = if in_use x then (do_disconnect x.fd x.sender x.receiver).0 else [] in
    emits
      (does (record x { port = pos 0; hostname = none; sender = none; receiver = none }) given_back)
      (connections 0)

-- Both the sender and the chunk must be there.
unfoldable pub send_chunk : Os → Option Sender → Option Chunk → ℤ × Option Sender
send_chunk os none c = (pos 0, none)
send_chunk os (some s) none = (pos 0, some s)
send_chunk os (some s) (some c) =
    let (size, s') = sender_send os.malloc s (some c) in (size, some s')

unfoldable pub send : Os → Client → List Atom → Client
unfolding send_chunk
send os x argv =
    let (size, sender) = send_chunk os x.sender (chunk_create_list os.malloc argv) in
    let sent =
      emits (record x { sender = sender })
        (outlet_anything statusout "sendbuffersize" (float size ∷ []) ∷ []) in
    if is_neg size then disconnect sent else sent

-- The float list must not be NULL.
unfoldable pub receive_callback : Os → Client → Option Chunk → Option Client
receive_callback os x none = some (disconnect x)
receive_callback os x (some c) = do
  let told = emits x (iemnet_addrout (some statusout) (some addrout) x.addr (to_ushort x.port))
  list ← chunk2list os.malloc os.fresh (some c) told.floatlist
  let kept = record told { floatlist = some list }
  some (emits kept (iemnet_streamout (some msgout) (atoms list) x.serialize))

unfoldable pub set_serialize : Client → Bool → Client
set_serialize x doit = record x { serialize = doit }

unfoldable pub set_timeout : Client → ℤ → Client
set_timeout x timeout = record x { timeout = timeout }

-- `pd_new` clears the fields that are not set.
unfoldable pub new : Os → Client
new os = record {
  sender = none;
  receiver = none;
  serialize = true;
  fd = minus_one;
  hostname = none;
  connectstate = 0;
  port = pos 0;
  addr = 0;
  timeout = minus_one;
  floatlist = floatlist_create os.malloc os.fresh 1024;
  log = [];
}

-- `tcpclient_free` with `tcpclient_free_simple`; the clock and the outlets are freed too.
unfoldable pub free : Client → Client
unfolding disconnect
free x = record (disconnect x) { floatlist = none }
