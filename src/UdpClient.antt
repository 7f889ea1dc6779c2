-- ===== src/UdpClient.antt =====
-- udpclient.c: a client that sends datagrams to one address. A command that dereferences NULL gives
-- `none`. `setsockopt`, and the `bind` to the sending port, change nothing that is modelled.
pub mod Connect
pub mod Outcome
pub mod Runs
pub mod Messages
use Prim.Native.String.{String}
use pd_iemnet.Prelude.{
  ℕ, Bool, true, false, Option, none, some, List, [], ◌∷◌, ◌++◌, ◌==◌, if◌then◌else◌, ◌>>=◌,
}
use pd_iemnet.Prelude.Int.{ℤ, pos, minus_one, is_neg, ltb_ℤ, to_ushort, ntohl}
use pd_iemnet.Chunk.{Chunk, FloatList, chunk_create_list, chunk2list, floatlist_create, atoms}
use pd_iemnet.Output.{
  Atom, float, symbol, set_float, Message, msgout, addrout, connectout, statusout, outlet_anything,
  outlet_list, iemnet_addrout, iemnet_numconnout, iemnet_socket2addressout,
}
use pd_iemnet.Os.{Os, Effect, open_socket, outs, iemnet_closesocket}
use pd_iemnet.Sender.{Sender, sender_send, sender_getsize}
use pd_iemnet.Receiver.{Receiver, receiver_create, receiver_destroy}
use pd_iemnet.Link.{is_set, Dial, create_sender, destroy_sender, receiver_size}

pub record Client : Type 0 where
  pub sender : Option Sender
  pub receiver : Option Receiver
  pub fd : ℤ
  pub hostname : Option String
  pub connectstate : ℕ
  pub port : ℕ
  pub sendport : ℕ
  pub addr : ℕ
  pub floatlist : Option FloatList
  pub log : List Effect

abbrev pub does : Client → List Effect → Client
does x es = record x { log = x.log ++ es }

abbrev pub emits : Client → List Message → Client
emits x ms = does x (outs ms)

abbrev pub connections : ℕ → List Message
connections n = iemnet_numconnout (some statusout) (some connectout) (pos n)

unfoldable pub server_report : Client → String → List Message
server_report x hostname =
    outlet_anything statusout "server" (float x.fd ∷ symbol hostname ∷ set_float x.port ∷ [])
    ∷ outlet_anything statusout "bufsize"
        (float (receiver_size x.receiver) ∷ float (sender_getsize x.sender) ∷ [])
    ∷ []

unfoldable pub local_address : Os → ℤ → List Message
local_address os fd =
    if is_neg fd then [] else iemnet_socket2addressout (os.sockname fd) statusout "local_address"

-- `gensym(hostname)` needs a name.
unfoldable pub info_server : Client → (hostname : Option String) → Option Client
unfolding server_report
info_server x none = none
info_server x (some h) = some (emits x (server_report x h))

unfoldable pub info : Os → Client → Option Client
unfolding info_server server_report local_address
info os x =
    let told = emits (emits x (local_address os x.fd)) (connections x.connectstate) in
    if x.connectstate == 0 then some told else info_server told x.hostname

-- What a connection that has been made leaves in the object.
unfoldable pub linked : Os → Client → ℤ → ℕ → Client
linked os x sockfd h_addr =
    let (sender, started) = create_sender os sockfd in
    let (receiver, polled) = receiver_create os.malloc sockfd in
    does
      (record x {
        fd = sockfd;
        addr = ntohl h_addr;
        sender = sender;
        receiver = receiver;
        connectstate = 1;
      })
      (started ++ polled)

-- `host` is what `gethostbyname` finds.
unfoldable pub connect_to : Os → Client → Dial → (host : Option ℕ) → Option Client
unfolding linked
connect_to os x d none = some x
connect_to os x d (some h_addr) =
    let opened = does x (open_socket d.socket ∷ []) in
    if is_neg d.socket
    then some x
    else if is_neg d.answers.connect
    then some (does opened (iemnet_closesocket d.socket))
    else info os (linked os opened d.socket h_addr)

unfoldable pub doconnect : Os → Client → Dial → Option Client
doconnect os x d = if is_set x.sender then some x else connect_to os x d d.host

-- The result is whether there was a socket.
unfoldable pub do_disconnect : Client → Client × Bool
do_disconnect x =
    let cleared =
      does (record x { receiver = none; sender = none; connectstate = 0 })
        (receiver_destroy x.receiver ++ destroy_sender x.sender) in
    if is_neg x.fd
    then (cleared, false)
    else (does (record cleared { fd = minus_one }) (iemnet_closesocket x.fd), true)

unfoldable pub disconnect : Client → Client
unfolding do_disconnect
disconnect x =
    let (y, closed) = do_disconnect x in if closed then emits y (connections y.connectstate) else y

-- The client when `udpclient_connect` calls `udpclient_doconnect`.
unfoldable pub prepared : Client → String → ℤ → ℤ → Client
prepared x hostname portno sndportno =
    let y = if is_neg x.fd then x else disconnect x in
    record y {
      hostname = some hostname;
      port = to_ushort portno;
      sendport = if ltb_ℤ (pos 0) sndportno then to_ushort sndportno else 0;
      connectstate = 0;
    }

unfoldable pub connect : Os → Client → String → ℤ → ℤ → Dial → Option Client
unfolding prepared
connect os x hostname portno sndportno d = doconnect os (prepared x hostname portno sndportno) d

-- Both the sender and the chunk must be there.
unfoldable pub send_chunk : Os → Option Sender → Option Chunk → ℤ × Option Sender
send_chunk os none c = (pos 0, none)
send_chunk os (some s) none = (pos 0, some s)
send_chunk os (some s) (some c) =
    let (size, s') = sender_send os.malloc s (some c) in (size, some s')

unfoldable pub send : Os → Client → List Atom → Client
unfolding send_chunk
send os x argv =
    let (size, sender) = send_chunk os x.sender (chunk_create_list os.malloc argv) in
    emits (record x { sender = sender })
      (outlet_anything statusout "sendbuffersize" (float size ∷ []) ∷ [])

-- The float list must not be NULL.
unfoldable pub receive_callback : Os → Client → Option Chunk → Option Client
receive_callback os x none = some (if is_neg x.fd then x else disconnect x)
receive_callback os x (some c) = do
  let told = emits x (iemnet_addrout (some statusout) (some addrout) x.addr x.port)
  list ← chunk2list os.malloc os.fresh (some c) told.floatlist
  some (emits (record told { floatlist = some list }) (outlet_list msgout (atoms list) ∷ []))

-- `pd_new` clears the fields that are not set.
unfoldable pub new : Os → Client
new os = record {
  sender = none;
  receiver = none;
  fd = minus_one;
  hostname = none;
  connectstate = 0;
  port = 0;
  sendport = 0;
  addr = 0;
  floatlist = floatlist_create os.malloc os.fresh 1024;
  log = [];
}

unfoldable pub free : Client → Client
unfolding do_disconnect
free x = record (do_disconnect x).0 { floatlist = none }
