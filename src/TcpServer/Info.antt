-- ===== src/TcpServer/Info.antt =====
-- tcpserver.c: the functions that report, `tcpserver_info_event` to `tcpserver_info_connection`.
use Prim.Native.String.{String}
use pd_iemnet.Prelude.{
  ℕ, ◌+◌, Bool, Option, none, some, List, [], ◌∷◌, ◌++◌, ◌==◌, ltb, if◌then◌else◌, ◌>>=◌,
}
use pd_iemnet.Prelude.Int.{ℤ, pos, minus_one, is_neg, ltb_ℤ, ntohs}
use pd_iemnet.Output.{
  float, symbol, set_float, statusout, sockout, addrout, Message, outlet_anything, outlet_float,
  iemnet_addrout, iemnet_socket2addressout, SockAddr, inet, inet6, unix, unknown,
}
use pd_iemnet.Os.{Os}
use pd_iemnet.Sender.{sender_getsize}
use pd_iemnet.TcpServer.{
  null, Event, illegal, server_info, client_info, disconnect, connect, receive, send, Conn, Server,
  emits, slot, deref,
}

event_type : String → List Message
event_type name = outlet_anything statusout "type" (symbol name ∷ []) ∷ []

unfoldable pub info_event : Event → List Message
unfolding event_type
info_event server_info = event_type "server"
info_event client_info = event_type "client"
info_event connect = event_type "connect"
info_event disconnect = event_type "disconnect"
info_event send = event_type "send"
info_event receive = event_type "receive"
info_event illegal = []

-- `iemnet__receiver_getsize`
unfoldable pub receiver_getsize : Bool → ℤ
receiver_getsize x = if x then pos 0 else minus_one

client_report : ℕ → Conn → List Message
client_report client c =
    info_event client_info
    ++ (outlet_anything statusout "client"
          (set_float (client + 1) ∷ float c.fd ∷ symbol c.hostname ∷ set_float c.port ∷ [])
        ∷ outlet_anything statusout "bufsize" (
            set_float (client + 1)
            ∷ float (receiver_getsize c.receiver)
            ∷ float (sender_getsize c.sender)
            ∷ [])
        ∷ [])

unfoldable pub info_client : Server → ℕ → Option Server
unfolding client_report info_event
info_client x client =
    if ltb client x.maxconnections
    then (do
      p ← slot x client
      if p == null then some x else do c ← deref x p; some (emits x (client_report client c)))
    else some x

-- The port in a socket address that is read as a `struct sockaddr_in`.
abbrev pub sin_port_of : SockAddr → ℕ
sin_port_of (inet a p) = p
sin_port_of (inet6 a p) = p
sin_port_of (unix a g) = 0
sin_port_of (unknown f) = 0

server_report : Os → Server → ℤ → List Message
server_report os x port =
    info_event server_info
    ++ (iemnet_socket2addressout (os.sockname x.connectsocket) statusout "local_address"
        ++ (outlet_anything statusout "port" (float port ∷ [])
            ∷ outlet_anything statusout "maxconnections" (set_float x.maxconnections ∷ [])
            ∷ []))

unfoldable pub info : Os → Server → Server
unfolding server_report
info os x =
    if is_neg x.connectsocket
    then x
    else if ltb_ℤ (pos 0) x.port
    then emits x (server_report os x x.port)
    else elim (os.sockname x.connectsocket) [
      | none ↦ x
      | some a ↦
          let port = pos (ntohs (sin_port_of a)) in
          emits (record x { port = port }) (server_report os x port)
    ]

unfoldable pub info_connection : Conn → Event → List Message
unfolding info_event
info_connection y event =
    info_event event
    ++ (outlet_anything statusout "client"
          (set_float (y.client + 1) ∷ float y.fd ∷ symbol y.hostname ∷ set_float y.port ∷ [])
        ∷ outlet_anything statusout "socket" (float y.fd ∷ [])
        ∷ (iemnet_addrout (some statusout) (some addrout) y.host y.port
            ++ outlet_float sockout y.fd ∷ []))
