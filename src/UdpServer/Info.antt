-- ===== src/UdpServer/Info.antt =====
-- udpserver.c: the functions that report.
use pd_iemnet.Prelude.{
  ℕ, Option, none, some, List, [], ◌∷◌, ◌++◌, ◌==◌, ltb, if◌then◌else◌, ◌>>=◌, ◌+◌,
}
use pd_iemnet.Prelude.Int.{ℤ, pos, minus_one, ntohs}
use pd_iemnet.Output.{
  float, symbol, set_float, statusout, addrout, Message, outlet_anything, iemnet_addrout,
  iemnet_socket2addressout,
}
use pd_iemnet.Receiver.{Receiver}
use pd_iemnet.Sender.{sender_getsize}
use pd_iemnet.TcpServer.{null}
use pd_iemnet.TcpServer.Info.{sin_port_of}
use pd_iemnet.UdpServer.{Client, Server, Env, emits, slot, deref}
use pd_iemnet.UdpServer.Table.{since, sender_autoremove}

-- `iemnet__receiver_getsize`
abbrev pub receiver_getsize : Option Receiver → ℤ
receiver_getsize none = minus_one
receiver_getsize (some r) = pos 0

unfoldable pub client_report : Env → Option Receiver → ℕ → Client → List Message
client_report env receiver client c =
    outlet_anything statusout "client" (
      set_float (client + 1)
      ∷ symbol "address"
      ∷ symbol c.hostname
      ∷ set_float c.port
      ∷ set_float (since env c.lastseen)
      ∷ [])
    ∷ outlet_anything statusout "bufsize" (
        set_float (client + 1)
        ∷ float (receiver_getsize receiver)
        ∷ float (sender_getsize c.sender)
        ∷ [])
    ∷ []

unfoldable pub info_client : Env → Server → ℕ → Option Server
unfolding client_report
info_client env x client =
    if ltb client x.maxconnections
    then (do
      p ← slot x client
      if p == null
          then some x
          else do c ← deref x p; some (emits x (client_report env x.receiver client c)))
    else some x

-- `x_port` after the system has been asked for it, if it is 0.
abbrev pub current_port : Env → Server → ℕ
current_port env x =
    if x.port == 0
    then elim (env.os.sockname x.connectsocket) [ none ↦ x.port | some a ↦ ntohs (sin_port_of a) ]
    else x.port

unfoldable pub info : Env → Server → Option Server
info env x = do
  y ← sender_autoremove env x
  let port = current_port env y
  some (
      emits (record y { port = port })
        (iemnet_socket2addressout (env.os.sockname x.connectsocket) statusout "local_address"
          ++ (outlet_anything statusout "port" (set_float port ∷ [])
              ∷ outlet_anything statusout "connections" (set_float y.nconnections ∷ [])
              ∷ [])))

unfoldable pub info_connection : (host port : ℕ) → List Message
info_connection host port = iemnet_addrout (some statusout) (some addrout) host port
