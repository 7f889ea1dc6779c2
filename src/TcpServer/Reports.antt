-- ===== src/TcpServer/Reports.antt =====
-- tcpserver.c: what the object reports of a connection, and gives back for it, written out.
use Prim.Native.String.{String}
use pd_iemnet.Prelude.{
  ◌+◌, ◌≡◌, refl, Bool, true, false, Option, none, some, List, [], ◌∷◌, ◌++◌, arith,
}
use pd_iemnet.Prelude.Int.{ℤ, is_neg}
use pd_iemnet.Output.{float, symbol, sockout, statusout, Message}
use pd_iemnet.Output.Reports.{message, number, address_report, addrout-report}
use pd_iemnet.Os.{Effect, join_sender, rm_poll, close_socket, iemnet_closesocket}
use pd_iemnet.Sender.{Sender}
use pd_iemnet.TcpServer.{illegal, disconnect, receive, Conn}
use pd_iemnet.TcpServer.Info.{info_event, info_connection}
use pd_iemnet.TcpServer.Table.{release}

-- The kind of event, if it has a name.
abbrev pub event_report : Option String → List Message
event_report none = []
event_report (some name) = message statusout "type" (symbol name ∷ []) ∷ []

-- The number of a connection, counted from 1, its socket, host name and port; then the socket, the
-- address to both its outlets, and the socket to its own outlet.
abbrev pub connection_report : Option String → Conn → List Message
connection_report event c =
    event_report event
    ++ (message statusout "client"
          (number (c.client + 1) ∷ float c.fd ∷ symbol c.hostname ∷ number c.port ∷ [])
        ∷ message statusout "socket" (float c.fd ∷ [])
        ∷ (address_report c.host c.port ++ message sockout "float" (float c.fd ∷ []) ∷ []))

pub info_connection-receive :
    (c : Conn) → info_connection c receive ≡ connection_report (some "receive") c
unfolding info_connection info_event
info_connection-receive c = rw (addrout-report c.host c.port) refl

pub info_connection-disconnect :
    (c : Conn) → info_connection c disconnect ≡ connection_report (some "disconnect") c
unfolding info_connection info_event
info_connection-disconnect c = rw (addrout-report c.host c.port) refl

pub info_connection-illegal : (c : Conn) → info_connection c illegal ≡ connection_report none c
unfolding info_connection info_event
info_connection-illegal c = rw (addrout-report c.host c.port) refl

-- The thread of a sender is joined, if there is one.
abbrev pub joined : Option Sender → List Effect
joined none = []
joined (some s) = join_sender s.sockfd ∷ []

-- The poll function of a socket is removed, if it has a receiver.
abbrev pub unpolled : Bool → ℤ → List Effect
unpolled true fd = rm_poll fd ∷ []
unpolled false fd = []

-- The sender, then the receiver, then the socket itself.
abbrev pub given_back : Conn → List Effect
given_back c = joined c.sender ++ (unpolled c.receiver c.fd ++ close_socket c.fd ∷ [])

pub release-given_back : (c : Conn) → is_neg c.fd ≡ false → release c ≡ given_back c
unfolding release iemnet_closesocket
release-given_back c valid = ground (arith, valid)
