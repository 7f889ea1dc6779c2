-- ===== src/Tests/Udp.antt =====
-- udpserver.c and iemnet_receiver.c: servers at concrete inputs.
use pd_iemnet.Prelude.{
  false, List, length-replicate, ℕ, ◌+◌, ◌≡◌, refl, [], ◌∷◌, ◌++◌, arith, true, some, none,
  replicate, ◌==◌, if◌then◌else◌,
}
use pd_iemnet.Prelude.Int.{pos}
use pd_iemnet.TcpServer.{null}
use pd_iemnet.UdpServer.{Client, Clients, Server, Env}
use pd_iemnet.UdpServer.Table.{sender_remove, socket2index}
use pd_iemnet.UdpServer.Live.{Entry, Inv, Alive}
use pd_iemnet.Os.{outs}
use pd_iemnet.Chunk.{Chunk}
use pd_iemnet.Chunk.Laws.{IsChunk}
use pd_iemnet.UdpServer.Control.{receive_callback}
use pd_iemnet.UdpServer.Receive.{receive_callback-new}
use pd_iemnet.UdpServer.Add.{newcomer}
use pd_iemnet.Output.Reports.{address_report, count_report, bytes_report}
use pd_iemnet.Output.{float}
use pd_iemnet.TcpServer.Broadcast.{message}
use pd_iemnet.UdpServer.Deliver.{Sending, Reached}
use pd_iemnet.UdpServer.Broadcast.{broadcast-Reached}
use pd_iemnet.UdpServer.Send.{broadcast}
use pd_iemnet.Sender.{Sender}
use pd_iemnet.UdpServer.Remove.{remove-lookup_faults}

abbrev env : Env
env = record {
  os = record {
    malloc = λ n. true;
    spawn = λ s. true;
    fresh = λ n. replicate n 0;
    sockname = λ s. none;
  };
  now = 5000;
  alloc = 30;
}

abbrev client : ℕ → ℕ → Client
client n seen = record {
  host = 0x7f000001;
  port = 4000 + n;
  hostname = "127.0.0.1";
  uniq = 1000 + n;
  sender = none;
  lastseen = seen;
}

abbrev clients : Clients
clients p = if p == 10 then some (client 0 1000) else if p == 20 then some (client 1 4500) else none

abbrev first : Entry
first = (10, client 0 1000)

abbrev second : Entry
second = (20, client 1 4500)

abbrev server : Server
server = record {
  sr = 10 ∷ 20 ∷ null ∷ null ∷ [];
  nconnections = 2;
  maxconnections = 4;
  connectsocket = pos 3;
  port = 9000;
  ifaddr = none;
  accept = 1;
  timeout = pos 2000;
  lastchecked = 3000;
  defaulttarget = pos 0;
  receiver = none;
  floatlist = none;
  uniq = 1002;
  heap = clients;
  log = [];
}

server-Alive : Alive clients (first ∷ second ∷ [])
server-Alive = ((ground arith, refl), (ground arith, tt), ((ground arith, refl), tt, tt))

abbrev server-Inv : Inv server (first ∷ second ∷ [])
server-Inv = record {
  room = 2;
  array = refl;
  count = refl;
  cap = refl;
  small = omega arith;
  alive = server-Alive;
}

remove-lookup_faults_example :
    (y : Server) × (sender_remove server 0 ≡ some y) × (socket2index y (pos 1001) ≡ none)
remove-lookup_faults_example =
    remove-lookup_faults server [] first second [] (pos 1001) server-Inv tt

-- A datagram from port 5000.
abbrev arrived : Chunk
arrived = record { bytes = 104 ∷ 105 ∷ []; size = 2; addr = 0x7f000001; port = 5000; family = 2 }

arrived-IsChunk : IsChunk arrived
arrived-IsChunk = record {
  sized = refl;
  filled = omega arith;
  small = (omega arith, (omega arith, tt));
}

receive_callback-new_example :
    (y : Server) × (receive_callback env server (some arrived) ≡ some y)
    × Inv y (first ∷ second ∷ (30, newcomer env server 0x7f000001 5000) ∷ [])
    × (y.log
        ≡ []
          ++ outs (
              address_report 0x7f000001 5000
              ++ (count_report (2 + 1) ++ bytes_report false (104 ∷ 105 ∷ []))))
receive_callback-new_example =
    receive_callback-new env server (first ∷ second ∷ []) arrived server-Inv (refl, (refl, tt))
      (ground arith) (ground arith) (ground arith, (ground arith, tt)) (omega arith) (λ n. refl)
      (λ n. length-replicate n 0) tt arrived-IsChunk

abbrev sender : Sender
sender = record { sockfd = pos 3; queue = some []; keepsending = true; isrunning = true }

-- The second client has a sender; the first is expired.
abbrev ready : Server
ready = record server {
  heap = λ p. if p == 20 then some (record (client 1 4500) { sender = some sender }) else clients p;
}

abbrev third : Entry
third = (20, record (client 1 4500) { sender = some sender })

ready-Inv : Inv ready (first ∷ third ∷ [])
ready-Inv = record {
  room = 2;
  array = refl;
  count = refl;
  cap = refl;
  small = omega arith;
  alive = ((ground arith, refl), (ground arith, tt), ((ground arith, refl), tt, tt));
}

third-Sending : Sending 1 third.1
third-Sending = record {
  sender = sender;
  queue = [];
  has = refl;
  waits = refl;
  running = refl;
  fits = omega arith;
}

broadcast-Reached_example :
    (y : Server) × (fs : List Entry) × (broadcast env ready (float (pos 7) ∷ []) ≡ some y)
    × Inv y fs
    × Reached none (message (float (pos 7) ∷ [])) 0 (third ∷ []) fs
broadcast-Reached_example =
    broadcast-Reached env ready (first ∷ third ∷ []) (float (pos 7) ∷ []) ready-Inv (λ n. refl)
      (omega arith) (third-Sending, tt)
