-- ===== src/Tests/Messages.antt =====
-- tcpserver.c: messages to and from two clients.
use pd_iemnet.Prelude.{
  ℕ, ◌≡◌, refl, List, [], ◌∷◌, inr, arith, true, some, none, replicate, ◌==◌, if◌then◌else◌,
}
use pd_iemnet.Prelude.Int.{pos, neg}
use pd_iemnet.Output.{Atom, float}
use pd_iemnet.Chunk.{Chunk}
use pd_iemnet.Chunk.Laws.{IsChunk}
use pd_iemnet.Os.{Os}
use pd_iemnet.Sender.{Sender}
use pd_iemnet.TcpServer.{null, Conn, Server, Conns}
use pd_iemnet.TcpServer.Send.{broadcast, send_butclient, send_toclient, send_bytes, defaultsend}
use pd_iemnet.TcpServer.Live.{Inv, Live}
use pd_iemnet.TcpServer.Deliver.{Job, AllSending, with_chunk}
use pd_iemnet.TcpServer.Broadcast.{message, broadcast-delivers}
use pd_iemnet.TcpServer.Butclient.{send_butclient-delivers}
use pd_iemnet.TcpServer.Dead.{Dead, send_bytes-Dead}
use pd_iemnet.TcpServer.Target.{aimed, defaultsend-target}
use pd_iemnet.Receiver.{Received}

abbrev system : Os
system = record {
  malloc = λ n. true;
  spawn = λ s. true;
  fresh = λ n. replicate n 0;
  sockname = λ s. none;
}

abbrev hello : Chunk
hello = record { bytes = 104 ∷ 105 ∷ []; size = 2; addr = 0; port = 0; family = 2 }

hello-IsChunk : IsChunk hello
hello-IsChunk = record {
  sized = refl;
  filled = omega arith;
  small = (omega arith, (omega arith, tt));
}

-- The thread of the second client has ended.
abbrev sender : ℕ → Sender
sender p = record {
  sockfd = pos p;
  queue = some (hello ∷ []);
  keepsending = true;
  isrunning = p == 5;
}

abbrev conn : ℕ → ℕ → Conn
conn p n = record {
  owned = true;
  host = 0x7f000001;
  port = 4000;
  fd = pos p;
  client = n;
  sender = some (sender p);
  receiver = true;
  hostname = "127.0.0.1";
}

abbrev conns : Conns
conns p = if p == 10 then some (conn 5 0) else if p == 20 then some (conn 6 1) else none

abbrev serving : List ℕ → ℕ → Server
serving sr n = record {
  serialize = true;
  accepting = true;
  sr = sr;
  nconnections = n;
  maxconnections = 4;
  connectsocket = pos 3;
  port = pos 9000;
  defaulttarget = pos 0;
  floatlist = none;
  heap = conns;
  log = [];
}

abbrev server : Server
server = serving (10 ∷ 20 ∷ null ∷ null ∷ []) 2

abbrev lone : Server
lone = serving (10 ∷ null ∷ null ∷ null ∷ []) 1

abbrev first : Job
first = ((10, pos 5), hello ∷ [])

abbrev second : Job
second = ((20, pos 6), [])

server-Live : Live conns (first.0 ∷ second.0 ∷ [])
server-Live = (
  record {
    conn = conn 5 0;
    ne_null = ground arith;
    at = refl;
    socket = refl;
    valid = refl;
    owned = refl;
  },
  ((ground arith, ground arith), tt),
  (
    record {
      conn = conn 6 1;
      ne_null = ground arith;
      at = refl;
      socket = refl;
      valid = refl;
      owned = refl;
    },
    tt,
    tt,
  ),
)

abbrev server-Inv : Inv server (first.0 ∷ second.0 ∷ [])
server-Inv = record {
  room = 2;
  array = refl;
  count = refl;
  cap = refl;
  small = omega arith;
  live = server-Live;
}

lone-Inv : Inv lone (first.0 ∷ [])
lone-Inv = record {
  room = 3;
  array = refl;
  count = refl;
  cap = refl;
  small = omega arith;
  live = (
    record {
      conn = conn 5 0;
      ne_null = ground arith;
      at = refl;
      socket = refl;
      valid = refl;
      owned = refl;
    },
    tt,
    tt,
  );
}

first-Sending : AllSending conns (first ∷ [])
first-Sending = (
  record {
    conn = conn 5 0;
    at = refl;
    socket = refl;
    owned = refl;
    sender = sender 5;
    has = refl;
    waits = refl;
    running = refl;
  },
  tt,
)

abbrev argv : List Atom
argv = float (pos 1) ∷ float (pos 2) ∷ []

broadcast-delivers_example :
    (y : Server) × (broadcast system lone argv ≡ some y)
    × Inv y (first.0 ∷ [])
    × AllSending y.heap (with_chunk (message argv) (first ∷ []))
broadcast-delivers_example =
    broadcast-delivers system lone (first ∷ []) argv lone-Inv (λ n. refl) (omega arith)
      (omega arith, tt) first-Sending

send_butclient-delivers_example :
    (y : Server) × (send_butclient system server 1 argv ≡ some y)
    × Inv y (first.0 ∷ second.0 ∷ [])
    × AllSending y.heap (with_chunk (message argv) (first ∷ []))
    × (y.heap 20 ≡ conns 20)
send_butclient-delivers_example =
    send_butclient-delivers system server (first ∷ []) second [] argv server-Inv (λ n. refl)
      (omega arith) (omega arith, tt) first-Sending

second-Dead : Dead (conn 6 1)
second-Dead = inr (sender 6, refl, refl)

send_bytes-Dead_example :
    (y : Server) × (send_bytes system server 1 (some hello) ≡ some y) × Inv y (first.0 ∷ [])
send_bytes-Dead_example =
    send_bytes-Dead system server (first.0 ∷ []) second.0 [] (some hello) server-Inv (conn 6 1)
      (omega arith) refl second-Dead

defaultsend-target_example :
    (defaultsend system (aimed server (pos 6)) argv
      ≡ send_toclient system (aimed server (pos 6)) 1 argv)
    × (defaultsend system (aimed server (neg (pos 6))) argv
        ≡ send_butclient system (aimed server (neg (pos 6))) 1 argv)
    × (defaultsend system (aimed server (pos 0)) argv
        ≡ broadcast system (aimed server (pos 0)) argv)
defaultsend-target_example =
    defaultsend-target system server (first.0 ∷ []) second.0 [] 5 argv refl server-Inv

-- Two bytes are read from the socket, or its end.
abbrev arrived : Received
arrived = record {
  result = pos 2;
  bytes = 104 ∷ 105 ∷ [];
  from = record { s_addr = 0; sin_port = 0; sin_family = 2 };
}

abbrev ended : Received
ended = record {
  result = pos 0;
  bytes = [];
  from = record { s_addr = 0; sin_port = 0; sin_family = 2 };
}
