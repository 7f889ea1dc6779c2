-- ===== src/Tests/Servers.antt =====
-- tcpserver.c: a server with two connections.
use pd_iemnet.Prelude.{
  ℕ, ◌+◌, ◌≡◌, refl, List, [], ◌∷◌, ◌++◌, arith, true, some, none, replicate, if◌then◌else◌, ◌==◌,
}
use pd_iemnet.Prelude.Int.{ℤ, pos}
use pd_iemnet.Os.{Os, outs}
use pd_iemnet.TcpServer.{null, Conn, Server, Conns, update}
use pd_iemnet.TcpServer.Table.{disconnect_index, disconnect_all, disconnect_socket}
use pd_iemnet.TcpServer.Control.{Incoming, connectpoll, Binding}
use pd_iemnet.Output.Reports.{count_report}
use pd_iemnet.TcpServer.Reports.{connection_report, given_back}
use pd_iemnet.TcpServer.Live.{Entry, Inv, Live}
use pd_iemnet.TcpServer.Disconnect.{disconnect-Inv, disconnect_overrun}
use pd_iemnet.TcpServer.DisconnectAll.{disconnect_all-odds}
use pd_iemnet.TcpServer.Lookup.{disconnect_socket-index}
use pd_iemnet.TcpServer.Insert.{IsNew}
use pd_iemnet.TcpServer.Accept.{Answered, connectpoll-Inv}
use pd_iemnet.TcpServer.Numbers.{Numbered, disconnect-stale_numbers}

abbrev system : Os
system = record {
  malloc = λ n. true;
  spawn = λ s. true;
  fresh = λ n. replicate n 0;
  sockname = λ s. none;
}

abbrev conn : ℕ → ℤ → ℕ → Conn
conn p fd n = record {
  owned = true;
  host = 0x7f000001;
  port = p;
  fd = fd;
  client = n;
  sender = none;
  receiver = true;
  hostname = "127.0.0.1";
}

abbrev conns : Conns
conns p =
    if p == 10
    then some (conn 4000 (pos 5) 0)
    else if p == 20
    then some (conn 4001 (pos 6) 1)
    else none

-- With `room` places to spare.
abbrev serving : ℕ → Server
serving room = record {
  serialize = true;
  accepting = true;
  sr = 10 ∷ 20 ∷ replicate room null;
  nconnections = 2;
  maxconnections = 2 + room;
  connectsocket = pos 3;
  port = pos 9000;
  defaulttarget = pos 0;
  floatlist = none;
  heap = conns;
  log = [];
}

abbrev entries : List Entry
entries = (10, pos 5) ∷ (20, pos 6) ∷ []

entries-Live : Live conns entries
entries-Live = (
  record {
    conn = conn 4000 (pos 5) 0;
    ne_null = ground arith;
    at = refl;
    socket = refl;
    valid = refl;
    owned = refl;
  },
  ((ground arith, ground arith), tt),
  (
    record {
      conn = conn 4001 (pos 6) 1;
      ne_null = ground arith;
      at = refl;
      socket = refl;
      valid = refl;
      owned = refl;
    },
    tt,
    tt,
  ),
)

abbrev roomy : Inv (serving 2) entries
roomy = record {
  room = 2;
  array = refl;
  count = refl;
  cap = refl;
  small = omega arith;
  live = entries-Live;
}

abbrev full : Inv (serving 0) entries
full = record {
  room = 0;
  array = refl;
  count = refl;
  cap = refl;
  small = omega arith;
  live = entries-Live;
}

disconnect-Inv_example :
    (y : Server) × (c : Conn) × (disconnect_index (serving 2) 0 ≡ some y)
    × (conns 10 ≡ some c)
    × Inv y ((20, pos 6) ∷ [])
    × (y.maxconnections ≡ 4)
    × (y.heap ≡ update conns 10 none)
    × (y.log
        ≡ (([] ++ outs (connection_report (some "disconnect") c)) ++ given_back c)
          ++ outs (count_report 1))
disconnect-Inv_example =
    disconnect-Inv (serving 2) [] (10, pos 5) ((20, pos 6) ∷ []) roomy (omega arith)

disconnect_overrun_example : disconnect_index (serving 0) 1 ≡ none
disconnect_overrun_example =
    disconnect_overrun (serving 0) ((10, pos 5) ∷ []) (20, pos 6) [] full (omega arith)

disconnect_all-odds_example :
    (y : Server) × (disconnect_all (serving 2) ≡ some y)
    × Inv y ((20, pos 6) ∷ [])
    × (y.maxconnections ≡ 4)
disconnect_all-odds_example = disconnect_all-odds (serving 2) entries roomy (omega arith)

disconnect_socket-index_example :
    disconnect_socket (serving 2) (pos 6) ≡ disconnect_index (serving 2) 1
disconnect_socket-index_example =
    disconnect_socket-index (serving 2) ((10, pos 5) ∷ []) (20, pos 6) [] roomy

abbrev incoming : Incoming
incoming = record {
  fd = pos 7;
  addr = record { s_addr = 0x0100007f; sin_port = 0x901f; sin_family = 2 };
  alloc = 30;
}

incoming-IsNew : IsNew incoming entries
incoming-IsNew = ((ground arith, ground arith), ((ground arith, ground arith), tt))

connectpoll-Inv_example :
    Answered (serving 2) entries incoming (connectpoll system (serving 2) (pos 3) incoming)
connectpoll-Inv_example = connectpoll-Inv system (serving 2) entries incoming roomy incoming-IsNew

abbrev bound : Binding
bound = record { socket = pos 8; bind = pos 0; listen = pos 0 }

entries-Numbered : Numbered conns entries 0
entries-Numbered = ((conn 4000 (pos 5) 0, refl, refl), ((conn 4001 (pos 6) 1, refl, refl), tt))

disconnect-stale_numbers_example :
    (y : Server) × (disconnect_index (serving 2) 0 ≡ some y)
    × Inv y ((20, pos 6) ∷ [])
    × Numbered y.heap [] 0
    × Numbered y.heap ((20, pos 6) ∷ []) 1
disconnect-stale_numbers_example =
    disconnect-stale_numbers (serving 2) [] (10, pos 5) ((20, pos 6) ∷ []) roomy (omega arith)
      entries-Numbered
