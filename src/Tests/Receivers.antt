-- ===== src/Tests/Receivers.antt =====
-- tcpreceive.c and udpreceive.c: objects that receive.
use pd_iemnet.Prelude.{
  ◌<◌, ◌≤◌, length, ◌≡◌, false, All, refl, true, some, none, [], ◌∷◌, replicate, arith, inr,
}
use pd_iemnet.Prelude.Int.{minus_one, ntohs, pos}
use pd_iemnet.Os.{Os}
use pd_iemnet.Output.{float}
use pd_iemnet.Resource.{sockets, lost, Balanced, holding}
use pd_iemnet.TcpServer.Control.{Binding}
use pd_iemnet.TcpReceive.Disconnect.{Disconnected, tcpreceive_disconnect-Inv}
use pd_iemnet.TcpReceive.DisconnectAll.{disconnect_all-closes}
use pd_iemnet.TcpReceive.{
  listening, close_listener, set_port, max_connections, new, disconnect_all, set_serialize, Slot,
  Listener, Accepted, empty_slot, connectpoll,
}
use pd_iemnet.TcpReceive.Slots.{Distinct, open_sockets, IsFree, IsBusy, Inv}
use pd_iemnet.TcpReceive.Runs.{request, Reach, serializes, made, next, Reach-count, empty-IsSlot}
use pd_iemnet.UdpReceive
use pd_iemnet.UdpReceive.Runs
use pd_iemnet.UdpReceive.Runs.{udpreceive_free-Balanced}
use pd_iemnet.UdpReceive.Port.{PortSet, setport-PortSet}

abbrev system : Os
system = record {
  malloc = λ n. true;
  spawn = λ s. true;
  fresh = λ n. replicate n 0;
  sockname = λ s. none;
}

-- A connection on socket 7, in front of 127 free slots.
abbrev slot : Slot
slot = record {
  addr = 0x7f000001;
  port = 4000;
  socket = pos 7;
  owned = true;
  receiver = some (record { sockfd = pos 7 });
}

abbrev listener : Listener
listener = record {
  connectsocket = pos 3;
  port = pos 9000;
  serialize = true;
  nconnections = pos 1;
  connection = slot ∷ replicate 127 empty_slot;
  floatlist = none;
  log = [];
}

slot-IsBusy : IsBusy slot
slot-IsBusy = record { valid = refl; peer = omega arith; owner = refl }

listener-Inv : Inv listener
listener-Inv = record {
  full = refl;
  slots = (inr slot-IsBusy, empty-IsSlot 127);
  distinct = (tt, tt);
  count = refl;
}

-- A peer at port 5000 gets socket 8.
abbrev accepted : Accepted
accepted = record {
  fd = pos 8;
  from = record { s_addr = 0x0100007f; sin_port = 0x8813; sin_family = 2 };
}

abbrev polled : Listener
polled = connectpoll system listener (pos 3) accepted

tcpreceive_disconnect-Inv_example : Disconnected listener [] slot (replicate 127 empty_slot)
tcpreceive_disconnect-Inv_example =
    tcpreceive_disconnect-Inv listener [] slot (replicate 127 empty_slot) listener-Inv refl

disconnect_all-closes_example :
    Inv (disconnect_all listener)
    × All IsFree (disconnect_all listener).connection
    × ((disconnect_all listener).nconnections ≡ pos 0)
    × (lost sockets (disconnect_all listener).log ≡ pos 7 ∷ [])
disconnect_all-closes_example = disconnect_all-closes listener listener-Inv

abbrev binding : Binding
binding = record { socket = pos 3; bind = pos 0; listen = pos 0 }

abbrev bound : Listener
bound = set_serialize (new system (pos 9000) binding) false

bound_none : open_sockets bound.connection ≡ []
unfolding set_serialize new set_port close_listener listening
bound_none = refl

peer_port : 0 < ntohs accepted.from.sin_port
unfolding ntohs
peer_port = omega arith

connected_Reach : Reach system (connectpoll system bound bound.connectsocket accepted)
connected_Reach =
    next (next (made (pos 9000) binding) (serializes false))
      (request accepted refl peer_port (rw bound_none tt))

Reach-count_example :
    let x = connectpoll system bound bound.connectsocket accepted in
    (x.nconnections ≡ pos (length (open_sockets x.connection)))
    × Distinct (open_sockets x.connection)
    × (length (open_sockets x.connection) ≤ max_connections)
Reach-count_example = Reach-count connected_Reach

-- A port that can be bound, and one that is taken.
abbrev free_port : UdpReceive.Bound
free_port = record { socket = pos 5; bind = pos 0 }

abbrev taken_port : UdpReceive.Bound
taken_port = record { socket = pos 6; bind = minus_one }

abbrev receiver : UdpReceive.Listener
receiver = UdpReceive.new system (pos 9000) free_port

receiver_Reach : UdpReceive.Runs.Reach system receiver
receiver_Reach = UdpReceive.Runs.made (pos 9000) free_port

udpreceive_free-Balanced_example :
    Balanced
      (UdpReceive.free (UdpReceive.port system receiver (float (pos 9001) ∷ []) taken_port)).log
      (holding [] [] [])
udpreceive_free-Balanced_example =
    udpreceive_free-Balanced (
      UdpReceive.Runs.next receiver_Reach
        (UdpReceive.Runs.binds (float (pos 9001) ∷ []) taken_port))

setport-PortSet_example :
    PortSet system receiver 9001 taken_port (UdpReceive.setport system receiver 9001 taken_port)
setport-PortSet_example = setport-PortSet 9001 taken_port receiver_Reach
