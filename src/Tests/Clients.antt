-- ===== src/Tests/Clients.antt =====
-- tcpclient.c, udpclient.c, tcpsend.c and udpsend.c: objects of one connection.
use pd_iemnet.Prelude.{
  ◌≡◌, ◌≢◌, refl, true, false, some, none, List, [], ◌∷◌, replicate, arith, ◌⊎◌,
}
use pd_iemnet.Prelude.Int.{pos, minus_one, is_neg}
use pd_iemnet.Output.{Atom, float}
use pd_iemnet.Os.{Os, open_socket}
use pd_iemnet.Sender.{Sender, sender_create}
use pd_iemnet.Sender.Connect.{iemnet_connect}
use pd_iemnet.Link.{Dial, create_sender}
use pd_iemnet.UdpClient.Outcome.{udpclient_connect-Inv}
use pd_iemnet.Resource.{Balanced, Balanced-nil, holding}
use pd_iemnet.Resource.Links.{opened-Balanced}
use pd_iemnet.TcpClient
use pd_iemnet.TcpClient.Connect.{tcpclient_connect-Inv}
use pd_iemnet.TcpClient.Runs.{tcpclient_free-Balanced, disconnect-info_faults}
use pd_iemnet.UdpClient
use pd_iemnet.UdpClient.Runs.{udpclient_free-Balanced, Reach-info}
use pd_iemnet.TcpSend
use pd_iemnet.TcpSend.Runs.{tcpsend_connect-Inv}
use pd_iemnet.UdpSend
use pd_iemnet.UdpSend.Runs.{udpsend_free-Balanced}
use pd_iemnet.UdpSend.Leak.{Leaked, connect_again-leaks}
use pd_iemnet.UdpSend.Messages.{send_empty-disconnects}

abbrev system : Os
system = record {
  malloc = λ n. true;
  spawn = λ s. true;
  fresh = λ n. replicate n 0;
  sockname = λ s. none;
}

-- A host that answers on socket 5.
abbrev dial : Dial
dial = record {
  host = some 0x0100007f;
  socket = pos 5;
  answers = record { connect = pos 0; in_progress = false; select = pos 0; err_set = false };
}

abbrev argv : List Atom
argv = float (pos 1) ∷ float (pos 2) ∷ []

tcp_Reach : TcpClient.Runs.Reach system (TcpClient.new system)
tcp_Reach = TcpClient.Runs.made

tcpclient_connect-Inv_example :
    (y : TcpClient.Client) × (TcpClient.connect system
        (TcpClient.new system)
        "localhost"
        (pos 9000)
        dial
      ≡ some y)
    × TcpClient.Balance.Inv y
    × TcpClient.Connect.Outcome minus_one dial y.connectstate y.fd
unfolding TcpClient.new
tcpclient_connect-Inv_example =
    tcpclient_connect-Inv system (TcpClient.new system) "localhost" (pos 9000) dial
      (TcpClient.Runs.Reach-Inv tcp_Reach)

-- The client once it has connected, and once it has reported that.
abbrev tcp_connected : TcpClient.Client
tcp_connected = TcpClient.dialled system (TcpClient.new system) "localhost" (pos 9000) dial

abbrev tcp_online : TcpClient.Client
tcp_online =
    TcpClient.emits
      (TcpClient.emits (TcpClient.emits tcp_connected (TcpClient.local_address system (pos 5)))
        (TcpClient.connections 1))
      (TcpClient.server_report tcp_connected "localhost")

tcp_online_step :
    TcpClient.connect system (TcpClient.new system) "localhost" (pos 9000) dial ≡ some tcp_online
unfolding TcpClient.connect TcpClient.dialled TcpClient.new TcpClient.do_connect TcpClient.info
    iemnet_connect TcpClient.hang_up
tcp_online_step = refl

tcpclient_free-Balanced_example :
    Balanced (TcpClient.free (TcpClient.send system tcp_online argv)).log (holding [] [] [])
tcpclient_free-Balanced_example = tcpclient_free-Balanced (
    TcpClient.Runs.next
      (TcpClient.Runs.next tcp_Reach
        (TcpClient.Runs.connects "localhost" (pos 9000) dial tcp_online_step))
      (TcpClient.Runs.sends argv))

tcp_connected-connectstate : tcp_connected.connectstate ≢ 0
unfolding TcpClient.dialled TcpClient.new TcpClient.do_connect iemnet_connect TcpClient.hang_up
tcp_connected-connectstate = ground arith

disconnect-info_faults_example : TcpClient.info system (TcpClient.disconnect tcp_connected) ≡ none
disconnect-info_faults_example =
    disconnect-info_faults system tcp_connected tcp_connected-connectstate

-- A client that has sent two numbers over UDP, without being connected.
abbrev udp_sent : UdpClient.Client
udp_sent = UdpClient.send system (UdpClient.new system) argv

udp_Reach : UdpClient.Runs.Reach system udp_sent
udp_Reach = UdpClient.Runs.next UdpClient.Runs.made (UdpClient.Runs.sends argv)

-- The same client once it has connected, see `udp_online_step`.
abbrev udp_online : UdpClient.Client
udp_online =
    (udpclient_connect-Inv system udp_sent "localhost" (pos 9000) (pos 0) dial
      (UdpClient.Runs.Reach-Inv udp_Reach)).0

udp_online_Reach : UdpClient.Runs.Reach system udp_online
udp_online_Reach = UdpClient.Runs.next udp_Reach (
    UdpClient.Runs.connects "localhost" (pos 9000) (pos 0) dial
      (udpclient_connect-Inv system udp_sent "localhost" (pos 9000) (pos 0) dial
        (UdpClient.Runs.Reach-Inv udp_Reach)).1)

udpclient_free-Balanced_example : Balanced (UdpClient.free udp_online).log (holding [] [] [])
udpclient_free-Balanced_example = udpclient_free-Balanced udp_online_Reach

send_Reach : TcpSend.Runs.Reach system TcpSend.new
send_Reach = TcpSend.Runs.made

tcpsend_connect-Inv_example :
    TcpSend.Runs.Inv (TcpSend.connect system TcpSend.new dial)
    × (((is_neg minus_one ≡ false) × (TcpSend.connect system TcpSend.new dial ≡ TcpSend.new))
        ⊎ ((is_neg minus_one ≡ true)
            × TcpSend.Runs.Outcome minus_one dial
                (some 0x0100007f)
                (TcpSend.connect system TcpSend.new dial)))
tcpsend_connect-Inv_example =
    tcpsend_connect-Inv system TcpSend.new dial (TcpSend.Runs.Reach-Inv send_Reach)

system-Starts : UdpSend.Runs.Starts system
unfolding create_sender sender_create
system-Starts fd = refl

udpsend_free-Balanced_example :
    Balanced (UdpSend.free (UdpSend.connect system UdpSend.new dial)).log (holding [] [] [])
udpsend_free-Balanced_example =
    udpsend_free-Balanced system-Starts
      (UdpSend.Runs.next UdpSend.Runs.made (UdpSend.Runs.connects dial))

-- A socket whose sender could not be made.
abbrev half : UdpSend.Client
half = record { sender = none; fd = pos 4; log = open_socket (pos 4) ∷ [] }

half-Balanced : Balanced half.log (holding (pos 4 ∷ []) [] [])
half-Balanced = opened-Balanced [] (pos 4) Balanced-nil

connect_again-leaks_example :
    Leaked (pos 4) (pos 5) (UdpSend.free (UdpSend.connect system half dial)).log
connect_again-leaks_example =
    connect_again-leaks system half dial 0x0100007f half-Balanced refl refl refl refl refl

abbrev sender : Sender
sender = record { sockfd = pos 5; queue = some []; keepsending = true; isrunning = true }

abbrev sending : UdpSend.Client
sending = record { sender = some sender; fd = pos 5; log = [] }

send_empty-disconnects_example : UdpSend.send system sending [] ≡ UdpSend.disconnect sending
send_empty-disconnects_example = send_empty-disconnects system sending sender refl refl refl
