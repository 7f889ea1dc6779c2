-- ===== src/TcpSend.antt =====
-- tcpsend.c: an object that only sends, over one connection. `setsockopt` changes nothing that is
-- modelled. `connectout` is its only outlet.
pub mod Runs
use pd_iemnet.Prelude.{ℕ, Option, none, some, List, [], ◌∷◌, ◌++◌, if◌then◌else◌}
use pd_iemnet.Prelude.Int.{ℤ, pos, minus_one, is_neg}
use pd_iemnet.Chunk.{Chunk, chunk_create_list}
use pd_iemnet.Output.{Atom, Message, connectout, outlet_float}
use pd_iemnet.Os.{Os, Effect, open_socket, outs, iemnet_closesocket}
use pd_iemnet.Sender.{Sender, sender_send}
use pd_iemnet.Sender.Connect.{iemnet_connect}
use pd_iemnet.Link.{Dial, create_sender, destroy_sender}

pub record Client : Type 0 where
  pub fd : ℤ
  pub timeout : ℤ
  pub sender : Option Sender
  pub log : List Effect

abbrev pub does : Client → List Effect → Client
does x es = record x { log = x.log ++ es }

-- Whether the object is connected.
abbrev pub connected : ℕ → List Message
connected n = outlet_float connectout (pos n) ∷ []

unfoldable pub disconnect : Client → Client
disconnect x =
    let quiet = does (record x { sender = none }) (destroy_sender x.sender) in
    if is_neg x.fd
    then quiet
    else does (record quiet { fd = minus_one }) (iemnet_closesocket x.fd ++ outs (connected 0))

unfoldable pub linked : Os → Client → ℤ → Client
linked os x sockfd =
    let (sender, started) = create_sender os sockfd in
    does (record x { fd = sockfd; sender = sender }) (started ++ outs (connected 1))

-- `host` is what `gethostbyname` finds.
unfoldable pub connect_to : Os → Client → Dial → (host : Option ℕ) → Client
unfolding linked
connect_to os x d none = x
connect_to os x d (some h_addr) =
    let opened = does x (open_socket d.socket ∷ []) in
    if is_neg d.socket
    then x
    else if is_neg (iemnet_connect x.timeout d.answers).0
    then does opened (iemnet_closesocket d.socket)
    else linked os opened d.socket

unfoldable pub connect : Os → Client → Dial → Client
connect os x d = if is_neg x.fd then connect_to os x d d.host else x

unfoldable pub set_timeout : Client → ℤ → Client
set_timeout x timeout = record x { timeout = timeout }

-- Both the sender and the chunk must be there.
unfoldable pub send_chunk : Os → Option Sender → Option Chunk → Option Sender
send_chunk os none c = none
send_chunk os (some s) none = some s
send_chunk os (some s) (some c) = some (sender_send os.malloc s (some c)).1

unfoldable pub send : Os → Client → List Atom → Client
unfolding send_chunk
send os x argv = record x { sender = send_chunk os x.sender (chunk_create_list os.malloc argv) }

-- `pd_new` clears the fields that are not set.
abbrev pub new : Client
new = record { fd = minus_one; timeout = minus_one; sender = none; log = [] }

abbrev pub free : Client → Client
free x = disconnect x
