-- ===== src/UdpSend.antt =====
-- udpsend.c: an object that sends datagrams to one address. `setsockopt` changes nothing that is
-- modelled. `connectout` is its only outlet.
pub mod Runs
pub mod Leak
pub mod Messages
use pd_iemnet.Prelude.{ℕ, Option, none, some, List, [], ◌∷◌, ◌++◌, if◌then◌else◌}
use pd_iemnet.Prelude.Int.{ℤ, pos, minus_one, is_neg, ltb_ℤ}
use pd_iemnet.Chunk.{Chunk, chunk_create_list}
use pd_iemnet.Output.{Atom, Message, connectout, outlet_float}
use pd_iemnet.Os.{Os, Effect, open_socket, outs, iemnet_closesocket}
use pd_iemnet.Sender.{Sender, sender_send}
use pd_iemnet.Link.{is_set, Dial, create_sender, destroy_sender}

pub record Client : Type 0 where
  pub sender : Option Sender
  pub fd : ℤ
  pub log : List Effect

abbrev pub does : Client → List Effect → Client
does x es = record x { log = x.log ++ es }

-- Whether the object is connected.
abbrev pub connected : ℕ → List Message
connected n = outlet_float connectout (pos n) ∷ []

unfoldable pub linked : Os → Client → ℤ → Client
linked os x sockfd =
    let (sender, started) = create_sender os sockfd in
    does (record x { fd = sockfd; sender = sender }) (started ++ outs (connected 1))

-- `host` is what `gethostbyname` finds.
unfoldable pub connect_to : Os → Client → Dial → (host : Option ℕ) → Client
unfolding linked
connect_to os x d none = x
connect_to os x d (some h_addr) =
    let opened = does x (open_socket d.socket ∷ []) in
    if is_neg d.socket
    then x
    else if is_neg d.answers.connect
    then does opened (iemnet_closesocket d.socket)
    else linked os opened d.socket

unfoldable pub connect : Os → Client → Dial → Client
connect os x d = if is_set x.sender then x else connect_to os x d d.host

unfoldable pub disconnect : Client → Client
disconnect x =
    let quiet = does (record x { sender = none }) (destroy_sender x.sender) in
    if is_neg x.fd
    then quiet
    else does (record quiet { fd = minus_one }) (iemnet_closesocket x.fd ++ outs (connected 0))

-- The chunk may be NULL.
unfoldable pub send_with : Os → Client → Option Sender → Option Chunk → Client
send_with os x none c = x
send_with os x (some s) c =
    let (size, s') = sender_send os.malloc s c in
    let sent = record x { sender = some s' } in if ltb_ℤ size (pos 1) then disconnect sent else sent

unfoldable pub send : Os → Client → List Atom → Client
unfolding send_with
send os x argv = send_with os x x.sender (chunk_create_list os.malloc argv)

-- `pd_new` clears the fields that are not set.
abbrev pub new : Client
new = record { sender = none; fd = minus_one; log = [] }

abbrev pub free : Client → Client
free x = disconnect x
