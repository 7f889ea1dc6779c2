-- ===== src/UdpReceive.antt =====
-- udpreceive.c: an object that receives datagrams on one port. `setsockopt` changes nothing that is
-- modelled; `close_socket` stands for closing without `shutdown` in `udpreceive_free`.
pub mod Runs
pub mod Port
use Prim.Native.String.{String}
use text.Mathlib.Text.{◌==◌ as str_eq}
use pd_iemnet.Prelude.{
  ℕ, Bool, true, false, Option, none, some, List, [], ◌∷◌, ◌++◌, if◌then◌else◌, ◌>>=◌,
}
use pd_iemnet.Prelude.Int.{ℤ, pos, minus_one, is_neg, eqb_ℤ, to_ushort}
use pd_iemnet.Chunk.{Chunk, FloatList, chunk2list, floatlist_create, atoms}
use pd_iemnet.Output.{
  Atom, float, symbol, Message, msgout, addrout, statusout, outlet_anything, outlet_list,
  iemnet_addrout,
}
use pd_iemnet.Os.{Os, Effect, open_socket, outs, iemnet_closesocket}
use pd_iemnet.Receiver.{Receiver, receiver_create, receiver_destroy}
use pd_iemnet.TcpServer.Control.{port_in_use}

pub record Listener : Type 0 where
  pub fd : ℤ
  pub port : ℤ
  pub receiver : Option Receiver
  pub floatlist : Option FloatList
  pub reuseport : ℤ
  pub reuseaddr : ℤ
  pub log : List Effect

abbrev pub does : Listener → List Effect → Listener
does x es = record x { log = x.log ++ es }

abbrev pub emits : Listener → List Message → Listener
emits x ms = does x (outs ms)

-- The float list must not be NULL.
unfoldable pub read_callback : Os → Listener → Option Chunk → Option Listener
read_callback os x none = some x
read_callback os x (some c) = do
  let told = emits x (iemnet_addrout (some statusout) (some addrout) c.addr c.port)
  list ← chunk2list os.malloc os.fresh (some c) told.floatlist
  some (emits (record told { floatlist = some list }) (outlet_list msgout (atoms list) ∷ []))

-- What `socket` and `bind` return.
pub record Bound : Type 0 where
  pub socket : ℤ
  pub bind : ℤ

-- Gives back the receiver and the socket that are there.
unfoldable pub close_port : Listener → Listener
close_port x =
    let quiet = does (record x { receiver = none }) (receiver_destroy x.receiver) in
    if is_neg x.fd
    then quiet
    else does (record quiet { fd = minus_one; port = minus_one }) (iemnet_closesocket x.fd)

unfoldable pub open_port : Os → Listener → ℤ → ℕ → Listener
open_port os x sockfd portno =
    let (receiver, polled) = receiver_create os.malloc sockfd in
    does (record x { fd = sockfd; port = port_in_use os sockfd (pos portno); receiver = receiver })
      polled

-- The result is whether the object has the port.
unfoldable pub setport : Os → Listener → ℕ → Bound → Listener × Bool
unfolding close_port open_port
setport os x portno b =
    let closed = close_port x in
    let opened = does closed (open_socket b.socket ∷ []) in
    if eqb_ℤ x.port (pos portno)
    then (x, true)
    else if is_neg b.socket
    then (closed, false)
    else if is_neg b.bind
    then (does opened (iemnet_closesocket b.socket), false)
    else (open_port os opened b.socket portno, true)

abbrev pub port_is : ℤ → List Message
port_is p = outlet_anything statusout "port" (float p ∷ []) ∷ []

-- `argv` must be empty or one float.
unfoldable pub port : Os → Listener → List Atom → Bound → Listener
unfolding setport
port os x [] b = emits x (port_is x.port)
port os x (float p ∷ []) b =
    let (y, done) = setport os x (to_ushort p) b in
    let told = if done then y else emits y (port_is minus_one) in emits told (port_is told.port)
port os x (symbol s ∷ []) b = x
port os x (a ∷ a' ∷ argv) b = x

-- `*reuse` of the option that is named; `none` is an option that is not known.
unfoldable pub get_option : Listener → String → Option ℤ
get_option x s =
    if str_eq s "reuseaddr"
    then some x.reuseaddr
    else if str_eq s "reuseport"
    then some x.reuseport
    else none

unfoldable pub put_option : Listener → String → ℤ → Listener
put_option x s v =
    if str_eq s "reuseaddr"
    then record x { reuseaddr = v }
    else if str_eq s "reuseport"
    then record x { reuseport = v }
    else x

-- The value of an option is output.
unfoldable pub tell_option : Listener → String → (value : Option ℤ) → Listener
tell_option x s none = x
tell_option x s (some v) = emits x (outlet_anything statusout s (float v ∷ []) ∷ [])

unfoldable pub option_i : Listener → String → List Atom → Listener
unfolding tell_option get_option put_option
option_i x s (float v ∷ []) = put_option x s v
option_i x s (symbol t ∷ []) = x
option_i x s (a ∷ a' ∷ argv) = x
option_i x s [] = tell_option x s (get_option x s)

-- The object before its first port is set.
abbrev pub unbound : Os → Listener
unbound os = record {
  fd = minus_one;
  port = minus_one;
  receiver = none;
  floatlist = floatlist_create os.malloc os.fresh 1024;
  reuseport = pos 0;
  reuseaddr = pos 1;
  log = [];
}

unfoldable pub new : Os → ℤ → Bound → Listener
unfolding setport
new os portno b = (setport os (unbound os) (to_ushort portno) b).0

unfoldable pub free : Listener → Listener
free x =
    does (record x { receiver = none; fd = minus_one; floatlist = none })
      (receiver_destroy x.receiver ++ iemnet_closesocket x.fd)
