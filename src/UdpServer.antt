-- ===== src/UdpServer.antt =====
-- udpserver.c: the state of a server. Its clients are objects behind pointers: `heap` holds them,
-- and `sr` is the array `x_sr`, as long as it is allocated. A command that faults (NULL dereference,
-- access out of the array) gives `none`.
pub mod Table
pub mod Live
pub mod Sweep
pub mod SweepLoop
pub mod Receive
pub mod Find
pub mod Replace
pub mod Add
pub mod Remove
pub mod Autoremove
pub mod Info
pub mod Send
pub mod Deliver
pub mod Broadcast
pub mod Control
use Prim.Native.String.{String}
use pd_iemnet.Prelude.{ℕ, Option, none, List, ◌++◌, ◌==◌, get_elem?, if◌then◌else◌}
use pd_iemnet.Prelude.Int.{ℤ}
use pd_iemnet.Chunk.{FloatList}
use pd_iemnet.Output.{Message}
use pd_iemnet.Os.{Os, Effect, outs}
use pd_iemnet.Sender.{Sender}
use pd_iemnet.Receiver.{Receiver}
use pd_iemnet.TcpServer.{Ptr, null}

-- `t_udpserver_sender`
pub record Client : Type 0 where
  pub host : ℕ
  pub port : ℕ
  pub hostname : String
  pub uniq : ℕ
  pub sender : Option Sender
  pub lastseen : ℕ

abbrev pub Clients : Type 0
Clients = Ptr → Option Client

unfoldable pub store : Clients → Ptr → Option Client → Clients
store h p c a = if a == p then c else h a

-- `t_udpserver`, with the static counter `uniq` of `udpserver_sender_new`. Times are in milliseconds.
pub record Server : Type 0 where
  pub sr : List Ptr
  pub nconnections : ℕ
  pub maxconnections : ℕ
  pub connectsocket : ℤ
  pub port : ℕ
  pub ifaddr : Option String
  pub accept : ℕ
  pub timeout : ℤ
  pub lastchecked : ℕ
  pub defaulttarget : ℤ
  pub receiver : Option Receiver
  pub floatlist : Option FloatList
  pub uniq : ℕ
  pub heap : Clients
  pub log : List Effect

-- What a call finds: the system, the logical time, and where `malloc` puts a new client (NULL if it
-- fails).
pub record Env : Type 0 where
  pub os : Os
  pub now : ℕ
  pub alloc : Ptr

abbrev pub does : Server → List Effect → Server
does x es = record x { log = x.log ++ es }

abbrev pub emits : Server → List Message → Server
emits x ms = does x (outs ms)

-- `x->x_sr[i]`
abbrev pub slot : Server → ℕ → Option Ptr
slot x i = get_elem? x.sr i

-- `*p`
unfoldable pub deref : Server → Ptr → Option Client
deref x p = if p == null then none else x.heap p
