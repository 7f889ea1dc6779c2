-- ===== src/TcpServer.antt =====
-- tcpserver.c: the state of a server. Its connections are objects behind pointers: `heap` holds
-- them, and `sr` is the array `x_sr` of pointers to them, as long as it is allocated. `log` is what
-- the server has done so far. A command that faults (NULL dereference, access out of an array, use
-- after free) gives `none`.
pub mod Info
pub mod Table
pub mod Send
pub mod Control
pub mod Live
pub mod Reports
pub mod Gap
pub mod Disconnect
pub mod DisconnectAll
pub mod Lookup
pub mod Insert
pub mod Accept
pub mod Settings
pub mod Numbers
pub mod Deliver
pub mod Broadcast
pub mod Butclient
pub mod Receive
pub mod Poll
pub mod Target
pub mod Dead
use Prim.Native.String.{String}
use pd_iemnet.Prelude.{
  ℕ, Bool, Option, none, some, List, ◌++◌, ◌==◌, ltb, length, get_elem?, set, if◌then◌else◌,
}
use pd_iemnet.Prelude.Int.{ℤ}
use pd_iemnet.Chunk.{FloatList}
use pd_iemnet.Output.{Message}
use pd_iemnet.Os.{Effect, outs}
use pd_iemnet.Sender.{Sender}

abbrev pub Ptr : Type 0
Ptr = ℕ

abbrev pub null : Ptr
null = 0

-- `t_tcpserver_event`
pub data Event : Type 0 where
  illegal server_info client_info disconnect connect receive send : Event

-- `t_tcpserver_socketreceiver`; `owned` is whether `sr_owner` is set, `receiver` whether
-- `sr_receiver` is.
pub record Conn : Type 0 where
  pub owned : Bool
  pub host : ℕ
  pub port : ℕ
  pub fd : ℤ
  pub client : ℕ
  pub sender : Option Sender
  pub receiver : Bool
  pub hostname : String

abbrev pub Conns : Type 0
Conns = Ptr → Option Conn

unfoldable pub update : Conns → Ptr → Option Conn → Conns
update h p c a = if a == p then c else h a

pub record Server : Type 0 where
  pub serialize : Bool
  pub accepting : Bool
  pub sr : List Ptr
  pub nconnections : ℕ
  pub maxconnections : ℕ
  pub connectsocket : ℤ
  pub port : ℤ
  pub defaulttarget : ℤ
  pub floatlist : Option FloatList
  pub heap : Conns
  pub log : List Effect

abbrev pub does : Server → List Effect → Server
does x es = record x { log = x.log ++ es }

abbrev pub emits : Server → List Message → Server
emits x ms = does x (outs ms)

-- `x->x_sr[i]`
abbrev pub slot : Server → ℕ → Option Ptr
slot x i = get_elem? x.sr i

-- `*p`
unfoldable pub deref : Server → Ptr → Option Conn
deref x p = if p == null then none else x.heap p

-- `x->x_sr[i] = p`
unfoldable pub set_slot : List Ptr → ℕ → Ptr → Option (List Ptr)
set_slot sr i p = if ltb i (length sr) then some (set sr i p) else none
