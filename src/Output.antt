-- ===== src/Output.antt =====
-- iemnet.c: atoms, outlets, and the functions that send uniform messages to them. What an object
-- sends is a list of messages; a NULL outlet is `none`. A `t_float` here always carries an integer.
pub mod Laws
pub mod Reports
use pd_iemnet.Prelude.{
  ℕ, ◌/◌, ◌%◌, ◌^◌, Bool, Option, none, some, List, [], ◌∷◌, ◌++◌, map, take, ◌==◌, if◌then◌else◌,
}
use pd_iemnet.Prelude.Int.{ℤ, pos, ntohl, ntohs}
use Prim.Native.String.{String}

pub data Atom : Type 0 where
  float : ℤ → Atom
  symbol : String → Atom

-- `SETFLOAT` of a number that is not negative
abbrev pub set_float : ℕ → Atom
set_float n = float (pos n)

pub data Outlet : Type 0 where
  msgout connectout sockout addrout statusout : Outlet

pub record Message : Type 0 where
  pub outlet : Outlet
  pub selector : String
  pub args : List Atom

abbrev pub outlet_anything : Outlet → String → List Atom → Message
outlet_anything o s a = record { outlet = o; selector = s; args = a }

abbrev pub outlet_list : Outlet → List Atom → Message
outlet_list o a = outlet_anything o "list" a

abbrev pub outlet_float : Outlet → ℤ → Message
outlet_float o f = outlet_anything o "float" (float f ∷ [])

-- `if(outlet) …`
abbrev pub if_outlet : Option Outlet → (Outlet → Message) → List Message
if_outlet none f = []
if_outlet (some o) f = f o ∷ []

-- The four bytes of an IPv4 address, `(address & 0xFF000000)>>24` and so on.
abbrev pub quads : ℕ → List Atom
quads a =
    set_float (a / 2 ^ 24 % 256)
    ∷ set_float (a / 2 ^ 16 % 256)
    ∷ set_float (a / 2 ^ 8 % 256)
    ∷ set_float (a % 256)
    ∷ []

unfoldable pub iemnet_addrout : Option Outlet → Option Outlet → ℕ → ℕ → List Message
iemnet_addrout status_outlet address_outlet address port =
    let addr = quads address ++ set_float port ∷ [] in
    if_outlet status_outlet (λ o. outlet_anything o "address" addr)
    ++ if_outlet address_outlet (λ o. outlet_list o addr)

unfoldable pub iemnet_numconnout : Option Outlet → Option Outlet → ℤ → List Message
iemnet_numconnout status_outlet numcon_outlet numconnections =
    if_outlet status_outlet (λ o. outlet_anything o "connections" (float numconnections ∷ []))
    ++ if_outlet numcon_outlet (λ o. outlet_float o numconnections)

unfoldable pub iemnet_socketout : Option Outlet → Option Outlet → ℤ → List Message
iemnet_socketout status_outlet socket_outlet socketfd =
    if_outlet status_outlet (λ o. outlet_anything o "socket" (float socketfd ∷ []))
    ++ if_outlet socket_outlet (λ o. outlet_float o socketfd)

-- `while(argc-->0) { outlet_list(outlet, …, 1, argv); argv++; }`
stream_loop : Outlet → List Atom → List Message
stream_loop o [] = []
stream_loop o (a ∷ argv) = outlet_list o (a ∷ []) ∷ stream_loop o argv

unfoldable pub iemnet_streamout : Option Outlet → List Atom → Bool → List Message
unfolding stream_loop
iemnet_streamout none argv stream = []
iemnet_streamout (some o) argv stream =
    if stream then stream_loop o argv else (outlet_list o argv ∷ [])

-- `struct sockaddr_storage`, its numbers in network byte order. `garbage` is the text that the
-- code reads at `(struct sockaddr_un*)&address`, which is the pointer's own storage.
pub data SockAddr : Type 0 where
  inet : (s_addr sin_port : ℕ) → SockAddr
  inet6 : (s6_addr : List ℕ) (sin6_port : ℕ) → SockAddr
  unix : (sun_path garbage : String) → SockAddr
  unknown : (ss_family : ℕ) → SockAddr

-- The atoms that are written to `alist`; the result of the C function is their number.
unfoldable pub sockaddr_atoms : SockAddr → List Atom
sockaddr_atoms (inet s_addr sin_port) =
    symbol "IPv4" ∷ (quads (ntohl s_addr) ++ set_float (ntohs sin_port) ∷ [])
sockaddr_atoms (inet6 s6_addr sin6_port) =
    symbol "IPv6" ∷ (map set_float (take 16 s6_addr) ++ set_float (ntohs sin6_port) ∷ [])
sockaddr_atoms (unix sun_path garbage) = symbol "unix" ∷ symbol garbage ∷ []
sockaddr_atoms (unknown ss_family) = []

unfoldable pub iemnet_sockaddr2list : SockAddr → ℕ
iemnet_sockaddr2list (inet s_addr sin_port) = 6
iemnet_sockaddr2list (inet6 s6_addr sin6_port) = 18
iemnet_sockaddr2list (unix sun_path garbage) = 2
iemnet_sockaddr2list (unknown ss_family) = 0

-- `none` is a failing `getsockname`; nothing is sent for an address of an unknown family.
unfoldable pub iemnet_socket2addressout : Option SockAddr → Outlet → String → List Message
unfolding sockaddr_atoms iemnet_sockaddr2list
iemnet_socket2addressout none o s = []
iemnet_socket2addressout (some address) o s =
    let alen = iemnet_sockaddr2list address in
    if alen == 0 then [] else (outlet_anything o s (take alen (sockaddr_atoms address)) ∷ [])
