-- ===== src/Output/Laws.antt =====
-- iemnet.c: what the output functions send.
use pd_iemnet.Prelude.{
  get_elem?, take-length, ℕ, ◌+◌, ◌*◌, ◌^◌, ◌≤◌, ◌<◌, ◌≡◌, refl, ap, true, false, some, List, [],
  ◌∷◌, ◌++◌, map, arith, length, take, length-append, length-map,
}
use pd_iemnet.Prelude.Int.{pos, ntohs}
use mathlib.Core.List.{append-nil}
use pd_iemnet.Output.{
  Atom, float, set_float, Outlet, Message, outlet_anything, outlet_list, quads, iemnet_addrout,
  iemnet_streamout, SockAddr, inet, inet6, unix, unknown, sockaddr_atoms, iemnet_sockaddr2list,
  stream_loop,
}

-- The payload of all messages, in order.
abbrev pub payload : List Message → List Atom
payload [] = []
payload (m ∷ ms) = m.args ++ payload ms

stream_loop-payload :
    (o : Outlet) (argv : List Atom)
    → (payload (stream_loop o argv) ≡ argv) × (length (stream_loop o argv) ≡ length argv)
unfolding stream_loop
stream_loop-payload o [] = (refl, refl)
stream_loop-payload o (a ∷ argv) =
    let (p, n) = stream_loop-payload o argv in (ap (λ t. a ∷ t) p, omega (arith, n))

-- Whether it serializes or not, `iemnet__streamout` sends exactly the given atoms in their order:
-- one message for each atom when it serializes, and a single message when it does not.
pub streamout-payload :
    (o : Outlet) (argv : List Atom)
    → (payload (iemnet_streamout (some o) argv true) ≡ argv)
      × (length (iemnet_streamout (some o) argv true) ≡ length argv)
      × (payload (iemnet_streamout (some o) argv false) ≡ argv)
      × (length (iemnet_streamout (some o) argv false) ≡ 1)
unfolding iemnet_streamout
streamout-payload o argv = let (p, n) = stream_loop-payload o argv in (p, n, append-nil argv, refl)

-- The address that `quads` stands for.
abbrev pub from_quads : List Atom → ℕ
from_quads (float (pos a) ∷ float (pos b) ∷ float (pos c) ∷ float (pos d) ∷ rest) =
    a * 2 ^ 24 + b * 2 ^ 16 + c * 2 ^ 8 + d
from_quads _ = 0

quads-from_quads : (a : ℕ) (rest : List Atom) → a < 2 ^ 32 → from_quads (quads a ++ rest) ≡ a
quads-from_quads a rest h = omega arith

-- `iemnet__addrout` sends the same five atoms to both outlets, and the first four of them are the
-- bytes of the address, most significant first; the fifth is the port.
pub addrout-from_quads :
    (o p : Outlet) (address port : ℕ)
    → address < 2 ^ 32
    → (list : List Atom) × (iemnet_addrout (some o) (some p) address port
        ≡ outlet_anything o "address" list ∷ outlet_list p list ∷ [])
      × (length list ≡ 5)
      × (from_quads list ≡ address)
      × (get_elem? list 4 ≡ some (set_float port))
unfolding iemnet_addrout
addrout-from_quads o p address port h = (
  quads address ++ set_float port ∷ [],
  refl,
  refl,
  quads-from_quads address (set_float port ∷ []) h,
  refl,
)

-- What the kernel puts into a socket address: sixteen bytes for IPv6.
abbrev pub IsSockAddr : SockAddr → Type 0
IsSockAddr (inet6 s6_addr sin6_port) = length s6_addr ≡ 16
IsSockAddr _ = Unit

take-16 : (xs : List ℕ) → length xs ≡ 16 → take 16 xs ≡ xs
take-16 xs h = rw (← h) (take-length xs)

-- The number that `iemnet__sockaddr2list` returns is the number of atoms that it writes, and these
-- fit the eighteen places of its buffer.
pub sockaddr2list-length :
    (a : SockAddr)
    → IsSockAddr a
    → (iemnet_sockaddr2list a ≡ length (sockaddr_atoms a)) × (iemnet_sockaddr2list a ≤ 18)
unfolding iemnet_sockaddr2list sockaddr_atoms
sockaddr2list-length (inet s_addr sin_port) h = (refl, omega arith)
sockaddr2list-length (inet6 s6_addr sin6_port) h = (
  rw (take-16 s6_addr h) (
      omega (
        arith,
        h,
        length-map s6_addr set_float,
        length-append (map set_float s6_addr) (set_float (ntohs sin6_port) ∷ []),
      )),
  omega arith,
)
sockaddr2list-length (unix sun_path garbage) h = (refl, omega arith)
sockaddr2list-length (unknown ss_family) h = (refl, omega arith)
