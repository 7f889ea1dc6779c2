-- ===== src/Chunk.antt =====
-- iemnet_data.c: chunks of data, and lists of floats. A pointer that may be NULL is an `Option`.
-- `Memory` is the allocator: whether `malloc` of so many bytes succeeds.
pub mod Loops
pub mod Laws
pub mod FloatLists
use pd_iemnet.Prelude.{
  ℕ, suc, ◌+◌, ◌*◌, Bool, Option, none, some, List, [], ◌∷◌, ◌++◌, map, length, take, drop, set,
  replicate, leb, ltb, if◌then◌else◌, ◌>>=◌,
}
use pd_iemnet.Prelude.Int.{ℤ, pos, negsuc, to_byte, ntohl, ntohs}
use pd_iemnet.Output.{Atom, float, symbol}

abbrev pub Memory : Type 0
Memory = ℕ → Bool

-- `sizeof` of the structs on a 64-bit host; only the allocator sees these numbers.
abbrev sizeof_chunk : ℕ
sizeof_chunk = 32

abbrev sizeof_floatlist : ℕ
sizeof_floatlist = 24

abbrev sizeof_atom : ℕ
sizeof_atom = 16

abbrev pub af_inet : ℕ
af_inet = 2

pub record Chunk : Type 0 where
  pub bytes : List ℕ
  pub size : ℕ
  pub addr : ℕ
  pub port : ℕ
  pub family : ℕ

-- `struct sockaddr_in`, its numbers in network byte order
pub record SockAddrIn : Type 0 where
  pub s_addr : ℕ
  pub sin_port : ℕ
  pub sin_family : ℕ

-- `memcpy(dst, src, n)` to the start of `dst`; what `src` is too short for stays as it was
abbrev pub memcpy : List ℕ → List ℕ → ℕ → List ℕ
memcpy dst src n = take n src ++ drop (length (take n src)) dst

-- `atom_getint`: 0 for an atom that is no float
abbrev pub atom_getint : Atom → ℤ
atom_getint (float z) = z
atom_getint (symbol s) = pos 0

-- `for(i = 0; i<argc; i++) { result->data[i] = atom_getint(argv); argv++; }`
unfoldable pub fill_loop : ℕ → List Atom → List ℕ → List ℕ
fill_loop i [] bytes = bytes
fill_loop i (a ∷ argv) bytes = fill_loop (i + 1) argv (set bytes i (to_byte (atom_getint a)))

module _ (malloc : Memory) where
  chunk_of_size : ℕ → Option Chunk
  chunk_of_size n =
      if malloc sizeof_chunk
      then (if malloc n
          then some
              (record { bytes = replicate n 0; size = n; addr = 0; port = 0; family = af_inet })
          else none)
      else none

  unfoldable pub chunk_create_empty : ℤ → Option Chunk
  unfolding chunk_of_size
  chunk_create_empty (negsuc n) = none
  chunk_create_empty (pos size) = if ltb size 1 then none else chunk_of_size size

  unfoldable pub chunk_create_data : ℤ → List ℕ → Option Chunk
  unfolding chunk_create_empty
  chunk_create_data size bytes = do
    result ← chunk_create_empty size
    some (record result { bytes = memcpy result.bytes bytes result.size })

  unfoldable pub chunk_create_dataaddr : ℤ → List ℕ → Option SockAddrIn → Option Chunk
  unfolding chunk_create_data
  chunk_create_dataaddr size bytes none = chunk_create_data size bytes
  chunk_create_dataaddr size bytes (some a) = do
    result ← chunk_create_data size bytes
    some (record result { addr = ntohl a.s_addr; port = ntohs a.sin_port; family = a.sin_family })

  unfoldable pub chunk_create_list : List Atom → Option Chunk
  unfolding chunk_create_empty fill_loop
  chunk_create_list argv = do
    result ← chunk_create_empty (pos (length argv))
    some (record result { bytes = fill_loop 0 argv result.bytes })

  unfoldable pub chunk_create_chunk : Option Chunk → Option Chunk
  unfolding chunk_create_data
  chunk_create_chunk none = none
  chunk_create_chunk (some c) = do
    result ← chunk_create_data (pos c.size) c.bytes
    some (record result { addr = c.addr; port = c.port })

-- `argv` keeps the number of each atom: all of them are floats, and stay so.
pub record FloatList : Type 0 where
  pub argv : List ℕ
  pub argc : ℕ
  pub size : ℕ

-- `for(i = 0; i<cl->size; i++) SETFLOAT(cl->argv+i, 0.f)`, with the rounds that are left
unfoldable pub init_loop : ℕ → ℕ → List ℕ → List ℕ
init_loop ℕ.zero i argv = argv
init_loop (suc n) i argv = init_loop n (i + 1) (set argv i 0)

unfoldable pub floatlist_init : FloatList → FloatList
unfolding init_loop
floatlist_init cl = record cl { argv = init_loop cl.size 0 cl.argv }

-- The atoms of the list that are in use, as an outlet sends them.
abbrev pub atoms : FloatList → List Atom
atoms cl = map (λ n. float (pos n)) (take cl.argc cl.argv)

-- `for(i = 0; i<c->size; i++) dest->argv[i].a_w.w_float = c->data[i]`, over the bytes that are left
unfoldable pub copy_loop : ℕ → List ℕ → List ℕ → List ℕ
copy_loop i [] argv = argv
copy_loop i (b ∷ bytes) argv = copy_loop (i + 1) bytes (set argv i b)

module _ (malloc : Memory) where
  -- `fresh` is what the new memory holds.
  unfoldable pub floatlist_create : (fresh : ℕ → List ℕ) → ℕ → Option FloatList
  unfolding floatlist_init
  floatlist_create fresh size =
      if malloc sizeof_floatlist
      then (if malloc (size * sizeof_atom)
          then some (floatlist_init (record { argv = fresh size; argc = size; size = size }))
          else none)
      else none

  unfoldable pub floatlist_resize : (fresh : ℕ → List ℕ) → Option FloatList → ℕ → Option FloatList
  unfolding floatlist_create floatlist_init
  floatlist_resize fresh none size = floatlist_create fresh size
  floatlist_resize fresh (some cl) size =
      if leb size cl.size
      then some (record cl { argc = size })
      else if malloc (size * sizeof_atom)
      then some (floatlist_init (record { argv = fresh size; argc = size; size = size }))
      else none

  unfoldable pub chunk2list :
      (fresh : ℕ → List ℕ) → Option Chunk → Option FloatList → Option FloatList
  unfolding floatlist_resize copy_loop
  chunk2list fresh none dest = none
  chunk2list fresh (some c) dest = do
    list ← floatlist_resize fresh dest c.size
    some (record list { argv = copy_loop 0 (take c.size c.bytes) list.argv })
