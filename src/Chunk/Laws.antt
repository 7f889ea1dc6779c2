-- ===== src/Chunk/Laws.antt =====
-- iemnet_data.c: what chunks and float lists hold.
use pd_iemnet.Prelude.{
  ℕ, ◌≤◌, ◌<◌, ◌≡◌, refl, true, false, Option, none, some, List, [], ◌∷◌, length, replicate, arith,
  All, length-replicate, length-map, Bool-cases, ◌⊎◌, inl, inr,
}
use pd_iemnet.Prelude.Int.{ltb_ℤ, ℤ, pos, negsuc, to_byte}
use pd_iemnet.Output.{Atom, float, symbol}
use pd_iemnet.Chunk.{
  Memory, Chunk, af_inet, atom_getint, chunk_create_empty, chunk_create_data, chunk_create_list,
  chunk_create_chunk, FloatList, chunk_of_size,
}
use pd_iemnet.Chunk.Loops.{bytes_of, fill_loop-all, memcpy-all}

-- What the functions that make chunks guarantee: the size counts the bytes and is not 0.
pub record IsChunk (c : Chunk) : Type 0 where
  pub sized : length c.bytes ≡ c.size
  pub filled : 0 < c.size
  pub small : All (λ b. b < 256) c.bytes

pub record IsFloatList (l : FloatList) : Type 0 where
  pub room : length l.argv ≡ l.size
  pub used : l.argc ≤ l.size

abbrev pub IsDest : Option FloatList → Type 0
IsDest none = Unit
IsDest (some l) = IsFloatList l

-- An allocator that never fails.
abbrev pub Ample : Memory → Type 0
Ample malloc = (n : ℕ) → malloc n ≡ true

-- What `malloc` hands out is as long as asked for.
abbrev pub IsFresh : (ℕ → List ℕ) → Type 0
IsFresh fresh = (n : ℕ) → length (fresh n) ≡ n

pub bytes_of-small : (argv : List Atom) → All (λ b. b < 256) (bytes_of argv)
bytes_of-small [] = tt
bytes_of-small (float (pos n) ∷ argv) = (omega arith, bytes_of-small argv)
bytes_of-small (float (negsuc n) ∷ argv) = (omega arith, bytes_of-small argv)
bytes_of-small (symbol s ∷ argv) = (omega arith, bytes_of-small argv)

create_list-nil : (malloc : Memory) → chunk_create_list malloc [] ≡ none
unfolding chunk_create_list chunk_create_empty
create_list-nil malloc = refl

module _ (malloc : Memory) (ample : Ample malloc) where
  create_empty-some :
      (n : ℕ)
      → 0 < n
      → chunk_create_empty malloc (pos n)
        ≡ some (record { bytes = replicate n 0; size = n; addr = 0; port = 0; family = af_inet })
  unfolding chunk_create_empty chunk_of_size
  create_empty-some n h = ground (arith, ample n, ample 32)

  pub create_data-some :
      (n : ℕ) (bytes : List ℕ)
      → 0 < n
      → length bytes ≡ n
      → chunk_create_data malloc (pos n) bytes
        ≡ some (record { bytes = bytes; size = n; addr = 0; port = 0; family = af_inet })
  unfolding chunk_create_data
  create_data-some n bytes h l =
      rw (create_empty-some n h)
        (rw (memcpy-all (replicate n 0) bytes n l (length-replicate {A = ℕ} n 0)))

  pub create_list-some :
      (argv : List Atom)
      → 0 < length argv
      → chunk_create_list malloc argv
        ≡ some (record {
          bytes = bytes_of argv;
          size = length argv;
          addr = 0;
          port = 0;
          family = af_inet;
        })
  unfolding chunk_create_list
  create_list-some argv h = rw (create_empty-some (length argv) h) (
      rw
        (fill_loop-all argv (replicate (length argv) 0) (length-replicate {A = ℕ} (length argv) 0)))

  -- With memory at hand a list of atoms that is not empty becomes a chunk of as many bytes: each
  -- atom's number modulo 256, and 0 for a symbol. Of an empty list no chunk is made.
  pub create_list-bytes :
      (argv : List Atom)
      → ((argv ≡ []) × (chunk_create_list malloc argv ≡ none))
        ⊎ ((c : Chunk) × (chunk_create_list malloc argv ≡ some c)
            × (c.bytes ≡ bytes_of argv)
            × IsChunk c
            × (c.port ≡ 0)
            × (c.family ≡ af_inet))
  create_list-bytes [] = inl (refl, create_list-nil malloc)
  create_list-bytes (a ∷ argv) = inr (
    _,
    create_list-some (a ∷ argv) (omega arith),
    refl,
    record {
      sized = length-map (a ∷ argv) (λ x. to_byte (atom_getint x));
      filled = omega arith;
      small = bytes_of-small (a ∷ argv);
    },
    refl,
    refl,
  )

  -- A copy has the bytes, the size, the address and the port of its source; its family is AF_INET,
  -- whatever the source's was.
  pub create_chunk-copy :
      (c : Chunk)
      → IsChunk c
      → chunk_create_chunk malloc (some c) ≡ some (record c { family = af_inet })
  unfolding chunk_create_chunk
  create_chunk-copy c v = rw (create_data-some c.size c.bytes v.filled v.sized)

-- Without memory, or for a size below 1, no chunk is made; a size of at least 1 fails only for want
-- of memory.
pub create_empty-none :
    (malloc : Memory) (size : ℤ)
    → chunk_create_empty malloc size ≡ none
    → (ltb_ℤ size (pos 1) ≡ true) ⊎ ((n : ℕ) × (malloc n ≡ false))
unfolding chunk_create_empty chunk_of_size
create_empty-none malloc (negsuc n) h = inl (ground arith)
create_empty-none malloc (pos n) h = elim (Bool-cases (malloc 32)) [
  | inl a ↦ elim (Bool-cases (malloc n)) [ inl b ↦ inl (ground arith) | inr b ↦ inr (n, b) ]
  | inr a ↦ inr (32, a)
]
