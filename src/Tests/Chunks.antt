-- ===== src/Tests/Chunks.antt =====
-- iemnet_data.c: chunks and float lists at concrete inputs.
use pd_iemnet.Prelude.{
  ℕ, length, true, ◌≡◌, refl, some, List, [], ◌∷◌, map, replicate, arith, length-replicate,
}
use pd_iemnet.Prelude.Int.{pos, negsuc}
use pd_iemnet.Output.{Atom, float, symbol, set_float}
use pd_iemnet.Chunk.{Memory, Chunk, FloatList, atoms}
use pd_iemnet.Chunk.Laws.{IsFloatList}
use pd_iemnet.Chunk.FloatLists.{chunk_roundtrip, relay}

abbrev ample : Memory
ample n = true

abbrev zeros : ℕ → List ℕ
zeros n = replicate n 0

zeros-IsFresh : (n : ℕ) → ◌≡◌ {A = ℕ} (length (zeros n)) n
zeros-IsFresh n = length-replicate n 0

abbrev argv : List Atom
argv = float (pos 104) ∷ symbol "x" ∷ float (negsuc 0) ∷ []

-- A chunk that came from a peer with an address.
abbrev incoming : Chunk
incoming = record { bytes = 1 ∷ 255 ∷ []; size = 2; addr = 0x7f000001; port = 9; family = 10 }

abbrev longer : FloatList
longer = record { argv = 7 ∷ 7 ∷ 7 ∷ []; argc = 3; size = 3 }

longer-IsFloatList : IsFloatList longer
longer-IsFloatList = record { room = refl; used = omega arith }

chunk_roundtrip_example :
    (l : FloatList) × (relay ample zeros (some longer) (map set_float (3 ∷ 255 ∷ [])) ≡ some l)
    × (atoms l ≡ map set_float (3 ∷ 255 ∷ []))
chunk_roundtrip_example =
    chunk_roundtrip ample (λ n. refl) zeros zeros-IsFresh (3 ∷ 255 ∷ []) (some longer) (omega arith)
      (omega arith, (omega arith, tt)) longer-IsFloatList
