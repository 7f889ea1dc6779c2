-- ===== src/Receiver/Laws.antt =====
-- iemnet_receiver.c: the chunk that a receiver hands on.
use pd_iemnet.Prelude.{
  [], false, ltb, ℕ, suc, ◌≡◌, refl, none, some, List, length, arith, true, if◌then◌else◌,
}
use pd_iemnet.Prelude.Int.{ℤ, pos, negsuc, ltb_ℤ, ntohl, ntohs}
use pd_iemnet.Chunk.{Memory, Chunk, chunk_create_dataaddr, chunk_create_data, chunk_create_empty}
use pd_iemnet.Chunk.Laws.{IsChunk, Ample, create_data-some}
use pd_iemnet.Chunk.FloatLists.{IsBytes}
use pd_iemnet.Receiver.{Received, received_chunk}

-- The chunk of received bytes, with the peer's address in host byte order.
abbrev pub of_peer : Received → ℕ → Chunk
of_peer r n = record {
  bytes = r.bytes;
  size = n;
  addr = ntohl r.from.s_addr;
  port = ntohs r.from.sin_port;
  family = r.from.sin_family;
}

pub received_chunk-bytes :
    (malloc : Memory) (r : Received) (n : ℕ)
    → Ample malloc
    → r.result ≡ pos (suc n)
    → length r.bytes ≡ suc n
    → received_chunk malloc r ≡ some (of_peer r (suc n))
unfolding received_chunk chunk_create_dataaddr
received_chunk-bytes malloc r n a e l =
    let some_data : ltb_ℤ (pos 0) r.result ≡ true = rw e (ground arith) in
    rw (some_data, e) (rw (create_data-some malloc a (suc n) r.bytes (omega arith) l) refl)

pub of_peer-IsChunk :
    (r : Received) (n : ℕ) → length r.bytes ≡ suc n → IsBytes r.bytes → IsChunk (of_peer r (suc n))
of_peer-IsChunk r n l b = record { sized = l; filled = omega arith; small = b }

create_data-none :
    (malloc : Memory) (size : ℤ) (bytes : List ℕ)
    → ltb_ℤ (pos 0) size ≡ false
    → chunk_create_data malloc size bytes ≡ none
unfolding chunk_create_data chunk_create_empty
create_data-none malloc (negsuc n) bytes e = refl
create_data-none malloc (pos n) bytes e = let empty : ltb n 1 ≡ true = ground arith in rw empty refl

-- A result of 0 or an error is handed on as NULL.
pub received_chunk-none :
    (malloc : Memory) (r : Received)
    → ltb_ℤ (pos 0) r.result ≡ false
    → received_chunk malloc r ≡ none
unfolding received_chunk chunk_create_dataaddr
received_chunk-none malloc r e =
    rw (create_data-none malloc r.result (if ltb_ℤ (pos 0) r.result then r.bytes else []) e) refl
