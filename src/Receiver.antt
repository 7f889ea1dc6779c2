-- ===== src/Receiver.antt =====
-- iemnet_receiver.c: a receiver polls its socket and calls back with a chunk, or with NULL for a
-- disconnection.
pub mod Laws
use pd_iemnet.Prelude.{ℕ, Option, none, some, List, [], ◌∷◌, if◌then◌else◌}
use pd_iemnet.Prelude.Int.{ℤ, pos, ltb_ℤ}
use pd_iemnet.Chunk.{Memory, Chunk, SockAddrIn, chunk_create_dataaddr}
use pd_iemnet.Os.{Effect, add_poll, rm_poll}

pub record Receiver : Type 0 where
  pub sockfd : ℤ

abbrev sizeof_receiver : ℕ
sizeof_receiver = 24

-- What `recvfrom` returns, what it writes into the buffer, and whom it names as the peer.
pub record Received : Type 0 where
  pub result : ℤ
  pub bytes : List ℕ
  pub from : SockAddrIn

-- The chunk for what was received. The data are NULL if there are none; a chunk is made of them for
-- a positive result only.
unfoldable pub received_chunk : Memory → Received → Option Chunk
received_chunk malloc r =
    chunk_create_dataaddr malloc r.result (if ltb_ℤ (pos 0) r.result then r.bytes else [])
      (some r.from)

-- `callback` is the user's function on the user's state.
unfoldable pub pollfun {ℓ} :
    {S : Type ℓ} → Memory → (callback : S → Option Chunk → Option S) → S → Received → Option S
unfolding received_chunk
pollfun malloc callback s r = callback s (received_chunk malloc r)

unfoldable pub receiver_create : Memory → ℤ → Option Receiver × List Effect
receiver_create malloc sock =
    if malloc sizeof_receiver
    then (some (record { sockfd = sock }), add_poll sock ∷ [])
    else (none, [])

unfoldable pub receiver_destroy : Option Receiver → List Effect
receiver_destroy none = []
receiver_destroy (some rec) = rm_poll rec.sockfd ∷ []
