-- ===== src/UdpSend/Messages.antt =====
-- udpsend.c: what becomes of a message.
use pd_iemnet.Prelude.{
  ◌+◌, ◌<◌, ◌^◌, ◌≡◌, refl, true, false, some, List, [], ◌∷◌, ◌++◌, length, arith,
}
use pd_iemnet.Prelude.Int.{pos, ltb_ℤ}
use pd_iemnet.Chunk.{Chunk, chunk_create_list, chunk_create_chunk, chunk_create_empty}
use pd_iemnet.Chunk.Laws.{Ample}
use pd_iemnet.Chunk.Loops.{bytes_of}
use pd_iemnet.Output.{Atom}
use pd_iemnet.Os.{Os}
use pd_iemnet.Queue.Fifo.{fill}
use pd_iemnet.Sender.{Sender, sender_send}
use pd_iemnet.Link.Laws.{running-Queued, ended-refused}
use pd_iemnet.UdpSend.{Client, disconnect, send, send_with}

module _ (os : Os) (ample : Ample os.malloc) (x : Client) (s : Sender) (has : x.sender ≡ some s)
    (xs : List Chunk) (waits : s.queue ≡ some xs) where
  -- A message of at least one atom, while the thread of the sender runs and less than 2 GB wait, is
  -- queued behind what waits, and the object stays connected.
  pub send-queue :
      (a : Atom) (argv : List Atom)
      → s.isrunning ≡ true
      → fill xs + length (a ∷ argv) < 2 ^ 31
      → (c : Chunk) × (c.bytes ≡ bytes_of (a ∷ argv))
        × (send os x (a ∷ argv)
            ≡ record x { sender = some (record s { queue = some (xs ++ c ∷ []) }) })
  unfolding send send_with
  send-queue a argv run small =
      let q = running-Queued os.malloc ample s xs waits a argv run small in
      let some_bytes : ltb_ℤ (pos (fill xs + length (a ∷ argv))) (pos 1) ≡ false = ground arith in
      (q.copy, q.bytes, rw (has, q.made) (rw q.sent (rw q.counted (rw some_bytes refl))))

  -- When the thread has ended, the message is lost and the object disconnects.
  pub send-dead :
      (a : Atom) (argv : List Atom)
      → s.isrunning ≡ false
      → send os x (a ∷ argv) ≡ disconnect (record x { sender = some s })
  unfolding send send_with
  send-dead a argv run =
      let (c, e, f) = ended-refused os.malloc ample s xs waits a argv run in rw (has, e) (rw f refl)

-- An empty message disconnects an object whose queue is empty, although its thread runs and nothing
-- has failed: the size of the queue, which is 0, is taken for an error.
pub send_empty-disconnects :
    (os : Os) (x : Client) (s : Sender)
    → x.sender ≡ some s
    → s.queue ≡ some []
    → s.isrunning ≡ true
    → send os x [] ≡ disconnect (record x { sender = some s })
unfolding send send_with sender_send chunk_create_list chunk_create_empty chunk_create_chunk
send_empty-disconnects os x s has waits run = rw (has, waits, run) refl
