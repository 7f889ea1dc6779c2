-- ===== src/TcpClient/Messages.antt =====
-- tcpclient.c: what a client sends and receives.
use pd_iemnet.Prelude.{
  ℕ, suc, ◌+◌, ◌<◌, ◌^◌, ◌≡◌, refl, ap, true, false, some, List, [], ◌∷◌, ◌++◌, length, arith, inl,
  inr, map,
}
use pd_iemnet.Prelude.Int.{ℤ, pos, minus_one, to_ushort}
use pd_iemnet.Output.{
  Message, msgout, addrout, statusout, set_float, float, Atom, iemnet_addrout, iemnet_streamout,
  outlet_anything,
}
use pd_iemnet.Chunk.{Chunk, atoms}
use pd_iemnet.Chunk.Laws.{IsDest, IsFresh, Ample}
use pd_iemnet.Chunk.FloatLists.{IsBytes, chunk2list-atoms}
use pd_iemnet.Chunk.Loops.{bytes_of}
use pd_iemnet.Os.{Os, outs}
use pd_iemnet.Sender.{Sender}
use pd_iemnet.Queue.Fifo.{fill}
use pd_iemnet.Link.Laws.{running-Queued, ended-refused}
use pd_iemnet.Receiver.{Received, pollfun}
use pd_iemnet.Receiver.Laws.{received_chunk-bytes, of_peer, of_peer-IsChunk}
use pd_iemnet.TcpClient.{Client, emits, disconnect, receive_callback, send, send_chunk}

-- Bytes that are read on the socket are reported with the address of the server and then output, in
-- order and nothing else, if there is memory for them.
pub poll-bytes :
    (os : Os) (x : Client) (r : Received) (n : ℕ)
    → Ample os.malloc
    → IsFresh os.fresh
    → IsDest x.floatlist
    → r.result ≡ pos (suc n)
    → length r.bytes ≡ suc n
    → IsBytes r.bytes
    → (y : Client) × (pollfun os.malloc (receive_callback os) x r ≡ some y)
      × IsDest y.floatlist
      × (y.log
          ≡ (x.log
              ++ outs (iemnet_addrout (some statusout) (some addrout) x.addr (to_ushort x.port)))
            ++ outs (iemnet_streamout (some msgout) (map set_float r.bytes) x.serialize))
unfolding pollfun receive_callback
poll-bytes os x r n ample ok d result len small =
    let told = emits x (iemnet_addrout (some statusout) (some addrout) x.addr (to_ushort x.port)) in
    elim (chunk2list-atoms os.malloc os.fresh ok x.floatlist (of_peer r (suc n)) d
      (of_peer-IsChunk r n len small)) [
        | inl (_, m) ↦ absurd (ground (arith, ample m.0, m.1))
        | inr (l, f, g, a) ↦ (
          emits (record told { floatlist = some l })
              (iemnet_streamout (some msgout) (atoms l) x.serialize),
          rw (received_chunk-bytes os.malloc r n ample result len) (rw f refl),
          g,
          ap (λ t. told.log ++ outs (iemnet_streamout (some msgout) t x.serialize)) a,
        )
      ]

-- What a message reports.
abbrev buffer_size : ℤ → List Message
buffer_size size = outlet_anything statusout "sendbuffersize" (float size ∷ []) ∷ []

module _ (os : Os) (ample : Ample os.malloc) (x : Client) (s : Sender) (has : x.sender ≡ some s)
    (xs : List Chunk) (waits : s.queue ≡ some xs) (a : Atom) (argv : List Atom) where
  -- A message of at least one atom, while the thread of the sender runs and less than 2 GB wait: its
  -- bytes are queued behind what waits, and the number of all bytes that wait is reported.
  pub send-queue :
      s.isrunning ≡ true
      → fill xs + length (a ∷ argv) < 2 ^ 31
      → (c : Chunk) × (c.bytes ≡ bytes_of (a ∷ argv))
        × (send os x (a ∷ argv)
            ≡ emits
                (record x { sender = some (record s { queue = some (xs ++ c ∷ []) }) })
                (buffer_size (pos (fill xs + length (a ∷ argv)))))
  unfolding send send_chunk
  send-queue run small =
      let q = running-Queued os.malloc ample s xs waits a argv run small in
      (q.copy, q.bytes, rw (has, q.made) (rw (q.sent) (rw (q.counted) refl)))

  -- When the thread has ended, a message is lost: the size is reported as -1 and the client
  -- disconnects.
  pub send-dead :
      s.isrunning ≡ false → send os x (a ∷ argv) ≡ disconnect (emits x (buffer_size minus_one))
  unfolding send send_chunk
  send-dead run =
      let (c, e, f) = ended-refused os.malloc ample s xs waits a argv run in rw (has, e) (rw f refl)
