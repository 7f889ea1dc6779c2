-- ===== src/Link/Laws.antt =====
-- iemnet_sender.c and iemnet_data.c: what becomes of a message that an object gives to its sender.
use pd_iemnet.Prelude.{
  suc, ◌+◌, ◌^◌, ◌<◌, ◌≡◌, refl, ap, ◌∙◌, true, false, some, List, [], ◌∷◌, ◌++◌, length, arith,
  inl, inr,
}
use pd_iemnet.Prelude.Int.{ℤ, pos, minus_one}
use pd_iemnet.Output.{Atom}
use pd_iemnet.Chunk.{Chunk, Memory, chunk_create_list, af_inet}
use pd_iemnet.Chunk.Laws.{Ample, create_list-bytes}
use pd_iemnet.Chunk.Loops.{bytes_of}
use pd_iemnet.Queue.Fifo.{fill, fill-append, fill_state}
use pd_iemnet.Sender.{Sender, sender_send}
use pd_iemnet.Sender.Laws.{send-queue}

length-bytes_of : (argv : List Atom) → length (bytes_of argv) ≡ length argv
length-bytes_of [] = refl
length-bytes_of (a ∷ argv) = ap suc (length-bytes_of argv)

-- With less than 2 GB in the queue its size is the number of bytes that wait.
fill_state-small : (xs : List Chunk) → fill xs < 2 ^ 31 → fill_state xs ≡ pos (fill xs)
fill_state-small xs h = ground arith

-- A message in the queue of a sender: its bytes, behind what waits.
pub record Queued (malloc : Memory) (s : Sender) (xs : List Chunk) (argv : List Atom) : Type 0 where
  pub chunk : Chunk
  pub copy : Chunk
  pub bytes : copy.bytes ≡ bytes_of argv
  pub made : chunk_create_list malloc argv ≡ some chunk
  pub state : ℤ
  pub sent :
      sender_send malloc s (some chunk) ≡ (state, record s { queue = some (xs ++ copy ∷ []) })
  pub counted : state ≡ pos (fill xs + length argv)

module _ (malloc : Memory) (ample : Ample malloc) (s : Sender) (xs : List Chunk)
    (waits : s.queue ≡ some xs) (a : Atom) (argv : List Atom) where
  pub running-Queued :
      s.isrunning ≡ true → fill xs + length (a ∷ argv) < 2 ^ 31 → Queued malloc s xs (a ∷ argv)
  running-Queued run small = elim (create_list-bytes malloc ample (a ∷ argv)) [
    | inl (e, _) ↦ absurd (cc e)
    | inr (c, e, same, w, _, _) ↦
        let size : fill (xs ++ record c { family = af_inet } ∷ []) ≡ fill xs + length (a ∷ argv) =
          omega (
            arith,
            fill-append xs (record c { family = af_inet } ∷ []),
            w.sized,
            ap length same,
            length-bytes_of (a ∷ argv),
          ) in
        record {
          chunk = c;
          copy = record c { family = af_inet };
          bytes = same;
          made = e;
          state = fill_state (xs ++ record c { family = af_inet } ∷ []);
          sent = send-queue malloc s xs c ample w waits ∙ rw run refl;
          counted =
              fill_state-small (xs ++ record c { family = af_inet } ∷ []) (omega (arith, size))
              ∙ ap pos size;
        }
  ]

  pub ended-refused :
      s.isrunning ≡ false
      → (c : Chunk) × (chunk_create_list malloc (a ∷ argv) ≡ some c)
        × (sender_send malloc s (some c) ≡ (minus_one, s))
  ended-refused run = elim (create_list-bytes malloc ample (a ∷ argv)) [
    | inl (e, _) ↦ absurd (cc e)
    | inr (c, e, _, w, _, _) ↦ (c, e, send-queue malloc s xs c ample w waits ∙ rw run refl)
  ]
