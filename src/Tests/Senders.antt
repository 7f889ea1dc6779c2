-- ===== src/Tests/Senders.antt =====
-- iemnet_sender.c: senders at concrete inputs.
use pd_iemnet.Prelude.{
  ◌≡◌, ◌≢◌, refl, Bool, none, some, List, [], ◌∷◌, arith, true, false, ◌⊎◌, ◌==◌,
}
use pd_iemnet.Prelude.Int.{pos, minus_one, is_neg}
use pd_iemnet.Chunk.{Chunk}
use pd_iemnet.Chunk.Laws.{IsChunk}
use pd_iemnet.Sender.{Round, sendthread}
use pd_iemnet.Sender.Laws.{Outcome, sendthread-Outcome}
use pd_iemnet.Sender.Connect.{Answers, iemnet_connect, blocks, connect-timeout}

abbrev hello : Chunk
hello = record { bytes = 104 ∷ 105 ∷ []; size = 2; addr = 0; port = 0; family = 10 }

hello-IsChunk : IsChunk hello
hello-IsChunk = record {
  sized = refl;
  filled = omega arith;
  small = (omega arith, (omega arith, tt));
}

-- The peer accepts nothing longer than one byte.
abbrev picky : Chunk → Bool
picky c = c.size == 1

abbrev rounds : List Round
rounds = record { keep = true; popped = none } ∷ record { keep = true; popped = some hello } ∷ []

sendthread-Outcome_example : Outcome picky [] rounds (sendthread picky [] rounds)
sendthread-Outcome_example = sendthread-Outcome picky [] rounds

abbrev late : Answers
late = record { connect = minus_one; in_progress = true; select = pos 0; err_set = false }

connect-timeout_example :
    ((iemnet_connect (pos 10) late ≡ (pos 0, (iemnet_connect (pos 10) late).1))
      × ((is_neg late.connect ≡ false)
          ⊎ ((late.in_progress ≡ true)
              × (is_neg late.select ≡ false)
              × (late.select ≢ pos 0)
              × (late.err_set ≡ false)))
      × (blocks true (iemnet_connect (pos 10) late).1 ≡ true))
    ⊎ ((iemnet_connect (pos 10) late ≡ (minus_one, (iemnet_connect (pos 10) late).1))
        × (is_neg late.connect ≡ true)
        × ((late.in_progress ≡ false)
            ⊎ (is_neg late.select ≡ true)
            ⊎ (late.select ≡ pos 0)
            ⊎ (late.err_set ≡ true))
        × (blocks true (iemnet_connect (pos 10) late).1 ≡ false))
connect-timeout_example = connect-timeout (pos 10) late refl
