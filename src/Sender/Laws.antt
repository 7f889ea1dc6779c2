-- ===== src/Sender/Laws.antt =====
-- iemnet_sender.c: what a sender promises.
use mathlib.Core.List.{append_assoc, append-nil}
use mathlib.Core.Path.{subst}
use pd_iemnet.Prelude.{
  ◌≡◌, refl, ap, ◌∙◌, sym, Bool, true, false, Option, none, some, List, [], ◌∷◌, ◌++◌, arith,
  Bool-cases, ◌⊎◌, inl, inr, if◌then◌else◌, All,
}
use pd_iemnet.Prelude.Int.{minus_one}
use pd_iemnet.Chunk.{Chunk, Memory, af_inet}
use pd_iemnet.Chunk.Laws.{IsChunk, Ample, create_chunk-copy}
use pd_iemnet.Queue.Fifo.{fill_state}
use pd_iemnet.Sender.{Sender, sender_send, Round, Thread, try_send, handed, sendthread}

-- With memory at hand, a sender whose thread runs takes a copy of the chunk behind those that wait,
-- and returns the bytes that wait now; a sender whose thread has ended returns -1 and stays as it is.
pub send-queue :
    (malloc : Memory) (s : Sender) (xs : List Chunk) (c : Chunk)
    → Ample malloc
    → IsChunk c
    → s.queue ≡ some xs
    → sender_send malloc s (some c) ≡ (
        if s.isrunning
        then (
          fill_state (xs ++ record c { family = af_inet } ∷ []),
          record s { queue = some (xs ++ record c { family = af_inet } ∷ []) },
        )
        else (minus_one, s))
unfolding sender_send
send-queue malloc s xs c a v e = ground (arith, create_chunk-copy malloc a c v)

-- The chunks that the rounds popped.
abbrev pub pops : List Round → List Chunk
pops [] = []
pops (r ∷ rs) = handed [] r.popped ++ pops rs

-- Rounds that let the loop go on: `keepsending` is set, and a popped chunk is accepted.
abbrev pub Clean : (Chunk → Bool) → List Round → Type 0
Clean dosend = All (λ r. (r.keep ≡ true) × (try_send dosend r.popped ≡ true))

handed-append :
    (sent : List Chunk) (o : Option Chunk) (ys : List Chunk)
    → handed sent o ++ ys ≡ sent ++ (handed [] o ++ ys)
handed-append sent none ys = refl
handed-append sent (some c) ys = append_assoc sent (c ∷ []) ys

-- How a thread ends in the round `bad`, having been given `sent` before it.
abbrev pub Ends : (Chunk → Bool) → List Chunk → Round → Thread → Type 0
Ends dosend sent bad t =
    (t.running ≡ false)
    × (((bad.keep ≡ false) × (t.sent ≡ sent))
        ⊎ ((bad.keep ≡ true)
            × (try_send dosend bad.popped ≡ false)
            × (t.sent ≡ handed sent bad.popped)))

abbrev pub Outcome : (Chunk → Bool) → List Chunk → List Round → Thread → Type 0
Outcome dosend sent rs t =
    (Clean dosend rs × (t.running ≡ true) × (t.sent ≡ sent ++ pops rs))
    ⊎ ((good : List Round) × (bad : Round) × (rest : List Round) × (rs ≡ good ++ bad ∷ rest)
        × Clean dosend good
        × Ends dosend (sent ++ pops good) bad t)

later :
    (dosend : Chunk → Bool) (sent : List Chunk) (r : Round) (rs : List Round) (t : Thread)
    → r.keep ≡ true
    → try_send dosend r.popped ≡ true
    → Outcome dosend (handed sent r.popped) rs t
    → Outcome dosend sent (r ∷ rs) t
later dosend sent r rs t k a (inl (c, run, e)) =
    inl (((k, a), c), run, e ∙ handed-append sent r.popped (pops rs))
later dosend sent r rs t k a (inr (good, bad, rest, e, c, ends)) = inr (
  r ∷ good,
  bad,
  rest,
  ap (λ l. r ∷ l) e,
  ((k, a), c),
  rw (handed-append sent r.popped (pops good)) at ends,
)

sendthread_goes :
    (dosend : Chunk → Bool) (sent : List Chunk) (r : Round) (rs : List Round)
    → r.keep ≡ true
    → try_send dosend r.popped ≡ true
    → sendthread dosend sent (r ∷ rs) ≡ sendthread dosend (handed sent r.popped) rs
unfolding sendthread
sendthread_goes dosend sent r rs k a = ground arith

sendthread-Ends :
    (dosend : Chunk → Bool) (sent : List Chunk) (r : Round) (rs : List Round)
    → (r.keep ≡ false) ⊎ (try_send dosend r.popped ≡ false)
    → Ends dosend sent r (sendthread dosend sent (r ∷ rs))
unfolding sendthread
sendthread-Ends dosend sent r rs h = ground arith

ends_now :
    (dosend : Chunk → Bool) (sent : List Chunk) (r : Round) (rs : List Round)
    → (r.keep ≡ false) ⊎ (try_send dosend r.popped ≡ false)
    → Outcome dosend sent (r ∷ rs) (sendthread dosend sent (r ∷ rs))
ends_now dosend sent r rs h = inr (
  [],
  r,
  rs,
  refl,
  tt,
  subst (λ l. Ends dosend l r (sendthread dosend sent (r ∷ rs))) (sym (append-nil sent))
      (sendthread-Ends dosend sent r rs h),
)

sendthread_cases :
    (dosend : Chunk → Bool) (sent : List Chunk) (r : Round) (rs : List Round)
    → Outcome dosend (handed sent r.popped) rs (sendthread dosend (handed sent r.popped) rs)
    → Outcome dosend sent (r ∷ rs) (sendthread dosend sent (r ∷ rs))
sendthread_cases dosend sent r rs ih = elim (Bool-cases r.keep) [
  | inl k ↦ elim (Bool-cases (try_send dosend r.popped)) [
    | inl a ↦
        subst (Outcome dosend sent (r ∷ rs)) (sym (sendthread_goes dosend sent r rs k a))
          (later dosend sent r rs _ k a ih)
    | inr a ↦ ends_now dosend sent r rs (inr a)
  ]
  | inr k ↦ ends_now dosend sent r rs (inl k)
]

-- The thread gives `dosend` what it pops, in order. It runs as long as `keepsending` is set and
-- every chunk is accepted; the first round that finds `keepsending` cleared, or whose chunk is
-- refused, ends it, and nothing that comes later is sent.
pub sendthread-Outcome :
    (dosend : Chunk → Bool) (sent : List Chunk) (rs : List Round)
    → Outcome dosend sent rs (sendthread dosend sent rs)
unfolding sendthread
sendthread-Outcome dosend sent [] = inl (tt, refl, sym (append-nil sent))
sendthread-Outcome dosend sent (r ∷ rs) =
    sendthread_cases dosend sent r rs (sendthread-Outcome dosend (handed sent r.popped) rs)
