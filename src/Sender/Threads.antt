-- ===== src/Sender/Threads.antt =====
-- iemnet_sender.c: the thread of a sender in `iemnet__sender_sendthread` against the main thread in
-- `iemnet__sender_send` and `iemnet__sender_destroy`, on the queue of `Queue/Threads`. A step is a
-- critical section of the sender's `mtx`, or a step in the queue, and the thread uses the sender
-- until its last UNLOCK has returned; `iemnet__sender_destroy` keeps `mtx` over its call of
-- `queue_finish`, so that there the thread's critical sections have to wait. The queue is one that
-- could be allocated.
pub mod Order
pub mod Destroy
pub mod Progress
use pd_iemnet.Prelude.{◌≡◌, Bool, true, false, Option, none, some, List, [], ◌∷◌, ◌++◌}
use pd_iemnet.Chunk.{Chunk}
use pd_iemnet.Queue.Threads.{inside_pop, after_push, after_pop, after_finish, after_return}
use pd_iemnet.Queue.Threads as Queue

-- Where the thread stands.
pub data Thread : Type 0 where
  testing : Thread  -- before it locks `mtx` and tests `keepsending`
  popping : Thread  -- in `queue_pop_block`
  holding : Option Chunk → Thread  -- behind `queue_pop_block`, with its result
  failing : Thread  -- `dosend` has failed, before it locks `mtx` to leave the loop
  returning : Thread  -- `isrunning` is cleared and `mtx` released, but UNLOCK has not returned
  ended : Thread

-- Where the main thread stands.
pub data Main : Type 0 where
  idle : Main
  pushing : Chunk → Main  -- in `iemnet__sender_send`, behind the test of `isrunning`
  looping : Main  -- in `iemnet__sender_destroy` with `mtx`, before the test of `isrunning`
  finishing_loop : Main  -- in `queue_finish` with `mtx`
  unlocked : Main  -- between UNLOCK and LOCK at the end of a round
  behind_loop : Main  -- before the last `queue_finish`
  finishing_last : Main  -- in the last `queue_finish`
  joining : Main  -- in `pthread_join`
  destroyed : Main  -- the queue and the sender are freed

-- `sent` are the chunks that were given to `dosend`.
pub record System : Type 0 where
  pub queue : Queue.System
  pub keepsending : Bool
  pub isrunning : Bool
  pub thread : Thread
  pub main : Main
  pub sent : List Chunk

-- Whether the main thread has `mtx` between two steps.
abbrev pub locked : Main → Bool
locked looping = true
locked finishing_loop = true
locked _ = false

pub data Step (dosend : Chunk → Bool) (s : System) : System → Type 0 where
  keep :
      s.thread ≡ testing
      → locked s.main ≡ false
      → s.keepsending ≡ true
      → Step dosend s (record s { thread = popping })
  stop :
      s.thread ≡ testing
      → locked s.main ≡ false
      → s.keepsending ≡ false
      → Step dosend s (record s { thread = returning; isrunning = false })
  pop :
      {q : Queue.System}
      → s.thread ≡ popping
      → (st : Queue.Step s.queue q) → inside_pop st ≡ true
      → Step dosend s (record s { queue = q })
  popped :
      {r : Option Chunk}
      → s.thread ≡ popping
      → s.queue.consumer ≡ Queue.leaving r
      → Step dosend s (record s { queue = after_pop s.queue r; thread = holding r })
  send_none : s.thread ≡ holding none → Step dosend s (record s { thread = testing })
  send_ok :
      {c : Chunk}
      → s.thread ≡ holding (some c)
      → dosend c ≡ true
      → Step dosend s (record s { thread = testing; sent = s.sent ++ c ∷ [] })
  send_fails :
      {c : Chunk}
      → s.thread ≡ holding (some c)
      → dosend c ≡ false
      → Step dosend s (record s { thread = failing; sent = s.sent ++ c ∷ [] })
  fail :
      s.thread ≡ failing
      → locked s.main ≡ false
      → Step dosend s (record s { thread = returning; isrunning = false })
  return : s.thread ≡ returning → Step dosend s (record s { thread = ended })
  refuse : s.main ≡ idle → s.isrunning ≡ false → Step dosend s s
  accept :
      (c : Chunk)
      → s.main ≡ idle
      → s.isrunning ≡ true
      → Step dosend s (record s { main = pushing c })
  push :
      {c : Chunk}
      → s.main ≡ pushing c
      → Step dosend s (record s { queue = after_push s.queue c; main = idle })
  push_nothing :  -- there was no memory for the copy of the chunk
      {c : Chunk} → s.main ≡ pushing c → Step dosend s (record s { main = idle })
  destroy :
      s.main ≡ idle
      → s.keepsending ≡ true
      → Step dosend s (record s { keepsending = false; main = looping })
  destroy_again : s.main ≡ idle → s.keepsending ≡ false → Step dosend s s
  finish :
      s.main ≡ looping
      → s.isrunning ≡ true
      → Step dosend s
          (record s { keepsending = false; queue = after_finish s.queue; main = finishing_loop })
  unlock :
      s.main ≡ finishing_loop
      → s.queue.used ≡ 0
      → Step dosend s (record s { queue = after_return s.queue; main = unlocked })
  lock : s.main ≡ unlocked → Step dosend s (record s { main = looping })
  loop_ends :
      s.main ≡ looping → s.isrunning ≡ false → Step dosend s (record s { main = behind_loop })
  finish_last :
      s.main ≡ behind_loop
      → Step dosend s (record s { queue = after_finish s.queue; main = finishing_last })
  finished_last :
      s.main ≡ finishing_last
      → s.queue.used ≡ 0
      → Step dosend s (record s { queue = after_return s.queue; main = joining })
  join : s.main ≡ joining → s.thread ≡ ended → Step dosend s (record s { main = destroyed })

-- Right after `iemnet__sender_create`.
abbrev pub start : System
start = record {
  queue = Queue.start;
  keepsending = true;
  isrunning = true;
  thread = testing;
  main = idle;
  sent = [];
}

pub data Steps (dosend : Chunk → Bool) (s : System) : System → Type 0 where
  here : Steps dosend s s
  next : {t u : System} → Steps dosend s t → Step dosend t u → Steps dosend s u

abbrev pub Reachable : (Chunk → Bool) → System → Type 0
Reachable dosend s = Steps dosend start s
