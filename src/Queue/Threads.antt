-- ===== src/Queue/Threads.antt =====
-- iemnet_data.c: one thread in `queue_pop_block` against the main thread in `queue_push` and
-- `queue_finish`. A step is a critical section; `pthread_cond_wait` releases `mtx` and stands in
-- between two steps. Each queue has one consumer, the thread of its sender. The chunks are the list
-- that `Queue/Fifo` shows the linked list to be.
pub mod Order
pub mod Finish
use pd_iemnet.Prelude.{
  ℕ, ◌+◌, ◌-◌, ◌≡◌, ◌≢◌, Bool, true, false, Option, none, some, List, [], ◌∷◌, ◌++◌,
}
use pd_iemnet.Chunk.{Chunk}

-- Where the thread stands in `queue_pop_block`.
pub data Consumer : Type 0 where
  outside : Consumer
  entered : Consumer  -- behind `queue_use_increment`, before the lock
  waiting : Consumer  -- in `pthread_cond_wait`
  woken : Consumer  -- signaled, before the test of `done`
  leaving : Option Chunk → Consumer  -- with its result, before `queue_use_decrement`

-- Where the main thread stands in `queue_finish`.
pub data Finisher : Type 0 where
  running : Finisher
  finishing : Finisher  -- `done` is set and signaled, and it waits for `used` to be 0
  finished : Finisher

-- `pushed` and `popped` record the calls that have returned.
pub record System : Type 0 where
  pub items : List Chunk
  pub done : Bool
  pub used : ℕ
  pub consumer : Consumer
  pub finisher : Finisher
  pub pushed : List Chunk
  pub popped : List Chunk

-- `pthread_cond_signal(&cond)`
abbrev pub signal : Consumer → Consumer
signal waiting = woken
signal c = c

abbrev pub append_result : List Chunk → Option Chunk → List Chunk
append_result cs none = cs
append_result cs (some c) = cs ++ c ∷ []

-- What `queue_push` of a chunk, the return of `queue_pop_block`, and the two critical sections of
-- `queue_finish` do.
abbrev pub after_push : System → Chunk → System
after_push s c = record s {
  items = s.items ++ c ∷ [];
  consumer = signal s.consumer;
  pushed = s.pushed ++ c ∷ [];
}

abbrev pub after_pop : System → Option Chunk → System
after_pop s r = record s {
  consumer = outside;
  used = s.used - 1;
  popped = append_result s.popped r;
}

abbrev pub after_finish : System → System
after_finish s = record s { done = true; consumer = signal s.consumer; finisher = finishing }

abbrev pub after_return : System → System
after_return s = record s { finisher = finished }

pub data Step (s : System) : System → Type 0 where
  push : (c : Chunk) → s.finisher ≡ running → Step s (after_push s c)
  enter : s.consumer ≡ outside → Step s (record s { consumer = entered; used = s.used + 1 })
  take :
      {c : Chunk} {cs : List Chunk}
      → s.consumer ≡ entered
      → s.items ≡ c ∷ cs
      → Step s (record s { items = cs; consumer = leaving (some c) })
  wait : s.consumer ≡ entered → s.items ≡ [] → Step s (record s { consumer = waiting })
  spurious : s.consumer ≡ waiting → Step s (record s { consumer = woken })
  wake_done : s.consumer ≡ woken → s.done ≡ true → Step s (record s { consumer = leaving none })
  wake_take :
      {c : Chunk} {cs : List Chunk}
      → s.consumer ≡ woken
      → s.done ≡ false
      → s.items ≡ c ∷ cs
      → Step s (record s { items = cs; consumer = leaving (some c) })
  wake_wait :
      s.consumer ≡ woken → s.done ≡ false → s.items ≡ [] → Step s (record s { consumer = waiting })
  leave : {r : Option Chunk} → s.consumer ≡ leaving r → Step s (after_pop s r)
  finish : s.finisher ≢ finishing → Step s (after_finish s)
  finish_return : s.finisher ≡ finishing → s.used ≡ 0 → Step s (after_return s)

-- Whether a step is one of the thread inside `queue_pop_block`.
abbrev pub inside_pop : {s t : System} → Step s t → Bool
inside_pop (push c e) = false
inside_pop (leave e) = false
inside_pop (finish e) = false
inside_pop (finish_return e u) = false
inside_pop _ = true

-- Right after `queue_create`.
abbrev pub start : System
start = record {
  items = [];
  done = false;
  used = 0;
  consumer = outside;
  finisher = running;
  pushed = [];
  popped = [];
}

pub data Steps (s : System) : System → Type 0 where
  here : Steps s s
  next : {t u : System} → Steps s t → Step t u → Steps s u

abbrev pub Reachable : System → Type 0
Reachable s = Steps start s
