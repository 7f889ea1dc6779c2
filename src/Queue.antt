-- ===== src/Queue.antt =====
-- iemnet_data.c: the queue of chunks, a linked list with a pointer to its last node. The functions
-- here are what one thread does while it holds `mtx`, for a queue that is not NULL; the threads are
-- in `Queue/Threads`.
mod Shape
pub mod Fifo
pub mod Threads
use pd_iemnet.Prelude.{
  ℕ, zero, suc, ◌+◌, ◌-◌, ◌*◌, ◌%◌, ◌^◌, Bool, true, false, Option, none, some, List, [], ◌∷◌, ◌==◌,
  if◌then◌else◌, ◌>>=◌,
}
use pd_iemnet.Prelude.Int.{ℤ, pos, negsuc, signed32, minus_one}
use pd_iemnet.Chunk.{Chunk}

abbrev pub Ptr : Type 0
Ptr = ℕ

abbrev pub null : Ptr
null = 0

pub record Node : Type 0 where
  pub next : Ptr
  pub chunk : Chunk

abbrev pub node : Ptr → Chunk → Node
node n c = record { next = n; chunk = c }

abbrev pub Heap : Type 0
Heap = Ptr → Option Node

unfoldable pub write : Heap → Ptr → Option Node → Heap
write h p c a = if a == p then c else h a

-- `size` is the pattern of an `int`; `nodes` is the memory that the queue's nodes stand in.
pub record Queue : Type 0 where
  pub head : Ptr
  pub tail : Ptr
  pub done : Bool
  pub size : ℕ
  pub used : ℕ
  pub nodes : Heap

unfoldable pub queue_create : Queue
queue_create = record {
  head = null;
  tail = null;
  done = false;
  size = 0;
  used = 0;
  nodes = λ p. none;
}

-- `_this->size += data->size` and `_this->size -= data->size`
abbrev grow : ℕ → ℕ → ℕ
grow size n = (size + n) % 2 ^ 32

abbrev shrink : ℕ → ℕ → ℕ
shrink size n = (size + 2 ^ 32 - n % 2 ^ 32) % 2 ^ 32

-- `fresh` is the address that `malloc` gives the node. `none` is a fault: a write to NULL, or to an
-- address that holds no node.
unfoldable pub queue_push : Queue → (fresh : Ptr) → Option Chunk → Option (ℤ × Queue)
queue_push q fresh none = some (signed32 q.size, q)
queue_push q fresh (some c) =
    if fresh == null
    then none
    else let h = write q.nodes fresh (some (node null c)) in
      let size = grow q.size c.size in
      if q.tail == null
      then some (signed32 size, record q { head = fresh; tail = fresh; size = size; nodes = h })
      else do
        t ← h q.tail
        some (
          signed32 size,
          record q {
            tail = fresh;
            size = size;
            nodes = write h q.tail (some (record t { next = fresh }));
          },
        )

-- Takes the head off a queue whose head is not NULL, and frees its node.
unlink_head : Queue → Option (Option Chunk × Queue)
unlink_head q = do
  n ← q.nodes q.head
  some (
    some n.chunk,
    record q {
      head = n.next;
      tail = if n.next == null then null else q.tail;
      size = shrink q.size n.chunk.size;
      nodes = write q.nodes q.head none;
    },
  )

-- The use counter goes up and down again within the call.
unfoldable pub queue_pop_noblock : Queue → Option (Option Chunk × Queue)
unfolding unlink_head
queue_pop_noblock q = if q.head == null then some (none, q) else unlink_head q

unfoldable pub queue_getsize : Option Queue → ℤ
queue_getsize none = minus_one
queue_getsize (some q) = signed32 q.size

-- `while(NULL != (c = queue_pop_noblock(q))) iemnet__chunk_destroy(c)`, with the chunks that are
-- destroyed and the queue that is freed; out of fuel it faults.
drain_loop : ℕ → Queue → Option (List Chunk × Queue)
drain_loop zero q = none
drain_loop (suc fuel) q = do
  (popped, q') ← queue_pop_noblock q
  elim popped [
    | none ↦ some ([], q')
    | some c ↦ do (cs, q'') ← drain_loop fuel q'; some (c ∷ cs, q'')
  ]

unfoldable pub queue_destroy : ℕ → Queue → Option (List Chunk × Queue)
unfolding drain_loop
queue_destroy fuel q = drain_loop fuel (record q { done = true })
