-- ===== src/Sender.antt =====
-- iemnet_sender.c: the sender of a socket. Its queue is the list of chunks that `Queue/Fifo` shows
-- the linked list to hold; its thread runs `sendthread`.
pub mod Laws
pub mod Connect
pub mod Threads
use pd_iemnet.Prelude.{
  ℕ, ◌+◌, ◌≡◌, refl, Bool, true, false, Option, none, some, List, [], ◌∷◌, ◌++◌, ◌==◌, ◌&&◌, not,
  if◌then◌else◌, ◌>>=◌,
}
use pd_iemnet.Prelude.Int.{ℤ, pos, negsuc, minus_one, is_neg}
use pd_iemnet.Chunk.{Chunk, Memory, chunk_create_chunk}
use pd_iemnet.Queue.Fifo.{fill_state}

pub record Sender : Type 0 where
  pub sockfd : ℤ
  pub queue : Option (List Chunk)
  pub keepsending : Bool
  pub isrunning : Bool

-- `queue_push` on the contents of the queue, see `push-IsQueue`
abbrev pub push_contents : List Chunk → Option Chunk → ℤ × List Chunk
push_contents xs none = (fill_state xs, xs)
push_contents xs (some c) = (fill_state (xs ++ c ∷ []), xs ++ c ∷ [])

abbrev sizeof_sender : ℕ
sizeof_sender = 104

abbrev sizeof_queue : ℕ
sizeof_queue = 208

-- `spawn` says whether `pthread_create` returns 0 for the thread of this socket.
unfoldable pub sender_create : Memory → (spawn : ℤ → Bool) → ℤ → Option Sender
sender_create malloc spawn sock =
    if malloc sizeof_sender
    then (if spawn sock
        then some (record {
          sockfd = sock;
          queue = if malloc sizeof_queue then some [] else none;
          keepsending = true;
          isrunning = true;
        })
        else none)
    else none

unfoldable pub sender_send : Memory → Sender → Option Chunk → ℤ × Sender
sender_send malloc s c = if not s.isrunning then (minus_one, s) else elim s.queue [
  | none ↦ (minus_one, s)
  | some xs ↦
      let (size, ys) = push_contents xs (chunk_create_chunk malloc c) in
      (size, record s { queue = some ys })
]

unfoldable pub sender_getsize : Option Sender → ℤ
sender_getsize none = minus_one
sender_getsize (some s) = elim s.queue [ none ↦ minus_one | some xs ↦ fill_state xs ]

-- The default send function: `sendto` the chunk's address if it has a port, else `send`; it fails
-- if that returns a negative number.
pub record Network : Type 0 where
  pub send : ℤ → Chunk → ℤ
  pub sendto : ℤ → Chunk → ℤ

unfoldable pub sender_defaultsend : Network → ℤ → Chunk → Bool
sender_defaultsend net sockfd c =
    let result = if c.port == 0 then net.send sockfd c else net.sendto sockfd c in
    not (is_neg result)

-- One round of the thread: what `keepsending` is at the loop's head, and what `queue_pop_block`
-- returns in the round.
pub record Round : Type 0 where
  pub keep : Bool
  pub popped : Option Chunk

-- How the thread stands: still in its loop, or behind it with `isrunning` cleared.
pub record Thread : Type 0 where
  pub running : Bool
  pub sent : List Chunk

-- `dosend` of a chunk that was popped, if any: `false` leaves the loop.
abbrev pub try_send : (Chunk → Bool) → Option Chunk → Bool
try_send dosend none = true
try_send dosend (some c) = dosend c

abbrev pub handed : List Chunk → Option Chunk → List Chunk
handed cs none = cs
handed cs (some c) = cs ++ c ∷ []

-- The loop of `iemnet__sender_sendthread` over the rounds that it has had so far; `sent` are the
-- chunks that were given to `dosend`.
unfoldable pub sendthread : (Chunk → Bool) → List Chunk → List Round → Thread
sendthread dosend sent [] = record { running = true; sent = sent }
sendthread dosend sent (r ∷ rs) =
    let more = sendthread dosend (handed sent r.popped) rs in
    if not r.keep
    then record { running = false; sent = sent }
    else if try_send dosend r.popped
    then more
    else record { running = false; sent = handed sent r.popped }
