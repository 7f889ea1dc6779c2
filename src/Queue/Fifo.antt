-- ===== src/Queue/Fifo.antt =====
-- iemnet_data.c: the queue as a list of chunks, first in, first out.
use pd_iemnet.Prelude.{
  ℕ, zero, suc, ◌+◌, ◌-◌, ◌%◌, ◌^◌, ◌<◌, ◌≡◌, ◌≢◌, refl, ap, sym, ◌∙◌, inl, inr, true, false,
  Option, none, some, List, [], ◌∷◌, ◌++◌, arith, ◌==◌, if◌then◌else◌, map, length,
}
use mathlib.Core.List.{map-append}
use pd_iemnet.Prelude.Int.{ℤ, signed32}
use pd_iemnet.Chunk.{Chunk}
use pd_iemnet.Queue.{
  Ptr, null, Node, node, Heap, write, Queue, queue_create, queue_push, queue_pop_noblock,
  queue_getsize, queue_destroy, unlink_head, drain_loop,
}
use pd_iemnet.Queue.Shape.{Cells, Seg, last-ne, last_node, head-ne, link, First, first, linked, one}

abbrev pub chunks : Cells → List Chunk
chunks = map (λ c. c.1)

-- The bytes that a list of chunks holds.
abbrev pub fill : List Chunk → ℕ
fill [] = 0
fill (c ∷ cs) = c.size + fill cs

pub fill-append : (xs ys : List Chunk) → fill (xs ++ ys) ≡ fill xs + fill ys
fill-append [] ys = omega arith
fill-append (x ∷ xs) ys = omega (arith, fill-append xs ys)

-- The queue holds the chunks, oldest first.
pub data Holds (head tail : Ptr) (h : Heap) (xs : List Chunk) : Type 0 where
  nothing : head ≡ null → tail ≡ null → xs ≡ [] → Holds head tail h xs
  chain : (cs : Cells) → Seg h tail head cs → xs ≡ chunks cs → Holds head tail h xs

pub record IsQueue (q : Queue) (xs : List Chunk) : Type 0 where
  pub holds : Holds q.head q.tail q.nodes xs
  pub sized : q.size ≡ fill xs % 2 ^ 32

-- An address that `malloc` may return: not NULL, and in no node.
pub record IsFresh (q : Queue) (fresh : Ptr) : Type 0 where
  pub ne_null : fresh ≢ null
  pub unused : q.nodes fresh ≡ none

-- What the queue's fill state is in the eyes of the callers.
abbrev pub fill_state : List Chunk → ℤ
fill_state xs = signed32 (fill xs % 2 ^ 32)

-- A new queue holds nothing.
pub create-IsQueue : IsQueue queue_create []
unfolding queue_create
create-IsQueue = record { holds = nothing refl refl refl; sized = refl }

write_self : (h : Heap) (p : Ptr) (c : Option Node) → write h p c p ≡ c
unfolding write
write_self h p c = ground arith

write_keeps :
    (h : Heap) (fresh p : Ptr) (n : Node) (c : Option Node)
    → h fresh ≡ none
    → h p ≡ some n
    → write h fresh c p ≡ some n
unfolding write
write_keeps h fresh p n c u at = let apart : p ≢ fresh = λ i. cc in ground (arith, apart)

abbrev pub Pushed : Queue → List Chunk → Chunk → Option (ℤ × Queue) → Type 0
Pushed q xs c r =
    (q' : Queue) × (r ≡ some (fill_state (xs ++ c ∷ []), q'))
    × IsQueue q' (xs ++ c ∷ [])
    × (q'.done ≡ q.done)

push-Holds :
    (q : Queue) (fresh : Ptr) (c : Chunk) (xs : List Chunk)
    → IsFresh q fresh
    → Holds q.head q.tail q.nodes xs
    → q.size ≡ fill xs % 2 ^ 32
    → Pushed q xs c (queue_push q fresh (some c))
unfolding queue_push
push-Holds q fresh c xs f (nothing hn tn e) s =
    let grown : (q.size + c.size) % 2 ^ 32 ≡ fill (xs ++ c ∷ []) % 2 ^ 32 =
      omega (arith, fill-append xs (c ∷ [])) in
    let usable : (fresh == null) ≡ false = ground (arith, f.ne_null) in
    let empty : (q.tail == null) ≡ true = ground arith in
    (
      record q {
        head = fresh;
        tail = fresh;
        size = fill (xs ++ c ∷ []) % 2 ^ 32;
        nodes = write q.nodes fresh (some (node null c));
      },
      rw (usable, empty, grown),
      record {
        holds =
            chain ((fresh, c) ∷ []) (one f.ne_null (write_self q.nodes fresh (some (node null c))))
              (rw e);
        sized = refl;
      },
      refl,
    )
push-Holds q fresh c xs f (chain cs seg e) s =
    let grown : (q.size + c.size) % 2 ^ 32 ≡ fill (xs ++ c ∷ []) % 2 ^ 32 =
      omega (arith, fill-append xs (c ∷ [])) in
    let usable : (fresh == null) ≡ false = ground (arith, f.ne_null) in
    let (d, at) = last_node seg in
    let full : (q.tail == null) ≡ false = ground (arith, last-ne seg) in
    let there : write q.nodes fresh (some (node null c)) q.tail ≡ some (node null d) =
      write_keeps q.nodes fresh q.tail (node null d) (some (node null c)) f.unused at in
    (
      record q {
        tail = fresh;
        size = fill (xs ++ c ∷ []) % 2 ^ 32;
        nodes = linked q.nodes q.tail fresh d c;
      },
      rw (usable, full, there, grown),
      record {
        holds =
            chain (cs ++ (fresh, c) ∷ []) (link fresh d c seg at f.ne_null f.unused)
              (rw e (sym (map-append (λ (x : Ptr × Chunk). x.1) cs ((fresh, c) ∷ []))));
        sized = refl;
      },
      refl,
    )

-- `queue_push` on a fresh node puts the chunk behind all others and returns the new fill state; it
-- never faults.
pub push-IsQueue :
    (q : Queue) (fresh : Ptr) (c : Chunk) (xs : List Chunk)
    → IsQueue q xs
    → IsFresh q fresh
    → Pushed q xs c (queue_push q fresh (some c))
push-IsQueue q fresh c xs v f = push-Holds q fresh c xs f v.holds v.sized

abbrev pub Popped : Queue → List Chunk → Option (Option Chunk × Queue) → Type 0
Popped q [] r = r ≡ some (none, q)
Popped q (x ∷ xs) r = (q' : Queue) × (r ≡ some (some x, q')) × IsQueue q' xs × (q'.done ≡ q.done)

-- What is left when the head of a chain is freed.
left-Holds :
    {h : Heap} {last p : Ptr} {cs : Cells} (f : First h last p cs)
    → Holds f.next (if f.next == null then null else last) (write h p none) (chunks f.rest)
left-Holds {last} f = elim f.left [
  | inl (n, r) ↦ nothing n (ground (arith, n)) (rw r)
  | inr (n, s) ↦
      let here : (f.next == null) ≡ false = ground (arith, n) in rw here (chain f.rest s refl)
]

pop_chain :
    (q : Queue) (xs : List Chunk) (cs : Cells)
    → First q.nodes q.tail q.head cs
    → (q.head == null) ≡ false
    → xs ≡ chunks cs
    → q.size ≡ fill xs % 2 ^ 32
    → Popped q xs (queue_pop_noblock q)
unfolding queue_pop_noblock
pop_chain q [] cs f ne e s = absurd (ground (arith, f.split))
pop_chain q (x ∷ xs) cs f ne e s =
    let cut : ◌≡◌ {A = List Chunk} (x ∷ xs) (f.chunk ∷ chunks f.rest) = e ∙ ap chunks f.split in
    let same : x ≡ f.chunk = ground arith in
    let others : xs ≡ chunks f.rest = ground arith in
    let shrunk : (q.size + 2 ^ 32 - x.size % 2 ^ 32) % 2 ^ 32 ≡ fill xs % 2 ^ 32 = omega arith in
    (
      record q {
        head = f.next;
        tail = if f.next == null then null else q.tail;
        size = fill xs % 2 ^ 32;
        nodes = write q.nodes q.head none;
      },
      rw (ne, unlink_head, f.at, ← same, shrunk),
      record { holds = rw others (left-Holds f); sized = refl },
      refl,
    )

pop-Holds :
    (q : Queue) (xs : List Chunk)
    → Holds q.head q.tail q.nodes xs
    → q.size ≡ fill xs % 2 ^ 32
    → Popped q xs (queue_pop_noblock q)
unfolding queue_pop_noblock
pop-Holds q xs (nothing hn tn e) s =
    rw e (let empty : (q.head == null) ≡ true = ground arith in rw empty)
pop-Holds q xs (chain cs seg e) s = pop_chain q xs cs (first seg) (ground (arith, head-ne seg)) e s

-- `queue_pop_noblock` takes the oldest chunk off the queue and leaves the others; of an empty queue
-- it returns NULL and leaves it as it is. It never faults.
pub pop-IsQueue : (q : Queue) (xs : List Chunk) → IsQueue q xs → Popped q xs (queue_pop_noblock q)
pop-IsQueue q xs v = pop-Holds q xs v.holds v.sized

-- `queue_getsize` returns the bytes that the chunks of the queue hold, as an `int`.
pub getsize-fill :
    (q : Queue) (xs : List Chunk) → IsQueue q xs → queue_getsize (some q) ≡ fill_state xs
unfolding queue_getsize
getsize-fill q xs v = rw v.sized

drain-chunks :
    (fuel : ℕ) (q : Queue) (xs : List Chunk)
    → IsQueue q xs
    → length xs < fuel
    → (q' : Queue) × (drain_loop fuel q ≡ some (xs, q')) × IsQueue q' []
unfolding drain_loop
drain-chunks zero q xs v h = absurd (omega arith)
drain-chunks (suc fuel) q [] v h = (q, rw (pop-IsQueue q [] v), v)
drain-chunks (suc fuel) q (x ∷ xs) v h =
    let (q', e, w, _) = pop-IsQueue q (x ∷ xs) v in
    let (q'', e', w') = drain-chunks fuel q' xs w (omega arith) in (q'', rw (e, e'), w')

-- `queue_destroy` destroys every chunk that is still in the queue, each once and oldest first, and
-- leaves an empty queue: with as many rounds as there are chunks, and one more, its loop ends.
pub destroy-chunks :
    (q : Queue) (xs : List Chunk)
    → IsQueue q xs
    → (q' : Queue) × (queue_destroy (suc (length xs)) q ≡ some (xs, q')) × IsQueue q' []
unfolding queue_destroy
destroy-chunks q xs v =
    drain-chunks (suc (length xs)) (record q { done = true }) xs
      (record { holds = v.holds; sized = v.sized }) (omega arith)
