-- ===== src/Sender/Threads/Order.antt =====
-- iemnet_sender.c: what every interleaving of a sender's two threads keeps.
use mathlib.Core.List.{append_assoc, append-nil}
use mathlib.Core.Path.{subst}
use pd_iemnet.Prelude.{
  Option, inl, inr, ◌⊎◌, ◌≡◌, ◌≢◌, refl, ap, sym, ◌∙◌, Bool, true, false, none, some, List, [], ◌∷◌,
  ◌++◌, arith,
}
use pd_iemnet.Chunk.{Chunk}
use pd_iemnet.Queue.Threads.{Finisher, finishing, running, outside, append_result}
use pd_iemnet.Queue.Threads as Queue
use pd_iemnet.Queue.Threads.Order.{in_flight, fifo_order}
use pd_iemnet.Sender.Threads.{
  Thread, popping, holding, ended, Main, idle, pushing, finishing_loop, behind_loop, finishing_last,
  joining, destroyed, System, Step, keep, stop, pop, popped, send_none, send_ok, send_fails, fail,
  refuse, return, returning, accept, push, push_nothing, destroy, destroy_again, finish, unlock,
  lock, loop_ends, finish_last, finished_last, join, here, next, start, Reachable,
}

-- The chunk that the thread has popped and not yet given to `dosend`.
abbrev pub in_hand : Thread → List Chunk
in_hand (holding (some c)) = c ∷ []
in_hand _ = []

abbrev pub works : Thread → Bool
works returning = false
works ended = false
works _ = true

-- How `queue_finish` stands while the main thread is at a place.
abbrev pub Stage : Main → Finisher → Type 0
Stage idle f = f ≡ running
Stage (pushing c) f = f ≡ running
Stage finishing_loop f = f ≡ finishing
Stage finishing_last f = f ≡ finishing
Stage _ f = f ≢ finishing

-- Once the loop of `iemnet__sender_destroy` is left, the thread is behind its own; once it is joined,
-- it has ended.
abbrev pub Joined : Main → Thread → Type 0
Joined behind_loop t = works t ≡ false
Joined finishing_last t = works t ≡ false
Joined joining t = works t ≡ false
Joined destroyed t = t ≡ ended
Joined _ t = Unit

pub record Inv (s : System) : Type 0 where
  pub reached : Queue.Reachable s.queue
  pub place : (s.queue.consumer ≡ outside) ⊎ (s.thread ≡ popping)
  pub alive : s.isrunning ≡ works s.thread
  pub stage : Stage s.main s.queue.finisher
  pub joined : Joined s.main s.thread
  pub given : s.sent ++ in_hand s.thread ≡ s.queue.popped

pop_keeps :
    {q p : Queue.System}
    → (st : Queue.Step q p) → Queue.inside_pop st ≡ true
    → (p.finisher ≡ q.finisher) × (p.popped ≡ q.popped)
pop_keeps (Queue.enter e) i = (refl, refl)
pop_keeps (Queue.take e h) i = (refl, refl)
pop_keeps (Queue.wait e h) i = (refl, refl)
pop_keeps (Queue.spurious e) i = (refl, refl)
pop_keeps (Queue.wake_done e h) i = (refl, refl)
pop_keeps (Queue.wake_take e d h) i = (refl, refl)
pop_keeps (Queue.wake_wait e d h) i = (refl, refl)
pop_keeps (Queue.push c e) i = absurd (cc)
pop_keeps (Queue.leave e) i = absurd (cc)
pop_keeps (Queue.finish e) i = absurd (cc)
pop_keeps (Queue.finish_return e u) i = absurd (cc)

given-result :
    (sent out : List Chunk) (r : Option Chunk)
    → sent ++ [] ≡ out
    → sent ++ in_hand (holding r) ≡ append_result out r
given-result sent out none h = h
given-result sent out (some c) h = ap (λ l. l ++ c ∷ []) (sym (append-nil sent) ∙ h)

unjoined : (m : Main) (t : Thread) → Joined m popping → Joined m t
unjoined m t h = ground arith

Step-Inv : {dosend : Chunk → Bool} {s t : System} → Step dosend s t → Inv s → Inv t
Step-Inv (keep e l k) v = ground arith
Step-Inv (stop e l k) v = ground arith
Step-Inv (pop e st i) v = record {
  reached = Queue.next v.reached st;
  place = inr e;
  alive = v.alive;
  stage = subst (Stage _) (sym (pop_keeps st i).0) v.stage;
  joined = v.joined;
  given = v.given ∙ sym (pop_keeps st i).1;
}
Step-Inv {s = s} (popped {r = r} e l) v = record {
  reached = Queue.next v.reached (Queue.leave l);
  place = inl refl;
  alive = ground arith;
  stage = v.stage;
  joined = unjoined s.main (holding r) (subst (Joined s.main) e v.joined);
  given =
      given-result s.sent s.queue.popped r
        (subst (λ t. s.sent ++ in_hand t ≡ s.queue.popped) e v.given);
}
Step-Inv (send_none e) v = ground arith
Step-Inv {s = s} (send_ok {c = c} e d) v = ground (arith, append-nil (s.sent ++ c ∷ []))
Step-Inv {s = s} (send_fails {c = c} e d) v = ground (arith, append-nil (s.sent ++ c ∷ []))
Step-Inv (fail e l) v = ground arith
Step-Inv (return e) v = ground arith
Step-Inv (refuse e r) v = v
Step-Inv (accept c e r) v = ground arith
Step-Inv (push {c = c} e) v = record {
  reached = Queue.next v.reached (Queue.push c (ground arith));
  place = ground arith;
  alive = v.alive;
  stage = ground arith;
  joined = tt;
  given = v.given;
}
Step-Inv (push_nothing e) v = ground arith
Step-Inv (destroy e k) v = ground arith
Step-Inv (destroy_again e k) v = v
Step-Inv (finish e r) v = record {
  reached = Queue.next v.reached (Queue.finish (ground arith));
  place = ground arith;
  alive = v.alive;
  stage = refl;
  joined = tt;
  given = v.given;
}
Step-Inv (unlock e u) v = record {
  reached = Queue.next v.reached (Queue.finish_return (ground arith) u);
  place = v.place;
  alive = v.alive;
  stage = ground arith;
  joined = tt;
  given = v.given;
}
Step-Inv (lock e) v = ground arith
Step-Inv (loop_ends e r) v = ground arith
Step-Inv (finish_last e) v = record {
  reached = Queue.next v.reached (Queue.finish (ground arith));
  place = ground arith;
  alive = v.alive;
  stage = refl;
  joined = ground arith;
  given = v.given;
}
Step-Inv (finished_last e u) v = record {
  reached = Queue.next v.reached (Queue.finish_return (ground arith) u);
  place = v.place;
  alive = v.alive;
  stage = ground arith;
  joined = ground arith;
  given = v.given;
}
Step-Inv (join e t) v = ground arith

start-Inv : Inv start
start-Inv = record {
  reached = Queue.here;
  place = inl refl;
  alive = refl;
  stage = refl;
  joined = tt;
  given = refl;
}

pub Reachable-Inv : {dosend : Chunk → Bool} {s : System} → Reachable dosend s → Inv s
Reachable-Inv here = start-Inv
Reachable-Inv (next r st) = Step-Inv st (Reachable-Inv r)

-- In every interleaving of a sender's two threads, the chunks that were given to `dosend`, the one
-- that the thread has in hand, the one that it is about to take from the queue, and those in the
-- queue are the chunks that `iemnet__sender_send` has pushed, in the order of its calls.
pub send_order :
    {dosend : Chunk → Bool} {s : System}
    → Reachable dosend s
    → s.sent ++ (in_hand s.thread ++ (in_flight s.queue.consumer ++ s.queue.items)) ≡ s.queue.pushed
send_order {s = s} r =
    let v = Reachable-Inv r in
    sym (append_assoc s.sent (in_hand s.thread) _)
    ∙ ap (λ l. l ++ (in_flight s.queue.consumer ++ s.queue.items)) v.given
    ∙ fifo_order v.reached
