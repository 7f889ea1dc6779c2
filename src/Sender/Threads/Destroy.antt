-- ===== src/Sender/Threads/Destroy.antt =====
-- iemnet_sender.c: when `iemnet__sender_destroy` frees the sender, and when it hangs.
use pd_iemnet.Prelude.{◌≡◌, ◌≢◌, refl, Bool, true, false, [], arith}
use pd_iemnet.Chunk.{Chunk}
use pd_iemnet.Queue.Threads.{outside, finishing, inside_pop, entered, waiting, woken}
use pd_iemnet.Queue.Threads as Queue
use pd_iemnet.Queue.Threads.Order as QueueOrder
use pd_iemnet.Sender.Threads.{
  popping, ended, idle, finishing_loop, destroyed, System, Step, keep, stop, pop, popped, send_none,
  send_ok, send_fails, fail, refuse, return, accept, push, push_nothing, destroy, destroy_again,
  finish, unlock, lock, loop_ends, finish_last, finished_last, join, Steps, here, next, Reachable,
}
use pd_iemnet.Sender.Threads.Order.{Reachable-Inv}

final :
    {dosend : Chunk → Bool} {s t : System}
    → s.main ≡ destroyed
    → s.thread ≡ ended
    → ¬ (Step dosend s t)
final m h (keep e l k) = absurd (cc)
final m h (stop e l k) = absurd (cc)
final m h (pop e st i) = absurd (cc)
final m h (popped e l) = absurd (cc)
final m h (send_none e) = absurd (cc)
final m h (send_ok e d) = absurd (cc)
final m h (send_fails e d) = absurd (cc)
final m h (fail e l) = absurd (cc)
final m h (return e) = absurd (cc)
final m h (refuse e r) = absurd (cc)
final m h (accept c e r) = absurd (cc)
final m h (push e) = absurd (cc)
final m h (push_nothing e) = absurd (cc)
final m h (destroy e k) = absurd (cc)
final m h (destroy_again e k) = absurd (cc)
final m h (finish e r) = absurd (cc)
final m h (unlock e u) = absurd (cc)
final m h (lock e) = absurd (cc)
final m h (loop_ends e r) = absurd (cc)
final m h (finish_last e) = absurd (cc)
final m h (finished_last e u) = absurd (cc)
final m h (join e t) = absurd (cc)

-- When `iemnet__sender_destroy` frees the queue and the sender, in whichever way the threads got
-- there, the thread has ended with `isrunning` cleared, is not in the queue, and no step is left to
-- anyone: nothing uses what is freed.
pub destroyed-final :
    {dosend : Chunk → Bool} {s : System}
    → Reachable dosend s
    → s.main ≡ destroyed
    → (s.thread ≡ ended)
      × (s.isrunning ≡ false)
      × (s.queue.consumer ≡ outside)
      × (s.queue.used ≡ 0)
      × ((t : System) → ¬ (Step dosend s t))
destroyed-final {s = s} r m =
    let v = Reachable-Inv r in
    let e : s.thread ≡ ended = ground (arith, v.joined) in
    (
      e,
      ground arith,
      ground arith,
      ground (arith, (QueueOrder.Reachable-Inv v.reached).counted),
      λ t. final m e,
    )

-- The main thread is caught in `queue_finish` with `mtx`, and the thread sleeps in the queue: no step
-- but a spurious wake-up is left.
pub record Hung (dosend : Chunk → Bool) (s : System) : Type 0 where
  pub caught : s.main ≡ finishing_loop
  pub asleep : s.queue.consumer ≡ waiting
  pub only_spurious : (t : System) → Step dosend s t → t.queue.consumer ≡ woken

sleeper_wakes :
    {q p : Queue.System}
    → q.consumer ≡ waiting
    → (st : Queue.Step q p) → inside_pop st ≡ true
    → p.consumer ≡ woken
sleeper_wakes c (Queue.spurious e) i = refl
sleeper_wakes c (Queue.enter e) i = absurd (cc)
sleeper_wakes c (Queue.take e h) i = absurd (cc)
sleeper_wakes c (Queue.wait e h) i = absurd (cc)
sleeper_wakes c (Queue.wake_done e h) i = absurd (cc)
sleeper_wakes c (Queue.wake_take e d h) i = absurd (cc)
sleeper_wakes c (Queue.wake_wait e d h) i = absurd (cc)
sleeper_wakes c (Queue.push x e) i = absurd (cc)
sleeper_wakes c (Queue.leave e) i = absurd (cc)
sleeper_wakes c (Queue.finish e) i = absurd (cc)
sleeper_wakes c (Queue.finish_return e u) i = absurd (cc)

hung_step :
    {dosend : Chunk → Bool} {s t : System}
    → s.main ≡ finishing_loop
    → s.thread ≡ popping
    → s.queue.consumer ≡ waiting
    → s.queue.used ≢ 0
    → Step dosend s t
    → t.queue.consumer ≡ woken
hung_step m h c u (pop e st i) = sleeper_wakes c st i
hung_step m h c u (unlock e n) = absurd (u n)
hung_step m h c u (keep e l k) = absurd (cc)
hung_step m h c u (stop e l k) = absurd (cc)
hung_step m h c u (popped e l) = absurd (cc)
hung_step m h c u (send_none e) = absurd (cc)
hung_step m h c u (send_ok e d) = absurd (cc)
hung_step m h c u (send_fails e d) = absurd (cc)
hung_step m h c u (fail e l) = absurd (cc)
hung_step m h c u (return e) = absurd (cc)
hung_step m h c u (refuse e r) = absurd (cc)
hung_step m h c u (accept x e r) = absurd (cc)
hung_step m h c u (push e) = absurd (cc)
hung_step m h c u (push_nothing e) = absurd (cc)
hung_step m h c u (destroy e k) = absurd (cc)
hung_step m h c u (destroy_again e k) = absurd (cc)
hung_step m h c u (finish e r) = absurd (cc)
hung_step m h c u (lock e) = absurd (cc)
hung_step m h c u (loop_ends e r) = absurd (cc)
hung_step m h c u (finish_last e) = absurd (cc)
hung_step m h c u (finished_last e n) = absurd (cc)
hung_step m h c u (join e t) = absurd (cc)

-- From every reachable state in which no call of the main thread is open, the sender has not been
-- destroyed, and the thread has entered `queue_pop_block` of the empty queue without having its lock
-- yet, a call of `iemnet__sender_destroy` can run into a state that only a spurious wake-up leaves: it
-- keeps `mtx` and waits in `queue_finish` for the thread, which sleeps.
pub destroy_hangs :
    {dosend : Chunk → Bool} {s : System}
    → Reachable dosend s
    → s.main ≡ idle
    → s.keepsending ≡ true
    → s.thread ≡ popping
    → s.queue.consumer ≡ entered
    → s.queue.items ≡ []
    → (t : System) × Steps dosend s t × Hung dosend t
destroy_hangs {s = s} r m k h c i =
    let v = Reachable-Inv r in
    let used : s.queue.used ≢ 0 = ground (arith, (QueueOrder.Reachable-Inv v.reached).counted) in
    (
      record s {
        queue = record s.queue { done = true; consumer = waiting; finisher = finishing };
        keepsending = false;
        main = finishing_loop;
      },
      next (next (next here (destroy m k)) (finish refl (ground (arith, v.alive))))
          (pop h (Queue.wait (ground arith) i) refl),
      record {
        caught = refl;
        asleep = refl;
        only_spurious = λ t st. hung_step refl h refl used st;
      },
    )
