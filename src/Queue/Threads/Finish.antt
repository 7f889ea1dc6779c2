-- ===== src/Queue/Threads/Finish.antt =====
-- iemnet_data.c: when `queue_finish` returns, and when it does not.
use pd_iemnet.Prelude.{◌≡◌, ◌≢◌, refl, true, none, [], arith}
use pd_iemnet.Queue.Threads.{
  next, here, outside, entered, waiting, woken, leaving, running, finishing, finished, System, Step,
  push, enter, take, wait, spurious, wake_done, wake_take, wake_wait, leave, finish, finish_return,
  Steps, Reachable,
}
use pd_iemnet.Queue.Threads.Order.{Reachable-Inv}

-- `queue_finish` returns only while the consumer is not in `queue_pop_block`.
pub finish_return_outside :
    {s t : System}
    → Reachable s
    → Step s t
    → s.finisher ≡ finishing
    → t.finisher ≡ finished
    → (s.consumer ≡ outside) × (t.consumer ≡ outside)
finish_return_outside {s} r (finish_return e u) f g =
    let c = (Reachable-Inv r).counted in (ground (arith, c), ground (arith, c))
finish_return_outside r (push c e) f g = ground arith
finish_return_outside r (enter e) f g = ground arith
finish_return_outside r (take e i) f g = ground arith
finish_return_outside r (wait e i) f g = ground arith
finish_return_outside r (spurious e) f g = ground arith
finish_return_outside r (wake_done e d) f g = ground arith
finish_return_outside r (wake_take e d i) f g = ground arith
finish_return_outside r (wake_wait e d i) f g = ground arith
finish_return_outside r (leave e) f g = ground arith
finish_return_outside r (finish e) f g = ground arith

-- Nobody can move but by a spurious wake-up, and the main thread is caught in `queue_finish`.
pub record Stuck (s : System) : Type 0 where
  pub caught : s.finisher ≡ finishing
  pub asleep : s.consumer ≡ waiting
  pub only_spurious : (t : System) → Step s t → t.consumer ≡ woken

stuck : {s : System} → s.finisher ≡ finishing → s.consumer ≡ waiting → s.used ≢ 0 → Stuck s
stuck {s} f c u = record { caught = f; asleep = c; only_spurious = λ t st. spurious_only f c u st }
  where
    spurious_only :
        {t : System}
        → s.finisher ≡ finishing
        → s.consumer ≡ waiting
        → s.used ≢ 0
        → Step s t
        → t.consumer ≡ woken
    spurious_only f c u (spurious e) = refl
    spurious_only f c u (push d e) = ground arith
    spurious_only f c u (enter e) = ground arith
    spurious_only f c u (take e i) = ground arith
    spurious_only f c u (wait e i) = ground arith
    spurious_only f c u (wake_done e d) = ground arith
    spurious_only f c u (wake_take e d i) = ground arith
    spurious_only f c u (wake_wait e d i) = ground arith
    spurious_only f c u (leave e) = ground arith
    spurious_only f c u (finish e) = ground arith
    spurious_only f c u (finish_return e n) = absurd (u n)

-- The lost wake-up: from every reachable state in which the consumer has entered `queue_pop_block`
-- but does not hold the lock yet, the queue is empty and `queue_finish` starts now, the threads can
-- run into a state in which the consumer sleeps although `done` is set, and `queue_finish` waits for
-- it for good: only a spurious wake-up can go on from there.
pub lost_wakeup :
    {s : System}
    → Reachable s
    → s.consumer ≡ entered
    → s.items ≡ []
    → s.finisher ≡ running
    → (t : System) × Steps s t × Stuck t × (t.done ≡ true)
lost_wakeup {s} r c i f = (
  record s { done = true; consumer = waiting; finisher = finishing },
  next (next here (finish (λ g. absurd (cc)))) (wait (ground arith) i),
  stuck refl refl (ground (arith, (Reachable-Inv r).counted)),
  refl,
)

woken_step :
    {t u : System}
    → t.consumer ≡ woken
    → t.done ≡ true
    → t.finisher ≡ finishing
    → t.used ≢ 0
    → Step t u
    → (u.consumer ≡ leaving none) × (u.items ≡ t.items)
woken_step c d f n (wake_done e h) = (refl, refl)
woken_step c d f n (push x e) = absurd (cc)
woken_step c d f n (enter e) = absurd (cc)
woken_step c d f n (take e i) = absurd (cc)
woken_step c d f n (wait e i) = absurd (cc)
woken_step c d f n (spurious e) = absurd (cc)
woken_step c d f n (wake_take e h i) = absurd (cc)
woken_step c d f n (wake_wait e h i) = absurd (cc)
woken_step c d f n (leave e) = absurd (cc)
woken_step c d f n (finish e) = absurd (e f)
woken_step c d f n (finish_return e u) = absurd (n u)

-- When the consumer already sleeps at the start of `queue_finish`, the signal reaches it: the next
-- step, whichever it is, makes it return NULL and leaves the queue as it was.
pub finish_wakes_sleeper :
    {s t u : System}
    → Reachable s
    → s.consumer ≡ waiting
    → s.finisher ≡ running
    → Step s t
    → t.finisher ≡ finishing
    → Step t u
    → (u.consumer ≡ leaving none) × (u.items ≡ s.items)
finish_wakes_sleeper r c f (finish e) g st =
    woken_step (ground arith) refl refl (ground (arith, (Reachable-Inv r).counted)) st
finish_wakes_sleeper r c f (push x e) g st = absurd (cc)
finish_wakes_sleeper r c f (enter e) g st = absurd (cc)
finish_wakes_sleeper r c f (take e i) g st = absurd (cc)
finish_wakes_sleeper r c f (wait e i) g st = absurd (cc)
finish_wakes_sleeper r c f (spurious e) g st = absurd (cc)
finish_wakes_sleeper r c f (wake_done e h) g st = absurd (cc)
finish_wakes_sleeper r c f (wake_take e h i) g st = absurd (cc)
finish_wakes_sleeper r c f (wake_wait e h i) g st = absurd (cc)
finish_wakes_sleeper r c f (leave e) g st = absurd (cc)
finish_wakes_sleeper r c f (finish_return e n) g st = absurd (cc)
