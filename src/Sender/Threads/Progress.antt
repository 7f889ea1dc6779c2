-- ===== src/Sender/Threads/Progress.antt =====
-- iemnet_sender.c: how a call of `iemnet__sender_destroy` goes on.
use pd_iemnet.Prelude.{false, ◌∷◌, inr, inl, List, ◌⊎◌, Bool-cases, ◌≡◌, ◌≢◌, refl, Bool, [], arith}
use pd_iemnet.Chunk.{Chunk}
use pd_iemnet.Queue.Threads.{Consumer, leaving, outside, entered, waiting, woken}
use pd_iemnet.Queue.Threads as Queue
use pd_iemnet.Queue.Threads.Order as QueueOrder
use pd_iemnet.Sender.Threads.{
  Thread, returning, return, ended, Main, idle, looping, finishing_loop, unlocked, behind_loop,
  finishing_last, pushing, joining, destroyed, System, Step, pop, popped, finish, unlock, lock,
  loop_ends, finish_last, finished_last, join, Reachable,
}
use pd_iemnet.Sender.Threads.Order.{works, Inv, Reachable-Inv}

-- A call of `iemnet__sender_destroy` is open.
pub data Destroying : Main → Type 0 where
  at_test : Destroying looping
  at_finish : Destroying finishing_loop
  at_unlock : Destroying unlocked
  at_end : Destroying behind_loop
  at_last : Destroying finishing_last
  at_join : Destroying joining

-- Somebody can go on: the main thread, or the thread without being woken for nothing.
abbrev pub Goes : (Chunk → Bool) → System → Type 0
Goes dosend s = (t : System) × Step dosend s t × ((t.main ≢ s.main) ⊎ (s.queue.consumer ≢ waiting))

queue-Goes :
    {dosend : Chunk → Bool} {s : System}
    → Inv s
    → s.main ≡ finishing_loop
    → (k : Consumer) (xs : List Chunk) → s.queue.consumer ≡ k
    → s.queue.items ≡ xs
    → (s.queue.consumer ≡ waiting) ⊎ Goes dosend s
queue-Goes v m waiting xs e i = inl e
queue-Goes v m outside xs e i = inr (
  _,
  unlock m (ground (arith, (QueueOrder.Reachable-Inv v.reached).counted)),
  inr (λ w. absurd (cc)),
)
queue-Goes v m entered [] e i =
    inr (_, pop (ground (arith, v.place)) (Queue.wait e i) refl, inr (λ w. absurd (cc)))
queue-Goes v m entered (c ∷ cs) e i =
    inr (_, pop (ground (arith, v.place)) (Queue.take e i) refl, inr (λ w. absurd (cc)))
queue-Goes v m woken xs e i = inr (
  _,
  pop (ground (arith, v.place))
      (Queue.wake_done e (ground (arith, v.stage, (QueueOrder.Reachable-Inv v.reached).closed)))
      refl,
  inr (λ w. absurd (cc)),
)
queue-Goes v m (leaving r) xs e i =
    inr (_, popped (ground (arith, v.place)) e, inr (λ w. absurd (cc)))

test-Goes : {dosend : Chunk → Bool} {s : System} → s.main ≡ looping → Goes dosend s
test-Goes {s = s} m = elim (Bool-cases s.isrunning) [
  | inl r ↦ (_, finish m r, inl (λ e. absurd (cc)))
  | inr r ↦ (_, loop_ends m r, inl (λ e. absurd (cc)))
]

join-Goes : {dosend : Chunk → Bool} {s : System} → Inv s → s.main ≡ joining → Goes dosend s
join-Goes {s = s} v m =
    let behind : (s.thread ≡ returning) ⊎ (s.thread ≡ ended) =
      ended_or s.thread (ground (arith, v.joined)) in
    elim behind [
      | inl b ↦ (_, return b, inr (λ w. absurd (ground (arith, v.place))))
      | inr b ↦ (_, join m b, inl (λ e. absurd (cc)))
    ]
  where
    ended_or : (t : Thread) → works t ≡ false → (t ≡ returning) ⊎ (t ≡ ended)
    ended_or t h = ground arith

-- The lost wake-up is the only way to hang: in every reachable state with an open call of
-- `iemnet__sender_destroy`, either the main thread waits in `queue_finish` with `mtx` while the
-- thread sleeps in the queue, or somebody can go on without a spurious wake-up.
pub destroy_progress :
    {dosend : Chunk → Bool} {s : System}
    → Reachable dosend s
    → Destroying s.main
    → ((s.main ≡ finishing_loop) × (s.queue.consumer ≡ waiting)) ⊎ Goes dosend s
destroy_progress {s = s} r d = goes (Reachable-Inv r) s.main refl d
  where
    goes :
        {dosend : Chunk → Bool} {s : System}
        → Inv s
        → (m : Main) → s.main ≡ m
        → Destroying m
        → ((s.main ≡ finishing_loop) × (s.queue.consumer ≡ waiting)) ⊎ Goes dosend s
    goes v looping m at_test = inr (test-Goes m)
    goes {s = s} v finishing_loop m at_finish =
        elim (queue-Goes v m s.queue.consumer s.queue.items refl refl) [
          | inl w ↦ inl (m, w)
          | inr g ↦ inr g
        ]
    goes v unlocked m at_unlock = inr (_, lock m, inl (λ e. absurd (cc)))
    goes v behind_loop m at_end = inr (_, finish_last m, inl (λ e. absurd (cc)))
    goes {s = s} v finishing_last m at_last = inr (
      _,
      finished_last m
          (ground (arith, v.joined, v.place, (QueueOrder.Reachable-Inv v.reached).counted)),
      inl (λ e. absurd (cc)),
    )
    goes v idle m d = elim d [ ]
    goes v (pushing c) m d = elim d [ ]
    goes v destroyed m d = elim d [ ]
    goes v joining m at_join = inr (join-Goes v m)
