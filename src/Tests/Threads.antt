-- ===== src/Tests/Threads.antt =====
-- iemnet_sender.c: runs of a sender's two threads.
use pd_iemnet.Prelude.{ℕ, ◌≡◌, refl, [], ◌∷◌, ◌++◌, Bool, true, false, ◌⊎◌}
use pd_iemnet.Chunk.{Chunk, af_inet}
use pd_iemnet.Queue.Threads.{outside, waiting, enter, take, wait, wake_done}
use pd_iemnet.Queue.Threads.Order.{in_flight}
use pd_iemnet.Sender.Threads.{
  ended, finishing_loop, System, Step, Steps, here, next, Reachable, keep, stop, return, pop,
  popped, send_none, accept, push, destroy, finish, unlock, lock, loop_ends, finish_last,
  finished_last, join,
}
use pd_iemnet.Sender.Threads.Order.{in_hand, send_order}
use pd_iemnet.Sender.Threads.Destroy.{Hung, destroyed-final, destroy_hangs}
use pd_iemnet.Sender.Threads.Progress.{at_finish, Goes, destroy_progress}

abbrev bytes_of : ℕ → Chunk
bytes_of n = record { bytes = n ∷ []; size = 1; addr = 0; port = 0; family = af_inet }

abbrev accepts_all : Chunk → Bool
accepts_all c = true

abbrev Run : Type 0
Run = (s : System) × Reachable accepts_all s

abbrev has_entered : Run
has_entered = (_, next (next here (keep refl refl refl)) (pop refl (enter refl) refl))

-- Two chunks are pushed, and the thread takes the first.
abbrev has_taken : Run
has_taken = (
  _,
  next
      (next
        (next (next (next has_entered.1 (accept (bytes_of 1) refl refl)) (push refl))
          (accept (bytes_of 2) refl refl))
        (push refl))
      (pop refl (take refl refl) refl),
)

abbrev in_hands : Run
in_hands = (_, next has_taken.1 (popped refl refl))

send_order_example :
    in_hands.0.sent
      ++ (in_hand in_hands.0.thread
          ++ (in_flight in_hands.0.queue.consumer ++ in_hands.0.queue.items))
    ≡ bytes_of 1 ∷ bytes_of 2 ∷ []
send_order_example = send_order in_hands.1

-- The thread sleeps in the queue when it is told to end.
abbrev told : Run
told = (
  _,
  next (next (next has_entered.1 (pop refl (wait refl refl) refl)) (destroy refl refl))
      (finish refl refl),
)

abbrev back : Run
back = (
  _,
  next
      (next (next (next told.1 (pop refl (wake_done refl refl) refl)) (popped refl refl))
        (unlock refl refl))
      (send_none refl),
)

abbrev is_destroyed : Run
is_destroyed = (
  _,
  next
      (next
        (next
          (next (next (next (next back.1 (stop refl refl refl)) (return refl)) (lock refl))
            (loop_ends refl refl))
          (finish_last refl))
        (finished_last refl refl))
      (join refl refl),
)

destroyed-final_example :
    (is_destroyed.0.thread ≡ ended)
    × (is_destroyed.0.isrunning ≡ false)
    × (is_destroyed.0.queue.consumer ≡ outside)
    × (is_destroyed.0.queue.used ≡ 0)
    × ((t : System) → ¬ (Step accepts_all is_destroyed.0 t))
destroyed-final_example = destroyed-final is_destroyed.1 refl

destroy_hangs_example : (t : System) × Steps accepts_all has_entered.0 t × Hung accepts_all t
destroy_hangs_example = destroy_hangs has_entered.1 refl refl refl refl refl

destroy_progress_example :
    ((told.0.main ≡ finishing_loop) × (told.0.queue.consumer ≡ waiting)) ⊎ Goes accepts_all told.0
destroy_progress_example = destroy_progress told.1 at_finish
