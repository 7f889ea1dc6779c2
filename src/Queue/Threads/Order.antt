-- ===== src/Queue/Threads/Order.antt =====
-- iemnet_data.c: what every interleaving of the queue's threads keeps.
use mathlib.Core.List.{append_assoc, append-nil}
use mathlib.Core.Path.{subst}
use pd_iemnet.Prelude.{
  ℕ, ◌≡◌, refl, ap, sym, ◌∙◌, Bool, true, false, none, some, List, [], ◌∷◌, ◌++◌, arith,
}
use pd_iemnet.Chunk.{Chunk}
use pd_iemnet.Queue.Threads.{
  Consumer, outside, leaving, Finisher, running, System, signal, Step, push, enter, take, wait,
  spurious, wake_done, wake_take, wake_wait, leave, finish, finish_return, Steps, here, next,
  Reachable,
}

-- The chunk that the consumer has taken and not yet returned.
abbrev pub in_flight : Consumer → List Chunk
in_flight (leaving (some c)) = c ∷ []
in_flight _ = []

abbrev pub inside : Consumer → ℕ
inside outside = 0
inside _ = 1

abbrev pub is_finishing : Finisher → Bool
is_finishing running = false
is_finishing _ = true

pub record Inv (s : System) : Type 0 where
  pub order : s.popped ++ (in_flight s.consumer ++ s.items) ≡ s.pushed
  pub counted : s.used ≡ inside s.consumer
  pub closed : s.done ≡ is_finishing s.finisher

flight-signal : (c : Consumer) → in_flight (signal c) ≡ in_flight c
flight-signal outside = refl
flight-signal _ = refl

inside-signal : (c : Consumer) → inside (signal c) ≡ inside c
inside-signal outside = refl
inside-signal _ = refl

Step-Inv : {s t : System} → Step s t → Inv s → Inv t
Step-Inv {s} (push c r) v = record {
  order = rw (flight-signal s.consumer) (
      ap (λ l. s.popped ++ l) (sym (append_assoc (in_flight s.consumer) s.items (c ∷ [])))
      ∙ sym (append_assoc s.popped (in_flight s.consumer ++ s.items) (c ∷ []))
      ∙ ap (λ l. l ++ c ∷ []) v.order);
  counted = rw (inside-signal s.consumer) v.counted;
  closed = v.closed;
}
Step-Inv {s} (finish r) v = record {
  order = rw (flight-signal s.consumer) v.order;
  counted = rw (inside-signal s.consumer) v.counted;
  closed = refl;
}
Step-Inv {s} (leave {r = none} e) v = ground (arith, append-nil s.popped)
Step-Inv {s} (leave {r = some c} e) v = record {
  order =
      append_assoc s.popped (c ∷ []) s.items
      ∙ subst (λ k. s.popped ++ (in_flight k ++ s.items) ≡ s.pushed) e v.order;
  counted = ground arith;
  closed = v.closed;
}
Step-Inv (enter e) v = ground arith
Step-Inv (take e i) v = ground arith
Step-Inv (wait e i) v = ground arith
Step-Inv (spurious e) v = ground arith
Step-Inv (wake_done e d) v = ground arith
Step-Inv (wake_take e d i) v = ground arith
Step-Inv (wake_wait e d i) v = ground arith
Step-Inv (finish_return e u) v = ground arith

Steps-Inv : {s t : System} → Inv s → Steps s t → Inv t
Steps-Inv v here = v
Steps-Inv v (next r st) = Step-Inv st (Steps-Inv v r)

-- In every interleaving of pushes, a consumer and a finish, the chunks that the consumer has
-- returned, the one that it is about to return, and those in the queue are the pushed chunks in the
-- order of their pushes: none is lost, doubled or overtaken.
pub fifo_order :
    {s : System} → Reachable s → s.popped ++ (in_flight s.consumer ++ s.items) ≡ s.pushed
fifo_order r = (Steps-Inv (record { order = refl; counted = refl; closed = refl }) r).order

pub Reachable-Inv : {s : System} → Reachable s → Inv s
Reachable-Inv r = Steps-Inv (record { order = refl; counted = refl; closed = refl }) r
