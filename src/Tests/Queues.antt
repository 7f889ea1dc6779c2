-- ===== src/Tests/Queues.antt =====
-- iemnet_data.c: the queue and its threads at concrete inputs.
use pd_iemnet.Prelude.{◌≡◌, refl, some, [], ◌∷◌, arith, suc, length}
use pd_iemnet.Chunk.{Chunk, af_inet}
use pd_iemnet.Queue.{Queue, queue_create, queue_push, queue_pop_noblock, queue_destroy}
use pd_iemnet.Queue.Fifo.{
  IsQueue, IsFresh, Pushed, Popped, create-IsQueue, push-IsQueue, pop-IsQueue, destroy-chunks,
}

abbrev hello : Chunk
hello = record { bytes = 104 ∷ 105 ∷ []; size = 2; addr = 0; port = 0; family = af_inet }

empty-IsFresh : IsFresh queue_create 8
unfolding queue_create
empty-IsFresh = record { ne_null = ground arith; unused = refl }

push-IsQueue_example : Pushed queue_create [] hello (queue_push queue_create 8 (some hello))
push-IsQueue_example = push-IsQueue queue_create 8 hello [] create-IsQueue empty-IsFresh

one_chunk : (q : Queue) × IsQueue q (hello ∷ [])
one_chunk =
    let (q, _, v, _) = push-IsQueue queue_create 8 hello [] create-IsQueue empty-IsFresh in (q, v)

pop-IsQueue_example : Popped one_chunk.0 (hello ∷ []) (queue_pop_noblock one_chunk.0)
pop-IsQueue_example = pop-IsQueue one_chunk.0 (hello ∷ []) one_chunk.1

destroy-chunks_example :
    (q : Queue) × (queue_destroy (suc (length (hello ∷ []))) one_chunk.0 ≡ some (hello ∷ [], q))
    × IsQueue q []
destroy-chunks_example = destroy-chunks one_chunk.0 (hello ∷ []) one_chunk.1
