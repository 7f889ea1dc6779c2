-- ===== src/Os.antt =====
-- What the objects take from the operating system and from Pd, and what they do to them.
use pd_iemnet.Prelude.{ℕ, Bool, Option, List, [], ◌∷◌, if◌then◌else◌}
use pd_iemnet.Prelude.Int.{ℤ, is_neg}
use pd_iemnet.Chunk.{Memory}
use pd_iemnet.Output.{Message, SockAddr}

-- `spawn` says whether a thread can be created for a socket, `fresh` what new memory holds and
-- `sockname` what `getsockname` answers.
pub record Os : Type 0 where
  pub malloc : Memory
  pub spawn : ℤ → Bool
  pub fresh : ℕ → List ℕ
  pub sockname : ℤ → Option SockAddr

-- What an object does outside itself, in order: messages to outlets, `pthread_join` of a sender's
-- thread, `sys_addpollfn`, `sys_rmpollfn`, and `shutdown` with `sys_closesocket`. The objects of one
-- socket and `tcpreceive` also record where they get a socket, from `socket` or `accept`, and where
-- the thread of a sender starts.
pub data Effect : Type 0 where
  out : Message → Effect
  join_sender : ℤ → Effect
  add_poll : ℤ → Effect
  rm_poll : ℤ → Effect
  close_socket : ℤ → Effect
  open_socket : ℤ → Effect
  start_sender : ℤ → Effect

abbrev pub outs : List Message → List Effect
outs [] = []
outs (m ∷ ms) = out m ∷ outs ms

unfoldable pub iemnet_closesocket : ℤ → List Effect
iemnet_closesocket sockfd = if is_neg sockfd then [] else (close_socket sockfd ∷ [])
