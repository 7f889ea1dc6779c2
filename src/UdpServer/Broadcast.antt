-- ===== src/UdpServer/Broadcast.antt =====
-- udpserver.c: messages to all clients, or to all but one.
use pd_iemnet.Prelude.{
  ℕ, suc, ◌<◌, ◌≡◌, refl, ap, ◌∙◌, Option, some, none, List, [], ◌∷◌, ◌==◌, All, length, Bool-cases,
  inl, inr,
}
use pd_iemnet.Chunk.{chunk_create_list}
use pd_iemnet.Chunk.Laws.{Ample, create_list-some}
use pd_iemnet.Output.{Atom, set_float, statusout, outlet_anything}
use pd_iemnet.UdpServer.{Server, Env, emits}
use pd_iemnet.UdpServer.Send.{send_loop, send_butclient, broadcast}
use pd_iemnet.UdpServer.Autoremove.{survivors, autoremove-survivors}
use pd_iemnet.TcpServer.Broadcast.{message, message-IsChunk}
use pd_iemnet.Os.{Effect}
use pd_iemnet.UdpServer.Live.{Entry, Inv}
use pd_iemnet.UdpServer.Deliver.{Sending, Reached, Goal, send_loop-Reached}

log-Inv :
    (x : Server) (es : List Entry) (log : List Effect) → Inv x es → Inv (record x { log = log }) es
log-Inv x es log v = record {
  room = v.room;
  array = v.array;
  count = v.count;
  cap = v.cap;
  small = v.small;
  alive = v.alive;
}

-- The loop from the first client.
whole_loop :
    (env : Env) (x : Server) (es : List Entry) (but : Option ℕ) (argv : List Atom)
    → Inv x es
    → Ample env.os.malloc
    → 0 < length argv
    → All (λ e. Sending (length argv) e.1) es
    → Goal env x [] es but
        (message argv)
        (send_loop env (suc x.nconnections) 0 but x (chunk_create_list env.os.malloc argv))
whole_loop env x es but argv v a n s =
    let (y, fs, r, u, d) =
      send_loop-Reached env x [] es but (message argv) a (message-IsChunk argv n) s v in
    (
      y,
      fs,
      ap (λ k. send_loop env (suc k) 0 but x (chunk_create_list env.os.malloc argv)) v.count
          ∙ ap (send_loop env (suc (length es)) 0 but x) (create_list-some env.os.malloc a argv n)
          ∙ r,
      u,
      d,
    )

-- With memory for all that is asked for, a message of at least one atom to all clients but one is
-- queued for each of the others, behind what waits for it and with its address, if all senders run
-- and have room. The client with the given index keeps what it has, the table stays well-formed, and
-- nothing faults.
pub send_butclient-Reached :
    (env : Env) (x : Server) (es : List Entry) (but : ℕ) (argv : List Atom)
    → Inv x es
    → Ample env.os.malloc
    → 0 < length argv
    → All (λ e. Sending (length argv) e.1) es
    → (y : Server) × (fs : List Entry) × (send_butclient env x but argv ≡ some y)
      × Inv y fs
      × Reached (some but) (message argv) 0 es fs
unfolding send_butclient
send_butclient-Reached env x es but argv v a n s = whole_loop env x es (some but) argv v a n s

-- With memory for all that is asked for, a message of at least one atom to all clients first drops the
-- expired clients, and is then queued for each of those that are left, behind what waits for it and
-- with its address, if all their senders run and have room. The table stays well-formed, and nothing
-- faults then.
pub broadcast-Reached :
    (env : Env) (x : Server) (es : List Entry) (argv : List Atom)
    → Inv x es
    → Ample env.os.malloc
    → 0 < length argv
    → All (λ e. Sending (length argv) e.1) (survivors env x es)
    → (y : Server) × (fs : List Entry) × (broadcast env x argv ≡ some y)
      × Inv y fs
      × Reached none (message argv) 0 (survivors env x es) fs
unfolding broadcast
broadcast-Reached env x es argv v a n s =
    let (z, swept, w) = autoremove-survivors env x es v in
    let (y, fs, done, u, r) = whole_loop env z (survivors env x es) none argv w a n s in
    elim (Bool-cases (x.nconnections == y.nconnections)) [
      | inl same ↦ (y, fs, rw (swept, done, same) refl, u, r)
      | inr less ↦ (
        emits y (outlet_anything statusout "connections" (set_float y.nconnections ∷ []) ∷ []),
        fs,
        rw (swept, done, less) refl,
        log-Inv y fs _ u,
        r,
      )
    ]
