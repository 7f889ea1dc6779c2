-- ===== src/TcpServer/Deliver.antt =====
-- tcpserver.c: what `tcpserver_send_bytes_client` and `tcpserver_send_bytes_clients` deliver.
use pd_iemnet.Prelude.{
  ℕ, ◌+◌, ◌^◌, ◌<◌, ◌≡◌, ◌≢◌, refl, sym, ◌∙◌, true, false, Option, some, List, [], ◌∷◌, ◌++◌, ◌==◌,
  arith, All, map,
}
use pd_iemnet.Prelude.Int.{is_neg}
use pd_iemnet.Chunk.{Chunk, af_inet}
use pd_iemnet.Chunk.Laws.{IsChunk, Ample}
use pd_iemnet.Queue.Fifo.{fill, fill-append, fill_state}
use pd_iemnet.Os.{Os}
use pd_iemnet.Sender.{Sender, sender_send}
use pd_iemnet.Sender.Laws.{send-queue}
use pd_iemnet.TcpServer.{Ptr, null, Conn, Conns, Server, update, emits}
use pd_iemnet.TcpServer.Send.{send_report, send_bytes_client, send_bytes_clients}
use pd_iemnet.TcpServer.Live.{Entry}

-- An entry whose connection has a sender that runs, with the chunks that wait in its queue.
pub record Sending (h : Conns) (e : Entry) (queue : List Chunk) : Type 0 where
  pub conn : Conn
  pub at : h e.0 ≡ some conn
  pub socket : conn.fd ≡ e.1
  pub owned : conn.owned ≡ true
  pub sender : Sender
  pub has : conn.sender ≡ some sender
  pub waits : sender.queue ≡ some queue
  pub running : sender.isrunning ≡ true

-- The copy that `iemnet__sender_send` makes.
abbrev pub copy : Chunk → Chunk
copy c = record c { family = af_inet }

-- A queue has room for `n` bytes more, so that its fill state stays an `int`.
abbrev pub Fits : ℕ → List Chunk → Type 0
Fits n queue = fill queue + n < 2 ^ 31

pub fill_state-Fits :
    (queue : List Chunk) (c : Chunk)
    → Fits c.size queue
    → is_neg (fill_state (queue ++ c ∷ [])) ≡ false
fill_state-Fits queue c f = ground (arith, fill-append queue (c ∷ []))

-- The connection with the chunk in the queue of its sender.
abbrev loaded : Conn → Sender → List Chunk → Chunk → Conn
loaded conn s queue c = record conn {
  sender = some (record s { queue = some (queue ++ copy c ∷ []) });
}

send_one :
    (os : Os) (x : Server) (e : Entry) (i : ℕ) (c : Chunk) (queue : List Chunk)
    → Ample os.malloc
    → IsChunk c
    → e.0 ≢ null
    → Fits c.size queue
    → (s : Sending x.heap e queue)
    → send_bytes_client os x e.0 i (some c)
      ≡ some (
          emits
            (record x { heap = update x.heap e.0 (some (loaded s.conn s.sender queue c)) })
            (send_report i (fill_state (queue ++ copy c ∷ [])) s.conn.fd))
unfolding send_bytes_client
send_one os x e i c queue a v n f s =
    let present : (e.0 == null) ≡ false = ground (arith, n) in
    let sent : sender_send os.malloc s.sender (some c) ≡ (
      fill_state (queue ++ copy c ∷ []),
      record s.sender { queue = some (queue ++ copy c ∷ []) },
    ) =
      send-queue os.malloc s.sender queue c a v s.waits ∙ rw s.running refl in
    rw (present, s.at, s.has, sent, fill_state-Fits queue (copy c) f) refl

-- The entries to send to, each with what waits for it.
abbrev pub Job : Type 0
Job = Entry × List Chunk

abbrev pub entries : List Job → List Entry
entries = map (λ j. j.0)

abbrev pub targets : List Job → List Ptr
targets = map (λ j. j.0.0)

abbrev pub AllSending : Conns → List Job → Type 0
AllSending h = All (λ j. Sending h j.0 j.1)

-- What waits after `c` has been sent to all.
abbrev pub with_chunk : Chunk → List Job → List Job
with_chunk c = map (λ j. (j.0, j.1 ++ copy c ∷ []))

-- The pointers are different from each other, and not NULL.
abbrev pub Apart : List Job → Type 0
Apart [] = Unit {0}
Apart (j ∷ js) = (j.0.0 ≢ null) × All (λ k. j.0.0 ≢ k.0.0) js × Apart js

-- The server `y` is `x` but for the connections of the jobs, and its log.
pub record Frame (x y : Server) (js : List Job) : Type 0 where
  pub others : (p : Ptr) → All (λ j. j.0.0 ≢ p) js → y.heap p ≡ x.heap p
  pub sr : y.sr ≡ x.sr
  pub nconnections : y.nconnections ≡ x.nconnections
  pub maxconnections : y.maxconnections ≡ x.maxconnections
  pub defaulttarget : y.defaulttarget ≡ x.defaulttarget

-- Another server in which the entry is the same.
Sending-same :
    (h k : Conns) (e : Entry) (queue : List Chunk)
    → k e.0 ≡ h e.0
    → Sending h e queue
    → Sending k e queue
Sending-same h k e queue same s = record {
  conn = s.conn;
  at = same ∙ s.at;
  socket = s.socket;
  owned = s.owned;
  sender = s.sender;
  has = s.has;
  waits = s.waits;
  running = s.running;
}

AllSending-update :
    (h : Conns) (p : Ptr) (c : Option Conn) (js : List Job)
    → All (λ j. p ≢ j.0.0) js
    → AllSending h js
    → AllSending (update h p c) js
unfolding update
AllSending-update h p c [] n s = tt
AllSending-update h p c (j ∷ js) n s = (
  Sending-same h (update h p c) j.0 j.1 (ground (arith, n.0)) s.0,
  AllSending-update h p c js n.1 s.1,
)

flip_ne : (p : Ptr) (js : List Job) → All (λ j. p ≢ j.0.0) js → All (λ j. j.0.0 ≢ p) js
flip_ne p [] n = tt
flip_ne p (j ∷ js) n = (λ q. n.0 (sym q), flip_ne p js n.1)

-- The pointers of the jobs, with NULL pointers in between.
pub data Gapped : List Ptr → List Job → Type 0 where
  nil : Gapped [] []
  skip : {ts : List Ptr} {js : List Job} → Gapped ts js → Gapped (null ∷ ts) js
  keep : {ts : List Ptr} {js : List Job} (j : Job) → Gapped ts js → Gapped (j.0.0 ∷ ts) (j ∷ js)

abbrev pub Delivered : Server → Chunk → List Job → Option Server → Type 0
Delivered x c js r =
    (y : Server) × (r ≡ some y) × AllSending y.heap (with_chunk c js) × Frame x y js

send_skips :
    (os : Os) (x : Server) (ts : List Ptr) (i : ℕ) (c : Option Chunk)
    → send_bytes_clients os x (null ∷ ts) i c ≡ send_bytes_clients os x ts (i + 1) c
unfolding send_bytes_clients send_bytes_client
send_skips os x ts i c = refl

-- Sending to entries that stand apart queues the chunk once for each of them, behind what waits, and
-- changes nothing else.
pub send_bytes_clients-delivers :
    (os : Os) (x : Server) (i : ℕ) (c : Chunk) {ts : List Ptr} {js : List Job}
    → Gapped ts js
    → Ample os.malloc
    → IsChunk c
    → Apart js
    → All (λ j. Fits c.size j.1) js
    → AllSending x.heap js
    → Delivered x c js (send_bytes_clients os x ts i (some c))
unfolding send_bytes_clients update
send_bytes_clients-delivers os x i c (skip {ts} {js} g) a v d f s =
    rw (send_skips os x ts i (some c)) (send_bytes_clients-delivers os x (i + 1) c g a v d f s)
send_bytes_clients-delivers os x i c nil a v d f s = (
  x,
  refl,
  tt,
  record {
    others = λ p n. refl;
    sr = refl;
    nconnections = refl;
    maxconnections = refl;
    defaulttarget = refl;
  },
)
send_bytes_clients-delivers os x i c (keep {ts} {js} j g) a v d f s =
    let (ne, away, apart) = d in
    let h = s.0 in
    let conn = loaded h.conn h.sender j.1 c in
    let x' =
      emits (record x { heap = update x.heap j.0.0 (some conn) })
        (send_report i (fill_state (j.1 ++ copy c ∷ [])) h.conn.fd) in
    let rest : AllSending x'.heap js = AllSending-update x.heap j.0.0 (some conn) js away s.1 in
    let (y, e, t, fr) = send_bytes_clients-delivers os x' (i + 1) c g a v apart f.1 rest in
    let mine : y.heap j.0.0 ≡ some conn = fr.others j.0.0 (flip_ne j.0.0 js away) ∙ ground arith in
    (
      y,
      rw (send_one os x j.0 i c j.1 a v ne f.0 h) e,
      (
        record {
          conn = conn;
          at = mine;
          socket = h.socket;
          owned = h.owned;
          sender = record h.sender { queue = some (j.1 ++ copy c ∷ []) };
          has = refl;
          waits = refl;
          running = h.running;
        },
        t,
      ),
      record {
        others = λ p n. fr.others p n.1 ∙ ground (arith, n.0);
        sr = fr.sr;
        nconnections = fr.nconnections;
        maxconnections = fr.maxconnections;
        defaulttarget = fr.defaulttarget;
      },
    )
