-- ===== src/TcpServer/Broadcast.antt =====
-- tcpserver.c: what reaches the clients when a message is sent to all.
use pd_iemnet.Prelude.{
  ◌*◌, ◌<◌, ◌≡◌, ◌≢◌, refl, ap, sym, ◌∙◌, true, false, some, List, [], ◌∷◌, ◌==◌, arith, All,
  length, take, replicate, length-map, take-append, leb, length-append,
}
use pd_iemnet.Prelude.Int.{to_byte}
use pd_iemnet.Output.{Atom}
use pd_iemnet.Chunk.{Chunk, af_inet, atom_getint}
use pd_iemnet.Chunk.Loops.{bytes_of}
use pd_iemnet.Chunk.Laws.{IsChunk, Ample, bytes_of-small, create_list-some}
use pd_iemnet.Os.{Os}
use pd_iemnet.TcpServer.{null, Conns, Server}
use pd_iemnet.TcpServer.Send.{snapshot, broadcast}
use pd_iemnet.TcpServer.Live.{Entry, ptrs, Live, Alone, Inv}
use pd_iemnet.TcpServer.Deliver.{
  Gapped, nil, keep, Job, entries, targets, AllSending, with_chunk, Apart, Frame, Fits,
  send_bytes_clients-delivers,
}

-- The chunk of a message.
abbrev pub message : List Atom → Chunk
message argv = record {
  bytes = bytes_of argv;
  size = length argv;
  addr = 0;
  port = 0;
  family = af_inet;
}

pub message-IsChunk : (argv : List Atom) → 0 < length argv → IsChunk (message argv)
message-IsChunk argv h = record {
  sized = length-map argv (λ a. to_byte (atom_getint a));
  filled = h;
  small = bytes_of-small argv;
}

pub Apart-entries : (h : Conns) (js : List Job) → Live h (entries js) → Apart js
Apart-entries h [] l = tt
Apart-entries h (j ∷ js) l = (l.0.ne_null, away j js l.1, Apart-entries h js l.2)
  where
    away : (j : Job) (js : List Job) → Alone j.0 (entries js) → All (λ k. j.0.0 ≢ k.0.0) js
    away j [] a = tt
    away j (k ∷ js) a = (a.0.0, away j js a.1)

pub Live-with_chunk :
    (h k : Conns) (c : Chunk) (js : List Job)
    → Live h (entries js)
    → AllSending k (with_chunk c js)
    → Live k (entries js)
Live-with_chunk h k c [] l s = tt
Live-with_chunk h k c (j ∷ js) l s = (
  record {
    conn = s.0.conn;
    ne_null = l.0.ne_null;
    at = s.0.at;
    socket = s.0.socket;
    valid = l.0.valid;
    owned = s.0.owned;
  },
  l.1,
  Live-with_chunk h k c js l.2 s.1,
)

pub snapshot-ptrs :
    (os : Os) (x : Server) (es : List Entry)
    → Ample os.malloc
    → Inv x es
    → snapshot os x ≡ some (ptrs es)
unfolding snapshot
snapshot-ptrs os x es a v =
    let plen : length (ptrs es) ≡ length es = length-map es (λ (o : Entry). o.0) in
    let fits : leb x.nconnections (length x.sr) ≡ true =
      ground (
        arith,
        v.count,
        plen,
        ap length v.array,
        length-append (ptrs es) (replicate v.room null),
      ) in
    let front : take x.nconnections x.sr ≡ ptrs es =
      ap (λ n. take n x.sr) (v.count ∙ sym plen)
      ∙ ap (take (length (ptrs es))) v.array
      ∙ take-append (ptrs es) (replicate v.room null) in
    rw (a (x.nconnections * 8), fits, front) refl

pub ptrs-entries : (js : List Job) → ptrs (entries js) ≡ targets js
ptrs-entries [] = refl
ptrs-entries (j ∷ js) = ap (λ l. j.0.0 ∷ l) (ptrs-entries js)

pub Frame-Inv :
    (x y : Server) (es : List Entry) (js : List Job)
    → Frame x y js
    → Live y.heap es
    → Inv x es
    → Inv y es
Frame-Inv x y es js f l v = record {
  room = v.room;
  array = f.sr ∙ v.array;
  count = f.nconnections ∙ v.count;
  cap = f.maxconnections ∙ v.cap;
  small = rw f.maxconnections v.small;
  live = l;
}

pub all_kept : (js : List Job) → Gapped (targets js) js
all_kept [] = nil
all_kept (j ∷ js) = keep j (all_kept js)

-- With memory for all that is asked for, a message of at least one atom to all clients reaches each of
-- them once: its bytes are queued behind what waits in the sender of every connection, if all of
-- these run and have room, the table of connections stays as it is, and nothing faults.
pub broadcast-delivers :
    (os : Os) (x : Server) (js : List Job) (argv : List Atom)
    → Inv x (entries js)
    → Ample os.malloc
    → 0 < length argv
    → All (λ j. Fits (length argv) j.1) js
    → AllSending x.heap js
    → (y : Server) × (broadcast os x argv ≡ some y)
      × Inv y (entries js)
      × AllSending y.heap (with_chunk (message argv) js)
unfolding broadcast
broadcast-delivers os x [] argv v a n f s = (x, rw v.count refl, v, tt)
broadcast-delivers os x (j ∷ js) argv v a n f s =
    let (y, e, d, fr) =
      send_bytes_clients-delivers os x 0 (message argv) (all_kept (j ∷ js)) a
        (message-IsChunk argv n) (Apart-entries x.heap (j ∷ js) v.live) f s in
    let some_there : (x.nconnections == 0) ≡ false = ground (arith, v.count) in
    (
      y,
      rw
          (
            some_there,
            create_list-some os.malloc a argv n,
            snapshot-ptrs os x (entries (j ∷ js)) a v,
            ptrs-entries (j ∷ js),
          )
          e,
      Frame-Inv x y (entries (j ∷ js)) (j ∷ js) fr
          (Live-with_chunk x.heap y.heap (message argv) (j ∷ js) v.live d) v,
      d,
    )
