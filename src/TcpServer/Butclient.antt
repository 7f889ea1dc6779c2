-- ===== src/TcpServer/Butclient.antt =====
-- tcpserver.c: what reaches the clients when a message is sent to all but one.
use pd_iemnet.Prelude.{
  suc, ◌+◌, ◌<◌, ◌≡◌, ◌≢◌, ap, sym, ◌∙◌, true, false, some, List, [], ◌∷◌, ◌++◌, ◌==◌, arith, All,
  length, length-map, ltb, length-append, set,
}
use pd_iemnet.Output.{Atom}
use pd_iemnet.Chunk.{Chunk}
use pd_iemnet.Chunk.Laws.{Ample, create_list-some}
use pd_iemnet.Os.{Os}
use pd_iemnet.TcpServer.{null, Conns, Server}
use pd_iemnet.TcpServer.Send.{send_butclient}
use pd_iemnet.TcpServer.Live.{ptrs, Live, Alone, Inv}
use pd_iemnet.TcpServer.Deliver.{
  Gapped, skip, keep, Job, entries, targets, AllSending, with_chunk, Apart, Fits,
  send_bytes_clients-delivers,
}
use pd_iemnet.TcpServer.Broadcast.{
  message, message-IsChunk, Apart-entries, Live-with_chunk, snapshot-ptrs, ptrs-entries, Frame-Inv,
  all_kept,
}

Live-gap :
    (h k : Conns) (c : Chunk) (ls : List Job) (out : Job) (rs : List Job)
    → Live h (entries (ls ++ out ∷ rs))
    → AllSending k (with_chunk c (ls ++ rs))
    → k out.0.0 ≡ h out.0.0
    → Live k (entries (ls ++ out ∷ rs))
Live-gap h k c [] out rs l s e = (
  record {
    conn = l.0.conn;
    ne_null = l.0.ne_null;
    at = e ∙ l.0.at;
    socket = l.0.socket;
    valid = l.0.valid;
    owned = l.0.owned;
  },
  l.1,
  Live-with_chunk h k c rs l.2 s,
)
Live-gap h k c (j ∷ ls) out rs l s e = (
  record {
    conn = s.0.conn;
    ne_null = l.0.ne_null;
    at = s.0.at;
    socket = s.0.socket;
    valid = l.0.valid;
    owned = s.0.owned;
  },
  l.1,
  Live-gap h k c ls out rs l.2 s.1 e,
)

away_gap :
    (j : Job) (ls : List Job) (out : Job) (rs : List Job)
    → Alone j.0 (entries (ls ++ out ∷ rs))
    → All (λ k. j.0.0 ≢ k.0.0) (ls ++ rs) × (j.0.0 ≢ out.0.0)
away_gap j [] out rs a = (away_all j rs a.1, a.0.0)
  where
    away_all : (j : Job) (js : List Job) → Alone j.0 (entries js) → All (λ k. j.0.0 ≢ k.0.0) js
    away_all j [] a = tt
    away_all j (k ∷ js) a = (a.0.0, away_all j js a.1)
away_gap j (k ∷ ls) out rs a = let (all, apart) = away_gap j ls out rs a.1 in ((a.0.0, all), apart)

Apart-gap :
    (h : Conns) (ls : List Job) (out : Job) (rs : List Job)
    → Live h (entries (ls ++ out ∷ rs))
    → Apart (ls ++ rs) × All (λ j. j.0.0 ≢ out.0.0) (ls ++ rs)
Apart-gap h [] out rs l = (Apart-entries h rs l.2, others rs l.1)
  where
    others : (js : List Job) → Alone out.0 (entries js) → All (λ j. j.0.0 ≢ out.0.0) js
    others [] a = tt
    others (k ∷ js) a = (λ q. a.0.0 (sym q), others js a.1)
Apart-gap h (j ∷ ls) out rs l =
    let (apart, others) = Apart-gap h ls out rs l.2 in
    let (all, ne) = away_gap j ls out rs l.1 in ((l.0.ne_null, all, apart), (ne, others))

gap_kept : (ls rs : List Job) → Gapped (targets ls ++ null ∷ targets rs) (ls ++ rs)
gap_kept [] rs = skip (all_kept rs)
gap_kept (j ∷ ls) rs = keep j (gap_kept ls rs)

set_gap :
    (ls : List Job) (out : Job) (rs : List Job)
    → set (ptrs (entries (ls ++ out ∷ rs))) (length ls) null ≡ targets ls ++ null ∷ targets rs
set_gap [] out rs = ap (λ l. null ∷ l) (ptrs-entries rs)
set_gap (j ∷ ls) out rs = ap (λ l. j.0.0 ∷ l) (set_gap ls out rs)

length-entries :
    (ls : List Job) (out : Job) (rs : List Job)
    → length (entries (ls ++ out ∷ rs)) ≡ length ls + suc (length rs)
length-entries ls out rs =
    length-map (ls ++ out ∷ rs) (λ (j : Job). j.0) ∙ length-append ls (out ∷ rs)

-- With memory for all that is asked for, a message of at least one atom to all clients but one is
-- queued once for each of the others, behind what waits in its sender, if the senders of the others
-- run and have room. The connection of that one stays as it was, whether its sender runs or not, the
-- table of connections stays as it is, and nothing faults.
pub send_butclient-delivers :
    (os : Os) (x : Server) (ls : List Job) (out : Job) (rs : List Job) (argv : List Atom)
    → Inv x (entries (ls ++ out ∷ rs))
    → Ample os.malloc
    → 0 < length argv
    → All (λ j. Fits (length argv) j.1) (ls ++ rs)
    → AllSending x.heap (ls ++ rs)
    → (y : Server) × (send_butclient os x (length ls) argv ≡ some y)
      × Inv y (entries (ls ++ out ∷ rs))
      × AllSending y.heap (with_chunk (message argv) (ls ++ rs))
      × (y.heap out.0.0 ≡ x.heap out.0.0)
unfolding send_butclient
send_butclient-delivers os x ls out rs argv v a n f s =
    let (apart, others) = Apart-gap x.heap ls out rs v.live in
    let (y, e, d, fr) =
      send_bytes_clients-delivers os x 0 (message argv) (gap_kept ls rs) a (message-IsChunk argv n)
        apart f s in
    let some_there : (x.nconnections == 0) ≡ false =
      ground (arith, v.count, length-entries ls out rs) in
    let inside : ltb (length ls) x.nconnections ≡ true =
      ground (arith, v.count, length-entries ls out rs) in
    let same = fr.others out.0.0 others in
    (
      y,
      rw
          (
            some_there,
            create_list-some os.malloc a argv n,
            snapshot-ptrs os x (entries (ls ++ out ∷ rs)) a v,
            inside,
            set_gap ls out rs,
          )
          e,
      Frame-Inv x y (entries (ls ++ out ∷ rs)) (ls ++ rs) fr
          (Live-gap x.heap y.heap (message argv) ls out rs v.live d same) v,
      d,
      same,
    )
