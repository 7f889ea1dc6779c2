-- ===== src/UdpServer/Deliver.antt =====
-- udpserver.c: what the loops of `udpserver_send_bytes` deliver.
use mathlib.Core.List.{append_assoc, append-nil}
use mathlib.Core.Path.{subst}
use pd_iemnet.Prelude.{
  ℕ, suc, ◌+◌, ◌<◌, ◌≡◌, refl, ap, sym, ◌∙◌, true, false, Option, some, List, [], ◌∷◌, ◌++◌, ◌==◌,
  arith, All, length, ltb, length-append, Bool-cases, inl, inr,
}
use pd_iemnet.Chunk.{Chunk}
use pd_iemnet.Chunk.Laws.{IsChunk, Ample}
use pd_iemnet.Queue.Fifo.{fill_state}
use pd_iemnet.Output.{float, set_float, statusout, outlet_anything}
use pd_iemnet.Sender.{Sender, sender_send}
use pd_iemnet.Sender.Laws.{send-queue}
use pd_iemnet.TcpServer.{null}
use pd_iemnet.TcpServer.Deliver.{copy, Fits, fill_state-Fits}
use pd_iemnet.UdpServer.{Client, Server, Env, emits, deref, store}
use pd_iemnet.UdpServer.Send.{send_chunk, send_to, send_bytes, is_but, send_loop}
use pd_iemnet.UdpServer.Live.{Entry, Inv, Alive-at}
use pd_iemnet.UdpServer.Replace.{slot-here, replace-Inv}

-- A client whose sender runs, with room for `n` bytes behind what waits in its queue.
pub record Sending (n : ℕ) (c : Client) : Type 0 where
  pub sender : Sender
  pub queue : List Chunk
  pub has : c.sender ≡ some sender
  pub waits : sender.queue ≡ some queue
  pub running : sender.isrunning ≡ true
  pub fits : Fits n queue

-- The chunk with the address of a client.
abbrev pub addressed : Chunk → Client → Chunk
addressed chunk c = record chunk { addr = c.host; port = c.port }

abbrev pub with_queue : Client → Sender → List Chunk → Client
with_queue c s q = record c { sender = some (record s { queue = some q }) }

-- The clients of two tables, the second after a chunk was sent to all but one: each of the others has
-- it at the end of its queue, addressed to it, and nothing else is changed. The first client has index
-- `i`.
pub data Reached (but : Option ℕ) (chunk : Chunk) : ℕ → List Entry → List Entry → Type 0 where
  nil : {i : ℕ} → Reached but chunk i [] []
  kept :
      {i : ℕ} {es fs : List Entry} (e : Entry)
      → is_but but i ≡ true
      → Reached but chunk (i + 1) es fs
      → Reached but chunk i (e ∷ es) (e ∷ fs)
  sent :
      {i : ℕ} {es fs : List Entry} (e : Entry) (s : Sender) (q : List Chunk)
      → is_but but i ≡ false
      → e.1.sender ≡ some s
      → s.queue ≡ some q
      → Reached but chunk (i + 1) es fs
      → Reached but chunk i
          (e ∷ es)
          ((e.0, with_queue e.1 s (q ++ copy (addressed chunk e.1) ∷ [])) ∷ fs)

addressed-IsChunk : (chunk : Chunk) (c : Client) → IsChunk chunk → IsChunk (addressed chunk c)
addressed-IsChunk chunk c v = record { sized = v.sized; filled = v.filled; small = v.small }

send_bytes-Inv :
    (env : Env) (x : Server) (ls : List Entry) (e : Entry) (rs : List Entry) (chunk : Chunk)
    → Ample env.os.malloc
    → IsChunk chunk
    → (s : Sending chunk.size e.1) → Inv x (ls ++ e ∷ rs)
    → (y : Server) × (send_bytes env x (length ls) (some chunk) ≡ some y)
      × Inv y
          (ls ++ (e.0, with_queue e.1 s.sender (s.queue ++ copy (addressed chunk e.1) ∷ [])) ∷ rs)
unfolding send_bytes send_to send_chunk deref
send_bytes-Inv env x ls e rs chunk a v s w =
    let l = Alive-at x.heap ls e rs w.alive in
    let inside : ltb (length ls) x.maxconnections ≡ true =
      ground (arith, w.cap, length-append ls (e ∷ rs)) in
    let present : (e.0 == null) ≡ false = let ne = l.0 in ground (arith, ne) in
    let c = addressed chunk e.1 in
    let sent : sender_send env.os.malloc s.sender (some c) ≡ (
      fill_state (s.queue ++ copy c ∷ []),
      record s.sender { queue = some (s.queue ++ copy c ∷ []) },
    ) =
      send-queue env.os.malloc s.sender s.queue c a (addressed-IsChunk chunk e.1 v) s.waits
      ∙ rw s.running refl in
    let c' = with_queue e.1 s.sender (s.queue ++ copy c ∷ []) in
    let size = fill_state (s.queue ++ copy c ∷ []) in
    let y =
      emits (record x { heap = store x.heap e.0 (some c') })
        (outlet_anything statusout "sendbuffersize"
            (set_float (length ls + 1) ∷ float size ∷ set_float e.1.uniq ∷ [])
          ∷ []) in
    (
      y,
      rw
          (
            inside,
            slot-here x ls e rs w,
            present,
            l.1,
            s.has,
            sent,
            fill_state-Fits s.queue (copy c) s.fits,
          )
          refl,
      replace-Inv x ls e rs c' y.log w,
    )

send_loop_kept :
    (env : Env) (x : Server) (n i : ℕ) (but : Option ℕ) (chunk : Chunk)
    → i < x.nconnections
    → is_but but i ≡ true
    → send_loop env (suc n) i but x (some chunk) ≡ send_loop env n (i + 1) but x (some chunk)
unfolding send_loop
send_loop_kept env x n i but chunk h k =
    let more : ltb i x.nconnections ≡ true = ground arith in rw (more, k) refl

send_loop_sent :
    (env : Env) (x y : Server) (n i : ℕ) (but : Option ℕ) (chunk : Chunk)
    → i < x.nconnections
    → is_but but i ≡ false
    → send_bytes env x i (some chunk) ≡ some y
    → send_loop env (suc n) i but x (some chunk) ≡ send_loop env n (i + 1) but y (some chunk)
unfolding send_loop
send_loop_sent env x y n i but chunk h k e =
    let more : ltb i x.nconnections ≡ true = ground arith in rw (more, k, e) refl

send_loop_ends :
    (env : Env) (x : Server) (n i : ℕ) (but : Option ℕ) (c : Option Chunk)
    → i ≡ x.nconnections
    → send_loop env (suc n) i but x c ≡ some x
unfolding send_loop
send_loop_ends env x n i but c h =
    let more : ltb i x.nconnections ≡ false = ground arith in rw more refl

abbrev pub Goal : Env → Server → (ls rs : List Entry) → Option ℕ → Chunk → Option Server → Type 0
Goal env x ls rs but chunk r =
    (y : Server) × (fs : List Entry) × (r ≡ some y)
    × Inv y (ls ++ fs)
    × Reached but chunk (length ls) rs fs

-- The loop from the client behind `ls`.
pub send_loop-Reached :
    (env : Env) (x : Server) (ls rs : List Entry) (but : Option ℕ) (chunk : Chunk)
    → Ample env.os.malloc
    → IsChunk chunk
    → All (λ e. Sending chunk.size e.1) rs
    → Inv x (ls ++ rs)
    → Goal env x ls rs but chunk (send_loop env (suc (length rs)) (length ls) but x (some chunk))
send_loop-Reached env x ls [] but chunk a v s w = (
  x,
  [],
  send_loop_ends env x 0 (length ls) but (some chunk)
      (omega (arith, w.count, ap length (append-nil ls))),
  w,
  nil,
)
send_loop-Reached env x ls (e ∷ rs) but chunk a v s w =
    let next : length (ls ++ e ∷ []) ≡ length ls + 1 = length-append ls (e ∷ []) in
    let below : length ls < x.nconnections = ground (arith, w.count, length-append ls (e ∷ rs)) in
    elim (Bool-cases (is_but but (length ls))) [
      | inl k ↦
          let (y, fs, r, w', d) =
            send_loop-Reached env x (ls ++ e ∷ []) rs but chunk a v s.1
              (subst (Inv x) (sym (append_assoc ls (e ∷ []) rs)) w) in
          (
            y,
            e ∷ fs,
            send_loop_kept env x (suc (length rs)) (length ls) but chunk below k
                ∙ (ap (λ i. send_loop env (suc (length rs)) i but x (some chunk)) (sym next) ∙ r),
            subst (Inv y) (append_assoc ls (e ∷ []) fs) w',
            kept e k (subst (λ i. Reached but chunk i rs fs) next d),
          )
      | inr k ↦
          let (z, one, u) = send_bytes-Inv env x ls e rs chunk a v s.0 w in
          let e' : Entry =
            (e.0, with_queue e.1 s.0.sender (s.0.queue ++ copy (addressed chunk e.1) ∷ [])) in
          let (y, fs, r, w', d) =
            send_loop-Reached env z (ls ++ e' ∷ []) rs but chunk a v s.1
              (subst (Inv z) (sym (append_assoc ls (e' ∷ []) rs)) u) in
          (
            y,
            e' ∷ fs,
            send_loop_sent env x z (suc (length rs)) (length ls) but chunk below k one
                ∙ (ap (λ i. send_loop env (suc (length rs)) i but z (some chunk))
                      (sym (length-append ls (e' ∷ [])))
                    ∙ r),
            subst (Inv y) (append_assoc ls (e' ∷ []) fs) w',
            sent e s.0.sender s.0.queue k s.0.has s.0.waits
                (subst (λ i. Reached but chunk i rs fs) (length-append ls (e' ∷ [])) d),
          )
    ]
