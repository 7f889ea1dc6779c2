-- ===== src/TcpReceive/Poll.antt =====
-- tcpreceive.c: `tcpreceive_read_callback`, which the receiver of a slot calls.
use mathlib.Core.Path.{subst}
use pd_iemnet.Prelude.{
  ℕ, suc, ◌≡◌, ◌≢◌, refl, ap, false, Option, none, some, List, [], ◌∷◌, ◌++◌, length, arith, All,
  inl, inr, map,
}
use pd_iemnet.Prelude.Int.{ℤ, pos, eqb_ℤ, eqb_ℤ_self, ltb_ℤ}
use pd_iemnet.Output.{msgout, set_float, iemnet_streamout}
use pd_iemnet.Chunk.{Chunk, atoms}
use pd_iemnet.Chunk.Laws.{IsDest, IsFresh, Ample}
use pd_iemnet.Chunk.FloatLists.{IsBytes, chunk2list-atoms}
use pd_iemnet.Os.{Os, outs}
use pd_iemnet.Receiver.{Received, pollfun}
use pd_iemnet.Receiver.Laws.{received_chunk-bytes, received_chunk-none, of_peer, of_peer-IsChunk}
use pd_iemnet.TcpReceive.{
  Slot, Listener, find_loop, find_socket, emits, disconnect, read_bytes, read_event, read_callback,
}
use pd_iemnet.TcpReceive.Slots.{
  Distinct, open_sockets, free-socket_of, busy-socket_of, open_sockets-busy, IsBusy, IsSlot, Inv,
  Inv-keep,
}
use pd_iemnet.TcpReceive.Disconnect.{disconnect-found}

-- No slot in front of a connection has its socket.
abbrev Before : List Slot → ℤ → Type 0
Before ls s = All (λ d. d.socket ≢ s) ls

find_loop-Before :
    (ls : List Slot) (c : Slot) (rs : List Slot)
    → Before ls c.socket
    → find_loop (ls ++ c ∷ rs) c.socket ≡ some (length ls)
unfolding find_loop
find_loop-Before [] c rs n = rw (eqb_ℤ_self c.socket) refl
find_loop-Before (l ∷ ls) c rs n =
    let other : eqb_ℤ l.socket c.socket ≡ false = ground (arith, n.0) in
    rw (other, find_loop-Before ls c rs n.1) refl

All-at : (P : ℤ → Type 0) (xs : List ℤ) (y : ℤ) (zs : List ℤ) → All P (xs ++ y ∷ zs) → P y
All-at P [] y zs a = a.0
All-at P (x ∷ xs) y zs a = All-at P xs y zs a.1

slots-Before :
    (ls : List Slot) (c : Slot) (rs : List Slot)
    → IsBusy c
    → All IsSlot (ls ++ c ∷ rs)
    → Distinct (open_sockets (ls ++ c ∷ rs))
    → Before ls c.socket
slots-Before [] c rs b a d = tt
slots-Before (l ∷ ls) c rs b (inl f, a) d = (
  ground (arith, f.unset, b.valid),
  slots-Before ls c rs b a
      (subst (λ t. Distinct (t ++ open_sockets (ls ++ c ∷ rs))) (free-socket_of l f) d),
)
slots-Before (l ∷ ls) c rs b (inr g, a) d =
    let (apart, rest) =
      subst (λ t. Distinct (t ++ open_sockets (ls ++ c ∷ rs))) (busy-socket_of l g) d in
    (
      All-at (λ t. l.socket ≢ t) (open_sockets ls) c.socket (open_sockets rs)
          (subst (All (λ t. l.socket ≢ t)) (open_sockets-busy ls c rs b) apart),
      slots-Before ls c rs b a rest,
    )

module _ (os : Os) (x : Listener) (ls : List Slot) (c : Slot) (rs : List Slot) (v : Inv x)
    (at : x.connection ≡ ls ++ c ∷ rs) (b : IsBusy c) where
  pub find_socket-slot : find_socket x c.socket ≡ some (length ls)
  unfolding find_socket
  find_socket-slot = rw at (
      find_loop-Before ls c rs (
        slots-Before ls c rs b (subst (All IsSlot) at v.slots)
          (subst (λ l. Distinct (open_sockets l)) at v.distinct)))

  read_callback-event :
      (k : Option Chunk) → read_callback os x (length ls) k ≡ read_event os x (length ls) k
  unfolding read_callback
  read_callback-event k = ground (arith, disconnect-found x ls c rs v at, b.owner, find_socket-slot)

  -- The callback of the receiver of this slot, with what `recvfrom` has answered.
  abbrev pub poll : Received → Option Listener
  poll r = pollfun os.malloc (λ y. read_callback os y (length ls)) x r

  -- When the peer of a connection has closed it, or `recvfrom` fails, that connection is
  -- disconnected.
  pub poll-end :
      (r : Received) → ltb_ℤ (pos 0) r.result ≡ false → poll r ≡ some (disconnect x (length ls)).0
  unfolding pollfun read_event
  poll-end r h = rw (received_chunk-none os.malloc r h) (read_callback-event none)

  -- The bytes that were read on a connection are output, in order and nothing else, and the
  -- connections stay as they are, if there is memory for them.
  pub poll-bytes :
      (r : Received) (n : ℕ)
      → Ample os.malloc
      → IsFresh os.fresh
      → IsDest x.floatlist
      → r.result ≡ pos (suc n)
      → length r.bytes ≡ suc n
      → IsBytes r.bytes
      → (y : Listener) × (poll r ≡ some y)
        × Inv y
        × (y.connection ≡ x.connection)
        × IsDest y.floatlist
        × (y.log
            ≡ x.log ++ outs (iemnet_streamout (some msgout) (map set_float r.bytes) x.serialize))
  unfolding pollfun read_event read_bytes
  poll-bytes r n ample ok d result len small =
      elim (chunk2list-atoms os.malloc os.fresh ok x.floatlist (of_peer r (suc n)) d
        (of_peer-IsChunk r n len small)) [
          | inl (_, m) ↦ absurd (ground (arith, ample m.0, m.1))
          | inr (l, f, g, a) ↦ (
            emits (record x { floatlist = some l })
                (iemnet_streamout (some msgout) (atoms l) x.serialize),
            rw (received_chunk-bytes os.malloc r n ample result len, read_callback-event)
                (rw f refl),
            Inv-keep x _ refl refl v,
            refl,
            g,
            ap (λ t. x.log ++ outs (iemnet_streamout (some msgout) t x.serialize)) a,
          )
        ]
