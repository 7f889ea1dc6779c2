-- ===== src/UdpClient/Runs.antt =====
-- udpclient.c: all that can happen to a client between `udpclient_new` and `udpclient_free`.
use Prim.Native.String.{String}
use mathlib.Core.Path.{subst}
use pd_iemnet.Prelude.{
  ◌≡◌, refl, false, Bool-cases, Option-cases, Option, none, some, List, [], ◌∷◌, inl, inr, arith,
  ◌⊎◌,
}
use pd_iemnet.Prelude.Int.{ℤ, is_neg}
use pd_iemnet.Chunk.{Chunk, chunk2list, chunk_create_list, atoms}
use pd_iemnet.Output.{
  Atom, float, statusout, addrout, msgout, outlet_anything, outlet_list, iemnet_addrout,
}
use pd_iemnet.Os.{Os}
use pd_iemnet.Sender.{Sender, sender_send}
use pd_iemnet.Link.{Dial}
use pd_iemnet.Resource.{holding, Balanced, Balanced-nil}
use pd_iemnet.Resource.Links.{thread_of}
use pd_iemnet.UdpClient.{
  Client, emits, info, disconnect, connect, send, send_chunk, receive_callback, new, free,
}
use pd_iemnet.UdpClient.Connect.{
  Inv, emits-Inv, Closed-Inv, disconnect-Closed, do_disconnect-Closed, info-Inv,
}
use pd_iemnet.UdpClient.Outcome.{udpclient_connect-Inv}

-- The messages to a client and the callbacks of its receiver. A call that faults has no step.
pub data Step (os : Os) (x : Client) : Client → Type 0 where
  connects :
      (hostname : String) (portno sndportno : ℤ) (d : Dial) {y : Client}
      → connect os x hostname portno sndportno d ≡ some y
      → Step os x y
  disconnects : Step os x (disconnect x)
  sends : (argv : List Atom) → Step os x (send os x argv)
  asks : {y : Client} → info os x ≡ some y → Step os x y
  receives : (c : Option Chunk) {y : Client} → receive_callback os x c ≡ some y → Step os x y

pub data Reach (os : Os) : Client → Type 0 where
  made : Reach os (new os)
  next : {x y : Client} → Reach os x → Step os x y → Reach os y

some_injective {ℓ} : {A : Type ℓ} {a b : A} → some a ≡ some b → a ≡ b
some_injective e = cc

pub new-Inv : (os : Os) → Inv (new os)
unfolding new
new-Inv os = record { balanced = Balanced-nil; idle = λ _. (refl, refl, refl); named = inl refl }

send_chunk-thread :
    (os : Os) (s : Option Sender) (c : Option Chunk) → thread_of (send_chunk os s c).1 ≡ thread_of s
unfolding send_chunk sender_send
send_chunk-thread os none c = refl
send_chunk-thread os (some s) none = refl
send_chunk-thread os (some s) (some c) = ground arith

send_chunk-none :
    (os : Os) (s : Option Sender) (c : Option Chunk) → s ≡ none → (send_chunk os s c).1 ≡ none
unfolding send_chunk
send_chunk-none os s c e = rw e refl

-- The same client with its sender in another state.
sender-Inv :
    (x : Client) (s : Option Sender)
    → Inv x
    → thread_of s ≡ thread_of x.sender
    → (x.sender ≡ none → s ≡ none)
    → Inv (record x { sender = s })
sender-Inv x s v t n = record {
  balanced = rw t v.balanced;
  idle = λ e. (n (v.idle e).0, (v.idle e).1, (v.idle e).2);
  named = v.named;
}

send-keeps : (os : Os) (x : Client) (argv : List Atom) → Inv x → Inv (send os x argv)
unfolding send
send-keeps os x argv v =
    let c = chunk_create_list os.malloc argv in
    let r = send_chunk os x.sender c in
    emits-Inv (record x { sender = r.1 })
      (outlet_anything statusout "sendbuffersize" (float r.0 ∷ []) ∷ [])
      (sender-Inv x r.1 v (send_chunk-thread os x.sender c) (send_chunk-none os x.sender c))

receive-keeps :
    (os : Os) (x y : Client) (c : Option Chunk) → Inv x → receive_callback os x c ≡ some y → Inv y
unfolding receive_callback
receive-keeps os x y none v e = elim (Bool-cases (is_neg x.fd)) [
  | inl n ↦ subst Inv (some_injective (rw n at e)) v
  | inr n ↦
      subst Inv (some_injective (rw n at e)) (Closed-Inv (disconnect x) (disconnect-Closed x v))
]
receive-keeps os x y (some c) v e =
    let told = emits x (iemnet_addrout (some statusout) (some addrout) x.addr x.port) in
    let w = emits-Inv x (iemnet_addrout (some statusout) (some addrout) x.addr x.port) v in
    elim (Option-cases (chunk2list os.malloc os.fresh (some c) x.floatlist)) [
      | inl f ↦ absurd (cc (rw f at e))
      | inr (l, f) ↦ subst Inv (some_injective (rw f at e)) (
          emits-Inv (record told { floatlist = some l }) (outlet_list msgout (atoms l) ∷ [])
            (record { balanced = w.balanced; idle = w.idle; named = w.named }))
    ]

pub Reach-Inv : {os : Os} {x : Client} → Reach os x → Inv x
Reach-Inv {os} made = new-Inv os
Reach-Inv {os} (next {x} r (connects h p q d {y} e)) =
    let (z, f, w, _) = udpclient_connect-Inv os x h p q d (Reach-Inv r) in
    subst Inv (some_injective (cc (e, f))) w
Reach-Inv (next {x} r disconnects) = Closed-Inv (disconnect x) (disconnect-Closed x (Reach-Inv r))
Reach-Inv {os} (next {x} r (sends argv)) = send-keeps os x argv (Reach-Inv r)
Reach-Inv {os} (next {x} r (asks {y} e)) =
    let (z, f, w, _, _) = info-Inv os x (Reach-Inv r) in subst Inv (some_injective (cc (e, f))) w
Reach-Inv {os} (next {x} r (receives c {y} e)) = receive-keeps os x y c (Reach-Inv r) e

-- Whatever a client has done, when it is freed every socket that it has opened has been closed,
-- every poll function that it has added has been removed, and every thread that it has started has
-- been joined: each of them once, and in the order in which they were taken.
pub udpclient_free-Balanced :
    {os : Os} {x : Client} → Reach os x → Balanced (free x).log (holding [] [] [])
unfolding free
udpclient_free-Balanced {x = x} r = (do_disconnect-Closed x (Reach-Inv r)).0

-- Whatever a client has done, a bang reports and does not fault, and a client that is connected has a
-- socket.
pub Reach-info :
    {os : Os} {x : Client}
    → Reach os x
    → ((y : Client) × (info os x ≡ some y)) × ((x.connectstate ≡ 0) ⊎ (is_neg x.fd ≡ false))
Reach-info {os} {x} r =
    let v = Reach-Inv r in
    let (y, e, _, _, _) = info-Inv os x v in
    ((y, e), elim (Bool-cases (is_neg x.fd)) [ inl n ↦ inl (v.idle n).2 | inr n ↦ inr n ])
