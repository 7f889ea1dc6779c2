-- ===== src/TcpClient/Runs.antt =====
-- tcpclient.c: all that can happen to a client between `tcpclient_new` and `tcpclient_free`.
use mathlib.Core.Path.{subst}
use Prim.Native.String.{String}
use pd_iemnet.Prelude.{
  ◌==◌, ◌≡◌, ◌≢◌, refl, Bool, Bool-cases, Option-cases, Option, none, some, List, [], inl, inr,
  arith,
}
use pd_iemnet.Prelude.Int.{ℤ, to_ushort}
use pd_iemnet.Chunk.{Chunk, chunk2list, atoms}
use pd_iemnet.Output.{msgout, addrout, iemnet_addrout, iemnet_streamout, Atom, statusout}
use pd_iemnet.Os.{Os}
use pd_iemnet.Link.{Dial}
use pd_iemnet.Resource.{Balanced, holding, Balanced-nil}
use pd_iemnet.TcpClient.{
  Client, connect, disconnect, send, info, info_server, receive_callback, set_serialize,
  set_timeout, tick, new, free, emits, server_report, connections, local_address,
}
use pd_iemnet.TcpClient.Balance.{Inv, disconnect-Inv}
use pd_iemnet.TcpClient.Keeps.{send-Inv, emits-Inv}
use pd_iemnet.TcpClient.Connect.{tcpclient_connect-Inv}

-- The messages to a client and the callbacks of its receiver. A call that faults has no step.
pub data Step (os : Os) (x : Client) : Client → Type 0 where
  connects :
      (hostname : String) (portno : ℤ) (d : Dial) {y : Client}
      → connect os x hostname portno d ≡ some y
      → Step os x y
  disconnects : Step os x (disconnect x)
  sends : (argv : List Atom) → Step os x (send os x argv)
  asks : {y : Client} → info os x ≡ some y → Step os x y
  receives : (c : Option Chunk) {y : Client} → receive_callback os x c ≡ some y → Step os x y
  serializes : (doit : Bool) → Step os x (set_serialize x doit)
  times : (timeout : ℤ) → Step os x (set_timeout x timeout)
  ticks : Step os x (tick x)

pub data Reach (os : Os) : Client → Type 0 where
  made : Reach os (new os)
  next : {x y : Client} → Reach os x → Step os x y → Reach os y

some_injective {ℓ} : {A : Type ℓ} {a b : A} → some a ≡ some b → a ≡ b
some_injective e = cc

-- A client that differs in other fields only, and in its messages.
Inv-keep :
    (x y : Client)
    → y.log ≡ x.log
    → y.sender ≡ x.sender
    → y.receiver ≡ x.receiver
    → y.fd ≡ x.fd
    → y.hostname ≡ x.hostname
    → y.port ≡ x.port
    → Inv x
    → Inv y
Inv-keep x y l s r f h p v = record {
  balanced = rw (l, s, r, f, h, p) v.balanced;
  idle = rw (s, r, h, p) v.idle;
}

pub new-Inv : (os : Os) → Inv (new os)
unfolding new
new-Inv os = record { balanced = Balanced-nil; idle = λ _. (refl, refl) }

info_server-keeps : (x y : Client) (h : Option String) → Inv x → info_server x h ≡ some y → Inv y
unfolding info_server
info_server-keeps x y none v e = absurd (cc)
info_server-keeps x y (some h) v e =
    subst Inv (some_injective e) (emits-Inv x (server_report x h) v)

info-keeps : (os : Os) (x y : Client) → Inv x → info os x ≡ some y → Inv y
unfolding info
info-keeps os x y v e =
    let told = emits (emits x (local_address os x.fd)) (connections x.connectstate) in
    let w =
      emits-Inv (emits x (local_address os x.fd)) (connections x.connectstate)
        (emits-Inv x (local_address os x.fd) v) in
    elim (Bool-cases (x.connectstate == 0)) [
      | inl z ↦ subst Inv (some_injective (rw z at e)) w
      | inr z ↦ info_server-keeps told y x.hostname w (rw z at e)
    ]

receive-keeps :
    (os : Os) (x y : Client) (c : Option Chunk) → Inv x → receive_callback os x c ≡ some y → Inv y
unfolding receive_callback
receive-keeps os x y none v e = subst Inv (some_injective e) (disconnect-Inv x v)
receive-keeps os x y (some c) v e =
    let told = emits x (iemnet_addrout (some statusout) (some addrout) x.addr (to_ushort x.port)) in
    elim (Option-cases (chunk2list os.malloc os.fresh (some c) x.floatlist)) [
      | inl f ↦ absurd (cc (rw f at e))
      | inr (l, f) ↦ subst Inv (some_injective (rw f at e)) (
          emits-Inv (record told { floatlist = some l })
            (iemnet_streamout (some msgout) (atoms l) x.serialize)
            (Inv-keep told (record told { floatlist = some l }) refl refl refl refl refl refl
              (emits-Inv x
                (iemnet_addrout (some statusout) (some addrout) x.addr (to_ushort x.port)) v)))
    ]

pub Reach-Inv : {os : Os} {x : Client} → Reach os x → Inv x
unfolding set_serialize set_timeout tick
Reach-Inv {os} made = new-Inv os
Reach-Inv {os} (next {x} r (connects h p d {y} e)) =
    let (z, f, w, _) = tcpclient_connect-Inv os x h p d (Reach-Inv r) in
    subst Inv (some_injective (cc (e, f))) w
Reach-Inv (next {x} r disconnects) = disconnect-Inv x (Reach-Inv r)
Reach-Inv {os} (next {x} r (sends argv)) = send-Inv os x argv (Reach-Inv r)
Reach-Inv {os} (next {x} r (asks {y} e)) = info-keeps os x y (Reach-Inv r) e
Reach-Inv {os} (next {x} r (receives c {y} e)) = receive-keeps os x y c (Reach-Inv r) e
Reach-Inv (next {x} r (serializes doit)) =
    Inv-keep x (set_serialize x doit) refl refl refl refl refl refl (Reach-Inv r)
Reach-Inv (next {x} r (times t)) =
    Inv-keep x (set_timeout x t) refl refl refl refl refl refl (Reach-Inv r)
Reach-Inv (next {x} r ticks) = emits-Inv x (connections 1) (Reach-Inv r)

-- Whatever a client has done, when it is freed every socket that it has opened has been closed,
-- every poll function that it has added has been removed, and every thread that it has started has
-- been joined: each of them once, and in the order in which they were taken.
pub tcpclient_free-Balanced :
    {os : Os} {x : Client} → Reach os x → Balanced (free x).log (holding [] [] [])
unfolding free disconnect
tcpclient_free-Balanced {x = x} r = (disconnect-Inv x (Reach-Inv r)).balanced

-- After a client that was connected has been disconnected, a bang dereferences the host name, which
-- is NULL: `tcpclient_disconnect` leaves `x_connectstate` as it was.
pub disconnect-info_faults :
    (os : Os) (x : Client) → x.connectstate ≢ 0 → info os (disconnect x) ≡ none
unfolding info info_server disconnect
disconnect-info_faults os x c = ground (arith, c)
