-- ===== src/TcpClient/Keeps.antt =====
-- tcpclient.c: messages that leave a client with what it holds.
use pd_iemnet.Prelude.{
  ◌==◌, ◌≡◌, refl, Bool-cases, Option, none, some, List, [], ◌∷◌, arith, inl, inr,
}
use pd_iemnet.Prelude.Int.{ℤ, is_neg}
use Prim.Native.String.{String}
use pd_iemnet.Output.{float, statusout, outlet_anything, Message, Atom}
use pd_iemnet.Chunk.{chunk_create_list, Chunk}
use pd_iemnet.Os.{Os}
use pd_iemnet.Sender.{sender_send, Sender}
use pd_iemnet.Resource.{Balanced-outs}
use pd_iemnet.Resource.Links.{thread_of}
use pd_iemnet.TcpClient.{
  info_server, emits, local_address, server_report, connections, Client, send, send_chunk, info,
}
use pd_iemnet.TcpClient.Balance.{Inv, disconnect-Inv, held}

pub emits-Inv : (x : Client) (ms : List Message) → Inv x → Inv (emits x ms)
emits-Inv x ms v = record { balanced = Balanced-outs x.log ms (held x) v.balanced; idle = v.idle }

-- With a name at hand `tcpclient_info` reports, and changes nothing but that.
pub info-Inv :
    (os : Os) (x : Client) (h : String)
    → x.hostname ≡ some h
    → Inv x
    → (y : Client) × (info os x ≡ some y)
      × Inv y
      × (y.connectstate ≡ x.connectstate)
      × (y.fd ≡ x.fd)
unfolding info info_server
info-Inv os x h e v =
    let told = emits (emits x (local_address os x.fd)) (connections x.connectstate) in
    let w = emits-Inv _ (connections x.connectstate) (emits-Inv x (local_address os x.fd) v) in
    elim (Bool-cases (x.connectstate == 0)) [
      | inl z ↦ (told, rw z refl, w, refl, refl)
      | inr z ↦ (
        emits told (server_report x h),
        rw (z, e) refl,
        emits-Inv told (server_report x h) w,
        refl,
        refl,
      )
    ]

pub send_chunk-thread :
    (os : Os) (s : Option Sender) (c : Option Chunk) → thread_of (send_chunk os s c).1 ≡ thread_of s
unfolding send_chunk sender_send
send_chunk-thread os none c = refl
send_chunk-thread os (some s) none = refl
send_chunk-thread os (some s) (some c) = ground arith

send_chunk-none :
    (os : Os) (s : Option Sender) (c : Option Chunk) → s ≡ none → (send_chunk os s c).1 ≡ none
unfolding send_chunk
send_chunk-none os s c e = rw e refl

-- The same client with its sender in another state.
sender-Inv :
    (x : Client) (s : Option Sender)
    → Inv x
    → thread_of s ≡ thread_of x.sender
    → (x.sender ≡ none → s ≡ none)
    → Inv (record x { sender = s })
sender-Inv x s v t n = record {
  balanced = rw t v.balanced;
  idle = λ e. (n (v.idle e).0, (v.idle e).1);
}

-- The client with what `send_chunk` has returned, and its report.
abbrev sent : Client → ℤ → Option Sender → Client
sent x size sender =
    emits (record x { sender = sender })
      (outlet_anything statusout "sendbuffersize" (float size ∷ []) ∷ [])

pub send-Inv : (os : Os) (x : Client) (argv : List Atom) → Inv x → Inv (send os x argv)
unfolding send
send-Inv os x argv v =
    let c = chunk_create_list os.malloc argv in
    let r = send_chunk os x.sender c in
    let w : Inv (sent x r.0 r.1) =
      emits-Inv (record x { sender = r.1 })
        (outlet_anything statusout "sendbuffersize" (float r.0 ∷ []) ∷ [])
        (sender-Inv x r.1 v (send_chunk-thread os x.sender c) (send_chunk-none os x.sender c)) in
    elim (Bool-cases (is_neg r.0)) [
      | inl n ↦ rw n (disconnect-Inv (sent x r.0 r.1) w)
      | inr n ↦ rw n w
    ]
