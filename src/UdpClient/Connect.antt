-- ===== src/UdpClient/Connect.antt =====
-- udpclient.c: what a client holds, and how `udpclient_connect` ends.
use Prim.Native.String.{String}
use pd_iemnet.Prelude.{
  ℕ, ◌≡◌, refl, true, false, Bool-cases, Option, none, some, List, [], ◌∷◌, ◌++◌, ◌==◌, inl, inr,
  arith, ◌⊎◌,
}
use pd_iemnet.Prelude.Int.{ℤ, is_neg}
use pd_iemnet.Output.{Message}
use pd_iemnet.Os.{Os, iemnet_closesocket}
use pd_iemnet.Receiver.{receiver_create, receiver_destroy}
use pd_iemnet.Link.{create_sender, destroy_sender}
use pd_iemnet.Resource.{Held, holding, Balanced, Balanced-does, Balanced-outs, Moves-append}
use pd_iemnet.Resource.Links.{
  socket_of, poll_of, thread_of, closesocket-Moves, destroy_sender-Moves, receiver_destroy-Moves,
  link-Moves,
}
use pd_iemnet.UdpClient.{
  Client, emits, connections, local_address, server_report, info, info_server, linked,
  do_disconnect, disconnect, prepared,
}

abbrev pub held : Client → Held
held x = holding (socket_of x.fd) (poll_of x.receiver) (thread_of x.sender)

abbrev pub nothing : Held
nothing = holding [] [] []

-- A client without a socket has no sender and no receiver and is not connected; one that is connected
-- knows the name of its host.
pub record Inv (x : Client) : Type 0 where
  pub balanced : Balanced x.log (held x)
  pub idle : is_neg x.fd ≡ true → (x.sender ≡ none) × (x.receiver ≡ none) × (x.connectstate ≡ 0)
  pub named : (x.connectstate ≡ 0) ⊎ ((h : String) × (x.hostname ≡ some h))

pub emits-Inv : (x : Client) (ms : List Message) → Inv x → Inv (emits x ms)
emits-Inv x ms v = record {
  balanced = Balanced-outs x.log ms (held x) v.balanced;
  idle = v.idle;
  named = v.named;
}

-- The client without its receiver, its sender and its socket.
abbrev pub Closed : Client → Type 0
Closed x =
    Balanced x.log nothing
    × (is_neg x.fd ≡ true)
    × (x.sender ≡ none)
    × (x.receiver ≡ none)
    × (x.connectstate ≡ 0)

quiet-Balanced :
    (x : Client)
    → Inv x
    → Balanced
        (x.log ++ (receiver_destroy x.receiver ++ destroy_sender x.sender))
        (holding (socket_of x.fd) [] [])
quiet-Balanced x v =
    Balanced-does x.log (receiver_destroy x.receiver ++ destroy_sender x.sender) (held x) _
      v.balanced
      (Moves-append (receiver_destroy x.receiver) (destroy_sender x.sender) (held x)
        (holding (socket_of x.fd) [] (thread_of x.sender)) _
        (receiver_destroy-Moves x.receiver (socket_of x.fd) (thread_of x.sender))
        (destroy_sender-Moves x.sender (socket_of x.fd) []))

pub do_disconnect-Closed : (x : Client) → Inv x → Closed (do_disconnect x).0
unfolding do_disconnect
do_disconnect-Closed x v = elim (Bool-cases (is_neg x.fd)) [
  | inl n ↦ rw n (rw n at (quiet-Balanced x v), n, refl, refl, refl)
  | inr n ↦ rw n (
    Balanced-does _ (iemnet_closesocket x.fd) (holding (socket_of x.fd) [] []) nothing
        (quiet-Balanced x v) (closesocket-Moves x.fd [] []),
    refl,
    refl,
    refl,
    refl,
  )
]

pub Closed-Inv : (x : Client) → Closed x → Inv x
Closed-Inv x (b, n, s, r, c) = record {
  balanced = rw (n, s, r) b;
  idle = λ _. (s, r, c);
  named = inl c;
}

pub disconnect-Closed : (x : Client) → Inv x → Closed (disconnect x)
unfolding disconnect
disconnect-Closed x v =
    let (b, n, s, r, c) = do_disconnect-Closed x v in
    elim (Bool-cases (do_disconnect x).1) [
      | inl e ↦ rw e (
        Balanced-outs (do_disconnect x).0.log (connections (do_disconnect x).0.connectstate) nothing
            b,
        n,
        s,
        r,
        c,
      )
      | inr e ↦ rw e (b, n, s, r, c)
    ]

pub prepared-Closed : (x : Client) (h : String) (p q : ℤ) → Inv x → Closed (prepared x h p q)
unfolding prepared
prepared-Closed x h p q v = elim (Bool-cases (is_neg x.fd)) [
  | inl n ↦ let (s, r, c) = v.idle n in rw n (rw (n, s, r) at v.balanced, n, s, r, refl)
  | inr n ↦ let (b, m, s, r, c) = disconnect-Closed x v in rw n (b, m, s, r, refl)
]

pub prepared-hostname : (x : Client) (h : String) (p q : ℤ) → (prepared x h p q).hostname ≡ some h
unfolding prepared
prepared-hostname x h p q = refl

pub linked-Inv :
    (os : Os) (x : Client) (fd : ℤ) (h_addr : ℕ) (h : String)
    → is_neg fd ≡ false
    → x.hostname ≡ some h
    → Balanced x.log (holding (fd ∷ []) [] [])
    → Inv (linked os x fd h_addr)
unfolding linked
linked-Inv os x fd h_addr h ok e v = record {
  balanced = rw ok (
      Balanced-does x.log ((create_sender os fd).1 ++ (receiver_create os.malloc fd).1) _ _ v
        (link-Moves os fd));
  idle = λ n. absurd (cc (ok, n));
  named = inr (h, e);
}

info_server-Inv :
    (x : Client) (o : Option String) (h : String)
    → o ≡ some h
    → Inv x
    → (y : Client) × (info_server x o ≡ some y)
      × Inv y
      × (y.connectstate ≡ x.connectstate)
      × (y.fd ≡ x.fd)
unfolding info_server
info_server-Inv x none h e v = absurd (cc)
info_server-Inv x (some k) h e v =
    (emits x (server_report x k), refl, emits-Inv x (server_report x k) v, refl, refl)

-- A bang never faults: it reports, and changes nothing but that.
pub info-Inv :
    (os : Os) (x : Client)
    → Inv x
    → (y : Client) × (info os x ≡ some y)
      × Inv y
      × (y.connectstate ≡ x.connectstate)
      × (y.fd ≡ x.fd)
unfolding info
info-Inv os x v =
    let told = emits (emits x (local_address os x.fd)) (connections x.connectstate) in
    let w =
      emits-Inv (emits x (local_address os x.fd)) (connections x.connectstate)
        (emits-Inv x (local_address os x.fd) v) in
    elim (Bool-cases (x.connectstate == 0)) [
      | inl z ↦ (told, rw z refl, w, refl, refl)
      | inr z ↦ elim v.named [
        | inl c ↦ absurd (ground (arith, c, z))
        | inr (h, e) ↦ rw z (info_server-Inv told x.hostname h e w)
      ]
    ]
