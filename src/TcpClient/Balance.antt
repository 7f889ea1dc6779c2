-- ===== src/TcpClient/Balance.antt =====
-- tcpclient.c: the sockets, poll functions and threads of a client over its life.
use mathlib.Core.Path.{subst}
use pd_iemnet.Prelude.{
  ℕ, ◌≡◌, refl, sym, Bool, true, false, Bool-cases, Option, none, some, [], ◌∷◌, ◌++◌, arith, inl,
  inr, if◌then◌else◌,
}
use pd_iemnet.Prelude.Int.{ℤ, is_neg}
use Prim.Native.String.{String}
use pd_iemnet.Sender.Connect.{iemnet_connect}
use pd_iemnet.Os.{Os, open_socket, iemnet_closesocket}
use pd_iemnet.Sender.{Sender}
use pd_iemnet.Receiver.{Receiver, receiver_create, receiver_destroy}
use pd_iemnet.Link.{Dial, create_sender, destroy_sender}
use pd_iemnet.Resource.{
  Held, holding, Balanced, Moves, Balanced-does, Balanced-outs, Moves-append, Moves-nil,
}
use pd_iemnet.Resource.Links.{
  opened-Balanced, link-Moves, failed-Balanced, socket_of, poll_of, thread_of, closesocket-Moves,
  destroy_sender-Moves, receiver_destroy-Moves,
}
use pd_iemnet.TcpClient.{
  does, connect_to, connections, Client, in_use, do_disconnect, linked, do_connect, hang_up,
  dialled, disconnect,
}

-- What a client holds. After a disconnection the closed socket still stands in `x_fd`, but the client
-- is not in use any more.
abbrev pub held : Client → Held
held x = holding (if in_use x then socket_of x.fd else []) (poll_of x.receiver) (thread_of x.sender)

-- Also, a client that is not in use has no sender and no receiver.
pub record Inv (x : Client) : Type 0 where
  pub balanced : Balanced x.log (held x)
  pub idle : in_use x ≡ false → (x.sender ≡ none) × (x.receiver ≡ none)

do_disconnect-Moves :
    (fd : ℤ) (s : Option Sender) (r : Option Receiver)
    → Moves
        (do_disconnect fd s r).0
        (holding (socket_of fd) (poll_of r) (thread_of s))
        (holding [] [] [])
unfolding do_disconnect
do_disconnect-Moves fd s r =
    Moves-append (destroy_sender s) (receiver_destroy r ++ iemnet_closesocket fd) _
      (holding (socket_of fd) (poll_of r) []) _ (destroy_sender-Moves s (socket_of fd) (poll_of r))
      (Moves-append (receiver_destroy r) (iemnet_closesocket fd) _ (holding (socket_of fd) [] []) _
        (receiver_destroy-Moves r (socket_of fd) []) (closesocket-Moves fd [] []))

abbrev pub nothing : Held
nothing = holding [] [] []

-- What is given back, by the test of whether the client is in use.
given_back-Balanced :
    (b : Bool) (x : Client)
    → Balanced x.log
        (holding (if b then socket_of x.fd else []) (poll_of x.receiver) (thread_of x.sender))
    → (b ≡ false → (x.sender ≡ none) × (x.receiver ≡ none))
    → Balanced (x.log ++ (if b then (do_disconnect x.fd x.sender x.receiver).0 else [])) nothing
given_back-Balanced true x v i =
    Balanced-does x.log _ _ nothing v (do_disconnect-Moves x.fd x.sender x.receiver)
given_back-Balanced false x v i =
    let (s, r) = i refl in Balanced-does x.log [] _ nothing v (rw (s, r) (Moves-nil nothing))

pub disconnect-Inv : (x : Client) → Inv x → Inv (disconnect x)
unfolding disconnect
disconnect-Inv x v = record {
  balanced =
      Balanced-outs (x.log ++ (if in_use x then (do_disconnect x.fd x.sender x.receiver).0 else []))
        (connections 0) nothing (given_back-Balanced (in_use x) x v.balanced v.idle);
  idle = λ _. (refl, refl);
}

-- A client that holds nothing.
abbrev Released : Client → Type 0
Released x = Balanced x.log nothing × (x.sender ≡ none) × (x.receiver ≡ none)

hang_up-Released : (x : Client) → Inv x → Released (hang_up x)
unfolding hang_up
hang_up-Released x v = elim (Bool-cases (in_use x)) [
  | inl u ↦ rw u (
    Balanced-outs (x.log ++ (do_disconnect x.fd x.sender x.receiver).0)
        (if (do_disconnect x.fd x.sender x.receiver).1 then connections 0 else []) nothing
        (rw u at (given_back-Balanced (in_use x) x v.balanced v.idle)),
    refl,
    refl,
  )
  | inr u ↦ let (s, r) = v.idle u in rw u (rw (s, r, u) at v.balanced, s, r)
]

linked-Balanced :
    (os : Os) (x : Client) (sockfd : ℤ) (h_addr : ℕ)
    → is_neg sockfd ≡ false
    → Balanced x.log (holding (sockfd ∷ []) [] [])
    → Balanced (linked os x sockfd h_addr).log (
        holding
          (sockfd ∷ [])
          (poll_of (linked os x sockfd h_addr).receiver)
          (thread_of (linked os x sockfd h_addr).sender))
unfolding linked
linked-Balanced os x sockfd h_addr ok v =
    Balanced-does x.log ((create_sender os sockfd).1 ++ (receiver_create os.malloc sockfd).1) _ _ v
      (link-Moves os sockfd)

-- What `tcpclient_do_connect` leaves, in terms of its result.
abbrev Dialled : ℤ × Client → Type 0
Dialled r = Balanced r.1.log (holding (socket_of r.0) (poll_of r.1.receiver) (thread_of r.1.sender))

connect_to-Dialled :
    (os : Os) (x : Client) (d : Dial) (host : Option ℕ)
    → Released x
    → Dialled (connect_to os x d host)
unfolding connect_to
connect_to-Dialled os x d none (v, s, r) = rw (s, r) v
connect_to-Dialled os x d (some h) (v, s, r) = elim (Bool-cases (is_neg d.socket)) [
  | inl n ↦ rw n (rw (s, r, n) v)
  | inr n ↦ elim (Bool-cases (is_neg (iemnet_connect x.timeout d.answers).0)) [
    | inl m ↦ rw (n, m) (rw (s, r) (failed-Balanced x.log d.socket n v))
    | inr m ↦
        rw (n, m)
          (rw n (
            linked-Balanced os (does x (open_socket d.socket ∷ [])) d.socket h n
              (opened-Balanced x.log d.socket v)))
  ]
]

connect_to-hostname :
    (os : Os) (x : Client) (d : Dial) (host : Option ℕ)
    → (connect_to os x d host).1.hostname ≡ x.hostname
unfolding connect_to linked
connect_to-hostname os x d none = refl
connect_to-hostname os x d (some h) = ground arith

pub dialled-hostname :
    (os : Os) (x : Client) (hostname : String) (portno : ℤ) (d : Dial)
    → (dialled os x hostname portno d).hostname ≡ some hostname
unfolding dialled do_connect
dialled-hostname os x hostname portno d =
    connect_to-hostname os (record (hang_up x) { hostname = some hostname; port = portno }) d d.host

named-in_use : (x : Client) {h : String} → x.hostname ≡ some h → in_use x ≡ true
named-in_use x e = rw e refl

pub dialled-Inv :
    (os : Os) (x : Client) (hostname : String) (portno : ℤ) (d : Dial)
    → Inv x
    → Inv (dialled os x hostname portno d)
unfolding dialled do_connect
dialled-Inv os x hostname portno d v =
    let start = record (hang_up x) { hostname = some hostname; port = portno } in
    let y = dialled os x hostname portno d in
    let used = named-in_use y (dialled-hostname os x hostname portno d) in
    record {
      balanced =
          subst
            (λ b. Balanced y.log (
              holding (if b then socket_of y.fd else []) (poll_of y.receiver) (thread_of y.sender)))
            (sym used) (connect_to-Dialled os start d d.host (hang_up-Released x v));
      idle = λ e. absurd (cc (used, e));
    }
