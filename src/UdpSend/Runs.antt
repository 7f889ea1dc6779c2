-- ===== src/UdpSend/Runs.antt =====
-- udpsend.c: connecting, and all that can happen to the object over its life.
use pd_iemnet.Prelude.{
  ℕ, ◌≡◌, refl, ap, true, false, Bool-cases, Option, none, some, List, [], ◌∷◌, ◌++◌, inl, inr,
  arith, ◌⊎◌,
}
use pd_iemnet.Prelude.Int.{ℤ, ltb_ℤ, pos, pos, is_neg}
use pd_iemnet.Chunk.{Chunk, chunk_create_list}
use pd_iemnet.Output.{Atom}
use pd_iemnet.Os.{Os, open_socket, iemnet_closesocket, outs}
use pd_iemnet.Sender.{Sender, sender_send}
use pd_iemnet.Link.{is_set, Dial, create_sender, destroy_sender}
use pd_iemnet.Resource.{
  Held, holding, Balanced, Balanced-nil, Balanced-does, Moves-append, Moves-outs,
}
use pd_iemnet.Resource.Links.{
  socket_of, thread_of, closesocket-Moves, create_sender-Moves, destroy_sender-Moves,
  opened-Balanced, failed-Balanced,
}
use pd_iemnet.UdpSend.{
  send_with, Client, does, connected, disconnect, linked, connect_to, connect, send, new, free,
}

abbrev pub held : Client → Held
held x = holding (socket_of x.fd) [] (thread_of x.sender)

abbrev pub nothing : Held
nothing = holding [] [] []

-- The object holds what it has taken, and it has a sender exactly when it has a socket.
pub record Inv (x : Client) : Type 0 where
  pub balanced : Balanced x.log (held x)
  pub idle : is_neg x.fd ≡ true → x.sender ≡ none
  pub busy : is_neg x.fd ≡ false → is_set x.sender ≡ true

-- The thread of a sender can always be started.
abbrev pub Starts : Os → Type 0
Starts os = (fd : ℤ) → is_set (create_sender os fd).0 ≡ true

abbrev Closed : Client → Type 0
Closed x = Balanced x.log nothing × (is_neg x.fd ≡ true) × (x.sender ≡ none)

Closed-Inv : (x : Client) → Closed x → Inv x
Closed-Inv x (b, n, s) = record {
  balanced = rw (n, s) b;
  idle = λ _. s;
  busy = λ m. absurd (cc (n, m));
}

disconnect-Closed : (x : Client) → Inv x → Closed (disconnect x)
unfolding disconnect
disconnect-Closed x v =
    let quiet =
      Balanced-does x.log (destroy_sender x.sender) (held x) (holding (socket_of x.fd) [] [])
        v.balanced (destroy_sender-Moves x.sender (socket_of x.fd) []) in
    elim (Bool-cases (is_neg x.fd)) [
      | inl n ↦ rw n (rw n at quiet, n, refl)
      | inr n ↦ rw n (
        Balanced-does (x.log ++ destroy_sender x.sender)
            (iemnet_closesocket x.fd ++ outs (connected 0)) (holding (socket_of x.fd) [] []) nothing
            quiet
            (Moves-append (iemnet_closesocket x.fd) (outs (connected 0)) _ nothing nothing
              (closesocket-Moves x.fd [] []) (Moves-outs (connected 0) nothing)),
        refl,
        refl,
      )
    ]

linked-Inv :
    (os : Os) (starts : Starts os) (x : Client) (fd : ℤ)
    → is_neg fd ≡ false
    → Balanced x.log (holding (fd ∷ []) [] [])
    → Inv (linked os x fd)
unfolding linked
linked-Inv os starts x fd ok v = record {
  balanced = rw ok (
      Balanced-does x.log ((create_sender os fd).1 ++ outs (connected 1)) (holding (fd ∷ []) [] [])
        _ v
        (Moves-append (create_sender os fd).1 (outs (connected 1)) _
          (holding (fd ∷ []) [] (thread_of (create_sender os fd).0)) _
          (create_sender-Moves os fd (fd ∷ []) []) (Moves-outs (connected 1) _)));
  idle = λ n. absurd (cc (ok, n));
  busy = λ _. starts fd;
}

abbrev pub Outcome : Dial → Option ℕ → Client → Type 0
Outcome d host y =
    (((h : ℕ) × (host ≡ some h))
      × (is_neg d.socket ≡ false)
      × (is_neg d.answers.connect ≡ false)
      × (y.fd ≡ d.socket))
    ⊎ (((host ≡ none) ⊎ (is_neg d.socket ≡ true) ⊎ (is_neg d.answers.connect ≡ true))
        × (is_neg y.fd ≡ true))

connect_to-Inv :
    (os : Os) (starts : Starts os) (x : Client) (d : Dial) (host : Option ℕ)
    → Closed x
    → Inv (connect_to os x d host) × Outcome d host (connect_to os x d host)
unfolding connect_to linked
connect_to-Inv os starts x d none c = (Closed-Inv x c, inr (inl refl, c.1))
connect_to-Inv os starts x d (some h) c = elim (Bool-cases (is_neg d.socket)) [
  | inl n ↦ rw n (Closed-Inv x c, inr (inr (inl refl), c.1))
  | inr n ↦
      let opened = does x (open_socket d.socket ∷ []) in
      elim (Bool-cases (is_neg d.answers.connect)) [
        | inl m ↦
            rw (n, m)
              (
                Closed-Inv (does opened (iemnet_closesocket d.socket))
                    (failed-Balanced x.log d.socket n c.0, c.1, c.2),
                inr (inr (inr refl), c.1),
              )
        | inr m ↦
            rw (n, m)
              (
                linked-Inv os starts opened d.socket n (opened-Balanced x.log d.socket c.0),
                inl ((h, refl), refl, refl, refl),
              )
      ]
]

idle-Closed : (x : Client) → Inv x → is_neg x.fd ≡ true → Closed x
idle-Closed x v n = let s = v.idle n in (rw (n, s) at v.balanced, n, s)

-- With threads that can be started: an object that is connected ignores a request to connect; else it
-- is connected afterwards exactly when the host is known, a socket can be had and `connect` succeeds
-- on it, and holds no socket if not.
pub udpsend_connect-Inv :
    (os : Os) (starts : Starts os) (x : Client) (d : Dial)
    → Inv x
    → Inv (connect os x d)
      × (((is_neg x.fd ≡ false) × (connect os x d ≡ x))
          ⊎ ((is_neg x.fd ≡ true) × Outcome d d.host (connect os x d)))
unfolding connect
udpsend_connect-Inv os starts x d v = elim (Bool-cases (is_neg x.fd)) [
  | inl n ↦
      let idle : is_set x.sender ≡ false = ap is_set (v.idle n) in
      let (w, o) = connect_to-Inv os starts x d d.host (idle-Closed x v n) in
      rw idle (w, inr (n, o))
  | inr n ↦ rw (v.busy n) (v, inl (n, refl))
]

sender_send-sockfd :
    (os : Os) (s : Sender) (c : Option Chunk) → (sender_send os.malloc s c).1.sockfd ≡ s.sockfd
unfolding sender_send
sender_send-sockfd os s c = ground arith

-- The object with its sender in another state.
sender-Inv :
    (os : Os) (x : Client) (s s' : Sender)
    → x.sender ≡ some s
    → s'.sockfd ≡ s.sockfd
    → Inv x
    → Inv (record x { sender = some s' })
sender-Inv os x s s' has same v = record {
  balanced = rw (has, ← same) at v.balanced;
  idle = λ n. absurd (cc (has, v.idle n));
  busy = λ _. refl;
}

send_with-keeps :
    (os : Os) (x : Client) (o : Option Sender) (c : Option Chunk)
    → x.sender ≡ o
    → Inv x
    → Inv (send_with os x o c)
unfolding send_with
send_with-keeps os x none c e v = v
send_with-keeps os x (some s) c e v =
    let r = sender_send os.malloc s c in
    let sent = record x { sender = some r.1 } in
    let w : Inv sent = sender-Inv os x s r.1 e (sender_send-sockfd os s c) v in
    elim (Bool-cases (ltb_ℤ r.0 (pos 1))) [
      | inl low ↦ rw low (Closed-Inv (disconnect sent) (disconnect-Closed sent w))
      | inr high ↦ rw high w
    ]

-- The messages to the object.
pub data Step (os : Os) (x : Client) : Client → Type 0 where
  connects : (d : Dial) → Step os x (connect os x d)
  disconnects : Step os x (disconnect x)
  sends : (argv : List Atom) → Step os x (send os x argv)

pub data Reach (os : Os) : Client → Type 0 where
  made : Reach os new
  next : {x y : Client} → Reach os x → Step os x y → Reach os y

pub Reach-Inv : {os : Os} {x : Client} → Starts os → Reach os x → Inv x
unfolding send
Reach-Inv starts made = record {
  balanced = Balanced-nil;
  idle = λ _. refl;
  busy = λ m. absurd (cc m);
}
Reach-Inv {os} starts (next {x} r (connects d)) =
    (udpsend_connect-Inv os starts x d (Reach-Inv starts r)).0
Reach-Inv starts (next {x} r disconnects) =
    Closed-Inv (disconnect x) (disconnect-Closed x (Reach-Inv starts r))
Reach-Inv {os} starts (next {x} r (sends argv)) =
    send_with-keeps os x x.sender (chunk_create_list os.malloc argv) refl (Reach-Inv starts r)

-- With threads that can be started, and whatever the object has done: when it is freed every socket
-- that it has opened has been closed and every thread that it has started has been joined, each once
-- and in the order in which they were taken.
pub udpsend_free-Balanced :
    {os : Os} {x : Client} → Starts os → Reach os x → Balanced (free x).log (holding [] [] [])
udpsend_free-Balanced {x = x} starts r = (disconnect-Closed x (Reach-Inv starts r)).0
