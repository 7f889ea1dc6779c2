-- ===== src/TcpSend/Runs.antt =====
-- tcpsend.c: connecting, sending, and all that can happen to the object over its life.
use pd_iemnet.Prelude.{
  ℕ, ◌+◌, ◌<◌, ◌^◌, ◌≡◌, refl, true, false, Bool-cases, Option, none, some, List, [], ◌∷◌, ◌++◌,
  inl, inr, arith, ◌⊎◌, length,
}
use pd_iemnet.Prelude.Int.{ℤ, is_neg}
use pd_iemnet.Chunk.{Chunk, chunk_create_list}
use pd_iemnet.Chunk.Laws.{Ample}
use pd_iemnet.Chunk.Loops.{bytes_of}
use pd_iemnet.Output.{Atom}
use pd_iemnet.Os.{Os, open_socket, iemnet_closesocket, outs}
use pd_iemnet.Queue.Fifo.{fill}
use pd_iemnet.Sender.{Sender, sender_send}
use pd_iemnet.Sender.Connect.{iemnet_connect}
use pd_iemnet.Link.{Dial, create_sender, destroy_sender}
use pd_iemnet.Link.Laws.{running-Queued}
use pd_iemnet.Resource.{
  Held, holding, Balanced, Balanced-nil, Balanced-does, Moves-append, Moves-outs,
}
use pd_iemnet.Resource.Links.{
  socket_of, thread_of, closesocket-Moves, create_sender-Moves, destroy_sender-Moves,
  opened-Balanced, failed-Balanced,
}
use pd_iemnet.TcpSend.{
  Client, does, connected, disconnect, linked, connect_to, connect, set_timeout, send, send_chunk,
  new, free,
}

abbrev pub held : Client → Held
held x = holding (socket_of x.fd) [] (thread_of x.sender)

abbrev pub nothing : Held
nothing = holding [] [] []

-- The object holds what it has taken, and an object without a socket has no sender.
pub record Inv (x : Client) : Type 0 where
  pub balanced : Balanced x.log (held x)
  pub idle : is_neg x.fd ≡ true → x.sender ≡ none

abbrev Closed : Client → Type 0
Closed x = Balanced x.log nothing × (is_neg x.fd ≡ true) × (x.sender ≡ none)

Closed-Inv : (x : Client) → Closed x → Inv x
Closed-Inv x (b, n, s) = record { balanced = rw (n, s) b; idle = λ _. s }

disconnect-Closed : (x : Client) → Inv x → Closed (disconnect x)
unfolding disconnect
disconnect-Closed x v =
    let quiet =
      Balanced-does x.log (destroy_sender x.sender) (held x) (holding (socket_of x.fd) [] [])
        v.balanced (destroy_sender-Moves x.sender (socket_of x.fd) []) in
    elim (Bool-cases (is_neg x.fd)) [
      | inl n ↦ rw n (rw n at quiet, n, refl)
      | inr n ↦ rw n (
        Balanced-does (x.log ++ destroy_sender x.sender)
            (iemnet_closesocket x.fd ++ outs (connected 0)) (holding (socket_of x.fd) [] []) nothing
            quiet
            (Moves-append (iemnet_closesocket x.fd) (outs (connected 0)) _ nothing nothing
              (closesocket-Moves x.fd [] []) (Moves-outs (connected 0) nothing)),
        refl,
        refl,
      )
    ]

linked-Inv :
    (os : Os) (x : Client) (fd : ℤ)
    → is_neg fd ≡ false
    → Balanced x.log (holding (fd ∷ []) [] [])
    → Inv (linked os x fd)
unfolding linked
linked-Inv os x fd ok v = record {
  balanced = rw ok (
      Balanced-does x.log ((create_sender os fd).1 ++ outs (connected 1)) (holding (fd ∷ []) [] [])
        _ v
        (Moves-append (create_sender os fd).1 (outs (connected 1)) _
          (holding (fd ∷ []) [] (thread_of (create_sender os fd).0)) _
          (create_sender-Moves os fd (fd ∷ []) []) (Moves-outs (connected 1) _)));
  idle = λ n. absurd (cc (ok, n));
}

abbrev pub Outcome : ℤ → Dial → Option ℕ → Client → Type 0
Outcome timeout d host y =
    (((h : ℕ) × (host ≡ some h))
      × (is_neg d.socket ≡ false)
      × (is_neg (iemnet_connect timeout d.answers).0 ≡ false)
      × (y.fd ≡ d.socket))
    ⊎ (((host ≡ none)
          ⊎ (is_neg d.socket ≡ true)
          ⊎ (is_neg (iemnet_connect timeout d.answers).0 ≡ true))
        × (is_neg y.fd ≡ true))

connect_to-Inv :
    (os : Os) (x : Client) (d : Dial) (host : Option ℕ)
    → Closed x
    → Inv (connect_to os x d host) × Outcome x.timeout d host (connect_to os x d host)
unfolding connect_to linked
connect_to-Inv os x d none c = (Closed-Inv x c, inr (inl refl, c.1))
connect_to-Inv os x d (some h) c = elim (Bool-cases (is_neg d.socket)) [
  | inl n ↦ rw n (Closed-Inv x c, inr (inr (inl refl), c.1))
  | inr n ↦
      let opened = does x (open_socket d.socket ∷ []) in
      elim (Bool-cases (is_neg (iemnet_connect x.timeout d.answers).0)) [
        | inl m ↦
            rw (n, m)
              (
                Closed-Inv (does opened (iemnet_closesocket d.socket))
                    (failed-Balanced x.log d.socket n c.0, c.1, c.2),
                inr (inr (inr refl), c.1),
              )
        | inr m ↦
            rw (n, m)
              (
                linked-Inv os opened d.socket n (opened-Balanced x.log d.socket c.0),
                inl ((h, refl), refl, refl, refl),
              )
      ]
]

idle-Closed : (x : Client) → Inv x → is_neg x.fd ≡ true → Closed x
idle-Closed x v n = let s = v.idle n in (rw (n, s) at v.balanced, n, s)

-- An object that is connected ignores a request to connect. Else it is connected afterwards exactly
-- when the host is known, a socket can be had and `iemnet__connect` succeeds on it; if not, it holds
-- no socket.
pub tcpsend_connect-Inv :
    (os : Os) (x : Client) (d : Dial)
    → Inv x
    → Inv (connect os x d)
      × (((is_neg x.fd ≡ false) × (connect os x d ≡ x))
          ⊎ ((is_neg x.fd ≡ true) × Outcome x.timeout d d.host (connect os x d)))
unfolding connect
tcpsend_connect-Inv os x d v = elim (Bool-cases (is_neg x.fd)) [
  | inl n ↦ let (w, o) = connect_to-Inv os x d d.host (idle-Closed x v n) in rw n (w, inr (refl, o))
  | inr n ↦ rw n (v, inl (refl, refl))
]

send_chunk-thread :
    (os : Os) (s : Option Sender) (c : Option Chunk)
    → (thread_of (send_chunk os s c) ≡ thread_of s) × (s ≡ none → send_chunk os s c ≡ none)
unfolding send_chunk sender_send
send_chunk-thread os none c = (refl, λ e. refl)
send_chunk-thread os (some s) none = (refl, λ e. e)
send_chunk-thread os (some s) (some c) = (ground arith, λ e. absurd (cc e))

send-keeps : (os : Os) (x : Client) (argv : List Atom) → Inv x → Inv (send os x argv)
unfolding send
send-keeps os x argv v =
    let (t, n) = send_chunk-thread os x.sender (chunk_create_list os.malloc argv) in
    record { balanced = rw t v.balanced; idle = λ e. n (v.idle e) }

-- The messages to the object.
pub data Step (os : Os) (x : Client) : Client → Type 0 where
  connects : (d : Dial) → Step os x (connect os x d)
  disconnects : Step os x (disconnect x)
  sends : (argv : List Atom) → Step os x (send os x argv)
  times : (timeout : ℤ) → Step os x (set_timeout x timeout)

pub data Reach (os : Os) : Client → Type 0 where
  made : Reach os new
  next : {x y : Client} → Reach os x → Step os x y → Reach os y

pub Reach-Inv : {os : Os} {x : Client} → Reach os x → Inv x
unfolding set_timeout
Reach-Inv made = record { balanced = Balanced-nil; idle = λ _. refl }
Reach-Inv {os} (next {x} r (connects d)) = (tcpsend_connect-Inv os x d (Reach-Inv r)).0
Reach-Inv (next {x} r disconnects) = Closed-Inv (disconnect x) (disconnect-Closed x (Reach-Inv r))
Reach-Inv {os} (next {x} r (sends argv)) = send-keeps os x argv (Reach-Inv r)
Reach-Inv (next {x} r (times t)) =
    let v = Reach-Inv r in record { balanced = v.balanced; idle = v.idle }

-- Whatever the object has done, when it is freed every socket that it has opened has been closed and
-- every thread that it has started has been joined, each once and in the order in which they were
-- taken.
pub tcpsend_free-Balanced :
    {os : Os} {x : Client} → Reach os x → Balanced (free x).log (holding [] [] [])
tcpsend_free-Balanced {x = x} r = (disconnect-Closed x (Reach-Inv r)).0

-- A message of at least one atom, while the thread of the sender runs and less than 2 GB wait, is
-- queued behind what waits; nothing is output.
pub send-queue :
    (os : Os) (x : Client) (s : Sender) (xs : List Chunk) (a : Atom) (argv : List Atom)
    → Ample os.malloc
    → x.sender ≡ some s
    → s.queue ≡ some xs
    → s.isrunning ≡ true
    → fill xs + length (a ∷ argv) < 2 ^ 31
    → (c : Chunk) × (c.bytes ≡ bytes_of (a ∷ argv))
      × (send os x (a ∷ argv)
          ≡ record x { sender = some (record s { queue = some (xs ++ c ∷ []) }) })
unfolding send send_chunk
send-queue os x s xs a argv ample has waits run small =
    let q = running-Queued os.malloc ample s xs waits a argv run small in
    (q.copy, q.bytes, rw (has, q.made) (rw q.sent refl))
