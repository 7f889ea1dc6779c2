-- ===== src/Resource/Links.antt =====
-- What making and destroying a socket, a receiver and a sender does to what an object holds.
use mathlib.Core.List.{append-nil}
use pd_iemnet.Prelude.{
  false, ◌≡◌, refl, Option, none, some, List, [], ◌∷◌, ◌++◌, if◌then◌else◌, Bool-cases, inl, inr,
}
use pd_iemnet.Prelude.Int.{ℤ, pos, negsuc, is_neg}
use pd_iemnet.Os.{Os, Effect, add_poll, open_socket, iemnet_closesocket}
use pd_iemnet.Sender.{Sender, sender_create}
use pd_iemnet.Receiver.{Receiver, receiver_create, receiver_destroy}
use pd_iemnet.Link.{start_of, create_sender, destroy_sender}
use pd_iemnet.Resource.{
  polls, threads, Balanced, Balanced-does, Moves, Moves-append, holding, lost, sockets,
}

-- What a socket, a receiver and a sender hold.
abbrev pub socket_of : ℤ → List ℤ
socket_of fd = if is_neg fd then [] else (fd ∷ [])

abbrev pub poll_of : Option Receiver → List ℤ
poll_of none = []
poll_of (some r) = r.sockfd ∷ []

abbrev pub thread_of : Option Sender → List ℤ
thread_of none = []
thread_of (some s) = s.sockfd ∷ []

pub open_socket-Moves :
    (fd : ℤ) → Moves (open_socket fd ∷ []) (holding [] [] []) (holding (fd ∷ []) [] [])
open_socket-Moves fd sockets = refl
open_socket-Moves fd polls = refl
open_socket-Moves fd threads = refl

pub closesocket-Moves :
    (fd : ℤ) (p t : List ℤ)
    → Moves (iemnet_closesocket fd) (holding (socket_of fd) p t) (holding [] p t)
unfolding iemnet_closesocket
closesocket-Moves (pos n) p t sockets = refl
closesocket-Moves (pos n) p t polls = append-nil p
closesocket-Moves (pos n) p t threads = append-nil t
closesocket-Moves (negsuc n) p t k = append-nil (holding [] p t k)

start_of-Moves :
    (o : Option Sender) (s p : List ℤ)
    → Moves (start_of o) (holding s p []) (holding s p (thread_of o))
start_of-Moves none s p k = append-nil (holding s p [] k)
start_of-Moves (some x) s p sockets = append-nil s
start_of-Moves (some x) s p polls = append-nil p
start_of-Moves (some x) s p threads = refl

pub create_sender-Moves :
    (os : Os) (fd : ℤ) (s p : List ℤ)
    → Moves
        (create_sender os fd).1
        (holding s p [])
        (holding s p (thread_of (create_sender os fd).0))
unfolding create_sender
create_sender-Moves os fd s p = start_of-Moves (sender_create os.malloc os.spawn fd) s p

pub destroy_sender-Moves :
    (o : Option Sender) (s p : List ℤ)
    → Moves (destroy_sender o) (holding s p (thread_of o)) (holding s p [])
unfolding destroy_sender
destroy_sender-Moves none s p k = append-nil (holding s p [] k)
destroy_sender-Moves (some x) s p sockets = append-nil s
destroy_sender-Moves (some x) s p polls = append-nil p
destroy_sender-Moves (some x) s p threads = refl

polled_by :
    (fd : ℤ) (s t : List ℤ) → Moves (add_poll fd ∷ []) (holding s [] t) (holding s (fd ∷ []) t)
polled_by fd s t sockets = append-nil s
polled_by fd s t polls = refl
polled_by fd s t threads = append-nil t

pub receiver_create-Moves :
    (os : Os) (fd : ℤ) (s t : List ℤ)
    → Moves
        (receiver_create os.malloc fd).1
        (holding s [] t)
        (holding s (poll_of (receiver_create os.malloc fd).0) t)
unfolding receiver_create
receiver_create-Moves os fd s t k = elim (Bool-cases (os.malloc 24)) [
  | inl m ↦ rw m (polled_by fd s t k)
  | inr m ↦ rw m (append-nil (holding s [] t k))
]

pub receiver_destroy-Moves :
    (o : Option Receiver) (s t : List ℤ)
    → Moves (receiver_destroy o) (holding s (poll_of o) t) (holding s [] t)
unfolding receiver_destroy
receiver_destroy-Moves none s t k = append-nil (holding s [] t k)
receiver_destroy-Moves (some x) s t sockets = append-nil s
receiver_destroy-Moves (some x) s t polls = refl
receiver_destroy-Moves (some x) s t threads = append-nil t

-- A sender and a receiver for a socket that is held.
pub link-Moves :
    (os : Os) (fd : ℤ)
    → Moves
        ((create_sender os fd).1 ++ (receiver_create os.malloc fd).1)
        (holding (fd ∷ []) [] [])
        (holding
          (fd ∷ [])
          (poll_of (receiver_create os.malloc fd).0)
          (thread_of (create_sender os fd).0))
link-Moves os fd =
    Moves-append (create_sender os fd).1 (receiver_create os.malloc fd).1 _
      (holding (fd ∷ []) [] (thread_of (create_sender os fd).0)) _
      (create_sender-Moves os fd (fd ∷ []) [])
      (receiver_create-Moves os fd (fd ∷ []) (thread_of (create_sender os fd).0))

-- A socket that has just been opened.
pub opened-Balanced :
    (log : List Effect) (fd : ℤ)
    → Balanced log (holding [] [] [])
    → Balanced (log ++ open_socket fd ∷ []) (holding (fd ∷ []) [] [])
opened-Balanced log fd v =
    Balanced-does log (open_socket fd ∷ []) (holding [] [] []) (holding (fd ∷ []) [] []) v
      (open_socket-Moves fd)

-- A socket that is closed again at once.
pub failed-Balanced :
    (log : List Effect) (fd : ℤ)
    → is_neg fd ≡ false
    → Balanced log (holding [] [] [])
    → Balanced ((log ++ open_socket fd ∷ []) ++ iemnet_closesocket fd) (holding [] [] [])
failed-Balanced log fd ok v =
    Balanced-does (log ++ open_socket fd ∷ []) (iemnet_closesocket fd) (holding (fd ∷ []) [] [])
      (holding [] [] []) (opened-Balanced log fd v) (rw ok at (closesocket-Moves fd [] []))

pub closesocket-lost : (fd : ℤ) → lost sockets (iemnet_closesocket fd) ≡ socket_of fd
unfolding iemnet_closesocket
closesocket-lost (pos n) = refl
closesocket-lost (negsuc n) = refl

pub receiver_destroy-lost : (o : Option Receiver) → lost sockets (receiver_destroy o) ≡ []
unfolding receiver_destroy
receiver_destroy-lost none = refl
receiver_destroy-lost (some r) = refl
