-- ===== src/TcpReceive/Runs.antt =====
-- tcpreceive.c: all that can happen to the object between `tcpreceive_new` and `tcpreceive_free`.
use mathlib.Core.List.{append-nil}
use mathlib.Core.Path.{subst}
use pd_iemnet.Prelude.{
  get_elem?, ℕ, ◌<◌, ◌≤◌, ◌≡◌, ◌≢◌, refl, ap, sym, ◌∙◌, false, Bool, Bool-cases, Option, none, some,
  List, [], ◌∷◌, ◌++◌, length, replicate, arith, All, inl, inr, length-replicate,
}
use pd_iemnet.Prelude.Int.{ℤ, pos, is_neg, ntohs}
use pd_iemnet.Chunk.{Chunk}
use pd_iemnet.Os.{iemnet_closesocket, rm_poll, Os}
use pd_iemnet.Resource.{sockets, lost, lost-append}
use pd_iemnet.Resource.Links.{socket_of, closesocket-lost}
use pd_iemnet.TcpServer.Control.{Binding}
use pd_iemnet.TcpReceive.{
  max_connections, empty_slot, Slot, Listener, Accepted, connectpoll, read_callback, read_event,
  read_bytes, read_slot, read_found, find_socket, set_port, set_serialize, close_listener,
  listening, free, release_listener, new,
}
use pd_iemnet.TcpReceive.Slots.{open_sockets, IsSlot, Distinct, Inv, Inv-keep}
use pd_iemnet.TcpReceive.Connect.{tcpreceive_connectpoll-Inv}
use pd_iemnet.TcpReceive.Disconnect.{disconnect_any-Inv}
use pd_iemnet.TcpReceive.DisconnectAll.{disconnect_all-closes}

-- What the system and the user do. A socket that `accept` returns is not open yet, and its peer has
-- a port.
pub data Step (os : Os) (x : Listener) : Listener → Type 0 where
  request :
      (a : Accepted)
      → is_neg a.fd ≡ false
      → 0 < ntohs a.from.sin_port
      → All (λ t. a.fd ≢ t) (open_sockets x.connection)
      → Step os x (connectpoll os x x.connectsocket a)
  reads : (w : ℕ) (c : Option Chunk) {y : Listener} → read_callback os x w c ≡ some y → Step os x y
  binds : (portno : ℤ) (b : Binding) → Step os x (set_port os x portno b)
  serializes : (doit : Bool) → Step os x (set_serialize x doit)

pub data Reach (os : Os) : Listener → Type 0 where
  made : (portno : ℤ) (b : Binding) → Reach os (new os portno b)
  next : {x y : Listener} → Reach os x → Step os x y → Reach os y

some_injective {ℓ} : {A : Type ℓ} {a b : A} → some a ≡ some b → a ≡ b
some_injective e = cc

set_port-Inv :
    (os : Os) (x : Listener) (portno : ℤ) (b : Binding) → Inv x → Inv (set_port os x portno b)
unfolding set_port close_listener listening
set_port-Inv os x portno b v = Inv-keep x _ (ground arith) (ground arith) v

read_event-Inv :
    (os : Os) (x : Listener) (i : ℕ) (c : Option Chunk) (y : Listener)
    → Inv x
    → read_event os x i c ≡ some y
    → Inv y
unfolding read_event read_bytes
read_event-Inv os x i none y v e = subst Inv (some_injective e) (disconnect_any-Inv x i v)
read_event-Inv os x i (some c) y v e = Inv-keep x y (ground arith) (ground arith) v

empty-open : (n : ℕ) → open_sockets (replicate n empty_slot) ≡ []
empty-open ℕ.zero = refl
empty-open (ℕ.suc n) = empty-open n

pub empty-IsSlot : (n : ℕ) → All IsSlot (replicate n empty_slot)
empty-IsSlot ℕ.zero = tt
empty-IsSlot (ℕ.suc n) =
    (inl (record { unset = refl; no_port = refl; silent = refl }), empty-IsSlot n)

start-Inv :
    (x : Listener)
    → x.connection ≡ replicate max_connections empty_slot
    → x.nconnections ≡ pos 0
    → Inv x
start-Inv x c n = record {
  full = ap length c ∙ length-replicate max_connections empty_slot;
  slots = subst (All IsSlot) (sym c) (empty-IsSlot max_connections);
  distinct = subst Distinct (sym (ap open_sockets c ∙ empty-open max_connections)) tt;
  count = n ∙ ap (λ l. pos (length l)) (sym (ap open_sockets c ∙ empty-open max_connections));
}

pub new-Inv : (os : Os) (portno : ℤ) (b : Binding) → Inv (new os portno b)
unfolding new
new-Inv os portno b = set_port-Inv os _ portno b (start-Inv _ refl refl)

read_slot-Inv :
    (os : Os) (x : Listener) (c : Option Chunk) (w : Option Slot) (y : Listener)
    → Inv x
    → read_slot os x c w ≡ some y
    → Inv y
unfolding read_slot
read_slot-Inv os x c none y v e = absurd (cc)
read_slot-Inv os x c (some s) y v e = elim (Bool-cases s.owned) [
  | inl o ↦ found (find_socket x s.socket) (ground (arith, o, e))
  | inr o ↦ subst Inv (some_injective (ground (arith, o, e))) v
]
  where
    found : (i : Option ℕ) → read_found os x c i ≡ some y → Inv y
    found none f = subst Inv (some_injective f) v
    found (some i) f = read_event-Inv os x i c y v f

pub Reach-Inv : {os : Os} {x : Listener} → Reach os x → Inv x
unfolding set_serialize read_callback
Reach-Inv {os} (made portno b) = new-Inv os portno b
Reach-Inv {os} (next {x} r (request a ok peer fresh)) =
    (tcpreceive_connectpoll-Inv os x a (Reach-Inv r) ok peer fresh).0
Reach-Inv {os} (next {x} r (reads w c {y} e)) =
    read_slot-Inv os x c (get_elem? x.connection w) y (Reach-Inv r) e
Reach-Inv {os} (next {x} r (binds portno b)) = set_port-Inv os x portno b (Reach-Inv r)
Reach-Inv (next {x} r (serializes doit)) = Inv-keep x (set_serialize x doit) refl refl (Reach-Inv r)

open_sockets-le : (cs : List Slot) → length (open_sockets cs) ≤ length cs
open_sockets-le [] = omega arith
open_sockets-le (c ∷ cs) = elim (Bool-cases (is_neg c.socket)) [
  | inl n ↦ rw n (omega (arith, open_sockets-le cs))
  | inr n ↦ rw n (omega (arith, open_sockets-le cs))
]

-- After any history of the object, in which `accept` gives sockets that are not open in a slot yet,
-- of peers whose port is not 0, the number of connections that it reports is the number of the
-- sockets that are open in its slots; these are all different, and at most 128.
pub Reach-count :
    {os : Os} {x : Listener}
    → Reach os x
    → (x.nconnections ≡ pos (length (open_sockets x.connection)))
      × Distinct (open_sockets x.connection)
      × (length (open_sockets x.connection) ≤ max_connections)
Reach-count {x = x} r =
    let v = Reach-Inv r in
    (v.count, v.distinct, omega (arith, v.full, open_sockets-le x.connection))

release_listener-Inv : (x : Listener) → Inv x → Inv (release_listener x)
unfolding release_listener
release_listener-Inv x v = Inv-keep x _ (ground arith) (ground arith) v

release_listener-connection : (x : Listener) → (release_listener x).connection ≡ x.connection
unfolding release_listener
release_listener-connection x = ground arith

release_listener-lost :
    (x : Listener)
    → lost sockets (release_listener x).log ≡ lost sockets x.log ++ socket_of x.connectsocket
unfolding release_listener
release_listener-lost x = elim (Bool-cases (is_neg x.connectsocket)) [
  | inl n ↦ rw n (sym (append-nil (lost sockets x.log)))
  | inr n ↦ rw n (
      lost-append sockets x.log (rm_poll x.connectsocket ∷ iemnet_closesocket x.connectsocket)
      ∙ ap (λ l. lost sockets x.log ++ l) (closesocket-lost x.connectsocket ∙ rw n refl))
]

-- When the object is freed, the listening socket, if there is one, is closed, and then every socket
-- that is open in a slot, each once and in the order of the slots.
pub free-closes :
    {os : Os} {x : Listener}
    → Reach os x
    → lost sockets (free x).log
      ≡ (lost sockets x.log ++ socket_of x.connectsocket) ++ open_sockets x.connection
unfolding free
free-closes {x = x} r =
    let (_, _, _, closed) =
      disconnect_all-closes (release_listener x) (release_listener-Inv x (Reach-Inv r)) in
    closed
    ∙ ap (λ l. l ++ open_sockets (release_listener x).connection) (release_listener-lost x)
    ∙ ap (λ l. (lost sockets x.log ++ socket_of x.connectsocket) ++ open_sockets l)
        (release_listener-connection x)
