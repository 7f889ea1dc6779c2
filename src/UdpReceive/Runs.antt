-- ===== src/UdpReceive/Runs.antt =====
-- udpreceive.c: all that can happen to the object between `udpreceive_new` and `udpreceive_free`.
use Prim.Native.String.{String}
use text.Mathlib.Text.{◌==◌ as str_eq}
use mathlib.Core.Path.{subst}
use pd_iemnet.Prelude.{
  ℕ, ◌≡◌, refl, true, false, Bool-cases, Option-cases, Option, none, some, List, [], ◌∷◌, ◌++◌, inl,
  inr,
}
use pd_iemnet.Prelude.Int.{ℤ, pos, minus_one, is_neg, eqb_ℤ, to_ushort}
use pd_iemnet.Chunk.{Chunk, chunk2list, atoms}
use pd_iemnet.Output.{
  Atom, float, symbol, Message, statusout, addrout, msgout, outlet_anything, outlet_list,
  iemnet_addrout,
}
use pd_iemnet.Os.{Os, open_socket, iemnet_closesocket}
use pd_iemnet.Receiver.{receiver_create, receiver_destroy}
use pd_iemnet.Resource.{
  Held, holding, Balanced, Balanced-nil, Balanced-does, Balanced-outs, Moves-append,
}
use pd_iemnet.Resource.Links.{
  socket_of, poll_of, closesocket-Moves, receiver_destroy-Moves, receiver_create-Moves,
  opened-Balanced, failed-Balanced,
}
use pd_iemnet.UdpReceive.{
  tell_option, unbound, Listener, Bound, does, emits, read_callback, close_port, open_port, setport,
  port, port_is, get_option, put_option, option_i, new, free,
}

abbrev pub held : Listener → Held
held x = holding (socket_of x.fd) (poll_of x.receiver) []

abbrev pub nothing : Held
nothing = holding [] [] []

-- The object holds what it has taken, and an object without a socket has no receiver.
pub record Inv (x : Listener) : Type 0 where
  pub balanced : Balanced x.log (held x)
  pub idle : is_neg x.fd ≡ true → (x.receiver ≡ none) × (x.port ≡ minus_one)

emits-Inv : (x : Listener) (ms : List Message) → Inv x → Inv (emits x ms)
emits-Inv x ms v = record { balanced = Balanced-outs x.log ms (held x) v.balanced; idle = v.idle }

abbrev pub Closed : Listener → Type 0
Closed x =
    Balanced x.log nothing × (is_neg x.fd ≡ true) × (x.receiver ≡ none) × (x.port ≡ minus_one)

Closed-Inv : (x : Listener) → Closed x → Inv x
Closed-Inv x (b, n, r, p) = record { balanced = rw (n, r) b; idle = λ _. (r, p) }

pub close_port-Closed : (x : Listener) → Inv x → Closed (close_port x)
unfolding close_port
close_port-Closed x v =
    let quiet =
      Balanced-does x.log (receiver_destroy x.receiver) (held x) (holding (socket_of x.fd) [] [])
        v.balanced (receiver_destroy-Moves x.receiver (socket_of x.fd) []) in
    elim (Bool-cases (is_neg x.fd)) [
      | inl n ↦ rw n (rw n at quiet, n, refl, (v.idle n).1)
      | inr n ↦ rw n (
        Balanced-does _ (iemnet_closesocket x.fd) (holding (socket_of x.fd) [] []) nothing quiet
            (closesocket-Moves x.fd [] []),
        refl,
        refl,
        refl,
      )
    ]

open_port-Inv :
    (os : Os) (x : Listener) (fd : ℤ) (p : ℕ)
    → is_neg fd ≡ false
    → Balanced x.log (holding (fd ∷ []) [] [])
    → Inv (open_port os x fd p)
unfolding open_port
open_port-Inv os x fd p ok v = record {
  balanced = rw ok (
      Balanced-does x.log (receiver_create os.malloc fd).1 (holding (fd ∷ []) [] []) _ v
        (receiver_create-Moves os fd (fd ∷ []) []));
  idle = λ n. absurd (cc (ok, n));
}

pub setport-Inv : (os : Os) (x : Listener) (p : ℕ) (b : Bound) → Inv x → Inv (setport os x p b).0
unfolding setport
setport-Inv os x p b v =
    let closed = close_port x in
    let (bal, n, r, u) = close_port-Closed x v in
    let opened = does closed (open_socket b.socket ∷ []) in
    elim (Bool-cases (eqb_ℤ x.port (pos p))) [
      | inl same ↦ rw same v
      | inr other ↦ elim (Bool-cases (is_neg b.socket)) [
        | inl s ↦ rw (other, s) (Closed-Inv closed (bal, n, r, u))
        | inr s ↦ elim (Bool-cases (is_neg b.bind)) [
          | inl f ↦
              rw (other, s, f)
                (Closed-Inv (does opened (iemnet_closesocket b.socket))
                  (failed-Balanced closed.log b.socket s bal, n, r, u))
          | inr f ↦
              rw (other, s, f)
                (open_port-Inv os opened b.socket p s (opened-Balanced closed.log b.socket bal))
        ]
      ]
    ]

port-Inv : (os : Os) (x : Listener) (argv : List Atom) (b : Bound) → Inv x → Inv (port os x argv b)
unfolding port
port-Inv os x [] b v = emits-Inv x (port_is x.port) v
port-Inv os x (float p ∷ []) b v =
    let w = setport-Inv os x (to_ushort p) b v in
    let y = (setport os x (to_ushort p) b).0 in
    elim (Bool-cases (setport os x (to_ushort p) b).1) [
      | inl t ↦ rw t (emits-Inv y (port_is y.port) w)
      | inr t ↦ rw t (
          emits-Inv (emits y (port_is minus_one)) (port_is y.port)
            (emits-Inv y (port_is minus_one) w))
    ]
port-Inv os x (symbol s ∷ []) b v = v
port-Inv os x (float p ∷ a ∷ argv) b v = v
port-Inv os x (symbol s ∷ a ∷ argv) b v = v

put_option-Inv : (x : Listener) (s : String) (p : ℤ) → Inv x → Inv (put_option x s p)
unfolding put_option
put_option-Inv x s p v = elim (Bool-cases (str_eq s "reuseaddr")) [
  | inl a ↦ rw a (record { balanced = v.balanced; idle = v.idle })
  | inr a ↦ elim (Bool-cases (str_eq s "reuseport")) [
    | inl b ↦ rw (a, b) (record { balanced = v.balanced; idle = v.idle })
    | inr b ↦ rw (a, b) v
  ]
]

tell_option-Inv : (x : Listener) (s : String) (o : Option ℤ) → Inv x → Inv (tell_option x s o)
unfolding tell_option
tell_option-Inv x s none v = v
tell_option-Inv x s (some p) v = emits-Inv x (outlet_anything statusout s (float p ∷ []) ∷ []) v

option_i-Inv : (x : Listener) (s : String) (argv : List Atom) → Inv x → Inv (option_i x s argv)
unfolding option_i
option_i-Inv x s [] v = tell_option-Inv x s (get_option x s) v
option_i-Inv x s (float p ∷ []) v = put_option-Inv x s p v
option_i-Inv x s (symbol t ∷ []) v = v
option_i-Inv x s (float p ∷ a ∷ argv) v = v
option_i-Inv x s (symbol t ∷ a ∷ argv) v = v

-- The messages to the object and the callbacks of its receiver. A call that faults has no step.
pub data Step (os : Os) (x : Listener) : Listener → Type 0 where
  binds : (argv : List Atom) (b : Bound) → Step os x (port os x argv b)
  sets : (s : String) (argv : List Atom) → Step os x (option_i x s argv)
  reads : (c : Option Chunk) {y : Listener} → read_callback os x c ≡ some y → Step os x y

pub data Reach (os : Os) : Listener → Type 0 where
  made : (p : ℤ) (b : Bound) → Reach os (new os p b)
  next : {x y : Listener} → Reach os x → Step os x y → Reach os y

some_injective {ℓ} : {A : Type ℓ} {a b : A} → some a ≡ some b → a ≡ b
some_injective e = cc

read-keeps :
    (os : Os) (x y : Listener) (c : Option Chunk) → Inv x → read_callback os x c ≡ some y → Inv y
unfolding read_callback
read-keeps os x y none v e = subst Inv (some_injective e) v
read-keeps os x y (some c) v e =
    let told = emits x (iemnet_addrout (some statusout) (some addrout) c.addr c.port) in
    let w = emits-Inv x (iemnet_addrout (some statusout) (some addrout) c.addr c.port) v in
    elim (Option-cases (chunk2list os.malloc os.fresh (some c) x.floatlist)) [
      | inl f ↦ absurd (cc (rw f at e))
      | inr (l, f) ↦ subst Inv (some_injective (rw f at e)) (
          emits-Inv (record told { floatlist = some l }) (outlet_list msgout (atoms l) ∷ [])
            (record { balanced = w.balanced; idle = w.idle }))
    ]

new-Inv : (os : Os) (p : ℤ) (b : Bound) → Inv (new os p b)
unfolding new
new-Inv os p b =
    setport-Inv os (unbound os) (to_ushort p) b
      (record { balanced = Balanced-nil; idle = λ _. (refl, refl) })

pub Reach-Inv : {os : Os} {x : Listener} → Reach os x → Inv x
Reach-Inv {os} (made p b) = new-Inv os p b
Reach-Inv {os} (next {x} r (binds argv b)) = port-Inv os x argv b (Reach-Inv r)
Reach-Inv (next {x} r (sets s argv)) = option_i-Inv x s argv (Reach-Inv r)
Reach-Inv {os} (next {x} r (reads c {y} e)) = read-keeps os x y c (Reach-Inv r) e

-- Whatever has happened, also when changing the port has failed at any point: when the object is
-- freed, every socket that it has opened has been closed and every poll function that it has added
-- has been removed, each once and in the order in which they were taken.
pub udpreceive_free-Balanced :
    {os : Os} {x : Listener} → Reach os x → Balanced (free x).log (holding [] [] [])
unfolding free
udpreceive_free-Balanced {x = x} r =
    Balanced-does x.log (receiver_destroy x.receiver ++ iemnet_closesocket x.fd) (held x) nothing
      (Reach-Inv r).balanced
      (Moves-append (receiver_destroy x.receiver) (iemnet_closesocket x.fd) (held x)
        (holding (socket_of x.fd) [] []) nothing
        (receiver_destroy-Moves x.receiver (socket_of x.fd) []) (closesocket-Moves x.fd [] []))
