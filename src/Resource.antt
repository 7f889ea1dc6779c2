-- ===== src/Resource.antt =====
-- Sockets, poll functions and threads: what an object has taken from the system and given back, read
-- off its effects.
pub mod Links
use mathlib.Core.List.{append_assoc, append-nil}
use pd_iemnet.Prelude.{
  false, ◌≡◌, refl, ap, sym, ◌∙◌, Option, none, some, List, [], ◌∷◌, ◌++◌, if◌then◌else◌,
  Bool-cases, inl, inr,
}
use pd_iemnet.Prelude.Int.{ℤ, pos, negsuc, is_neg}
use pd_iemnet.Os.{
  Os, Effect, join_sender, start_sender, add_poll, rm_poll, open_socket, close_socket, outs,
  iemnet_closesocket,
}
use pd_iemnet.Output.{Message}
use pd_iemnet.Sender.{Sender, sender_create}
use pd_iemnet.Receiver.{Receiver, receiver_create, receiver_destroy}
use pd_iemnet.Link.{start_of, create_sender, destroy_sender}

pub data Resource : Type 0 where
  sockets polls threads : Resource

abbrev pub gain : Resource → Effect → List ℤ
gain sockets (open_socket s) = s ∷ []
gain polls (add_poll s) = s ∷ []
gain threads (start_sender s) = s ∷ []
gain _ _ = []

abbrev pub loss : Resource → Effect → List ℤ
loss sockets (close_socket s) = s ∷ []
loss polls (rm_poll s) = s ∷ []
loss threads (join_sender s) = s ∷ []
loss _ _ = []

-- Everything of one kind that was taken, and that was given back, in order.
abbrev pub gained : Resource → List Effect → List ℤ
gained k [] = []
gained k (e ∷ es) = gain k e ++ gained k es

abbrev pub lost : Resource → List Effect → List ℤ
lost k [] = []
lost k (e ∷ es) = loss k e ++ lost k es

pub gained-append :
    (k : Resource) (es fs : List Effect) → gained k (es ++ fs) ≡ gained k es ++ gained k fs
gained-append k [] fs = refl
gained-append k (e ∷ es) fs =
    ap (λ l. gain k e ++ l) (gained-append k es fs)
    ∙ sym (append_assoc (gain k e) (gained k es) (gained k fs))

pub lost-append : (k : Resource) (es fs : List Effect) → lost k (es ++ fs) ≡ lost k es ++ lost k fs
lost-append k [] fs = refl
lost-append k (e ∷ es) fs =
    ap (λ l. loss k e ++ l) (lost-append k es fs)
    ∙ sym (append_assoc (loss k e) (lost k es) (lost k fs))

pub gained-outs : (k : Resource) (ms : List Message) → gained k (outs ms) ≡ []
gained-outs k [] = refl
gained-outs sockets (m ∷ ms) = gained-outs sockets ms
gained-outs polls (m ∷ ms) = gained-outs polls ms
gained-outs threads (m ∷ ms) = gained-outs threads ms

pub lost-outs : (k : Resource) (ms : List Message) → lost k (outs ms) ≡ []
lost-outs k [] = refl
lost-outs sockets (m ∷ ms) = lost-outs sockets ms
lost-outs polls (m ∷ ms) = lost-outs polls ms
lost-outs threads (m ∷ ms) = lost-outs threads ms

abbrev pub Held : Type 0
Held = Resource → List ℤ

abbrev pub holding : List ℤ → List ℤ → List ℤ → Held
holding s p t sockets = s
holding s p t polls = p
holding s p t threads = t

-- What was taken is what was given back, followed by what is held: nothing is given back twice, and
-- nothing that is not held is still with the system.
abbrev pub Balanced : List Effect → Held → Type 0
Balanced log h = (k : Resource) → gained k log ≡ lost k log ++ h k

-- Effects that turn what is held from `a` into `b`.
abbrev pub Moves : List Effect → Held → Held → Type 0
Moves es a b = (k : Resource) → a k ++ gained k es ≡ lost k es ++ b k

pub Balanced-does :
    (log es : List Effect) (a b : Held) → Balanced log a → Moves es a b → Balanced (log ++ es) b
Balanced-does log es a b v m k =
    gained-append k log es
    ∙ ap (λ l. l ++ gained k es) (v k)
    ∙ append_assoc (lost k log) (a k) (gained k es)
    ∙ ap (λ l. lost k log ++ l) (m k)
    ∙ sym (append_assoc (lost k log) (lost k es) (b k))
    ∙ ap (λ l. l ++ b k) (sym (lost-append k log es))

-- At the start nothing has been taken.
pub Balanced-nil : Balanced [] (holding [] [] [])
Balanced-nil sockets = refl
Balanced-nil polls = refl
Balanced-nil threads = refl

pub Moves-nil : (a : Held) → Moves [] a a
Moves-nil a k = append-nil (a k)

pub Moves-append :
    (es fs : List Effect) (a b c : Held) → Moves es a b → Moves fs b c → Moves (es ++ fs) a c
Moves-append es fs a b c m n k =
    ap (λ l. a k ++ l) (gained-append k es fs)
    ∙ sym (append_assoc (a k) (gained k es) (gained k fs))
    ∙ ap (λ l. l ++ gained k fs) (m k)
    ∙ append_assoc (lost k es) (b k) (gained k fs)
    ∙ ap (λ l. lost k es ++ l) (n k)
    ∙ sym (append_assoc (lost k es) (lost k fs) (c k))
    ∙ ap (λ l. l ++ c k) (sym (lost-append k es fs))

pub Moves-outs : (ms : List Message) (a : Held) → Moves (outs ms) a a
Moves-outs ms a k = rw (gained-outs, lost-outs) (append-nil (a k))

-- A message changes nothing of what is held.
pub Balanced-outs :
    (log : List Effect) (ms : List Message) (a : Held)
    → Balanced log a
    → Balanced (log ++ outs ms) a
Balanced-outs log ms a v = Balanced-does log (outs ms) a a v (Moves-outs ms a)
