-- ===== src/Link.antt =====
-- iemnet_sender.c and iemnet_receiver.c as the objects use them: making and destroying the sender
-- and the receiver of a socket, and what the system answers to an object that connects.
pub mod Laws
use pd_iemnet.Prelude.{true, false, Bool, ℕ, Option, none, some, List, [], ◌∷◌}
use pd_iemnet.Prelude.Int.{ℤ, pos, minus_one}
use pd_iemnet.Os.{Os, Effect, join_sender, start_sender}
use pd_iemnet.Sender.{Sender, sender_create}
use pd_iemnet.Sender.Connect.{Answers}
use pd_iemnet.Receiver.{Receiver}

-- the thread that is started with a sender
abbrev pub start_of : Option Sender → List Effect
start_of none = []
start_of (some s) = start_sender s.sockfd ∷ []

-- `iemnet__sender_create` with the default send function
unfoldable pub create_sender : Os → ℤ → Option Sender × List Effect
create_sender os sockfd = let s = sender_create os.malloc os.spawn sockfd in (s, start_of s)

-- `if(sender) iemnet__sender_destroy(sender, 0)`
unfoldable pub destroy_sender : Option Sender → List Effect
destroy_sender none = []
destroy_sender (some s) = join_sender s.sockfd ∷ []

-- `iemnet__receiver_getsize`
unfoldable pub receiver_size : Option Receiver → ℤ
receiver_size none = minus_one
receiver_size (some r) = pos 0

-- What `gethostbyname` finds (an address in network byte order), what `socket` returns, and how
-- connecting goes.
pub record Dial : Type 0 where
  pub host : Option ℕ
  pub socket : ℤ
  pub answers : Answers

-- `if(sender)`
abbrev pub is_set : Option Sender → Bool
is_set none = false
is_set (some s) = true
