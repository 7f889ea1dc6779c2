-- ===== src/TcpReceive/Slots.antt =====
-- tcpreceive.c: the array of connections, seen as the list of the sockets that are open in it.
use mathlib.Core.List.{append_assoc}
use pd_iemnet.Prelude.{
  ◌<◌, ◌≡◌, ◌≢◌, refl, ap, sym, ◌∙◌, true, false, none, List, [], ◌∷◌, ◌++◌, length, arith, All,
  ◌⊎◌, length-append,
}
use pd_iemnet.Prelude.Int.{ℤ, pos, minus_one, is_neg}
use pd_iemnet.Resource.Links.{socket_of}
use pd_iemnet.TcpReceive.{max_connections, Slot, Listener}

abbrev pub open_sockets : List Slot → List ℤ
open_sockets [] = []
open_sockets (c ∷ cs) = socket_of c.socket ++ open_sockets cs

pub record IsFree (c : Slot) : Type 0 where
  pub unset : c.socket ≡ minus_one
  pub no_port : c.port ≡ 0
  pub silent : c.receiver ≡ none

pub record IsBusy (c : Slot) : Type 0 where
  pub valid : is_neg c.socket ≡ false
  pub peer : 0 < c.port
  pub owner : c.owned ≡ true

abbrev pub IsSlot : Slot → Type 0
IsSlot c = IsFree c ⊎ IsBusy c

abbrev pub Distinct : List ℤ → Type 0
Distinct [] = Unit
Distinct (s ∷ ss) = All (λ t. s ≢ t) ss × Distinct ss

pub record Inv (x : Listener) : Type 0 where
  pub full : length x.connection ≡ max_connections
  pub slots : All IsSlot x.connection
  pub distinct : Distinct (open_sockets x.connection)
  pub count : x.nconnections ≡ pos (length (open_sockets x.connection))

-- An object that differs in other fields only.
pub Inv-keep :
    (x y : Listener) → y.connection ≡ x.connection → y.nconnections ≡ x.nconnections → Inv x → Inv y
Inv-keep x y c n v = record {
  full = rw c v.full;
  slots = rw c v.slots;
  distinct = rw c v.distinct;
  count = n ∙ rw c v.count;
}

pub open_sockets-append :
    (cs ds : List Slot) → open_sockets (cs ++ ds) ≡ open_sockets cs ++ open_sockets ds
open_sockets-append [] ds = refl
open_sockets-append (c ∷ cs) ds =
    ap (λ l. socket_of c.socket ++ l) (open_sockets-append cs ds)
    ∙ sym (append_assoc (socket_of c.socket) (open_sockets cs) (open_sockets ds))

pub free-socket_of : (c : Slot) → IsFree c → socket_of c.socket ≡ []
free-socket_of c f = rw f.unset refl

pub busy-socket_of : (c : Slot) → IsBusy c → socket_of c.socket ≡ c.socket ∷ []
busy-socket_of c b = rw b.valid refl

pub open_sockets-free :
    (ls : List Slot) (c : Slot) (rs : List Slot)
    → IsFree c
    → open_sockets (ls ++ c ∷ rs) ≡ open_sockets ls ++ open_sockets rs
open_sockets-free ls c rs f =
    open_sockets-append ls (c ∷ rs)
    ∙ ap (λ l. open_sockets ls ++ (l ++ open_sockets rs)) (free-socket_of c f)

pub open_sockets-busy :
    (ls : List Slot) (c : Slot) (rs : List Slot)
    → IsBusy c
    → open_sockets (ls ++ c ∷ rs) ≡ open_sockets ls ++ c.socket ∷ open_sockets rs
open_sockets-busy ls c rs b =
    open_sockets-append ls (c ∷ rs)
    ∙ ap (λ l. open_sockets ls ++ (l ++ open_sockets rs)) (busy-socket_of c b)

-- One slot put in place of another.
pub All-replace :
    (ls : List Slot) (c d : Slot) (rs : List Slot)
    → IsSlot d
    → All IsSlot (ls ++ c ∷ rs)
    → All IsSlot (ls ++ d ∷ rs)
All-replace [] c d rs s a = (s, a.1)
All-replace (l ∷ ls) c d rs s a = (a.0, All-replace ls c d rs s a.1)

pub length-replace :
    (ls : List Slot) (c d : Slot) (rs : List Slot) → length (ls ++ d ∷ rs) ≡ length (ls ++ c ∷ rs)
length-replace ls c d rs = omega (arith, length-append ls (c ∷ rs), length-append ls (d ∷ rs))

pub IsSlot-at : (ls : List Slot) (c : Slot) (rs : List Slot) → All IsSlot (ls ++ c ∷ rs) → IsSlot c
IsSlot-at [] c rs a = a.0
IsSlot-at (l ∷ ls) c rs a = IsSlot-at ls c rs a.1

All-remove :
    (s : ℤ) (ps : List ℤ) (b : ℤ) (bs : List ℤ)
    → All (λ t. s ≢ t) (ps ++ b ∷ bs)
    → (s ≢ b) × All (λ t. s ≢ t) (ps ++ bs)
All-remove s [] b bs a = (a.0, a.1)
All-remove s (x ∷ ps) b bs a = let (at, rest) = All-remove s ps b bs a.1 in (at, (a.0, rest))

pub Distinct-remove :
    (ps : List ℤ) (b : ℤ) (bs : List ℤ) → Distinct (ps ++ b ∷ bs) → Distinct (ps ++ bs)
Distinct-remove [] b bs d = d.1
Distinct-remove (a ∷ ps) b bs d = ((All-remove a ps b bs d.0).1, Distinct-remove ps b bs d.1)

All-insert :
    (s : ℤ) (ps : List ℤ) (b : ℤ) (bs : List ℤ)
    → s ≢ b
    → All (λ t. s ≢ t) (ps ++ bs)
    → All (λ t. s ≢ t) (ps ++ b ∷ bs)
All-insert s [] b bs n a = (n, a)
All-insert s (x ∷ ps) b bs n a = (a.0, All-insert s ps b bs n a.1)

pub Distinct-insert :
    (ps : List ℤ) (b : ℤ) (bs : List ℤ)
    → All (λ t. b ≢ t) (ps ++ bs)
    → Distinct (ps ++ bs)
    → Distinct (ps ++ b ∷ bs)
Distinct-insert [] b bs n d = (n, d)
Distinct-insert (a ∷ ps) b bs n d =
    (All-insert a ps b bs (λ e. n.0 (sym e)) d.0, Distinct-insert ps b bs n.1 d.1)

-- The socket at a place differs from those in front of it.
pub Distinct-before :
    (ps : List ℤ) (b : ℤ) (bs : List ℤ) → Distinct (ps ++ b ∷ bs) → All (λ t. t ≢ b) ps
Distinct-before [] b bs d = tt
Distinct-before (a ∷ ps) b bs d = ((All-remove a ps b bs d.0).0, Distinct-before ps b bs d.1)
