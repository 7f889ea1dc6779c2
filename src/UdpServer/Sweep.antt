-- ===== src/UdpServer/Sweep.antt =====
-- udpserver.c: `udpserver_sender_autoremove` keeps the clients that are not expired.
use mathlib.Core.List.{append_assoc}
use pd_iemnet.Prelude.{
  ℕ, ◌+◌, ◌≡◌, ◌≢◌, refl, ap, sym, ◌∙◌, true, false, Option, none, some, List, [], ◌∷◌, ◌++◌,
  length, arith, ◌==◌, get_elem?, length-map, length-append,
}
use pd_iemnet.Prelude.Int.{ℤ}
use pd_iemnet.TcpServer.{Ptr, null, set_slot}
use pd_iemnet.TcpServer.Gap.{get_elem?-at, set_slot-at}
use pd_iemnet.UdpServer.{Server, Env, store, does, slot, deref}
use pd_iemnet.UdpServer.Table.{sender_free, release, expire, move_to, expired, sweep_one}
use pd_iemnet.UdpServer.Live.{Entry, ptrs, Alive}

-- The clients that have been seen within the timeout.
abbrev pub unexpired : Env → ℤ → List Entry → List Entry
unexpired env timeout [] = []
unexpired env timeout (e ∷ es) =
    let rest = unexpired env timeout es in
    elim (expired env timeout e.1) [ true ↦ rest | false ↦ e ∷ rest ]

-- What a sweep keeps: all but the table, the number of clients, and what the object has done.
pub record Same (x y : Server) : Type 0 where
  pub size : length y.sr ≡ length x.sr
  pub maxconnections : y.maxconnections ≡ x.maxconnections
  pub timeout : y.timeout ≡ x.timeout
  pub connectsocket : y.connectsocket ≡ x.connectsocket
  pub port : y.port ≡ x.port
  pub ifaddr : y.ifaddr ≡ x.ifaddr
  pub accept : y.accept ≡ x.accept
  pub lastchecked : y.lastchecked ≡ x.lastchecked
  pub defaulttarget : y.defaulttarget ≡ x.defaulttarget
  pub receiver : y.receiver ≡ x.receiver
  pub floatlist : y.floatlist ≡ x.floatlist
  pub uniq : y.uniq ≡ x.uniq

-- The loop has run behind all clients, and `out` are those at the front of the table.
abbrev pub Swept : Server → List Ptr → Option (ℕ × Server) → List Entry → Type 0
Swept x tail r out =
    (y : Server) × (mid : List Ptr) × (r ≡ some (length out, y))
    × (y.sr ≡ ptrs out ++ (mid ++ tail))
    × Alive y.heap out
    × Same x y

pub Same-after : (x y z : Server) → Same x y → Same y z → Same x z
Same-after x y z a b = record {
  size = b.size ∙ a.size;
  maxconnections = b.maxconnections ∙ a.maxconnections;
  timeout = b.timeout ∙ a.timeout;
  connectsocket = b.connectsocket ∙ a.connectsocket;
  port = b.port ∙ a.port;
  ifaddr = b.ifaddr ∙ a.ifaddr;
  accept = b.accept ∙ a.accept;
  lastchecked = b.lastchecked ∙ a.lastchecked;
  defaulttarget = b.defaulttarget ∙ a.defaulttarget;
  receiver = b.receiver ∙ a.receiver;
  floatlist = b.floatlist ∙ a.floatlist;
  uniq = b.uniq ∙ a.uniq;
}

-- The pointers behind the first of a list that is not empty.
abbrev pub moved : List Ptr → Ptr → List Ptr
moved [] p = []
moved (m ∷ ms) p = ms ++ p ∷ []

set_slot-move :
    (pre mid : List Ptr) (p : Ptr) (post : List Ptr) (k : ℕ)
    → k ≡ length pre
    → set_slot (pre ++ (mid ++ p ∷ post)) k p ≡ some (pre ++ p ∷ (moved mid p ++ post))
set_slot-move pre [] p post k e = set_slot-at pre p p post k e
set_slot-move pre (m ∷ ms) p post k e =
    set_slot-at pre m p (ms ++ p ∷ post) k e
    ∙ ap some (ap (λ t. pre ++ p ∷ t) (sym (append_assoc ms (p ∷ []) post)))

pub length-moved : (mid : List Ptr) (p : Ptr) → length (moved mid p) ≡ length mid
length-moved [] p = refl
length-moved (m ∷ ms) p = omega (arith, length-append ms (p ∷ []))

prefix-length :
    (ks : List Entry) (mid : List Ptr) → length ks + length mid ≡ length (ptrs ks ++ mid)
prefix-length ks mid =
    omega (arith, length-append (ptrs ks) mid, length-map ks (λ (o : Entry). o.0))

pub slot-mid :
    (x : Server) (ks : List Entry) (mid : List Ptr) (p : Ptr) (rest : List Ptr) (id : ℕ)
    → x.sr ≡ ptrs ks ++ (mid ++ p ∷ rest)
    → id ≡ length ks + length mid
    → slot x id ≡ some p
slot-mid x ks mid p rest id a i =
    ap (λ l. get_elem? l id) (a ∙ sym (append_assoc (ptrs ks) mid (p ∷ rest)))
    ∙ get_elem?-at (ptrs ks ++ mid) p rest id (i ∙ prefix-length ks mid)

set_slot-mid :
    (ks : List Entry) (mid : List Ptr) (p q : Ptr) (rest : List Ptr) (id : ℕ)
    → id ≡ length ks + length mid
    → set_slot (ptrs ks ++ (mid ++ p ∷ rest)) id q ≡ some (ptrs ks ++ (mid ++ q ∷ rest))
set_slot-mid ks mid p q rest id i =
    ap (λ l. set_slot l id q) (sym (append_assoc (ptrs ks) mid (p ∷ rest)))
    ∙ set_slot-at (ptrs ks ++ mid) p q rest id (i ∙ prefix-length ks mid)
    ∙ ap some (append_assoc (ptrs ks) mid (q ∷ rest))

-- The server after an expired client has been freed.
abbrev pub freed : Server → Entry → List Ptr → Server
freed x e sr = record (does (record x { heap = store x.heap e.0 none }) (release e.1)) { sr = sr }

pub sweep_one-expired :
    (env : Env) (x : Server) (ks : List Entry) (mid : List Ptr) (e : Entry) (rest : List Ptr)
    (id to : ℕ)
    → x.sr ≡ ptrs ks ++ (mid ++ e.0 ∷ rest)
    → (e.0 ≢ null) × (x.heap e.0 ≡ some e.1)
    → id ≡ length ks + length mid
    → expired env x.timeout e.1 ≡ true
    → sweep_one env id to x e.0 ≡ some (to, freed x e (ptrs ks ++ (mid ++ null ∷ rest)))
unfolding sweep_one deref expire sender_free
sweep_one-expired env x ks mid e rest id to a live i old =
    let present : (e.0 == null) ≡ false = ground (arith, live.0) in
    let cleared : set_slot x.sr id null ≡ some (ptrs ks ++ (mid ++ null ∷ rest)) =
      ap (λ l. set_slot l id null) a ∙ set_slot-mid ks mid e.0 null rest id i in
    rw (present, live.1, old, cleared) refl

pub sweep_one-kept :
    (env : Env) (x : Server) (ks : List Entry) (mid : List Ptr) (e : Entry) (rest : List Ptr)
    (id to : ℕ)
    → x.sr ≡ ptrs ks ++ (mid ++ e.0 ∷ rest)
    → (e.0 ≢ null) × (x.heap e.0 ≡ some e.1)
    → to ≡ length ks
    → expired env x.timeout e.1 ≡ false
    → sweep_one env id to x e.0
      ≡ some (to + 1, record x { sr = ptrs ks ++ e.0 ∷ (moved mid e.0 ++ rest) })
unfolding sweep_one deref move_to
sweep_one-kept env x ks mid e rest id to a live i new =
    let present : (e.0 == null) ≡ false = ground (arith, live.0) in
    let kept : set_slot x.sr to e.0 ≡ some (ptrs ks ++ e.0 ∷ (moved mid e.0 ++ rest)) =
      ap (λ l. set_slot l to e.0) a
      ∙ set_slot-move (ptrs ks) mid e.0 rest to (i ∙ sym (length-map ks (λ (o : Entry). o.0))) in
    rw (present, live.1, new, kept) refl
