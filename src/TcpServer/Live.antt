-- ===== src/TcpServer/Live.antt =====
-- tcpserver.c: the table of connections, seen as the list of those that are open.
use pd_iemnet.Prelude.{
  ℕ, ◌+◌, ◌^◌, ◌<◌, ◌≡◌, ◌≢◌, true, false, Option, none, some, List, [], ◌∷◌, ◌++◌, length, map,
  replicate, arith, All, ◌∙◌,
}
use pd_iemnet.Prelude.Int.{ℤ, is_neg}
use pd_iemnet.TcpServer.{Ptr, null, Conn, Conns, Server, update}

-- A pointer in the table and the socket of the connection that it points to.
abbrev pub Entry : Type 0
Entry = Ptr × ℤ

abbrev pub ptrs : List Entry → List Ptr
ptrs = map (λ e. e.0)

abbrev pub fds : List Entry → List ℤ
fds = map (λ e. e.1)

-- No other entry has this pointer or this socket.
abbrev pub Alone : Entry → List Entry → Type 0
Alone e = All (λ o. (e.0 ≢ o.0) × (e.1 ≢ o.1))

-- The pointer is not NULL, and leads to a connection on an open socket that its server owns.
pub record Open (h : Conns) (e : Entry) : Type 0 where
  pub conn : Conn
  pub ne_null : e.0 ≢ null
  pub at : h e.0 ≡ some conn
  pub socket : conn.fd ≡ e.1
  pub valid : is_neg e.1 ≡ false
  pub owned : conn.owned ≡ true

abbrev pub Live : Conns → List Entry → Type 0
Live h [] = Unit {0}
Live h (e ∷ es) = Open h e × Alone e es × Live h es

-- `es` are the open connections, in the order of their numbers.
pub record Inv (x : Server) (es : List Entry) : Type 0 where
  pub room : ℕ
  pub array : x.sr ≡ ptrs es ++ replicate room null
  pub count : x.nconnections ≡ length es
  pub cap : x.maxconnections ≡ length es + room
  pub small : x.maxconnections < 2 ^ 32
  pub live : Live x.heap es

-- A server that differs in other fields only.
pub Inv-keep :
    (x y : Server) (es : List Entry)
    → y.sr ≡ x.sr
    → y.nconnections ≡ x.nconnections
    → y.maxconnections ≡ x.maxconnections
    → y.heap ≡ x.heap
    → Inv x es
    → Inv y es
Inv-keep x y es a n m h v = record {
  room = v.room;
  array = a ∙ v.array;
  count = n ∙ v.count;
  cap = m ∙ v.cap;
  small = rw m v.small;
  live = rw h v.live;
}

-- A change of the heap at a pointer that no entry has.
pub Live-update :
    (h : Conns) (p : Ptr) (c : Option Conn) (es : List Entry)
    → All (λ o. p ≢ o.0) es
    → Live h es
    → Live (update h p c) es
unfolding update
Live-update h p c [] n l = tt
Live-update h p c (e ∷ es) n l = (
  record {
    conn = l.0.conn;
    ne_null = l.0.ne_null;
    at = ground (arith, n.0, l.0.at);
    socket = l.0.socket;
    valid = l.0.valid;
    owned = l.0.owned;
  },
  l.1,
  Live-update h p c es n.1 l.2,
)

pub Alone-ptr : (e : Entry) (es : List Entry) → Alone e es → All (λ o. e.0 ≢ o.0) es
Alone-ptr e [] a = tt
Alone-ptr e (o ∷ es) a = (a.0.0, Alone-ptr e es a.1)

Alone-remove :
    (e : Entry) (ls : List Entry) (r : Entry) (bs : List Entry)
    → Alone e (ls ++ r ∷ bs)
    → Alone e (ls ++ bs)
Alone-remove e [] r bs a = a.1
Alone-remove e (o ∷ ls) r bs a = (a.0, Alone-remove e ls r bs a.1)

pub Alone-at :
    (e : Entry) (ls : List Entry) (r : Entry) (bs : List Entry)
    → Alone e (ls ++ r ∷ bs)
    → (e.0 ≢ r.0) × (e.1 ≢ r.1)
Alone-at e [] r bs a = a.0
Alone-at e (o ∷ ls) r bs a = Alone-at e ls r bs a.1

pub Live-at :
    (h : Conns) (ls : List Entry) (e : Entry) (bs : List Entry) → Live h (ls ++ e ∷ bs) → Open h e
Live-at h [] e bs l = l.0
Live-at h (a ∷ ls) e bs l = Live-at h ls e bs l.2

-- What is left alive when one connection is freed.
pub Live-remove :
    (h : Conns) (ls : List Entry) (e : Entry) (bs : List Entry)
    → Live h (ls ++ e ∷ bs)
    → Live (update h e.0 none) (ls ++ bs)
unfolding update
Live-remove h [] e bs l = Live-update h e.0 none bs (Alone-ptr e bs l.1) l.2
Live-remove h (a ∷ ls) e bs l =
    let apart = (Alone-at a ls e bs l.1).0 in
    (
      record {
        conn = l.0.conn;
        ne_null = l.0.ne_null;
        at = ground (arith, apart, l.0.at);
        socket = l.0.socket;
        valid = l.0.valid;
        owned = l.0.owned;
      },
      Alone-remove a ls e bs l.1,
      Live-remove h ls e bs l.2,
    )
