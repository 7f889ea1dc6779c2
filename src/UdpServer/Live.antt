-- ===== src/UdpServer/Live.antt =====
-- udpserver.c: the table of clients, seen as the list of those that are registered.
use mathlib.Core.List.{append_assoc, map-append}
use pd_iemnet.Prelude.{
  ap, ◌∙◌, ℕ, ◌+◌, ◌^◌, ◌<◌, ◌≡◌, ◌≢◌, Option, none, some, List, [], ◌∷◌, ◌++◌, length, map,
  replicate, arith, All,
}
use pd_iemnet.TcpServer.{Ptr, null}
use pd_iemnet.UdpServer.{Client, Clients, Server, store}

-- A pointer in the table and the client that it points to.
abbrev pub Entry : Type 0
Entry = Ptr × Client

abbrev pub ptrs : List Entry → List Ptr
ptrs = map (λ e. e.0)

-- The pointers are not NULL, different, and lead to the clients.
abbrev pub Alive : Clients → List Entry → Type 0
Alive h [] = Unit {0}
Alive h (e ∷ es) = ((e.0 ≢ null) × (h e.0 ≡ some e.1)) × All (λ o. e.0 ≢ o.0) es × Alive h es

-- `es` are the clients, in the order of their numbers.
pub record Inv (x : Server) (es : List Entry) : Type 0 where
  pub room : ℕ
  pub array : x.sr ≡ ptrs es ++ replicate room null
  pub count : x.nconnections ≡ length es
  pub cap : x.maxconnections ≡ length es + room
  pub small : x.maxconnections < 2 ^ 31
  pub alive : Alive x.heap es

pub Alive-store :
    (h : Clients) (p : Ptr) (c : Option Client) (es : List Entry)
    → All (λ o. p ≢ o.0) es
    → Alive h es
    → Alive (store h p c) es
unfolding store
Alive-store h p c [] n l = tt
Alive-store h p c (e ∷ es) n l =
    ((l.0.0, (let at = l.0.1 in ground (arith, n.0, at))), l.1, Alive-store h p c es n.1 l.2)

pub Alive-at :
    (h : Clients) (ls : List Entry) (e : Entry) (rs : List Entry)
    → Alive h (ls ++ e ∷ rs)
    → (e.0 ≢ null) × (h e.0 ≡ some e.1)
Alive-at h [] e rs l = l.0
Alive-at h (a ∷ ls) e rs l = Alive-at h ls e rs l.2

pub apart_at :
    (a : Entry) (ls : List Entry) (e : Entry) (rs : List Entry)
    → All (λ o. a.0 ≢ o.0) (ls ++ e ∷ rs)
    → a.0 ≢ e.0
apart_at a [] e rs n = n.0
apart_at a (o ∷ ls) e rs n = apart_at a ls e rs n.1

apart_remove :
    (a : Entry) (ls : List Entry) (e : Entry) (rs : List Entry)
    → All (λ o. a.0 ≢ o.0) (ls ++ e ∷ rs)
    → All (λ o. a.0 ≢ o.0) (ls ++ rs)
apart_remove a [] e rs n = n.1
apart_remove a (o ∷ ls) e rs n = (n.0, apart_remove a ls e rs n.1)

-- What is left when one client is freed.
pub Alive-remove :
    (h : Clients) (ls : List Entry) (e : Entry) (rs : List Entry)
    → Alive h (ls ++ e ∷ rs)
    → Alive (store h e.0 none) (ls ++ rs)
unfolding store
Alive-remove h [] e rs l = Alive-store h e.0 none rs l.1 l.2
Alive-remove h (a ∷ ls) e rs l =
    let apart = apart_at a ls e rs l.1 in
    let at = l.0.1 in
    ((l.0.0, ground (arith, apart, at)), apart_remove a ls e rs l.1, Alive-remove h ls e rs l.2)

-- The table around one of the clients.
pub array_split :
    (x : Server) (ls : List Entry) (e : Entry) (rs : List Entry) (v : Inv x (ls ++ e ∷ rs))
    → x.sr ≡ ptrs ls ++ e.0 ∷ (ptrs rs ++ replicate v.room null)
array_split x ls e rs v =
    v.array
    ∙ ap (λ l. l ++ replicate v.room null) (map-append (λ (o : Entry). o.0) ls (e ∷ rs))
    ∙ append_assoc (ptrs ls) (e.0 ∷ ptrs rs) (replicate v.room null)

pub Alive-front : (h : Clients) (ls rs : List Entry) → Alive h (ls ++ rs) → Alive h ls
Alive-front h [] rs l = tt
Alive-front h (e ∷ ls) rs l = (l.0, front ls rs l.1, Alive-front h ls rs l.2)
  where
    front : (ls rs : List Entry) → All (λ o. e.0 ≢ o.0) (ls ++ rs) → All (λ o. e.0 ≢ o.0) ls
    front [] rs n = tt
    front (o ∷ ls) rs n = (n.0, front ls rs n.1)
