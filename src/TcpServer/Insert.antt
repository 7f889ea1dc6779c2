-- ===== src/TcpServer/Insert.antt =====
-- tcpserver.c: a new connection in the table.
use mathlib.Core.List.{append_assoc, map-append}
use pd_iemnet.Prelude.{
  suc, ◌+◌, ◌-◌, ◌<◌, ◌≡◌, ◌≢◌, refl, ap, sym, ◌∙◌, Bool, true, false, not, some, List, [], ◌∷◌,
  ◌++◌, ltb, arith, length-append, replicate, ◌==◌, length-map, All, ◌&&◌,
}
use pd_iemnet.Prelude.Int.{ℤ, is_neg, ntohl, ntohs}
use pd_iemnet.Hostname.{dotted}
use pd_iemnet.Sender.{sender_create}
use pd_iemnet.Os.{Os, Effect}
use pd_iemnet.TcpServer.{Ptr, null, Server, Conn, Conns, update, set_slot, does}
use pd_iemnet.TcpServer.Control.{Incoming}
use pd_iemnet.TcpServer.Live.{Entry, ptrs, Open, Live, Alone, Inv, Live-update}
use pd_iemnet.TcpServer.Gap.{set_slot-at}

-- The new connection stands alone: memory and socket are not in use.
abbrev pub IsNew : Incoming → List Entry → Type 0
IsNew i es = All (λ o. (o.0 ≢ i.alloc) × (o.1 ≢ i.fd)) es

-- When a connection is taken into the table: `accept` has succeeded, the server accepts connections
-- and has room, and there is memory for the connection.
abbrev pub admits : Server → Incoming → Bool
admits x i =
    not (is_neg i.fd)
    && (x.accepting && (ltb x.nconnections x.maxconnections && not (i.alloc == null)))

Live-append :
    (h : Conns) (es : List Entry) (e : Entry)
    → All (λ o. (o.0 ≢ e.0) × (o.1 ≢ e.1)) es
    → Live h es
    → Open h e
    → Live h (es ++ e ∷ [])
Live-append h [] e n l o = (o, tt, tt)
Live-append h (r ∷ es) e n l o = (l.0, Alone-append r es e n.0 l.1, Live-append h es e n.1 l.2 o)
  where
    Alone-append :
        (r : Entry) (es : List Entry) (e : Entry)
        → (r.0 ≢ e.0) × (r.1 ≢ e.1)
        → Alone r es
        → Alone r (es ++ e ∷ [])
    Alone-append r [] e n a = (n, tt)
    Alone-append r (s ∷ es) e n a = (a.0, Alone-append r es e n a.1)

IsNew-ptr :
    (es : List Entry) (p : Ptr) (fd : ℤ)
    → All (λ o. (o.0 ≢ p) × (o.1 ≢ fd)) es
    → All (λ o. p ≢ o.0) es
IsNew-ptr [] p fd n = tt
IsNew-ptr (e ∷ es) p fd n = (λ q. n.0.0 (sym q), IsNew-ptr es p fd n.1)

-- The server with a connection more.
abbrev pub added : Server → List Ptr → Ptr → Conn → List Effect → Server
added x sr p c l =
    does (record x { sr = sr; nconnections = x.nconnections + 1; heap = update x.heap p (some c) })
      l

pub added-Inv :
    (x : Server) (es : List Entry) (i : Incoming) (c : Conn) (l : List Effect) (v : Inv x es)
    → IsNew i es
    → i.alloc ≢ null
    → is_neg i.fd ≡ false
    → x.nconnections < x.maxconnections
    → c.fd ≡ i.fd
    → c.owned ≡ true
    → Inv
        (added x (ptrs (es ++ (i.alloc, i.fd) ∷ []) ++ replicate (v.room - 1) null) i.alloc c l)
        (es ++ (i.alloc, i.fd) ∷ [])
unfolding update
added-Inv x es i c l v n there good free f o = record {
  room = v.room - 1;
  array = refl;
  count = omega (arith, v.count, length-append es ((i.alloc, i.fd) ∷ []));
  cap = omega (arith, v.cap, v.count, length-append es ((i.alloc, i.fd) ∷ []));
  small = v.small;
  live =
      Live-append (update x.heap i.alloc (some c)) es (i.alloc, i.fd) n
        (Live-update x.heap i.alloc (some c) es (IsNew-ptr es i.alloc i.fd n) v.live)
        (record {
          conn = c;
          ne_null = there;
          at = ground arith;
          socket = f;
          valid = good;
          owned = o;
        });
}

pub slot-added :
    (x : Server) (es : List Entry) (e : Entry) (v : Inv x es)
    → x.nconnections < x.maxconnections
    → set_slot x.sr x.nconnections e.0 ≡ some (ptrs (es ++ e ∷ []) ++ replicate (v.room - 1) null)
slot-added x es e v free =
    let r : v.room ≡ suc (v.room - 1) = omega (arith, v.cap, v.count) in
    let arr : x.sr ≡ ptrs es ++ null ∷ replicate (v.room - 1) null =
      v.array ∙ ap (λ n. ptrs es ++ replicate n null) r in
    ap (λ l. set_slot l x.nconnections e.0) arr
    ∙ set_slot-at (ptrs es) null e.0 (replicate (v.room - 1) null) x.nconnections
        (v.count ∙ sym (length-map es (λ (o : Entry). o.0)))
    ∙ ap some (
        sym (
          ap (λ l. l ++ replicate (v.room - 1) null) (map-append (λ (o : Entry). o.0) es (e ∷ []))
          ∙ append_assoc (ptrs es) (e.0 ∷ []) (replicate (v.room - 1) null)))

-- The connection that `tcpserver_socketreceiver_new` makes.
abbrev pub made : Os → Server → Incoming → Conn
made os x i =
    let host = ntohl i.addr.s_addr in
    record {
      owned = true;
      host = host;
      port = ntohs i.addr.sin_port;
      fd = i.fd;
      client = x.nconnections;
      sender = sender_create os.malloc os.spawn i.fd;
      receiver = os.malloc 24;
      hostname = dotted host;
    }
