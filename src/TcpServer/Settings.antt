-- ===== src/TcpServer/Settings.antt =====
-- tcpserver.c: `tcpserver_port`, `tcpserver_maxconnections` and `tcpserver_new` and the table.
use mathlib.Core.List.{append_assoc}
use mathlib.Core.Path.{subst}
use pd_iemnet.Chunk.{floatlist_create}
use pd_iemnet.Prelude.{
  none, ℕ, zero, suc, ◌+◌, ◌-◌, ◌^◌, ◌≤◌, ◌<◌, ◌≡◌, refl, ap, sym, ◌∙◌, Bool, true, false, List, [],
  ◌∷◌, ◌++◌, ltb, leb, length, arith, length-append, replicate, ◌==◌, inl, inr, Bool-cases,
  length-map, length-replicate, ◌&&◌, if◌then◌else◌, take,
}
use pd_iemnet.Prelude.Int.{ℤ, pos, is_neg, eqb_ℤ, minus_one}
use pd_iemnet.Os.{Os, iemnet_closesocket}
use pd_iemnet.TcpServer.{Ptr, null, Server, emits, does, server_info}
use pd_iemnet.TcpServer.Info.{info_event}
use pd_iemnet.TcpServer.Control.{
  maxconnections, resize_slots, new, Binding, port, close_listener, listening, port_message,
}
use pd_iemnet.TcpServer.Live.{Entry, ptrs, Inv, Inv-keep}

-- The table of one server is the table of the other.
record Kept (x y : Server) : Type 0 where
  sr : y.sr ≡ x.sr
  nconnections : y.nconnections ≡ x.nconnections
  maxconnections : y.maxconnections ≡ x.maxconnections
  heap : y.heap ≡ x.heap

Kept-if : (x a b : Server) (t : Bool) → Kept x a → Kept x b → Kept x (if t then a else b)
Kept-if x a b true k l = k
Kept-if x a b false k l = l

Kept-same :
    (x y : Server)
    → y.sr ≡ x.sr
    → y.nconnections ≡ x.nconnections
    → y.maxconnections ≡ x.maxconnections
    → y.heap ≡ x.heap
    → Kept x y
Kept-same x y a n m h = record { sr = a; nconnections = n; maxconnections = m; heap = h }

abbrev told : Server → Server
told x = emits x (info_event server_info)

close_listener-Kept : (x : Server) → Kept x (close_listener (told x))
unfolding close_listener
close_listener-Kept x =
    Kept-if x _ _ (is_neg x.connectsocket) (Kept-same x _ refl refl refl refl)
      (Kept-same x _ refl refl refl refl)

abbrev failed : Server → Binding → Server
failed x b =
    emits (does (close_listener (told x)) (iemnet_closesocket b.socket)) (port_message minus_one)

port-Kept : (os : Os) (x : Server) (portno : ℤ) (b : Binding) → Kept x (port os x portno b)
unfolding port listening
port-Kept os x portno b =
    let k = close_listener-Kept x in
    let fail : Kept x (failed x b) =
      Kept-same x (failed x b) k.sr k.nconnections k.maxconnections k.heap in
    let good : Kept x (listening os (close_listener (told x)) b.socket portno) =
      Kept-same x _ k.sr k.nconnections k.maxconnections k.heap in
    Kept-if x (told x) _ (eqb_ℤ x.port portno) (Kept-same x _ refl refl refl refl) (
      Kept-if x (close_listener (told x)) _ (is_neg b.socket) k (
        Kept-if x (failed x b) _ (is_neg b.bind) fail (
          Kept-if x (failed x b) (listening os (close_listener (told x)) b.socket portno)
            (is_neg b.listen) fail good)))

-- A change of the port never touches the connections, whatever the system answers.
pub port-Inv :
    (os : Os) (x : Server) (es : List Entry) (portno : ℤ) (b : Binding)
    → Inv x es
    → Inv (port os x portno b) es
port-Inv os x es portno b v =
    let k = port-Kept os x portno b in
    Inv-keep x (port os x portno b) es k.sr k.nconnections k.maxconnections k.heap v

-- The object before `tcpserver_port` is called for it.
abbrev blank : Os → Server
blank os = record {
  serialize = true;
  accepting = true;
  sr = replicate 32 null;
  nconnections = 0;
  maxconnections = 32;
  connectsocket = minus_one;
  port = minus_one;
  defaulttarget = pos 0;
  floatlist = floatlist_create os.malloc os.fresh 1024;
  heap = λ p. none;
  log = [];
}

-- A new server has no connections and a table of 32 places, all of them NULL.
pub new-Inv : (os : Os) (portno : ℤ) (b : Binding) → Inv (new os portno b) []
unfolding new
new-Inv os portno b =
    port-Inv os (blank os) [] portno b
      (record { room = 32; array = refl; count = refl; cap = refl; small = omega arith; live = tt })

take-replicate : {A : Type 0} (n k : ℕ) (a : A) → n ≤ k → take n (replicate k a) ≡ replicate n a
take-replicate zero k a h = refl
take-replicate (suc n) zero a h = absurd (omega arith)
take-replicate (suc n) (suc k) a h = ap (λ t. a ∷ t) (take-replicate n k a (omega arith))

sub_suc : (a b : ℕ) → a - b ≡ suc a - suc b
sub_suc a b = omega arith

add_suc : (a b : ℕ) → suc (a + b) ≡ suc a + b
add_suc a b = omega arith

replicate-append :
    {A : Type 0} (n k : ℕ) (a : A) → replicate n a ++ replicate k a ≡ replicate (n + k) a
replicate-append zero k a = ap (λ m. replicate m a) (omega arith)
replicate-append (suc n) k a =
    ap (λ t. a ∷ t) (replicate-append n k a) ∙ ap (λ m. replicate m a) (add_suc n k)

take-front :
    (ps qs : List Ptr) (n : ℕ) → length ps ≤ n → take n (ps ++ qs) ≡ ps ++ take (n - length ps) qs
take-front [] qs n h = ap (λ m. take m qs) (omega arith)
take-front (p ∷ ps) qs zero h = absurd (omega arith)
take-front (p ∷ ps) qs (suc n) h =
    ap (λ t. p ∷ t)
      (take-front ps qs n (omega arith) ∙ ap (λ m. ps ++ take m qs) (sub_suc n (length ps)))

resize_slots-null :
    (ps : List Ptr) (room k n : ℕ)
    → length ps ≤ n
    → n ≤ length ps + room + k
    → resize_slots (ps ++ replicate room null) (replicate k null) n
      ≡ ps ++ replicate (n - length ps) null
resize_slots-null ps room k n h l =
    ap (take n) (
      append_assoc ps (replicate room null) (replicate k null)
      ∙ ap (λ t. ps ++ t) (replicate-append room k null))
    ∙ take-front ps (replicate (room + k) null) n h
    ∙ ap (λ t. ps ++ t) (take-replicate (n - length ps) (room + k) null (omega arith))

Becomes-Inv :
    (x y : Server) (es : List Entry) (m : ℕ)
    → y ≡ x
    → Inv x es
    → x.maxconnections ≡ m
    → Inv y es × (y.maxconnections ≡ m)
Becomes-Inv x y es m e v h =
    (subst (λ z. Inv z es) (sym e) v, ap (λ (z : Server). z.maxconnections) e ∙ h)

-- The server with a table of `n` places.
abbrev resized : Server → ℕ → ℕ → Server
resized x n k = record x { sr = resize_slots x.sr (replicate k null) n; maxconnections = n }

resized-Inv :
    (x : Server) (es : List Entry) (n k : ℕ)
    → Inv x es
    → n < 2 ^ 32
    → x.nconnections ≤ n
    → n ≤ length x.sr + k
    → Inv (resized x n k) es
resized-Inv x es n k v small fits mem =
    let plen : length (ptrs es) ≡ length es = length-map es (λ (o : Entry). o.0) in
    let size : length x.sr ≡ length (ptrs es) + v.room =
      ap length v.array
      ∙ length-append (ptrs es) (replicate v.room null)
      ∙ ap (λ m. length (ptrs es) + m) (length-replicate {A = Ptr} v.room null) in
    record {
      room = n - length (ptrs es);
      array =
          ap (λ l. resize_slots l (replicate k null) n) v.array
          ∙ resize_slots-null (ptrs es) v.room k n (omega (arith, v.count)) (omega arith);
      count = v.count;
      cap = omega (arith, v.count);
      small = small;
      live = v.live;
    }

-- The maximum becomes `n` if that is positive, not below the number of connections, and the memory
-- can be had; else it stays. Either way the connections stay as they are, if the memory that is
-- added is zero, as `resizebytes` of Pd makes it.
pub maxconnections-Inv :
    (x : Server) (es : List Entry) (n k : ℕ) (ok : Bool)
    → Inv x es
    → n < 2 ^ 32
    → n ≤ length x.sr + k
    → Inv (maxconnections x (pos n) ok (replicate k null)) es
      × ((maxconnections x (pos n) ok (replicate k null)).maxconnections
          ≡ (if ltb 0 n && (leb x.nconnections n && ok) then n else x.maxconnections))
unfolding maxconnections
maxconnections-Inv x es n k ok v small mem = elim (Bool-cases (ltb 0 n)) [
  | inr a ↦
      Becomes-Inv x (maxconnections x (pos n) ok (replicate k null)) es _ (ground arith) v
        (ground arith)
  | inl a ↦ elim (Bool-cases (leb x.nconnections n)) [
    | inr b ↦
        Becomes-Inv x (maxconnections x (pos n) ok (replicate k null)) es _ (ground arith) v
          (ground arith)
    | inl b ↦ elim (Bool-cases (n == x.maxconnections)) [
      | inl c ↦
          Becomes-Inv x (maxconnections x (pos n) ok (replicate k null)) es _ (ground arith) v
            (ground arith)
      | inr c ↦ elim (Bool-cases ok) [
        | inr d ↦
            Becomes-Inv x (maxconnections x (pos n) ok (replicate k null)) es _ (ground arith) v
              (ground arith)
        | inl d ↦
            Becomes-Inv (resized x n k) (maxconnections x (pos n) ok (replicate k null)) es _
              (ground arith) (resized-Inv x es n k v small (ground arith) mem) (ground arith)
      ]
    ]
  ]
]
