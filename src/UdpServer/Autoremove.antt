-- ===== src/UdpServer/Autoremove.antt =====
-- udpserver.c: what `udpserver_sender_autoremove` leaves.
use mathlib.Core.List.{append_assoc}
use mathlib.Core.Path.{subst}
use pd_iemnet.Prelude.{
  Bool, true, Option, ◌⊎◌, ℕ, zero, suc, ◌+◌, ◌-◌, ◌≤◌, ◌≡◌, refl, ap, sym, ◌∙◌, false, some, List,
  [], ◌∷◌, ◌++◌, length, replicate, arith, ◌==◌, ◌&&◌, if◌then◌else◌, length-map, length-append,
  length-replicate, Bool-cases, inl, inr, ltb,
}
use pd_iemnet.Prelude.Int.{ℤ, pos, ltb_ℤ}
use pd_iemnet.TcpServer.{Ptr, null}
use pd_iemnet.TcpServer.Gap.{get_elem?-at, set_slot-at}
use pd_iemnet.UdpServer.{Clients, Server, Env}
use pd_iemnet.UdpServer.Table.{
  clear_loop, count_loop, sweep, sweep_loop, sender_autoremove, since, expired,
}
use pd_iemnet.UdpServer.Live.{Entry, ptrs, Alive, Inv}
use pd_iemnet.UdpServer.Sweep.{unexpired, Same}
use pd_iemnet.UdpServer.SweepLoop.{unexpired_drops, unexpired_keeps, sweep_loop-unexpired}

clear_loop-null :
    (pre post : List Ptr) (n to : ℕ)
    → to ≡ length pre
    → n ≡ length post
    → clear_loop n to (pre ++ post) ≡ some (pre ++ replicate n null)
unfolding clear_loop
clear_loop-null pre [] zero to t e = refl
clear_loop-null pre [] (suc n) to t e = absurd (omega arith)
clear_loop-null pre (q ∷ post) zero to t e = absurd (omega arith)
clear_loop-null pre (q ∷ post) (suc n) to t e = rw (set_slot-at pre q null post to t) (
    ap (clear_loop n (to + 1)) (sym (append_assoc pre (null ∷ []) post))
    ∙ clear_loop-null (pre ++ null ∷ []) post n (to + 1)
        (omega (arith, length-append pre (null ∷ []))) (omega arith)
    ∙ ap some (append_assoc pre (null ∷ []) (replicate n null)))

count_loop-null :
    (pre : List Ptr) (room n id : ℕ)
    → id ≡ length pre
    → n ≡ room
    → count_loop n id (pre ++ replicate room null) ≡ some 0
unfolding count_loop
count_loop-null pre room zero id i e = refl
count_loop-null pre zero (suc n) id i e = absurd (omega arith)
count_loop-null pre (suc room) (suc n) id i e =
    rw (get_elem?-at pre null (replicate room null) id i) refl

plus_one : (n : ℕ) → n + 1 ≡ suc n
plus_one n = omega arith

count_loop-length :
    (h : Clients) (pre : List Ptr) (es : List Entry) (room n id : ℕ)
    → Alive h es
    → id ≡ length pre
    → n ≡ length es + room
    → count_loop n id (pre ++ (ptrs es ++ replicate room null)) ≡ some (length es)
unfolding count_loop
count_loop-length h pre [] room n id l i e = count_loop-null pre room n id i (omega arith)
count_loop-length h pre (o ∷ es) room zero id l i e = absurd (omega arith)
count_loop-length h pre (o ∷ es) room (suc n) id l i e =
    let present : (o.0 == null) ≡ false = let ne = l.0.0 in ground (arith, ne) in
    let rest : count_loop n (id + 1) (pre ++ o.0 ∷ (ptrs es ++ replicate room null))
        ≡ some (length es) =
      ap (count_loop n (id + 1))
        (sym (append_assoc pre (o.0 ∷ []) (ptrs es ++ replicate room null)))
      ∙ count_loop-length h (pre ++ o.0 ∷ []) es room n (id + 1) l.2
          (omega (arith, length-append pre (o.0 ∷ []))) (omega arith) in
    rw (get_elem?-at pre o.0 (ptrs es ++ replicate room null) id i, present, rest)
      (ap some (plus_one (length es)))

unexpired-length : (env : Env) (t : ℤ) (es : List Entry) → length (unexpired env t es) ≤ length es
unexpired-length env t [] = omega arith
unexpired-length env t (e ∷ es) =
    let rest = unexpired-length env t es in
    elim (Bool-cases (expired env t e.1)) [
      | inl old ↦
          subst (λ o. length o ≤ suc (length es)) (sym (unexpired_drops env t e es old))
            (shorter rest)
      | inr new ↦
          subst (λ o. length o ≤ suc (length es)) (sym (unexpired_keeps env t e es new))
            (omega (arith, rest))
    ]
  where
    shorter : {a b : ℕ} → a ≤ b → a ≤ suc b
    shorter h = omega arith

-- The server after a sweep of the state `z` behind the first loop.
abbrev swept : Server → List Entry → Server
swept z out = record z {
  sr = ptrs out ++ replicate (z.maxconnections - length out) null;
  nconnections = length out;
}

sweep-unexpired :
    (env : Env) (x : Server) (es : List Entry)
    → Inv x es
    → (y : Server) × (sweep env x ≡ some y)
      × Inv y (unexpired env x.timeout es)
      × Same (record x { sr = y.sr; lastchecked = env.now }) y
unfolding sweep
sweep-unexpired env x es v =
    let out = unexpired env x.timeout es in
    let tail = replicate v.room null in
    let (z, mid, loop, arr, al, same) =
      sweep_loop-unexpired env (record x { lastchecked = env.now }) [] [] es tail 0 0 v.array
        v.alive refl refl in
    let plen : length (ptrs out) ≡ length out = length-map out (λ (o : Entry). o.0) in
    let total : length z.sr ≡ length out + length (mid ++ tail) =
      ap length arr
      ∙ length-append (ptrs out) (mid ++ tail)
      ∙ ap (λ n. n + length (mid ++ tail)) plen in
    let before : length x.sr ≡ length es + v.room =
      ap length v.array
      ∙ omega (
        arith,
        length-append (ptrs es) tail,
        length-map es (λ (o : Entry). o.0),
        length-replicate {A = Ptr} v.room null,
      ) in
    let behind : z.maxconnections - length out ≡ length (mid ++ tail) =
      omega (arith, same.maxconnections, v.cap, same.size) in
    let cleared : clear_loop (z.maxconnections - length out) (length out) z.sr
        ≡ some (ptrs out ++ replicate (z.maxconnections - length out) null) =
      ap (clear_loop (z.maxconnections - length out) (length out)) arr
      ∙ clear_loop-null (ptrs out) (mid ++ tail) (z.maxconnections - length out) (length out)
          (sym plen) behind in
    let fits : z.maxconnections ≡ length out + (z.maxconnections - length out) =
      omega (arith, same.maxconnections, v.cap, unexpired-length env x.timeout es) in
    let counted =
      count_loop-length z.heap [] out (z.maxconnections - length out) z.maxconnections 0 al refl
        fits in
    let loop' : sweep_loop env x.nconnections 0 0 (record x { lastchecked = env.now })
        ≡ some (length out, z) =
      ap (λ n. sweep_loop env n 0 0 (record x { lastchecked = env.now })) v.count ∙ loop in
    (
      swept z out,
      rw (loop', cleared, counted) refl,
      record {
        room = z.maxconnections - length out;
        array = refl;
        count = refl;
        cap = fits;
        small = rw same.maxconnections v.small;
        alive = al;
      },
      record {
        size = refl;
        maxconnections = same.maxconnections;
        timeout = same.timeout;
        connectsocket = same.connectsocket;
        port = same.port;
        ifaddr = same.ifaddr;
        accept = same.accept;
        lastchecked = same.lastchecked;
        defaulttarget = same.defaulttarget;
        receiver = same.receiver;
        floatlist = same.floatlist;
        uniq = same.uniq;
      },
    )

-- The clients that have been seen within the timeout.
abbrev pub recent : (now : ℕ) (timeout : ℤ) → List Entry → List Entry
recent now timeout [] = []
recent now timeout (e ∷ es) =
    let rest = recent now timeout es in
    if ltb_ℤ timeout (pos (now - e.1.lastseen)) then rest else e ∷ rest

unexpired-recent :
    (env : Env) (timeout : ℤ) (es : List Entry)
    → unexpired env timeout es ≡ recent env.now timeout es
unexpired-recent env timeout [] = refl
unexpired-recent env timeout (e ∷ es) = elim (Bool-cases (expired env timeout e.1)) [
  | inl old ↦ unexpired_drops env timeout e es old ∙ unexpired-recent env timeout es ∙ rw old refl
  | inr new ↦
      unexpired_keeps env timeout e es new
      ∙ ap (λ l. e ∷ l) (unexpired-recent env timeout es)
      ∙ rw new refl
]

-- Whether there is a timeout, and time has passed since the last check.
abbrev pub due : (now : ℕ) → Server → Bool
due now x = ltb_ℤ (pos 0) x.timeout && ltb 0 (now - x.lastchecked)

abbrev pub Removed : Env → Server → List Entry → Option Server → Type 0
Removed env x es r =
    ((due env.now x ≡ true)
      × ((y : Server) × (r ≡ some y)
          × Inv y (recent env.now x.timeout es)
          × Same (record x { sr = y.sr; lastchecked = env.now }) y))
    ⊎ ((due env.now x ≡ false) × (r ≡ some x))

pub autoremove-unexpired :
    (env : Env) (x : Server) (es : List Entry)
    → Inv x es
    → Removed env x es (sender_autoremove env x)
unfolding sender_autoremove
autoremove-unexpired env x es v = elim (Bool-cases (ltb_ℤ (pos 0) x.timeout)) [
  | inr off ↦ inr (rw off refl, rw off refl)
  | inl on ↦ elim (Bool-cases (ltb 0 (since env x.lastchecked))) [
    | inr now ↦ inr (rw (on, now) refl, rw (on, now) refl)
    | inl later ↦
        let (y, e, w, same) = sweep-unexpired env x es v in
        inl (
          rw (on, later) refl,
          (y, rw (on, later) e, subst (Inv y) (unexpired-recent env x.timeout es) w, same),
        )
  ]
]

-- The clients that are left in either case.
abbrev pub survivors : Env → Server → List Entry → List Entry
survivors env x es = if due env.now x then recent env.now x.timeout es else es

pub autoremove-survivors :
    (env : Env) (x : Server) (es : List Entry)
    → Inv x es
    → (y : Server) × (sender_autoremove env x ≡ some y) × Inv y (survivors env x es)
autoremove-survivors env x es v = elim (autoremove-unexpired env x es v) [
  | inl (d, (y, e, w, _)) ↦ rw d (y, e, w)
  | inr (d, e) ↦ rw d (x, e, v)
]
