-- ===== src/UdpServer/Remove.antt =====
-- udpserver.c: `udpserver_sender_remove` leaves a gap in the table, and what falls into it.
use mathlib.Core.Path.{subst}
use mathlib.Core.List.{append-nil, append_assoc}
use pd_iemnet.Prelude.{
  ℕ, zero, suc, ◌+◌, ◌-◌, ◌<◌, ◌≡◌, ◌≢◌, refl, ap, sym, ◌∙◌, true, false, none, some, List, [], ◌∷◌,
  ◌++◌, length, replicate, arith, All, ◌==◌, get_elem?, length-map, length-append, ltb,
}
use pd_iemnet.Prelude.Int.{ℤ, pos, eqb_ℤ, eqb_ℤ_iff}
use pd_iemnet.TcpServer.{Ptr, null}
use pd_iemnet.TcpServer.Gap.{get_elem?-at, get_elem?-after, set_slot-at}
use pd_iemnet.UdpServer.{Server, store, slot, deref, does}
use pd_iemnet.UdpServer.Table.{
  shift_loop, remove_at, sender_remove, sender_free, release, decrement, find_loop, socket2index,
}
use pd_iemnet.UdpServer.Live.{
  Entry, ptrs, Alive, Alive-at, Alive-remove, Alive-front, array_split, Inv,
}

-- The loop writes to one place only.
shift_loop-hole :
    (pre : List Ptr) (q p : Ptr) (post : List Ptr) (n id : ℕ)
    → id ≡ length pre
    → (r : Ptr) × (shift_loop n id (pre ++ q ∷ p ∷ post) ≡ some (pre ++ r ∷ p ∷ post))
unfolding shift_loop
shift_loop-hole pre q p post zero id i = (q, refl)
shift_loop-hole pre q p post (suc n) id i =
    let (r, e) = shift_loop-hole pre p p post n id i in
    (r, rw (get_elem?-after pre q p post id i, set_slot-at pre q p (p ∷ post) id i) e)

-- The table after a removal.
abbrev pub holed : Server → List Entry → Entry → List Ptr → Server
holed x ls e rest = record (does (record x { heap = store x.heap e.0 none }) (release e.1)) {
  sr = ptrs ls ++ null ∷ rest;
  nconnections = decrement x.nconnections;
}

remove_step :
    (x : Server) (ls : List Entry) (e : Entry) (p : Ptr) (post : List Ptr)
    → x.sr ≡ ptrs ls ++ e.0 ∷ p ∷ post
    → (e.0 ≢ null) × (x.heap e.0 ≡ some e.1)
    → length ls < x.nconnections
    → sender_remove x (length ls) ≡ some (holed x ls e (p ∷ post))
unfolding sender_remove remove_at sender_free
remove_step x ls e p post a live below =
    let llen : length ls ≡ length (ptrs ls) = sym (length-map ls (λ (o : Entry). o.0)) in
    let here : slot x (length ls) ≡ some e.0 =
      ap (λ l. get_elem? l (length ls)) a
      ∙ get_elem?-at (ptrs ls) e.0 (p ∷ post) (length ls) llen in
    let present : (e.0 == null) ≡ false = let ne = live.0 in ground (arith, ne) in
    let inside : ltb (length ls) x.nconnections ≡ true = ground arith in
    let (r, loop) =
      shift_loop-hole (ptrs ls) e.0 p post (x.nconnections - length ls) (length ls) llen in
    let shifted : shift_loop (x.nconnections - length ls) (length ls) x.sr
        ≡ some (ptrs ls ++ r ∷ p ∷ post) =
      ap (shift_loop (x.nconnections - length ls) (length ls)) a ∙ loop in
    let cleared = set_slot-at (ptrs ls) r null (p ∷ post) (length ls) llen in
    rw (inside, here, present) (rw (live.1, shifted, cleared) refl)

-- Removing a client that another one follows leaves a NULL pointer in its place and all others where
-- they were, while the number of clients goes down by one: the gap is not closed.
pub remove-gap :
    (x : Server) (ls : List Entry) (e r : Entry) (rs : List Entry) (v : Inv x (ls ++ e ∷ r ∷ rs))
    → (y : Server) × (sender_remove x (length ls) ≡ some y)
      × (y.sr ≡ ptrs ls ++ null ∷ (ptrs (r ∷ rs) ++ replicate v.room null))
      × (y.nconnections ≡ length ls + length (r ∷ rs))
      × Alive y.heap (ls ++ r ∷ rs)
remove-gap x ls e r rs v =
    let live = Alive-at x.heap ls e (r ∷ rs) v.alive in
    let count = length-append ls (e ∷ r ∷ rs) in
    (
      holed x ls e (ptrs (r ∷ rs) ++ replicate v.room null),
      remove_step x ls e r.0 (ptrs rs ++ replicate v.room null) (array_split x ls e (r ∷ rs) v) live
          (omega (arith, v.count, count)),
      refl,
      omega (arith, v.count, count, v.cap, v.small),
      Alive-remove x.heap ls e (r ∷ rs) v.alive,
    )

last_split :
    (x : Server) (ls : List Entry) (e : Entry) (room : ℕ) (v : Inv x (ls ++ e ∷ []))
    → v.room ≡ suc room
    → x.sr ≡ ptrs ls ++ e.0 ∷ null ∷ replicate room null
last_split x ls e room v r = array_split x ls e [] v ∙ ap (λ n. ptrs ls ++ e.0 ∷ replicate n null) r

-- Removing the last client, when the table has a place behind it, frees that client, keeps all
-- others, and leaves the table in order.
pub remove-last :
    (x : Server) (ls : List Entry) (e : Entry) (v : Inv x (ls ++ e ∷ []))
    → 0 < v.room
    → (y : Server) × (sender_remove x (length ls) ≡ some y)
      × Inv y ls
      × (y.log ≡ x.log ++ release e.1)
remove-last x ls e v h =
    let room = v.room - 1 in
    let r : v.room ≡ suc room = omega arith in
    let count = length-append ls (e ∷ []) in
    (
      holed x ls e (null ∷ replicate room null),
      remove_step x ls e null (replicate room null) (last_split x ls e room v r)
          (Alive-at x.heap ls e [] v.alive) (omega (arith, v.count, count)),
      record {
        room = suc (suc room);
        array = refl;
        count = omega (arith, v.count, count, v.cap, v.small);
        cap = omega (arith, v.cap, count);
        small = v.small;
        alive =
            subst (Alive (store x.heap e.0 none)) (append-nil ls)
              (Alive-remove x.heap ls e [] v.alive);
      },
      refl,
    )

find_loop-gap :
    (x : Server) (fd : ℤ) (pre : List Ptr) (ls : List Entry) (rest : List Ptr) (k i : ℕ)
    → x.sr ≡ pre ++ (ptrs ls ++ null ∷ rest)
    → i ≡ length pre
    → Alive x.heap ls
    → All (λ e. pos e.1.uniq ≢ fd) ls
    → length ls < k
    → find_loop k i x fd ≡ none
unfolding find_loop deref
find_loop-gap x fd pre ls rest zero i a e l h b = absurd (omega arith)
find_loop-gap x fd pre [] rest (suc k) i a e l h b =
    let gap : slot x i ≡ some null = ap (λ l. get_elem? l i) a ∙ get_elem?-at pre null rest i e in
    rw gap refl
find_loop-gap x fd pre (o ∷ ls) rest (suc k) i a e l h b =
    let there : slot x i ≡ some o.0 =
      ap (λ l. get_elem? l i) a ∙ get_elem?-at pre o.0 (ptrs ls ++ null ∷ rest) i e in
    let present : (o.0 == null) ≡ false = let ne = l.0.0 in ground (arith, ne) in
    let apart : eqb_ℤ (pos o.1.uniq) fd ≡ false =
      ground (arith, h.0, eqb_ℤ_iff (pos o.1.uniq) fd) in
    rw (there, present, l.0.1, apart)
      (find_loop-gap x fd (pre ++ o.0 ∷ []) ls rest k (i + 1)
        (a ∙ sym (append_assoc pre (o.0 ∷ []) (ptrs ls ++ null ∷ rest)))
        (omega (arith, length-append pre (o.0 ∷ []))) l.2 h.1 (omega arith))

-- After a client that another one follows has been removed, looking for a client by a socket that
-- none in front of the gap has dereferences the NULL pointer in the gap.
pub remove-lookup_faults :
    (x : Server) (ls : List Entry) (e r : Entry) (rs : List Entry) (fd : ℤ)
    → Inv x (ls ++ e ∷ r ∷ rs)
    → All (λ o. pos o.1.uniq ≢ fd) ls
    → (y : Server) × (sender_remove x (length ls) ≡ some y) × (socket2index y fd ≡ none)
unfolding socket2index
remove-lookup_faults x ls e r rs fd v h =
    let (y, step, array, count, alive) = remove-gap x ls e r rs v in
    (
      y,
      step,
      find_loop-gap y fd [] ls (ptrs (r ∷ rs) ++ replicate v.room null) y.nconnections 0 array refl
          (Alive-front y.heap ls (r ∷ rs) alive) h (omega (arith, count)),
    )
