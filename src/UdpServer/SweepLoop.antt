-- ===== src/UdpServer/SweepLoop.antt =====
-- udpserver.c: the whole loop of `udpserver_sender_autoremove`.
use mathlib.Core.List.{append_assoc, map-append, append-nil}
use mathlib.Core.Path.{subst}
use pd_iemnet.Prelude.{
  ℕ, suc, ◌+◌, ◌≡◌, refl, ap, sym, ◌∙◌, true, false, Option, some, List, [], ◌∷◌, ◌++◌, length,
  arith, length-append, Bool-cases, inl, inr,
}
use pd_iemnet.Prelude.Int.{ℤ}
use pd_iemnet.TcpServer.{Ptr, null}
use pd_iemnet.UdpServer.{Server, Env, slot}
use pd_iemnet.UdpServer.Table.{expired, sweep_one, sweep_loop}
use pd_iemnet.UdpServer.Live.{Entry, ptrs, Alive, Alive-at, Alive-remove}
use pd_iemnet.UdpServer.Sweep.{
  Same, Same-after, Swept, freed, length-moved, moved, slot-mid, sweep_one-expired, sweep_one-kept,
  unexpired,
}

Swept-from :
    (x y : Server) (tail : List Ptr) (r : Option (ℕ × Server)) (out : List Entry)
    → Same x y
    → Swept y tail r out
    → Swept x tail r out
Swept-from x y tail r out same (z, m, e, a, l, s) = (z, m, e, a, l, Same-after x y z same s)

pub unexpired_drops :
    (env : Env) (t : ℤ) (e : Entry) (es : List Entry)
    → expired env t e.1 ≡ true
    → unexpired env t (e ∷ es) ≡ unexpired env t es
unexpired_drops env t e es h =
    ap (λ b. elim b [ true ↦ unexpired env t es | false ↦ e ∷ unexpired env t es ]) h

pub unexpired_keeps :
    (env : Env) (t : ℤ) (e : Entry) (es : List Entry)
    → expired env t e.1 ≡ false
    → unexpired env t (e ∷ es) ≡ e ∷ unexpired env t es
unexpired_keeps env t e es h =
    ap (λ b. elim b [ true ↦ unexpired env t es | false ↦ e ∷ unexpired env t es ]) h

length-hole :
    (ps mid : List Ptr) (p q : Ptr) (rest : List Ptr)
    → length (ps ++ (mid ++ q ∷ rest)) ≡ length (ps ++ (mid ++ p ∷ rest))
length-hole ps mid p q rest = omega (
  arith,
  length-append ps (mid ++ q ∷ rest),
  length-append ps (mid ++ p ∷ rest),
  length-append mid (q ∷ rest),
  length-append mid (p ∷ rest),
)

length-shifted :
    (ps mid : List Ptr) (p : Ptr) (rest : List Ptr)
    → length (ps ++ p ∷ (moved mid p ++ rest)) ≡ length (ps ++ (mid ++ p ∷ rest))
length-shifted ps mid p rest = omega (
  arith,
  length-append ps (p ∷ (moved mid p ++ rest)),
  length-append ps (mid ++ p ∷ rest),
  length-append (moved mid p) rest,
  length-append mid (p ∷ rest),
  length-moved mid p,
)

array-snoc :
    (ks : List Entry) (e : Entry) (rest : List Ptr)
    → ptrs ks ++ e.0 ∷ rest ≡ ptrs (ks ++ e ∷ []) ++ rest
array-snoc ks e rest = sym (
    ap (λ l. l ++ rest) (map-append (λ (o : Entry). o.0) ks (e ∷ []))
    ∙ append_assoc (ptrs ks) (e.0 ∷ []) rest)

sweep_loop_step :
    (env : Env) (x y : Server) (n id to to' : ℕ) (p : Ptr)
    → slot x id ≡ some p
    → sweep_one env id to x p ≡ some (to', y)
    → sweep_loop env (suc n) id to x ≡ sweep_loop env n (id + 1) to' y
unfolding sweep_loop
sweep_loop_step env x y n id to to' p s e = rw (s, e) refl

pub sweep_loop-unexpired :
    (env : Env) (x : Server) (ks : List Entry) (mid : List Ptr) (es : List Entry) (tail : List Ptr)
    (id to : ℕ)
    → x.sr ≡ ptrs ks ++ (mid ++ (ptrs es ++ tail))
    → Alive x.heap (ks ++ es)
    → id ≡ length ks + length mid
    → to ≡ length ks
    → Swept x tail (sweep_loop env (length es) id to x) (ks ++ unexpired env x.timeout es)
unfolding sweep_loop
sweep_loop-unexpired env x ks mid [] tail id to a l i t =
    subst (Swept x tail (some (to, x))) (sym (append-nil ks)) (
      x,
      mid,
      ap (λ n. some (n, x)) t,
      a,
      subst (Alive x.heap) (append-nil ks) l,
      record {
        size = refl;
        maxconnections = refl;
        timeout = refl;
        connectsocket = refl;
        port = refl;
        ifaddr = refl;
        accept = refl;
        lastchecked = refl;
        defaulttarget = refl;
        receiver = refl;
        floatlist = refl;
        uniq = refl;
      },
    )
sweep_loop-unexpired env x ks mid (e ∷ es) tail id to a l i t =
    let live = Alive-at x.heap ks e es l in
    let rest = ptrs es ++ tail in
    let there = slot-mid x ks mid e.0 rest id a i in
    elim (Bool-cases (expired env x.timeout e.1)) [
      | inl old ↦
          let y = freed x e (ptrs ks ++ (mid ++ null ∷ rest)) in
          let step = sweep_one-expired env x ks mid e rest id to a live i old in
          let r =
            sweep_loop-unexpired env y ks (mid ++ null ∷ []) es tail (id + 1) to
              (ap (λ t. ptrs ks ++ t) (sym (append_assoc mid (null ∷ []) rest)))
              (Alive-remove x.heap ks e es l) (omega (arith, length-append mid (null ∷ []))) t in
          let same : Same x y = record {
            size = length-hole (ptrs ks) mid e.0 null rest ∙ sym (ap length a);
            maxconnections = refl;
            timeout = refl;
            connectsocket = refl;
            port = refl;
            ifaddr = refl;
            accept = refl;
            lastchecked = refl;
            defaulttarget = refl;
            receiver = refl;
            floatlist = refl;
            uniq = refl;
          } in
          subst (λ o. Swept x tail (sweep_loop env (suc (length es)) id to x) (ks ++ o))
            (sym (unexpired_drops env x.timeout e es old))
            (subst (λ o. Swept x tail o (ks ++ unexpired env x.timeout es))
              (sym (sweep_loop_step env x y (length es) id to to e.0 there step))
              (Swept-from x y tail _ _ same r))
      | inr new ↦
          let y = record x { sr = ptrs ks ++ e.0 ∷ (moved mid e.0 ++ rest) } in
          let step = sweep_one-kept env x ks mid e rest id to a live t new in
          let r =
            sweep_loop-unexpired env y (ks ++ e ∷ []) (moved mid e.0) es tail (id + 1) (to + 1)
              (array-snoc ks e (moved mid e.0 ++ rest))
              (subst (Alive x.heap) (sym (append_assoc ks (e ∷ []) es)) l)
              (omega (arith, length-moved mid e.0, length-append ks (e ∷ [])))
              (omega (arith, length-append ks (e ∷ []))) in
          let same : Same x y = record {
            size = length-shifted (ptrs ks) mid e.0 rest ∙ sym (ap length a);
            maxconnections = refl;
            timeout = refl;
            connectsocket = refl;
            port = refl;
            ifaddr = refl;
            accept = refl;
            lastchecked = refl;
            defaulttarget = refl;
            receiver = refl;
            floatlist = refl;
            uniq = refl;
          } in
          subst (λ o. Swept x tail (sweep_loop env (suc (length es)) id to x) (ks ++ o))
            (sym (unexpired_keeps env x.timeout e es new))
            (subst (λ o. Swept x tail o (ks ++ e ∷ unexpired env x.timeout es))
              (sym (sweep_loop_step env x y (length es) id to (to + 1) e.0 there step))
              (subst (Swept x tail _) (append_assoc ks (e ∷ []) (unexpired env x.timeout es))
                (Swept-from x y tail _ _ same r)))
    ]
