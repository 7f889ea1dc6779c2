-- ===== src/TcpServer/Gap.antt =====
-- tcpserver.c: the loop that closes the gap in the table of connections.
use mathlib.Core.List.{append_assoc}
use pd_iemnet.Prelude.{
  ℕ, zero, suc, ◌+◌, ◌-◌, ◌≤◌, ◌≡◌, ap, sym, ◌∙◌, true, none, some, List, [], ◌∷◌, ◌++◌, ltb, leb,
  get_elem?, set, length, replicate, arith, set-append, get_elem?-append, length-append,
  Option-cases, length-set, inl, inr,
}
use pd_iemnet.TcpServer.{Ptr, null, set_slot}
use pd_iemnet.TcpServer.Table.{shift_loop, close_gap}

pub get_elem?-at :
    {A : Type 0} (pre : List A) (x : A) (post : List A) (k : ℕ)
    → k ≡ length pre
    → get_elem? (pre ++ x ∷ post) k ≡ some x
get_elem?-at pre x post k e = rw e (get_elem?-append pre x post)

pub get_elem?-after :
    {A : Type 0} (pre : List A) (x y : A) (post : List A) (k : ℕ)
    → k ≡ length pre
    → get_elem? (pre ++ x ∷ y ∷ post) (k + 1) ≡ some y
get_elem?-after pre x y post k e =
    rw (← append_assoc pre (x ∷ []) (y ∷ post))
      (get_elem?-at (pre ++ x ∷ []) y post (k + 1) (omega (arith, length-append pre (x ∷ []))))

pub set_slot-at :
    (pre : List Ptr) (q v : Ptr) (post : List Ptr) (k : ℕ)
    → k ≡ length pre
    → set_slot (pre ++ q ∷ post) k v ≡ some (pre ++ v ∷ post)
unfolding set_slot
set_slot-at pre q v post k e =
    let inside : ltb k (length (pre ++ q ∷ post)) ≡ true =
      ground (arith, length-append pre (q ∷ post)) in
    rw inside (ap some (ap (λ i. set (pre ++ q ∷ post) i v) e ∙ set-append pre q v post))

-- The loop moves `bs` and the place `z` behind them one place down.
shift_loop-append :
    (bs pre : List Ptr) (q z : Ptr) (rest : List Ptr) (k : ℕ)
    → k ≡ length pre
    → shift_loop (suc (length bs)) k (pre ++ q ∷ (bs ++ z ∷ rest))
      ≡ some (pre ++ (bs ++ z ∷ z ∷ rest))
unfolding shift_loop
shift_loop-append [] pre q z rest k e =
    rw (get_elem?-after pre q z rest k e, set_slot-at pre q z (z ∷ rest) k e)
shift_loop-append (b ∷ bs) pre q z rest k e =
    rw
      (get_elem?-after pre q b (bs ++ z ∷ rest) k e, set_slot-at pre q b (b ∷ (bs ++ z ∷ rest)) k e)
      (ap (shift_loop (suc (length bs)) (k + 1))
          (sym (append_assoc pre (b ∷ []) (b ∷ (bs ++ z ∷ rest))))
        ∙ shift_loop-append bs (pre ++ b ∷ []) b z rest (k + 1)
            (omega (arith, length-append pre (b ∷ [])))
        ∙ ap some (append_assoc pre (b ∷ []) (bs ++ z ∷ z ∷ rest)))

-- Closing the gap takes the pointer at `client` out of the table, and keeps all others in order.
pub close_gap-append :
    (pre : List Ptr) (q : Ptr) (bs : List Ptr) (room k n : ℕ)
    → k ≡ length pre
    → n ≡ length pre + suc (length bs)
    → close_gap (pre ++ q ∷ (bs ++ replicate (suc (suc room)) null)) k n
      ≡ some (pre ++ (bs ++ replicate (suc (suc (suc room))) null))
unfolding close_gap
close_gap-append pre q bs room k n e l =
    let rounds : n - k ≡ suc (length bs) = omega arith in
    let last : leb k n ≡ true = ground arith in
    rw
      (
        set_slot-at pre q null (bs ++ replicate (suc (suc room)) null) k e,
        rounds,
        shift_loop-append bs pre null null (null ∷ replicate room null) k e,
        last,
      )
      (ap (λ l. set_slot l (n + 1) null) split
        ∙ set_slot-at (pre ++ (bs ++ null ∷ null ∷ [])) null null (replicate room null) (n + 1) (
            omega (
              arith,
              length-append pre (bs ++ null ∷ null ∷ []),
              length-append bs (null ∷ null ∷ []),
            ))
        ∙ ap some (sym split))
  where
    split :
        pre ++ (bs ++ null ∷ null ∷ null ∷ replicate room null)
        ≡ (pre ++ (bs ++ null ∷ null ∷ [])) ++ null ∷ replicate room null
    split = sym (
        append_assoc pre (bs ++ null ∷ null ∷ []) (null ∷ replicate room null)
        ∙ ap (λ l. pre ++ l) (append_assoc bs (null ∷ null ∷ []) (null ∷ replicate room null)))

set_slot_out : (sr : List Ptr) (i : ℕ) → length sr ≤ i → set_slot sr i null ≡ none
unfolding set_slot
set_slot_out sr i h = ground arith

set_slot-length :
    (sr : List Ptr) (i : ℕ) (p : Ptr) {sr' : List Ptr}
    → set_slot sr i p ≡ some sr'
    → length sr' ≡ length sr
unfolding set_slot
set_slot-length sr i p h = ground (arith, length-set sr i p)

shift_loop-length :
    (n k : ℕ) (sr : List Ptr) {sr' : List Ptr}
    → shift_loop n k sr ≡ some sr'
    → length sr' ≡ length sr
unfolding shift_loop
shift_loop-length zero k sr h = ground arith
shift_loop-length (suc n) k sr {sr'} h = elim (Option-cases (get_elem? sr (k + 1))) [
  | inl e ↦ absurd (ground arith)
  | inr (p, e) ↦ elim (Option-cases (set_slot sr k p)) [
    | inl f ↦ absurd (ground arith)
    | inr (t, f) ↦
        shift_loop-length n (k + 1) t {sr' = sr'} (ground arith) ∙ set_slot-length sr k p f
  ]
]

pub close_gap_overrun :
    (sr : List Ptr) (k n : ℕ) → k ≤ n → length sr ≤ n + 1 → close_gap sr k n ≡ none
unfolding close_gap
close_gap_overrun sr k n h l = elim (Option-cases (set_slot sr k null)) [
  | inl e ↦ rw e
  | inr (t, e) ↦ elim (Option-cases (shift_loop (n - k) k t)) [
    | inl f ↦ rw (e, f)
    | inr (u, f) ↦
        let last : leb k n ≡ true = ground arith in
        rw (e, f, last)
          (set_slot_out u (n + 1)
            (omega (arith, shift_loop-length (n - k) k t f, set_slot-length sr k null e)))
  ]
]
