-- ===== src/UdpServer/Find.antt =====
-- udpserver.c: `udpserver__find_sender` finds the first client with an address.
use mathlib.Core.List.{append_assoc}
use pd_iemnet.Prelude.{
  ℕ, zero, suc, ◌+◌, ◌≡◌, ◌≢◌, refl, ap, sym, ◌∙◌, true, false, none, some, List, [], ◌∷◌, ◌++◌,
  length, replicate, arith, All, ◌==◌, if◌then◌else◌, get_elem?, length-map, length-append,
}
use pd_iemnet.TcpServer.{Ptr, null}
use pd_iemnet.TcpServer.Gap.{get_elem?-at}
use pd_iemnet.UdpServer.{Server, slot, deref}
use pd_iemnet.UdpServer.Table.{equal_addr, address_loop, find_sender}
use pd_iemnet.UdpServer.Live.{Entry, ptrs, Alive, Alive-at, Alive-front, array_split, Inv}

-- None of the clients has the address.
abbrev pub Unknown : (host port : ℕ) → List Entry → Type 0
Unknown host port = All (λ e. equal_addr host port e.1.host e.1.port ≡ false)

address_loop_step :
    (x : Server) (host port : ℕ) (pre : List Ptr) (e : Entry) (rest : List Ptr) (k i : ℕ)
    → x.sr ≡ pre ++ e.0 ∷ rest
    → i ≡ length pre
    → (e.0 ≢ null) × (x.heap e.0 ≡ some e.1)
    → address_loop (suc k) i x host port ≡ (
        if equal_addr host port e.1.host e.1.port
        then some (some i)
        else address_loop k (i + 1) x host port)
unfolding address_loop deref
address_loop_step x host port pre e rest k i a n l =
    let there : slot x i ≡ some e.0 = ap (λ l. get_elem? l i) a ∙ get_elem?-at pre e.0 rest i n in
    let present : (e.0 == null) ≡ false = let ne = l.0 in ground (arith, ne) in
    rw (there, present, l.1) refl

omega_zero : {n k : ℕ} → n ≡ 0 + k → n ≡ k
omega_zero c = omega arith

zero_plus : (n : ℕ) → 0 + n ≡ n
zero_plus n = omega arith

plus_zero : (i : ℕ) → i ≡ i + 0
plus_zero i = omega arith

address_loop-Unknown :
    (x : Server) (host port : ℕ) (pre : List Ptr) (ls : List Entry) (rest : List Ptr) (i : ℕ)
    (k n : ℕ)
    → x.sr ≡ pre ++ (ptrs ls ++ rest)
    → i ≡ length pre
    → Alive x.heap ls
    → Unknown host port ls
    → n ≡ length ls + k
    → address_loop n i x host port ≡ address_loop k (i + length ls) x host port
address_loop-Unknown x host port pre [] rest i k n a e l u c =
    ap (λ m. address_loop m i x host port) (omega_zero c)
    ∙ ap (λ j. address_loop k j x host port) (plus_zero i)
address_loop-Unknown x host port pre (o ∷ ls) rest i k zero a e l u c = absurd (omega arith)
address_loop-Unknown x host port pre (o ∷ ls) rest i k (suc n) a e l u c =
    address_loop_step x host port pre o (ptrs ls ++ rest) n i a e l.0
    ∙ ap (λ b. if b then some (some i) else address_loop n (i + 1) x host port) u.0
    ∙ address_loop-Unknown x host port (pre ++ o.0 ∷ []) ls rest (i + 1) k n
        (a ∙ sym (append_assoc pre (o.0 ∷ []) (ptrs ls ++ rest)))
        (omega (arith, length-append pre (o.0 ∷ []))) l.2 u.1 (omega arith)
    ∙ ap (λ j. address_loop k j x host port) (shifts i (length ls))
  where
    shifts : (i n : ℕ) → i + 1 + n ≡ i + suc n
    shifts i n = omega arith

pub find_sender-Unknown :
    (x : Server) (es : List Entry) (host port : ℕ)
    → Inv x es
    → Unknown host port es
    → find_sender x host port ≡ some none
unfolding find_sender address_loop
find_sender-Unknown x es host port v u =
    address_loop-Unknown x host port [] es (replicate v.room null) 0 0 x.nconnections v.array refl
      v.alive u (omega (arith, v.count))

pub find_sender-index :
    (x : Server) (ls : List Entry) (e : Entry) (rs : List Entry) (host port : ℕ)
    → Inv x (ls ++ e ∷ rs)
    → Unknown host port ls
    → equal_addr host port e.1.host e.1.port ≡ true
    → find_sender x host port ≡ some (some (length ls))
unfolding find_sender
find_sender-index x ls e rs host port v u same =
    let rest = ptrs rs ++ replicate v.room null in
    let split = array_split x ls e rs v in
    let total : x.nconnections ≡ length ls + suc (length rs) =
      omega (arith, v.count, length-append ls (e ∷ rs)) in
    address_loop-Unknown x host port [] ls (e.0 ∷ rest) 0 (suc (length rs)) x.nconnections split
      refl (Alive-front x.heap ls (e ∷ rs) v.alive) u total
    ∙ address_loop_step x host port (ptrs ls) e rest (length rs) (0 + length ls) split
        (omega (arith, length-map ls (λ (o : Entry). o.0))) (Alive-at x.heap ls e rs v.alive)
    ∙ ap
        (λ b.
          if b
          then some (some (0 + length ls))
          else address_loop (length rs) (0 + length ls + 1) x host port)
        same
    ∙ ap (λ n. some (some n)) (zero_plus (length ls))
