-- ===== src/Chunk/Loops.antt =====
-- iemnet_data.c: the copying loops, as operations on lists.
use mathlib.Core.List.{append_assoc, append-nil}
use pd_iemnet.Prelude.{
  set-append, take-append-drop, length-take, length-map, take-length, ℕ, zero, suc, ◌+◌, ◌≤◌, ◌≡◌,
  refl, ap, sym, List, [], ◌∷◌, ◌++◌, map, length, take, drop, set, replicate, arith, length-append,
  length-replicate, ◌∙◌,
}
use pd_iemnet.Prelude.Int.{to_byte}
use pd_iemnet.Output.{Atom}
use pd_iemnet.Chunk.{memcpy, atom_getint, fill_loop, init_loop, copy_loop}

module _ {ℓ} {A : Type ℓ} where
  pub drop-length : (xs : List A) (n : ℕ) → length xs ≤ n → drop n xs ≡ []
  drop-length [] zero h = refl
  drop-length [] (suc n) h = refl
  drop-length (x ∷ xs) zero h = absurd (omega arith)
  drop-length (x ∷ xs) (suc n) h = drop-length xs n (omega arith)

-- A loop that writes `bs` from place `i` on replaces what stands there, and nothing else.
copy_loop-append :
    (i : ℕ) (bs pre mid rest : List ℕ)
    → i ≡ length pre
    → length mid ≡ length bs
    → copy_loop i bs (pre ++ (mid ++ rest)) ≡ pre ++ (bs ++ rest)
unfolding copy_loop
copy_loop-append i [] pre [] rest e l = refl
copy_loop-append i [] pre (m ∷ mid) rest e l = absurd (omega arith)
copy_loop-append i (b ∷ bs) pre [] rest e l = absurd (omega arith)
copy_loop-append i (b ∷ bs) pre (m ∷ mid) rest e l =
    rw (e, set-append pre m b (mid ++ rest))
      (ap (copy_loop (length pre + 1) bs) (sym (append_assoc pre (b ∷ []) (mid ++ rest)))
        ∙ copy_loop-append (length pre + 1) bs (pre ++ b ∷ []) mid rest
            (omega (arith, length-append pre (b ∷ []))) (omega arith)
        ∙ append_assoc pre (b ∷ []) (bs ++ rest))

-- The same for a whole array.
pub copy_loop-all : (bs xs : List ℕ) → length xs ≡ length bs → copy_loop 0 bs xs ≡ bs
copy_loop-all bs xs h =
    ap (copy_loop 0 bs) (sym (append-nil xs))
    ∙ copy_loop-append 0 bs [] xs [] refl h
    ∙ append-nil bs

init_loop-copy : (n i : ℕ) (xs : List ℕ) → init_loop n i xs ≡ copy_loop i (replicate n 0) xs
unfolding init_loop copy_loop
init_loop-copy zero i xs = refl
init_loop-copy (suc n) i xs = init_loop-copy n (i + 1) (set xs i 0)

pub init_loop-all : (n : ℕ) (xs : List ℕ) → length xs ≡ n → init_loop n 0 xs ≡ replicate n 0
init_loop-all n xs h =
    init_loop-copy n 0 xs
    ∙ copy_loop-all (replicate n 0) xs (omega (arith, length-replicate {A = ℕ} n 0))

abbrev pub bytes_of : List Atom → List ℕ
bytes_of = map (λ a. to_byte (atom_getint a))

fill_loop-copy :
    (i : ℕ) (argv : List Atom) (xs : List ℕ) → fill_loop i argv xs ≡ copy_loop i (bytes_of argv) xs
unfolding fill_loop copy_loop
fill_loop-copy i [] xs = refl
fill_loop-copy i (a ∷ argv) xs = fill_loop-copy (i + 1) argv (set xs i (to_byte (atom_getint a)))

pub fill_loop-all :
    (argv : List Atom) (xs : List ℕ) → length xs ≡ length argv → fill_loop 0 argv xs ≡ bytes_of argv
fill_loop-all argv xs h =
    fill_loop-copy 0 argv xs
    ∙ copy_loop-all (bytes_of argv) xs
        (omega (arith, h, length-map argv (λ a. to_byte (atom_getint a))))

pub memcpy-all :
    (dst src : List ℕ) (n : ℕ) → length src ≡ n → length dst ≡ n → memcpy dst src n ≡ src
memcpy-all dst src n s d =
    let whole : take n src ≡ src = rw (← s) (take-length src) in
    rw (whole, drop-length dst (length src) (omega arith)) (append-nil src)

-- The same for the front of an array.
pub copy_loop-front :
    (bs xs : List ℕ) → length bs ≤ length xs → copy_loop 0 bs xs ≡ bs ++ drop (length bs) xs
copy_loop-front bs xs h =
    ap (copy_loop 0 bs) (sym (take-append-drop (length bs) xs))
    ∙ copy_loop-append 0 bs [] (take (length bs) xs) (drop (length bs) xs) refl
        (omega (arith, length-take (length bs) xs))
