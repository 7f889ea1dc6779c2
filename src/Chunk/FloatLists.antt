-- ===== src/Chunk/FloatLists.antt =====
-- iemnet_data.c: float lists, and the way of a message through chunks into a list.
use pd_iemnet.Prelude.{
  take-append, ℕ, ◌*◌, ◌%◌, ◌≤◌, ◌<◌, ◌≡◌, refl, ap, false, Option, none, some, List, [], ◌∷◌, ◌++◌,
  map, length, take, drop, leb, ◌>>=◌, arith, All, take-length, length-append, length-drop,
  length-replicate, length-map, Bool-cases, ◌⊎◌, inl, inr,
}
use pd_iemnet.Output.{Atom, set_float}
use pd_iemnet.Chunk.{
  Memory, Chunk, af_inet, chunk_create_list, chunk_create_chunk, FloatList, floatlist_init, atoms,
  floatlist_create, floatlist_resize, chunk2list, copy_loop,
}
use pd_iemnet.Chunk.Loops.{bytes_of, init_loop-all, copy_loop-front}
use pd_iemnet.Chunk.Laws.{
  Ample, IsChunk, IsDest, IsFloatList, IsFresh, create_chunk-copy, create_list-bytes,
}

module _ (malloc : Memory) (fresh : ℕ → List ℕ) (ok : IsFresh fresh) where
  floatlist_init-IsFloatList :
      (l : FloatList) → length l.argv ≡ l.size → l.argc ≤ l.size → IsFloatList (floatlist_init l)
  unfolding floatlist_init
  floatlist_init-IsFloatList l r u = record {
    room = rw (init_loop-all l.size l.argv r) (length-replicate {A = ℕ} l.size 0);
    used = u;
  }

  made : ℕ → FloatList
  made n = floatlist_init (record { argv = fresh n; argc = n; size = n })

  made-IsFloatList : (n : ℕ) → IsFloatList (made n)
  unfolding made
  made-IsFloatList n =
      floatlist_init-IsFloatList (record { argv = fresh n; argc = n; size = n }) (ok n)
        (omega arith)

  -- A list that is resized has the wanted length and room for it; it is refused only when there is
  -- no room yet and no memory.
  pub resize-IsFloatList :
      (dest : Option FloatList) (n : ℕ)
      → IsDest dest
      → ((floatlist_resize malloc fresh dest n ≡ none) × ((m : ℕ) × (malloc m ≡ false)))
        ⊎ ((l : FloatList) × (floatlist_resize malloc fresh dest n ≡ some l)
            × IsFloatList l
            × (l.argc ≡ n))
  unfolding floatlist_resize floatlist_create made
  resize-IsFloatList none n v = elim (Bool-cases (malloc 24)) [
    | inl a ↦ elim (Bool-cases (malloc (n * 16))) [
      | inl b ↦ inr (made n, rw (a, b), made-IsFloatList n, refl)
      | inr b ↦ inl (rw (a, b), (_, b))
    ]
    | inr a ↦ inl (rw a, (_, a))
  ]
  resize-IsFloatList (some l) n v = elim (Bool-cases (leb n l.size)) [
    | inl a ↦ inr (_, rw a, record { room = v.room; used = ground arith }, refl)
    | inr c ↦ elim (Bool-cases (malloc (n * 16))) [
      | inl b ↦ inr (made n, rw (c, b), made-IsFloatList n, refl)
      | inr b ↦ inl (rw (c, b), (_, b))
    ]
  ]

module _ (c : Chunk) (w : IsChunk c) (l : FloatList) (f : IsFloatList l) (a : l.argc ≡ c.size) where
  filled : FloatList
  filled = record l { argv = copy_loop 0 (take c.size c.bytes) l.argv }

  filled_argv : copy_loop 0 (take c.size c.bytes) l.argv ≡ c.bytes ++ drop (length c.bytes) l.argv
  filled_argv =
      let whole : take c.size c.bytes ≡ c.bytes = rw (← w.sized) (take-length c.bytes) in
      rw whole (copy_loop-front c.bytes l.argv (omega (arith, w.sized, f.used, f.room, a)))

  filled-IsFloatList : IsFloatList filled
  unfolding filled
  filled-IsFloatList = record {
    room = rw filled_argv (
        omega (
          arith,
          w.sized,
          f.used,
          f.room,
          a,
          length-append c.bytes (drop (length c.bytes) l.argv),
          length-drop (length c.bytes) l.argv,
        ));
    used = f.used;
  }

  filled-atoms : atoms filled ≡ map set_float c.bytes
  unfolding filled
  filled-atoms =
      rw (filled_argv, a, ← w.sized)
        (ap (map set_float) (take-append c.bytes (drop (length c.bytes) l.argv)))

module _ (malloc : Memory) (fresh : ℕ → List ℕ) (ok : IsFresh fresh) where
  -- A chunk that is turned into a list gives its bytes, in order and nothing more, whatever the list
  -- held before; the one failure is a list that has to grow and finds no memory.
  pub chunk2list-atoms :
      (dest : Option FloatList) (c : Chunk)
      → IsDest dest
      → IsChunk c
      → ((chunk2list malloc fresh (some c) dest ≡ none) × ((m : ℕ) × (malloc m ≡ false)))
        ⊎ ((l : FloatList) × (chunk2list malloc fresh (some c) dest ≡ some l)
            × IsFloatList l
            × (atoms l ≡ map set_float c.bytes))
  unfolding chunk2list filled
  chunk2list-atoms dest c v w = elim (resize-IsFloatList malloc fresh ok dest c.size v) [
    | inl (e, m) ↦ inl (rw e, m)
    | inr (l, e, f, a) ↦
        inr (filled c w l f a, rw e, filled-IsFloatList c w l f a, filled-atoms c w l f a)
  ]

abbrev pub IsBytes : List ℕ → Type 0
IsBytes = All (λ b. b < 256)

bytes_of-set_float : (bs : List ℕ) → IsBytes bs → bytes_of (map set_float bs) ≡ bs
bytes_of-set_float [] h = refl
bytes_of-set_float (b ∷ bs) h =
    let same : b % 256 ≡ b = omega arith in rw (bytes_of-set_float bs h.1, same)

-- The way of a message: into a chunk, copied for the queue, and into a list again.
abbrev pub relay : Memory → (ℕ → List ℕ) → Option FloatList → List Atom → Option FloatList
relay malloc fresh dest argv = do
  c ← chunk_create_list malloc argv
  copy ← chunk_create_chunk malloc (some c)
  chunk2list malloc fresh (some copy) dest

module _ (malloc : Memory) (ample : Ample malloc) (fresh : ℕ → List ℕ) (ok : IsFresh fresh) where
  -- With memory for all that is asked for, bytes survive the way through a sender and a receiver: a list of numbers below 256 that is not
  -- empty is made a chunk, copied for the queue, and turned into a list that outputs the same numbers.
  pub chunk_roundtrip :
      (bs : List ℕ) (dest : Option FloatList)
      → 0 < length bs
      → IsBytes bs
      → IsDest dest
      → (l : FloatList) × (relay malloc fresh dest (map set_float bs) ≡ some l)
        × (atoms l ≡ map set_float bs)
  chunk_roundtrip bs dest h b v = elim (create_list-bytes malloc ample (map set_float bs)) [
    | inl (e, _) ↦ absurd (omega (arith, ap length e, length-map bs set_float))
    | inr (c, e, same, w, _, _) ↦
        elim (chunk2list-atoms malloc fresh ok dest (record c { family = af_inet }) v
          (record { sized = w.sized; filled = w.filled; small = w.small })) [
            | inl (_, m) ↦ absurd (ground (arith, ample m.0, m.1))
            | inr (l, e', _, a) ↦ (
              l,
              rw (e, create_chunk-copy malloc ample c w, e'),
              rw (a, same, bytes_of-set_float bs b),
            )
          ]
  ]
