-- ===== src/Queue/Shape.antt =====
-- The linked list of a queue: from the head the nodes lead through distinct addresses to the tail.
use pd_iemnet.Prelude.{
  ◌≡◌, ◌≢◌, refl, ap, sym, ◌∙◌, ◌⊎◌, inl, inr, Option, none, some, List, [], ◌∷◌, ◌++◌, arith,
}
use pd_iemnet.Chunk.{Chunk}
use pd_iemnet.Queue.{Ptr, null, Node, node, Heap, write}

-- Address and chunk of each node, in order.
abbrev pub Cells : Type 0
Cells = List (Ptr × Chunk)

abbrev pub Avoids : Ptr → Cells → Type 0
Avoids a [] = Unit {0}
Avoids a (c ∷ cs) = (a ≢ c.0) × Avoids a cs

pub data Seg (h : Heap) (last : Ptr) : Ptr → Cells → Type 0 where
  one : {d : Chunk} → last ≢ null → h last ≡ some (node null d) → Seg h last last ((last, d) ∷ [])
  cons :
      {p q : Ptr} {d : Chunk} {cs : Cells}
      → p ≢ null
      → h p ≡ some (node q d)
      → Avoids p cs
      → Seg h last q cs
      → Seg h last p ((p, d) ∷ cs)

pub head-ne : {h : Heap} {last p : Ptr} {cs : Cells} → Seg h last p cs → p ≢ null
head-ne (one n e) = n
head-ne (cons n e a s) = n

pub last-ne : {h : Heap} {last p : Ptr} {cs : Cells} → Seg h last p cs → last ≢ null
last-ne (one n e) = n
last-ne (cons n e a s) = last-ne s

pub last_node :
    {h : Heap} {last p : Ptr} {cs : Cells}
    → Seg h last p cs
    → (d : Chunk) × (h last ≡ some (node null d))
last_node (one {d} n e) = (d, e)
last_node (cons n e a s) = last_node s

ne_last :
    {h : Heap} {last p : Ptr} {cs : Cells} (a : Ptr) → Seg h last p cs → Avoids a cs → a ≢ last
ne_last a (one n e) v = v.0
ne_last a (cons n e f s) v = ne_last a s v.1

pub Avoids-fresh :
    {h : Heap} {last p : Ptr} {cs : Cells} (a : Ptr) → Seg h last p cs → h a ≡ none → Avoids a cs
Avoids-fresh a (one n e) u = (λ i. cc, tt)
Avoids-fresh a (cons n e f s) u = (λ i. cc, Avoids-fresh a s u)

-- A segment survives a change at an address that it does not use.
pub frame :
    {h : Heap} {last p : Ptr} {cs : Cells} (a : Ptr) (c : Option Node)
    → Seg h last p cs
    → Avoids a cs
    → Seg (write h a c) last p cs
unfolding write
frame a c (one n e) v = one n (ground (arith, v.0))
frame a c (cons n e f s) v = cons n (ground (arith, v.0)) f (frame a c s v.1)

Avoids-append : (a : Ptr) (cs ds : Cells) → Avoids a cs → Avoids a ds → Avoids a (cs ++ ds)
Avoids-append a [] ds v w = w
Avoids-append a (c ∷ cs) ds v w = (v.0, Avoids-append a cs ds v.1 w)

abbrev chunk_or : Chunk → Option Node → Chunk
chunk_or d none = d
chunk_or d (some n) = n.chunk

-- The heap after `tail->next = n` with a new node at `fresh`.
abbrev pub linked : Heap → Ptr → Ptr → Chunk → Chunk → Heap
linked h last fresh d c = write (write h fresh (some (node null c))) last (some (node fresh d))

pub link :
    {h : Heap} {last p : Ptr} {cs : Cells} (fresh : Ptr) (d c : Chunk)
    → Seg h last p cs
    → h last ≡ some (node null d)
    → fresh ≢ null
    → h fresh ≡ none
    → Seg (linked h last fresh d c) fresh p (cs ++ (fresh, c) ∷ [])
unfolding write
link {h} {last} fresh d c (one {d = d'} n e) at f u =
    let apart : last ≢ fresh = λ i. cc in
    let same : d' ≡ d = ap (λ (o : Option Node). chunk_or d o) (sym e ∙ at) in
    cons n (ground (arith, same, apart)) (apart, tt) (one f (ground (arith, apart)))
link {h} {last} fresh d c (cons {p} n e a s) at f u =
    let apart : p ≢ fresh = λ i. cc in
    let before : p ≢ last = ne_last p s a in
    cons n (ground (arith, apart, before)) (Avoids-append p _ ((fresh, c) ∷ []) a (apart, tt))
      (link fresh d c s at f u)

-- What stands at the head of a segment, and the segment that is left when its node is freed.
pub record First (h : Heap) (last p : Ptr) (cs : Cells) : Type 0 where
  pub chunk : Chunk
  pub next : Ptr
  pub rest : Cells
  pub at : h p ≡ some (node next chunk)
  pub split : cs ≡ (p, chunk) ∷ rest
  pub left : ((next ≡ null) × (rest ≡ [])) ⊎ ((next ≢ null) × Seg (write h p none) last next rest)

pub first : {h : Heap} {last p : Ptr} {cs : Cells} → Seg h last p cs → First h last p cs
first (one {d} n e) = record {
  chunk = d;
  next = null;
  rest = [];
  at = e;
  split = refl;
  left = inl (refl, refl);
}
first (cons {p} {q} {d} {cs} n e a s) = record {
  chunk = d;
  next = q;
  rest = cs;
  at = e;
  split = refl;
  left = inr (head-ne s, frame p none s a);
}
