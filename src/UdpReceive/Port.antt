-- ===== src/UdpReceive/Port.antt =====
-- udpreceive.c: binding to a port, and what the object outputs.
use pd_iemnet.Prelude.{
  Option, Bool, ℕ, Option-cases, none, suc, ◌≡◌, ◌≢◌, refl, ap, Bool-cases, true, false, some, [],
  ◌∷◌, ◌++◌, length, arith, inl, inr, map, ◌⊎◌,
}
use pd_iemnet.Prelude.Int.{ℤ, pos, minus_one, is_neg, eqb_ℤ, eqb_ℤ_iff, ntohl, ntohs}
use pd_iemnet.Output.{msgout, addrout, statusout, set_float, iemnet_addrout, outlet_list}
use pd_iemnet.Chunk.{atoms}
use pd_iemnet.Chunk.Laws.{IsDest, IsFresh, Ample}
use pd_iemnet.Chunk.FloatLists.{IsBytes, chunk2list-atoms}
use pd_iemnet.Os.{Os, outs}
use pd_iemnet.Receiver.{Received, pollfun}
use pd_iemnet.Receiver.Laws.{received_chunk-bytes, of_peer, of_peer-IsChunk}
use pd_iemnet.Output.{SockAddr}
use pd_iemnet.TcpServer.Info.{sin_port_of}
use pd_iemnet.TcpServer.Control.{port_in_use}
use pd_iemnet.UdpReceive.{Listener, Bound, emits, read_callback, setport, open_port}
use pd_iemnet.UdpReceive.Runs.{Reach, Reach-Inv, close_port-Closed}

-- The port that the system names for a socket, or `p` if it names none.
abbrev pub Named : Os → ℤ → ℕ → ℤ → Type 0
Named os fd p port =
    ((os.sockname fd ≡ none) × (port ≡ pos p))
    ⊎ ((a : SockAddr) × (os.sockname fd ≡ some a) × (port ≡ pos (ntohs (sin_port_of a))))

in_use-Named : (os : Os) (fd : ℤ) (p : ℕ) → Named os fd p (port_in_use os fd (pos p))
in_use-Named os fd p =
    let port : Option SockAddr → ℤ =
      λ o. elim o [ none ↦ pos p | some a ↦ pos (ntohs (sin_port_of a)) ] in
    elim (Option-cases (os.sockname fd)) [
      | inl e ↦ inl (e, ap port e)
      | inr (a, e) ↦ inr (a, e, ap port e)
    ]

-- How setting the port ends: the object has it already, it is bound, or that fails.
abbrev pub PortSet : Os → Listener → ℕ → Bound → Listener × Bool → Type 0
PortSet os x p b r =
    ((x.port ≡ pos p) × (r ≡ (x, true)))
    ⊎ ((x.port ≢ pos p)
        × (((is_neg b.socket ≡ false)
              × (is_neg b.bind ≡ false)
              × (r.1 ≡ true)
              × (r.0.fd ≡ b.socket)
              × Named os b.socket p r.0.port)
            ⊎ (((is_neg b.socket ≡ true) ⊎ (is_neg b.bind ≡ true))
                × (r.1 ≡ false)
                × (is_neg r.0.fd ≡ true)
                × (r.0.port ≡ minus_one))))

-- Asking for the port that the object has changes nothing. Any other port is bound if a socket can be
-- had and `bind` succeeds: the object has that socket, and the port that the system names for it, or
-- the one asked for if the system names none. Else the object has no socket and the port -1, also if
-- it had one before. The result tells these apart.
pub setport-PortSet :
    {os : Os} {x : Listener} (p : ℕ) (b : Bound) → Reach os x → PortSet os x p b (setport os x p b)
unfolding setport open_port
setport-PortSet {os} {x} p b r =
    let (_, n, _, u) = close_port-Closed x (Reach-Inv r) in
    elim (Bool-cases (eqb_ℤ x.port (pos p))) [
      | inl same ↦ inl ((eqb_ℤ_iff x.port (pos p)).0 same, rw same refl)
      | inr other ↦
          let differs : x.port ≢ pos p = λ e. absurd (cc (other, (eqb_ℤ_iff x.port (pos p)).1 e)) in
          elim (Bool-cases (is_neg b.socket)) [
            | inl s ↦ rw (other, s) (inr (differs, inr (inl refl, refl, n, u)))
            | inr s ↦ elim (Bool-cases (is_neg b.bind)) [
              | inl f ↦ rw (other, s, f) (inr (differs, inr (inr refl, refl, n, u)))
              | inr f ↦
                  rw (other, s, f)
                    (inr (differs, inl (refl, refl, refl, refl, in_use-Named os b.socket p)))
            ]
          ]
    ]

-- A datagram is reported with the address and the port of its sender, in host byte order, and then
-- its bytes are output as one list, if there is memory for them.
pub poll-bytes :
    (os : Os) (x : Listener) (r : Received) (n : ℕ)
    → Ample os.malloc
    → IsFresh os.fresh
    → IsDest x.floatlist
    → r.result ≡ pos (suc n)
    → length r.bytes ≡ suc n
    → IsBytes r.bytes
    → (y : Listener) × (pollfun os.malloc (read_callback os) x r ≡ some y)
      × IsDest y.floatlist
      × (y.log
          ≡ (x.log
              ++ outs (
                  iemnet_addrout
                    (some statusout)
                    (some addrout)
                    (ntohl r.from.s_addr)
                    (ntohs r.from.sin_port)))
            ++ outs (outlet_list msgout (map set_float r.bytes) ∷ []))
unfolding pollfun read_callback
poll-bytes os x r n ample ok d result len small =
    let told = emits x (
      iemnet_addrout (some statusout) (some addrout) (ntohl r.from.s_addr)
        (ntohs r.from.sin_port)) in
    elim (chunk2list-atoms os.malloc os.fresh ok x.floatlist (of_peer r (suc n)) d
      (of_peer-IsChunk r n len small)) [
        | inl (_, m) ↦ absurd (ground (arith, ample m.0, m.1))
        | inr (l, f, g, a) ↦ (
          emits (record told { floatlist = some l }) (outlet_list msgout (atoms l) ∷ []),
          rw (received_chunk-bytes os.malloc r n ample result len) (rw f refl),
          g,
          ap (λ t. told.log ++ outs (outlet_list msgout t ∷ [])) a,
        )
      ]
