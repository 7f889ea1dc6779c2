-- ===== src/TcpServer/Accept.antt =====
-- tcpserver.c: how `tcpserver_connectpoll` ends.
use mathlib.Core.List.{append_assoc}
use pd_iemnet.Prelude.{
  ℕ, ◌+◌, ◌-◌, ◌<◌, ◌≡◌, ◌≢◌, refl, ap, sym, ◌∙◌, Bool, true, false, not, some, none, ◌⊎◌, length,
  Option, List, [], ◌∷◌, ◌++◌, ltb, leb, arith, replicate, ◌==◌, inl, inr, Bool-cases,
  if◌then◌else◌,
}
use pd_iemnet.Prelude.Int.{pos, ℤ, is_neg, eqb_ℤ_self, ntohl, ntohs}
use pd_iemnet.Output.{statusout, connectout, Message, iemnet_numconnout}
use pd_iemnet.Os.{Os, Effect, outs, add_poll, close_socket, iemnet_closesocket}
use pd_iemnet.Output.Reports.{count_report, numconnout-report}
use pd_iemnet.TcpServer.{
  emits, connect, illegal, Ptr, null, Server, Conn, update, deref, set_slot, does,
}
use pd_iemnet.TcpServer.Info.{info_event, info_connection}
use pd_iemnet.TcpServer.Reports.{event_report, connection_report, info_connection-illegal}
use pd_iemnet.TcpServer.Table.{socketreceiver_new}
use pd_iemnet.TcpServer.Control.{Incoming, connectpoll, number_of_connections, add_connection}
use pd_iemnet.TcpServer.Live.{Entry, ptrs, Inv, Inv-keep}
use pd_iemnet.TcpServer.Insert.{IsNew, added, added-Inv, admits, made, slot-added}

-- The poll function of a socket is added, if there is a receiver for it.
abbrev pub polled : Bool → ℤ → List Effect
polled true fd = add_poll fd ∷ []
polled false fd = []

-- A socket that is not taken is closed; with no room or no memory the number is not reported.
abbrev pub refused : Server → Incoming → List Effect
refused x i =
    if is_neg i.fd
    then outs (count_report x.nconnections)
    else if not x.accepting
    then close_socket i.fd ∷ outs (count_report x.nconnections)
    else close_socket i.fd ∷ []

abbrev pub Answered : Server → List Entry → Incoming → Option Server → Type 0
Answered x es i r =
    ((admits x i ≡ true)
      × ((y : Server) × (c : Conn) × (r ≡ some y)
          × Inv y (es ++ (i.alloc, i.fd) ∷ [])
          × (y.heap i.alloc ≡ some c)
          × (c.client ≡ length es)
          × (c.fd ≡ i.fd)
          × (c.host ≡ ntohl i.addr.s_addr)
          × (c.port ≡ ntohs i.addr.sin_port)
          × (y.log
              ≡ (((x.log ++ outs (event_report (some "connect"))) ++ polled c.receiver i.fd)
                  ++ outs (connection_report none c))
                ++ outs (count_report (length es + 1)))))
    ⊎ ((admits x i ≡ false)
        × (r
            ≡ some (record x {
              log = (x.log ++ outs (event_report (some "connect"))) ++ refused x i;
            })))

-- The server after the report of a connection request.
abbrev told : Server → Server
told x = emits x (info_event connect)

refusal :
    (x : Server) (es : List Entry) (i : Incoming) (r : Option Server) (l : List Effect)
    → admits x i ≡ false
    → refused x i ≡ l
    → r ≡ some (does (told x) l)
    → Answered x es i r
unfolding info_event
refusal x es i r l a e s = inr (a, s ∙ ap (λ t. some (does (told x) t)) (sym e))

module _ (os : Os) (x : Server) (i : Incoming) where
  failed_step :
      is_neg i.fd ≡ true
      → connectpoll os x x.connectsocket i
        ≡ some (does (told x) (outs (count_report x.nconnections)))
  unfolding connectpoll number_of_connections
  failed_step bad = rw (eqb_ℤ_self x.connectsocket, bad, numconnout-report x.nconnections) refl

  off_step :
      is_neg i.fd ≡ false
      → x.accepting ≡ false
      → connectpoll os x x.connectsocket i
        ≡ some (does (does (told x) (close_socket i.fd ∷ [])) (outs (count_report x.nconnections)))
  unfolding connectpoll number_of_connections iemnet_closesocket
  off_step good off =
      rw (eqb_ℤ_self x.connectsocket, good, off, numconnout-report x.nconnections) refl

  full_step :
      is_neg i.fd ≡ false
      → x.accepting ≡ true
      → leb x.maxconnections x.nconnections ≡ true
      → connectpoll os x x.connectsocket i ≡ some (does (told x) (close_socket i.fd ∷ []))
  unfolding connectpoll iemnet_closesocket
  full_step good on full = rw (eqb_ℤ_self x.connectsocket, good, on, full) refl

  lost_step :
      is_neg i.fd ≡ false
      → x.accepting ≡ true
      → leb x.maxconnections x.nconnections ≡ false
      → (i.alloc == null) ≡ true
      → connectpoll os x x.connectsocket i ≡ some (does (told x) (close_socket i.fd ∷ []))
  unfolding connectpoll socketreceiver_new iemnet_closesocket
  lost_step good on free lost =
      rw (eqb_ℤ_self x.connectsocket, good, on, free, lost)
        (rw good
          (ap (λ b. some (record (does (told x) (close_socket i.fd ∷ [])) { accepting = b })) on))

  -- The server with the connection, the table being `sr` then.
  accepted : List Ptr → Server
  accepted sr =
      let c = made os x i in
      number_of_connections (
        emits (added (told x) sr i.alloc c (if c.receiver then add_poll i.fd ∷ [] else []))
          (info_connection c illegal))

  accepted_step :
      (sr : List Ptr)
      → is_neg i.fd ≡ false
      → x.accepting ≡ true
      → leb x.maxconnections x.nconnections ≡ false
      → (i.alloc == null) ≡ false
      → set_slot x.sr x.nconnections i.alloc ≡ some sr
      → connectpoll os x x.connectsocket i ≡ some (accepted sr)
  unfolding connectpoll socketreceiver_new add_connection deref update accepted
      number_of_connections
  accepted_step sr good on free present slots =
      let same : (i.alloc == i.alloc) ≡ true = ground arith in
      rw (eqb_ℤ_self x.connectsocket, good, on, free, present, slots, same) (rw present refl)

  accepted-log :
      (sr : List Ptr) (n : ℕ)
      → x.nconnections ≡ n
      → (accepted sr).log
        ≡ (((x.log ++ outs (event_report (some "connect"))) ++ polled (os.malloc 24) i.fd)
            ++ outs (connection_report none (made os x i)))
          ++ outs (count_report (n + 1))
  unfolding accepted number_of_connections info_event
  accepted-log sr n e =
      let rest : List Effect → List Message → ℕ → List Effect = λ polls report k.
        (((x.log ++ outs (event_report (some "connect"))) ++ polls) ++ outs report)
        ++ outs (iemnet_numconnout (some statusout) (some connectout) (pos (k + 1))) in
      ap (λ l. rest l (info_connection (made os x i) illegal) x.nconnections)
        (poll-polled (os.malloc 24))
      ∙ ap (λ r. rest (polled (os.malloc 24) i.fd) r x.nconnections)
          (info_connection-illegal (made os x i))
      ∙ ap (rest (polled (os.malloc 24) i.fd) (connection_report none (made os x i))) e
      ∙ ap
          (λ r.
            (((x.log ++ outs (event_report (some "connect"))) ++ polled (os.malloc 24) i.fd)
              ++ outs (connection_report none (made os x i)))
            ++ outs r)
          (numconnout-report (n + 1))
    where
      poll-polled : (b : Bool) → (if b then add_poll i.fd ∷ [] else []) ≡ polled b i.fd
      poll-polled true = refl
      poll-polled false = refl

  accepted-heap : (sr : List Ptr) → (accepted sr).heap i.alloc ≡ some (made os x i)
  unfolding accepted number_of_connections update
  accepted-heap sr = ground arith

  accepted-Inv :
      (es : List Entry) (v : Inv x es)
      → IsNew i es
      → i.alloc ≢ null
      → is_neg i.fd ≡ false
      → x.nconnections < x.maxconnections
      → Inv
          (accepted (ptrs (es ++ (i.alloc, i.fd) ∷ []) ++ replicate (v.room - 1) null))
          (es ++ (i.alloc, i.fd) ∷ [])
  unfolding accepted number_of_connections
  accepted-Inv es v n there good free =
      Inv-keep
        (added x (ptrs (es ++ (i.alloc, i.fd) ∷ []) ++ replicate (v.room - 1) null) i.alloc
          (made os x i) [])
        _ (es ++ (i.alloc, i.fd) ∷ []) refl refl refl refl
        (added-Inv x es i (made os x i) [] v n there good free refl refl)

-- A connection request, for which the system gives a socket and memory that no open connection has,
-- never faults, and is reported first. If `accept` succeeds, the server accepts connections, has room
-- and gets memory for one more, then the new connection is put behind the others, with their number
-- as its own, its socket and the address and port of its peer; it is polled if it has a receiver,
-- and reported with the new number of connections. In all other cases nothing changes: a socket that
-- was accepted is closed, and the number of connections is reported again, but for a lack of room or
-- memory.
pub connectpoll-Inv :
    (os : Os) (x : Server) (es : List Entry) (i : Incoming)
    → Inv x es
    → IsNew i es
    → Answered x es i (connectpoll os x x.connectsocket i)
connectpoll-Inv os x es i v n = elim (Bool-cases (is_neg i.fd)) [
  | inl bad ↦
      refusal x es i _ (outs (count_report x.nconnections)) (rw bad refl) (rw bad refl)
        (failed_step os x i bad)
  | inr good ↦ elim (Bool-cases x.accepting) [
    | inr off ↦
        refusal x es i _ (close_socket i.fd ∷ outs (count_report x.nconnections))
          (rw (good, off) refl) (rw (good, off) refl)
          (off_step os x i good off
            ∙ ap (λ l. some (record (told x) { log = l }))
                (append_assoc (told x).log (close_socket i.fd ∷ [])
                  (outs (count_report x.nconnections))))
    | inl on ↦ elim (Bool-cases (leb x.maxconnections x.nconnections)) [
      | inl full ↦
          let none_left : ltb x.nconnections x.maxconnections ≡ false = ground arith in
          refusal x es i _ (close_socket i.fd ∷ []) (rw (good, on, none_left) refl)
            (rw (good, on) refl) (full_step os x i good on full)
      | inr free ↦
          let space : ltb x.nconnections x.maxconnections ≡ true = ground arith in
          elim (Bool-cases (i.alloc == null)) [
            | inl lost ↦
                refusal x es i _ (close_socket i.fd ∷ []) (rw (good, on, space, lost) refl)
                  (rw (good, on) refl) (lost_step os x i good on free lost)
            | inr present ↦
                let sr = ptrs (es ++ (i.alloc, i.fd) ∷ []) ++ replicate (v.room - 1) null in
                inl (
                  rw (good, on, space, present) refl,
                  (
                    accepted os x i sr,
                    made os x i,
                    accepted_step os x i sr good on free present
                        (slot-added x es (i.alloc, i.fd) v (ground arith)),
                    accepted-Inv os x i es v n (λ e. absurd (ground (arith, e, present))) good
                        (ground arith),
                    accepted-heap os x i sr,
                    v.count,
                    refl,
                    refl,
                    refl,
                    accepted-log os x i sr (length es) v.count,
                  ),
                )
          ]
    ]
  ]
]
