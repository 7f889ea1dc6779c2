-- ===== src/UdpSend/Leak.antt =====
-- udpsend.c: a socket that gets lost.
use mathlib.Core.List.{append-nil}
use pd_iemnet.Prelude.{◌∙◌, sym, ℕ, ◌≡◌, refl, false, none, some, List, [], ◌∷◌, ◌++◌}
use pd_iemnet.Prelude.Int.{ℤ, is_neg}
use pd_iemnet.Os.{Effect, close_socket, Os, open_socket, iemnet_closesocket, outs}
use pd_iemnet.Link.{Dial, create_sender, destroy_sender}
use pd_iemnet.Resource.{
  sockets, polls, threads, gained, lost, gained-append, lost-append, Moves, holding, Balanced,
  Balanced-does, Moves-append, Moves-outs,
}
use pd_iemnet.Resource.Links.{thread_of, create_sender-Moves, destroy_sender-Moves}
use pd_iemnet.UdpSend.{Client, does, connected, disconnect, linked, connect_to, connect, free}
use pd_iemnet.UdpSend.Runs.{held}

-- The sockets taken are those in `closed`, then `old`, then `new`; given back are those in `closed`,
-- then `new`. Poll functions and threads are all given back.
pub record Leaked (old new : ℤ) (log : List Effect) : Type 0 where
  pub closed : List ℤ
  pub taken : gained sockets log ≡ closed ++ old ∷ new ∷ []
  pub back : lost sockets log ≡ closed ++ new ∷ []
  pub no_poll : gained polls log ≡ lost polls log
  pub no_thread : gained threads log ≡ lost threads log

-- Two sockets are held, and the second is closed: the first is still with the system.
one_left :
    (log : List Effect) (a fd : ℤ)
    → is_neg fd ≡ false
    → Balanced log (holding (a ∷ fd ∷ []) [] [])
    → Leaked a fd (log ++ (iemnet_closesocket fd ++ outs (connected 0)))
unfolding iemnet_closesocket
one_left log a fd ok v =
    let es = close_socket fd ∷ outs (connected 0) in
    rw ok (record {
      closed = lost sockets log;
      taken = gained-append sockets log es ∙ append-nil (gained sockets log) ∙ v sockets;
      back = lost-append sockets log es;
      no_poll =
          gained-append polls log es
          ∙ append-nil (gained polls log)
          ∙ v polls
          ∙ sym (lost-append polls log es);
      no_thread =
          gained-append threads log es
          ∙ append-nil (gained threads log)
          ∙ v threads
          ∙ sym (lost-append threads log es);
    })

second :
    (a fd : ℤ) → Moves (open_socket fd ∷ []) (holding (a ∷ []) [] []) (holding (a ∷ fd ∷ []) [] [])
second a fd sockets = refl
second a fd polls = refl
second a fd threads = refl

relinked-leaks :
    (os : Os) (x : Client) (a fd : ℤ)
    → is_neg fd ≡ false
    → Balanced x.log (holding (a ∷ []) [] [])
    → Leaked a fd (disconnect (linked os (does x (open_socket fd ∷ [])) fd)).log
unfolding disconnect linked
relinked-leaks os x a fd ok v =
    let two = holding (a ∷ fd ∷ []) [] [] in
    let s = (create_sender os fd).0 in
    let es = (create_sender os fd).1 ++ outs (connected 1) in
    let opened = x.log ++ open_socket fd ∷ [] in
    let started =
      Balanced-does opened es two (holding (a ∷ fd ∷ []) [] (thread_of s))
        (Balanced-does x.log (open_socket fd ∷ []) (holding (a ∷ []) [] []) two v (second a fd))
        (Moves-append (create_sender os fd).1 (outs (connected 1)) two
          (holding (a ∷ fd ∷ []) [] (thread_of s)) _ (create_sender-Moves os fd (a ∷ fd ∷ []) [])
          (Moves-outs (connected 1) _)) in
    let ended =
      Balanced-does (opened ++ es) (destroy_sender s) (holding (a ∷ fd ∷ []) [] (thread_of s)) two
        started (destroy_sender-Moves s (a ∷ fd ∷ []) []) in
    rw ok (one_left ((opened ++ es) ++ destroy_sender s) a fd ok ended)

-- When the thread of a sender could not be started, the object has a socket but no sender. If it is
-- then connected again and freed, all that it has ever taken is given back, the new socket too, but
-- for the old socket: that one is never closed.
pub connect_again-leaks :
    (os : Os) (x : Client) (d : Dial) (h : ℕ)
    → Balanced x.log (held x)
    → x.sender ≡ none
    → is_neg x.fd ≡ false
    → d.host ≡ some h
    → is_neg d.socket ≡ false
    → is_neg d.answers.connect ≡ false
    → Leaked x.fd d.socket (free (connect os x d)).log
unfolding connect connect_to
connect_again-leaks os x d h v s n a b c =
    rw (s, a, b, c) (relinked-leaks os x x.fd d.socket b (rw (s, n) at v))
