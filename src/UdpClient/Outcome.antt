-- ===== src/UdpClient/Outcome.antt =====
-- udpclient.c: how `udpclient_connect` ends.
use Prim.Native.String.{String}
use pd_iemnet.Prelude.{
  ℕ, ◌≡◌, refl, ap, ◌∙◌, true, false, Bool-cases, Option, none, some, [], ◌∷◌, inl, inr, ◌⊎◌,
}
use pd_iemnet.Prelude.Int.{ℤ, is_neg}
use pd_iemnet.Os.{Os, open_socket, iemnet_closesocket}
use pd_iemnet.Link.{Dial, is_set}
use pd_iemnet.Resource.Links.{opened-Balanced, failed-Balanced}
use pd_iemnet.UdpClient.{Client, does, linked, connect_to, doconnect, prepared, connect}
use pd_iemnet.UdpClient.Connect.{
  Closed, Closed-Inv, Inv, info-Inv, linked-Inv, prepared-Closed, prepared-hostname,
}

-- Whether all of `udpclient_doconnect` goes well.
abbrev pub Succeeds : Dial → Option ℕ → Type 0
Succeeds d host =
    ((h : ℕ) × (host ≡ some h)) × (is_neg d.socket ≡ false) × (is_neg d.answers.connect ≡ false)

abbrev pub Fails : Dial → Option ℕ → Type 0
Fails d host = (host ≡ none) ⊎ (is_neg d.socket ≡ true) ⊎ (is_neg d.answers.connect ≡ true)

abbrev pub Outcome : Dial → Option ℕ → Client → Type 0
Outcome d host y =
    (Succeeds d host × (y.connectstate ≡ 1) × (y.fd ≡ d.socket))
    ⊎ (Fails d host × (y.connectstate ≡ 0) × (is_neg y.fd ≡ true))

connect_to-Inv :
    (os : Os) (x : Client) (d : Dial) (host : Option ℕ) (h : String)
    → x.hostname ≡ some h
    → Closed x
    → (y : Client) × (connect_to os x d host ≡ some y) × Inv y × Outcome d host y
unfolding connect_to
connect_to-Inv os x d none h e c = (x, refl, Closed-Inv x c, inr (inl refl, c.4, c.1))
connect_to-Inv os x d (some a) h e c = elim (Bool-cases (is_neg d.socket)) [
  | inl n ↦ (x, rw n refl, Closed-Inv x c, inr (inr (inl n), c.4, c.1))
  | inr n ↦
      let opened = does x (open_socket d.socket ∷ []) in
      elim (Bool-cases (is_neg d.answers.connect)) [
        | inl m ↦
            let closed = does opened (iemnet_closesocket d.socket) in
            (
              closed,
              rw (n, m) refl,
              Closed-Inv closed (failed-Balanced x.log d.socket n c.0, c.1, c.2, c.3, c.4),
              inr (inr (inr m), c.4, c.1),
            )
        | inr m ↦
            let (y, f, w, s, g) =
              info-Inv os (linked os opened d.socket a)
                (linked-Inv os opened d.socket a h n e (opened-Balanced x.log d.socket c.0)) in
            (y, rw (n, m) f, w, inl (((a, refl), n, m), s, g))
      ]
]

doconnect-idle :
    (os : Os) (x : Client) (d : Dial)
    → x.sender ≡ none
    → doconnect os x d ≡ connect_to os x d d.host
unfolding doconnect
doconnect-idle os x d s = let e : is_set x.sender ≡ false = ap is_set s in rw e refl

-- Connecting never faults, whatever the client did before: what it holds is given back first. The
-- client is connected afterwards exactly when the host is known, a socket can be had and `connect`
-- succeeds; else it holds no socket.
pub udpclient_connect-Inv :
    (os : Os) (x : Client) (hostname : String) (portno sndportno : ℤ) (d : Dial)
    → Inv x
    → (y : Client) × (connect os x hostname portno sndportno d ≡ some y)
      × Inv y
      × Outcome d d.host y
unfolding connect
udpclient_connect-Inv os x hostname portno sndportno d v =
    let z = prepared x hostname portno sndportno in
    let c = prepared-Closed x hostname portno sndportno v in
    let (y, e, w, o) =
      connect_to-Inv os z d d.host hostname (prepared-hostname x hostname portno sndportno) c in
    (y, doconnect-idle os z d c.2 ∙ e, w, o)
