-- ===== src/TcpClient/Connect.antt =====
-- tcpclient.c: how `tcpclient_connect` ends.
use mathlib.Core.Path.{subst}
use pd_iemnet.Prelude.{
  ℕ, ◌≡◌, refl, sym, true, false, Bool-cases, Option, none, some, arith, inl, inr, if◌then◌else◌,
  ◌⊎◌,
}
use pd_iemnet.Prelude.Int.{ltb_ℤ, ℤ, pos, is_neg}
use Prim.Native.String.{String}
use pd_iemnet.Sender.Connect.{iemnet_connect}
use pd_iemnet.Os.{Os}
use pd_iemnet.Link.{Dial}
use pd_iemnet.TcpClient.{connect_to, Client, do_connect, hang_up, dialled, connect}
use pd_iemnet.TcpClient.Balance.{Inv, dialled-Inv, dialled-hostname}
use pd_iemnet.TcpClient.Keeps.{info-Inv}

hang_up-timeout : (x : Client) → (hang_up x).timeout ≡ x.timeout
unfolding hang_up
hang_up-timeout x = ground arith

-- How `tcpclient_do_connect` ends.
abbrev Reached : ℤ → Dial → Option ℕ → ℤ → Type 0
Reached timeout d host state =
    (((h : ℕ) × (host ≡ some h))
      × (state ≡ d.socket)
      × (is_neg d.socket ≡ false)
      × (is_neg (iemnet_connect timeout d.answers).0 ≡ false))
    ⊎ ((is_neg state ≡ true)
        × ((host ≡ none)
            ⊎ (is_neg d.socket ≡ true)
            ⊎ (is_neg (iemnet_connect timeout d.answers).0 ≡ true)))

connect_to-Reached :
    (os : Os) (x : Client) (d : Dial) (host : Option ℕ)
    → Reached x.timeout d host (connect_to os x d host).0
unfolding connect_to
connect_to-Reached os x d none = inr (refl, inl refl)
connect_to-Reached os x d (some h) = elim (Bool-cases (is_neg d.socket)) [
  | inl n ↦ rw n (inr (n, inr (inl refl)))
  | inr n ↦ elim (Bool-cases (is_neg (iemnet_connect x.timeout d.answers).0)) [
    | inl m ↦ rw (n, m) (inr (refl, inr (inr refl)))
    | inr m ↦ rw (n, m) (inl ((h, refl), refl, refl, refl))
  ]
]

abbrev pub Outcome : ℤ → Dial → ℕ → ℤ → Type 0
Outcome timeout d connectstate fd =
    ((connectstate ≡ 1)
      × ((h : ℕ) × (d.host ≡ some h))
      × (fd ≡ d.socket)
      × (ltb_ℤ (pos 0) d.socket ≡ true)
      × (is_neg (iemnet_connect timeout d.answers).0 ≡ false))
    ⊎ ((connectstate ≡ 0)
        × ((d.host ≡ none)
            ⊎ (ltb_ℤ (pos 0) d.socket ≡ false)
            ⊎ (is_neg (iemnet_connect timeout d.answers).0 ≡ true)))

connected :
    (timeout : ℤ) (d : Dial) (state : ℤ)
    → Reached timeout d d.host state
    → Outcome timeout d (if ltb_ℤ (pos 0) state then 1 else 0) state
connected timeout d state (inl (h, e, n, m)) = elim (Bool-cases (ltb_ℤ (pos 0) d.socket)) [
  | inl p ↦ inl (rw (e, p) refl, h, e, p, m)
  | inr p ↦ inr (rw (e, p) refl, inr (inl p))
]
connected timeout d state (inr (n, inl h)) = inr (ground (arith, n), inl h)
connected timeout d state (inr (n, inr (inl s))) =
    inr (ground (arith, n), inr (inl (ground (arith, s))))
connected timeout d state (inr (n, inr (inr m))) = inr (ground (arith, n), inr (inr m))

dialled-Outcome :
    (os : Os) (x : Client) (hostname : String) (portno : ℤ) (d : Dial)
    → Outcome x.timeout d
        (dialled os x hostname portno d).connectstate
        (dialled os x hostname portno d).fd
unfolding dialled do_connect
dialled-Outcome os x hostname portno d =
    let start = record (hang_up x) { hostname = some hostname; port = portno } in
    connected x.timeout d (connect_to os start d d.host).0 (
      subst (λ t. Reached t d d.host (connect_to os start d d.host).0) (hang_up-timeout x)
        (connect_to-Reached os start d d.host))

-- Connecting never faults, whatever the client did before: an old connection is given back first.
-- The client is connected afterwards exactly when the host is known, a socket above 0 can be had and
-- `iemnet__connect` succeeds on it.
pub tcpclient_connect-Inv :
    (os : Os) (x : Client) (hostname : String) (portno : ℤ) (d : Dial)
    → Inv x
    → (y : Client) × (connect os x hostname portno d ≡ some y)
      × Inv y
      × Outcome x.timeout d y.connectstate y.fd
unfolding connect
tcpclient_connect-Inv os x hostname portno d v =
    let z = dialled os x hostname portno d in
    let (y, e, w, c, f) =
      info-Inv os z hostname (dialled-hostname os x hostname portno d)
        (dialled-Inv os x hostname portno d v) in
    (
      y,
      e,
      w,
      subst (Outcome x.timeout d y.connectstate) (sym f) (
          subst (λ n. Outcome x.timeout d n z.fd) (sym c) (dialled-Outcome os x hostname portno d)),
    )
