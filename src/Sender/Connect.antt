-- ===== src/Sender/Connect.antt =====
-- iemnet_sender.c: `iemnet__connect`. The answers of the operating system are an argument, and the
-- calls that are made are part of the result.
use pd_iemnet.Prelude.{
  ℕ, ◌≡◌, refl, Bool, true, false, List, [], ◌∷◌, if◌then◌else◌, not, arith, ◌≢◌, ◌⊎◌,
}
use pd_iemnet.Prelude.Int.{ℤ, pos, negsuc, minus_one, is_neg, eqb_ℤ}

pub record Answers : Type 0 where
  pub connect : ℤ
  pub in_progress : Bool
  pub select : ℤ
  pub err_set : Bool

pub data Call : Type 0 where
  connects selects gets_error : Call
  sets_blocking : Bool → Call

-- What `select` reports, once it has been called.
after_select : Answers → ℤ × List Call
after_select a =
    if is_neg a.select
    then (minus_one, [])
    else if eqb_ℤ a.select (pos 0)
    then (minus_one, [])
    else if a.err_set
    then (minus_one, gets_error ∷ [])
    else (pos 0, sets_blocking true ∷ [])

unfoldable pub iemnet_connect : (timeout : ℤ) → Answers → ℤ × List Call
unfolding after_select
iemnet_connect timeout a =
    if is_neg timeout
    then (a.connect, connects ∷ [])
    else if not (is_neg a.connect)
    then (pos 0, sets_blocking false ∷ connects ∷ sets_blocking true ∷ [])
    else if not a.in_progress
    then (minus_one, sets_blocking false ∷ connects ∷ [])
    else let (result, calls) = after_select a in
      (result, sets_blocking false ∷ connects ∷ selects ∷ calls)

-- Whether the socket blocks at the end of the calls, if it does at the start.
abbrev pub blocks : Bool → List Call → Bool
blocks b [] = b
blocks b (sets_blocking c ∷ cs) = blocks c cs
blocks b (c ∷ cs) = blocks b cs

-- `iemnet__connect` with a timeout succeeds exactly when `connect` succeeds at once, or is in
-- progress and `select` then reports the socket with no error; after a success the socket blocks,
-- after a failure it does not.
pub connect-timeout :
    (timeout : ℤ) (a : Answers)
    → is_neg timeout ≡ false
    → ((iemnet_connect timeout a ≡ (pos 0, (iemnet_connect timeout a).1))
        × ((is_neg a.connect ≡ false)
            ⊎ ((a.in_progress ≡ true)
                × (is_neg a.select ≡ false)
                × (a.select ≢ pos 0)
                × (a.err_set ≡ false)))
        × (blocks true (iemnet_connect timeout a).1 ≡ true))
      ⊎ ((iemnet_connect timeout a ≡ (minus_one, (iemnet_connect timeout a).1))
          × (is_neg a.connect ≡ true)
          × ((a.in_progress ≡ false)
              ⊎ (is_neg a.select ≡ true)
              ⊎ (a.select ≡ pos 0)
              ⊎ (a.err_set ≡ true))
          × (blocks true (iemnet_connect timeout a).1 ≡ false))
unfolding iemnet_connect
connect-timeout timeout a h = ground arith

-- Without a timeout it is the plain blocking `connect`.
connect_plain : (t : ℕ) (a : Answers) → iemnet_connect (negsuc t) a ≡ (a.connect, connects ∷ [])
unfolding iemnet_connect
connect_plain t a = refl
