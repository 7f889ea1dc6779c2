-- ===== src/Register/Laws.antt =====
-- iemnet.c: registering a name.
use Prim.Native.String.{String}
use text.Mathlib.TextPositions.{eq_refl}
use text.Mathlib.Text.{◌==◌ as str_eq}
use pd_iemnet.Prelude.{◌≡◌, refl, Bool, true, false, [], ◌∷◌, ◌++◌, if◌then◌else◌, ◌||◌, arith}
use pd_iemnet.Register.{NameList, iemnet_nametaken, Registry, iemnet_register}

-- Whether a name is in the list.
abbrev pub has : NameList → String → Bool
has [] name = false
has (x ∷ xs) name = if str_eq name x then true else has xs name

-- `iemnet__nametaken` says whether the name was in the list; a name that was there leaves the list
-- as it is, and a new one goes to its end.
pub nametaken-has :
    (names : NameList) (name : String)
    → ((iemnet_nametaken names name).0 ≡ has names name)
      × ((iemnet_nametaken names name).1 ≡ (if has names name then names else names ++ name ∷ []))
unfolding iemnet_nametaken
nametaken-has [] name = (refl, refl)
nametaken-has (x ∷ xs) name =
    let ih = nametaken-has xs name in (ground (arith, ih), ground (arith, ih))

has-append :
    (names : NameList) (name other : String)
    → has (names ++ name ∷ []) other ≡ (has names other || str_eq other name)
has-append [] name other = ground arith
has-append (x ∷ xs) name other = ground (arith, has-append xs name other)

register-namelist :
    (r : Registry) (name : String)
    → (iemnet_register r name).1.namelist
      ≡ (if has r.namelist name then r.namelist else r.namelist ++ name ∷ [])
unfolding iemnet_register
register-namelist r name = ground (arith, nametaken-has r.namelist name)

pub register-taken :
    (r : Registry) (name : String) → has r.namelist name ≡ true → (iemnet_register r name).1 ≡ r
unfolding iemnet_register
register-taken r name h = ground (arith, nametaken-has r.namelist name)

-- After a name has been registered it is taken, and so are all that were taken before; registering
-- it again changes nothing.
pub register_twice :
    (r : Registry) (name other : String)
    → let s = (iemnet_register r name).1 in
      (has s.namelist name ≡ true)
      × (has r.namelist other ≡ true → has s.namelist other ≡ true)
      × ((iemnet_register s name).1 ≡ s)
register_twice r name other = (here, kept, register-taken (iemnet_register r name).1 name here)
  where
    here : has (iemnet_register r name).1.namelist name ≡ true
    here = ground (arith, register-namelist r name, has-append r.namelist name name, eq_refl name)

    kept : has r.namelist other ≡ true → has (iemnet_register r name).1.namelist other ≡ true
    kept h = ground (arith, register-namelist r name, has-append r.namelist name other)

-- `iemnet__register` returns 1 for every name, whether it was registered before or not.
pub register-one : (r : Registry) (name : String) → (iemnet_register r name).0 ≡ 1
unfolding iemnet_register
register-one r name = ground arith
