-- ===== src/Register.antt =====
-- iemnet.c: the list of registered object names, `iemnet__nametaken` and `iemnet__register`.
pub mod Laws
use Prim.Native.String.{String}
use text.Mathlib.Text.{◌==◌ as str_eq}
use pd_iemnet.Prelude.{ℕ, Bool, true, false, List, [], ◌∷◌, if◌then◌else◌}

-- `namelist`, oldest first. Symbols are equal when their texts are.
abbrev pub NameList : Type 0
NameList = List String

-- `while(curname)` with `lastname` behind it: a new name goes behind the last one.
unfoldable pub iemnet_nametaken : NameList → String → Bool × NameList
iemnet_nametaken [] name = (false, name ∷ [])
iemnet_nametaken (curname ∷ rest) name =
    let (taken, rest') = iemnet_nametaken rest name in
    if str_eq name curname then (true, curname ∷ rest) else (taken, curname ∷ rest')

-- The static `firsttime` with the list, and what is posted: the banner or not.
pub record Registry : Type 0 where
  pub namelist : NameList
  pub firsttime : Bool
  pub banners : ℕ

unfoldable pub iemnet_register : Registry → String → ℕ × Registry
unfolding iemnet_nametaken
iemnet_register r name =
    let (taken, names) = iemnet_nametaken r.namelist name in
    if taken then (1, record r { namelist = names }) else (
      1,
      record {
        namelist = names;
        firsttime = false;
        banners = if r.firsttime then ℕ.suc r.banners else r.banners;
      },
    )
