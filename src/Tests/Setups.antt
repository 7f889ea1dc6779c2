-- ===== src/Tests/Setups.antt =====
-- iemnet_setup.c: setting up the library when nothing is registered.
use pd_iemnet.Prelude.{◌≡◌, true, [], ◌++◌}
use pd_iemnet.Setup.{Setup, iemnet_setup}
use pd_iemnet.Setup.Laws.{objects, Known, setup_again}

abbrev fresh : Setup
fresh = record { registry = record { namelist = []; firsttime = true; banners = 0 }; classes = [] }

setup_again_example :
    ((iemnet_setup fresh).classes ≡ [] ++ objects)
    × Known (iemnet_setup fresh).registry objects
    × ((iemnet_setup (iemnet_setup fresh)).registry ≡ (iemnet_setup fresh).registry)
    × ((iemnet_setup (iemnet_setup fresh)).classes ≡ [] ++ (objects ++ objects))
setup_again_example = setup_again fresh
