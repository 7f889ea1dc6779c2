-- ===== src/Tests/Outputs.antt =====
-- iemnet.c: output and registration at concrete inputs.
use pd_iemnet.Prelude.{List, [], ◌∷◌}
use pd_iemnet.Prelude.Int.{pos}
use pd_iemnet.Output.{Atom, float, symbol}
use pd_iemnet.Register.{NameList}

abbrev argv : List Atom
argv = float (pos 1) ∷ symbol "a" ∷ []

abbrev names : NameList
names = "tcpserver" ∷ "udpserver" ∷ []
