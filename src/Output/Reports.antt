-- ===== src/Output/Reports.antt =====
-- iemnet.c: the messages to the outlets, written out for the objects that send them.
use pd_iemnet.Prelude.{ℕ, ◌/◌, ◌%◌, ◌≡◌, refl, ap, Bool, true, false, some, List, [], ◌∷◌, map}
use pd_iemnet.Prelude.Int.{pos}
use Prim.Native.String.{String}
use pd_iemnet.Output.{
  Atom, float, Outlet, msgout, connectout, addrout, statusout, Message, iemnet_addrout,
  iemnet_numconnout, iemnet_streamout, stream_loop,
}

abbrev pub message : Outlet → String → List Atom → Message
message o selector args = record { outlet = o; selector = selector; args = args }

-- The four bytes of an address, most significant first, and the port.
abbrev pub address_list : ℕ → ℕ → List Atom
address_list host port =
    float (pos (host / 16777216 % 256))
    ∷ float (pos (host / 65536 % 256))
    ∷ float (pos (host / 256 % 256))
    ∷ float (pos (host % 256))
    ∷ float (pos port)
    ∷ []

-- An address, to the status outlet and to the outlet for addresses.
abbrev pub address_report : ℕ → ℕ → List Message
address_report host port =
    message statusout "address" (address_list host port)
    ∷ message addrout "list" (address_list host port)
    ∷ []

-- A number of connections, to the status outlet and to the outlet for that number.
abbrev pub count_report : ℕ → List Message
count_report n =
    message statusout "connections" (float (pos n) ∷ [])
    ∷ message connectout "float" (float (pos n) ∷ [])
    ∷ []

abbrev pub number : ℕ → Atom
number n = float (pos n)

-- Bytes, one by one or as one list.
abbrev pub bytes_report : Bool → List ℕ → List Message
bytes_report true bytes = map (λ b. message msgout "list" (number b ∷ [])) bytes
bytes_report false bytes = message msgout "list" (map number bytes) ∷ []

pub addrout-report :
    (host port : ℕ)
    → iemnet_addrout (some statusout) (some addrout) host port ≡ address_report host port
unfolding iemnet_addrout
addrout-report host port = refl

pub numconnout-report :
    (n : ℕ) → iemnet_numconnout (some statusout) (some connectout) (pos n) ≡ count_report n
unfolding iemnet_numconnout
numconnout-report n = refl

stream_loop-report :
    (bytes : List ℕ)
    → stream_loop msgout (map number bytes) ≡ map (λ b. message msgout "list" (number b ∷ [])) bytes
unfolding stream_loop
stream_loop-report [] = refl
stream_loop-report (b ∷ bytes) =
    ap (λ l. message msgout "list" (number b ∷ []) ∷ l) (stream_loop-report bytes)

pub streamout-report :
    (bytes : List ℕ) (serialize : Bool)
    → iemnet_streamout (some msgout) (map number bytes) serialize ≡ bytes_report serialize bytes
unfolding iemnet_streamout
streamout-report bytes true = stream_loop-report bytes
streamout-report bytes false = refl
