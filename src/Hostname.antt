-- ===== src/Hostname.antt =====
-- tcpserver.c and udpserver.c: the text of an IPv4 address, `snprintf(…, "%d.%d.%d.%d", …)`.
use Prim.Native.String.{String, ◌++◌ as str_append}
use pd_iemnet.Prelude.{ℕ, ◌/◌, ◌%◌, ◌^◌, ◌≡◌, refl, List, [], ◌∷◌, get_or, ltb, if◌then◌else◌}

abbrev digits : List String
digits = "0" ∷ "1" ∷ "2" ∷ "3" ∷ "4" ∷ "5" ∷ "6" ∷ "7" ∷ "8" ∷ "9" ∷ []

digit : ℕ → String
digit n = get_or digits n "?"

-- `%d` of an unsigned char
show_byte : ℕ → String
unfolding digit
show_byte n =
    if ltb n 10
    then digit n
    else if ltb n 100
    then str_append (digit (n / 10)) (digit (n % 10))
    else str_append (digit (n / 100)) (str_append (digit (n / 10 % 10)) (digit (n % 10)))

unfoldable pub dotted : ℕ → String
unfolding show_byte
dotted address = str_append (show_byte (address / 2 ^ 24 % 256)) (
    str_append "." (
      str_append (show_byte (address / 2 ^ 16 % 256)) (
        str_append "." (
          str_append (show_byte (address / 2 ^ 8 % 256))
            (str_append "." (show_byte (address % 256)))))))

localhost : dotted 0x7f000001 ≡ "127.0.0.1"
unfolding dotted
localhost = refl
