-- ===== src/Stub/Json.antt =====
-- StubJsonEscape of abi/src/engine_api_stub.cpp, and the decimal numbers of a diagnostic line.
use aether_kiri.Prelude.{
  ℕ, zero, suc, ◌+◌, ◌-◌, ◌/◌, ◌%◌, [], ◌∷◌, ◌++◌, Text, ltb, ◌==◌, if◌then◌else◌,
}

-- A digit of "%04x".
abbrev pub hex_digit : ℕ → ℕ
hex_digit d = if ltb d 10 then b'0' + d else b'a' + (d - 10)

-- What the loop appends for one byte.
unfoldable pub escape_byte : ℕ → Text
escape_byte c =
    if c == b'"'
    then b'\\' ∷ b'"' ∷ []
    else if c == b'\\'
    then b'\\' ∷ b'\\' ∷ []
    else if c == 8
    then b'\\' ∷ b'b' ∷ []
    else if c == 12
    then b'\\' ∷ b'f' ∷ []
    else if c == b'\n'
    then b'\\' ∷ b'n' ∷ []
    else if c == b'\r'
    then b'\\' ∷ b'r' ∷ []
    else if c == b'\t'
    then b'\\' ∷ b't' ∷ []
    else if ltb c 0x20
    then b'\\' ∷ b'u' ∷ b'0' ∷ b'0' ∷ hex_digit (c / 16) ∷ hex_digit (c % 16) ∷ []
    else c ∷ []

-- StubJsonEscape
unfoldable pub json_escape : Text → Text
unfolding escape_byte
json_escape [] = []
json_escape (c ∷ value) = escape_byte c ++ json_escape value

-- The decimal digits of a number, in front of `rest`; the fuel is at least the number of digits.
unfoldable pub decimal_from : ℕ → ℕ → Text → Text
decimal_from zero n rest = rest
decimal_from (suc fuel) n rest =
    let digit = b'0' + n % 10 in
    let more = decimal_from fuel (n / 10) (digit ∷ rest) in if ltb n 10 then digit ∷ rest else more

-- operator<< of an unsigned 64-bit number, which has 20 digits at most
unfoldable pub decimal : ℕ → Text
unfolding decimal_from
decimal n = decimal_from 20 n []
