-- ===== src/Stub/RoundTrip.antt =====
-- A JSON reader gives back what StubJsonEscape of abi/src/engine_api_stub.cpp was given.
use aether_kiri.Prelude.{
  ℕ, zero, suc, ◌+◌, ◌-◌, ◌*◌, ◌/◌, ◌%◌, ◌<◌, ◌≡◌, refl, sym, ◌∙◌, ap, ==_iff, Bool, true, false,
  ◌&&◌, ◌||◌, Option, none, some, [], ◌∷◌, ◌++◌, Text, arith, ltb, leb, ◌==◌, if◌then◌else◌,
}
use aether_kiri.Stub.Json.{hex_digit, escape_byte, json_escape}

-- Where a reader stands inside a JSON string: between characters, behind a backslash, or with some
-- hexadecimal digits left to read and the value of those read.
pub data Mode : Type 0 where
  plain escaped : Mode
  hexadecimal : ℕ → ℕ → Mode

abbrev pub hex_value : ℕ → Option ℕ
hex_value c =
    if leb b'0' c && leb c b'9'
    then some (c - b'0')
    else if leb b'a' c && leb c b'f'
    then some (c - b'a' + 10)
    else if leb b'A' c && leb c b'F'
    then some (c - b'A' + 10)
    else none

-- The short escapes of RFC 8259.
abbrev pub short_escape : ℕ → Option ℕ
short_escape c =
    if c == b'"'
    then some b'"'
    else if c == b'\\'
    then some b'\\'
    else if c == b'/'
    then some b'/'
    else if c == b'b'
    then some 8
    else if c == b'f'
    then some 12
    else if c == b'n'
    then some b'\n'
    else if c == b'r'
    then some b'\r'
    else if c == b't'
    then some b'\t'
    else none

-- What is read so far, and where the reader stands.
abbrev pub Reader : Type 0
Reader = Option (Text × Mode)

abbrev pub emit : Option ℕ → Reader
emit none = none
emit (some c) = some (c ∷ [], plain)

abbrev pub add_digit : ℕ → ℕ → Option ℕ → Reader
add_digit left value none = none
add_digit zero value (some d) = none
add_digit (suc zero) value (some d) = some ((value * 16 + d) ∷ [], plain)
add_digit (suc (suc left)) value (some d) = some ([], hexadecimal (suc left) (value * 16 + d))

-- One byte of a string. A quote and a control byte may not stand for themselves.
unfoldable pub read_byte : Mode → ℕ → Reader
read_byte plain c =
    if c == b'"' || ltb c 0x20
    then none
    else if c == b'\\'
    then some ([], escaped)
    else some (c ∷ [], plain)
read_byte escaped c = if c == b'u' then some ([], hexadecimal 4 0) else emit (short_escape c)
read_byte (hexadecimal left value) c = add_digit left value (hex_value c)

abbrev pub prepend : Text → Option Text → Option Text
prepend out none = none
prepend out (some rest) = some (out ++ rest)

unfoldable pub go_on : Reader → (Mode → Option Text) → Option Text
go_on none read_rest = none
go_on (some (out, mode)) read_rest = prepend out (read_rest mode)

-- The contents of a JSON string literal, without its quotes.
unfoldable pub unescape : Mode → Text → Option Text
unescape plain [] = some []
unescape escaped [] = none
unescape (hexadecimal left value) [] = none
unescape mode (c ∷ rest) = go_on (read_byte mode c) (λ mode'. unescape mode' rest)

hex_value-hex_digit : (d : ℕ) → d < 16 → hex_value (hex_digit d) ≡ some d
hex_value-hex_digit d h = ground arith

abbrev ReadsBack : ℕ → Text → Text → Type 0
ReadsBack c out rest = unescape plain (out ++ rest) ≡ prepend (c ∷ []) (unescape plain rest)

reads :
    (mode mode' : Mode) (c : ℕ) (out rest : Text)
    → read_byte mode c ≡ some (out, mode')
    → unescape mode (c ∷ rest) ≡ prepend out (unescape mode' rest)
unfolding unescape go_on
reads plain mode' c out rest e = ap (λ r. go_on r (λ m. unescape m rest)) e
reads escaped mode' c out rest e = ap (λ r. go_on r (λ m. unescape m rest)) e
reads (hexadecimal left value) mode' c out rest e = ap (λ r. go_on r (λ m. unescape m rest)) e

prepend_nil : (o : Option Text) → prepend [] o ≡ o
prepend_nil none = refl
prepend_nil (some t) = refl

-- A byte of an escape sequence gives nothing by itself.
reads_on :
    (mode mode' : Mode) (c : ℕ) (rest : Text)
    → read_byte mode c ≡ some ([], mode')
    → unescape mode (c ∷ rest) ≡ unescape mode' rest
reads_on mode mode' c rest e = reads mode mode' c [] rest e ∙ prepend_nil (unescape mode' rest)

-- A backslash and a letter.
reads_short :
    (letter c : ℕ) (rest : Text)
    → read_byte escaped letter ≡ some (c ∷ [], plain)
    → ReadsBack c (b'\\' ∷ letter ∷ []) rest
unfolding read_byte
reads_short letter c rest e =
    reads_on plain escaped b'\\' (letter ∷ rest) refl ∙ reads escaped plain letter (c ∷ []) rest e

-- The six bytes of a control character.
reads_control :
    (c a b : ℕ) (rest : Text)
    → hex_value a ≡ some (c / 16)
    → hex_value b ≡ some (c % 16)
    → ReadsBack c (b'\\' ∷ b'u' ∷ b'0' ∷ b'0' ∷ a ∷ b ∷ []) rest
unfolding read_byte
reads_control c a b rest ha hb =
    reads_on plain escaped b'\\' _ refl
    ∙ reads_on escaped (hexadecimal 4 0) b'u' _ refl
    ∙ reads_on (hexadecimal 4 0) (hexadecimal 3 0) b'0' _ refl
    ∙ reads_on (hexadecimal 3 0) (hexadecimal 2 0) b'0' _ refl
    ∙ reads_on (hexadecimal 2 0) (hexadecimal 1 (0 * 16 + c / 16)) a _ (ap (add_digit 2 0) ha)
    ∙ reads (hexadecimal 1 (0 * 16 + c / 16)) plain b (c ∷ []) rest
        (ap (add_digit 1 (0 * 16 + c / 16)) hb ∙ ap (λ n. some (n ∷ [], plain)) (omega arith))

-- The letter of a byte that was tested for.
reads_tested :
    (letter d c : ℕ) (rest : Text)
    → read_byte escaped letter ≡ some (d ∷ [], plain)
    → (c == d) ≡ true
    → ReadsBack c (b'\\' ∷ letter ∷ []) rest
reads_tested letter d c rest e q =
    reads_short letter c rest (e ∙ ap (λ n. some (n ∷ [], plain)) (sym ((==_iff c d).0 q)))

either :
    (c : ℕ) (b : Bool) (x y rest : Text)
    → (b ≡ true → ReadsBack c x rest)
    → (b ≡ false → ReadsBack c y rest)
    → ReadsBack c (if b then x else y) rest
either c true x y rest h k = h refl
either c false x y rest h k = k refl

unescape_byte : (c : ℕ) (rest : Text) → ReadsBack c (escape_byte c) rest
unfolding escape_byte read_byte
unescape_byte c rest = either c (c == b'"') _ _ rest (reads_tested b'"' b'"' c rest refl) (λ quote.
    either c (c == b'\\') _ _ rest (reads_tested b'\\' b'\\' c rest refl) (λ slash.
      either c (c == 8) _ _ rest (reads_tested b'b' 8 c rest refl) (λ n8.
        either c (c == 12) _ _ rest (reads_tested b'f' 12 c rest refl) (λ n12.
          either c (c == b'\n') _ _ rest (reads_tested b'n' b'\n' c rest refl) (λ n10.
            either c (c == b'\r') _ _ rest (reads_tested b'r' b'\r' c rest refl) (λ n13.
              either c (c == b'\t') _ _ rest (reads_tested b't' b'\t' c rest refl) (λ n9.
                either c (ltb c 0x20) _ _ rest
                  (λ low.
                    reads_control c _ _ rest (hex_value-hex_digit (c / 16) (ground arith))
                      (hex_value-hex_digit (c % 16) (omega arith)))
                  (λ high.
                    reads plain plain c (c ∷ []) rest (ground (arith, quote, slash, high))))))))))

-- Reading an escaped text as the contents of a JSON string succeeds and gives the text back, whatever
-- its bytes; so no quote, backslash or control byte of it reaches the line unescaped.
pub unescape-json_escape : (value : Text) → unescape plain (json_escape value) ≡ some value
unfolding json_escape
unescape-json_escape [] = unfold unescape in refl
unescape-json_escape (c ∷ value) =
    unescape_byte c (json_escape value) ∙ ap (prepend (c ∷ [])) (unescape-json_escape value)
