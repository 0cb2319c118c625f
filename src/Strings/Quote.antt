-- ===== src/Strings/Quote.antt =====
-- QuoteString and DeQuoteString of apt-pkg/contrib/strutl.cc, over bytes. `char` is signed, as on amd64:
-- a byte from 128 on is negative, so it is at most 0x20 in the tests of the code.
use aptum.Prelude.{
  ℕ, ◌+◌, ◌-◌, ◌*◌, ◌/◌, ◌%◌, Bool, not, ◌&&◌, ◌||◌, List, [], ◌∷◌, leb, ◌==◌, if◌then◌else◌,
}
use aptum.Chars.{is_digit}

-- strchr finds the NUL that ends `bad`, too.
unfoldable pub in_set : ℕ → List ℕ → Bool
in_set c [] = c == 0
in_set c (x ∷ bad) = c == x || in_set c bad

-- isprint in the C locale.
unfoldable pub isprint : ℕ → Bool
isprint c = leb 0x20 c && leb c 0x7E

-- A digit of `%02hhx`.
unfoldable pub hex_digit : ℕ → ℕ
hex_digit n = if leb n 9 then n + b'0' else n - 10 + b'a'

unfoldable pub must_quote : List ℕ → ℕ → Bool
unfolding in_set isprint
must_quote bad c =
    in_set c bad
    || not (isprint c)
    || c == 0x25
    || (leb c 0x20 || leb 128 c)
    || (leb 0x7F c && not (leb 128 c))

unfoldable pub quote_string : List ℕ → List ℕ → List ℕ
unfolding must_quote hex_digit
quote_string bad [] = []
quote_string bad (c ∷ s) =
    let res = quote_string bad s in
    if must_quote bad c then b'%' ∷ hex_digit (c / 16) ∷ hex_digit (c % 16) ∷ res else c ∷ res

unfoldable pub isxdigit : ℕ → Bool
isxdigit c = is_digit c || (leb b'a' c && leb c b'f') || (leb b'A' c && leb c b'F')

-- What strtol makes of a hexadecimal digit in base 16.
unfoldable pub hex_value : ℕ → ℕ
hex_value c = if is_digit c then c - b'0' else if leb b'a' c then c - b'a' + 10 else c - b'A' + 10

unfoldable pub de_quote_string : List ℕ → List ℕ
unfolding isxdigit hex_value
de_quote_string [] = []
de_quote_string (c ∷ []) = c ∷ []
de_quote_string (c ∷ x ∷ []) = c ∷ x ∷ []
de_quote_string (c ∷ x ∷ y ∷ s) =
    let quoted = (hex_value x * 16 + hex_value y) ∷ de_quote_string s in
    let plain = c ∷ de_quote_string (x ∷ y ∷ s) in
    if c == b'%' && isxdigit x && isxdigit y then quoted else plain
