-- ===== src/Strings/Tests.antt =====
-- Runs of the string utilities (apt-pkg/contrib/strutl.cc), and their theorems at concrete texts.
use aptum.Prelude.{
  ℕ, ◌+◌, ◌-◌, ◌*◌, ◌%◌, ◌≡◌, refl, ◌↔◌, true, List, [], ◌∷◌, ◌++◌, arith, some, length, ◌≤◌, leb,
  if◌then◌else◌, none,
}
use aptum.Prelude.Int.{pos, negsuc}
use aptum.Chars.{codes, tolower_ascii, isspace_ascii}
use aptum.Strings.Quote.{quote_string, de_quote_string, in_set, hex_value}
use aptum.Strings.QuoteLaws.{de_quote_string-quote_string}
use aptum.Strings.Base64.{base64_encode, base64_decode}
use aptum.Strings.Base64Laws.{base64_decode-encode}
use aptum.Strings.Order.{stringcasecmp, stringcasecmp-order, IsSign, lower}
use aptum.Strings.Split.{string_split, string_split-join, IsSplit, join, subst_var, subst_var-split}
use aptum.Strings.Parts.{vectorize_string}
use aptum.Strings.Domains.{check_domain_list, check_domain_list-AnySuffix, AnySuffix, ends_with}
use aptum.Strings.Affixes.{strip}
use aptum.Strings.Words.{parse_quote_word, parse_c_word, skip_space}
use aptum.Strings.WordLaws.{parse_quote_word-quote_string, blanks}
use aptum.Strings.CWord.{parse_c_word-c_text, c_text, spaced}
use aptum.Strings.Escapes.{
  de_escape_string, de_escape_string-meant_text, Piece, plain, backslash, octal, hex, unknown,
  escaped_text, meant_text,
}
use aptum.Strings.Numbers.{
  hex_text, hex2num, hex2num-hex_text, base256_to_num, base256_to_num-big_endian, big_endian,
}

quoted_space : quote_string (codes "_") (codes "a b_c%") ≡ codes "a%20b%5fc%25"
unfolding quote_string
quoted_space = refl

encoded : base64_encode (codes "Hello") ≡ codes "SGVsbG8="
unfolding base64_encode
encoded = refl

decoded : base64_decode (codes "SGVs bG8=") ≡ codes "Hello"
unfolding base64_decode
decoded = refl

abbrev sample : List ℕ
sample = codes "a_b %" ++ 200 ∷ []

de_quote_string-quote_string_example : de_quote_string (quote_string (codes "_") sample) ≡ sample
de_quote_string-quote_string_example = de_quote_string-quote_string (codes "_") sample (omega arith)

base64_decode-encode_example : base64_decode (base64_encode sample) ≡ sample
base64_decode-encode_example = base64_decode-encode sample (omega arith)

shorter_is_greater : stringcasecmp (codes "apt") (codes "APTitude") ≡ pos 1
unfolding stringcasecmp tolower_ascii
shorter_is_greater = refl

split_at_most_two : string_split (codes "a::b::c") (codes "::") 2 ≡ codes "a" ∷ codes "b::c" ∷ []
unfolding string_split
split_at_most_two = refl

substituted : subst_var (codes "x@y@") (codes "@") (codes "--") ≡ codes "x--y--"
unfolding subst_var
substituted = refl

last_separator : vectorize_string (codes "a,,b,") b',' ≡ codes "a" ∷ [] ∷ codes "b" ∷ []
unfolding vectorize_string
last_separator = refl

in_list : check_domain_list (codes "ftp.Debian.org") (codes "gnu.org,debian.ORG") ≡ true
unfolding check_domain_list ends_with stringcasecmp tolower_ascii
in_list = refl

from_hex : hex2num (codes "0aFf") 2 ≡ some (10 ∷ 255 ∷ [])
unfolding hex2num
from_hex = refl

stringcasecmp-order_example :
    IsSign (stringcasecmp (codes "Apt") (codes "aPT"))
    × ((stringcasecmp (codes "Apt") (codes "aPT") ≡ pos 0)
        ↔ (lower (codes "Apt") ≡ lower (codes "aPT")))
    × ((stringcasecmp (codes "Apt") (codes "aPT") ≡ negsuc 0)
        ↔ (stringcasecmp (codes "aPT") (codes "Apt") ≡ pos 1))
    × (stringcasecmp (codes "Apt") (codes "aPT") ≡ negsuc 0
        → stringcasecmp (codes "aPT") (codes "x") ≡ negsuc 0
        → stringcasecmp (codes "Apt") (codes "x") ≡ negsuc 0)
stringcasecmp-order_example =
    stringcasecmp-order (codes "Apt") (codes "aPT") (codes "x") (omega arith) (omega arith)

string_split-join_example :
    (join (codes "::") (string_split (codes "a::b::c") (codes "::") 2) ≡ codes "a::b::c")
    × (length (string_split (codes "a::b::c") (codes "::") 2) ≤ 2)
    × IsSplit (codes "::") 2 (string_split (codes "a::b::c") (codes "::") 2)
string_split-join_example = string_split-join (codes "a::b::c") (codes "::") 2 refl (omega arith)

subst_var-split_example :
    subst_var (codes "x@y@") (codes "@") (codes "--")
    ≡ join (codes "--") (string_split (codes "x@y@") (codes "@") (length (codes "x@y@") + 2))
subst_var-split_example = subst_var-split (codes "x@y@") (codes "@") (codes "--") refl

check_domain_list-AnySuffix_example :
    (check_domain_list
        (codes "ftp.debian.org")
        (join (codes ",") (codes "gnu.org" ∷ codes "debian.ORG" ∷ []))
      ≡ true)
    ↔ AnySuffix (codes "ftp.debian.org") (codes "gnu.org" ∷ codes "debian.ORG" ∷ [])
check_domain_list-AnySuffix_example =
    check_domain_list-AnySuffix (codes "ftp.debian.org") (codes "gnu.org") (codes "debian.ORG" ∷ [])
      (refl, (refl, tt)) (omega arith)

stripped : strip (codes " a b  ") ≡ codes "a b"
unfolding strip
stripped = refl

hex2num-hex_text_example :
    hex2num (hex_text (10 ∷ 255 ∷ [])) (length {A = ℕ} (10 ∷ 255 ∷ [])) ≡ some (10 ∷ 255 ∷ [])
hex2num-hex_text_example = hex2num-hex_text (10 ∷ 255 ∷ []) (omega arith) (omega arith)

base256_to_num-big_endian_example :
    base256_to_num (129 ∷ 2 ∷ [])
    ≡ (if leb 128 129 then some (big_endian (129 - 128) (2 ∷ [])) else none)
base256_to_num-big_endian_example =
    base256_to_num-big_endian 129 (2 ∷ []) (omega arith) (omega arith)

leading_blank : parse_quote_word (codes " a%20b\"c d\"  e") ≡ some (codes " a bc d", codes "e")
unfolding parse_quote_word
leading_blank = refl

bracket_open : parse_quote_word (codes "a[b c") ≡ none
unfolding parse_quote_word
bracket_open = refl

c_word : parse_c_word (codes " \"a b\"  \"c\"\"d\"") ≡ some (codes "a b cd")
unfolding parse_c_word
c_word = refl

parse_quote_word-quote_string_example :
    parse_quote_word (blanks 1 ++ (quote_string (codes " \"[") (codes "a \"b[%") ++ codes "  rest"))
    ≡ some (blanks 1 ++ codes "a \"b[%", skip_space (codes "  rest"))
parse_quote_word-quote_string_example =
    parse_quote_word-quote_string (codes " \"[") (codes "a \"b[%") (codes "  rest") 1
      (unfold in_set in refl) (unfold in_set in refl) (omega arith) refl
      (unfold isspace_ascii in refl)

parse_c_word-c_text_example :
    parse_c_word (b'"' ∷ (codes "a b" ++ (b'"' ∷ c_text ((2, codes "c") ∷ (0, []) ∷ []))))
    ≡ some (codes "a b" ++ spaced ((2, codes "c") ∷ (0, []) ∷ []))
parse_c_word-c_text_example =
    parse_c_word-c_text (codes "a b") ((2, codes "c") ∷ (0, []) ∷ []) refl (refl, (refl, tt))

-- Two digits in a base, as a byte.
abbrev digits_value : ℕ → ℕ → ℕ → ℕ
digits_value base a b = (hex_value a * base + hex_value b) % 256

de_escaped :
    de_escape_string digits_value (codes "foo\\040bar\\\\ \\x0abaz\\0a") ≡ codes "foo bar\\ \nbaza"
unfolding de_escape_string hex_value
de_escaped = refl

abbrev some_pieces : List Piece
some_pieces = plain b'a' ∷ backslash ∷ octal b'4' b'0' ∷ unknown b'1' ∷ hex b'0' b'a' ∷ []

de_escape_string-meant_text_example :
    de_escape_string digits_value (escaped_text some_pieces) ≡ meant_text digits_value some_pieces
de_escape_string-meant_text_example =
    de_escape_string-meant_text digits_value some_pieces
      (refl, (tt, (tt, ((refl, refl, refl), (tt, tt)))))
