-- ===== src/Strings/Numbers.antt =====
-- HexDigit, Hex2Num and Base256ToNum of apt-pkg/contrib/strutl.cc. `char` is signed, and an `unsigned long` has
-- 64 bits like an `unsigned long long`.
use aptum.Prelude.{
  ℕ, ◌+◌, ◌-◌, ◌*◌, ◌/◌, ◌%◌, ◌^◌, ◌≤◌, ◌<◌, ◌≡◌, refl, ap, Bool, true, false, not, ◌&&◌, List, [],
  ◌∷◌, Option, none, some, arith, All, leb, ◌==◌, if◌then◌else◌, length, if-elim, every_below,
  every_below-at,
}
use aptum.Strings.Quote.{hex_digit}

-- `none` is -1.
unfoldable pub hex_digit_value : ℕ → Option ℕ
hex_digit_value c =
    if leb b'0' c && leb c b'9'
    then some (c - b'0')
    else if leb b'a' c && leb c b'f'
    then some (c - b'a' + 10)
    else if leb b'A' c && leb c b'F'
    then some (c - b'A' + 10)
    else none

abbrev pub byte_then : Option ℕ → Option ℕ → Option (List ℕ) → Option (List ℕ)
byte_then none low rest = none
byte_then (some h) none rest = none
byte_then (some h) (some l) none = none
byte_then (some h) (some l) (some num) = some ((h * 16 % 256 + l) % 256 ∷ num)

-- The buffer where all digits are read; what is in it after a failure is left out.
unfoldable pub hex_bytes : List ℕ → Option (List ℕ)
unfolding hex_digit_value
hex_bytes [] = some []
hex_bytes (h ∷ []) = none
hex_bytes (h ∷ l ∷ s) = byte_then (hex_digit_value h) (hex_digit_value l) (hex_bytes s)

unfoldable pub hex2num : List ℕ → ℕ → Option (List ℕ)
unfolding hex_bytes
hex2num s len = if not (length s == len * 2 % 2 ^ 32) then none else hex_bytes s

-- Two hexadecimal digits for each byte.
abbrev pub hex_text : List ℕ → List ℕ
hex_text [] = []
hex_text (b ∷ num) = hex_digit (b / 16) ∷ hex_digit (b % 16) ∷ hex_text num

abbrev valued : Option ℕ → ℕ → Bool
valued none n = false
valued (some m) n = m == n

digits_table : every_below (λ n. valued (hex_digit_value (hex_digit n)) n) 16 ≡ true
unfolding every_below hex_digit_value hex_digit
digits_table = refl

valued_eq : (o : Option ℕ) (n : ℕ) → valued o n ≡ true → o ≡ some n
valued_eq none n h = cc
valued_eq (some m) n h = ap some (ground arith)

hex_digit_value-hex_digit : (n : ℕ) → n < 16 → hex_digit_value (hex_digit n) ≡ some n
hex_digit_value-hex_digit n h =
    valued_eq _ n
      (every_below-at (λ n. valued (hex_digit_value (hex_digit n)) n) 16 n h digits_table)

hex_bytes-hex_text :
    (num : List ℕ) → All (λ (b : ℕ). b < 256) num → hex_bytes (hex_text num) ≡ some num
unfolding hex_bytes
hex_bytes-hex_text [] h = refl
hex_bytes-hex_text (b ∷ num) h =
    rw
      (
        hex_digit_value-hex_digit (b / 16) (omega (arith, h.0)),
        hex_digit_value-hex_digit (b % 16) (omega arith),
        hex_bytes-hex_text num h.1,
      )
      (ap (λ (x : ℕ). some (x ∷ num)) (omega (arith, h.0)))

length-hex_text : (num : List ℕ) → length (hex_text num) ≡ length num * 2
length-hex_text [] = refl
length-hex_text (b ∷ num) = omega (arith, length-hex_text num)

-- Hex2Num gives bytes back from their hexadecimal digits, if the length fits twice into 32 bits.
pub hex2num-hex_text :
    (num : List ℕ)
    → All (λ (b : ℕ). b < 256) num
    → length num < 2 ^ 31
    → hex2num (hex_text num) (length num) ≡ some num
unfolding hex2num
hex2num-hex_text num h small =
    if-elim (λ (r : Option (List ℕ)). r ≡ some num)
      (not (length (hex_text num) == length num * 2 % 2 ^ 32))
      (λ e. absurd (ground (arith, length-hex_text num))) (λ e. hex_bytes-hex_text num h)

-- `(Res << 8) + Str[i]`, where a byte from 128 on is negative.
unfoldable pub base256_loop : ℕ → List ℕ → ℕ
base256_loop res [] = res
base256_loop res (c ∷ s) =
    base256_loop ((res * 256 + (if leb 128 c then 2 ^ 64 + c - 256 else c)) % 2 ^ 64) s

unfoldable pub base256_from : List ℕ → Option ℕ
unfolding base256_loop
base256_from [] = none
base256_from (c ∷ s) = if leb 128 c then some (base256_loop (c - 128) s) else none

-- On the bytes of a field that is not empty.
unfoldable pub base256_to_num : List ℕ → Option ℕ
unfolding base256_from
base256_to_num s = base256_from s

-- The number that the bytes stand for, the first one without its sign bit.
abbrev pub big_endian : ℕ → List ℕ → ℕ
big_endian res [] = res
big_endian res (c ∷ s) = big_endian (res * 256 + c) s

big_endian-le : (s : List ℕ) (res : ℕ) → res ≤ big_endian res s
big_endian-le [] res = omega arith
big_endian-le (c ∷ s) res = omega (arith, big_endian-le s (res * 256 + c))

base256_loop-big_endian :
    (s : List ℕ) (res : ℕ)
    → All (λ (c : ℕ). c < 128) s
    → big_endian res s < 2 ^ 64
    → base256_loop res s ≡ big_endian res s
unfolding base256_loop
base256_loop-big_endian [] res h small = refl
base256_loop-big_endian (c ∷ s) res h small =
    let low : leb 128 c ≡ false = ground (arith, h.0) in
    let fits : (res * 256 + c) % 2 ^ 64 ≡ res * 256 + c =
      omega (arith, small, big_endian-le s (res * 256 + c)) in
    rw (low, fits, base256_loop) (base256_loop-big_endian s (res * 256 + c) h.1 small)

-- Base256ToNum reads a field whose first byte has its highest bit set as the big-endian number of the other
-- bits, if that fits into 64 bits and no byte but the first has its highest bit set; without that bit in
-- the first byte it fails.
pub base256_to_num-big_endian :
    (c : ℕ) (s : List ℕ)
    → All (λ (d : ℕ). d < 128) s
    → big_endian (c - 128) s < 2 ^ 64
    → base256_to_num (c ∷ s) ≡ (if leb 128 c then some (big_endian (c - 128) s) else none)
unfolding base256_to_num
base256_to_num-big_endian c s h small =
    ap (λ (n : ℕ). if leb 128 c then some n else none) (base256_loop-big_endian s (c - 128) h small)

-- In a field of two bytes, the first above 128, Base256ToNum reads a number that is too small by 256 where
-- the second has its highest bit set.
base256-high_byte :
    (c d : ℕ)
    → 128 < c
    → c < 256
    → 128 ≤ d
    → d < 256
    → base256_to_num (c ∷ d ∷ []) ≡ some (big_endian (c - 128) (d ∷ []) - 256)
unfolding base256_to_num base256_loop
base256-high_byte c d p q r t =
    let high : leb 128 c ≡ true = ground arith in
    let high_d : leb 128 d ≡ true = ground arith in rw (high, high_d) (ap some (omega arith))
