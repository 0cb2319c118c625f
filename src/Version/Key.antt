-- ===== src/Version/Key.antt =====
-- A reference for CmpFragment of apt-pkg/deb/debversion.cc: the key of a fragment, a list of numbers
-- that is compared from the front, padded by 2. A letter weighs more than the end of the text (2),
-- which weighs more than `~` (0); a digit run is 2, for the end of the text before it, and its value.
-- The empty fragment weighs 1: it stands behind those that begin with `~`, before all others.
use aptum.Prelude.{
  ℕ, ◌+◌, ◌-◌, ◌*◌, ◌≡◌, refl, true, false, ◌||◌, Ordering, arith, List, [], ◌∷◌, leb, ◌==◌,
  if◌then◌else◌,
}
use aptum.Prelude.Compare.{lex}
use aptum.Chars.{is_digit, isalpha_ascii}

unfoldable pub weight : ℕ → ℕ
unfolding isalpha_ascii
weight c = if c == b'~' then 0 else if isalpha_ascii c || leb 128 c then c + 2 else c + 258

-- The value of the digits at the front, behind a number already read.
unfoldable pub value : ℕ → List ℕ → ℕ
value n [] = n
value n (c ∷ s) = let next = value (n * 10 + (c - b'0')) s in if is_digit c then next else n

-- What follows the digits at the front.
unfoldable pub after : List ℕ → List ℕ
after [] = []
after (c ∷ s) = let next = after s in if is_digit c then next else c ∷ s

-- The key in two modes: `number_key n` stands inside a digit run whose value so far is n.
pub data Mode : Type 0 where
  text : Mode
  number : ℕ → Mode

key_from : Mode → List ℕ → List ℕ
key_from text [] = []
key_from (number n) [] = (n + 2) ∷ []
key_from text (c ∷ s) =
    let digits = 2 ∷ key_from (number (c - b'0')) s in
    let letter = weight c ∷ key_from text s in if is_digit c then digits else letter
key_from (number n) (c ∷ s) =
    let digits = key_from (number (n * 10 + (c - b'0'))) s in
    let letter = (n + 2) ∷ weight c ∷ key_from text s in if is_digit c then digits else letter

unfoldable pub text_key : List ℕ → List ℕ
unfolding key_from
text_key s = key_from text s

unfoldable pub fragment_key : List ℕ → List ℕ
fragment_key [] = 1 ∷ []
fragment_key (c ∷ s) = text_key (c ∷ s)

unfoldable pub cmp_key : List ℕ → List ℕ → Ordering
cmp_key a b = lex 2 (fragment_key a) (fragment_key b)

number_key_lem : (n : ℕ) (s : List ℕ) → key_from (number n) s ≡ (value n s + 2) ∷ text_key (after s)
unfolding text_key value after
number_key_lem n [] = refl
number_key_lem n (c ∷ s) = ground (arith, number_key_lem (n * 10 + (c - b'0')) s)

-- The key of a text that begins with a digit.
pub text_key-digit :
    (c : ℕ) (s : List ℕ)
    → is_digit c ≡ true
    → text_key (c ∷ s) ≡ 2 ∷ (value 0 (c ∷ s) + 2) ∷ text_key (after (c ∷ s))
unfolding text_key value after
text_key-digit c s h = ground (arith, number_key_lem (c - b'0') s)

pub text_key-letter :
    (c : ℕ) (s : List ℕ) → is_digit c ≡ false → text_key (c ∷ s) ≡ weight c ∷ text_key s
unfolding text_key
text_key-letter c s h = ground arith
