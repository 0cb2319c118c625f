-- ===== src/Version/Fragment.antt =====
-- `order` and `CmpFragment` of apt-pkg/deb/debversion.cc.
--
-- A pointer is the list of the bytes from it to the NUL that ends its text; an end pointer is given
-- by the number of bytes from it to that NUL. Bytes are below 256, and `char` is signed, as on amd64:
-- for a byte c from 128 on the code computes (c - 256) + 256.
use aptum.Prelude.{
  ℕ, zero, suc, ◌+◌, Bool, not, ◌&&◌, ◌||◌, List, [], ◌∷◌, leb, ◌==◌, if◌then◌else◌, length,
}
use aptum.Prelude.Int.{ℤ, pos, negsuc, sub_ℕ, ◌-ℤ◌, is_zero, eqb_ℤ}
use aptum.Chars.{deref, is_digit, isalpha_ascii}

unfoldable pub order : ℕ → ℤ
unfolding isalpha_ascii
order c =
    if is_digit c
    then pos 0
    else if isalpha_ascii c
    then pos c
    else if c == b'~'
    then negsuc 0
    else if leb 128 c
    then pos c
    else if not (c == 0)
    then pos (c + 256)
    else pos 0

-- `p == End`
abbrev pub at_end : List ℕ → ℕ → Bool
at_end p e = length p == e

-- The outcome of the first inner loop: a return of the function, or the two pointers behind it.
pub data TextRun : Type 0 where
  differ : ℤ → TextRun
  stop : List ℕ → List ℕ → TextRun

-- The loop over what is not a number on both sides. It does not step over a NUL.
unfoldable pub text_run : List ℕ → ℕ → List ℕ → ℕ → TextRun
unfolding order ◌-ℤ◌
text_run [] ae rhs be = stop [] rhs
text_run (x ∷ l) ae [] be = stop (x ∷ l) []
text_run (x ∷ l) ae (y ∷ r) be =
    let next = text_run l ae r be in
    if not (at_end (x ∷ l) ae) && not (at_end (y ∷ r) be) && (not (is_digit x) || not (is_digit y))
    then (if not (eqb_ℤ (order x) (order y)) then differ (order x -ℤ order y) else next)
    else stop (x ∷ l) (y ∷ r)

-- `while (*lhs == '0') ++lhs;`
unfoldable pub skip_zeros : List ℕ → List ℕ
skip_zeros [] = []
skip_zeros (x ∷ l) = let next = skip_zeros l in if x == b'0' then next else x ∷ l

-- The loop over digits on both sides, with `first_diff`.
unfoldable pub digit_run : ℤ → List ℕ → List ℕ → ℤ × List ℕ × List ℕ
digit_run d [] rhs = (d, [], rhs)
digit_run d (x ∷ l) [] = (d, x ∷ l, [])
digit_run d (x ∷ l) (y ∷ r) =
    let next = digit_run (if is_zero d then sub_ℕ x y else d) l r in
    if is_digit x && is_digit y then next else (d, x ∷ l, y ∷ r)

-- One round of the outer loop: a return, or the pointers of the next round.
pub data Round : Type 0 where
  result : ℤ → Round
  again : List ℕ → List ℕ → Round

-- The tests behind the digit loop.
unfoldable pub verdict : ℤ × List ℕ × List ℕ → Round
verdict (d, l, r) =
    if is_digit (deref l)
    then result (pos 1)
    else if is_digit (deref r)
    then result (negsuc 0)
    else if not (is_zero d)
    then result d
    else again l r

unfoldable pub number_part : List ℕ → List ℕ → Round
number_part lhs rhs = verdict (digit_run (pos 0) (skip_zeros lhs) (skip_zeros rhs))

unfoldable pub after_text : TextRun → Round
after_text (differ d) = result d
after_text (stop l r) = number_part l r

unfoldable pub round : List ℕ → ℕ → List ℕ → ℕ → Round
round lhs ae rhs be = after_text (text_run lhs ae rhs be)

-- What follows the outer loop.
unfoldable pub ends : List ℕ → ℕ → List ℕ → ℕ → ℤ
ends lhs ae rhs be =
    if at_end lhs ae && at_end rhs be
    then pos 0
    else if at_end lhs ae
    then (if deref rhs == b'~' then pos 1 else negsuc 0)
    else if at_end rhs be
    then (if deref lhs == b'~' then negsuc 0 else pos 1)
    else pos 1

-- The outer loop with fuel. Without fuel it would leave the loop.
unfoldable pub cmp_loop : ℕ → List ℕ → ℕ → List ℕ → ℕ → ℤ
cmp_loop zero lhs ae rhs be = ends lhs ae rhs be
cmp_loop (suc fuel) lhs ae rhs be =
    let looped = elim (round lhs ae rhs be) as (λ _. ℤ) [
      | result z ↦ z
      | again l r ↦ cmp_loop fuel l ae r be
    ] in
    if not (at_end lhs ae) && not (at_end rhs be) then looped else ends lhs ae rhs be

-- Each round but the last takes a byte from `lhs`, so its length bounds the number of rounds.
unfoldable pub cmp_fragment : List ℕ → ℕ → List ℕ → ℕ → ℤ
unfolding cmp_loop round after_text number_part verdict ends text_run digit_run skip_zeros
cmp_fragment lhs ae rhs be = cmp_loop (suc (length lhs)) lhs ae rhs be
