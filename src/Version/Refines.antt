-- ===== src/Version/Refines.antt =====
-- CmpFragment of apt-pkg/deb/debversion.cc compares the keys of `Version.Key`.
use aptum.Prelude.{
  ℕ, zero, suc, ◌+◌, ◌≤◌, ◌<◌, compare, Ordering, ◌≡◌, ◌≢◌, refl, sym, ◌∙◌, inl, inr, true, false,
  ◌||◌, ◌==◌, if◌then◌else◌, List, [], ◌∷◌, ◌++◌, arith, length, length-append, is_empty, All,
  Bool-cases,
}
use aptum.Prelude.Int.{ℤ, sign}
use aptum.Prelude.Compare.{◌then_cmp◌, lex}
use aptum.Chars.{deref, is_digit}
use aptum.Version.Fragment.{
  round, after_text, Round, result, again, TextRun, ends, cmp_loop, cmp_fragment,
}
use aptum.Version.Key.{
  weight, value, after, text_key, text_key-digit, text_key-letter, fragment_key, cmp_key,
}
use aptum.Version.Numbers
use aptum.Version.Numbers.{NoDigit, number-Outcome}
use aptum.Version.Texts
use aptum.Version.Texts.{IsByte, boundary, Behind, text-Outcome, text_key-weigh, at_end-append}

lex_numbers :
    (v w : ℕ) (k k' : List ℕ)
    → lex 2 (2 ∷ (v + 2) ∷ k) (2 ∷ (w + 2) ∷ k') ≡ (compare v w then_cmp lex 2 k k')
unfolding lex
lex_numbers v w k k' = ground arith

lex-nil-number :
    (w : ℕ) (k : List ℕ) → lex 2 [] (2 ∷ (w + 2) ∷ k) ≡ (compare 0 w then_cmp lex 2 [] k)
unfolding lex
lex-nil-number w k = ground arith

lex-number-nil :
    (v : ℕ) (k : List ℕ) → lex 2 (2 ∷ (v + 2) ∷ k) [] ≡ (compare v 0 then_cmp lex 2 k [])
unfolding lex
lex-number-nil v k = ground arith

text_key-nil : text_key [] ≡ []
unfolding text_key
text_key-nil = refl

number-nil : (value 0 [] ≡ 0) × (after [] ≡ [])
unfolding value after
number-nil = (refl, refl)

letter_lem :
    (c : ℕ) (s : List ℕ) → is_digit c ≡ false → (value 0 (c ∷ s) ≡ 0) × (after (c ∷ s) ≡ c ∷ s)
unfolding value after
letter_lem c s h = (ground arith, ground arith)

-- At a boundary the keys go on with the values of the digit runs.
key_split :
    (a b : List ℕ)
    → boundary a b ≡ true
    → lex 2 (text_key a) (text_key b)
      ≡ (compare (value 0 a) (value 0 b) then_cmp lex 2 (text_key (after a)) (text_key (after b)))
key_split [] [] h = rw (number-nil.0, number-nil.1) (ground arith)
key_split [] (y ∷ b) h = elim (Bool-cases (is_digit y)) [
  | inl d ↦
      rw (text_key-digit y b d, number-nil.0, number-nil.1, text_key-nil)
        (lex-nil-number (value 0 (y ∷ b)) (text_key (after (y ∷ b))))
  | inr d ↦
      rw (number-nil.0, number-nil.1, (letter_lem y b d).0, (letter_lem y b d).1) (ground arith)
]
key_split (x ∷ a) [] h = elim (Bool-cases (is_digit x)) [
  | inl d ↦
      rw (text_key-digit x a d, number-nil.0, number-nil.1, text_key-nil)
        (lex-number-nil (value 0 (x ∷ a)) (text_key (after (x ∷ a))))
  | inr d ↦
      rw (number-nil.0, number-nil.1, (letter_lem x a d).0, (letter_lem x a d).1) (ground arith)
]
key_split (x ∷ a) (y ∷ b) h =
    let dx : is_digit x ≡ true = ground arith in
    let dy : is_digit y ≡ true = ground arith in
    rw (text_key-digit x a dx, text_key-digit y b dy)
      (lex_numbers (value 0 (x ∷ a)) (value 0 (y ∷ b)) (text_key (after (x ∷ a)))
        (text_key (after (y ∷ b))))

after-NoDigit : (s : List ℕ) → NoDigit (after s)
unfolding after
after-NoDigit [] = refl
after-NoDigit (c ∷ s) = ground (arith, after-NoDigit s)

length-after : (s : List ℕ) → length (after s) ≤ length s
unfolding after
length-after [] = omega arith
length-after (c ∷ s) = ground (arith, length-after s)

length-after_digit : (s : List ℕ) → is_digit (deref s) ≡ true → length (after s) < length s
unfolding after
length-after_digit [] h = ground arith
length-after_digit (c ∷ s) h = ground (arith, length-after s)

after-IsByte : (s : List ℕ) → All IsByte s → All IsByte (after s)
unfolding after
after-IsByte [] h = tt
after-IsByte (c ∷ s) h = ground (arith, after-IsByte s)

-- The empty fragment against another: only `~` is below it.
nil_key :
    (y : ℕ) (b : List ℕ)
    → IsByte y
    → cmp_key [] (y ∷ b) ≡ (if y == b'~' then Ordering.gt else Ordering.lt)
unfolding cmp_key fragment_key lex weight
nil_key y b h = rw (text_key-weigh y b).1 (ground arith)

key_nil :
    (x : ℕ) (a : List ℕ)
    → IsByte x
    → cmp_key (x ∷ a) [] ≡ (if x == b'~' then Ordering.lt else Ordering.gt)
unfolding cmp_key fragment_key lex weight
key_nil x a h = rw (text_key-weigh x a).1 (ground arith)

ends-key :
    (a b ra rb : List ℕ)
    → All IsByte a
    → All IsByte b
    → (is_empty a || is_empty b) ≡ true
    → sign (ends (a ++ ra) (length ra) (b ++ rb) (length rb)) ≡ cmp_key a b
unfolding ends
ends-key [] [] ra rb ha hb h =
    rw (at_end-append [] ra, at_end-append [] rb) (unfold cmp_key fragment_key lex in refl)
ends-key [] (y ∷ b) ra rb ha hb h =
    rw (at_end-append [] ra, at_end-append (y ∷ b) rb, nil_key y b hb.0) (ground arith)
ends-key (x ∷ a) [] ra rb ha hb h =
    rw (at_end-append (x ∷ a) ra, at_end-append [] rb, key_nil x a ha.0) (ground arith)
ends-key (x ∷ a) (y ∷ b) ra rb ha hb h = cc

-- What one round leaves: a decision, or fragments without a digit in front whose keys compare as
-- before. Each such round takes a byte of the left fragment.
record Next (ra rb a b l r a' b' : List ℕ) : Type 0 where
  left : l ≡ a' ++ ra
  right : r ≡ b' ++ rb
  left_bytes : All IsByte a'
  right_bytes : All IsByte b'
  keys : lex 2 (text_key a) (text_key b) ≡ lex 2 (text_key a') (text_key b')
  left_text : NoDigit a'
  right_text : NoDigit b'
  shorter : length a' < length a

data RoundOutcome (ra rb a b : List ℕ) : Round → Type 0 where
  done : (z : ℤ) → sign z ≡ lex 2 (text_key a) (text_key b) → RoundOutcome ra rb a b (result z)
  more : (l r a' b' : List ℕ) → Next ra rb a b l r a' b' → RoundOutcome ra rb a b (again l r)

then_left : (o p : Ordering) → o ≢ Ordering.eq → (o then_cmp p) ≡ o
then_left Ordering.lt p h = refl
then_left Ordering.eq p h = absurd (h refl)
then_left Ordering.gt p h = refl

-- Between texts that do not begin with a digit, the empty fragment compares like the end of a text.
cmp_key-text :
    (a b : List ℕ)
    → All IsByte a
    → All IsByte b
    → NoDigit a
    → NoDigit b
    → cmp_key a b ≡ lex 2 (text_key a) (text_key b)
unfolding cmp_key fragment_key lex
cmp_key-text [] [] ha hb da db = rw text_key-nil
cmp_key-text [] (y ∷ b) ha hb da db =
    rw (text_key-nil, text_key-letter y b db) (unfold weight in ground arith)
cmp_key-text (x ∷ a) [] ha hb da db =
    rw (text_key-nil, text_key-letter x a da) (unfold weight in ground arith)
cmp_key-text (x ∷ a) (y ∷ b) ha hb da db = refl

cmp_key-nonempty :
    (a b : List ℕ)
    → (is_empty a || is_empty b) ≡ false
    → cmp_key a b ≡ lex 2 (text_key a) (text_key b)
unfolding cmp_key fragment_key
cmp_key-nonempty [] b h = cc
cmp_key-nonempty (x ∷ a) [] h = cc
cmp_key-nonempty (x ∷ a) (y ∷ b) h = refl

module _ {ra rb : List ℕ} (ea : NoDigit ra) (eb : NoDigit rb) where
  after-shorter :
      (a b a' b' : List ℕ) {l r : List ℕ}
      → (is_empty a || is_empty b) ≡ false
      → Behind ra rb a b l r a' b'
      → length (after a') < length a
  after-shorter a b a' b' e h = elim h.progress [
    | inl (at, same) ↦ rw same (length-after_digit a (ground arith))
    | inr less ↦ omega (arith, less, length-after a')
  ]

  from_number :
      (a b a' b' : List ℕ) {l r : List ℕ} {o : Round}
      → (is_empty a || is_empty b) ≡ false
      → Behind ra rb a b l r a' b'
      → Numbers.Outcome ra rb a' b' 0 0 o
      → RoundOutcome ra rb a b o
  from_number a b a' b' e h (Numbers.decided z s ne) =
      done z (
        s
        ∙ sym (then_left _ _ (λ q. ne (s ∙ q)))
        ∙ sym (key_split a' b' h.at_boundary)
        ∙ sym h.keys)
  from_number a b a' b' e h (Numbers.equal l r v el er) = more l r (after a') (after b') (record {
    left = el;
    right = er;
    left_bytes = after-IsByte a' h.left_bytes;
    right_bytes = after-IsByte b' h.right_bytes;
    keys = h.keys ∙ key_split a' b' h.at_boundary ∙ rw v (ground arith);
    left_text = after-NoDigit a';
    right_text = after-NoDigit b';
    shorter = after-shorter a b a' b' e h;
  })

  from_text :
      (a b : List ℕ) {o : TextRun}
      → (is_empty a || is_empty b) ≡ false
      → Texts.Outcome ra rb a b o
      → RoundOutcome ra rb a b (after_text o)
  unfolding after_text
  from_text a b e (Texts.decided z s) = done z s
  from_text a b e (Texts.stopped l r a' b' h) =
      rw (h.left, h.right) (from_number a b a' b' e h (number-Outcome ea eb a' b'))

  round-RoundOutcome :
      (a b : List ℕ)
      → All IsByte a
      → All IsByte b
      → (is_empty a || is_empty b) ≡ false
      → RoundOutcome ra rb a b (round (a ++ ra) (length ra) (b ++ rb) (length rb))
  unfolding round
  round-RoundOutcome a b ha hb e = from_text a b e (text-Outcome ra rb a b ha hb)

cmp_loop_empty :
    (fuel : ℕ) (ra rb a b : List ℕ)
    → All IsByte a
    → All IsByte b
    → (is_empty a || is_empty b) ≡ true
    → sign (cmp_loop (suc fuel) (a ++ ra) (length ra) (b ++ rb) (length rb)) ≡ cmp_key a b
unfolding cmp_loop
cmp_loop_empty fuel ra rb a b ha hb e =
    rw (at_end-append a ra, at_end-append b rb) (ground (arith, ends-key a b ra rb ha hb e))

module _ (ra rb : List ℕ) (ea : NoDigit ra) (eb : NoDigit rb) where
  -- What the loop with this much fuel achieves.
  abbrev Decides : ℕ → Type 0
  Decides fuel =
      (a b : List ℕ)
      → length a < fuel
      → All IsByte a
      → All IsByte b
      → sign (cmp_loop fuel (a ++ ra) (length ra) (b ++ rb) (length rb)) ≡ cmp_key a b

  looped :
      (fuel : ℕ) (a b : List ℕ) {o : Round}
      → Decides fuel
      → (is_empty a || is_empty b) ≡ false
      → length a < suc fuel
      → RoundOutcome ra rb a b o
      → sign (elim o as (λ _. ℤ) [
        | result z ↦ z
        | again l r ↦ cmp_loop fuel l (length ra) r (length rb)
      ])
        ≡ cmp_key a b
  looped fuel a b ih e h (done z s) = s ∙ sym (cmp_key-nonempty a b e)
  looped fuel a b ih e h (more l r a' b' n) =
      rw (n.left, n.right)
        (ih a' b' (omega (arith, n.shorter)) n.left_bytes n.right_bytes
          ∙ cmp_key-text a' b' n.left_bytes n.right_bytes n.left_text n.right_text
          ∙ sym n.keys
          ∙ sym (cmp_key-nonempty a b e))

  cmp_loop_key : (fuel : ℕ) → Decides fuel
  unfolding cmp_loop
  cmp_loop_key zero a b h ha hb = elim h [ ]
  cmp_loop_key (suc fuel) a b h ha hb = elim (Bool-cases (is_empty a || is_empty b)) [
    | inl e ↦ cmp_loop_empty fuel ra rb a b ha hb e
    | inr e ↦
        let more = looped fuel a b (cmp_loop_key fuel) e h (round-RoundOutcome ea eb a b ha hb e) in
        rw (at_end-append a ra, at_end-append b rb) (ground (arith, more))
  ]

  -- CmpFragment on two fragments of NUL-free bytes, each followed by a text that does not begin with
  -- a digit, has the sign of the comparison of their keys; its loop ends by its own test.
  pub cmp_fragment-key :
      (a b : List ℕ)
      → All IsByte a
      → All IsByte b
      → sign (cmp_fragment (a ++ ra) (length ra) (b ++ rb) (length rb)) ≡ cmp_key a b
  unfolding cmp_fragment
  cmp_fragment-key a b ha hb =
      cmp_loop_key (suc (length (a ++ ra))) a b (omega (arith, length-append a ra)) ha hb

-- If one fragment is empty, what follows the fragments does not matter.
pub cmp_fragment-key_empty :
    (ra rb a b : List ℕ)
    → All IsByte a
    → All IsByte b
    → (is_empty a || is_empty b) ≡ true
    → sign (cmp_fragment (a ++ ra) (length ra) (b ++ rb) (length rb)) ≡ cmp_key a b
unfolding cmp_fragment
cmp_fragment-key_empty ra rb a b ha hb e = cmp_loop_empty (length (a ++ ra)) ra rb a b ha hb e
