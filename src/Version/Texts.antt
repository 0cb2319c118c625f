-- ===== src/Version/Texts.antt =====
-- The first loop of a round of CmpFragment (apt-pkg/deb/debversion.cc): comparing what is not a number.
use aptum.Prelude.{
  ℕ, ◌+◌, ◌≤◌, ◌<◌, compare, Ordering, ◌≡◌, ◌≢◌, refl, sym, ◌∙◌, ◌⊎◌, inl, inr, Bool, true, false,
  not, ◌&&◌, ◌||◌, List, [], ◌∷◌, ◌++◌, arith, length, length-append, is_empty, All, Bool-cases,
  if◌then◌else◌,
}
use aptum.Prelude.Int.{ℤ, ◌-ℤ◌, eqb_ℤ, sign}
use aptum.Prelude.Compare.{◌then_cmp◌, lex}
use aptum.Chars.{deref, is_digit}
use aptum.Version.Fragment.{order, text_run, TextRun, differ, stop, at_end}
use aptum.Version.Key.{weight, value, after, text_key, text_key-digit, text_key-letter}

-- A byte of a C string.
abbrev pub IsByte : ℕ → Type 0
IsByte c = (0 < c) × (c < 256)

abbrev pub weigh : ℕ → ℕ
weigh c = if is_digit c then 2 else weight c

-- `order` tells two bytes apart, unless both are digits, and orders them like their weights.
order_lem :
    (x y : ℕ)
    → IsByte x
    → IsByte y
    → (is_digit x && is_digit y) ≡ false
    → (compare (weigh x) (weigh y) ≡ sign (order x -ℤ order y))
      × (eqb_ℤ (order x) (order y) ≡ true → weigh x ≡ weigh y)
      × (eqb_ℤ (order x) (order y) ≡ true → is_digit x ≡ false)
      × (eqb_ℤ (order x) (order y) ≡ true → is_digit y ≡ false)
      × (eqb_ℤ (order x) (order y) ≡ false → sign (order x -ℤ order y) ≢ Ordering.eq)
unfolding order weight ◌-ℤ◌
order_lem x y hx hy h = (ground arith, ground arith, ground arith, ground arith, ground arith)

abbrev pub boundary : List ℕ → List ℕ → Bool
boundary a b = is_empty a || is_empty b || (is_digit (deref a) && is_digit (deref b))

-- What the loop leaves behind: a decision, or shorter fragments whose keys compare as before.
pub record Behind (ra rb a b l r a' b' : List ℕ) : Type 0 where
  pub left : l ≡ a' ++ ra
  pub right : r ≡ b' ++ rb
  pub left_bytes : All IsByte a'
  pub right_bytes : All IsByte b'
  pub keys : lex 2 (text_key a) (text_key b) ≡ lex 2 (text_key a') (text_key b')
  pub at_boundary : boundary a' b' ≡ true
  pub shorter : length a' ≤ length a
  pub progress : (boundary a b ≡ true) × (a' ≡ a) ⊎ (length a' < length a)

pub data Outcome (ra rb a b : List ℕ) : TextRun → Type 0 where
  decided : (z : ℤ) → sign z ≡ lex 2 (text_key a) (text_key b) → Outcome ra rb a b (differ z)
  stopped : (l r a' b' : List ℕ) → Behind ra rb a b l r a' b' → Outcome ra rb a b (stop l r)

pub at_end-append : (a r : List ℕ) → at_end (a ++ r) (length r) ≡ is_empty a
at_end-append [] r = ground arith
at_end-append (x ∷ a) r = ground (arith, length-append a r)

text_run_stop :
    (l r : List ℕ) (ae be : ℕ)
    → (at_end l ae || at_end r be || (is_digit (deref l) && is_digit (deref r))) ≡ true
    → text_run l ae r be ≡ stop l r
unfolding text_run
text_run_stop [] r ae be h = refl
text_run_stop (x ∷ l) [] ae be h = refl
text_run_stop (x ∷ l) (y ∷ r) ae be h = ground arith

text_run_next :
    (x y : ℕ) (l r : List ℕ) (ae be : ℕ)
    → at_end (x ∷ l) ae ≡ false
    → at_end (y ∷ r) be ≡ false
    → (is_digit x && is_digit y) ≡ false
    → text_run (x ∷ l) ae (y ∷ r) be ≡ (
        if not (eqb_ℤ (order x) (order y)) then differ (order x -ℤ order y) else text_run l ae r be)
unfolding text_run
text_run_next x y l r ae be ha hb h = ground (arith, ha, hb, h)

pub text_key-weigh : (c : ℕ) (s : List ℕ) → (k : List ℕ) × (text_key (c ∷ s) ≡ weigh c ∷ k)
text_key-weigh c s = elim (Bool-cases (is_digit c)) [
  | inl d ↦ ((value 0 (c ∷ s) + 2) ∷ text_key (after (c ∷ s)), rw d (text_key-digit c s d))
  | inr d ↦ (text_key s, rw d (text_key-letter c s d))
]

-- The first weights decide, if they differ.
lex-weigh :
    (x y : ℕ) (a b : List ℕ)
    → compare (weigh x) (weigh y) ≢ Ordering.eq
    → lex 2 (text_key (x ∷ a)) (text_key (y ∷ b)) ≡ compare (weigh x) (weigh y)
unfolding lex
lex-weigh x y a b h =
    rw ((text_key-weigh x a).1, (text_key-weigh y b).1) (settled (compare (weigh x) (weigh y)) _ h)
  where
    settled : (o p : Ordering) → o ≢ Ordering.eq → (o then_cmp p) ≡ o
    settled Ordering.lt p h = refl
    settled Ordering.eq p h = absurd (h refl)
    settled Ordering.gt p h = refl

lex-letters :
    (x y : ℕ) (a b : List ℕ)
    → is_digit x ≡ false
    → is_digit y ≡ false
    → weigh x ≡ weigh y
    → lex 2 (text_key (x ∷ a)) (text_key (y ∷ b)) ≡ lex 2 (text_key a) (text_key b)
unfolding lex
lex-letters x y a b dx dy h = rw (text_key-letter x a dx, text_key-letter y b dy) (ground arith)

module _ (ra rb : List ℕ) where
  stop_here :
      (a b : List ℕ)
      → All IsByte a
      → All IsByte b
      → boundary a b ≡ true
      → Outcome ra rb a b (stop (a ++ ra) (b ++ rb))
  stop_here a b ha hb h = stopped (a ++ ra) (b ++ rb) a b (record {
    left = refl;
    right = refl;
    left_bytes = ha;
    right_bytes = hb;
    keys = refl;
    at_boundary = h;
    shorter = omega arith;
    progress = inl (h, refl);
  })

  Outcome-next :
      (x y : ℕ) (a b : List ℕ) {o : TextRun}
      → lex 2 (text_key (x ∷ a)) (text_key (y ∷ b)) ≡ lex 2 (text_key a) (text_key b)
      → Outcome ra rb a b o
      → Outcome ra rb (x ∷ a) (y ∷ b) o
  Outcome-next x y a b e (decided z h) = decided z (h ∙ sym e)
  Outcome-next x y a b e (stopped l r a' b' h) = stopped l r a' b' (record {
    left = h.left;
    right = h.right;
    left_bytes = h.left_bytes;
    right_bytes = h.right_bytes;
    keys = e ∙ h.keys;
    at_boundary = h.at_boundary;
    shorter = omega (arith, h.shorter);
    progress = inr (omega (arith, h.shorter));
  })

  pub text-Outcome :
      (a b : List ℕ)
      → All IsByte a
      → All IsByte b
      → Outcome ra rb a b (text_run (a ++ ra) (length ra) (b ++ rb) (length rb))
  text-Outcome [] b ha hb =
      rw (text_run_stop ra (b ++ rb) (length ra) (length rb) (ground arith))
        (stop_here [] b ha hb refl)
  text-Outcome (x ∷ a) [] ha hb =
      rw (text_run_stop (x ∷ a ++ ra) rb (length ra) (length rb) (ground arith))
        (stop_here (x ∷ a) [] ha hb refl)
  text-Outcome (x ∷ a) (y ∷ b) (hx, ha) (hy, hb) = elim (Bool-cases (is_digit x && is_digit y)) [
    | inl d ↦
        rw (text_run_stop (x ∷ a ++ ra) (y ∷ b ++ rb) (length ra) (length rb) (ground (arith, d)))
          (stop_here (x ∷ a) (y ∷ b) (hx, ha) (hy, hb) d)
    | inr d ↦
        rw
          (text_run_next x y (a ++ ra) (b ++ rb) (length ra) (length rb) (at_end-append (x ∷ a) ra)
            (at_end-append (y ∷ b) rb) d)
          (compared d (text-Outcome a b ha hb))
  ]
    where
      compared :
          (is_digit x && is_digit y) ≡ false
          → Outcome ra rb a b (text_run (a ++ ra) (length ra) (b ++ rb) (length rb))
          → Outcome ra rb (x ∷ a) (y ∷ b) (
              if not (eqb_ℤ (order x) (order y))
              then differ (order x -ℤ order y)
              else text_run (a ++ ra) (length ra) (b ++ rb) (length rb))
      compared d ih =
          let (same_sign, same_weight, left_letter, right_letter, apart) = order_lem x y hx hy d in
          elim (Bool-cases (eqb_ℤ (order x) (order y))) [
            | inl e ↦ rw e (
                Outcome-next x y a b
                  (lex-letters x y a b (left_letter e) (right_letter e) (same_weight e)) ih)
            | inr e ↦ rw e (
                decided (order x -ℤ order y)
                  (sym same_sign ∙ sym (lex-weigh x y a b (λ h. apart e (sym same_sign ∙ h)))))
          ]
