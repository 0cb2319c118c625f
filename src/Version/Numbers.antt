-- ===== src/Version/Numbers.antt =====
-- The number part of a round of CmpFragment (apt-pkg/deb/debversion.cc): comparing digit runs.
use aptum.Prelude.{
  ℕ, ◌+◌, ◌-◌, ◌*◌, ◌≤◌, ◌<◌, compare, Ordering, ◌≡◌, ◌≢◌, refl, ◌⊎◌, inl, inr, true, false, not,
  if◌then◌else◌, ◌&&◌, List, [], ◌∷◌, ◌++◌, arith, Bool-cases,
}
use aptum.Prelude.Int.{ℤ, pos, negsuc, sub_ℕ, is_zero, sign}
use aptum.Chars.{deref, is_digit}
use aptum.Version.Fragment.{skip_zeros, digit_run, number_part, verdict, result, again, Round}
use aptum.Version.Key.{value, after}

-- What follows a fragment does not begin with a digit.
abbrev pub NoDigit : List ℕ → Type 0
NoDigit r = is_digit (deref r) ≡ false

skip_zeros-rest : (r : List ℕ) → NoDigit r → skip_zeros r ≡ r
unfolding skip_zeros
skip_zeros-rest [] h = refl
skip_zeros-rest (c ∷ r) h = ground arith

pub skip_zeros-append : (s r : List ℕ) → NoDigit r → skip_zeros (s ++ r) ≡ skip_zeros s ++ r
unfolding skip_zeros
skip_zeros-append [] r h = skip_zeros-rest r h
skip_zeros-append (c ∷ s) r h = ground (arith, skip_zeros-append s r h)

value-skip_zeros : (s : List ℕ) → value 0 (skip_zeros s) ≡ value 0 s
unfolding skip_zeros value
value-skip_zeros [] = refl
value-skip_zeros (c ∷ s) = ground (arith, value-skip_zeros s)

after-skip_zeros : (s : List ℕ) → after (skip_zeros s) ≡ after s
unfolding skip_zeros after
after-skip_zeros [] = refl
after-skip_zeros (c ∷ s) = ground (arith, after-skip_zeros s)

deref-skip_zeros : (s : List ℕ) → deref (skip_zeros s) ≢ b'0'
unfolding skip_zeros
deref-skip_zeros [] = omega arith
deref-skip_zeros (c ∷ s) = ground (arith, deref-skip_zeros s)

-- The state of the loop over both digit runs: `p` is a power of ten above both numbers so far, and
-- a number of as many digits as were read does not begin with a zero.
abbrev Lead : ℕ → ℕ → List ℕ → Type 0
Lead p m s = (p ≤ m * 10) ⊎ ((p ≡ 1) × (m ≡ 0) × (deref s ≢ b'0'))

record Runs (ra rb s t : List ℕ) (m n : ℕ) (d : ℤ) : Type 0 where
  power : ℕ
  left_below : m < power
  right_below : n < power
  left_lead : Lead power m s
  right_lead : Lead power n t
  diff : sign d ≡ compare m n

le-value : (p m : ℕ) (s : List ℕ) → p ≤ m → p ≤ value m s
unfolding value
le-value p m [] h = h
le-value p m (c ∷ s) h = ground (arith, le-value p (m * 10 + (c - b'0')) s)

-- One more digit than the other side has makes the number larger.
longer : (p m : ℕ) (s : List ℕ) → Lead p m s → is_digit (deref s) ≡ true → p ≤ value m s
unfolding value
longer p m [] h e = ground arith
longer p m (c ∷ s) h e = ground (arith, le-value p (m * 10 + (c - b'0')) s)

value-NoDigit : (n : ℕ) (s : List ℕ) → NoDigit s → value n s ≡ n
unfolding value
value-NoDigit n [] h = refl
value-NoDigit n (c ∷ s) h = ground arith

after_of-NoDigit : (s : List ℕ) → NoDigit s → after s ≡ s
unfolding after
after_of-NoDigit [] h = refl
after_of-NoDigit (c ∷ s) h = ground arith

-- The outcome of a number part, against the values of the digit runs of `s` and `t`.
pub data Outcome (ra rb s t : List ℕ) (m n : ℕ) : Round → Type 0 where
  decided :
      (z : ℤ)
      → sign z ≡ compare (value m s) (value n t)
      → sign z ≢ Ordering.eq
      → Outcome ra rb s t m n (result z)
  equal :
      (l r : List ℕ)
      → value m s ≡ value n t
      → l ≡ after s ++ ra
      → r ≡ after t ++ rb
      → Outcome ra rb s t m n (again l r)

digit-append : (s r : List ℕ) → NoDigit r → is_digit (deref (s ++ r)) ≡ is_digit (deref s)
digit-append [] r h = h
digit-append (c ∷ s) r h = refl

digit_run_stop :
    (d : ℤ) (l r : List ℕ)
    → (is_digit (deref l) && is_digit (deref r)) ≡ false
    → digit_run d l r ≡ (d, l, r)
unfolding digit_run
digit_run_stop d [] r h = refl
digit_run_stop d (x ∷ l) [] h = refl
digit_run_stop d (x ∷ l) (y ∷ r) h = rw h

digit_run_next :
    (d : ℤ) (x y : ℕ) (l r : List ℕ)
    → (is_digit x && is_digit y) ≡ true
    → digit_run d (x ∷ l) (y ∷ r) ≡ digit_run (if is_zero d then sub_ℕ x y else d) l r
unfolding digit_run
digit_run_next d x y l r h = rw h

module _ {ra rb : List ℕ} (ha : NoDigit ra) (hb : NoDigit rb) where
  stop-Outcome :
      (s t : List ℕ) (m n : ℕ) (d : ℤ)
      → Runs ra rb s t m n d
      → (is_digit (deref s) && is_digit (deref t)) ≡ false
      → Outcome ra rb s t m n (verdict (d, s ++ ra, t ++ rb))
  unfolding verdict
  stop-Outcome s t m n d h e = elim (Bool-cases (is_digit (deref s))) [
    | inl ds ↦
        let dt : NoDigit t = ground arith in
        rw (digit-append s ra ha, ds)
          (decided (pos 1) (ground (arith, longer h.power m s h.left_lead ds, value-NoDigit n t dt))
            (ground arith))
    | inr ds ↦ elim (Bool-cases (is_digit (deref t))) [
      | inl dt ↦
          rw (digit-append s ra ha, digit-append t rb hb, ds, dt)
            (decided (negsuc 0)
              (ground (arith, longer h.power n t h.right_lead dt, value-NoDigit m s ds))
              (ground arith))
      | inr dt ↦ rw (digit-append s ra ha, digit-append t rb hb, ds, dt) (even ds dt)
    ]
  ]
    where
      even :
          NoDigit s
          → NoDigit t
          → Outcome ra rb s t m n (if not (is_zero d) then result d else again (s ++ ra) (t ++ rb))
      even ds dt = elim (Bool-cases (is_zero d)) [
        | inl z ↦ rw z (
            equal (s ++ ra) (t ++ rb)
              (ground (arith, value-NoDigit m s ds, value-NoDigit n t dt, h.diff))
              (rw (after_of-NoDigit s ds)) (rw (after_of-NoDigit t dt)))
        | inr z ↦ rw z (
            decided d (ground (arith, value-NoDigit m s ds, value-NoDigit n t dt, h.diff))
              (ground arith))
      ]

  -- One more digit on both sides.
  Runs-next :
      (x y : ℕ) (s t : List ℕ) (m n : ℕ) (d : ℤ)
      → Runs ra rb (x ∷ s) (y ∷ t) m n d
      → is_digit x ≡ true
      → is_digit y ≡ true
      → Runs ra rb s t
          (m * 10 + (x - b'0'))
          (n * 10 + (y - b'0'))
          (if is_zero d then sub_ℕ x y else d)
  Runs-next x y s t m n d h dx dy = record {
    power = h.power * 10;
    left_below = ground (arith, h.left_below);
    right_below = ground (arith, h.right_below);
    left_lead = inl (ground (arith, h.left_lead));
    right_lead = inl (ground (arith, h.right_lead));
    diff = ground (arith, h.diff);
  }

  Outcome-next :
      (x y : ℕ) (s t : List ℕ) (m n : ℕ) {o : Round}
      → is_digit x ≡ true
      → is_digit y ≡ true
      → Outcome ra rb s t (m * 10 + (x - b'0')) (n * 10 + (y - b'0')) o
      → Outcome ra rb (x ∷ s) (y ∷ t) m n o
  unfolding value after
  Outcome-next x y s t m n dx dy (decided z e ne) = decided z (rw (dx, dy) e) ne
  Outcome-next x y s t m n dx dy (equal l r e el er) =
      equal l r (rw (dx, dy) e) (rw dx el) (rw dy er)

  run-Outcome :
      (s t : List ℕ) (m n : ℕ) (d : ℤ)
      → Runs ra rb s t m n d
      → Outcome ra rb s t m n (verdict (digit_run d (s ++ ra) (t ++ rb)))
  run-Outcome [] t m n d h =
      rw (digit_run_stop d ra (t ++ rb) (ground arith)) (stop-Outcome [] t m n d h refl)
  run-Outcome (x ∷ s) [] m n d h =
      rw (digit_run_stop d (x ∷ s ++ ra) rb (ground arith))
        (stop-Outcome (x ∷ s) [] m n d h (ground arith))
  run-Outcome (x ∷ s) (y ∷ t) m n d h = elim (Bool-cases (is_digit x && is_digit y)) [
    | inl e ↦
        let dx : is_digit x ≡ true = ground arith in
        let dy : is_digit y ≡ true = ground arith in
        rw (digit_run_next d x y (s ++ ra) (t ++ rb) e) (
          Outcome-next x y s t m n dx dy (
            run-Outcome s t (m * 10 + (x - b'0')) (n * 10 + (y - b'0'))
              (if is_zero d then sub_ℕ x y else d) (Runs-next x y s t m n d h dx dy)))
    | inr e ↦
        rw (digit_run_stop d (x ∷ s ++ ra) (y ∷ t ++ rb) e) (stop-Outcome (x ∷ s) (y ∷ t) m n d h e)
  ]

  from_skipped :
      (s t : List ℕ) {o : Round}
      → Outcome ra rb (skip_zeros s) (skip_zeros t) 0 0 o
      → Outcome ra rb s t 0 0 o
  from_skipped s t (decided z e ne) =
      decided z (rw (value-skip_zeros s, value-skip_zeros t) at e) ne
  from_skipped s t (equal l r e el er) =
      equal l r (rw (value-skip_zeros s, value-skip_zeros t) at e) (rw (after-skip_zeros s) at el)
        (rw (after-skip_zeros t) at er)

  -- The number part compares the values of the digit runs, and goes on behind both if they are equal.
  pub number-Outcome : (s t : List ℕ) → Outcome ra rb s t 0 0 (number_part (s ++ ra) (t ++ rb))
  unfolding number_part
  number-Outcome s t =
      rw (skip_zeros-append s ra ha, skip_zeros-append t rb hb)
        (from_skipped s t (
          run-Outcome (skip_zeros s) (skip_zeros t) 0 0 (pos 0) (record {
            power = 1;
            left_below = omega arith;
            right_below = omega arith;
            left_lead = inr (refl, refl, deref-skip_zeros s);
            right_lead = inr (refl, refl, deref-skip_zeros t);
            diff = refl;
          })))
