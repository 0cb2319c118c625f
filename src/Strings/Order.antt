-- ===== src/Strings/Order.antt =====
-- stringcmp and stringcasecmp of apt-pkg/contrib/strutl.cc, over bytes; their overloads for pointers and iterators
-- are the same code. `char` is signed, and a text that ends first is the greater one.
use aptum.Prelude.{
  length, suc, zero, sym, true, ◌∙◌, ℕ, ◌+◌, ◌%◌, ◌<◌, ◌≡◌, refl, ap, Bool, List, [], ◌∷◌, map,
  arith, All, ◌↔◌, ltb, ◌==◌, if◌then◌else◌, ◌⊎◌, inl, inr, if-elim,
}
use aptum.Prelude.Int.{ℤ, pos, negsuc, is_zero}
use aptum.Chars.{tolower_ascii}

-- `*A < *B`: a byte from 128 on is negative.
abbrev pub char_lt : ℕ → ℕ → Bool
char_lt x y = ltb ((x + 128) % 256) ((y + 128) % 256)

unfoldable pub stringcmp : List ℕ → List ℕ → ℤ
stringcmp [] [] = pos 0
stringcmp [] (y ∷ b) = pos 1
stringcmp (x ∷ a) [] = negsuc 0
stringcmp (x ∷ a) (y ∷ b) =
    let rest = stringcmp a b in if x == y then rest else if char_lt x y then negsuc 0 else pos 1

unfoldable pub stringcasecmp : List ℕ → List ℕ → ℤ
stringcasecmp [] [] = pos 0
stringcasecmp [] (y ∷ b) = pos 1
stringcasecmp (x ∷ a) [] = negsuc 0
stringcasecmp (x ∷ a) (y ∷ b) =
    let rest = stringcasecmp a b in
    if tolower_ascii x == tolower_ascii y
    then rest
    else if char_lt (tolower_ascii x) (tolower_ascii y)
    then negsuc 0
    else pos 1

abbrev pub lower : List ℕ → List ℕ
lower s = map tolower_ascii s

abbrev pub AllBytes : List ℕ → Type 0
AllBytes s = All (λ (c : ℕ). c < 256) s

-- stringcasecmp is stringcmp on the texts in lower case.
pub stringcasecmp-stringcmp : (a b : List ℕ) → stringcasecmp a b ≡ stringcmp (lower a) (lower b)
unfolding stringcasecmp stringcmp
stringcasecmp-stringcmp [] [] = refl
stringcasecmp-stringcmp [] (y ∷ b) = refl
stringcasecmp-stringcmp (x ∷ a) [] = refl
stringcasecmp-stringcmp (x ∷ a) (y ∷ b) =
    ap
      (λ (r : ℤ).
        if tolower_ascii x == tolower_ascii y
        then r
        else if char_lt (tolower_ascii x) (tolower_ascii y)
        then negsuc 0
        else pos 1)
      (stringcasecmp-stringcmp a b)

zero-eq : (a b : List ℕ) → stringcmp a b ≡ pos 0 → a ≡ b
unfolding stringcmp
zero-eq [] [] h = refl
zero-eq [] (y ∷ b) h = cc
zero-eq (x ∷ a) [] h = cc
zero-eq (x ∷ a) (y ∷ b) h = ground (arith, zero-eq a b)

stringcmp_self : (a : List ℕ) → stringcmp a a ≡ pos 0
unfolding stringcmp
stringcmp_self [] = refl
stringcmp_self (x ∷ a) = ground (arith, stringcmp_self a)

stringcmp_flip :
    (a b : List ℕ) → AllBytes a → AllBytes b → stringcmp a b ≡ negsuc 0 → stringcmp b a ≡ pos 1
unfolding stringcmp
stringcmp_flip [] [] p q h = cc
stringcmp_flip [] (y ∷ b) p q h = cc
stringcmp_flip (x ∷ a) [] p q h = refl
stringcmp_flip (x ∷ a) (y ∷ b) p q h = ground (arith, stringcmp_flip a b p.1 q.1)

stringcmp_unflip :
    (a b : List ℕ) → AllBytes a → AllBytes b → stringcmp a b ≡ pos 1 → stringcmp b a ≡ negsuc 0
unfolding stringcmp
stringcmp_unflip [] [] p q h = cc
stringcmp_unflip [] (y ∷ b) p q h = refl
stringcmp_unflip (x ∷ a) [] p q h = cc
stringcmp_unflip (x ∷ a) (y ∷ b) p q h = ground (arith, stringcmp_unflip a b p.1 q.1)

abbrev pub IsSign : ℤ → Type 0
IsSign z = (z ≡ pos 0) ⊎ (z ≡ negsuc 0) ⊎ (z ≡ pos 1)

stringcmp-IsSign : (a b : List ℕ) → IsSign (stringcmp a b)
unfolding stringcmp
stringcmp-IsSign [] [] = inl refl
stringcmp-IsSign [] (y ∷ b) = inr (inr refl)
stringcmp-IsSign (x ∷ a) [] = inr (inl refl)
stringcmp-IsSign (x ∷ a) (y ∷ b) =
    if-elim IsSign (x == y) (λ e. stringcmp-IsSign a b)
      (λ e. if-elim IsSign (char_lt x y) (λ l. inr (inl refl)) (λ l. inr (inr refl)))

stringcmp_trans :
    (a b c : List ℕ)
    → stringcmp a b ≡ negsuc 0
    → stringcmp b c ≡ negsuc 0
    → stringcmp a c ≡ negsuc 0
unfolding stringcmp
stringcmp_trans [] [] c h k = cc
stringcmp_trans [] (y ∷ b) c h k = cc
stringcmp_trans (x ∷ a) b [] h k = refl
stringcmp_trans (x ∷ a) [] (z ∷ c) h k = cc
stringcmp_trans (x ∷ a) (y ∷ b) (z ∷ c) h k = ground (arith, stringcmp_trans a b c)

lower-AllBytes : (a : List ℕ) → AllBytes a → AllBytes (lower a)
unfolding tolower_ascii
lower-AllBytes [] h = tt
lower-AllBytes (x ∷ a) h = (ground (arith, h.0), lower-AllBytes a h.1)

-- stringcasecmp is 0 exactly where the texts in lower case are equal.
pub stringcasecmp-zero : (a b : List ℕ) → (stringcasecmp a b ≡ pos 0) ↔ (lower a ≡ lower b)
stringcasecmp-zero a b =
    rw (stringcasecmp-stringcmp a b)
      (zero-eq (lower a) (lower b), λ e. rw e (stringcmp_self (lower b)))

pub length-lower : (a b : List ℕ) → lower a ≡ lower b → length a ≡ length b
length-lower a b e = sym (same a) ∙ ap length e ∙ same b
  where
    same : (c : List ℕ) → length (lower c) ≡ length c
    same [] = refl
    same (x ∷ c) = ap suc (same c)

pub is_zero-eq : (z : ℤ) → is_zero z ≡ true → z ≡ pos 0
is_zero-eq (pos zero) h = refl
is_zero-eq (pos (suc n)) h = cc
is_zero-eq (negsuc n) h = cc

-- On texts of bytes stringcasecmp is a total order of the texts in lower case: it is 0, -1 or 1; it is 0 exactly
-- where they are equal, it is 1 with the arguments exchanged exactly where it is -1, and being -1 is
-- transitive.
pub stringcasecmp-order :
    (a b c : List ℕ)
    → AllBytes a
    → AllBytes b
    → IsSign (stringcasecmp a b)
      × ((stringcasecmp a b ≡ pos 0) ↔ (lower a ≡ lower b))
      × ((stringcasecmp a b ≡ negsuc 0) ↔ (stringcasecmp b a ≡ pos 1))
      × (stringcasecmp a b ≡ negsuc 0 → stringcasecmp b c ≡ negsuc 0 → stringcasecmp a c ≡ negsuc 0)
stringcasecmp-order a b c p q =
    let pl = lower-AllBytes a p in
    let ql = lower-AllBytes b q in
    rw
      (
        stringcasecmp-stringcmp a b,
        stringcasecmp-stringcmp b a,
        stringcasecmp-stringcmp b c,
        stringcasecmp-stringcmp a c,
      )
      (
        stringcmp-IsSign (lower a) (lower b),
        (zero-eq (lower a) (lower b), λ e. rw e (stringcmp_self (lower b))),
        (stringcmp_flip (lower a) (lower b) pl ql, stringcmp_unflip (lower b) (lower a) ql pl),
        stringcmp_trans (lower a) (lower b) (lower c),
      )
