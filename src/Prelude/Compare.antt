-- ===== src/Prelude/Compare.antt =====
-- Three-way comparison results, and the comparison of lists of numbers with padding.
use Prim.Native.Nat.{ℕ, compare, Ordering}
use mathlib.Core.Path.{◌≡◌, refl}
use mathlib.Core.List.{List, [], ◌∷◌}
use native.Mathlib.Omega.{arith}

-- The first comparison that is not `eq` decides.
infixr 30 ◌then_cmp◌
abbrev pub ◌then_cmp◌ : Ordering → Ordering → Ordering
Ordering.lt then_cmp o = Ordering.lt
Ordering.eq then_cmp o = o
Ordering.gt then_cmp o = Ordering.gt

abbrev pub flip_cmp : Ordering → Ordering
flip_cmp Ordering.lt = Ordering.gt
flip_cmp Ordering.eq = Ordering.eq
flip_cmp Ordering.gt = Ordering.lt

pub flip-then : (a b : Ordering) → flip_cmp (a then_cmp b) ≡ (flip_cmp a then_cmp flip_cmp b)
flip-then Ordering.lt b = refl
flip-then Ordering.eq b = refl
flip-then Ordering.gt b = refl

pub flip-compare : (a b : ℕ) → flip_cmp (compare a b) ≡ compare b a
flip-compare a b = ground arith

-- Lists are compared from the front as if both went on with `pad` for ever.
module _ (pad : ℕ) where
  unfoldable pub lex : List ℕ → List ℕ → Ordering
  lex [] [] = Ordering.eq
  lex [] (y ∷ ys) = compare pad y then_cmp lex [] ys
  lex (x ∷ xs) [] = compare x pad then_cmp lex xs []
  lex (x ∷ xs) (y ∷ ys) = compare x y then_cmp lex xs ys

  pub lex_refl : (xs : List ℕ) → lex xs xs ≡ Ordering.eq
  unfolding lex
  lex_refl [] = refl
  lex_refl (x ∷ xs) = ground (arith, lex_refl xs)

  pub flip-lex : (xs ys : List ℕ) → flip_cmp (lex xs ys) ≡ lex ys xs
  unfolding lex
  flip-lex [] [] = refl
  flip-lex [] (y ∷ ys) = ground (arith, flip-lex [] ys)
  flip-lex (x ∷ xs) [] = ground (arith, flip-lex xs [])
  flip-lex (x ∷ xs) (y ∷ ys) = ground (arith, flip-lex xs ys)

-- The result of composing two comparisons `x ? y` and `y ? z`, where that is determined.
abbrev pub Composes : Ordering → Ordering → Ordering → Type 0
Composes Ordering.lt Ordering.lt o = o ≡ Ordering.lt
Composes Ordering.lt Ordering.eq o = o ≡ Ordering.lt
Composes Ordering.lt Ordering.gt o = Unit
Composes Ordering.eq Ordering.lt o = o ≡ Ordering.lt
Composes Ordering.eq Ordering.eq o = o ≡ Ordering.eq
Composes Ordering.eq Ordering.gt o = o ≡ Ordering.gt
Composes Ordering.gt Ordering.lt o = Unit
Composes Ordering.gt Ordering.eq o = o ≡ Ordering.gt
Composes Ordering.gt Ordering.gt o = o ≡ Ordering.gt

pub compare-Composes : (a b c : ℕ) → Composes (compare a b) (compare b c) (compare a c)
compare-Composes a b c = ground arith

-- Lexicographic composition of two such comparisons composes.
pub then-Composes :
    (p q r p' q' r' : Ordering)
    → Composes p q r
    → Composes p' q' r'
    → Composes (p then_cmp p') (q then_cmp q') (r then_cmp r')
then-Composes Ordering.lt Ordering.lt r p' q' r' h h' = ground arith
then-Composes Ordering.lt Ordering.eq r p' Ordering.lt r' h h' = ground arith
then-Composes Ordering.lt Ordering.eq r p' Ordering.eq r' h h' = ground arith
then-Composes Ordering.lt Ordering.eq r p' Ordering.gt r' h h' = ground arith
then-Composes Ordering.lt Ordering.gt r p' q' r' h h' = tt
then-Composes Ordering.eq Ordering.lt r Ordering.lt q' r' h h' = ground arith
then-Composes Ordering.eq Ordering.lt r Ordering.eq q' r' h h' = ground arith
then-Composes Ordering.eq Ordering.lt r Ordering.gt q' r' h h' = ground arith
then-Composes Ordering.eq Ordering.eq r p' q' r' h h' = rw h h'
then-Composes Ordering.eq Ordering.gt r Ordering.lt q' r' h h' = ground arith
then-Composes Ordering.eq Ordering.gt r Ordering.eq q' r' h h' = ground arith
then-Composes Ordering.eq Ordering.gt r Ordering.gt q' r' h h' = ground arith
then-Composes Ordering.gt Ordering.lt r p' q' r' h h' = tt
then-Composes Ordering.gt Ordering.eq r p' Ordering.lt r' h h' = ground arith
then-Composes Ordering.gt Ordering.eq r p' Ordering.eq r' h h' = ground arith
then-Composes Ordering.gt Ordering.eq r p' Ordering.gt r' h h' = ground arith
then-Composes Ordering.gt Ordering.gt r p' q' r' h h' = ground arith

module _ (pad : ℕ) where
  abbrev first : List ℕ → ℕ
  first [] = pad
  first (x ∷ xs) = x

  abbrev rest : List ℕ → List ℕ
  rest [] = []
  rest (x ∷ xs) = xs

  lex_step :
      (xs ys : List ℕ)
      → lex pad xs ys ≡ (compare (first xs) (first ys) then_cmp lex pad (rest xs) (rest ys))
  unfolding lex
  lex_step [] [] = ground arith
  lex_step [] (y ∷ ys) = refl
  lex_step (x ∷ xs) [] = refl
  lex_step (x ∷ xs) (y ∷ ys) = refl

  step-Composes :
      (xs ys zs : List ℕ)
      → Composes
          (lex pad (rest xs) (rest ys))
          (lex pad (rest ys) (rest zs))
          (lex pad (rest xs) (rest zs))
      → Composes (lex pad xs ys) (lex pad ys zs) (lex pad xs zs)
  step-Composes xs ys zs h =
      rw (lex_step xs ys, lex_step ys zs, lex_step xs zs)
        (then-Composes (compare (first xs) (first ys)) (compare (first ys) (first zs))
          (compare (first xs) (first zs)) _ _ _ (compare-Composes (first xs) (first ys) (first zs))
          h)

  -- Comparison with padding is transitive.
  pub lex-Composes : (xs ys zs : List ℕ) → Composes (lex pad xs ys) (lex pad ys zs) (lex pad xs zs)
  lex-Composes [] [] [] = unfold lex in refl
  lex-Composes [] [] (z ∷ zs) = step-Composes [] [] (z ∷ zs) (lex-Composes [] [] zs)
  lex-Composes [] (y ∷ ys) [] = step-Composes [] (y ∷ ys) [] (lex-Composes [] ys [])
  lex-Composes [] (y ∷ ys) (z ∷ zs) = step-Composes [] (y ∷ ys) (z ∷ zs) (lex-Composes [] ys zs)
  lex-Composes (x ∷ xs) [] [] = step-Composes (x ∷ xs) [] [] (lex-Composes xs [] [])
  lex-Composes (x ∷ xs) [] (z ∷ zs) = step-Composes (x ∷ xs) [] (z ∷ zs) (lex-Composes xs [] zs)
  lex-Composes (x ∷ xs) (y ∷ ys) [] = step-Composes (x ∷ xs) (y ∷ ys) [] (lex-Composes xs ys [])
  lex-Composes (x ∷ xs) (y ∷ ys) (z ∷ zs) =
      step-Composes (x ∷ xs) (y ∷ ys) (z ∷ zs) (lex-Composes xs ys zs)
