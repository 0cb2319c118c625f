-- ===== src/Solver/Register.antt =====
-- The watches that RegisterClause of apt-pkg/solver3.cc inserts. The merging of a clause with an earlier one
-- on the same package name, which needs the package cache, is left out.
use aptum.Prelude.{ℕ, suc, Bool, not, List, [], ◌∷◌, ◌++◌, All, ◌==◌, if◌then◌else◌, if-elim, zero}
use aptum.Solver.Types.{Lit, lit, negate, Clause}
use aptum.Solver.Propagate.{same_lit}
use aptum.Solver.Invariant.{IsWatched}

abbrev pub Watches : Type 0
Watches = Lit → List Clause

-- The vector of the literal gets the clause at its back.
unfoldable pub add_watch : Lit → Clause → Watches → Watches
add_watch q c d p = if same_lit p q then d p ++ c ∷ [] else d p

unfoldable pub watch_solutions : List ℕ → Clause → Watches → Watches
unfolding add_watch
watch_solutions [] c d = d
watch_solutions (v ∷ vs) c d =
    watch_solutions vs c (add_watch (if c.negative then lit v else negate (lit v)) c d)

unfoldable pub register_clause : Clause → Watches → Watches
unfolding watch_solutions add_watch
register_clause c d =
    watch_solutions c.solutions c (if not (c.reason == 0) then add_watch (lit c.reason) c d else d)

All-append {ℓ κ} :
    {A : Type ℓ} (P : A → Type κ) (xs ys : List A) → All P xs → All P ys → All P (xs ++ ys)
All-append P [] ys h k = k
All-append P (x ∷ xs) ys h k = (h.0, All-append P xs ys h.1 k)

module _ (P : Clause → Type 0) where
  abbrev pub OfAll : Watches → Type 0
  OfAll d = (p : Lit) → All P (d p)

  add_watch-OfAll : (q : Lit) (c : Clause) (d : Watches) → P c → OfAll d → OfAll (add_watch q c d)
  unfolding add_watch
  add_watch-OfAll q c d w h p =
      if-elim (All P) (same_lit p q) (λ e. All-append P (d p) (c ∷ []) (h p) (w, tt)) (λ e. h p)

  watch_solutions-OfAll :
      (vs : List ℕ) (c : Clause) (d : Watches) → P c → OfAll d → OfAll (watch_solutions vs c d)
  unfolding watch_solutions
  watch_solutions-OfAll [] c d w h = h
  watch_solutions-OfAll (v ∷ vs) c d w h =
      watch_solutions-OfAll vs c _ w
        (add_watch-OfAll (if c.negative then lit v else negate (lit v)) c d w h)

  pub register_clause-OfAll :
      (c : Clause) (d : Watches) → P c → OfAll d → OfAll (register_clause c d)
  unfolding register_clause
  register_clause-OfAll c d w h =
      watch_solutions-OfAll c.solutions c _ w
        (if-elim OfAll (not (c.reason == 0)) (λ e. add_watch-OfAll (lit c.reason) c d w h) (λ e. h))

-- Every clause stands only where it may be watched.
abbrev pub IsRegistered : (ℕ → Bool) → Watches → Type 0
IsRegistered m d = (p : Lit) → All (λ (c : Clause). IsWatched m p c) (d p)

-- The literals that a clause watches: its reason, if that is not the root, and its solutions, negated where the
-- clause is not negative.
abbrev pub solution_literals : Bool → List ℕ → List Lit
solution_literals negative [] = []
solution_literals negative (v ∷ vs) =
    (if negative then lit v else negate (lit v)) ∷ solution_literals negative vs

abbrev pub watched_literals : Clause → List Lit
watched_literals c =
    if not (c.reason == 0)
    then lit c.reason ∷ solution_literals c.negative c.solutions
    else solution_literals c.negative c.solutions

abbrev pub copies : ℕ → Clause → List Clause
copies zero c = []
copies (suc n) c = c ∷ copies n c
