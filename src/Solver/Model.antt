-- ===== src/Solver/Model.antt =====
-- What a clause of the solver (apt-pkg/solver3.h) says of a choice of packages and versions, and the record
-- of a search: which variable was given which value, the newest first.
use aptum.Prelude.{
  ℕ, ◌≡◌, refl, ap, ◌∙◌, inl, inr, Bool, true, false, not, ◌||◌, List, [], ◌∷◌, ◌++◌, arith, All,
  ◌==◌, if◌then◌else◌, length, Bool-cases,
}
use aptum.Solver.Types.{LiftedBool, undefined, yes_, no_, Clause}

abbrev pub some_true : (ℕ → Bool) → List ℕ → Bool
some_true m [] = false
some_true m (v ∷ vs) = m v || some_true m vs

-- The reason implies one of the solutions, or none of them if the clause is negative.
abbrev pub satisfies : (ℕ → Bool) → Clause → Bool
satisfies m c =
    not (m c.reason)
    || (if c.negative then not (some_true m c.solutions) else c.optional || some_true m c.solutions)

abbrev pub Given : Type 0
Given = ℕ × Bool

abbrev pub lifted : Bool → LiftedBool
lifted true = yes_
lifted false = no_

-- The root is true.
abbrev pub look : ℕ → List Given → LiftedBool
look v [] = if v == 0 then yes_ else undefined
look v (e ∷ ts) = if v == e.0 then lifted e.1 else look v ts

abbrev pub AllAgree : (ℕ → Bool) → List Given → Type 0
AllAgree m ts = All (λ (e : Given). m e.0 ≡ e.1) ts

pub AllAgree-append :
    (m : ℕ → Bool) (xs ys : List Given) → AllAgree m xs → AllAgree m ys → AllAgree m (xs ++ ys)
AllAgree-append m [] ys h k = k
AllAgree-append m (x ∷ xs) ys h k = (h.0, AllAgree-append m xs ys h.1 k)

pub AllAgree-right : (m : ℕ → Bool) (xs ys : List Given) → AllAgree m (xs ++ ys) → AllAgree m ys
AllAgree-right m [] ys h = h
AllAgree-right m (x ∷ xs) ys h = AllAgree-right m xs ys h.1

-- The variable that was given a value first is true.
abbrev pub Decided : (ℕ → Bool) → List Given → Type 0
Decided m [] = Unit
Decided m (e ∷ []) = m e.0 ≡ true
Decided m (e ∷ f ∷ t) = Decided m (f ∷ t)

-- Whoever accepts the levels below and the decision of a level accepts all of the level.
abbrev pub IsSound : (ℕ → Bool) → List Given → List ℕ → Type 0
IsSound m ts [] = AllAgree m ts
IsSound m ts (lim ∷ lims) =
    (top : List Given) × (below : List Given) × (ts ≡ top ++ below)
    × (length below ≡ lim)
    × IsSound m below lims
    × (AllAgree m below → Decided m top → AllAgree m top)

pub push-IsSound :
    (m : ℕ → Bool) (e : Given) (ts : List Given) (lims : List ℕ)
    → (AllAgree m ts → m e.0 ≡ e.1)
    → IsSound m ts lims
    → IsSound m (e ∷ ts) lims
push-IsSound m e ts [] ok h = (ok h, h)
push-IsSound m e ts (lim ∷ lims) ok (top, below, cut, count, under, closed) =
    (e ∷ top, below, ap (λ (t : List Given). e ∷ t) cut, count, under, grown top closed ok')
  where
    ok' : AllAgree m (top ++ below) → m e.0 ≡ e.1
    ok' = rw (← cut) ok

    grown :
        (top : List Given)
        → (AllAgree m below → Decided m top → AllAgree m top)
        → (AllAgree m (top ++ below) → m e.0 ≡ e.1)
        → AllAgree m below
        → Decided m (e ∷ top)
        → AllAgree m (e ∷ top)
    grown [] closed ok b d = (ok b, tt)
    grown (f ∷ t) closed ok b d =
        let all = closed b d in (ok (AllAgree-append m (f ∷ t) below all b), all)

lifted_inj : (a b : Bool) → lifted a ≡ lifted b → a ≡ b
lifted_inj true true e = refl
lifted_inj false false e = refl
lifted_inj true false e = cc
lifted_inj false true e = cc

same_var : {v w : ℕ} → (v == w) ≡ true → v ≡ w
same_var e = ground arith

module _ (m : ℕ → Bool) (root : m 0 ≡ true) where
  pub look-agree :
      (v : ℕ) (b : Bool) (ts : List Given) → AllAgree m ts → look v ts ≡ lifted b → m v ≡ b
  look-agree v true [] h e = ground arith
  look-agree v false [] h e = ground arith
  look-agree v b (x ∷ ts) h e = elim (Bool-cases (v == x.0)) [
    | inl z ↦ rw (same_var z) (h.0 ∙ lifted_inj x.1 b (rw z at e))
    | inr z ↦ look-agree v b ts h.1 (rw z at e)
  ]
