-- ===== src/Solver/Clauses.antt =====
-- What a model of the clauses of apt-pkg/solver3.h must accept, given the assignments.
use aptum.Prelude.{
  ℕ, zero, suc, ◌≡◌, refl, sym, ap, ◌∙◌, inl, inr, Bool, true, false, not, ◌&&◌, ◌||◌, List, [],
  ◌∷◌, none, some, arith, ◌==◌, Bool-cases,
}
use aptum.Prelude.Int.{pos, negsuc}
use aptum.Solver.Types.{
  LiftedBool, undefined, yes_, no_, is_true, is_false, Lit, lit, var, sign, negate, Clause, Solver,
  Interface,
}
use aptum.Solver.Propagate.{any, count_if, find_if, same_lit, not_false}
use aptum.Solver.Model.{Given, satisfies, some_true, AllAgree, look-agree}
use aptum.Solver.Invariant.{IsModel, Inv}

-- What a clause says where it is not negative and its reason is true.
pub needs :
    (m : ℕ → Bool) (c : Clause)
    → satisfies m c ≡ true
    → c.negative ≡ false
    → m c.reason ≡ true
    → c.optional ≡ false
    → some_true m c.solutions ≡ true
needs m c s n r o = rw (n, r, o) at s

pub true_ne_false : true ≡ false → ⊥
true_ne_false e = cc

pub or_true : (b : Bool) → (b || true) ≡ true
or_true true = refl
or_true false = refl

-- A reason that would need a solution where there is none is false.
pub unmet :
    (m : ℕ → Bool) (c : Clause)
    → satisfies m c ≡ true
    → c.negative ≡ false
    → c.optional ≡ false
    → some_true m c.solutions ≡ false
    → m c.reason ≡ false
unmet m c h n o e = elim (Bool-cases (m c.reason)) [
  | inl r ↦ absurd (true_ne_false (sym (needs m c h n r o) ∙ e))
  | inr r ↦ r
]

pub denied :
    (m : ℕ → Bool) (c : Clause)
    → satisfies m c ≡ true
    → c.negative ≡ true
    → some_true m c.solutions ≡ true
    → m c.reason ≡ false
denied m c h n t = elim (Bool-cases (m c.reason)) [
  | inl r ↦ absurd (true_ne_false (sym (rw (n, t, r) at h)))
  | inr r ↦ r
]

pub excluded :
    (m : ℕ → Bool) (c : Clause)
    → satisfies m c ≡ true
    → c.negative ≡ true
    → m c.reason ≡ true
    → some_true m c.solutions ≡ false
excluded m c h n r = elim (Bool-cases (some_true m c.solutions)) [
  | inl t ↦ absurd (true_ne_false (sym (rw (n, t, r) at h)))
  | inr t ↦ t
]

pub listed_true :
    (m : ℕ → Bool) (vs : List ℕ) (x : ℕ)
    → any (λ v. v == x) vs ≡ true
    → m x ≡ true
    → some_true m vs ≡ true
listed_true m [] x e t = cc
listed_true m (v ∷ vs) x e t = elim (Bool-cases (v == x)) [
  | inl q ↦ ap (λ (b : Bool). b || some_true m vs) (ap m (equal v q) ∙ t)
  | inr q ↦ ap (λ (b : Bool). m v || b) (listed_true m vs x (rw q at e) t) ∙ or_true (m v)
]
  where
    equal : (v : ℕ) → (v == x) ≡ true → v ≡ x
    equal v q = ground arith

pub reason_true :
    (m : ℕ → Bool) (p : Lit) (r : ℕ)
    → not (same_lit p (lit r)) ≡ false
    → m (var p) ≡ not (sign p)
    → m r ≡ true
reason_true m (pos v) r q e = ap m (sym (equal v r q)) ∙ e
  where
    equal : (v r : ℕ) → not (v == r && true) ≡ false → v ≡ r
    equal v r q = ground arith
reason_true m (negsuc v) r q e = absurd (clash (suc v == r) q)
  where
    clash : (b : Bool) → not (b && false) ≡ false → ⊥
    clash true q = cc
    clash false q = cc

is_false-eq : (x : LiftedBool) → is_false x ≡ true → x ≡ no_
is_false-eq undefined e = cc
is_false-eq yes_ e = cc
is_false-eq no_ e = refl

is_true-eq : (x : LiftedBool) → is_true x ≡ true → x ≡ yes_
is_true-eq undefined e = cc
is_true-eq yes_ e = refl
is_true-eq no_ e = cc

module _ (i : Interface) (m : ℕ → Bool) (model : IsModel i m) where
  module _ (ts : List Given) (s : Solver i.D) (h : Inv i m ts s) (a : AllAgree m ts) where
    pub false_agree : (v : ℕ) → is_false (s.states v).assignment ≡ true → m v ≡ false
    false_agree v e = look-agree m model.root v false ts a (sym (h.values v) ∙ is_false-eq _ e)

    pub true_agree : (v : ℕ) → is_true (s.states v).assignment ≡ true → m v ≡ true
    true_agree v e = look-agree m model.root v true ts a (sym (h.values v) ∙ is_true-eq _ e)

    pub no_head_agree : (vs : List ℕ) → find_if (not_false i s) vs ≡ none → some_true m vs ≡ false
    no_head_agree [] e = refl
    no_head_agree (v ∷ vs) e = elim (Bool-cases (is_false (s.states v).assignment)) [
      | inl f ↦ rw (false_agree v f) (no_head_agree vs (rw f at e))
      | inr f ↦ absurd (some_ne (rw f at e))
    ]
      where
        some_ne : some v ≡ none → ⊥
        some_ne e = cc

    none_left : (vs : List ℕ) → count_if (not_false i s) vs ≡ 0 → some_true m vs ≡ false
    none_left [] e = refl
    none_left (v ∷ vs) e = elim (Bool-cases (is_false (s.states v).assignment)) [
      | inl f ↦ rw (false_agree v f) (none_left vs (omega (arith, rw f at e)))
      | inr f ↦ absurd (omega (arith, rw f at e))
    ]

    pub one_left :
        (vs : List ℕ) (head : ℕ)
        → find_if (not_false i s) vs ≡ some head
        → count_if (not_false i s) vs ≡ 1
        → some_true m vs ≡ true
        → m head ≡ true
    one_left [] head e n t = cc
    one_left (v ∷ vs) head e n t = elim (Bool-cases (is_false (s.states v).assignment)) [
      | inl f ↦ one_left vs head (rw f at e) (omega (arith, rw f at n)) (rw (false_agree v f) at t)
      | inr f ↦
          ap m (sym (same_some (rw f at e)))
          ∙ or_left (m v) (none_left vs (omega (arith, rw f at n))) t
    ]
      where
        same_some : some v ≡ some head → v ≡ head
        same_some e = cc

        or_left : (b : Bool) → some_true m vs ≡ false → (b || some_true m vs) ≡ true → b ≡ true
        or_left true e t = refl
        or_left false e t = cc

  pub reject_agree : (v : ℕ) → m v ≡ false → m (var (negate (lit v))) ≡ not (sign (negate (lit v)))
  reject_agree zero e = cc (model.root)
  reject_agree (suc v) e = e
