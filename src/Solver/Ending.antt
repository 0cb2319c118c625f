-- ===== src/Solver/Ending.antt =====
-- Propagate of apt-pkg/solver3.cc ends: each round takes a variable from the queue, and each variable that
-- is added to it was undefined before.
use aptum.Prelude.{
  ℕ, zero, suc, ◌+◌, ◌≤◌, ◌<◌, ◌≡◌, refl, sym, ap, ◌∙◌, ◌⊎◌, inl, inr, Bool, true, false, not, ◌&&◌,
  List, [], ◌∷◌, Option, none, some, arith, All, ◌==◌, if◌then◌else◌, length, length-append,
  Bool-cases, if-elim, some_inj,
}
use mathlib.Core.Path.{subst}
use aptum.Solver.Types.{
  LiftedBool, undefined, yes_, no_, is_undefined, is_true, Lit, lit, var, sign, negate, Clause,
  Work, State, Solver, Interface,
}
use aptum.Solver.Propagate.{
  Run, ret, aborted, propagated, find_if, count_if, same, same_lit, update, single, front, enqueue,
  reject_all, not_false, add_positive, add_work, no_head, with_head, head_of, propagate_positive,
  propagate_clause, propagate_watches, discovered, propagate_one, propagate, value_of,
}

abbrev bit : Bool → ℕ
bit true = 1
bit false = 0

-- The variables below a bound that are undefined.
abbrev pub unset : ℕ → (ℕ → State) → ℕ
unset zero states = 0
unset (suc n) states = unset n states + bit (is_undefined (states n).assignment)

-- The clauses are about variables below the bound.
pub record IsWithin (n : ℕ) (c : Clause) : Type 0 where
  pub reason : c.reason < n
  pub solutions : All (λ (v : ℕ). v < n) c.solutions

pub record IsBounded (i : Interface) (n : ℕ) (d : i.D) : Type 0 where
  pub on : (p : Lit) → All (λ (c : Clause). IsWithin n c) (i.watches p d)

unset_outside :
    (n v : ℕ) (st : State) (states : ℕ → State)
    → n ≤ v
    → unset n (update v st states) ≡ unset n states
unset_outside zero v st states h = refl
unset_outside (suc n) v st states h =
    if-elim
      (λ (x : State).
        unset n (update v st states) + bit (is_undefined x.assignment)
        ≡ unset n states + bit (is_undefined (states n).assignment))
      (n == v) (λ e. absurd (ground arith))
      (λ e. omega (arith, unset_outside n v st states (omega arith)))

unset-update :
    (n v : ℕ) (st : State) (states : ℕ → State)
    → v < n
    → is_undefined (states v).assignment ≡ true
    → is_undefined st.assignment ≡ false
    → unset n (update v st states) + 1 ≡ unset n states
unset-update zero v st states h u d = elim h [ ]
unset-update (suc n) v st states h u d =
    if-elim
      (λ (x : State).
        unset n (update v st states) + bit (is_undefined x.assignment) + 1
        ≡ unset n states + bit (is_undefined (states n).assignment))
      (n == v) (λ e. here (ground arith))
      (λ e. omega (arith, unset-update n v st states (ground arith) u d))
  where
    here :
        n ≡ v
        → unset n (update v st states) + bit (is_undefined st.assignment) + 1
          ≡ unset n states + bit (is_undefined (states n).assignment)
    here e = omega (
      arith,
      unset_outside n v st states (omega (arith, e)),
      ap bit d,
      ap (λ (w : ℕ). bit (is_undefined (states w).assignment)) e,
      ap bit u,
    )

-- A run that has enough fuel.
abbrev pub Stops {ℓ} : {A : Type ℓ} → Run A → Type ℓ
Stops {A = A} r = ((a : A) × (r ≡ ret a)) ⊎ (r ≡ aborted)

module _ (i : Interface) (n : ℕ) where
  abbrev pub cost : Solver i.D → ℕ
  cost s = unset n s.states + length s.prop_q

  record Spends (s : Solver i.D) (r : Bool × Solver i.D) : Type 0 where
    spent : cost r.1 ≤ cost s
    known : r.1.known ≡ s.known

  enqueue-Spends :
      (p : Lit) (reason : Option Clause) (s : Solver i.D)
      → var p < n
      → Spends s (enqueue i p reason s)
  unfolding enqueue
  enqueue-Spends p reason s h =
      if-elim (Spends s) (var p == 0) (λ z. record { spent = omega arith; known = refl })
        (λ z.
          if-elim (Spends s) (is_undefined (s.states (var p)).assignment)
            (λ u. record {
              spent = omega (
                arith,
                unset-update n (var p)
                    (record {
                      reason = reason;
                      backtracked = (s.states (var p)).backtracked;
                      level = length s.trail_lim;
                      assignment = if sign p then no_ else yes_;
                    })
                    s.states h u (defined (sign p)),
                length-append s.prop_q (var p ∷ []),
              );
              known = refl;
            })
            (λ u.
              if-elim (Spends s) (same (s.states (var p)).assignment (if sign p then no_ else yes_))
                (λ e. record { spent = omega arith; known = refl })
                (λ e. record { spent = omega arith; known = refl })))
    where
      defined : (b : Bool) → is_undefined (if b then no_ else yes_) ≡ false
      defined true = refl
      defined false = refl

  var-negate : (v : ℕ) → var (negate (lit v)) ≡ v
  var-negate zero = refl
  var-negate (suc v) = refl

  reject-Spends :
      (v : ℕ) (c : Clause) (s : Solver i.D)
      → v < n
      → Spends s (enqueue i (negate (lit v)) (some c) s)
  reject-Spends v c s h = enqueue-Spends (negate (lit v)) (some c) s (omega (arith, var-negate v))

  stay : (s : Solver i.D) → Spends s (true, s)
  stay s = record { spent = omega arith; known = refl }

  -- A step that goes on where the one before it succeeded.
  after :
      (s : Solver i.D) (r : Bool × Solver i.D) (k : Solver i.D → Bool × Solver i.D)
      → Spends s r
      → ((t : Solver i.D) → t.known ≡ s.known → Spends t (k t))
      → Spends s (elim r.0 [ true ↦ k r.1 | false ↦ r ])
  after s (false, t) k h f = h
  after s (true, t) k h f =
      let g = f t h.known in
      record { spent = omega (arith, g.spent, h.spent); known = g.known ∙ h.known }

  reject_all-Spends :
      (vs : List ℕ) (c : Clause) (s : Solver i.D)
      → All (λ (v : ℕ). v < n) vs
      → Spends s (reject_all i vs c s)
  unfolding reject_all
  reject_all-Spends [] c s h = stay s
  reject_all-Spends (v ∷ vs) c s h =
      after s (enqueue i (negate (lit v)) (some c) s) (reject_all i vs c) (reject-Spends v c s h.0)
        (λ t _. reject_all-Spends vs c t h.1)

  single-within : (vs : List ℕ) (v : ℕ) → All (λ (v : ℕ). v < n) vs → single vs ≡ some v → v < n
  single-within [] v h e = cc
  single-within (u ∷ []) v h e = omega (arith, h.0, some_inj e)
  single-within (u ∷ w ∷ vs) v h e = cc

  find_if-within :
      (p : ℕ → Bool) (vs : List ℕ) (v : ℕ)
      → All (λ (v : ℕ). v < n) vs
      → find_if p vs ≡ some v
      → v < n
  find_if-within p [] v h e = cc
  find_if-within p (u ∷ vs) v h e = elim (Bool-cases (p u)) [
    | inl q ↦ omega (arith, h.0, some_inj (rw q at e))
    | inr q ↦ find_if-within p vs v h.1 (rw q at e)
  ]

  add_positive-Spends :
      (o : Option ℕ) (w : Work) (s : Solver i.D)
      → IsWithin n w.clause
      → single w.clause.solutions ≡ o
      → Spends s (add_positive i o w s)
  unfolding add_positive
  add_positive-Spends none w s h e = record { spent = omega arith; known = refl }
  add_positive-Spends (some v) w s h e =
      if-elim (Spends s) (not w.clause.optional)
        (λ o.
          enqueue-Spends (lit v) (some w.clause) s
            (single-within w.clause.solutions v h.solutions e))
        (λ o. record { spent = omega arith; known = refl })

  add_work-Spends : (w : Work) (s : Solver i.D) → IsWithin n w.clause → Spends s (add_work i w s)
  unfolding add_work
  add_work-Spends w s h =
      if-elim (Spends s) w.clause.negative
        (λ e. reject_all-Spends w.clause.solutions w.clause s h.solutions)
        (λ e. add_positive-Spends (single w.clause.solutions) w s h refl)

  propagate_positive-Spends :
      (o : Option ℕ) (c : Clause) (p : Lit) (s : Solver i.D)
      → IsWithin n c
      → head_of i c s ≡ o
      → Spends s (propagate_positive i o c p s)
  unfolding propagate_positive no_head with_head
  propagate_positive-Spends none c p s h e =
      if-elim (Spends s) (not c.optional) (λ o. reject-Spends c.reason c s h.reason) (λ o. stay s)
  propagate_positive-Spends (some head) c p s h e =
      if-elim (Spends s) (not (is_true (s.states c.reason).assignment)) (λ _. stay s)
        (λ _.
          if-elim (Spends s) (not c.optional && count_if (not_false i s) c.solutions == 1)
            (λ _.
              enqueue-Spends (lit head) (some c) s
                (find_if-within (not_false i s) c.solutions head h.solutions e))
            (λ _.
              if-elim (Spends s) (same_lit p (lit c.reason))
                (λ _.
                  add_work-Spends (record { clause = c; level = length s.trail_lim; size = 0 }) s h)
                (λ _. stay s)))

  propagate_clause-Spends :
      (c : Clause) (p : Lit) (s : Solver i.D) → IsWithin n c → Spends s (propagate_clause i c p s)
  unfolding propagate_clause
  propagate_clause-Spends c p s h =
      if-elim (Spends s) c.negative
        (λ _.
          if-elim (Spends s) (not (same_lit p (lit c.reason)))
            (λ _. reject-Spends c.reason c s h.reason)
            (λ _. reject_all-Spends c.solutions c s h.solutions))
        (λ _. propagate_positive-Spends (head_of i c s) c p s h refl)

  propagate_watches-Spends :
      (cs : List Clause) (p : Lit) (s : Solver i.D)
      → All (λ (c : Clause). IsWithin n c) cs
      → Spends s (propagate_watches i cs p s)
  unfolding propagate_watches
  propagate_watches-Spends [] p s h = stay s
  propagate_watches-Spends (c ∷ cs) p s h =
      after s (propagate_clause i c p s) (propagate_watches i cs p)
        (propagate_clause-Spends c p s h.0) (λ t _. propagate_watches-Spends cs p t h.1)

  -- One variable of the queue, after which the clauses are still about variables below the bound.
  record Step (s : Solver i.D) (r : Bool × Solver i.D) : Type 0 where
    spent : cost r.1 ≤ cost s
    bounded : IsBounded i n r.1.known

  module _
      (learns : (states : ℕ → State) (v : ℕ) (d : i.D)
        → IsBounded i n d
        → IsBounded i n (i.discover states v d)) where
    propagate_one-Step :
        (x : LiftedBool) (v : ℕ) (s : Solver i.D)
        → IsBounded i n s.known
        → Step s (propagate_one i x v s)
    unfolding propagate_one
    propagate_one-Step undefined v s h = record { spent = omega arith; bounded = h }
    propagate_one-Step no_ v s h =
        let g = propagate_watches-Spends _ (negate (lit v)) s (h.on (negate (lit v))) in
        record { spent = g.spent; bounded = subst (λ (d : i.D). IsBounded i n d) (sym g.known) h }
    propagate_one-Step yes_ v s h =
        let h' = learns s.states v s.known h in
        let g = propagate_watches-Spends _ (lit v) (discovered i v s) (h'.on (lit v)) in
        record { spent = g.spent; bounded = subst (λ (d : i.D). IsBounded i n d) (sym g.known) h' }

    -- Where all clauses are about variables below `n`, Propagate ends as soon as it has a round for
    -- each variable in the queue and each of the undefined variables below `n`, and one more: it returns
    -- or fails the assertion of Enqueue.
    pub propagate_total :
        (fuel : ℕ) (s : Solver i.D)
        → IsBounded i n s.known
        → unset n s.states + length s.prop_q < fuel
        → Stops (propagate i fuel s)
    unfolding propagate
    propagate_total zero s h lt = elim lt [ ]
    propagate_total (suc fuel) s h lt = round s.prop_q refl (λ t k l. propagate_total fuel t k l)
      where
        rounds : List ℕ → Run (Bool × Solver i.D)
        rounds q = elim (front q) [
          | none ↦ ret (true, s)
          | some (v, q) ↦
              let r = propagate_one i (value_of s.states (lit v)) v (record s { prop_q = q }) in
              elim r.0 [ true ↦ propagate i fuel r.1 | false ↦ propagated i r ]
        ]

        Rest : Type 0
        Rest = (t : Solver i.D) → IsBounded i n t.known → cost t < fuel → Stops (propagate i fuel t)

        next :
            (r : Bool × Solver i.D)
            → IsBounded i n r.1.known
            → cost r.1 < fuel
            → Rest
            → Stops (elim r.0 [ true ↦ propagate i fuel r.1 | false ↦ propagated i r ])
        next (true, t) k l rec = rec t k l
        next (false, t) k l rec =
            if-elim Stops t.failed_assertion (λ f. inr refl) (λ f. inl ((false, t), refl))

        round : (q : List ℕ) → s.prop_q ≡ q → Rest → Stops (rounds q)
        round [] e rec = inl ((true, s), refl)
        round (v ∷ q) e rec =
            let g = propagate_one-Step (s.states v).assignment v (record s { prop_q = q }) h in
            next _ g.bounded (omega (arith, g.spent, ap length e)) rec
