-- ===== src/Solver/Propagate.antt =====
-- Assignment and propagation of `Solver` in apt-pkg/solver3.cc. Each operation returns what the code returns
-- and the new state; `aborted` is a failed must_succeed or a failed assertion.
-- Enqueue of the empty literal, that of the root, fails its assertion: it returns false and leaves a mark, where
-- all its callers stop, and Propagate aborts.
use aptum.Prelude.{
  ℕ, zero, suc, ◌+◌, Bool, true, false, not, ◌&&◌, ◌||◌, List, [], ◌∷◌, ◌++◌, Option, none, some,
  ◌==◌, if◌then◌else◌, length,
}
use aptum.Solver.Types.{
  LiftedBool, undefined, yes_, no_, lifted_not, is_undefined, is_true, is_false, differ, Lit, lit,
  var, sign, negate, Clause, Work, State, Solver, Interface,
}

abbrev pub unassigned : State
unassigned = record { reason = none; backtracked = false; level = 0; assignment = undefined }

abbrev pub update : ℕ → State → (ℕ → State) → ℕ → State
update v st states w = if w == v then st else states w

abbrev pub value_of : (ℕ → State) → Lit → LiftedBool
value_of states p =
    if sign p then lifted_not (states (var p)).assignment else (states (var p)).assignment

pub data Run {ℓ} (A : Type ℓ) : Type ℓ where
  out_of_fuel : Run A
  aborted : Run A
  ret : A → Run A

abbrev pub reports_failure {ℓ} : {A : Type ℓ} → Run (Bool × A) → Bool
reports_failure out_of_fuel = false
reports_failure aborted = false
reports_failure (ret r) = not r.0

-- Whether two assignments are the same.
abbrev pub same : LiftedBool → LiftedBool → Bool
same undefined b = is_undefined b
same yes_ b = is_true b
same no_ b = is_false b

abbrev pub any {ℓ} : {A : Type ℓ} → (A → Bool) → List A → Bool
any p [] = false
any p (x ∷ xs) = p x || any p xs

abbrev pub count_if {ℓ} : {A : Type ℓ} → (A → Bool) → List A → ℕ
count_if p [] = 0
count_if p (x ∷ xs) = (if p x then 1 else 0) + count_if p xs

abbrev pub find_if {ℓ} : {A : Type ℓ} → (A → Bool) → List A → Option A
find_if p [] = none
find_if p (x ∷ xs) = if p x then some x else find_if p xs

abbrev pub filter {ℓ} : {A : Type ℓ} → (A → Bool) → List A → List A
filter p [] = []
filter p (x ∷ xs) = if p x then x ∷ filter p xs else filter p xs

abbrev pub same_lit : Lit → Lit → Bool
same_lit p q = var p == var q && not (differ (sign p) (sign q))

-- The only solution of a clause.
abbrev pub single : List ℕ → Option ℕ
single [] = none
single (v ∷ []) = some v
single (v ∷ u ∷ vs) = none

abbrev pub front : List ℕ → Option (ℕ × List ℕ)
front [] = none
front (v ∷ q) = some (v, q)

module _ (i : Interface) where
  open i use {D, watches, discover, push_heap, make_heap, pop_heap, time}

  abbrev pub S : Type 0
  S = Solver D

  abbrev pub decision_level : S → ℕ
  decision_level s = length s.trail_lim

  abbrev pub assign : Lit → Option Clause → S → S
  assign p reason s = record s {
    states =
        update (var p)
          (record {
            reason = reason;
            backtracked = (s.states (var p)).backtracked;
            level = decision_level s;
            assignment = if sign p then no_ else yes_;
          })
          s.states;
    trail = record { assigned = var p; work = none } ∷ s.trail;
    prop_q = s.prop_q ++ var p ∷ [];
  }

  -- Enqueue behind its assertion.
  abbrev pub assert_passed : Lit → Option Clause → S → Bool × S
  assert_passed p reason s =
      let now = (s.states (var p)).assignment in
      if is_undefined now
      then (true, assign p reason s)
      else if same now (if sign p then no_ else yes_)
      then (true, s)
      else (false, record s { pending_error = true })

  unfoldable pub enqueue : Lit → Option Clause → S → Bool × S
  enqueue p reason s =
      if var p == 0 then (false, record s { failed_assertion = true }) else assert_passed p reason s

  unfoldable pub assume : Lit → Option Clause → S → Bool × S
  unfolding enqueue
  assume p reason s = enqueue p reason (record s { trail_lim = length s.trail ∷ s.trail_lim })

  -- The calls of Enqueue that reject some variables, up to one that fails.
  unfoldable pub reject_all : List ℕ → Clause → S → Bool × S
  unfolding enqueue
  reject_all [] c s = (true, s)
  reject_all (v ∷ vs) c s =
      let r = enqueue (negate (lit v)) (some c) s in
      elim r.0 [ true ↦ reject_all vs c r.1 | false ↦ r ]

  abbrev pub not_false : S → ℕ → Bool
  not_false s v = not (is_false (value_of s.states (lit v)))

  abbrev pub queue_work : Work → S → S
  queue_work w s = record s {
    work = push_heap (s.work ++ record w { size = count_if (not_false s) w.clause.solutions } ∷ []);
  }

  unfoldable pub add_positive : Option ℕ → Work → S → Bool × S
  unfolding enqueue
  add_positive none w s = (true, queue_work w s)
  add_positive (some v) w s =
      if not w.clause.optional then enqueue (lit v) (some w.clause) s else (true, queue_work w s)

  unfoldable pub add_work : Work → S → Bool × S
  unfolding reject_all add_positive
  add_work w s =
      if w.clause.negative
      then reject_all w.clause.solutions w.clause s
      else add_positive (single w.clause.solutions) w s

  -- A clause with no solution left.
  unfoldable pub no_head : Clause → S → Bool × S
  unfolding enqueue
  no_head c s = if not c.optional then enqueue (negate (lit c.reason)) (some c) s else (true, s)

  -- A clause whose first solution that is not false is `head`; it is the last, too, if there is one.
  unfoldable pub with_head : ℕ → Clause → Lit → S → Bool × S
  unfolding enqueue add_work
  with_head head c p s =
      if not (is_true (value_of s.states (lit c.reason)))
      then (true, s)
      else if not c.optional && count_if (not_false s) c.solutions == 1
      then enqueue (lit head) (some c) s
      else if same_lit p (lit c.reason)
      then add_work (record { clause = c; level = decision_level s; size = 0 }) s
      else (true, s)

  abbrev pub head_of : Clause → S → Option ℕ
  head_of c s = find_if (not_false s) c.solutions

  unfoldable pub propagate_positive : Option ℕ → Clause → Lit → S → Bool × S
  unfolding no_head with_head
  propagate_positive none c p s = no_head c s
  propagate_positive (some head) c p s = with_head head c p s

  unfoldable pub propagate_clause : Clause → Lit → S → Bool × S
  unfolding propagate_positive reject_all enqueue
  propagate_clause c p s =
      if c.negative
      then if not (same_lit p (lit c.reason))
        then enqueue (negate (lit c.reason)) (some c) s
        else reject_all c.solutions c s
      else propagate_positive (head_of c s) c p s

  unfoldable pub propagate_watches : List Clause → Lit → S → Bool × S
  unfolding propagate_clause
  propagate_watches [] p s = (true, s)
  propagate_watches (c ∷ cs) p s =
      let r = propagate_clause c p s in elim r.0 [ true ↦ propagate_watches cs p r.1 | false ↦ r ]

  abbrev pub discovered : ℕ → S → S
  discovered v s = record s { known = discover s.states v s.known }

  -- One variable of the queue, whose assignment is given.
  unfoldable pub propagate_one : LiftedBool → ℕ → S → Bool × S
  unfolding propagate_watches
  propagate_one undefined v s = (true, s)
  propagate_one no_ v s = propagate_watches (watches (negate (lit v)) s.known) (negate (lit v)) s
  propagate_one yes_ v s =
      let s' = discovered v s in propagate_watches (watches (lit v) s'.known) (lit v) s'

  -- Where a failed assertion stops the program.
  abbrev pub propagated : Bool × S → Run (Bool × S)
  propagated r = if r.1.failed_assertion then aborted else ret r

  unfoldable pub propagate : ℕ → S → Run (Bool × S)
  unfolding propagate_one
  propagate zero s = out_of_fuel
  propagate (suc fuel) s = elim (front s.prop_q) [
    | none ↦ ret (true, s)
    | some (v, q) ↦
        let r = propagate_one (value_of s.states (lit v)) v (record s { prop_q = q }) in
        elim r.0 [ true ↦ propagate fuel r.1 | false ↦ propagated r ]
  ]
