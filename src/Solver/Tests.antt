-- ===== src/Solver/Tests.antt =====
-- Runs of the solver's search (apt-pkg/solver3.cc), and its theorems at concrete clauses.
use aptum.Prelude.{
  ℕ, ◌≡◌, refl, Bool, true, false, ◌||◌, List, [], ◌∷◌, Option, none, some, arith, ◌==◌,
  if◌then◌else◌,
}
use aptum.Solver.Types.{
  LiftedBool, undefined, yes_, no_, lit, Clause, Work, Solver, Interface, work_lt,
}
use aptum.Solver.Propagate.{Run, out_of_fuel, aborted, ret, unassigned, enqueue, propagate}
use aptum.Solver.Search.{solve}
use aptum.Solver.Invariant.{IsModel}
use aptum.Solver.Register.{Watches, register_clause, register_clause-OfAll}
use aptum.Solver.Order.{equal, work_lt-strict_weak}
use aptum.Solver.Ending.{Stops, IsWithin, IsBounded, propagate_total}

-- Nothing is discovered, the front of the heap is its first item, and the clock stands at 5.
abbrev fixed : Interface
fixed = record {
  D = Watches;
  watches = λ p d. d p;
  discover = λ states v d. d;
  push_heap = λ ws. ws;
  make_heap = λ ws. ws;
  pop_heap = λ w ws. (w, ws);
  time = λ k. 5;
}

abbrev depends : ℕ → List ℕ → Clause
depends r vs = record {
  reason = r;
  group = 2;
  solutions = vs;
  optional = false;
  negative = false;
  eager = true;
}

abbrev conflicts : ℕ → List ℕ → Clause
conflicts r vs = record {
  reason = r;
  group = 2;
  solutions = vs;
  optional = false;
  negative = true;
  eager = true;
}

abbrev no_watches : Watches
no_watches p = []

abbrev fresh_solver : Watches → Solver Watches
fresh_solver d = record {
  states = λ v. if v == 0 then record unassigned { assignment = yes_ } else unassigned;
  known = d;
  work = [];
  trail = [];
  trail_lim = [];
  prop_q = [];
  pending_error = false;
  failed_assertion = false;
  calls_of_time = 0;
  start_time = 0;
  timeout = 10;
}

-- 1 needs 2 or 3, 2 conflicts with 4, and 1 needs 4.
abbrev choice : Watches
choice =
    register_clause (depends 1 (2 ∷ 3 ∷ []))
      (register_clause (conflicts 2 (4 ∷ [])) (register_clause (depends 2 (4 ∷ [])) no_watches))

abbrev requested : Watches → Solver Watches
requested d = (enqueue fixed (lit 1) none (fresh_solver d)).1

abbrev answer : Run (Bool × Solver Watches) → Option (Bool × LiftedBool × LiftedBool)
answer out_of_fuel = none
answer aborted = none
answer (ret (b, s)) = some (b, (s.states 2).assignment, (s.states 3).assignment)

-- 2 is tried, conflicts with itself, is taken back, and 3 is installed.
choice_solved : answer (solve fixed 9 (requested choice)) ≡ some (true, no_, yes_)
unfolding solve register_clause enqueue
choice_solved = refl

-- Without 3 there is no answer.
dead_end :
    answer (
      solve fixed 9 (
        requested (
          register_clause (depends 1 (2 ∷ [])) (
            register_clause
              (conflicts 2 (4 ∷ []))
              (register_clause (depends 2 (4 ∷ [])) no_watches)))))
    ≡ some (false, yes_, undefined)
unfolding solve register_clause enqueue
dead_end = refl

-- 1 and 3 are a choice that satisfies the clauses.
abbrev one_three : ℕ → Bool
one_three v = v == 0 || (v == 1 || v == 3)

fixed-IsModel : IsModel fixed one_three
fixed-IsModel = record { root = refl; learns = λ states v d h. h }

-- The entry of 1 holds work.
abbrev worked : Solver Watches
worked = record (requested choice) {
  trail =
      record {
        assigned = 1;
        work = some (record { clause = depends 1 (2 ∷ 3 ∷ []); level = 0; size = 2 });
      }
      ∷ [];
}

choice-IsBounded : IsBounded fixed 5 choice
choice-IsBounded = record {
  on =
      register_clause-OfAll (IsWithin 5) (depends 1 (2 ∷ 3 ∷ [])) _
        (record { reason = omega arith; solutions = omega arith })
        (register_clause-OfAll (IsWithin 5) (conflicts 2 (4 ∷ [])) _
          (record { reason = omega arith; solutions = omega arith })
          (register_clause-OfAll (IsWithin 5) (depends 2 (4 ∷ [])) no_watches
            (record { reason = omega arith; solutions = omega arith }) (λ p. tt)));
}

propagate_total_example : Stops (propagate fixed 6 (requested choice))
unfolding enqueue register_clause
propagate_total_example =
    propagate_total fixed 5 (λ states v d h. h) 6 (requested choice) choice-IsBounded (omega arith)

abbrev one_choice : Work
one_choice = record {
  clause = record (depends 1 (2 ∷ [])) { optional = true };
  level = 0;
  size = 1;
}

abbrev no_choice : Work
no_choice = record one_choice { size = 0 }

abbrev one_of_two : Work
one_of_two = record {
  clause = record (depends 1 (2 ∷ 3 ∷ [])) { optional = true };
  level = 0;
  size = 1;
}

work_lt-strict_weak_example :
    (work_lt one_choice one_choice ≡ false)
    × (work_lt one_choice one_of_two ≡ true
        → work_lt one_of_two one_choice ≡ true
        → work_lt one_choice one_choice ≡ true)
    × (equal one_choice one_of_two ≡ true
        → equal one_of_two one_choice ≡ true
        → equal one_choice one_choice ≡ true)
work_lt-strict_weak_example =
    work_lt-strict_weak one_choice one_of_two one_choice (omega arith) (omega arith) (omega arith)

-- With no choice left, an item equals two others that are not equal.
no_choice-equal : (equal one_choice no_choice ≡ true) × (equal no_choice one_of_two ≡ true)
unfolding work_lt
no_choice-equal = (refl, refl)

choices_differ : work_lt one_choice one_of_two ≡ true
unfolding work_lt
choices_differ = refl
