-- ===== src/Solver/Answer.antt =====
-- Solve of apt-pkg/solver3.cc, if it ends, reports a failure only where no choice of packages satisfies all clauses.
use aptum.Prelude.{
  ℕ, zero, suc, ◌+◌, ◌<◌, ◌≡◌, refl, sym, ap, ◌∙◌, inl, inr, Bool, true, false, List, [], ◌∷◌,
  Option, none, some, arith, ◌==◌, length, Bool-cases, if◌then◌else◌, if-elim, some_inj,
}
use mathlib.Core.Path.{subst}
use aptum.Prelude.Int.{pos}
use aptum.Solver.Types.{
  LiftedBool, undefined, yes_, no_, is_undefined, is_true, lit, Work, Clause, Solver, Interface,
}
use aptum.Solver.Propagate.{
  Run, reports_failure, out_of_fuel, aborted, ret, any, find_if, value_of, enqueue, assume, assign,
}
use aptum.Solver.Search.{
  pop, is_settled, settle, solved, try_candidate, solve_item, next_item, solve_loop, solve,
}
use aptum.Solver.Model.{Given, look, AllAgree, IsSound, push-IsSound}
use aptum.Solver.Invariant.{all, is_queued, IsHeap, IsModel, Inv, assign_values}
use aptum.Solver.Runs.{Ends, propagate-Ends}
use aptum.Solver.Undo.{Tracks, look_root}
use aptum.Solver.Positions.{same_length}
use aptum.Solver.Refute.{pop-Succeeds}

find_if-holds : (p : ℕ → Bool) (vs : List ℕ) (v : ℕ) → find_if p vs ≡ some v → p v ≡ true
find_if-holds p [] v e = cc
find_if-holds p (u ∷ vs) v e = elim (Bool-cases (p u)) [
  | inl q ↦ ap p (sym (some_inj (rw q at e))) ∙ q
  | inr q ↦ find_if-holds p vs v (rw q at e)
]

undefined_eq : (x : LiftedBool) → is_undefined x ≡ true → x ≡ undefined
undefined_eq undefined e = refl
undefined_eq yes_ e = cc
undefined_eq no_ e = cc

-- The state before Solve: only facts that `m` accepts, and no decision yet.
record IsStart (i : Interface) (m : ℕ → Bool) (s : Solver i.D) : Type 0 where
  pub given : List Given
  pub tracks : Tracks i m given s
  pub agree : AllAgree m given
  pub no_level : s.trail_lim ≡ []

module _ (i : Interface) (heap : IsHeap i) (m : ℕ → Bool) (model : IsModel i m) where
  abbrev Agreed : Bool → Solver i.D → Type 0
  Agreed true s = (us : List Given) × Inv i m us s
  Agreed false s = ⊥

  -- No failure is reported.
  abbrev Wins : Run (Bool × Solver i.D) → Type 0
  Wins out_of_fuel = Unit
  Wins aborted = Unit
  Wins (ret r) = Agreed r.0 r.1

  is_settled-Ends :
      (fuel : ℕ) (us : List Given) (s : Solver i.D)
      → Inv i m us s
      → Ends i m us (is_settled i fuel s)
  unfolding is_settled
  is_settled-Ends fuel us s h =
      if-elim (Ends i m us) s.pending_error
        (λ e. record { given = us; inv = h; refuted = λ _. h.conflict e; grows = λ a. a })
        (λ e. propagate-Ends i heap m model fuel us s h)

  settle-Wins :
      (fuel : ℕ) (us : List Given) (s : Solver i.D) → Inv i m us s → Wins (settle i fuel s)
  unfolding settle
  settle-Wins zero us s h = tt
  settle-Wins (suc fuel) us s h =
      go (is_settled i fuel s) (is_settled-Ends fuel us s h) (λ vs t k. settle-Wins fuel vs t k)
    where
      go :
          (r : Run (Bool × Solver i.D))
          → Ends i m us r
          → ((vs : List Given) (t : Solver i.D) → Inv i m vs t → Wins (settle i fuel t))
          → Wins (elim r [
            | out_of_fuel ↦ out_of_fuel
            | aborted ↦ aborted
            | ret r ↦ elim r.0 [
              | true ↦ ret r
              | false ↦ elim (pop i r.1) [
                | out_of_fuel ↦ out_of_fuel
                | aborted ↦ aborted
                | ret r' ↦ elim r'.0 [ true ↦ settle i fuel r'.1 | false ↦ ret r' ]
              ]
            ]
          ])
      go out_of_fuel e rec = tt
      go aborted e rec = tt
      go (ret (true, t)) e rec = (e.given, e.inv)
      go (ret (false, t)) e rec =
          let (t', vs, q, k) = pop-Succeeds i heap m model e.given t e.inv (e.refuted refl) in
          rw q (rec vs t' k)

  solved-Inv :
      (w : Work) (us : List Given) (s : Solver i.D)
      → Inv i m us s
      → is_queued w ≡ true
      → Inv i m ((0, true) ∷ us) (solved i w s)
  solved-Inv w us s h q = record {
    names = ap (λ (t : List ℕ). 0 ∷ t) h.names;
    values = λ v.
        if-elim (λ (x : LiftedBool). (s.states v).assignment ≡ x) (v == 0)
          (λ z. root v (ground arith)) (λ z. h.values v);
    fresh = (inl (refl, refl), h.fresh);
    sound = push-IsSound m (0, true) us s.trail_lim (λ a. model.root) h.sound;
    queue = h.queue;
    past = rw (q, h.past) refl;
    known = h.known;
    clock = h.clock;
    conflict = λ e a. h.conflict e a.1;
  }
    where
      root : (v : ℕ) → v ≡ 0 → (s.states v).assignment ≡ yes_
      root v z = h.values v ∙ ap (λ (x : ℕ). look x us) z ∙ look_root us h.fresh

  assumed-Inv :
      (v : ℕ) (reason : Option Clause) (us : List Given) (s : Solver i.D)
      → Inv i m us s
      → look v us ≡ undefined
      → Inv i m
          ((v, true) ∷ us)
          (assign i (lit v) reason (record s { trail_lim = length s.trail ∷ s.trail_lim }))
  assumed-Inv v reason us s h new = record {
    names = ap (λ (t : List ℕ). v ∷ t) h.names;
    values =
        assign_values i m (pos v) reason us (record s { trail_lim = length s.trail ∷ s.trail_lim })
          h.values;
    fresh = (inr new, h.fresh);
    sound =
        ((v, true) ∷ [], us, refl, sym (same_length s.trail us h.names), h.sound, λ a d. (d, tt));
    queue = h.queue;
    past = h.past;
    known = h.known;
    clock = h.clock;
    conflict = λ e a. h.conflict e a.1;
  }

  -- Every run has a state with the invariant.
  abbrev Goes : Run (Solver i.D) → Type 0
  Goes out_of_fuel = Unit
  Goes aborted = Unit
  Goes (ret s) = (us : List Given) × Inv i m us s

  try_candidate-Goes :
      (w : Work) (us : List Given) (s : Solver i.D) (o : Option ℕ)
      → Inv i m us s
      → is_queued w ≡ true
      → find_if (λ v. is_undefined (s.states v).assignment) w.clause.solutions ≡ o
      → Goes (try_candidate i o w s)
  unfolding try_candidate assume enqueue
  try_candidate-Goes w us s none h q e =
      if-elim Goes w.clause.optional (λ o. ((0, true) ∷ us, solved-Inv w us s h q)) (λ o. tt)
  try_candidate-Goes w us s (some v) h q e =
      let new =
        undefined_eq _
          (find_if-holds (λ v. is_undefined (s.states v).assignment) w.clause.solutions v e) in
      if-elim (λ (r : Bool × Solver i.D). Goes (if r.0 then ret (solved i w r.1) else aborted))
        (v == 0) (λ z. tt)
        (λ z. rw new (
          (0, true) ∷ (v, true) ∷ us,
          solved-Inv w ((v, true) ∷ us) _
              (assumed-Inv v (some w.clause) us s h (sym (h.values v) ∙ new)) q,
        ))

  solve_item-Goes :
      (w : Work) (us : List Given) (s : Solver i.D)
      → Inv i m us s
      → is_queued w ≡ true
      → Goes (solve_item i w s)
  unfolding solve_item
  solve_item-Goes w us s h q =
      if-elim Goes (any (λ v. is_true (value_of s.states (lit v))) w.clause.solutions)
        (λ e. ((0, true) ∷ us, solved-Inv w us s h q)) (λ e. try_candidate-Goes w us s _ h q refl)

  taken :
      (us : List Given) (s : Solver i.D) (ws : List Work)
      → Inv i m us s
      → all is_queued ws ≡ true
      → Inv i m us (record s { work = ws })
  taken us s ws h q = record {
    names = h.names;
    values = h.values;
    fresh = h.fresh;
    sound = h.sound;
    queue = q;
    past = h.past;
    known = h.known;
    clock = h.clock;
    conflict = h.conflict;
  }

  solve_loop-Wins :
      (fuel : ℕ) (us : List Given) (s : Solver i.D) → Inv i m us s → Wins (solve_loop i fuel s)
  unfolding solve_loop next_item
  solve_loop-Wins zero us s h = tt
  solve_loop-Wins (suc fuel) us s h =
      go (settle i fuel s) (settle-Wins fuel us s h) (λ vs t k. solve_loop-Wins fuel vs t k)
    where
      next :
          (t : Solver i.D) (r : Run (Solver i.D))
          → Goes r
          → ((vs : List Given) (t : Solver i.D) → Inv i m vs t → Wins (solve_loop i fuel t))
          → Wins (elim (some r) [
            | none ↦ ret (true, t)
            | some out_of_fuel ↦ out_of_fuel
            | some aborted ↦ aborted
            | some (ret s') ↦ solve_loop i fuel s'
          ])
      next t out_of_fuel g rec = tt
      next t aborted g rec = tt
      next t (ret t') (vs, k) rec = rec vs t' k

      item :
          (t : Solver i.D) (ws : List Work)
          → (vs : List Given) → Inv i m vs t
          → all is_queued ws ≡ true
          → ((vs : List Given) (t : Solver i.D) → Inv i m vs t → Wins (solve_loop i fuel t))
          → Wins (elim (next_item i ws t) [
            | none ↦ ret (true, t)
            | some out_of_fuel ↦ out_of_fuel
            | some aborted ↦ aborted
            | some (ret s') ↦ solve_loop i fuel s'
          ])
      item t [] vs k q rec = (vs, k)
      item t (w ∷ ws) vs k q rec =
          let (first, rest) = heap.pop is_queued w ws q in
          let popped = record t { work = (i.pop_heap w ws).1 } in
          next t (solve_item i (i.pop_heap w ws).0 popped)
            (solve_item-Goes (i.pop_heap w ws).0 vs popped (taken vs t (i.pop_heap w ws).1 k rest)
              first)
            rec

      go :
          (r : Run (Bool × Solver i.D))
          → Wins r
          → ((vs : List Given) (t : Solver i.D) → Inv i m vs t → Wins (solve_loop i fuel t))
          → Wins (elim r [
            | out_of_fuel ↦ out_of_fuel
            | aborted ↦ aborted
            | ret r ↦ elim r.0 [
              | false ↦ ret r
              | true ↦ elim (next_item i r.1.work r.1) [
                | none ↦ ret r
                | some out_of_fuel ↦ out_of_fuel
                | some aborted ↦ aborted
                | some (ret s') ↦ solve_loop i fuel s'
              ]
            ]
          ])
      go out_of_fuel e rec = tt
      go aborted e rec = tt
      go (ret (false, t)) e rec = elim e [ ]
      go (ret (true, t)) (vs, k) rec = item t t.work vs k k.queue rec

  solve-Wins : (fuel : ℕ) (s : Solver i.D) → IsStart i m s → Wins (solve i fuel s)
  unfolding solve
  solve-Wins fuel s h = solve_loop-Wins fuel h.given _ (record {
    names = h.tracks.names;
    values = h.tracks.values;
    fresh = h.tracks.fresh;
    sound = subst (λ (lims : List ℕ). IsSound m h.given lims) (sym h.no_level) h.agree;
    queue = h.tracks.queue;
    past = h.tracks.past;
    known = h.tracks.known;
    clock = record {
      any_two = h.tracks.clock.any_two;
      since = λ n.
          if-elim (λ (x : ℕ). i.time n < x + s.timeout) (i.time s.calls_of_time == 0)
            (λ z. h.tracks.clock.any_two n n) (λ z. h.tracks.clock.any_two s.calls_of_time n);
    };
    conflict = λ e. absurd (clash e);
  })
    where
      clash : false ≡ true → ⊥
      clash e = cc

  -- Where some choice `m` of packages and versions satisfies all clauses that are known and that
  -- Discover can add, and accepts what was assigned before Solve, and the clock stays within the
  -- timeout, Solve reports no failure if it ends with the fuel and no assertion fails.
  solve-no_failure :
      (fuel : ℕ) (s : Solver i.D) → IsStart i m s → reports_failure (solve i fuel s) ≡ false
  solve-no_failure fuel s h = wins (solve i fuel s) (solve-Wins fuel s h)
    where
      wins : (r : Run (Bool × Solver i.D)) → Wins r → reports_failure r ≡ false
      wins out_of_fuel w = refl
      wins aborted w = refl
      wins (ret (true, t)) w = refl
      wins (ret (false, t)) w = elim w [ ]
