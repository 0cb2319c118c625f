-- ===== src/Solver/Search.antt =====
-- Backtracking and the main loop of `Solver` in apt-pkg/solver3.cc. The loops of Solve have fuel.
use aptum.Prelude.{
  ℕ, zero, suc, ◌+◌, ◌-◌, Bool, true, false, List, [], ◌∷◌, Option, none, some, leb, ◌==◌,
  if◌then◌else◌, length, get_elem?,
}
use aptum.Solver.Types.{is_undefined, is_true, lit, negate, Work, Trail, Solver, Interface}
use aptum.Solver.Propagate.{
  unassigned, update, value_of, Run, out_of_fuel, aborted, ret, any, find_if, filter, enqueue,
  assume, add_work, propagate,
}

abbrev pub tail {ℓ} : {A : Type ℓ} → List A → List A
tail [] = []
tail (x ∷ xs) = xs

module _ (i : Interface) where
  open i use {D, make_heap, pop_heap, time}

  abbrev pub S : Type 0
  S = Solver D

  abbrev pub pop_back : S → S
  pop_back s = record s { trail = tail s.trail }

  abbrev pub unassign : ℕ → S → S
  unassign v s = record s { states = if v == 0 then s.states else update v unassigned s.states }

  unfoldable pub restore : Option Work → S → Bool × S
  unfolding add_work
  restore none s = (true, s)
  restore (some w) s = add_work i w s

  unfoldable pub undo_last : List Trail → S → Run S
  unfolding restore
  undo_last [] s = aborted
  undo_last (e ∷ t) s =
      let r = restore e.work (unassign e.assigned s) in
      elim r.0 [ true ↦ ret (pop_back r.1) | false ↦ aborted ]

  unfoldable pub undo_one : S → Run S
  unfolding undo_last
  undo_one s = undo_last s.trail s

  unfoldable pub undo : ℕ → S → Run S
  unfolding undo_one
  undo zero s = ret s
  undo (suc n) s = elim (undo_one s) [
    | out_of_fuel ↦ out_of_fuel
    | aborted ↦ aborted
    | ret s' ↦ undo n s'
  ]

  -- The variable that was assigned first in the level that begins at `lim`.
  abbrev pub choice_at : ℕ → List Trail → Option Trail
  choice_at lim t = get_elem? t (length t - lim - 1)

  abbrev pub mark : ℕ → S → S
  mark v s = record s { states = update v (record (s.states v) { backtracked = true }) s.states }

  abbrev pub drop_work : List ℕ → S → S
  drop_work lims s = record s {
    trail_lim = lims;
    work = make_heap (filter (λ (w : Work). leb w.level (length lims)) s.work);
  }

  -- What follows the undoing of a level.
  unfoldable pub backtrack : ℕ → S → Bool × S
  unfolding enqueue
  backtrack choice s =
      let r = if choice == 0 then (true, s) else enqueue i (negate (lit choice)) none s in
      if r.0 then (true, mark choice r.1) else r

  unfoldable pub after_undo : List ℕ → ℕ → Run S → Run (Bool × S)
  unfolding backtrack
  after_undo lims choice out_of_fuel = out_of_fuel
  after_undo lims choice aborted = aborted
  after_undo lims choice (ret s) = ret (backtrack choice (drop_work lims s))

  abbrev pub started : S → S
  started s =
      let now = time s.calls_of_time in
      record s {
        calls_of_time = s.calls_of_time + 1;
        start_time = if s.start_time == 0 then now else s.start_time;
      }

  unfoldable pub pop_level : ℕ → List ℕ → S → Run (Bool × S)
  unfolding undo after_undo
  pop_level lim lims s =
      if lim == length s.trail
      then ret (true, record s { trail_lim = lims })
      else elim (choice_at lim s.trail) [
        | none ↦ aborted
        | some e ↦ after_undo lims e.assigned (undo (length s.trail - lim) s)
      ]

  -- The time, and so its sum with the timeout, is not negative.
  unfoldable pub pop_from : List ℕ → S → Run (Bool × S)
  unfolding pop_level
  pop_from [] s = ret (false, s)
  pop_from (lim ∷ lims) s =
      if leb ((started s).start_time + s.timeout) (time s.calls_of_time)
      then ret (false, record (started s) { pending_error = true })
      else pop_level lim lims (record (started s) { pending_error = false })

  unfoldable pub pop : S → Run (Bool × S)
  unfolding pop_from
  pop s = pop_from s.trail_lim s

  -- `_error->PendingError() || not Propagate()`, negated.
  unfoldable pub is_settled : ℕ → S → Run (Bool × S)
  unfolding propagate
  is_settled fuel s = if s.pending_error then ret (false, s) else propagate i fuel s

  -- The inner loop of Solve: propagate i, and pop a level wherever that fails.
  unfoldable pub settle : ℕ → S → Run (Bool × S)
  unfolding is_settled pop
  settle zero s = out_of_fuel
  settle (suc fuel) s = elim (is_settled fuel s) [
    | out_of_fuel ↦ out_of_fuel
    | aborted ↦ aborted
    | ret r ↦ elim r.0 [
      | true ↦ ret r
      | false ↦ elim (pop r.1) [
        | out_of_fuel ↦ out_of_fuel
        | aborted ↦ aborted
        | ret r' ↦ elim r'.0 [ true ↦ settle fuel r'.1 | false ↦ ret r' ]
      ]
    ]
  ]

  abbrev pub solved : Work → S → S
  solved w s = record s { trail = record { assigned = 0; work = some w } ∷ s.trail }

  -- The candidate is the first solution that is still undefined.
  unfoldable pub try_candidate : Option ℕ → Work → S → Run S
  unfolding assume
  try_candidate none w s = if w.clause.optional then ret (solved w s) else aborted
  try_candidate (some v) w s =
      let r = assume i (lit v) (some w.clause) s in if r.0 then ret (solved w r.1) else aborted

  unfoldable pub solve_item : Work → S → Run S
  unfolding try_candidate
  solve_item w s =
      if any (λ v. is_true (value_of s.states (lit v))) w.clause.solutions
      then ret (solved w s)
      else try_candidate
          (find_if (λ v. is_undefined (value_of s.states (lit v))) w.clause.solutions) w s

  -- What follows the inner loop: the work is done, or its first item is solved.
  unfoldable pub next_item : List Work → S → Option (Run S)
  unfolding solve_item
  next_item [] s = none
  next_item (w ∷ ws) s = some (solve_item (pop_heap w ws).0 (record s { work = (pop_heap w ws).1 }))

  unfoldable pub solve_loop : ℕ → S → Run (Bool × S)
  unfolding settle next_item
  solve_loop zero s = out_of_fuel
  solve_loop (suc fuel) s = elim (settle fuel s) [
    | out_of_fuel ↦ out_of_fuel
    | aborted ↦ aborted
    | ret r ↦ elim r.0 [
      | false ↦ ret r
      | true ↦ elim (next_item r.1.work r.1) [
        | none ↦ ret r
        | some out_of_fuel ↦ out_of_fuel
        | some aborted ↦ aborted
        | some (ret s') ↦ solve_loop fuel s'
      ]
    ]
  ]

  -- The errors from before are kept aside, and the clock is read.
  unfoldable pub solve : ℕ → S → Run (Bool × S)
  unfolding solve_loop
  solve fuel s = solve_loop fuel (record s {
    pending_error = false;
    start_time = time s.calls_of_time;
    calls_of_time = s.calls_of_time + 1;
  })
