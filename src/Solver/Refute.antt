-- ===== src/Solver/Refute.antt =====
-- Pop and Solve of apt-pkg/solver3.cc give up only where no choice of packages satisfies what is known.
use aptum.Prelude.{
  ℕ, zero, suc, ◌+◌, ◌-◌, ◌<◌, ◌≡◌, refl, sym, ap, ◌∙◌, ◌⊎◌, inl, inr, Bool, true, false, List, [],
  ◌∷◌, ◌++◌, Option, none, some, arith, leb, ◌==◌, if◌then◌else◌, length, length-append, get_elem?,
  Bool-cases, if-elim,
}
use mathlib.Core.Path.{subst}
use aptum.Prelude.Int.{negsuc}
use aptum.Solver.Types.{undefined, is_undefined, State, Trail, Work, Solver, Interface}
use aptum.Solver.Propagate.{Run, aborted, ret, enqueue, assert_passed, assign}
use aptum.Solver.Search.{
  mark, drop_work, backtrack, after_undo, started, pop_level, pop_from, pop, undo,
}
use aptum.Solver.Model.{Given, look, AllAgree, AllAgree-append, Decided, IsSound}
use aptum.Solver.Invariant.{is_queued, IsHeap, IsModel, Inv, assign-Inv}
use aptum.Solver.Undo.{Tracks, undo-Undone}
use aptum.Solver.Positions.{
  last_of, Decided-last, choice_at-last, all-filter, last-IsFresh, same_length,
}

module _ (i : Interface) (heap : IsHeap i) (m : ℕ → Bool) (model : IsModel i m) where
  -- Success, with a state that satisfies the invariant.
  abbrev pub Succeeds : Run (Bool × Solver i.D) → Type 0
  Succeeds r = (t : Solver i.D) × (us : List Given) × (r ≡ ret (true, t)) × Inv i m us t

  mark-Inv : (v : ℕ) (us : List Given) (s : Solver i.D) → Inv i m us s → Inv i m us (mark i v s)
  mark-Inv v us s h = record {
    names = h.names;
    values = λ w.
        if-elim (λ (st : State). st.assignment ≡ look w us) (w == v)
          (λ e. same_state w (ground arith)) (λ e. h.values w);
    fresh = h.fresh;
    sound = h.sound;
    queue = h.queue;
    past = h.past;
    known = h.known;
    clock = h.clock;
    conflict = h.conflict;
  }
    where
      same_state : (w : ℕ) → w ≡ v → (s.states v).assignment ≡ look w us
      same_state w e = h.values v ∙ ap (λ (x : ℕ). look x us) (sym e)

  enqueue_new :
      (n : ℕ) (us : List Given) (s : Solver i.D)
      → Inv i m us s
      → look (suc n) us ≡ undefined
      → enqueue i (negsuc n) none s ≡ (true, assign i (negsuc n) none s)
  unfolding enqueue
  enqueue_new n us s h u =
      if-elim (λ (r : Bool × Solver i.D). r ≡ (true, assign i (negsuc n) none s)) (suc n == 0)
        (λ z. absurd (ground arith)) (λ z. assert_new)
    where
      assert_new : assert_passed i (negsuc n) none s ≡ (true, assign i (negsuc n) none s)
      assert_new =
          if-elim (λ (r : Bool × Solver i.D). r ≡ (true, assign i (negsuc n) none s))
            (is_undefined (s.states (suc n)).assignment) (λ e. refl)
            (λ e. absurd (clash (sym (ap is_undefined (h.values (suc n) ∙ u)) ∙ e)))
        where
          clash : true ≡ false → ⊥
          clash e = cc

  backtrack-Succeeds :
      (d : ℕ) (us : List Given) (s : Solver i.D)
      → Inv i m us s
      → (d ≡ 0) ⊎ (look d us ≡ undefined)
      → (AllAgree m us → m d ≡ false)
      → Succeeds (ret (backtrack i d s))
  unfolding backtrack
  backtrack-Succeeds zero us s h f denied = (mark i 0 s, us, refl, mark-Inv 0 us s h)
  backtrack-Succeeds (suc n) us s h (inl z) denied = absurd (omega (arith, z))
  backtrack-Succeeds (suc n) us s h (inr u) denied = (
    mark i (suc n) (assign i (negsuc n) none s),
    (suc n, false) ∷ us,
    ap ret (
        if-elim
          (λ (r : Bool × Solver i.D).
            (if r.0 then (true, mark i (suc n) r.1) else r)
            ≡ (true, mark i (suc n) (assign i (negsuc n) none s)))
          (suc n == 0) (λ z. absurd (ground arith))
          (λ z.
            ap (λ (r : Bool × Solver i.D). if r.0 then (true, mark i (suc n) r.1) else r)
              (enqueue_new n us s h u))),
    mark-Inv (suc n) ((suc n, false) ∷ us) (assign i (negsuc n) none s)
        (assign-Inv i m (negsuc n) none us s h u denied),
  )

  below-Inv :
      (us : List Given) (lims : List ℕ) (s : Solver i.D)
      → Tracks i m us s
      → IsSound m us lims
      → s.pending_error ≡ false
      → Inv i m us (drop_work i lims s)
  below-Inv us lims s h sound clear = record {
    names = h.names;
    values = h.values;
    fresh = h.fresh;
    sound = sound;
    queue =
        heap.make is_queued _
          (all-filter is_queued (λ (w : Work). leb w.level (length lims)) s.work h.queue);
    past = h.past;
    known = h.known;
    clock = h.clock;
    conflict = λ e. absurd (clash (sym clear ∙ e));
  }
    where
      clash : false ≡ true → ⊥
      clash e = cc

  moved : {r r' : Run (Bool × Solver i.D)} → r ≡ r' → Succeeds r' → Succeeds r
  moved e (t, us, q, h) = (t, us, e ∙ q, h)

  from_entry : Solver i.D → List ℕ → ℕ → Option Trail → Run (Bool × Solver i.D)
  from_entry s lims b none = aborted
  from_entry s lims b (some e) = after_undo i lims e.assigned (undo i b s)

  abbrev level_from : Solver i.D → List ℕ → ℕ → ℕ → Run (Bool × Solver i.D)
  unfolding from_entry
  level_from s lims a b = from_entry s lims b (get_elem? s.trail a)

  -- A level that `m` refutes is popped, and `m` still agrees with what follows.
  pop_level-Succeeds :
      (top below : List Given) (lim : ℕ) (lims : List ℕ) (s : Solver i.D)
      → Tracks i m (top ++ below) s
      → s.pending_error ≡ false
      → length below ≡ lim
      → IsSound m below lims
      → (AllAgree m below → Decided m top → AllAgree m top)
      → (AllAgree m (top ++ below) → ⊥)
      → Succeeds (pop_level i lim lims s)
  unfolding pop_level after_undo from_entry
  pop_level-Succeeds [] below lim lims s h clear count under closed refuted =
      if-elim Succeeds (lim == length s.trail)
        (λ e. (
          record s { trail_lim = lims },
          below,
          refl,
          record {
            names = h.names;
            values = h.values;
            fresh = h.fresh;
            sound = under;
            queue = h.queue;
            past = h.past;
            known = h.known;
            clock = h.clock;
            conflict = λ _. refuted;
          },
        ))
        (λ e. absurd (ground (arith, same_length s.trail below h.names, count)))
  pop_level-Succeeds (e ∷ top) below lim lims s h clear count under closed refuted =
      let size : length s.trail ≡ suc (length top) + lim =
        omega (
          arith,
          same_length s.trail ((e ∷ top) ++ below) h.names,
          length-append top below,
          count,
        ) in
      let (x, at, named) = choice_at-last s.trail e top below h.names in
      let (t, q, u, _) = undo-Undone i heap m (e ∷ top) below s h in
      if-elim Succeeds (lim == length s.trail) (λ z. absurd (ground arith))
        (λ z.
          let d = (last_of e top).0 in
          let count_top : length s.trail - lim ≡ suc (length top) = omega (arith, size) in
          let undone : level_from s lims (length s.trail - lim - 1) (length s.trail - lim)
              ≡ ret (backtrack i d (drop_work i lims t)) =
            ap (λ (a : ℕ). level_from s lims a (length s.trail - lim)) (omega (arith, size))
            ∙ ap (λ (b : ℕ). level_from s lims (length top) b) count_top
            ∙ ap (from_entry s lims (suc (length top))) at
            ∙ ap (after_undo i lims x.assigned) q
            ∙ ap (λ (v : ℕ). ret (backtrack i v (drop_work i lims t))) named in
          moved undone (
            backtrack-Succeeds d below (drop_work i lims t)
              (below-Inv below lims t u.tracks under (u.pending_error ∙ clear))
              (last-IsFresh e top below h.fresh) (λ a. otherwise a)))
    where
      otherwise : AllAgree m below → m (last_of e top).0 ≡ false
      otherwise a = elim (Bool-cases (m (last_of e top).0)) [
        | inl y ↦
            absurd
              (refuted (AllAgree-append m (e ∷ top) below (closed a (Decided-last m e top y)) a))
        | inr n ↦ n
      ]

  restarted :
      (us : List Given) (s : Solver i.D)
      → Inv i m us s
      → Tracks i m us (record (started i s) { pending_error = false })
  restarted us s h = record {
    names = h.names;
    values = h.values;
    fresh = h.fresh;
    queue = h.queue;
    past = h.past;
    known = h.known;
    clock = record {
      any_two = h.clock.any_two;
      since = λ n. since (s.start_time == 0) n (h.clock.since n);
    };
  }
    where
      since :
          (b : Bool) (n : ℕ)
          → i.time n < (if b then i.time n else s.start_time) + s.timeout
          → i.time n
            < (if (if b then i.time s.calls_of_time else s.start_time) == 0
                then i.time n
                else (if b then i.time s.calls_of_time else s.start_time))
              + s.timeout
      since true n e =
          if-elim (λ (x : ℕ). i.time n < x + s.timeout) (i.time s.calls_of_time == 0) (λ z. e)
            (λ z. h.clock.any_two s.calls_of_time n)
      since false n e =
          if-elim (λ (x : ℕ). i.time n < x + s.timeout) (s.start_time == 0)
            (λ z. omega (arith, h.clock.any_two n n)) (λ z. e)

  pub pop-Succeeds :
      (us : List Given) (s : Solver i.D) → Inv i m us s → (AllAgree m us → ⊥) → Succeeds (pop i s)
  unfolding pop pop_from
  pop-Succeeds us s h refuted = from s.trail_lim h.sound
    where
      from : (lims : List ℕ) → IsSound m us lims → Succeeds (pop_from i lims s)
      from [] agree = absurd (refuted agree)
      from (lim ∷ lims) (top, below, cut, count, under, closed) =
          if-elim Succeeds (leb ((started i s).start_time + s.timeout) (i.time s.calls_of_time))
            (λ e. absurd (late (h.clock.since s.calls_of_time) e))
            (λ e.
              pop_level-Succeeds top below lim lims (record (started i s) { pending_error = false })
                (subst
                  (λ (ts : List Given).
                    Tracks i m ts (record (started i s) { pending_error = false }))
                  cut (restarted us s h))
                refl count under closed
                (subst (λ (ts : List Given). AllAgree m ts → ⊥) cut refuted))
        where
          late : {a b : ℕ} → a < b → leb b a ≡ true → ⊥
          late h e = ground arith
