-- ===== src/Solver/Runs.antt =====
-- The loop of Propagate in apt-pkg/solver3.cc draws only conclusions that every model of the clauses accepts.
use aptum.Prelude.{
  ℕ, zero, suc, ◌≡◌, refl, ap, Bool, true, false, List, [], ◌∷◌, none, some, if-elim,
}
use aptum.Solver.Types.{
  LiftedBool, undefined, yes_, no_, is_true, is_false, lit, negate, Solver, Interface,
}
use aptum.Solver.Propagate.{
  value_of, discovered, front, propagate_one, propagate, Run, out_of_fuel, aborted, ret, propagated,
}
use aptum.Solver.Model.{Given, AllAgree}
use aptum.Solver.Invariant.{IsHeap, IsModel, Inv, Ran, done}
use aptum.Solver.Clauses.{false_agree, true_agree, reject_agree}
use aptum.Solver.Inference.{propagate_watches-Ran}

-- A state that `m` accepts, or a failure that refutes it.
pub record Ended (i : Interface) (m : ℕ → Bool) (ts : List Given) (r : Bool × Solver i.D)
    : Type 0 where
  pub given : List Given
  pub inv : Inv i m given r.1
  pub refuted : r.0 ≡ false → AllAgree m given → ⊥
  pub grows : AllAgree m given → AllAgree m ts

-- A run whose end `m` accepts, if it has one.
abbrev pub Ends : (i : Interface) → (ℕ → Bool) → List Given → Run (Bool × Solver i.D) → Type 0
Ends i m ts out_of_fuel = Unit
Ends i m ts aborted = Unit
Ends i m ts (ret r) = Ended i m ts r

pub widen :
    (i : Interface) (m : ℕ → Bool) (ts us : List Given) (r : Run (Bool × Solver i.D))
    → (AllAgree m us → AllAgree m ts)
    → Ends i m us r
    → Ends i m ts r
widen i m ts us out_of_fuel g h = tt
widen i m ts us aborted g h = tt
widen i m ts us (ret r) g h = record {
  given = h.given;
  inv = h.inv;
  refuted = h.refuted;
  grows = λ a. g (h.grows a);
}

module _ (i : Interface) (heap : IsHeap i) (m : ℕ → Bool) (model : IsModel i m) where
  dequeued :
      (q : List ℕ) (ts : List Given) (s : Solver i.D)
      → Inv i m ts s
      → Inv i m ts (record s { prop_q = q })
  dequeued q ts s h = record {
    names = h.names;
    values = h.values;
    fresh = h.fresh;
    sound = h.sound;
    queue = h.queue;
    past = h.past;
    known = h.known;
    clock = h.clock;
    conflict = h.conflict;
  }

  discovered-Inv :
      (v : ℕ) (ts : List Given) (s : Solver i.D) → Inv i m ts s → Inv i m ts (discovered i v s)
  discovered-Inv v ts s h = record {
    names = h.names;
    values = h.values;
    fresh = h.fresh;
    sound = h.sound;
    queue = h.queue;
    past = h.past;
    known = model.learns s.states v s.known h.known;
    clock = h.clock;
    conflict = h.conflict;
  }

  propagate_one-Ran :
      (x : LiftedBool) (v : ℕ) (ts : List Given) (s : Solver i.D)
      → Inv i m ts s
      → (s.states v).assignment ≡ x
      → Ran i m ts (propagate_one i x v s)
  unfolding propagate_one
  propagate_one-Ran undefined v ts s h e = done i m ts s h
  propagate_one-Ran yes_ v ts s h e =
      let h' = discovered-Inv v ts s h in
      propagate_watches-Ran i heap m model _ (lit v) ts (discovered i v s) h' (h'.known.on (lit v))
        (λ a. true_agree i m model ts s h a v (ap is_true e))
  propagate_one-Ran no_ v ts s h e =
      propagate_watches-Ran i heap m model _ (negate (lit v)) ts s h (h.known.on (negate (lit v)))
        (λ a. reject_agree i m model v (false_agree i m model ts s h a v (ap is_false e)))

  pub propagate-Ends :
      (fuel : ℕ) (ts : List Given) (s : Solver i.D)
      → Inv i m ts s
      → Ends i m ts (propagate i fuel s)
  unfolding propagate
  propagate-Ends zero ts s h = tt
  propagate-Ends (suc fuel) ts s h = next s.prop_q (λ us t k. propagate-Ends fuel us t k)
    where
      go_on :
          (r : Bool × Solver i.D)
          → Ran i m ts r
          → ((us : List Given) (t : Solver i.D) → Inv i m us t → Ends i m us (propagate i fuel t))
          → Ends i m ts (elim r.0 [ true ↦ propagate i fuel r.1 | false ↦ propagated i r ])
      go_on (true, t) k rec =
          widen i m ts k.given (propagate i fuel t) k.grows (rec k.given t k.inv)
      go_on (false, t) k rec =
          if-elim (Ends i m ts) t.failed_assertion (λ f. tt)
            (λ f. record {
              given = k.given;
              inv = k.inv;
              refuted = λ c. k.refuted c f;
              grows = k.grows;
            })

      next :
          (q : List ℕ)
          → ((us : List Given) (t : Solver i.D) → Inv i m us t → Ends i m us (propagate i fuel t))
          → Ends i m ts (elim (front q) [
            | none ↦ ret (true, s)
            | some (v, q) ↦
                let r = propagate_one i (value_of s.states (lit v)) v (record s { prop_q = q }) in
                elim r.0 [ true ↦ propagate i fuel r.1 | false ↦ propagated i r ]
          ])
      next [] rec = record { given = ts; inv = h; refuted = λ c. cc; grows = λ a. a }
      next (v ∷ q) rec =
          go_on (propagate_one i (s.states v).assignment v (record s { prop_q = q }))
            (propagate_one-Ran (s.states v).assignment v ts (record s { prop_q = q })
              (dequeued q ts s h) refl)
            rec
