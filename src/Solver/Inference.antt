-- ===== src/Solver/Inference.antt =====
-- Propagate and AddWork of apt-pkg/solver3.cc draw only conclusions that every model of the clauses accepts.
use aptum.Prelude.{
  ℕ, ◌≡◌, refl, sym, ap, ◌∙◌, Bool, true, false, not, ◌&&◌, ◌||◌, List, [], ◌∷◌, Option, none, some,
  arith, All, ◌==◌, length, if-elim, some_inj,
}
use aptum.Solver.Types.{is_true, Lit, lit, var, sign, negate, Clause, Work, Solver, Interface}
use aptum.Solver.Propagate.{
  count_if, same_lit, single, not_false, queue_work, enqueue, reject_all, add_positive, add_work,
  no_head, with_head, head_of, propagate_positive, propagate_clause, propagate_watches,
}
use aptum.Solver.Model.{Given, satisfies, some_true, AllAgree}
use aptum.Solver.Invariant.{
  is_queued, IsWatched, IsHeap, IsModel, Inv, Ran, all-append, done, enqueue-Ran,
}
use aptum.Solver.Clauses.{
  needs, true_ne_false, or_true, unmet, denied, excluded, listed_true, reason_true, true_agree,
  no_head_agree, one_left, reject_agree,
}

module _ (i : Interface) (m : ℕ → Bool) (model : IsModel i m) where
  pub chain :
      (ts : List Given) (r : Bool × Solver i.D) (k : Solver i.D → Bool × Solver i.D)
      → Ran i m ts r
      → ((us : List Given) → Inv i m us r.1 → (AllAgree m us → AllAgree m ts) → Ran i m us (k r.1))
      → Ran i m ts (elim r.0 [ true ↦ k r.1 | false ↦ r ])
  chain ts (false, s) k h f = h
  chain ts (true, s) k h f =
      let g = f h.given h.inv h.grows in
      record { given = g.given; inv = g.inv; refuted = g.refuted; grows = λ a. h.grows (g.grows a) }

  reject_all-Ran :
      (vs : List ℕ) (c : Clause) (ts : List Given) (s : Solver i.D)
      → Inv i m ts s
      → (AllAgree m ts → some_true m vs ≡ false)
      → Ran i m ts (reject_all i vs c s)
  unfolding reject_all
  reject_all-Ran [] c ts s h ok = done i m ts s h
  reject_all-Ran (v ∷ vs) c ts s h ok =
      chain ts (enqueue i (negate (lit v)) (some c) s) (reject_all i vs c)
        (enqueue-Ran i m model (negate (lit v)) (some c) ts s h
          (λ a. reject_agree i m model v (or_false (m v) (ok a)).0))
        (λ us h' g. reject_all-Ran vs c us _ h' (λ a. (or_false (m v) (ok (g a))).1))
    where
      or_false : (b : Bool) {d : Bool} → (b || d) ≡ false → (b ≡ false) × (d ≡ false)
      or_false true e = cc
      or_false false e = (refl, e)

module _ (i : Interface) (heap : IsHeap i) (m : ℕ → Bool) where
  pub queue_work-Inv :
      (w : Work) (ts : List Given) (s : Solver i.D)
      → Inv i m ts s
      → is_queued w ≡ true
      → Inv i m ts (queue_work i w s)
  queue_work-Inv w ts s h q = record {
    names = h.names;
    values = h.values;
    fresh = h.fresh;
    sound = h.sound;
    queue = heap.push is_queued _ (all-append is_queued s.work _ h.queue (rw q refl));
    past = h.past;
    known = h.known;
    clock = h.clock;
    conflict = h.conflict;
  }

module _ (i : Interface) (heap : IsHeap i) (m : ℕ → Bool) (model : IsModel i m) (c : Clause)
    (holds : satisfies m c ≡ true) (n : c.negative ≡ false) (ts : List Given) (s : Solver i.D)
    (h : Inv i m ts s) where
  abbrev item : ℕ → Work
  item l = record { clause = c; level = l; size = 0 }

  add_positive-Ran :
      (o : Option ℕ) (l : ℕ)
      → single c.solutions ≡ o
      → (AllAgree m ts → m c.reason ≡ true)
      → Ran i m ts (add_positive i o (item l) s)
  unfolding add_positive
  add_positive-Ran none l e r =
      done i m ts _ (queue_work-Inv i heap m (item l) ts s h (rw (n, e) (or_true c.optional)))
  add_positive-Ran (some v) l e r =
      if-elim (Ran i m ts) (not c.optional)
        (λ o.
          enqueue-Ran i m model (lit v) (some c) ts s h
            (λ a. only c.solutions e (needs m c holds n (r a) (not_true o))))
        (λ o. done i m ts _ (queue_work-Inv i heap m (item l) ts s h (rw n (ground arith))))
    where
      only : (vs : List ℕ) → single vs ≡ some v → some_true m vs ≡ true → m v ≡ true
      only [] e t = cc
      only (u ∷ []) e t = ap m (sym (some_inj e)) ∙ (or_false t)
        where
          or_false : (m u || false) ≡ true → m u ≡ true
          or_false t = ground arith
      only (u ∷ w ∷ vs) e t = cc

      not_true : not c.optional ≡ true → c.optional ≡ false
      not_true e = ground arith

  no_head-Ran : head_of i c s ≡ none → Ran i m ts (no_head i c s)
  unfolding no_head
  no_head-Ran e =
      if-elim (Ran i m ts) (not c.optional)
        (λ o. enqueue-Ran i m model (negate (lit c.reason)) (some c) ts s h (λ a.
          reject_agree i m model c.reason
            (unmet m c holds n (ground arith) (no_head_agree i m model ts s h a c.solutions e))))
        (λ o. done i m ts s h)

  with_head-Ran :
      (head : ℕ) (p : Lit) → head_of i c s ≡ some head → Ran i m ts (with_head i head c p s)
  unfolding with_head add_work
  with_head-Ran head p e =
      if-elim (Ran i m ts) (not (is_true (s.states c.reason).assignment)) (λ q. done i m ts s h)
        (λ q.
          let reason : AllAgree m ts → m c.reason ≡ true =
            λ a. true_agree i m model ts s h a c.reason (ground arith) in
          if-elim (Ran i m ts) (not c.optional && count_if (not_false i s) c.solutions == 1)
            (λ u. enqueue-Ran i m model (lit head) (some c) ts s h (λ a.
              one_left i m model ts s h a c.solutions head e (ground arith)
                (needs m c holds n (reason a) (ground arith))))
            (λ u.
              if-elim (Ran i m ts) (same_lit p (lit c.reason)) (λ w. added reason)
                (λ w. done i m ts s h)))
    where
      added :
          (AllAgree m ts → m c.reason ≡ true)
          → Ran i m ts (add_work i (item (length s.trail_lim)) s)
      added r =
          if-elim (Ran i m ts) c.negative (λ e. absurd (true_ne_false (sym e ∙ n)))
            (λ e. add_positive-Ran (single c.solutions) (length s.trail_lim) refl r)

  propagate_positive-Ran :
      (o : Option ℕ) (p : Lit) → head_of i c s ≡ o → Ran i m ts (propagate_positive i o c p s)
  unfolding propagate_positive
  propagate_positive-Ran none p e = no_head-Ran e
  propagate_positive-Ran (some head) p e = with_head-Ran head p e

module _ (i : Interface) (heap : IsHeap i) (m : ℕ → Bool) (model : IsModel i m) where
  propagate_clause-Ran :
      (c : Clause) (p : Lit) (ts : List Given) (s : Solver i.D)
      → Inv i m ts s
      → IsWatched m p c
      → (AllAgree m ts → m (var p) ≡ not (sign p))
      → Ran i m ts (propagate_clause i c p s)
  unfolding propagate_clause
  propagate_clause-Ran c p ts s h w ok =
      if-elim (Ran i m ts) c.negative
        (λ n.
          if-elim (Ran i m ts) (not (same_lit p (lit c.reason)))
            (λ q. enqueue-Ran i m model (negate (lit c.reason)) (some c) ts s h (λ a.
              reject_agree i m model c.reason (
                denied m c w.holds n (
                  listed_true m c.solutions (var p) (w.listed n (ground arith))
                    (ok a ∙ ap not (w.solution n (ground arith)))))))
            (λ q.
              reject_all-Ran i m model c.solutions c ts s h
                (λ a. (excluded m c w.holds n (reason_true m p c.reason q (ok a))))))
        (λ n. propagate_positive-Ran i heap m model c w.holds n ts s h (head_of i c s) p refl)

  pub propagate_watches-Ran :
      (cs : List Clause) (p : Lit) (ts : List Given) (s : Solver i.D)
      → Inv i m ts s
      → All (λ (c : Clause). IsWatched m p c) cs
      → (AllAgree m ts → m (var p) ≡ not (sign p))
      → Ran i m ts (propagate_watches i cs p s)
  unfolding propagate_watches
  propagate_watches-Ran [] p ts s h w ok = done i m ts s h
  propagate_watches-Ran (c ∷ cs) p ts s h w ok =
      chain i m model ts (propagate_clause i c p s) (propagate_watches i cs p)
        (propagate_clause-Ran c p ts s h w.0 ok)
        (λ us h' g. propagate_watches-Ran cs p us _ h' w.1 (λ a. ok (g a)))
