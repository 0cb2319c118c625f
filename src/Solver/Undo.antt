-- ===== src/Solver/Undo.antt =====
-- UndoOne of apt-pkg/solver3.cc takes back what was done last.
use aptum.Prelude.{
  ℕ, ◌≡◌, refl, sym, ap, ◌∙◌, ◌⊎◌, inl, inr, Bool, true, false, not, ◌&&◌, ◌||◌, List, [], ◌∷◌,
  ◌++◌, Option, none, some, arith, ◌==◌, length, Bool-cases, if-elim, zero, suc, ◌+◌, drop,
}
use aptum.Solver.Types.{LiftedBool, State, undefined, yes_, Trail, Work, Solver, Interface, Clause}
use aptum.Solver.Propagate.{
  Run, out_of_fuel, aborted, ret, single, queue_work, add_work, add_positive, count_if,
}
use aptum.Solver.Search.{pop_back, tail, unassign, restore, undo_last, undo_one, undo}
use aptum.Solver.Model.{Given, lifted, look}
use aptum.Solver.Invariant.{
  all, is_queued, is_past_queued, names_of, vars_of, IsFresh, Holds, IsHeap, OnTime, Inv,
  all-append,
}

-- The part of the invariant that holds at every position of the trail.
pub record Tracks (i : Interface) (m : ℕ → Bool) (ts : List Given) (s : Solver i.D) : Type 0 where
  pub names : names_of s.trail ≡ vars_of ts
  pub values : (v : ℕ) → (s.states v).assignment ≡ look v ts
  pub fresh : IsFresh ts
  pub queue : all is_queued s.work ≡ true
  pub past : all (λ (e : Trail). is_past_queued e.work) s.trail ≡ true
  pub known : Holds i m s.known
  pub clock : OnTime i s.start_time s.timeout

pub Inv-Tracks :
    (i : Interface) (m : ℕ → Bool) (ts : List Given) (s : Solver i.D)
    → Inv i m ts s
    → Tracks i m ts s
Inv-Tracks i m ts s h = record {
  names = h.names;
  values = h.values;
  fresh = h.fresh;
  queue = h.queue;
  past = h.past;
  known = h.known;
  clock = h.clock;
}

undefined_root : yes_ ≡ undefined → ⊥
undefined_root e = cc

pub look_root : (ts : List Given) → IsFresh ts → look 0 ts ≡ yes_
look_root [] h = refl
look_root (e ∷ ts) (inl (z, t), f) = rw (z, t) refl
look_root (e ∷ ts) (inr u, f) = elim (Bool-cases (0 == e.0)) [
  | inl z ↦ absurd (undefined_root (sym (look_root ts f) ∙ ap (λ (v : ℕ). look v ts) (same z) ∙ u))
  | inr z ↦ rw z (look_root ts f)
]
  where
    same : (0 == e.0) ≡ true → 0 ≡ e.0
    same z = ground arith

-- What an undoing leaves alone.
pub record Undone (i : Interface) (m : ℕ → Bool) (ts : List Given) (s t : Solver i.D) : Type 0 where
  pub tracks : Tracks i m ts t
  pub trail_lim : t.trail_lim ≡ s.trail_lim
  pub pending_error : t.pending_error ≡ s.pending_error

-- The clauses whose work the last `n` entries of a trail hold.
abbrev clause_of : Option Work → List Clause → List Clause
clause_of none cs = cs
clause_of (some w) cs = w.clause ∷ cs

abbrev pub undone_clauses : ℕ → List Trail → List Clause
undone_clauses zero t = []
undone_clauses (suc n) [] = []
undone_clauses (suc n) (e ∷ t) = clause_of e.work (undone_clauses n t)

-- The last `n` entries are off the trail, and their work is in the queue again.
pub record Restored (i : Interface) (n : ℕ) (s t : Solver i.D) : Type 0 where
  pub trail : t.trail ≡ drop n s.trail
  pub work :
      (p : Clause → Bool)
      → count_if (λ (w : Work). p w.clause) t.work
        ≡ count_if (λ (w : Work). p w.clause) s.work + count_if p (undone_clauses n s.trail)

drop-nil : (n : ℕ) → ◌≡◌ {A = List Trail} (drop n []) []
drop-nil zero = refl
drop-nil (suc n) = refl

undone_clauses-nil : (n : ℕ) → undone_clauses n [] ≡ []
undone_clauses-nil zero = refl
undone_clauses-nil (suc n) = refl

drop-tail : (n : ℕ) (t : List Trail) → drop n (drop 1 t) ≡ drop (suc n) t
drop-tail n [] = drop-nil n
drop-tail n (x ∷ t) = refl

undone_clauses-tail :
    (p : Clause → Bool) (n : ℕ) (t : List Trail)
    → count_if p (undone_clauses 1 t) + count_if p (undone_clauses n (drop 1 t))
      ≡ count_if p (undone_clauses (suc n) t)
undone_clauses-tail p n [] = omega (arith, ap (count_if p) (undone_clauses-nil n))
undone_clauses-tail p n (x ∷ t) = by_work x.work
  where
    by_work :
        (o : Option Work)
        → count_if p (clause_of o []) + count_if p (undone_clauses n t)
          ≡ count_if p (clause_of o (undone_clauses n t))
    by_work none = omega arith
    by_work (some w) = omega arith

count_if-append :
    (p : Work → Bool) (xs ys : List Work) → count_if p (xs ++ ys) ≡ count_if p xs + count_if p ys
count_if-append p [] ys = omega arith
count_if-append p (x ∷ xs) ys = omega (arith, count_if-append p xs ys)

stuck : (n o : Bool) → not o ≡ true → (not n && (o || false)) ≡ true → ⊥
stuck n o e h = ground arith

nil_cons : {v : ℕ} {vs : List ℕ} → [] ≡ v ∷ vs → ⊥
nil_cons e = cc

head_eq : {v w : ℕ} {vs ws : List ℕ} → v ∷ vs ≡ w ∷ ws → v ≡ w
head_eq e = cc

and_left : (a b : Bool) → (a && b) ≡ true → a ≡ true
and_left a b e = ground arith

module _ (i : Interface) (heap : IsHeap i) (m : ℕ → Bool) where
  unassign_values :
      (e : Given) (ts : List Given) (s : Solver i.D)
      → ((v : ℕ) → (s.states v).assignment ≡ look v (e ∷ ts))
      → IsFresh (e ∷ ts)
      → (v : ℕ) → ((unassign i e.0 s).states v).assignment ≡ look v ts
  unassign_values e ts s h f v =
      if-elim (λ (st : ℕ → State). (st v).assignment ≡ look v ts) (e.0 == 0)
        (λ z. root f.0 (equal e.0 0 z))
        (λ z.
          if-elim (λ (st : State). st.assignment ≡ look v ts) (v == e.0)
            (λ q. cleared f.0 z (equal v e.0 q)) (λ q. rw q at (h v)))
    where
      equal : (v w : ℕ) → (v == w) ≡ true → v ≡ w
      equal v w q = ground arith

      cleared :
          ((e.0 ≡ 0) × (e.1 ≡ true)) ⊎ (look e.0 ts ≡ undefined)
          → (e.0 == 0) ≡ false
          → v ≡ e.0
          → undefined ≡ look v ts
      cleared (inl (z, t)) n q = absurd (ground arith)
      cleared (inr u) n q = sym (ap (λ (x : ℕ). look x ts) q ∙ u)

      root_value : look v (e ∷ ts) ≡ look v ts → (s.states v).assignment ≡ look v ts
      root_value q = h v ∙ q

      root :
          ((e.0 ≡ 0) × (e.1 ≡ true)) ⊎ (look e.0 ts ≡ undefined)
          → e.0 ≡ 0
          → (s.states v).assignment ≡ look v ts
      root (inr u) z =
          absurd (undefined_root (sym (look_root ts f.1) ∙ ap (λ (x : ℕ). look x ts) (sym z) ∙ u))
      root (inl (z, t)) _ = root_value (
          if-elim (λ (x : LiftedBool). x ≡ look v ts) (v == e.0)
            (λ q.
              ap lifted t ∙ sym (ap (λ (x : ℕ). look x ts) (equal v e.0 q ∙ z) ∙ look_root ts f.1))
            (λ q. refl))

  -- The state behind the last entry, but for its work.
  behind :
      (e : Given) (ts : List Given) (s : Solver i.D) (x : Trail) (t : List Trail)
      → Tracks i m (e ∷ ts) s
      → s.trail ≡ x ∷ t
      → x.assigned ≡ e.0
      → Tracks i m ts (pop_back i (unassign i x.assigned s))
  behind e ts s x t h q v = record {
    names = ap (λ (t : List Trail). names_of (tail t)) q ∙ ap tail (ap names_of (sym q) ∙ h.names);
    values = rw v (unassign_values e ts s h.values h.fresh);
    fresh = h.fresh.1;
    queue = h.queue;
    past =
        ap (λ (t : List Trail). all (λ (e : Trail). is_past_queued e.work) (tail t)) q
        ∙ past_tail (rw q at h.past);
    known = h.known;
    clock = h.clock;
  }
    where
      past_tail :
          (is_past_queued x.work && all (λ (e : Trail). is_past_queued e.work) t) ≡ true
          → all (λ (e : Trail). is_past_queued e.work) t ≡ true
      past_tail h = ground arith

  abbrev with_work : Option Work → Solver i.D → Solver i.D
  with_work none s = s
  with_work (some w) s = queue_work i w s

  restore_lem :
      (o : Option Work) (s : Solver i.D)
      → is_past_queued o ≡ true
      → restore i o s ≡ (true, with_work o s)
  unfolding restore add_work
  restore_lem none s h = refl
  restore_lem (some w) s h =
      if-elim (λ (r : Bool × Solver i.D). r ≡ (true, queue_work i w s)) w.clause.negative
        (λ n. absurd (ground arith)) (λ n. positive (single w.clause.solutions) refl)
    where
      positive :
          (o : Option ℕ)
          → single w.clause.solutions ≡ o
          → add_positive i o w s ≡ (true, queue_work i w s)
      positive none e = unfold add_positive in refl
      positive (some v) e =
          unfold add_positive in
          if-elim (λ (r : Bool × Solver i.D). r ≡ (true, queue_work i w s)) (not w.clause.optional)
            (λ o. absurd (stuck w.clause.negative w.clause.optional o (rw e at h))) (λ o. refl)

  with_work-Tracks :
      (o : Option Work) (ts : List Given) (s : Solver i.D)
      → is_past_queued o ≡ true
      → Tracks i m ts (pop_back i s)
      → Undone i m ts s (pop_back i (with_work o s))
  with_work-Tracks none ts s p h = record { tracks = h; trail_lim = refl; pending_error = refl }
  with_work-Tracks (some w) ts s p h = record {
    tracks = record {
      names = h.names;
      values = h.values;
      fresh = h.fresh;
      queue = heap.push is_queued _ (all-append is_queued s.work _ h.queue (rw p refl));
      past = h.past;
      known = h.known;
      clock = h.clock;
    };
    trail_lim = refl;
    pending_error = refl;
  }

  with_work-Restored :
      (x : Trail) (tr : List Trail) (s : Solver i.D)
      → s.trail ≡ x ∷ tr
      → Restored i 1 s (pop_back i (with_work x.work (unassign i x.assigned s)))
  with_work-Restored x tr s q = record {
    trail = tail_drop x.work ∙ ap tail q ∙ sym (ap (drop 1) q);
    work = λ p.
        queued p x.work
        ∙ ap
            (λ (t : List Trail).
              count_if (λ (w : Work). p w.clause) s.work + count_if p (undone_clauses 1 t))
            (sym q);
  }
    where
      tail_drop :
          (o : Option Work)
          → (pop_back i (with_work o (unassign i x.assigned s))).trail ≡ tail s.trail
      tail_drop none = refl
      tail_drop (some w) = refl

      queued :
          (p : Clause → Bool) (o : Option Work)
          → count_if
              (λ (w : Work). p w.clause)
              (pop_back i (with_work o (unassign i x.assigned s))).work
            ≡ count_if (λ (w : Work). p w.clause) s.work + count_if p (clause_of o [])
      queued p none = omega arith
      queued p (some w) =
          heap.push_count (λ (w : Work). p w.clause) _
          ∙ count_if-append (λ (w : Work). p w.clause) s.work _

  pub undo_one-Undone :
      (e : Given) (ts : List Given) (s : Solver i.D)
      → Tracks i m (e ∷ ts) s
      → (t : Solver i.D) × (undo_one i s ≡ ret t) × Undone i m ts s t × Restored i 1 s t
  unfolding undo_one
  undo_one-Undone e ts s h = last s.trail refl
    where
      step :
          (x : Trail) (tr : List Trail)
          → is_past_queued x.work ≡ true
          → undo_last i (x ∷ tr) s ≡ ret (pop_back i (with_work x.work (unassign i x.assigned s)))
      step x tr p =
          unfold undo_last in
          ap (λ (r : Bool × Solver i.D). elim r.0 [ true ↦ ret (pop_back i r.1) | false ↦ aborted ])
            (restore_lem x.work (unassign i x.assigned s) p)

      last :
          (tr : List Trail)
          → s.trail ≡ tr
          → (t : Solver i.D) × (undo_last i tr s ≡ ret t) × Undone i m ts s t × Restored i 1 s t
      last [] q = absurd (nil_cons (ap names_of (sym q) ∙ h.names))
      last (x ∷ tr) q =
          let was_queued : is_past_queued x.work ≡ true = and_left _ _ (rw q at h.past) in
          let u =
            with_work-Tracks x.work ts (unassign i x.assigned s) was_queued
              (behind e ts s x tr h q (head_eq (ap names_of (sym q) ∙ h.names))) in
          (
            pop_back i (with_work x.work (unassign i x.assigned s)),
            step x tr was_queued,
            record { tracks = u.tracks; trail_lim = u.trail_lim; pending_error = u.pending_error },
            with_work-Restored x tr s q,
          )

  pub undo-Undone :
      (top below : List Given) (s : Solver i.D)
      → Tracks i m (top ++ below) s
      → (t : Solver i.D) × (undo i (length top) s ≡ ret t)
        × Undone i m below s t
        × Restored i (length top) s t
  unfolding undo
  undo-Undone [] below s h = (
    s,
    refl,
    record { tracks = h; trail_lim = refl; pending_error = refl },
    record { trail = refl; work = λ p. omega arith },
  )
  undo-Undone (e ∷ top) below s h =
      let (t, q, u, r) = undo_one-Undone e (top ++ below) s h in
      let (t', q', u', r') = undo-Undone top below t u.tracks in
      (
        t',
        ap (again (length top)) q ∙ q',
        record {
          tracks = u'.tracks;
          trail_lim = u'.trail_lim ∙ u.trail_lim;
          pending_error = u'.pending_error ∙ u.pending_error;
        },
        record {
          trail = r'.trail ∙ ap (drop (length top)) r.trail ∙ drop-tail (length top) s.trail;
          work = λ p. omega (
            arith,
            r'.work p,
            r.work p,
            ap (λ (x : List Trail). count_if p (undone_clauses (length top) x)) r.trail,
            undone_clauses-tail p (length top) s.trail,
          );
        },
      )
    where
      again : ℕ → Run (Solver i.D) → Run (Solver i.D)
      again n out_of_fuel = out_of_fuel
      again n aborted = aborted
      again n (ret s) = undo i n s
