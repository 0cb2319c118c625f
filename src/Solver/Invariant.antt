-- ===== src/Solver/Invariant.antt =====
-- The invariant of the search of apt-pkg/solver3.cc, and that Enqueue keeps it.
use aptum.Prelude.{
  ℕ, ◌+◌, ◌<◌, ◌≡◌, refl, sym, ap, ◌∙◌, ◌⊎◌, inl, inr, Bool, true, false, not, ◌&&◌, ◌||◌, List, [],
  ◌∷◌, ◌++◌, Option, none, some, arith, All, ◌==◌, if◌then◌else◌, Bool-cases, if-elim,
}
use aptum.Solver.Types.{
  LiftedBool, undefined, yes_, no_, Lit, lit, var, sign, Clause, Work, State, Trail, Solver,
  Interface,
}
use aptum.Solver.Propagate.{any, count_if, same_lit, single, assign, assert_passed, enqueue}
use aptum.Solver.Model.{Given, satisfies, lifted, look, AllAgree, IsSound, push-IsSound, look-agree}

abbrev pub all {ℓ} : {A : Type ℓ} → (A → Bool) → List A → Bool
all p [] = true
all p (x ∷ xs) = p x && all p xs

pub all-append :
    (p : Work → Bool) (xs ys : List Work)
    → all p xs ≡ true
    → all p ys ≡ true
    → all p (xs ++ ys) ≡ true
all-append p [] ys h k = k
all-append p (x ∷ xs) ys h k = ground (arith, all-append p xs ys)

abbrev pub is_none {ℓ} : {A : Type ℓ} → Option A → Bool
is_none none = true
is_none (some a) = false

-- Work that can only be solved by a choice.
abbrev pub is_queued : Work → Bool
is_queued w = not w.clause.negative && (w.clause.optional || is_none (single w.clause.solutions))

abbrev pub is_past_queued : Option Work → Bool
is_past_queued none = true
is_past_queued (some w) = is_queued w

abbrev pub names_of : List Trail → List ℕ
names_of [] = []
names_of (e ∷ t) = e.assigned ∷ names_of t

abbrev pub vars_of : List Given → List ℕ
vars_of [] = []
vars_of (e ∷ ts) = e.0 ∷ vars_of ts

-- No variable is given a value twice, but for the root.
abbrev pub IsFresh : List Given → Type 0
IsFresh [] = Unit
IsFresh (e ∷ ts) = (((e.0 ≡ 0) × (e.1 ≡ true)) ⊎ (look e.0 ts ≡ undefined)) × IsFresh ts

-- A clause that holds and, if it is negative, watches its reason and its solutions.
pub record IsWatched (m : ℕ → Bool) (p : Lit) (c : Clause) : Type 0 where
  pub holds : satisfies m c ≡ true
  pub solution : c.negative ≡ true → same_lit p (lit c.reason) ≡ false → sign p ≡ false
  pub listed :
      c.negative ≡ true
      → same_lit p (lit c.reason) ≡ false
      → any (λ v. v == var p) c.solutions ≡ true

pub record Holds (i : Interface) (m : ℕ → Bool) (d : i.D) : Type 0 where
  pub on : (p : Lit) → All (λ (c : Clause). IsWatched m p c) (i.watches p d)

-- What the heap algorithms promise: they only rearrange.
pub record IsHeap (i : Interface) : Type 0 where
  pub push : (p : Work → Bool) (ws : List Work) → all p ws ≡ true → all p (i.push_heap ws) ≡ true
  pub push_count : (p : Work → Bool) (ws : List Work) → count_if p (i.push_heap ws) ≡ count_if p ws
  pub make : (p : Work → Bool) (ws : List Work) → all p ws ≡ true → all p (i.make_heap ws) ≡ true
  pub pop :
      (p : Work → Bool) (w : Work) (ws : List Work)
      → all p (w ∷ ws) ≡ true
      → (p (i.pop_heap w ws).0 ≡ true) × (all p (i.pop_heap w ws).1 ≡ true)

-- `m` is a choice of packages and versions that satisfies all that is known and can be discovered.
pub record IsModel (i : Interface) (m : ℕ → Bool) : Type 0 where
  pub root : m 0 ≡ true
  pub learns :
      (states : ℕ → State) (v : ℕ) (d : i.D) → Holds i m d → Holds i m (i.discover states v d)

-- No two readings of the clock lie the timeout apart, nor does one from the start.
pub record OnTime (i : Interface) (start timeout : ℕ) : Type 0 where
  pub any_two : (k n : ℕ) → i.time n < i.time k + timeout
  pub since : (n : ℕ) → i.time n < (if start == 0 then i.time n else start) + timeout

pub record Inv (i : Interface) (m : ℕ → Bool) (ts : List Given) (s : Solver i.D) : Type 0 where
  pub names : names_of s.trail ≡ vars_of ts
  pub values : (v : ℕ) → (s.states v).assignment ≡ look v ts
  pub fresh : IsFresh ts
  pub sound : IsSound m ts s.trail_lim
  pub queue : all is_queued s.work ≡ true
  pub past : all (λ (e : Trail). is_past_queued e.work) s.trail ≡ true
  pub known : Holds i m s.known
  pub clock : OnTime i s.start_time s.timeout
  pub conflict : s.pending_error ≡ true → AllAgree m ts → ⊥

-- After an operation, what `m` has to agree with, which contradicts it if the operation failed without a failed
-- assertion.
pub record Ran (i : Interface) (m : ℕ → Bool) (ts : List Given) (r : Bool × Solver i.D)
    : Type 0 where
  pub given : List Given
  pub inv : Inv i m given r.1
  pub refuted : r.0 ≡ false → r.1.failed_assertion ≡ false → AllAgree m given → ⊥
  pub grows : AllAgree m given → AllAgree m ts

sign_lifted : (b : Bool) → ◌≡◌ {A = LiftedBool} (if b then no_ else yes_) (lifted (not b))
sign_lifted true = refl
sign_lifted false = refl

negation_fixed : (b : Bool) → not b ≡ b → ⊥
negation_fixed true e = cc
negation_fixed false e = cc

module _ (i : Interface) (m : ℕ → Bool) where
  pub done : (ts : List Given) (s : Solver i.D) → Inv i m ts s → Ran i m ts (true, s)
  done ts s h = record { given = ts; inv = h; refuted = λ e f. cc; grows = λ a. a }

  pub assign_values :
      (p : Lit) (reason : Option Clause) (ts : List Given) (s : Solver i.D)
      → ((v : ℕ) → (s.states v).assignment ≡ look v ts)
      → (v : ℕ) → ((assign i p reason s).states v).assignment ≡ look v ((var p, not (sign p)) ∷ ts)
  assign_values p reason ts s h v = elim (Bool-cases (v == var p)) [
    | inl e ↦ rw e (sign_lifted (sign p))
    | inr e ↦ rw e (h v)
  ]

  pub assign-Inv :
      (p : Lit) (reason : Option Clause) (ts : List Given) (s : Solver i.D)
      → Inv i m ts s
      → look (var p) ts ≡ undefined
      → (AllAgree m ts → m (var p) ≡ not (sign p))
      → Inv i m ((var p, not (sign p)) ∷ ts) (assign i p reason s)
  assign-Inv p reason ts s h new ok = record {
    names = ap (λ (t : List ℕ). var p ∷ t) h.names;
    values = assign_values p reason ts s h.values;
    fresh = (inr new, h.fresh);
    sound = push-IsSound m (var p, not (sign p)) ts s.trail_lim ok h.sound;
    queue = h.queue;
    past = h.past;
    known = h.known;
    clock = h.clock;
    conflict = λ e a. h.conflict e a.1;
  }

  module _ (model : IsModel i m) where
    pub enqueue-Ran :
        (p : Lit) (reason : Option Clause) (ts : List Given) (s : Solver i.D)
        → Inv i m ts s
        → (AllAgree m ts → m (var p) ≡ not (sign p))
        → Ran i m ts (enqueue i p reason s)
    unfolding enqueue
    enqueue-Ran p reason ts s h ok =
        if-elim (Ran i m ts) (var p == 0) (λ z. failed)
          (λ z. now (s.states (var p)).assignment refl)
      where
        failed : Ran i m ts (false, record s { failed_assertion = true })
        failed = record {
          given = ts;
          inv = record {
            names = h.names;
            values = h.values;
            fresh = h.fresh;
            sound = h.sound;
            queue = h.queue;
            past = h.past;
            known = h.known;
            clock = h.clock;
            conflict = h.conflict;
          };
          refuted = λ c f. cc;
          grows = λ a. a;
        }

        clash :
            (b : Bool)
            → look (var p) ts ≡ lifted b
            → b ≡ sign p
            → Ran i m ts (false, record s { pending_error = true })
        clash b e q =
            let no_model : AllAgree m ts → ⊥ = λ a.
              negation_fixed (sign p) (sym (ok a) ∙ look-agree m model.root (var p) b ts a e ∙ q) in
            record {
              given = ts;
              inv = record {
                names = h.names;
                values = h.values;
                fresh = h.fresh;
                sound = h.sound;
                queue = h.queue;
                past = h.past;
                known = h.known;
                clock = h.clock;
                conflict = λ c. no_model;
              };
              refuted = λ c f. no_model;
              grows = λ a. a;
            }

        now :
            (x : LiftedBool)
            → (s.states (var p)).assignment ≡ x
            → Ran i m ts (assert_passed i p reason s)
        now undefined e = rw e (record {
          given = (var p, not (sign p)) ∷ ts;
          inv = assign-Inv p reason ts s h (sym (h.values (var p)) ∙ e) ok;
          refuted = λ c f. cc;
          grows = λ a. a.1;
        })
        now yes_ e = elim (Bool-cases (sign p)) [
          | inl q ↦ rw (e, q) (clash true (sym (h.values (var p)) ∙ e) (sym q))
          | inr q ↦ rw (e, q) (done ts s h)
        ]
        now no_ e = elim (Bool-cases (sign p)) [
          | inl q ↦ rw (e, q) (done ts s h)
          | inr q ↦ rw (e, q) (clash false (sym (h.values (var p)) ∙ e) (sym q))
        ]
