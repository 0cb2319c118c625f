-- ===== src/Solver/Positions.antt =====
-- Positions in the trail of apt-pkg/solver3.h: where a level begins, and what stands there.
use aptum.Prelude.{
  ℕ, suc, ◌≡◌, refl, sym, ap, ◌∙◌, ◌⊎◌, inl, inr, Bool, true, List, [], ◌∷◌, ◌++◌, some, arith,
  length, get_elem?, if-elim,
}
use aptum.Solver.Types.{undefined, Trail, Work}
use aptum.Solver.Propagate.{filter}
use aptum.Solver.Model.{Given, look, Decided}
use aptum.Solver.Invariant.{all, names_of, vars_of, IsFresh}

-- The oldest entry of a level.
abbrev pub last_of {ℓ} : {A : Type ℓ} → A → List A → A
last_of x [] = x
last_of x (y ∷ ys) = last_of y ys

pub Decided-last :
    (m : ℕ → Bool) (e : Given) (top : List Given) → m (last_of e top).0 ≡ true → Decided m (e ∷ top)
Decided-last m e [] h = h
Decided-last m e (f ∷ top) h = Decided-last m f top h

length-vars_of : (ts : List Given) → length (vars_of ts) ≡ length ts
length-vars_of [] = refl
length-vars_of (e ∷ ts) = ap suc (length-vars_of ts)

length-names_of : (t : List Trail) → length (names_of t) ≡ length t
length-names_of [] = refl
length-names_of (e ∷ t) = ap suc (length-names_of t)

-- The entry at the bottom of a level is found by its position.
pub choice_at-last :
    (t : List Trail) (e : Given) (top below : List Given)
    → names_of t ≡ vars_of ((e ∷ top) ++ below)
    → (x : Trail) × (get_elem? t (length top) ≡ some x) × (x.assigned ≡ (last_of e top).0)
choice_at-last [] e top below h = absurd (nil h)
  where
    nil : [] ≡ e.0 ∷ vars_of (top ++ below) → ⊥
    nil h = cc
choice_at-last (x ∷ t) e [] below h = (x, refl, head h)
  where
    head : x.assigned ∷ names_of t ≡ e.0 ∷ vars_of below → x.assigned ≡ e.0
    head h = cc
choice_at-last (x ∷ t) e (f ∷ top) below h = choice_at-last t f top below (rest h)
  where
    rest :
        x.assigned ∷ names_of t ≡ e.0 ∷ (f.0 ∷ vars_of (top ++ below))
        → names_of t ≡ f.0 ∷ vars_of (top ++ below)
    rest h = cc

pub all-filter : (p q : Work → Bool) (ws : List Work) → all p ws ≡ true → all p (filter q ws) ≡ true
all-filter p q [] h = refl
all-filter p q (w ∷ ws) h =
    if-elim (λ (l : List Work). all p l ≡ true) (q w) (λ e. ground (arith, all-filter p q ws))
      (λ e. all-filter p q ws (ground arith))

pub last-IsFresh :
    (e : Given) (top below : List Given)
    → IsFresh ((e ∷ top) ++ below)
    → ((last_of e top).0 ≡ 0) ⊎ (look (last_of e top).0 below ≡ undefined)
last-IsFresh e [] below (inl z, f) = inl z.0
last-IsFresh e [] below (inr u, f) = inr u
last-IsFresh e (x ∷ top) below (_, f) = last-IsFresh x top below f

pub same_length :
    (t : List Trail) (ts : List Given) → names_of t ≡ vars_of ts → length t ≡ length ts
same_length t ts h = sym (length-names_of t) ∙ ap length h ∙ length-vars_of ts
