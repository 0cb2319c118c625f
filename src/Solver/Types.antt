-- ===== src/Solver/Types.antt =====
-- The data of the solver: apt-pkg/solver3.h, and `Work::operator<` of apt-pkg/solver3.cc.
--
-- A variable is its number, where 0 is the root, and a literal is the signed number of the code, so
-- that the root is its own negation. A trail, and the positions of its levels, have the newest first.
use aptum.Prelude.{
  ℕ, zero, suc, Bool, true, false, not, ◌&&◌, List, Option, ltb, ◌==◌, if◌then◌else◌, length,
}
use aptum.Prelude.Int.{ℤ, pos, negsuc}

pub data LiftedBool : Type 0 where
  undefined yes_ no_ : LiftedBool

abbrev pub lifted_not : LiftedBool → LiftedBool
lifted_not undefined = undefined
lifted_not yes_ = no_
lifted_not no_ = yes_

abbrev pub is_undefined : LiftedBool → Bool
is_undefined undefined = true
is_undefined yes_ = false
is_undefined no_ = false

abbrev pub is_true : LiftedBool → Bool
is_true undefined = false
is_true yes_ = true
is_true no_ = false

abbrev pub is_false : LiftedBool → Bool
is_false undefined = false
is_false yes_ = false
is_false no_ = true

abbrev pub Lit : Type 0
Lit = ℤ

abbrev pub lit : ℕ → Lit
lit v = pos v

abbrev pub var : Lit → ℕ
var (pos v) = v
var (negsuc v) = suc v

abbrev pub sign : Lit → Bool
sign (pos v) = false
sign (negsuc v) = true

abbrev pub negate : Lit → Lit
negate (pos zero) = pos zero
negate (pos (suc v)) = negsuc v
negate (negsuc v) = pos (suc v)

pub record Clause : Type 0 where
  pub reason : ℕ
  pub group : ℕ
  pub solutions : List ℕ
  pub optional : Bool
  pub negative : Bool
  pub eager : Bool

pub record Work : Type 0 where
  pub clause : Clause
  pub level : ℕ
  pub size : ℕ

pub record State : Type 0 where
  pub reason : Option Clause
  pub backtracked : Bool
  pub level : ℕ
  pub assignment : LiftedBool

pub record Trail : Type 0 where
  pub assigned : ℕ
  pub work : Option Work

-- `D` is what is known of clauses and watches.
pub record Solver (D : Type 0) : Type 0 where
  pub states : ℕ → State
  pub known : D
  pub work : List Work
  pub trail : List Trail
  pub trail_lim : List ℕ
  pub prop_q : List ℕ
  pub pending_error : Bool
  pub failed_assertion : Bool
  pub calls_of_time : ℕ
  pub start_time : ℕ
  pub timeout : ℕ

-- What the search takes from elsewhere: the clauses that watch a literal, the virtual function
-- Discover, the heap algorithms of the C++ library and the clock, which is read once in each call.
pub record Interface : Type 1 where
  pub D : Type 0
  pub watches : Lit → D → List Clause
  pub discover : (ℕ → State) → ℕ → D → D
  pub push_heap : List Work → List Work
  pub make_heap : List Work → List Work
  pub pop_heap : Work → List Work → Work × List Work
  pub time : ℕ → ℕ

-- Two Boolean values that differ.
abbrev pub differ : Bool → Bool → Bool
differ true b = not b
differ false b = b

abbrev pub is_unit : Work → Bool
is_unit a = not a.clause.optional && ltb a.size 2

unfoldable pub work_lt : Work → Work → Bool
work_lt a b =
    if differ (is_unit a) (is_unit b)
    then is_unit b
    else if differ a.clause.eager b.clause.eager
    then not a.clause.eager
    else if not (a.clause.group == b.clause.group)
    then ltb b.clause.group a.clause.group
    else if differ (ltb a.size 2) (ltb b.size 2)
    then ltb b.size 2
    else if a.size == 1 && b.size == 1
    then ltb (length a.clause.solutions) (length b.clause.solutions)
    else false
