-- ===== src/Solver/Order.antt =====
-- `Work::operator<` of apt-pkg/solver3.cc as an order for the heap.
use aptum.Prelude.{◌<◌, ◌≡◌, sym, ◌∙◌, Bool, true, false, not, ◌&&◌, arith, ltb, length}
use aptum.Solver.Types.{Work, work_lt, is_unit}

work_lt_irrefl : (a : Work) → work_lt a a ≡ false
unfolding work_lt
work_lt_irrefl a = ground arith

work_lt_asym : (a b : Work) → work_lt a b ≡ true → work_lt b a ≡ false
unfolding work_lt
work_lt_asym a b h = ground arith

work_lt_trans : (a b c : Work) → work_lt a b ≡ true → work_lt b c ≡ true → work_lt a c ≡ true
unfolding work_lt
work_lt_trans a b c h k = ground arith

-- Neither item is before the other.
abbrev pub equal : Work → Work → Bool
unfolding work_lt
equal a b = not (work_lt a b) && not (work_lt b a)

-- What the order compares, of an item with a choice left.
record SameRank (a b : Work) : Type 0 where
  unit : is_unit a ≡ is_unit b
  eager : a.clause.eager ≡ b.clause.eager
  group : a.clause.group ≡ b.clause.group
  small : ltb a.size 2 ≡ ltb b.size 2
  solutions : ltb a.size 2 ≡ true → length a.clause.solutions ≡ length b.clause.solutions

SameRank-equal : (a b : Work) → 0 < a.size → 0 < b.size → equal a b ≡ true → SameRank a b
unfolding work_lt
SameRank-equal a b p q h = record {
  unit = ground arith;
  eager = ground arith;
  group = ground arith;
  small = ground arith;
  solutions = λ e. ground arith;
}

equal-SameRank : (a b : Work) → 0 < a.size → 0 < b.size → SameRank a b → equal a b ≡ true
unfolding work_lt
equal-SameRank a b p q h = ground (arith, h.unit, h.eager, h.group, h.small, h.solutions)

SameRank-trans : (a b c : Work) → SameRank a b → SameRank b c → SameRank a c
SameRank-trans a b c h k = record {
  unit = h.unit ∙ k.unit;
  eager = h.eager ∙ k.eager;
  group = h.group ∙ k.group;
  small = h.small ∙ k.small;
  solutions = λ e. h.solutions e ∙ k.solutions (sym h.small ∙ e);
}

equal_trans :
    (a b c : Work)
    → 0 < a.size
    → 0 < b.size
    → 0 < c.size
    → equal a b ≡ true
    → equal b c ≡ true
    → equal a c ≡ true
equal_trans a b c p q r h k =
    equal-SameRank a c p r
      (SameRank-trans a b c (SameRank-equal a b p q h) (SameRank-equal b c q r k))

-- The order of work is a strict weak order on items with a choice left, as the heap algorithms need it:
-- it is irreflexive and transitive, and so is being equal in it.
pub work_lt-strict_weak :
    (a b c : Work)
    → 0 < a.size
    → 0 < b.size
    → 0 < c.size
    → (work_lt a a ≡ false)
      × (work_lt a b ≡ true → work_lt b c ≡ true → work_lt a c ≡ true)
      × (equal a b ≡ true → equal b c ≡ true → equal a c ≡ true)
work_lt-strict_weak a b c p q r = (work_lt_irrefl a, work_lt_trans a b c, equal_trans a b c p q r)
