-- ===== src/Rred/Sizes.antt =====
-- How many lines the changes of methods/rred.cc add, delete and need.
use aptum.Prelude.{ℕ, ◌+◌, ◌≡◌, List, [], ◌∷◌, arith}
use aptum.Rred.Changes.{Change, from_begin}

-- The lines that changes add.
unfoldable pub all_add : List Change → ℕ
all_add [] = 0
all_add (c ∷ cs) = c.add_cnt + all_add cs

-- The lines of the input that they delete.
unfoldable pub all_del : List Change → ℕ
all_del [] = 0
all_del (c ∷ cs) = c.del_cnt + all_del cs

-- The lines that the input must have for them.
unfoldable pub needs : List Change → ℕ
needs [] = 0
needs (c ∷ cs) = c.offset + c.del_cnt + needs cs

-- The output lines that the changes before the cursor keep or add.
unfoldable pub total : List Change → ℕ
total [] = 0
total (c ∷ b) = total b + (c.offset + c.add_cnt)

pub needs-from_begin : (b cs : List Change) → needs (from_begin b cs) ≡ needs b + needs cs
unfolding needs from_begin
needs-from_begin [] cs = omega arith
needs-from_begin (c ∷ b) cs = omega (arith, needs-from_begin b (c ∷ cs))

pub all_del-from_begin : (b cs : List Change) → all_del (from_begin b cs) ≡ all_del b + all_del cs
unfolding all_del from_begin
all_del-from_begin [] cs = omega arith
all_del-from_begin (c ∷ b) cs = omega (arith, all_del-from_begin b (c ∷ cs))

pub all_add-from_begin : (b cs : List Change) → all_add (from_begin b cs) ≡ all_add b + all_add cs
unfolding all_add from_begin
all_add-from_begin [] cs = omega arith
all_add-from_begin (c ∷ b) cs = omega (arith, all_add-from_begin b (c ∷ cs))

pub needs-total : (b : List Change) → needs b + all_add b ≡ total b + all_del b
unfolding needs all_add all_del total
needs-total [] = omega arith
needs-total (c ∷ b) = omega (arith, needs-total b)
