-- ===== src/Rred/Changes.antt =====
-- `Change` and the cursor of `FileChanges` in methods/rred.cc.
--
-- The text of a change is the list of its bytes, and `add_len` its length. The list is split at the cursor
-- `where`: `before` has the nearest change first, `after` begins with `where`, and is
-- empty at `end()`. `none` is a return of false, or a step outside of the list.
use aptum.Prelude.{
  ℕ, zero, suc, ◌+◌, ◌-◌, ◌%◌, ◌^◌, Bool, not, ◌&&◌, ◌||◌, List, [], ◌∷◌, ◌++◌, Option, none, some,
  leb, ltb, ◌==◌, if◌then◌else◌, length, take, drop, is_empty,
}

pub record Change : Type 0 where
  pub offset : ℕ
  pub del_cnt : ℕ
  pub add_cnt : ℕ
  pub add : List ℕ

abbrev pub change_at : ℕ → Change
change_at off = record { offset = off; del_cnt = 0; add_cnt = 0; add = [] }

abbrev pub newline : ℕ
newline = 10

-- The text behind the first newline.
unfoldable pub after_newline : List ℕ → Option (List ℕ)
after_newline [] = none
after_newline (c ∷ s) = let further = after_newline s in if c == newline then some s else further

-- `size_t` wraps around below 0.
abbrev pub pred_size : ℕ → ℕ
pred_size n = (n + 2 ^ 64 - 1) % 2 ^ 64

-- The two checks behind a skipped line, with `lines` still to skip.
unfoldable pub counts_agree : ℕ → Change → Bool
counts_agree lines c = if is_empty c.add then c.add_cnt == 0 && lines == 0 else not (c.add_cnt == 0)

unfoldable pub skip_lines : ℕ → Change → Option Change
skip_lines zero c = some c
skip_lines (suc lines) c = elim (after_newline c.add) [
  | none ↦ none
  | some s ↦
      let c' : Change = record c { add = s; add_cnt = pred_size c.add_cnt } in
      let rest = skip_lines lines c' in if counts_agree lines c' then rest else none
]

pub record FileChanges : Type 0 where
  pub before : List Change
  pub after : List Change
  pub pos : ℕ

abbrev pub no_changes : FileChanges
no_changes = record { before = []; after = []; pos = 0 }

unfoldable pub left_from : List Change → FileChanges → Option FileChanges
left_from [] s = none
left_from (c ∷ b) s =
    some (record { before = b; after = c ∷ s.after; pos = s.pos - (c.offset + c.add_cnt) })

unfoldable pub left : FileChanges → Option FileChanges
left s = left_from s.before s

unfoldable pub right_from : List Change → FileChanges → Option FileChanges
right_from [] s = none
right_from (c ∷ a) s =
    some (record { before = c ∷ s.before; after = a; pos = s.pos + (c.offset + c.add_cnt) })

unfoldable pub right : FileChanges → Option FileChanges
right s = right_from s.after s

unfoldable pub insert_from : List Change → ℕ → FileChanges → Option FileChanges
insert_from [] offset s = some (record s { after = change_at offset ∷ [] })
insert_from (w ∷ a) offset s =
    if ltb w.offset offset
    then none
    else some (record s { after = change_at offset ∷ record w { offset = w.offset - offset } ∷ a })

unfoldable pub insert : ℕ → FileChanges → Option FileChanges
insert offset s = insert_from s.after offset s

-- The change is cut behind its first `offset` lines; the cursor is left on the first part.
unfoldable pub split_from : List Change → ℕ → FileChanges → Option FileChanges
split_from [] offset s = none
split_from (w ∷ a) offset s =
    if leb offset w.offset || leb (w.offset + w.add_cnt) offset
    then none
    else elim (skip_lines (offset - w.offset) (record w { del_cnt = 0; offset = 0 })) [
      | none ↦ none
      | some w' ↦
          let kept : Change = record w {
            add_cnt = offset - w.offset;
            add = take (length w.add - length w'.add) w.add;
          } in
          some (record s { after = kept ∷ w' ∷ a })
    ]

unfoldable pub split : ℕ → FileChanges → Option FileChanges
split offset s = split_from s.after offset s

unfoldable pub then_right : Option FileChanges → Option FileChanges
then_right none = none
then_right (some s) = right s

-- One round of the loop of go_to_change_for: a return, or the state of the next round.
pub data Round : Type 0 where
  done : Option FileChanges → Round
  again : Option FileChanges → Round

unfoldable pub seek_round : List Change → ℕ → FileChanges → Round
seek_round [] line s = done (insert (line - s.pos) s)
seek_round (w ∷ a) line s =
    if ltb line s.pos
    then again (left s)
    else if leb (s.pos + w.offset + w.add_cnt) line
    then again (right s)
    else if ltb line (s.pos + w.offset)
    then done (insert (line - s.pos) s)
    else if line == s.pos + w.offset
    then done (some s)
    else done (then_right (split (line - s.pos) s))

unfoldable pub go_to_change_for : ℕ → ℕ → FileChanges → Option FileChanges
go_to_change_for zero line s = none
go_to_change_for (suc fuel) line s = elim (seek_round s.after line s) [
  | done r ↦ r
  | again none ↦ none
  | again (some s') ↦ go_to_change_for fuel line s'
]

-- The `int` that a `size_t` becomes as the parameter of skip_lines, where below 0 nothing is skipped.
unfoldable pub skip_count : ℕ → ℕ
skip_count n = let m = n % 2 ^ 32 in if ltb m (2 ^ 31) then m else 0

-- What apply_against_file writes for the lines of the input: `offset` lines are kept, `del_cnt`
-- lines skipped, the text of the change is added, and behind the last change the rest is kept.
unfoldable pub flat : List (List ℕ) → List ℕ
flat [] = []
flat (l ∷ ls) = l ++ flat ls

unfoldable pub apply_against_file : List Change → List (List ℕ) → List ℕ
apply_against_file [] input = flat input
apply_against_file (c ∷ cs) input =
    flat (take c.offset input)
    ++ (c.add ++ apply_against_file cs (drop (skip_count c.del_cnt) (drop c.offset input)))

-- All changes, in order.
unfoldable pub from_begin : List Change → List Change → List Change
from_begin [] cs = cs
from_begin (c ∷ b) cs = from_begin b (c ∷ cs)

unfoldable pub changes : FileChanges → List Change
changes s = from_begin s.before s.after
