-- ===== src/Rred/ReadDiff.antt =====
-- Patch::read_diff of methods/rred.cc. strtoul and strtol of the C library are parameters: the number and the text
-- behind it, or `none` where there is no number or one out of range. So is, for each line read and those to
-- come, whether add_easy puts it elsewhere than behind the line before. The text
-- of a change is there, empty or not, where its lines are counted. A failure to read the first line, and the
-- hash, are left out.
use aptum.Prelude.{
  ℕ, ◌+◌, ◌-◌, ◌%◌, ◌^◌, Bool, true, false, not, ◌&&◌, List, [], ◌∷◌, ◌++◌, Option, none, some, ltb,
  ◌==◌, if◌then◌else◌,
}
use aptum.Chars.{codes, deref}
use aptum.Strings.Affixes.{same_text}
use aptum.Rred.Changes.{Change, FileChanges}
use aptum.Rred.ReadLine.{read_buffers}
use aptum.Rred.AddChange.{add_change}

abbrev pub Number : Type 0
Number = List ℕ → Option (ℕ × List ℕ)

pub record Reader : Type 0 where
  pub cmdwanted : Bool
  pub ch : Change
  pub filechanges : FileChanges

-- The last line, `e`, where a comma follows the first.
unfoldable pub range_end : Number → ℕ → List ℕ → Option (ℕ × ℕ × List ℕ)
range_end strtol s [] = some (s, s, [])
range_end strtol s (c ∷ m) =
    if c == b','
    then elim (strtol m) [
      | none ↦ none
      | some (e, rest) ↦ if ltb e s then none else some (s, e, rest)
    ]
    else some (s, s, c ∷ m)

unfoldable pub range : Number → Number → List ℕ → Option (ℕ × ℕ × List ℕ)
unfolding range_end
range strtoul strtol line = elim (strtoul line) [ none ↦ none | some (s, m) ↦ range_end strtol s m ]

abbrev pub reader_of : Bool → Change → Option FileChanges → Option Reader
reader_of wanted c none = none
reader_of wanted c (some s) = some (record { cmdwanted = wanted; ch = c; filechanges = s })

abbrev pub change_for : ℕ → ℕ → Change
change_for offset del = record { offset = offset; del_cnt = del; add_cnt = 0; add = [] }

unfoldable pub dispatch : Reader → Option (ℕ × ℕ × List ℕ) → Option Reader
dispatch r none = none
dispatch r (some (s, e, c)) =
    if ltb r.ch.offset s
    then none
    else if deref c == b'a'
    then reader_of false (change_for s 0) (some r.filechanges)
    else if deref c == b'c'
    then (if s == 0
        then none
        else reader_of false (change_for (s - 1) (e - s + 1)) (some r.filechanges))
    else if deref c == b'd'
    then (if s == 0
        then none
        else reader_of true (change_for (s - 1) (e - s + 1))
            (add_change (change_for (s - 1) (e - s + 1)) r.filechanges))
    else none

-- A line of text in its place: behind the text of the change, or at a new place as a change of its own.
unfoldable pub read_text : List ℕ → Bool → Reader → Option Reader
read_text line moved r =
    if not (r.ch.add_cnt == 0) && not moved
    then some (record r { ch = record r.ch { add_cnt = r.ch.add_cnt + 1; add = r.ch.add ++ line } })
    else let offset = (r.ch.offset + r.ch.add_cnt) % 2 ^ 64 in
      if r.ch.add_cnt == 0
      then some (record r { ch = record r.ch { offset = offset; add_cnt = 1; add = line } })
      else reader_of false (record { offset = offset; del_cnt = 0; add_cnt = 1; add = line })
          (add_change r.ch r.filechanges)

unfoldable pub read_line : Number → Number → List ℕ × Bool → Reader → Option Reader
unfolding range dispatch read_text same_text
read_line strtoul strtol (line, moved) r =
    if r.cmdwanted
    then dispatch r (range strtoul strtol line)
    else if same_text line (codes ".\n")
    then reader_of true r.ch (add_change r.ch r.filechanges)
    else read_text line moved r

unfoldable pub read_lines : Number → Number → List (List ℕ × Bool) → Option Reader → Option Reader
unfolding read_line
read_lines strtoul strtol lines none = none
read_lines strtoul strtol [] (some r) = some r
read_lines strtoul strtol (l ∷ lines) (some r) =
    read_lines strtoul strtol lines (read_line strtoul strtol l r)

abbrev pub changes_read : Option Reader → Option FileChanges
changes_read none = none
changes_read (some r) = some r.filechanges

-- Where add_easy puts each line, as told by the lines that are left.
abbrev pub with_moves : (List (List ℕ) → Bool) → List (List ℕ) → List (List ℕ × Bool)
with_moves moved [] = []
with_moves moved (l ∷ ls) = (l, moved (l ∷ ls)) ∷ with_moves moved ls

unfoldable pub read_diff :
    Number → Number → (List (List ℕ) → Bool) → List ℕ → FileChanges → Option FileChanges
unfolding read_lines read_buffers
read_diff strtoul strtol moved file s = changes_read (
    read_lines strtoul strtol (with_moves moved (read_buffers file))
      (some (record { cmdwanted = true; ch = change_for (2 ^ 64 - 1) 0; filechanges = s })))
