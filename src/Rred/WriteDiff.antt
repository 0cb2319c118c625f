-- ===== src/Rred/WriteDiff.antt =====
-- Patch::write_diff of methods/rred.cc. The decimal digits that strprintf prints are a parameter.
use aptum.Prelude.{ℕ, ◌+◌, ◌-◌, ◌%◌, ◌^◌, ◌&&◌, List, [], ◌∷◌, ◌++◌, ltb, ◌==◌, if◌then◌else◌}
use aptum.Chars.{codes}
use aptum.Rred.Changes.{Change, from_begin}

unfoldable pub input_lines : ℕ → List Change → ℕ
input_lines line [] = line
input_lines line (c ∷ cs) = input_lines ((line + (c.offset + c.del_cnt)) % 2 ^ 64) cs

-- The line numbers of an edit behind `line`, and its letter.
abbrev pub edit_lines_of : (ℕ → List ℕ) → ℕ → ℕ → ℕ → List ℕ
edit_lines_of digits line del command =
    if del == 1
    then digits (line + 1) ++ (command ∷ codes "\n")
    else digits (line + 1) ++ (b',' ∷ (digits (line + del) ++ (command ∷ codes "\n")))

-- The edit of a change, with the texts that follow it without lines between.
unfoldable pub write_edit : (ℕ → List ℕ) → ℕ → Change → List ℕ → List ℕ
write_edit digits line c behind =
    if ltb 0 c.add_cnt
    then (if c.del_cnt == 0
        then digits line ++ codes "a\n"
        else edit_lines_of digits line c.del_cnt b'c')
      ++ ((c.add ++ behind) ++ codes ".\n")
    else if ltb 0 c.del_cnt
    then edit_lines_of digits line c.del_cnt b'd'
    else []

-- From the last change to the first; `behind` are the texts passed by since `mg_e`.
unfoldable pub write_changes : (ℕ → List ℕ) → ℕ → List ℕ → List Change → List ℕ
unfolding write_edit
write_changes digits line behind [] = []
write_changes digits line behind (c ∷ cs) =
    let passed = write_changes digits line (c.add ++ behind) cs in
    let rest = write_changes digits (line - c.del_cnt - c.offset) [] cs in
    if c.del_cnt == 0 && c.offset == 0
    then passed
    else write_edit digits (line - c.del_cnt) c behind ++ rest

unfoldable pub write_diff : (ℕ → List ℕ) → List Change → List ℕ
unfolding input_lines write_changes from_begin
write_diff digits cs =
    let from_end = from_begin cs [] in write_changes digits (input_lines 0 from_end) [] from_end
