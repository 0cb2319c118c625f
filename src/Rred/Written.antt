-- ===== src/Rred/Written.antt =====
-- What write_diff of methods/rred.cc writes for a change, as a command and its text.
use aptum.Prelude.{
  ℕ, zero, suc, ◌-◌, ◌<◌, ◌≡◌, refl, sym, ap, ◌∙◌, Bool, true, false, not, ◌&&◌, ◌||◌, List, [],
  ◌∷◌, ◌++◌, arith, append_assoc, length, ltb, ◌==◌, if◌then◌else◌,
}
use aptum.Chars.{codes}
use aptum.Rred.Changes.{Change, flat}
use aptum.Rred.Meaning.{flat-append}
use aptum.Rred.Deleting.{Lines}
use aptum.Rred.WriteDiff.{write_edit, write_changes, edit_lines_of}
use aptum.Rred.Scripted.{command, text_lines, dot_line}

pub write_changes-passed :
    (digits : ℕ → List ℕ) (line : ℕ) (behind : List ℕ) (c : Change) (cs : List Change)
    → (c.del_cnt == 0 && c.offset == 0) ≡ true
    → write_changes digits line behind (c ∷ cs) ≡ write_changes digits line (c.add ++ behind) cs
unfolding write_changes
write_changes-passed digits line behind c cs e = rw e refl

pub write_changes-edit :
    (digits : ℕ → List ℕ) (line : ℕ) (behind : List ℕ) (c : Change) (cs : List Change)
    → (c.del_cnt == 0 && c.offset == 0) ≡ false
    → write_changes digits line behind (c ∷ cs)
      ≡ write_edit digits (line - c.del_cnt) c behind
        ++ write_changes digits (line - c.del_cnt - c.offset) [] cs
unfolding write_changes
write_changes-edit digits line behind c cs e = rw e refl

added_command :
    (digits : ℕ → List ℕ) (start del : ℕ) (l : List ℕ) (ls : Lines)
    → (if del == 0 then digits start ++ codes "a\n" else edit_lines_of digits start del b'c')
      ≡ command digits start del (l ∷ ls)
added_command digits start zero l ls = refl
added_command digits start (suc zero) l ls = refl
added_command digits start (suc (suc n)) l ls =
    let some_lines : (suc (suc n) == 0) ≡ false = ground arith in
    let more : (suc (suc n) == 1) ≡ false = ground arith in rw (some_lines, more) refl

deleted_command :
    (digits : ℕ → List ℕ) (start del : ℕ)
    → 0 < del
    → edit_lines_of digits start del b'd' ≡ command digits start del []
deleted_command digits start zero h = absurd (omega arith)
deleted_command digits start (suc zero) h = refl
deleted_command digits start (suc (suc n)) h =
    let more : (suc (suc n) == 1) ≡ false = ground arith in rw more refl

pub write_edit-added :
    (digits : ℕ → List ℕ) (start : ℕ) (c : Change) (behind : List ℕ) (text ls : Lines)
    → 0 < c.add_cnt
    → 0 < length text
    → c.add ++ behind ≡ flat text
    → write_edit digits start c behind ++ flat ls
      ≡ command digits start c.del_cnt text ++ flat (text_lines text ls)
unfolding write_edit flat
write_edit-added digits start c behind [] ls some_added full e = absurd (omega arith)
write_edit-added digits start c behind (l ∷ text) ls some_added full e =
    let adds : ltb 0 c.add_cnt ≡ true = ground arith in
    let line = command digits start c.del_cnt (l ∷ text) in
    rw adds (
      ap (λ (t : List ℕ). (t ++ ((c.add ++ behind) ++ dot_line)) ++ flat ls)
        (added_command digits start c.del_cnt l text)
      ∙ append_assoc line ((c.add ++ behind) ++ dot_line) (flat ls)
      ∙ ap (λ (t : List ℕ). line ++ t)
          (append_assoc (c.add ++ behind) dot_line (flat ls)
            ∙ ap (λ (t : List ℕ). t ++ (dot_line ++ flat ls)) e
            ∙ sym (flat-append (l ∷ text) (dot_line ∷ ls))))

pub write_edit-deleted :
    (digits : ℕ → List ℕ) (start : ℕ) (c : Change) (behind : List ℕ)
    → c.add_cnt ≡ 0
    → 0 < c.del_cnt
    → write_edit digits start c behind ≡ command digits start c.del_cnt []
unfolding write_edit
write_edit-deleted digits start c behind none_added some_deleted =
    let adds : ltb 0 c.add_cnt ≡ false = ground arith in
    let deletes : ltb 0 c.del_cnt ≡ true = ground arith in
    rw (adds, deletes) (deleted_command digits start c.del_cnt some_deleted)

pub write_edit-nothing :
    (digits : ℕ → List ℕ) (start : ℕ) (c : Change) (behind : List ℕ)
    → c.add_cnt ≡ 0
    → c.del_cnt ≡ 0
    → write_edit digits start c behind ≡ []
unfolding write_edit
write_edit-nothing digits start c behind none_added none_deleted =
    let adds : ltb 0 c.add_cnt ≡ false = ground arith in
    let deletes : ltb 0 c.del_cnt ≡ false = ground arith in rw (adds, deletes) refl

-- The text of every change is written: each change without lines in front of it or deleted, whose text is not
-- empty, comes behind a change with text.
unfoldable pub all_written : Bool → List Change → Bool
all_written pending [] = not pending
all_written pending (c ∷ cs) =
    let passed = all_written (pending || ltb 0 c.add_cnt) cs in
    let fresh = all_written false cs in
    if c.del_cnt == 0 && c.offset == 0 then passed else (not pending || ltb 0 c.add_cnt) && fresh
