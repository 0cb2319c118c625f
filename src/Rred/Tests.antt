-- ===== src/Rred/Tests.antt =====
-- Runs of the patch merger (methods/rred.cc), and its theorems at concrete patches.
use aptum.Prelude.{ℕ, ◌≤◌, All, List, length, is_empty, false, ◌≡◌, refl, [], ◌∷◌, some, arith}
use aptum.Chars.{codes}
use aptum.Rred.Changes.{
  Change, FileChanges, skip_lines, after_newline, counts_agree, go_to_change_for, seek_round, split,
  split_from, right, right_from, then_right, changes, from_begin, apply_against_file, flat,
  skip_count, no_changes,
}
use aptum.Rred.Texts.{has_newline}
use aptum.Rred.Lines.{lines_of, IsLine}
use aptum.Rred.AddChange.{add_change}
use aptum.Rred.Adding.{add_change-edit}
use aptum.Rred.Sequence.{add_changes, add_changes-apply_each, apply_each, Fits}
use aptum.Rred.Sizes.{needs, total, all_del}
use aptum.Rred.Cursor.{IsWell, IsSound, Found}
use aptum.Rred.Delete.{delete_lines, Deleted, delete_lines-Deleted}
use aptum.Rred.Meaning.{SameEffect}
use aptum.Rred.Merge.{merge, merge_left, merge_next, merge_behind, merge-SameEffect}
use aptum.Rred.Seek.{go_to_change_for-Found}

-- Two lines kept, one skipped, and "a" and "b" added.
abbrev pub edit : Change
edit = record { offset = 2; del_cnt = 1; add_cnt = 2; add = codes "a\nb\n" }

abbrev edited : FileChanges
edited = record { before = []; after = edit ∷ []; pos = 0 }

applied :
    apply_against_file (edit ∷ []) (codes "1\n" ∷ codes "2\n" ∷ codes "3\n" ∷ codes "4\n" ∷ [])
    ≡ codes "1\n2\na\nb\n4\n"
unfolding apply_against_file flat skip_count
applied = refl

-- The line behind "a" lies within the added text, which is split.
sought :
    go_to_change_for 2 3 edited
    ≡ some (record {
      before = record edit { add_cnt = 1; add = codes "a\n" } ∷ [];
      after = record { offset = 0; del_cnt = 0; add_cnt = 1; add = codes "b\n" } ∷ [];
      pos = 3;
    })
unfolding go_to_change_for seek_round split split_from then_right right right_from skip_lines
    after_newline counts_agree
sought = refl

pub edit-IsSound : IsSound edit
unfolding has_newline
edit-IsSound = record {
  text = (codes "a", codes "b\n", refl, refl, (codes "b", [], refl, refl, refl));
  small = omega arith;
}

edited-IsWell : IsWell edited
edited-IsWell = record {
  pos_lem = unfold total in refl;
  texts_before = tt;
  texts_after = (edit-IsSound, tt);
}

go_to_change_for-Found_example :
    (t : FileChanges) × (go_to_change_for 2 3 edited ≡ some t) × Found 3 edited t
go_to_change_for-Found_example =
    go_to_change_for-Found 3 edited edited-IsWell (λ e. cc) 2 (omega arith)

-- A line kept, then "x" added behind a deletion, where the cursor is on the second change.
abbrev cut_up : FileChanges
cut_up = record {
  before = record { offset = 1; del_cnt = 1; add_cnt = 0; add = [] } ∷ [];
  after =
      record { offset = 0; del_cnt = 1; add_cnt = 1; add = codes "x\n" }
      ∷ record { offset = 0; del_cnt = 2; add_cnt = 1; add = codes "y\n" }
      ∷ [];
  pos = 1;
}

merged : merge cut_up ≡ record {
  before = [];
  after =
      record { offset = 1; del_cnt = 4; add_cnt = 1; add = codes "x\n" }
      ∷ record { offset = 0; del_cnt = 0; add_cnt = 1; add = codes "y\n" }
      ∷ [];
  pos = 0;
}
unfolding merge merge_left merge_behind merge_next
merged = refl

merge-SameEffect_example : SameEffect (changes (merge cut_up)) (changes cut_up)
merge-SameEffect_example =
    merge-SameEffect cut_up (unfold changes from_begin all_del in omega arith)

-- Of "a" and "b" and the two lines kept behind them, three go.
abbrev edited_more : FileChanges
edited_more = record edited {
  after = edit ∷ record { offset = 2; del_cnt = 0; add_cnt = 0; add = [] } ∷ [];
}

edited_more-IsWell : IsWell edited_more
edited_more-IsWell = record {
  pos_lem = unfold total in refl;
  texts_before = tt;
  texts_after = (edit-IsSound, (record { text = refl; small = omega arith }, tt));
}

delete_lines-Deleted_example :
    (t : FileChanges) × (delete_lines 3 edited_more ≡ some t)
    × Deleted 3 edit (record { offset = 2; del_cnt = 0; add_cnt = 0; add = [] } ∷ []) edited_more t
delete_lines-Deleted_example =
    delete_lines-Deleted 3 [] edit (record { offset = 2; del_cnt = 0; add_cnt = 0; add = [] } ∷ [])
      0 (omega arith) edited_more-IsWell

abbrev pub old_lines : List (List ℕ)
old_lines = codes "1\n" ∷ codes "2\n" ∷ codes "3\n" ∷ codes "4\n" ∷ []

pub old_lines-IsLine : All IsLine old_lines
unfolding has_newline
old_lines-IsLine = (
  (codes "1", refl, refl),
  ((codes "2", refl, refl), ((codes "3", refl, refl), ((codes "4", refl, refl), tt))),
)

-- Of "a", "b" and the line kept behind them, the last two are replaced by "c".
abbrev pub later : Change
later = record { offset = 3; del_cnt = 2; add_cnt = 1; add = codes "c\n" }

later-IsSound : IsSound later
unfolding has_newline
later-IsSound = record { text = (codes "c", [], refl, refl, refl); small = omega arith }

add_change-edit_example :
    (t : FileChanges) × (add_change later edited ≡ some t)
    × IsWell t
    × (is_empty t.after ≡ false)
    × (needs (changes t) ≤ length old_lines)
    × (apply_against_file (changes t) old_lines
        ≡ apply_against_file
            (later ∷ [])
            (lines_of (apply_against_file (changes edited) old_lines)))
add_change-edit_example =
    add_change-edit later edited old_lines later-IsSound (omega arith) edited-IsWell (λ e. cc)
      old_lines-IsLine (omega arith) (unfold changes from_begin needs in omega arith)
      (unfold changes from_begin apply_against_file flat skip_count lines_of in omega arith)

both_fit : Fits (edit ∷ later ∷ []) (flat old_lines)
unfolding apply_against_file flat skip_count lines_of
both_fit = (edit-IsSound, omega arith, omega arith, (later-IsSound, omega arith, omega arith, tt))

add_changes-apply_each_example :
    (t : FileChanges) × (add_changes (edit ∷ later ∷ []) (some no_changes) ≡ some t)
    × (apply_against_file (changes t) old_lines ≡ apply_each (edit ∷ later ∷ []) (flat old_lines))
add_changes-apply_each_example =
    add_changes-apply_each (edit ∷ later ∷ []) old_lines old_lines-IsLine (omega arith) both_fit
