-- ===== src/Rred/AddChange.antt =====
-- FileChanges::add_change of methods/rred.cc.
use aptum.Prelude.{
  ℕ, suc, ◌+◌, Bool, false, ◌&&◌, [], ◌∷◌, Option, none, some, ◌==◌, if◌then◌else◌, is_empty,
  length,
}
use aptum.Rred.Changes.{Change, FileChanges, go_to_change_for, insert}
use aptum.Rred.Delete.{delete_lines}
use aptum.Rred.Merge.{merge}

-- `pos + where->offset == line`, where `where` is a change.
unfoldable pub at_line : ℕ → FileChanges → Bool
at_line line s = elim s.after [ [] ↦ false | w ∷ a ↦ s.pos + w.offset == line ]

unfoldable pub checked : ℕ → Option FileChanges → Option FileChanges
unfolding at_line
checked line none = none
checked line (some s) = if at_line line s then some s else none

unfoldable pub then_delete : ℕ → Option FileChanges → Option FileChanges
then_delete cnt none = none
then_delete cnt (some s) = if cnt == 0 then some s else delete_lines cnt s

-- new_change.
unfoldable pub new_change : FileChanges → Option FileChanges
unfolding insert
new_change s = elim s.after [ [] ↦ none | w ∷ a ↦ insert w.offset s ]

-- The text of a change for `where`, if that has none.
unfoldable pub set_text : Change → Option FileChanges → Option FileChanges
set_text c none = none
set_text c (some s) = elim s.after [
  | [] ↦ none
  | w ∷ a ↦
      if is_empty w.add && w.add_cnt == 0
      then some (record s { after = record w { add_cnt = c.add_cnt; add = c.add } ∷ a })
      else none
]

-- A new change is made where `where` has a text.
unfoldable pub room_for_text : FileChanges → Option FileChanges
unfolding new_change
room_for_text s = elim s.after [
  | [] ↦ none
  | w ∷ a ↦ if is_empty w.add then some s else new_change s
]

unfoldable pub then_add : Change → Option FileChanges → Option FileChanges
unfolding set_text room_for_text
then_add c none = none
then_add c (some s) = if is_empty c.add then some s else set_text c (room_for_text s)

unfoldable pub then_merge : Option FileChanges → Option FileChanges
then_merge none = none
then_merge (some s) = some (merge s)

unfoldable pub add_change : Change → FileChanges → Option FileChanges
unfolding checked then_delete then_add then_merge go_to_change_for
add_change c s =
    let there =
      checked c.offset (go_to_change_for (suc (length s.before + length s.after)) c.offset s) in
    then_merge (then_add c (checked c.offset (then_delete c.del_cnt there)))
