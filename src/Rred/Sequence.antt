-- ===== src/Rred/Sequence.antt =====
-- Changes that are added one after another (methods/rred.cc).
use aptum.Prelude.{
  ℕ, ◌+◌, ◌^◌, ◌≤◌, ◌<◌, ◌≡◌, refl, ap, ◌∙◌, true, List, [], ◌∷◌, arith, Option, none, some, All,
  length, is_empty,
}
use aptum.Rred.Changes.{
  Change, FileChanges, changes, apply_against_file, no_changes, flat, from_begin,
}
use aptum.Rred.Cursor.{IsSound, IsWell}
use aptum.Rred.Sizes.{needs, total}
use aptum.Rred.Lines.{lines_of, IsLine}
use aptum.Rred.AddChange.{add_change}
use aptum.Rred.Adding.{add_change-edit}

-- The calls of add_change for the edits of a patch, or of several, until one fails.
unfoldable pub add_changes : List Change → Option FileChanges → Option FileChanges
add_changes cs none = none
add_changes [] (some s) = some s
add_changes (c ∷ cs) (some s) = add_changes cs (add_change c s)

-- Each change against the text that those before it leave.
abbrev pub apply_each : List Change → List ℕ → List ℕ
apply_each [] text = text
apply_each (c ∷ cs) text = apply_each cs (apply_against_file (c ∷ []) (lines_of text))

-- Each change has the lines that it says, and lies within the text that those before it leave.
abbrev pub Fits : List Change → List ℕ → Type 0
Fits [] text = Unit
Fits (c ∷ cs) text =
    IsSound c
    × (c.del_cnt < 2 ^ 31)
    × (c.offset + c.del_cnt ≤ length (lines_of text))
    × Fits cs (apply_against_file (c ∷ []) (lines_of text))

-- The changes so far write the text for the input.
pub record Stage (input : List (List ℕ)) (s : FileChanges) (text : List ℕ) : Type 0 where
  pub well : IsWell s
  pub ready : is_empty s.after ≡ true → s.pos ≡ 0
  pub fit : needs (changes s) ≤ length input
  pub writes : apply_against_file (changes s) input ≡ text

module _ (input : List (List ℕ)) (lines : All IsLine input) (small : length input < 2 ^ 31) where
  -- One more change.
  pub add_change-Stage :
      (c : Change) (s : FileChanges) (text : List ℕ)
      → Stage input s text
      → IsSound c
      → c.del_cnt < 2 ^ 31
      → c.offset + c.del_cnt ≤ length (lines_of text)
      → (t : FileChanges) × (add_change c s ≡ some t)
        × Stage input t (apply_against_file (c ∷ []) (lines_of text))
  add_change-Stage c s text g sound few within =
      let (t, added, well, on_change, fit, f) =
        add_change-edit c s input sound few g.well (λ q. omega (arith, g.ready q)) lines small g.fit
          (omega (arith, within, ap (λ (x : List ℕ). length (lines_of x)) g.writes)) in
      (
        t,
        added,
        record {
          well = well;
          ready = λ q. cc;
          fit = fit;
          writes = f ∙ ap (λ (x : List ℕ). apply_against_file (c ∷ []) (lines_of x)) g.writes;
        },
      )

  pub no_changes-Stage : Stage input no_changes (flat input)
  unfolding changes from_begin needs apply_against_file total
  no_changes-Stage = record {
    well = record { pos_lem = refl; texts_before = tt; texts_after = tt };
    ready = λ _. refl;
    fit = omega arith;
    writes = refl;
  }

  add_changes-Stage :
      (cs : List Change) (s : FileChanges) (text : List ℕ)
      → Stage input s text
      → Fits cs text
      → (t : FileChanges) × (add_changes cs (some s) ≡ some t) × Stage input t (apply_each cs text)
  unfolding add_changes
  add_changes-Stage [] s text g fits = (s, refl, g)
  add_changes-Stage (c ∷ cs) s text g (sound, few, within, fits) =
      let (t, added, h) = add_change-Stage c s text g sound few within in
      let (u, all, k) =
        add_changes-Stage cs t (apply_against_file (c ∷ []) (lines_of text)) h fits in
      (u, ap (add_changes cs) added ∙ all, k)

-- For a file of fewer than 2 ^ 31 whole lines and changes that each lie within the text that those before it
-- leave, adding all changes to an empty list succeeds, and writing the merged changes once gives what
-- the changes give one after another.
pub add_changes-apply_each :
    (cs : List Change) (input : List (List ℕ))
    → All IsLine input
    → length input < 2 ^ 31
    → Fits cs (flat input)
    → (t : FileChanges) × (add_changes cs (some no_changes) ≡ some t)
      × (apply_against_file (changes t) input ≡ apply_each cs (flat input))
add_changes-apply_each cs input lines small fits =
    let (t, added, g) =
      add_changes-Stage input lines small cs no_changes (flat input)
        (no_changes-Stage input lines small) fits in
    (t, added, g.writes)
