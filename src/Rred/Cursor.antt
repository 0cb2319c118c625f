-- ===== src/Rred/Cursor.antt =====
-- The cursor of FileChanges in methods/rred.cc: its well-formedness, and `insert`.
use aptum.Prelude.{
  ℕ, ◌+◌, ◌-◌, ◌^◌, ◌≤◌, ◌<◌, ◌≡◌, refl, false, List, [], ◌∷◌, Option, some, arith, All, ltb,
}
use aptum.Rred.Changes.{Change, FileChanges, change_at, insert, insert_from, changes}
use aptum.Rred.Texts.{IsText}
use aptum.Rred.Sizes.{
  needs, all_del, all_add, total, needs-from_begin, all_del-from_begin, all_add-from_begin,
  needs-total,
}
use aptum.Rred.Meaning.{SameEffect, SameEffect-from_begin, effect_end, effect_insert}

abbrev pub cursor : List Change → List Change → ℕ → FileChanges
cursor b cs p = record { before = b; after = cs; pos = p }

-- The text of a change has the lines that it is said to have.
pub record IsSound (c : Change) : Type 0 where
  pub text : IsText c.add_cnt c.add
  pub small : c.add_cnt < 2 ^ 64

pub record IsWell (s : FileChanges) : Type 0 where
  pub pos_lem : s.pos ≡ total s.before
  pub texts_before : All IsSound s.before
  pub texts_after : All IsSound s.after

-- The cursor stands on a change that begins its edit at the line, and no file is changed otherwise. No more
-- lines are needed than the input has, where the line lies in the output.
pub record Found (line : ℕ) (s t : FileChanges) : Type 0 where
  pub here : Change
  pub behind : List Change
  pub at : t.after ≡ here ∷ behind
  pub line_lem : t.pos + here.offset ≡ line
  pub well : IsWell t
  pub same : SameEffect (changes t) (changes s)
  pub room :
      (n : ℕ)
      → needs (changes s) ≤ n
      → line + all_del (changes s) ≤ n + all_add (changes s)
      → needs (changes t) ≤ n

abbrev pub Finds : ℕ → FileChanges → Option FileChanges → Type 0
Finds line s r = (t : FileChanges) × (r ≡ some t) × Found line s t

at_start : (o : ℕ) → IsSound (change_at o)
at_start o = record { text = refl; small = omega arith }

pub insert_end :
    (b : List Change) (p line : ℕ)
    → IsWell (cursor b [] p)
    → p ≤ line
    → Finds line (cursor b [] p) (insert (line - p) (cursor b [] p))
unfolding insert insert_from changes
insert_end b p line h le = (
  cursor b (change_at (line - p) ∷ []) p,
  refl,
  record {
    here = change_at (line - p);
    behind = [];
    at = refl;
    line_lem = omega arith;
    well = record {
      pos_lem = h.pos_lem;
      texts_before = h.texts_before;
      texts_after = (at_start _, tt);
    };
    same = SameEffect-from_begin b (effect_end (line - p));
    room = λ n fits inside.
        unfold needs all_del all_add in
        omega (
          arith,
          fits,
          inside,
          h.pos_lem,
          needs-total b,
          needs-from_begin b [],
          all_del-from_begin b [],
          all_add-from_begin b [],
          needs-from_begin b (change_at (line - p) ∷ []),
        );
  },
)

pub insert_inside :
    (b : List Change) (w : Change) (a : List Change) (p line : ℕ)
    → IsWell (cursor b (w ∷ a) p)
    → p ≤ line
    → line < p + w.offset
    → Finds line (cursor b (w ∷ a) p) (insert (line - p) (cursor b (w ∷ a) p))
unfolding insert insert_from changes
insert_inside b w a p line h le lt =
    let w' : Change = record w { offset = w.offset - (line - p) } in
    let small : ltb w.offset (line - p) ≡ false = ground arith in
    (
      cursor b (change_at (line - p) ∷ w' ∷ a) p,
      rw small,
      record {
        here = change_at (line - p);
        behind = w' ∷ a;
        at = refl;
        line_lem = omega arith;
        well = record {
          pos_lem = h.pos_lem;
          texts_before = h.texts_before;
          texts_after = (
            at_start _,
            (
              record { text = h.texts_after.0.text; small = h.texts_after.0.small },
              h.texts_after.1,
            ),
          );
        };
        same = SameEffect-from_begin b (effect_insert (line - p) w a (omega arith));
        room = λ n fits inside.
            unfold needs in
            omega (
              arith,
              fits,
              needs-from_begin b (w ∷ a),
              needs-from_begin b (change_at (line - p) ∷ w' ∷ a),
            );
      },
    )
