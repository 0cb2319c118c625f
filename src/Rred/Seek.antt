-- ===== src/Rred/Seek.antt =====
-- go_to_change_for of methods/rred.cc finds or makes the change at a line.
use aptum.Prelude.{
  ℕ, zero, suc, ◌+◌, ◌-◌, ◌≤◌, ◌<◌, ◌≡◌, refl, ap, inl, inr, true, false, List, [], ◌∷◌, Option,
  some, arith, tests, ltb, lt→ltb, is_empty, leb, length, Bool-cases,
}
use aptum.Rred.Changes.{
  Change, FileChanges, left, left_from, right, right_from, seek_round, again, go_to_change_for,
  changes, from_begin,
}
use aptum.Rred.Sizes.{total}
use aptum.Rred.Cursor.{cursor, IsWell, Found, Finds, insert_end}
use aptum.Rred.Split.{seek_inside}

go_inside :
    (fuel : ℕ) (b : List Change) (w : Change) (a : List Change) (p line : ℕ)
    → IsWell (cursor b (w ∷ a) p)
    → p ≤ line
    → line < p + w.offset + w.add_cnt
    → 0 < fuel
    → Finds line (cursor b (w ∷ a) p) (go_to_change_for fuel line (cursor b (w ∷ a) p))
unfolding go_to_change_for
go_inside zero b w a p line h le lt f = elim f [ ]
go_inside (suc fuel) b w a p line h le lt f =
    let (r, e, found) = seek_inside b w a p line h le lt in rw (e, go_to_change_for) found

seek_right :
    (b : List Change) (w : Change) (a : List Change) (p line : ℕ)
    → p ≤ line
    → p + w.offset + w.add_cnt ≤ line
    → seek_round (w ∷ a) line (cursor b (w ∷ a) p)
      ≡ again (some (cursor (w ∷ b) a (p + (w.offset + w.add_cnt))))
unfolding seek_round right right_from
seek_right b w a p line le behind =
    let ahead : ltb line p ≡ false = ground arith in
    let passed : leb (p + w.offset + w.add_cnt) line ≡ true = ground arith in rw (ahead, passed)

seek_left :
    (b : List Change) (c w : Change) (a : List Change) (p line : ℕ)
    → line < p
    → seek_round (w ∷ a) line (cursor (c ∷ b) (w ∷ a) p)
      ≡ again (some (cursor b (c ∷ w ∷ a) (p - (c.offset + c.add_cnt))))
unfolding seek_round left left_from
seek_left b c w a p line lt = rw (lt→ltb line p lt)

-- Moving the cursor changes neither the list nor what holds of it.
move-Finds :
    (line : ℕ) (c : Change) (b cs : List Change) (p q : ℕ) {r : Option FileChanges}
    → Finds line (cursor b (c ∷ cs) p) r
    → Finds line (cursor (c ∷ b) cs q) r
unfolding changes from_begin
move-Finds line c b cs p q (t, e, f) = (
  t,
  e,
  record {
    here = f.here;
    behind = f.behind;
    at = f.at;
    line_lem = f.line_lem;
    well = f.well;
    same = f.same;
    room = f.room;
  },
)

move-Finds_left :
    (line : ℕ) (c : Change) (b cs : List Change) (p q : ℕ) {r : Option FileChanges}
    → Finds line (cursor (c ∷ b) cs p) r
    → Finds line (cursor b (c ∷ cs) q) r
unfolding changes from_begin
move-Finds_left line c b cs p q (t, e, f) = (
  t,
  e,
  record {
    here = f.here;
    behind = f.behind;
    at = f.at;
    line_lem = f.line_lem;
    well = f.well;
    same = f.same;
    room = f.room;
  },
)

move-IsWell :
    (b : List Change) (w : Change) (a : List Change) (p : ℕ)
    → IsWell (cursor b (w ∷ a) p)
    → IsWell (cursor (w ∷ b) a (p + (w.offset + w.add_cnt)))
unfolding total
move-IsWell b w a p h = record {
  pos_lem = ap (λ (t : ℕ). t + (w.offset + w.add_cnt)) h.pos_lem;
  texts_before = (h.texts_after.0, h.texts_before);
  texts_after = h.texts_after.1;
}

move-IsWell_left :
    (b : List Change) (c : Change) (cs : List Change) (p : ℕ)
    → IsWell (cursor (c ∷ b) cs p)
    → IsWell (cursor b (c ∷ cs) (p - (c.offset + c.add_cnt)))
unfolding total
move-IsWell_left b c cs p h = record {
  pos_lem = omega (arith, h.pos_lem);
  texts_before = h.texts_before.1;
  texts_after = (h.texts_before.0, h.texts_after);
}

go_right :
    (fuel : ℕ) (b cs : List Change) (p line : ℕ)
    → IsWell (cursor b cs p)
    → p ≤ line
    → length cs < fuel
    → Finds line (cursor b cs p) (go_to_change_for fuel line (cursor b cs p))
unfolding go_to_change_for
go_right zero b cs p line h le f = elim f [ ]
go_right (suc fuel) b [] p line h le f = unfold seek_round in insert_end b p line h le
go_right (suc fuel) b (w ∷ a) p line h le f =
    let q = p + (w.offset + w.add_cnt) in
    elim (Bool-cases (leb (p + w.offset + w.add_cnt) line)) [
      | inl e ↦
          rw (seek_right b w a p line le (omega (tests, e)), go_to_change_for)
            (move-Finds_left line w b a q p (
              go_right fuel (w ∷ b) a q line (move-IsWell b w a p h) (omega (tests, e))
                (omega arith)))
      | inr e ↦ go_inside (suc fuel) b w a p line h le (ground arith) (omega arith)
    ]

go_left :
    (fuel : ℕ) (b : List Change) (w : Change) (a : List Change) (p line : ℕ)
    → IsWell (cursor b (w ∷ a) p)
    → line < p
    → length b < fuel
    → Finds line (cursor b (w ∷ a) p) (go_to_change_for fuel line (cursor b (w ∷ a) p))
unfolding go_to_change_for
go_left zero b w a p line h lt f = elim f [ ]
go_left (suc fuel) [] w a p line h lt f = unfold total in absurd (omega (arith, h.pos_lem))
go_left (suc fuel) (c ∷ b) w a p line h lt f =
    let q = p - (c.offset + c.add_cnt) in
    let well = move-IsWell_left b c (w ∷ a) p h in
    elim (Bool-cases (ltb line q)) [
      | inl e ↦
          rw (seek_left b c w a p line lt, go_to_change_for)
            (move-Finds line c b (w ∷ a) q p
              (go_left fuel b c (w ∷ a) q line well (omega (tests, e)) (omega arith)))
      | inr e ↦
          rw (seek_left b c w a p line lt, go_to_change_for)
            (move-Finds line c b (w ∷ a) q p
              (go_inside fuel b c (w ∷ a) q line well (ground arith) (omega arith) (omega arith)))
    ]

go_from :
    (fuel : ℕ) (b cs : List Change) (p line : ℕ)
    → IsWell (cursor b cs p)
    → (is_empty cs ≡ true → p ≤ line)
    → length b + length cs < fuel
    → Finds line (cursor b cs p) (go_to_change_for fuel line (cursor b cs p))
go_from fuel b [] p line h ready f = go_right fuel b [] p line h (ready refl) (omega arith)
go_from fuel b (w ∷ a) p line h ready f = elim (Bool-cases (ltb line p)) [
  | inl e ↦ go_left fuel b w a p line h (omega (tests, e)) (omega arith)
  | inr e ↦ go_right fuel b (w ∷ a) p line h (ground arith) (omega arith)
]

-- On a well-formed list, with the cursor on a change or not behind the line, go_to_change_for ends
-- within as many rounds as there are changes and one, succeeds, and leaves the cursor on a change whose
-- edit begins at the line; the list stays well formed and does to every file what it did before.
pub go_to_change_for-Found :
    (line : ℕ) (s : FileChanges)
    → IsWell s
    → (is_empty s.after ≡ true → s.pos ≤ line)
    → (fuel : ℕ) → length s.before + length s.after < fuel
    → (t : FileChanges) × (go_to_change_for fuel line s ≡ some t) × Found line s t
go_to_change_for-Found line s h ready fuel f = go_from fuel s.before s.after s.pos line h ready f
