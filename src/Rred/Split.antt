-- ===== src/Rred/Split.antt =====
-- FileChanges::split of methods/rred.cc, and the rounds of go_to_change_for that need no move.
use aptum.Prelude.{
  ℕ, ◌+◌, ◌-◌, ◌≤◌, ◌<◌, ◌≡◌, refl, ap, ◌∙◌, inl, inr, false, List, [], ◌∷◌, ◌++◌, Option, some,
  arith, ltb, leb, ◌==◌, length, length-append, take, Bool-cases,
}
use aptum.Rred.Changes.{
  Change, FileChanges, right, right_from, insert, split, split_from, then_right, seek_round, done,
  changes, from_begin,
}
use aptum.Rred.Texts.{IsText, skip_lines_lem}
use aptum.Rred.Meaning.{SameEffect-refl, SameEffect-from_begin, effect_split}
use aptum.Rred.Sizes.{needs, total, needs-from_begin}
use aptum.Rred.Cursor.{cursor, IsSound, IsWell, Finds, insert_inside}

take_front :
    (front rest : List ℕ) → take (length (front ++ rest) - length rest) (front ++ rest) ≡ front
take_front front rest =
    let e : length (front ++ rest) - length rest ≡ length front =
      omega (arith, length-append front rest) in
    rw e (prefix front)
  where
    prefix : (front : List ℕ) → take (length front) (front ++ rest) ≡ front
    prefix [] = refl
    prefix (c ∷ front) = ap (λ (t : List ℕ). c ∷ t) (prefix front)

-- The two parts of a change that is split behind k of its added lines.
abbrev first_part : Change → ℕ → List ℕ → Change
first_part w k front = record w { add_cnt = k; add = front }

abbrev second_part : Change → ℕ → List ℕ → Change
second_part w k rest = record { offset = 0; del_cnt = 0; add_cnt = w.add_cnt - k; add = rest }

split_lem :
    (b : List Change) (w : Change) (a : List Change) (p o : ℕ)
    → IsSound w
    → w.offset < o
    → o < w.offset + w.add_cnt
    → (front : List ℕ) × (rest : List ℕ) × (split o (cursor b (w ∷ a) p)
        ≡ some (
            cursor b (first_part w (o - w.offset) front ∷ second_part w (o - w.offset) rest ∷ a) p))
      × (w.add ≡ front ++ rest)
      × IsText (o - w.offset) front
      × IsText (w.add_cnt - (o - w.offset)) rest
unfolding split split_from
split_lem b w a p o h lo hi =
    let k = o - w.offset in
    let cut = skip_lines_lem 0 0 w.add_cnt w.add k h.text h.small (omega arith) in
    let below : leb o w.offset ≡ false = ground arith in
    let above : leb (w.offset + w.add_cnt) o ≡ false = ground arith in
    let first : take (length w.add - length cut.rest) w.add ≡ cut.front =
      ap (λ (t : List ℕ). take (length t - length cut.rest) t) cut.cut
      ∙ take_front cut.front cut.rest in
    (
      cut.front,
      cut.rest,
      rw (below, above, cut.result) (rw first),
      cut.cut,
      cut.front_text,
      cut.rest_text,
    )

split_right :
    (b : List Change) (w : Change) (a : List Change) (p line : ℕ)
    → IsWell (cursor b (w ∷ a) p)
    → p + w.offset < line
    → line < p + w.offset + w.add_cnt
    → Finds line (cursor b (w ∷ a) p) (then_right (split (line - p) (cursor b (w ∷ a) p)))
split_right b w a p line h lo hi =
    let sound = h.texts_after.0 in
    let (front, rest, e, cut, front_text, rest_text) =
      split_lem b w a p (line - p) sound (omega arith) (omega arith) in
    let k = line - p - w.offset in
    (
      cursor (first_part w k front ∷ b) (second_part w k rest ∷ a) (p + (w.offset + k)),
      ap then_right e ∙ (unfold then_right right right_from in refl),
      record {
        here = second_part w k rest;
        behind = a;
        at = refl;
        line_lem = omega arith;
        well = record {
          pos_lem = unfold total in ap (λ (t : ℕ). t + (w.offset + k)) h.pos_lem;
          texts_before =
              (record { text = front_text; small = omega (arith, sound.small) }, h.texts_before);
          texts_after =
              (record { text = rest_text; small = omega (arith, sound.small) }, h.texts_after.1);
        };
        same =
            unfold changes from_begin in
            SameEffect-from_begin b (effect_split w front rest k (w.add_cnt - k) a cut);
        room = λ n fits inside.
            unfold changes from_begin needs in
            omega (
              arith,
              fits,
              needs-from_begin b (w ∷ a),
              needs-from_begin b (first_part w k front ∷ second_part w k rest ∷ a),
            );
      },
    )

-- A line within the current change: the next round finds it.
pub seek_inside :
    (b : List Change) (w : Change) (a : List Change) (p line : ℕ)
    → IsWell (cursor b (w ∷ a) p)
    → p ≤ line
    → line < p + w.offset + w.add_cnt
    → (r : Option FileChanges) × (seek_round (w ∷ a) line (cursor b (w ∷ a) p) ≡ done r)
      × Finds line (cursor b (w ∷ a) p) r
unfolding seek_round
seek_inside b w a p line h le lt =
    let s = cursor b (w ∷ a) p in
    let ahead : ltb line p ≡ false = ground arith in
    let within : leb (p + w.offset + w.add_cnt) line ≡ false = ground arith in
    elim (Bool-cases (ltb line (p + w.offset))) [
      | inl e ↦ (
        insert (line - p) s,
        rw (ahead, within, e),
        insert_inside b w a p line h le (ground arith),
      )
      | inr e ↦ elim (Bool-cases (line == p + w.offset)) [
        | inl q ↦ (
          some s,
          rw (ahead, within, e, q),
          (
            s,
            refl,
            record {
              here = w;
              behind = a;
              at = refl;
              line_lem = ground arith;
              well = h;
              same = SameEffect-refl (changes s);
              room = λ n fits inside. fits;
            },
          ),
        )
        | inr q ↦ (
          then_right (split (line - p) s),
          rw (ahead, within, e, q),
          split_right b w a p line h (ground arith) (omega arith),
        )
      ]
    ]
