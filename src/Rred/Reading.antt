-- ===== src/Rred/Reading.antt =====
-- read_diff of methods/rred.cc on the text of an edit.
use aptum.Prelude.{
  ℕ, zero, suc, ◌+◌, ◌^◌, ◌%◌, ◌≤◌, ◌<◌, ◌≡◌, refl, sym, ap, ◌∙◌, Bool, true, false, List, [], ◌∷◌,
  ◌++◌, arith, Option, some, append_assoc, append-nil, take, drop, All, length, length-append, map,
  ◌==◌,
}
use mathlib.Core.Path.{subst}
use aptum.Chars.{codes}
use aptum.Strings.Affixes.{same_text}
use aptum.Rred.Changes.{Change, FileChanges, changes, apply_against_file, flat, newline}
use aptum.Rred.Texts.{IsText}
use aptum.Rred.Cursor.{IsSound}
use aptum.Rred.Lines.{out, lines_of, lines_of-flat, lines_of-IsText, flat-lines_of, IsLine}
use aptum.Rred.Meaning.{flat-append}
use aptum.Rred.Deleting.{Lines, length-take}
use aptum.Rred.Edits.{edit_lines, edit_lines-append, out-IsLine}
use aptum.Rred.Adding.{apply-one, lines_of-apply, All-from_begin}
use aptum.Rred.Sequence.{Stage, add_change-Stage}
use aptum.Rred.AddChange.{add_change}
use aptum.Rred.ReadLine.{IsShort}
use aptum.Rred.ReadDiff.{Number, Reader, read_line, read_lines, read_text, reader_of}

abbrev pub extended : Change → List ℕ → Change
extended c more = record c { add = c.add ++ more }

IsText-line : (n : ℕ) (s l : List ℕ) → IsText n s → IsLine l → IsText (suc n) (s ++ l)
IsText-line zero s l e (t, q, no_nl) = (t, [], rw e q, no_nl, refl)
IsText-line (suc n) s l (t, r, e, no_nl, k) h = (
  t,
  r ++ l,
  ap (λ (x : List ℕ). x ++ l) e ∙ append_assoc t (newline ∷ r) l,
  no_nl,
  IsText-line n r l k h,
)

-- What one change writes for whole lines, line by line.
lines_of-apply_one :
    (c : Change) (o : Lines)
    → IsSound c
    → All IsLine o
    → c.del_cnt < 2 ^ 31
    → lines_of (apply_against_file (c ∷ []) o) ≡ edit_lines c.offset c.del_cnt (lines_of c.add) o
lines_of-apply_one c o h lines few =
    ap lines_of (apply-one c o few)
    ∙ lines_of-flat (edit_lines c.offset c.del_cnt (lines_of c.add) o)
        (unfold out in out-IsLine (c ∷ []) o (h, tt) lines)

flat-three : (x y z : Lines) → flat (x ++ (y ++ z)) ≡ flat x ++ (flat y ++ flat z)
flat-three x y z = flat-append x (y ++ z) ∙ ap (λ (t : List ℕ). flat x ++ t) (flat-append y z)

-- An edit, and more text behind its own.
split_edit :
    (c d : Change) (o : Lines)
    → IsSound c
    → c.offset ≤ length o
    → c.del_cnt < 2 ^ 31
    → d.offset ≡ c.offset + c.add_cnt
    → d.del_cnt ≡ 0
    → apply_against_file (d ∷ []) (edit_lines c.offset c.del_cnt (lines_of c.add) o)
      ≡ apply_against_file (extended c d.add ∷ []) o
split_edit c d o h le few off no_del =
    let x = take c.offset o in
    let y = lines_of c.add in
    let r = drop c.del_cnt (drop c.offset o) in
    let dl = lines_of d.add in
    let place : d.offset ≡ length x + (length y + 0) =
      omega (arith, off, length-take c.offset o le, (lines_of-IsText c.add_cnt c.add h.text).0) in
    apply-one d (x ++ (y ++ r)) (omega (arith, no_del))
    ∙ ap (λ (m : ℕ). flat (edit_lines m d.del_cnt dl (x ++ (y ++ r)))) place
    ∙ ap (λ (m : ℕ). flat (edit_lines (length x + (length y + 0)) m dl (x ++ (y ++ r)))) no_del
    ∙ ap flat (
        edit_lines-append x (y ++ r) dl (length y + 0) 0
        ∙ ap (λ (t : Lines). x ++ t) (edit_lines-append y r dl 0 0))
    ∙ flat-three x y (dl ++ r)
    ∙ ap (λ (t : List ℕ). flat x ++ t)
        (ap (λ (t : List ℕ). t ++ flat (dl ++ r)) (flat-lines_of c.add)
          ∙ ap (λ (t : List ℕ). c.add ++ t)
              (flat-append dl r ∙ ap (λ (t : List ℕ). t ++ flat r) (flat-lines_of d.add))
          ∙ sym (append_assoc c.add d.add (flat r))
          ∙ ap (λ (t : List ℕ). t ++ flat r) (sym (flat-lines_of (c.add ++ d.add))))
    ∙ sym (flat-three x (lines_of (c.add ++ d.add)) r)
    ∙ sym (apply-one (extended c d.add) o few)

-- Text that is read behind a change, on lines that the buffer holds, and the dot that ends it.
abbrev pub IsTextLine : List ℕ → Type 0
IsTextLine l = IsLine l × (same_text l (codes ".\n") ≡ false) × IsShort l

abbrev pub marked_text : List (List ℕ × Bool) → List ℕ
marked_text ls = flat (map (λ (l : List ℕ × Bool). l.0) ls)

abbrev pub AllText : List (List ℕ × Bool) → Type 0
AllText ls = All (λ (l : List ℕ × Bool). IsTextLine l.0) ls

abbrev pub reading : Change → FileChanges → Reader
reading c s = record { cmdwanted = false; ch = c; filechanges = s }

abbrev pub ready_for : Change → FileChanges → Reader
ready_for c s = record { cmdwanted = true; ch = c; filechanges = s }

abbrev pub dot : Bool → List ℕ × Bool
dot moved = (codes ".\n", moved)

pub apply-same :
    (c d : Change) (o : Lines)
    → c.offset ≡ d.offset
    → c.del_cnt ≡ d.del_cnt
    → c.add ≡ d.add
    → apply_against_file (c ∷ []) o ≡ apply_against_file (d ∷ []) o
unfolding apply_against_file
apply-same c d o e f g = rw (e, f, g) refl

abbrev with_line : Change → List ℕ → Change
with_line c l = record c { add_cnt = c.add_cnt + 1; add = c.add ++ l }

abbrev moved_line : Change → List ℕ → Change
moved_line c l = record {
  offset = (c.offset + c.add_cnt) % 2 ^ 64;
  del_cnt = 0;
  add_cnt = 1;
  add = l;
}

abbrev pub first_line : Change → List ℕ → Change
first_line c l = record c { offset = (c.offset + c.add_cnt) % 2 ^ 64; add_cnt = 1; add = l }

read_text-behind :
    (l : List ℕ) (c : Change) (s : FileChanges)
    → (c.add_cnt == 0) ≡ false
    → read_text l false (reading c s) ≡ some (reading (with_line c l) s)
unfolding read_text
read_text-behind l c s full = rw full refl

read_text-apart :
    (l : List ℕ) (c : Change) (s : FileChanges)
    → (c.add_cnt == 0) ≡ false
    → read_text l true (reading c s) ≡ reader_of false (moved_line c l) (add_change c s)
unfolding read_text
read_text-apart l c s full = rw full refl

pub read_text-first :
    (l : List ℕ) (moved : Bool) (c : Change) (s : FileChanges)
    → (c.add_cnt == 0) ≡ true
    → read_text l moved (reading c s) ≡ some (reading (first_line c l) s)
unfolding read_text
read_text-first l moved c s bare = rw bare refl

with_line-IsSound :
    (c : Change) (l : List ℕ)
    → IsSound c
    → IsLine l
    → c.add_cnt + 1 < 2 ^ 64
    → IsSound (with_line c l)
with_line-IsSound c l h line small = record {
  text =
      subst (λ (n : ℕ). IsText n (c.add ++ l)) {x = suc c.add_cnt} (omega arith)
        (IsText-line c.add_cnt c.add l h.text line);
  small = small;
}

moved_line-IsSound : (c : Change) (l : List ℕ) → IsLine l → IsSound (moved_line c l)
moved_line-IsSound c l line = record { text = IsText-line 0 [] l refl line; small = omega arith }

pub first_line-IsSound : (c : Change) (l : List ℕ) → IsLine l → IsSound (first_line c l)
first_line-IsSound c l line = record { text = IsText-line 0 [] l refl line; small = omega arith }

length-edit_lines :
    (c : Change) (o : Lines)
    → IsSound c
    → c.offset ≤ length o
    → c.offset + c.add_cnt ≤ length (edit_lines c.offset c.del_cnt (lines_of c.add) o)
length-edit_lines c o h le = omega (
  arith,
  length-take c.offset o le,
  (lines_of-IsText c.add_cnt c.add h.text).0,
  length-append (take c.offset o) (lines_of c.add ++ drop c.del_cnt (drop c.offset o)),
  length-append (lines_of c.add) (drop c.del_cnt (drop c.offset o)),
)

module _ (strtoul strtol : Number) (input : List (List ℕ)) (lines : All IsLine input)
    (small : length input < 2 ^ 31) where
  Stage-lines : (s : FileChanges) (text : List ℕ) → Stage input s text → All IsLine (lines_of text)
  unfolding changes
  Stage-lines s text g =
      let sound = All-from_begin s.before s.after g.well.texts_before g.well.texts_after in
      subst (λ (o : Lines). All IsLine o)
        (sym (lines_of-apply (changes s) input sound lines g.fit small) ∙ ap lines_of g.writes)
        (out-IsLine (changes s) input sound lines)

  pub read_line-text :
      (l : List ℕ) (moved : Bool) (c : Change) (s : FileChanges)
      → IsTextLine l
      → read_line strtoul strtol (l, moved) (reading c s) ≡ read_text l moved (reading c s)
  unfolding read_line
  read_line-text l moved c s (line, other, short) = rw other refl

  pub read_rest :
      (ls more : List (List ℕ × Bool)) (b : Bool) (c : Change) (s : FileChanges) (text : List ℕ)
      → AllText ls
      → Stage input s text
      → IsSound c
      → (c.add_cnt == 0) ≡ false
      → c.del_cnt < 2 ^ 31
      → c.offset + c.del_cnt ≤ length (lines_of text)
      → c.offset + c.add_cnt + length ls < 2 ^ 64
      → (d : Change) × (t : FileChanges) × (read_lines strtoul strtol
            (ls ++ (dot b ∷ more))
            (some (reading c s))
          ≡ read_lines strtoul strtol more (some (ready_for d t)))
        × (c.offset ≤ d.offset)
        × Stage input t (apply_against_file (extended c (marked_text ls) ∷ []) (lines_of text))
  unfolding read_lines read_line flat
  read_rest [] more b c s text h g sound full few within bound =
      let (t, added, k) = add_change-Stage input lines small c s text g sound few within in
      (
        c,
        t,
        ap (λ (o : Option FileChanges). read_lines strtoul strtol more (reader_of true c o)) added,
        omega arith,
        subst (λ (x : List ℕ). Stage input t x)
            (apply-same c (extended c []) (lines_of text) refl refl (sym (append-nil c.add))) k,
      )
  read_rest ((l, false) ∷ ls) more b c s text ((line, other, short), h) g sound full few within
        bound =
      let c1 = with_line c l in
      let (d, t, e, le, k) =
        read_rest ls more b c1 s text h g (with_line-IsSound c l sound line (omega arith))
          (ground arith) few within (omega arith) in
      (
        d,
        t,
        ap (read_lines strtoul strtol (ls ++ (dot b ∷ more)))
              (read_line-text l false c s (line, other, short) ∙ read_text-behind l c s full)
            ∙ e,
        le,
        subst (λ (x : List ℕ). Stage input t x)
            (apply-same (extended c1 (marked_text ls)) (extended c (l ++ marked_text ls))
              (lines_of text) refl refl (append_assoc c.add l (marked_text ls)))
            k,
      )
  read_rest ((l, true) ∷ ls) more b c s text ((line, other, short), h) g sound full few within
        bound =
      let (s1, added, g1) = add_change-Stage input lines small c s text g sound few within in
      let c1 = moved_line c l in
      let text1 = apply_against_file (c ∷ []) (lines_of text) in
      let o = lines_of text in
      let after : lines_of text1 ≡ edit_lines c.offset c.del_cnt (lines_of c.add) o =
        lines_of-apply_one c o sound (Stage-lines s text g) few in
      let place : (c.offset + c.add_cnt) % 2 ^ 64 ≡ c.offset + c.add_cnt = omega arith in
      let (d, t, e, le, k) =
        read_rest ls more b c1 s1 text1 h g1 (moved_line-IsSound c l line) refl (omega arith)
          (omega (arith, place, ap length after, length-edit_lines c o sound (omega arith)))
          (omega (arith, place)) in
      (
        d,
        t,
        ap (read_lines strtoul strtol (ls ++ (dot b ∷ more))) (
              read_line-text l true c s (line, other, short)
              ∙ read_text-apart l c s full
              ∙ ap (reader_of false c1) added)
            ∙ e,
        omega (arith, place, le),
        subst (λ (x : List ℕ). Stage input t x)
            (ap (apply_against_file (extended c1 (marked_text ls) ∷ [])) after
              ∙ split_edit c (extended c1 (marked_text ls)) o sound (omega arith) few place refl)
            k,
      )
