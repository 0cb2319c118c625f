-- ===== src/Rred/Script.antt =====
-- Ed scripts in the format that write_diff of methods/rred.cc writes, and read_diff on them.
use aptum.Prelude.{
  ℕ, zero, suc, ◌+◌, ◌-◌, ◌^◌, ◌%◌, ◌≤◌, ◌<◌, ◌≡◌, refl, ap, ◌∙◌, Bool, true, false, List, [], ◌∷◌,
  ◌++◌, arith, Option, some, All, length, ltb, ◌==◌, map, sym,
}
use mathlib.Core.Path.{subst}
use aptum.Chars.{is_digit}
use aptum.Rred.Changes.{Change, FileChanges, changes, apply_against_file, flat, no_changes, newline}
use aptum.Rred.Lines.{lines_of, IsLine}
use aptum.Rred.Sequence.{Stage, no_changes-Stage, add_change-Stage, apply_each}
use aptum.Rred.AddChange.{add_change}
use aptum.Rred.ReadDiff.{
  Number, Reader, with_moves, read_line, read_lines, read_diff, range, range_end, changes_read,
  dispatch, reader_of, change_for,
}
use aptum.Rred.ReadLine.{IsShort, read_buffers-flat}
use aptum.Rred.Reading.{
  extended, first_line, marked_text, AllText, reading, ready_for, dot, read_text-first,
  first_line-IsSound, apply-same, read_line-text, read_rest,
}

-- Lines that replace the `del` lines behind the first `start`.
pub record Edit : Type 0 where
  pub start : ℕ
  pub del : ℕ
  pub text : List (List ℕ × Bool)
  pub command_moved : Bool
  pub dot_moved : Bool

abbrev change_of : ℕ → ℕ → List (List ℕ × Bool) → Change
change_of start del text = record {
  offset = start;
  del_cnt = del;
  add_cnt = length text;
  add = marked_text text;
}

abbrev pub edit_change : Edit → Change
edit_change e = change_of e.start e.del e.text

abbrev pub first_of : ℕ → ℕ → ℕ
first_of start zero = start
first_of start (suc n) = start + 1

abbrev pub range_text : (ℕ → List ℕ) → ℕ → ℕ → List ℕ → List ℕ
range_text digits start zero rest = digits start ++ rest
range_text digits start (suc zero) rest = digits (start + 1) ++ rest
range_text digits start (suc (suc n)) rest =
    digits (start + 1) ++ (b',' ∷ (digits (start + suc (suc n)) ++ rest))

abbrev pub letter : ℕ → List (List ℕ × Bool) → ℕ
letter del [] = b'd'
letter zero (l ∷ ls) = b'a'
letter (suc n) (l ∷ ls) = b'c'

abbrev pub text_script : Bool → List (List ℕ × Bool) → List (List ℕ × Bool) → List (List ℕ × Bool)
text_script b [] more = more
text_script b (l ∷ ls) more = l ∷ (ls ++ (dot b ∷ more))

-- The command of an edit and its text, ended by a dot.
abbrev pub script : (ℕ → List ℕ) → List Edit → List (List ℕ × Bool)
script digits [] = []
script digits (e ∷ es) =
    (range_text digits e.start e.del (letter e.del e.text ∷ newline ∷ []), e.command_moved)
    ∷ text_script e.dot_moved e.text (script digits es)

-- Each edit changes something, begins no later than the one before it, and lies within the text that those
-- before it leave.
abbrev pub Descends : ℕ → List Edit → List ℕ → Type 0
Descends last [] text = Unit
Descends last (e ∷ es) text =
    AllText e.text
    × (0 < e.del + length e.text)
    × (e.del < 2 ^ 31)
    × (e.start + e.del + length e.text + 1 < 2 ^ 63)
    × (e.start + e.del ≤ length (lines_of text))
    × (first_of e.start e.del ≤ last)
    × Descends e.start es (apply_against_file (edit_change e ∷ []) (lines_of text))

earlier :
    (es : List Edit) (last later : ℕ) (text : List ℕ)
    → last ≤ later
    → Descends last es text
    → Descends later es text
earlier [] last later text le fits = fits
earlier (e ∷ es) last later text le (h, some_change, few, bound, within, first, fits) =
    (h, some_change, few, bound, within, omega (arith, le, first), fits)

-- The number in front of a text that no digit begins.
abbrev pub Reads : Number → (ℕ → List ℕ) → Type 0
Reads number digits =
    (n : ℕ) (c : ℕ) (rest : List ℕ)
    → n < 2 ^ 63
    → is_digit c ≡ false
    → number (digits n ++ c ∷ rest) ≡ some (n, c ∷ rest)

abbrev last_of : ℕ → ℕ → ℕ
last_of start zero = start
last_of start (suc n) = start + suc n

range_end-other :
    (strtol : Number) (s c : ℕ) (rest : List ℕ)
    → (c == b',') ≡ false
    → range_end strtol s (c ∷ rest) ≡ some (s, s, c ∷ rest)
unfolding range_end
range_end-other strtol s c rest other = rw other refl

range_end-comma :
    (strtol : Number) (s e : ℕ) (m rest : List ℕ)
    → strtol m ≡ some (e, rest)
    → ltb e s ≡ false
    → range_end strtol s (b',' ∷ m) ≡ some (s, e, rest)
unfolding range_end
range_end-comma strtol s e m rest number le = rw (number, le) refl

range-number :
    (strtoul strtol : Number) (line m : List ℕ) (s : ℕ)
    → strtoul line ≡ some (s, m)
    → range strtoul strtol line ≡ range_end strtol s m
unfolding range
range-number strtoul strtol line m s number = rw (range, number) refl

module _ (strtoul strtol : Number) (digits : ℕ → List ℕ) (reads : Reads strtoul digits)
    (reads_end : Reads strtol digits) where
  range-range_text :
      (start del c : ℕ) (rest : List ℕ)
      → start + del + 1 < 2 ^ 63
      → is_digit c ≡ false
      → (c == b',') ≡ false
      → range strtoul strtol (range_text digits start del (c ∷ rest))
        ≡ some (first_of start del, last_of start del, c ∷ rest)
  range-range_text start zero c rest bound other no_comma =
      range-number strtoul strtol _ (c ∷ rest) start (reads start c rest (omega arith) other)
      ∙ range_end-other strtol start c rest no_comma
  range-range_text start (suc zero) c rest bound other no_comma =
      range-number strtoul strtol _ (c ∷ rest) (start + 1)
        (reads (start + 1) c rest (omega arith) other)
      ∙ range_end-other strtol (start + 1) c rest no_comma
  range-range_text start (suc (suc n)) c rest bound other no_comma =
      range-number strtoul strtol _ _ (start + 1) (reads (start + 1) b',' _ (omega arith) refl)
      ∙ range_end-comma strtol (start + 1) (start + suc (suc n)) _ (c ∷ rest)
          (reads_end (start + suc (suc n)) c rest (omega arith) other) (ground arith)

deleted :
    (start n : ℕ)
    → change_for (start + 1 - 1) (start + suc n - (start + 1) + 1) ≡ change_for start (suc n)
deleted start n =
    let at : start + 1 - 1 ≡ start = omega arith in
    let del : start + suc n - (start + 1) + 1 ≡ suc n = omega arith in rw (at, del) refl

-- What a command leaves to do, as its letter says.
abbrev commanded : ℕ → ℕ → List (List ℕ × Bool) → FileChanges → Option Reader
commanded start del [] s =
    reader_of true (change_for start del) (add_change (change_for start del) s)
commanded start del (l ∷ ls) s = some (reading (change_for start del) s)

dispatch-letter :
    (start del : ℕ) (text : List (List ℕ × Bool)) (c : Change) (s : FileChanges)
    → 0 < del + length text
    → first_of start del ≤ c.offset
    → dispatch
        (ready_for c s)
        (some (first_of start del, last_of start del, letter del text ∷ newline ∷ []))
      ≡ commanded start del text s
unfolding dispatch
dispatch-letter start zero [] c s some_change le = absurd (omega arith)
dispatch-letter start zero (l ∷ ls) c s some_change le =
    let in_order : ltb c.offset start ≡ false = ground arith in rw in_order refl
dispatch-letter start (suc n) [] c s some_change le =
    let in_order : ltb c.offset (start + 1) ≡ false = ground arith in
    let positive : (start + 1 == 0) ≡ false = ground arith in
    rw (in_order, positive)
      (ap (λ (d : Change). reader_of true d (add_change d s)) (deleted start n))
dispatch-letter start (suc n) (l ∷ ls) c s some_change le =
    let in_order : ltb c.offset (start + 1) ≡ false = ground arith in
    let positive : (start + 1 == 0) ≡ false = ground arith in
    rw (in_order, positive) (ap (λ (d : Change). some (reading d s)) (deleted start n))

letter_cases :
    (del : ℕ) (text : List (List ℕ × Bool))
    → (is_digit (letter del text) ≡ false) × ((letter del text == b',') ≡ false)
letter_cases del [] = (refl, refl)
letter_cases zero (l ∷ ls) = (refl, refl)
letter_cases (suc n) (l ∷ ls) = (refl, refl)

module _ (strtoul strtol : Number) (digits : ℕ → List ℕ) (reads : Reads strtoul digits)
    (reads_end : Reads strtol digits) (input : List (List ℕ)) (lines : All IsLine input)
    (small : length input < 2 ^ 31) where
  read_line-command :
      (start del : ℕ) (text : List (List ℕ × Bool)) (b : Bool) (c : Change) (s : FileChanges)
      → start + del + 1 < 2 ^ 63
      → 0 < del + length text
      → first_of start del ≤ c.offset
      → read_line strtoul strtol
          (range_text digits start del (letter del text ∷ newline ∷ []), b)
          (ready_for c s)
        ≡ commanded start del text s
  unfolding read_line
  read_line-command start del text b c s bound some_change le =
      let (other, no_comma) = letter_cases del text in
      ap (dispatch (ready_for c s)) (
        range-range_text strtoul strtol digits reads reads_end start del (letter del text)
          (newline ∷ []) bound other no_comma)
      ∙ dispatch-letter start del text c s some_change le

  -- The text of an edit behind its command.
  read_text_script :
      (start del : ℕ) (ls more : List (List ℕ × Bool)) (b : Bool) (s : FileChanges) (text : List ℕ)
      → AllText ls
      → Stage input s text
      → del < 2 ^ 31
      → start + del + length ls < 2 ^ 63
      → start + del ≤ length (lines_of text)
      → (d : Change) × (t : FileChanges) × (read_lines strtoul strtol
            (text_script b ls more)
            (commanded start del ls s)
          ≡ read_lines strtoul strtol more (some (ready_for d t)))
        × (start ≤ d.offset)
        × Stage input t (apply_against_file (change_of start del ls ∷ []) (lines_of text))
  unfolding read_lines flat
  read_text_script start del [] more b s text h g few bound within =
      let c = change_for start del in
      let (t, added, k) =
        add_change-Stage input lines small c s text g (record { text = refl; small = omega arith })
          few within in
      (
        c,
        t,
        ap (λ (o : Option FileChanges). read_lines strtoul strtol more (reader_of true c o)) added,
        omega arith,
        k,
      )
  read_text_script start del ((l, moved) ∷ ls) more b s text ((line, other, short), h) g few bound
        within =
      let c = change_for start del in
      let c1 = first_line c l in
      let place : (start + 0) % 2 ^ 64 ≡ start = omega arith in
      let (d, t, e, le, k) =
        read_rest strtoul strtol input lines small ls more b c1 s text h g
          (first_line-IsSound c l line) refl few (omega (arith, place)) (omega (arith, place)) in
      (
        d,
        t,
        ap (read_lines strtoul strtol (ls ++ (dot b ∷ more))) (
              read_line-text strtoul strtol input lines small l moved c s (line, other, short)
              ∙ read_text-first l moved c s refl)
            ∙ e,
        omega (arith, place, le),
        subst (λ (x : List ℕ). Stage input t x)
            (apply-same (extended c1 (marked_text ls)) (change_of start del ((l, moved) ∷ ls))
              (lines_of text) place refl refl)
            k,
      )

  read_edits :
      (es : List Edit) (c : Change) (s : FileChanges) (text : List ℕ)
      → Stage input s text
      → Descends c.offset es text
      → (r : Reader) × (read_lines strtoul strtol (script digits es) (some (ready_for c s))
          ≡ some r)
        × Stage input r.filechanges (apply_each (map edit_change es) text)
  unfolding read_lines
  read_edits [] c s text g fits = (ready_for c s, refl, g)
  read_edits (e ∷ es) c s text g (h, some_change, few, bound, within, le, fits) =
      let more = script digits es in
      let (d, t, read, after, k) =
        read_text_script e.start e.del e.text more e.dot_moved s text h g few (omega arith)
          within in
      let (r, all, m) =
        read_edits es d t (apply_against_file (edit_change e ∷ []) (lines_of text)) k
          (earlier es _ _ _ after fits) in
      (
        r,
        ap (read_lines strtoul strtol (text_script e.dot_moved e.text more)) (
              read_line-command e.start e.del e.text e.command_moved c s (omega arith) some_change
                le)
            ∙ read
            ∙ all,
        m,
      )

-- For a file of fewer than 2 ^ 31 whole lines, and an ed script (in the format of write_diff) of whole lines without
-- NUL bytes and shorter than 2 ^ 19 bytes, whose edits come from the end of the file to its start, lie within
-- the text that those before them leave, each change something, delete fewer than 2 ^ 31 lines and add
-- no line that is a dot alone: reading it succeeds, wherever add_easy puts the lines, and the changes read
-- write in one go what the edits give one after another. strtoul and strtol are to read back the
-- numbers below 2 ^ 63 that are printed, which those of the script are.
pub read_diff-script :
    (strtoul strtol : Number) (digits : ℕ → List ℕ) (moved : List (List ℕ) → Bool) (es : List Edit)
    (ls input : List (List ℕ))
    → Reads strtoul digits
    → Reads strtol digits
    → All IsLine ls
    → All IsShort ls
    → script digits es ≡ with_moves moved ls
    → All IsLine input
    → length input < 2 ^ 31
    → Descends (2 ^ 64 - 1) es (flat input)
    → (t : FileChanges) × (read_diff strtoul strtol moved (flat ls) no_changes ≡ some t)
      × (apply_against_file (changes t) input ≡ apply_each (map edit_change es) (flat input))
unfolding read_diff
read_diff-script strtoul strtol digits moved es ls input reads reads_end whole short marks lines
      small fits =
    let (r, all, g) =
      read_edits strtoul strtol digits reads reads_end input lines small es
        (change_for (2 ^ 64 - 1) 0) no_changes (flat input) (no_changes-Stage input lines small)
        fits in
    let start = some (ready_for (change_for (2 ^ 64 - 1) 0) no_changes) in
    (
      r.filechanges,
      ap (λ (b : List (List ℕ × Bool)). changes_read (read_lines strtoul strtol b start))
            (ap (with_moves moved) (read_buffers-flat ls whole short) ∙ sym marks)
          ∙ ap changes_read all,
      g.writes,
    )
