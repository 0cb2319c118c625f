-- ===== src/Rred/ScriptTests.antt =====
-- An ed script that read_diff of methods/rred.cc reads, with numbers in decimal.
use aptum.Prelude.{
  ℕ, zero, suc, ◌+◌, ◌-◌, ◌*◌, ◌/◌, inl, inr, Bool-cases, ◌^◌, ◌%◌, ◌<◌, ◌≡◌, refl, ap, ◌∙◌, Bool,
  true, false, List, [], ◌∷◌, ◌++◌, arith, none, some, ltb, map, if◌then◌else◌, if-elim, All,
  length, ◌||◌, ◌==◌, ◌≤◌,
}
use aptum.Chars.{c_string, codes, deref, is_digit}
use aptum.Strings.Affixes.{same_text}
use aptum.Rred.Changes.{
  Change, FileChanges, changes, apply_against_file, flat, no_changes, skip_count, from_begin,
}
use aptum.Rred.Texts.{has_newline}
use aptum.Rred.Lines.{IsLine, lines_of}
use aptum.Rred.Sequence.{apply_each}
use aptum.Rred.ReadLine.{IsShort, has_nul, read_buffers, cut_lines}
use aptum.Rred.ReadDiff.{
  with_moves, Number, read_diff, read_lines, read_line, range, range_end, dispatch,
}
use aptum.Rred.Script.{Edit, edit_change, script, Descends, Reads, read_diff-script}
use aptum.Rred.WriteDiff.{write_diff, input_lines, write_changes, write_edit}
use aptum.Rred.Sizes.{needs, all_add}
use aptum.Rred.Scripted.{AreDigits}
use aptum.Rred.Written.{all_written}
use aptum.Rred.Backwards.{IsWritable}
use aptum.Rred.RoundTrip.{read_diff-write_diff}
use aptum.Rred.Tests.{edit, edit-IsSound, later, old_lines, old_lines-IsLine}

unfoldable digits_from : ℕ → ℕ → List ℕ → List ℕ
digits_from zero n acc = acc
digits_from (suc f) n acc =
    let more = digits_from f (n / 10) ((48 + n % 10) ∷ acc) in
    if ltb n 10 then (48 + n) ∷ acc else more

abbrev decimal : ℕ → List ℕ
decimal n = digits_from (suc n) n []

unfoldable read_digits : ℕ → List ℕ → ℕ × List ℕ
read_digits v [] = (v, [])
read_digits v (c ∷ s) =
    let rest = read_digits (v * 10 + (c - 48)) s in if is_digit c then rest else (v, c ∷ s)

abbrev number : Number
number s = if is_digit (deref s) then some (read_digits 0 s) else none

digits_from-low :
    (f n : ℕ) (acc : List ℕ) → ltb n 10 ≡ true → digits_from (suc f) n acc ≡ (48 + n) ∷ acc
unfolding digits_from
digits_from-low f n acc e = rw e refl

digits_from-high :
    (f n : ℕ) (acc : List ℕ)
    → ltb n 10 ≡ false
    → digits_from (suc f) n acc ≡ digits_from f (n / 10) ((48 + n % 10) ∷ acc)
unfolding digits_from
digits_from-high f n acc e = rw e refl

digit-is_digit : (d : ℕ) → d < 10 → is_digit (48 + d) ≡ true
digit-is_digit d h = ground arith

read_digits-digit :
    (v d : ℕ) (s : List ℕ) → d < 10 → read_digits v ((48 + d) ∷ s) ≡ read_digits (v * 10 + d) s
unfolding read_digits
read_digits-digit v d s h =
    let same : 48 + d - 48 ≡ d = omega arith in rw (digit-is_digit d h, same) refl

read_digits-digits_from :
    (f n : ℕ) (acc rest : List ℕ)
    → n < f
    → (is_digit (deref (digits_from f n acc ++ rest)) ≡ true)
      × (read_digits 0 (digits_from f n acc ++ rest) ≡ read_digits n (acc ++ rest))
read_digits-digits_from zero n acc rest h = absurd (omega arith)
read_digits-digits_from (suc f) n acc rest h = elim (Bool-cases (ltb n 10)) [
  | inl e ↦
      let low : n < 10 = ground arith in
      rw (digits_from-low f n acc e) (
        digit-is_digit n low,
        read_digits-digit 0 n (acc ++ rest) low
            ∙ ap (λ (v : ℕ). read_digits v (acc ++ rest)) (omega arith),
      )
  | inr e ↦
      let (first, read) =
        read_digits-digits_from f (n / 10) ((48 + n % 10) ∷ acc) rest (ground arith) in
      rw (digits_from-high f n acc e) (
        first,
        read
            ∙ read_digits-digit (n / 10) (n % 10) (acc ++ rest) (omega arith)
            ∙ ap (λ (v : ℕ). read_digits v (acc ++ rest)) (omega arith),
      )
]

number-Reads : Reads number decimal
unfolding read_digits
number-Reads n c rest small other =
    let (first, read) = read_digits-digits_from (suc n) n [] (c ∷ rest) (omega arith) in
    rw first (ap some (read ∙ rw other refl))

-- From the end: the last two lines are replaced by two, the second line goes, and one is put in front.
abbrev edits : List Edit
edits =
    record {
      start = 2;
      del = 2;
      command_moved = true;
      dot_moved = false;
      text = (codes "x\n", false) ∷ (codes "y\n", true) ∷ [];
    }
    ∷ record { start = 1; del = 1; command_moved = false; dot_moved = false; text = [] }
    ∷ record {
      start = 0;
      del = 0;
      command_moved = false;
      dot_moved = true;
      text = (codes "z\n", false) ∷ [];
    }
    ∷ []

edits_text :
    flat (map (λ (l : List ℕ × Bool). l.0) (script decimal edits))
    ≡ codes "3,4c\nx\ny\n.\n2d\n0a\nz\n.\n"
unfolding flat digits_from
edits_text = refl

edits-Descends : Descends (2 ^ 64 - 1) edits (flat old_lines)
unfolding apply_against_file flat skip_count lines_of has_newline same_text
edits-Descends = (
  (
    ((codes "x", refl, refl), refl, record { small = omega arith; no_nul = refl }),
    (((codes "y", refl, refl), refl, record { small = omega arith; no_nul = refl }), tt),
  ),
  omega arith,
  omega arith,
  omega arith,
  omega arith,
  omega arith,
  (
    tt,
    omega arith,
    omega arith,
    omega arith,
    omega arith,
    omega arith,
    (
      (((codes "z", refl, refl), refl, record { small = omega arith; no_nul = refl }), tt),
      omega arith,
      omega arith,
      omega arith,
      omega arith,
      omega arith,
      tt,
    ),
  ),
)

abbrev edits_lines : List (List ℕ)
edits_lines =
    codes "3,4c\n"
    ∷ codes "x\n"
    ∷ codes "y\n"
    ∷ codes ".\n"
    ∷ codes "2d\n"
    ∷ codes "0a\n"
    ∷ codes "z\n"
    ∷ codes ".\n"
    ∷ []

-- The first and the third line go elsewhere, and the last.
abbrev some_moved : List (List ℕ) → Bool
some_moved ls = length ls == 8 || (length ls == 6 || length ls == 1)

edits_lines-IsLine : All IsLine edits_lines
unfolding has_newline
edits_lines-IsLine = (
  (codes "3,4c", refl, refl),
  (
    (codes "x", refl, refl),
    (
      (codes "y", refl, refl),
      (
        (codes ".", refl, refl),
        (
          (codes "2d", refl, refl),
          ((codes "0a", refl, refl), ((codes "z", refl, refl), ((codes ".", refl, refl), tt))),
        ),
      ),
    ),
  ),
)

edits_lines-IsShort : All IsShort edits_lines
edits_lines-IsShort = (
  record { small = omega arith; no_nul = refl },
  (
    record { small = omega arith; no_nul = refl },
    (
      record { small = omega arith; no_nul = refl },
      (
        record { small = omega arith; no_nul = refl },
        (
          record { small = omega arith; no_nul = refl },
          (
            record { small = omega arith; no_nul = refl },
            (
              record { small = omega arith; no_nul = refl },
              (record { small = omega arith; no_nul = refl }, tt),
            ),
          ),
        ),
      ),
    ),
  ),
)

edits_marks : script decimal edits ≡ with_moves some_moved edits_lines
unfolding digits_from
edits_marks = refl

read_diff-script_example :
    (t : FileChanges) × (read_diff number number some_moved (flat edits_lines) no_changes ≡ some t)
    × (apply_against_file (changes t) old_lines
        ≡ apply_each (map edit_change edits) (flat old_lines))
read_diff-script_example =
    read_diff-script number number decimal some_moved edits edits_lines old_lines number-Reads
      number-Reads edits_lines-IsLine edits_lines-IsShort edits_marks old_lines-IsLine (omega arith)
      edits-Descends

written : apply_each (map edit_change edits) (flat old_lines) ≡ codes "z\n1\nx\ny\n"
unfolding apply_against_file flat skip_count lines_of
written = refl

-- Commands that read_diff refuses: one for line zero, a range that ends before it starts, and one it does not know.
refused :
    (read_diff number number some_moved (codes "1x\n") no_changes ≡ none)
    × (read_diff number number some_moved (codes "0d\n") no_changes ≡ none)
    × (read_diff number number some_moved (codes "3,2d\n") no_changes ≡ none)
unfolding read_diff read_lines read_line range range_end dispatch read_digits read_buffers cut_lines
    c_string
refused = (refl, refl, refl)

-- What write_diff writes for the changes of a file: text that follows a change without lines between is
-- written with it, and text in front of all lines is not written.
written_back :
    (write_diff decimal (edit ∷ later ∷ []) ≡ codes "7,8c\nc\n.\n3c\na\nb\n.\n")
    × (write_diff decimal (edit ∷ record later { offset = 0; del_cnt = 0 } ∷ [])
        ≡ codes "3c\na\nb\nc\n.\n")
    × (write_diff decimal (record later { offset = 0; del_cnt = 0 } ∷ []) ≡ [])
unfolding write_diff input_lines write_changes write_edit from_begin digits_from
written_back = (refl, refl, refl)

digits_from-has_newline :
    (f n : ℕ) (acc : List ℕ) → has_newline acc ≡ false → has_newline (digits_from f n acc) ≡ false
unfolding digits_from has_newline
digits_from-has_newline zero n acc h = h
digits_from-has_newline (suc f) n acc h =
    if-elim (λ (t : List ℕ). has_newline t ≡ false) (ltb n 10) (λ e. ground (arith, h))
      (λ e. digits_from-has_newline f (n / 10) ((48 + n % 10) ∷ acc) (ground (arith, h)))

digits_from-has_nul :
    (f n : ℕ) (acc : List ℕ) → has_nul acc ≡ false → has_nul (digits_from f n acc) ≡ false
unfolding digits_from
digits_from-has_nul zero n acc h = h
digits_from-has_nul (suc f) n acc h =
    if-elim (λ (t : List ℕ). has_nul t ≡ false) (ltb n 10) (λ e. ground (arith, h))
      (λ e. digits_from-has_nul f (n / 10) ((48 + n % 10) ∷ acc) (ground (arith, h)))

abbrev ten_to : ℕ → ℕ
ten_to zero = 1
ten_to (suc k) = 10 * ten_to k

length-digits_from :
    (k f n : ℕ) (acc : List ℕ)
    → n < 10 * ten_to k
    → length (digits_from f n acc) ≤ suc k + length acc
unfolding digits_from
length-digits_from k zero n acc h = omega arith
length-digits_from zero (suc f) n acc h =
    if-elim (λ (t : List ℕ). length t ≤ 1 + length acc) (ltb n 10) (λ e. omega arith)
      (λ e. absurd (ground arith))
length-digits_from (suc k) (suc f) n acc h =
    if-elim (λ (t : List ℕ). length t ≤ suc (suc k) + length acc) (ltb n 10) (λ e. omega arith)
      (λ e. omega (arith, length-digits_from k f (n / 10) ((48 + n % 10) ∷ acc) (omega (arith, h))))

decimal-AreDigits : AreDigits decimal
decimal-AreDigits = record {
  no_newline = λ n. digits_from-has_newline (suc n) n [] (unfold has_newline in refl);
  no_nul = λ n. digits_from-has_nul (suc n) n [] refl;
  few = λ n h. omega (arith, length-digits_from 18 (suc n) n [] (omega (arith, h)));
}

-- Two lines kept, one replaced by three, of which the last is a change of its own.
abbrev old_changes : List Change
old_changes = edit ∷ record later { offset = 0; del_cnt = 0 } ∷ []

old_changes-IsWritable : All IsWritable old_changes
unfolding has_newline lines_of same_text
old_changes-IsWritable = (
  (
    edit-IsSound,
    (
      ((codes "a", refl, refl), refl, record { small = omega arith; no_nul = refl }),
      (((codes "b", refl, refl), refl, record { small = omega arith; no_nul = refl }), tt),
    ),
  ),
  (
    (
      record { text = (codes "c", [], refl, refl, refl); small = omega arith },
      (((codes "c", refl, refl), refl, record { small = omega arith; no_nul = refl }), tt),
    ),
    tt,
  ),
)

abbrev long_rest : List (List ℕ) → Bool
long_rest ls = ltb 3 (length ls)

read_diff-write_diff_example :
    (t : FileChanges) × (read_diff number number long_rest
        (write_diff decimal old_changes)
        no_changes
      ≡ some t)
    × (apply_against_file (changes t) old_lines ≡ apply_against_file old_changes old_lines)
read_diff-write_diff_example =
    read_diff-write_diff number number decimal long_rest old_changes old_lines number-Reads
      number-Reads decimal-AreDigits old_lines-IsLine (omega arith) old_changes-IsWritable
      (unfold needs in omega arith) (unfold all_add in omega arith)
      (unfold all_written from_begin in refl)
