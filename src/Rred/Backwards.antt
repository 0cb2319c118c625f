-- ===== src/Rred/Backwards.antt =====
-- The changes of methods/rred.cc from the last to the first, and what write_diff leaves to be written.
use aptum.Prelude.{
  ℕ, zero, suc, ◌+◌, ◌-◌, ◌≤◌, ◌≡◌, refl, sym, ap, ◌∙◌, Bool, true, false, not, ◌&&◌, ◌||◌, List,
  [], ◌∷◌, ◌++◌, arith, All, length, length-append, take, drop, ltb, ◌==◌,
}
use aptum.Rred.Changes.{Change, flat}
use aptum.Rred.Cursor.{IsSound}
use aptum.Rred.Sizes.{needs}
use aptum.Rred.Lines.{out, lines_of, lines_of-IsText, flat-lines_of}
use aptum.Rred.Meaning.{flat-append}
use aptum.Rred.Deleting.{Lines, length-take}
use aptum.Rred.Edits.{edit_lines}
use aptum.Rred.Reading.{IsTextLine}
use aptum.Rred.Script.{first_of}
use aptum.Rred.FromEnd.{out-append_behind}
use aptum.Rred.Scripted.{Scripted}
use aptum.Rred.WriteDiff.{write_changes, write_edit}
use aptum.Rred.Written.{all_written, write_changes-edit}

abbrev pub back : List Change → List Change
back [] = []
back (c ∷ cs) = back cs ++ c ∷ []

-- A change whose text can be written: it has its lines, and none of them is a dot alone.
abbrev pub IsWritable : Change → Type 0
IsWritable c = IsSound c × All IsTextLine (lines_of c.add)

pub edit_lines-nothing : (n : ℕ) (o : Lines) → edit_lines n 0 [] o ≡ o
edit_lines-nothing zero o = refl
edit_lines-nothing (suc n) [] = refl
edit_lines-nothing (suc n) (l ∷ o) = ap (λ (t : Lines). l ∷ t) (edit_lines-nothing n o)

pub All-both : (a b : Lines) → All IsTextLine a → All IsTextLine b → All IsTextLine (a ++ b)
All-both [] b h k = k
All-both (l ∷ a) b (h, hs) k = (h, All-both a b hs k)

pub Scripted-cast :
    (digits : ℕ → List ℕ) (moved : Lines → Bool) (last : ℕ) (bytes bytes1 : List ℕ) (o : Lines)
    (result result1 : List ℕ)
    → bytes ≡ bytes1
    → result ≡ result1
    → Scripted digits moved last bytes1 o result1
    → Scripted digits moved last bytes o result
Scripted-cast digits moved last bytes bytes1 o result result1 e f s = record {
  ls = s.ls;
  es = s.es;
  bytes_lem = e ∙ s.bytes_lem;
  lines = s.lines;
  short = s.short;
  marks = s.marks;
  fits = s.fits;
  effect = s.effect ∙ sym f;
}

pub Scripted-nothing :
    (digits : ℕ → List ℕ) (moved : Lines → Bool) (last : ℕ) (o : Lines)
    → Scripted digits moved last [] o (flat o)
unfolding flat
Scripted-nothing digits moved last o = record {
  ls = [];
  es = [];
  bytes_lem = refl;
  lines = tt;
  short = tt;
  marks = refl;
  fits = tt;
  effect = refl;
}

pub passed_test :
    (c : Change) → (c.del_cnt == 0 && c.offset == 0) ≡ true → (c.del_cnt ≡ 0) × (c.offset ≡ 0)
passed_test c e = (ground arith, ground arith)

pub all_written-passed :
    (p : Bool) (c : Change) (cs : List Change)
    → (c.del_cnt == 0 && c.offset == 0) ≡ true
    → all_written p (c ∷ cs) ≡ true
    → all_written (p || ltb 0 c.add_cnt) cs ≡ true
unfolding all_written
all_written-passed p c cs e h = sym (rw e refl) ∙ h

pub all_written-edit :
    (p : Bool) (c : Change) (cs : List Change)
    → (c.del_cnt == 0 && c.offset == 0) ≡ false
    → all_written p (c ∷ cs) ≡ true
    → ((not p || ltb 0 c.add_cnt) ≡ true) × (all_written false cs ≡ true)
unfolding all_written
all_written-edit p c cs e h =
    let both : ((not p || ltb 0 c.add_cnt) && all_written false cs) ≡ true = sym (rw e refl) ∙ h in
    (ground arith, ground arith)

no_lines : (ls : Lines) → length ls ≡ 0 → ls ≡ []
no_lines [] h = refl
no_lines (l ∷ ls) h = absurd (omega arith)

no_text : (c : Change) → IsSound c → ltb 0 c.add_cnt ≡ false → lines_of c.add ≡ []
no_text c sound none_added =
    no_lines (lines_of c.add) (ground (arith, (lines_of-IsText c.add_cnt c.add sound.text).0))

pub flat-text :
    (c : Change) (behind : Lines) → c.add ++ flat behind ≡ flat (lines_of c.add ++ behind)
flat-text c behind =
    ap (λ (t : List ℕ). t ++ flat behind) (sym (flat-lines_of c.add))
    ∙ sym (flat-append (lines_of c.add) behind)

pub length-text :
    (c : Change) (behind : Lines)
    → IsSound c
    → length (lines_of c.add ++ behind) ≡ c.add_cnt + length behind
length-text c behind sound =
    omega
      (arith, length-append (lines_of c.add) behind, (lines_of-IsText c.add_cnt c.add sound.text).0)

-- The lines that a change and the texts behind it leave for the changes before it.
abbrev pub edited : List Change → Change → Lines → Lines → Lines
edited r c behind o = edit_lines (needs (back r) + c.offset) c.del_cnt (lines_of c.add ++ behind) o

pub out-edited :
    (r : List Change) (c : Change) (line : ℕ) (behind o : Lines)
    → line ≡ needs (back r) + c.offset + c.del_cnt
    → line ≤ length o
    → out (back r ++ c ∷ []) (edit_lines line 0 behind o) ≡ out (back r) (edited r c behind o)
out-edited r c line behind o at fit =
    ap (λ (m : ℕ). out (back r ++ c ∷ []) (edit_lines m 0 behind o)) at
    ∙ out-append_behind (back r) c behind o (omega (arith, at, fit))

pub length-edited :
    (r : List Change) (c : Change) (behind o : Lines)
    → needs (back r) + c.offset ≤ length o
    → needs (back r) ≤ length (edited r c behind o)
length-edited r c behind o fit =
    let start = needs (back r) + c.offset in
    omega (
      arith,
      length-take start o fit,
      length-append (take start o) ((lines_of c.add ++ behind) ++ drop c.del_cnt (drop start o)),
    )

pub write_changes-at :
    (digits : ℕ → List ℕ) (line start before : ℕ) (behind : List ℕ) (c : Change) (r : List Change)
    → (c.del_cnt == 0 && c.offset == 0) ≡ false
    → line - c.del_cnt ≡ start
    → line - c.del_cnt - c.offset ≡ before
    → write_changes digits line behind (c ∷ r)
      ≡ write_edit digits start c behind ++ write_changes digits before [] r
write_changes-at digits line start before behind c r e at_start at_before =
    write_changes-edit digits line behind c r e
    ∙ ap
        (λ (m : ℕ).
          write_edit digits m c behind ++ write_changes digits (line - c.del_cnt - c.offset) [] r)
        at_start
    ∙ ap (λ (m : ℕ). write_edit digits start c behind ++ write_changes digits m [] r) at_before

pub first_of-le :
    (start del line last : ℕ) → start + del ≤ line → line ≤ last → first_of start del ≤ last
first_of-le start zero line last h le = omega arith
first_of-le start (suc n) line last h le = omega arith

pub text-nothing :
    (p : Bool) (c : Change) (behind : Lines)
    → IsSound c
    → (p ≡ false → behind ≡ [])
    → (p || ltb 0 c.add_cnt) ≡ false
    → lines_of c.add ++ behind ≡ []
text-nothing p c behind sound pending h =
    let none_added : ltb 0 c.add_cnt ≡ false = ground arith in
    let none_pending : p ≡ false = ground arith in
    ap (λ (t : Lines). t ++ behind) (no_text c sound none_added) ∙ pending none_pending
