-- ===== src/Rred/Scripted.antt =====
-- Edits of ed scripts, in the lines that write_diff of methods/rred.cc writes.
use aptum.Prelude.{
  ℕ, zero, suc, ◌+◌, ◌^◌, ◌≤◌, ◌<◌, ◌≡◌, refl, sym, ap, ◌∙◌, Bool, false, List, [], ◌∷◌, ◌++◌,
  arith, append_assoc, All, length, map, length-append,
}
use mathlib.Core.Path.{subst}
use aptum.Chars.{codes}
use aptum.Rred.Changes.{apply_against_file, flat, newline}
use aptum.Rred.Texts.{has_newline}
use aptum.Rred.Lines.{lines_of, lines_of-flat, IsLine}
use aptum.Rred.Deleting.{Lines}
use aptum.Rred.Edits.{edit_lines}
use aptum.Rred.Adding.{apply-one}
use aptum.Rred.Sequence.{apply_each}
use aptum.Rred.ReadLine.{IsShort, has_nul}
use aptum.Rred.ReadDiff.{with_moves}
use aptum.Rred.Reading.{IsTextLine, AllText, marked_text}
use aptum.Rred.Script.{
  Edit, edit_change, script, Descends, first_of, range_text, letter, text_script,
}

abbrev mark_before : (Lines → Bool) → Lines → Lines → List (List ℕ × Bool)
mark_before moved [] after = []
mark_before moved (l ∷ ls) after = (l, moved (l ∷ (ls ++ after))) ∷ mark_before moved ls after

with_moves-append :
    (moved : Lines → Bool) (ls after : Lines)
    → with_moves moved (ls ++ after) ≡ mark_before moved ls after ++ with_moves moved after
with_moves-append moved [] after = refl
with_moves-append moved (l ∷ ls) after =
    ap (λ (t : List (List ℕ × Bool)). (l, moved (l ∷ (ls ++ after))) ∷ t)
      (with_moves-append moved ls after)

marked-lines :
    (moved : Lines → Bool) (ls after : Lines)
    → map (λ (l : List ℕ × Bool). l.0) (mark_before moved ls after) ≡ ls
marked-lines moved [] after = refl
marked-lines moved (l ∷ ls) after = ap (λ (t : Lines). l ∷ t) (marked-lines moved ls after)

length-mark_before :
    (moved : Lines → Bool) (ls after : Lines) → length (mark_before moved ls after) ≡ length ls
length-mark_before moved [] after = refl
length-mark_before moved (l ∷ ls) after = omega (arith, length-mark_before moved ls after)

mark_before-AllText :
    (moved : Lines → Bool) (ls after : Lines)
    → All IsTextLine ls
    → AllText (mark_before moved ls after)
mark_before-AllText moved [] after h = tt
mark_before-AllText moved (l ∷ ls) after (h, hs) = (h, mark_before-AllText moved ls after hs)

abbrev pub dot_line : List ℕ
dot_line = codes ".\n"

abbrev pub text_lines : Lines → Lines → Lines
text_lines [] more = more
text_lines (l ∷ ls) more = l ∷ (ls ++ (dot_line ∷ more))

text_script-with_moves :
    (moved : Lines → Bool) (ls more : Lines)
    → text_script
        (moved (dot_line ∷ more))
        (mark_before moved ls (dot_line ∷ more))
        (with_moves moved more)
      ≡ with_moves moved (text_lines ls more)
text_script-with_moves moved [] more = refl
text_script-with_moves moved (l ∷ ls) more =
    sym (with_moves-append moved (l ∷ ls) (dot_line ∷ more))

pub All-IsLine : (ls : Lines) → All IsTextLine ls → All IsLine ls
All-IsLine [] h = tt
All-IsLine (l ∷ ls) (h, hs) = (h.0, All-IsLine ls hs)

All-IsShort : (ls : Lines) → All IsTextLine ls → All IsShort ls
All-IsShort [] h = tt
All-IsShort (l ∷ ls) ((line, other, short), hs) = (short, All-IsShort ls hs)

module _ (P : List ℕ → Type 0) (with_dot : P dot_line) where
  All-with_dot : (ls more : Lines) → All P ls → All P more → All P (ls ++ (dot_line ∷ more))
  All-with_dot [] more h k = (with_dot, k)
  All-with_dot (l ∷ ls) more (h, hs) k = (h, All-with_dot ls more hs k)

  All-text_lines : (ls more : Lines) → All P ls → All P more → All P (text_lines ls more)
  All-text_lines [] more h k = k
  All-text_lines (l ∷ ls) more h k = All-with_dot (l ∷ ls) more h k

dot-IsLine : IsLine dot_line
unfolding has_newline
dot-IsLine = (codes ".", refl, refl)

abbrev letter_of : ℕ → Lines → ℕ
letter_of del [] = b'd'
letter_of zero (l ∷ ls) = b'a'
letter_of (suc n) (l ∷ ls) = b'c'

letter-mark_before :
    (moved : Lines → Bool) (del : ℕ) (ls after : Lines)
    → letter del (mark_before moved ls after) ≡ letter_of del ls
letter-mark_before moved del [] after = refl
letter-mark_before moved zero (l ∷ ls) after = refl
letter-mark_before moved (suc n) (l ∷ ls) after = refl

has_newline-append :
    (a b : List ℕ) → has_newline a ≡ false → has_newline b ≡ false → has_newline (a ++ b) ≡ false
unfolding has_newline
has_newline-append [] b h k = k
has_newline-append (c ∷ a) b h k = ground (arith, has_newline-append a b)

-- Numbers below 2 ^ 63 that are printed.
pub record AreDigits (digits : ℕ → List ℕ) : Type 0 where
  pub no_newline : (n : ℕ) → has_newline (digits n) ≡ false
  pub no_nul : (n : ℕ) → has_nul (digits n) ≡ false
  pub few : (n : ℕ) → n < 2 ^ 63 → length (digits n) ≤ 20

has_nul-append : (a b : List ℕ) → has_nul a ≡ false → has_nul b ≡ false → has_nul (a ++ b) ≡ false
has_nul-append [] b h k = k
has_nul-append (c ∷ a) b h k = ground (arith, has_nul-append a b)

-- A command of an edit, with its newline.
abbrev pub command : (ℕ → List ℕ) → ℕ → ℕ → Lines → List ℕ
command digits start del ls = range_text digits start del (letter_of del ls ∷ newline ∷ [])

letter-has_newline : (del : ℕ) (ls : Lines) → has_newline (letter_of del ls ∷ []) ≡ false
unfolding has_newline
letter-has_newline del [] = refl
letter-has_newline zero (l ∷ ls) = refl
letter-has_newline (suc n) (l ∷ ls) = refl

command-IsLine :
    (digits : ℕ → List ℕ) (start del : ℕ) (ls : Lines)
    → AreDigits digits
    → IsLine (command digits start del ls)
command-IsLine digits start zero ls plain = (
  digits start ++ letter_of zero ls ∷ [],
  sym (append_assoc (digits start) (letter_of zero ls ∷ []) (newline ∷ [])),
  has_newline-append (digits start) (letter_of zero ls ∷ []) (plain.no_newline start)
      (letter-has_newline zero ls),
)
command-IsLine digits start (suc zero) ls plain = (
  digits (start + 1) ++ letter_of 1 ls ∷ [],
  sym (append_assoc (digits (start + 1)) (letter_of 1 ls ∷ []) (newline ∷ [])),
  has_newline-append (digits (start + 1)) (letter_of 1 ls ∷ []) (plain.no_newline (start + 1))
      (letter-has_newline 1 ls),
)
command-IsLine digits start (suc (suc n)) ls plain =
    let last = digits (start + suc (suc n)) in
    let to = letter_of (suc (suc n)) ls ∷ [] in
    (
      digits (start + 1) ++ (b',' ∷ (last ++ to)),
      sym (
          append_assoc (digits (start + 1)) (b',' ∷ (last ++ to)) (newline ∷ [])
          ∙ ap (λ (t : List ℕ). digits (start + 1) ++ (b',' ∷ t))
              (append_assoc last to (newline ∷ []))),
      has_newline-append (digits (start + 1)) (b',' ∷ (last ++ to)) (plain.no_newline (start + 1)) (
          unfold has_newline in
          has_newline-append last to (plain.no_newline (start + suc (suc n)))
            (letter-has_newline (suc (suc n)) ls)),
    )

letter-has_nul : (del : ℕ) (ls : Lines) → has_nul (letter_of del ls ∷ newline ∷ []) ≡ false
letter-has_nul del [] = refl
letter-has_nul zero (l ∷ ls) = refl
letter-has_nul (suc n) (l ∷ ls) = refl

one_number-IsShort :
    (digits : ℕ → List ℕ) (n : ℕ) (end : List ℕ)
    → AreDigits digits
    → n < 2 ^ 63
    → has_nul end ≡ false
    → length end < 30
    → IsShort (digits n ++ end)
one_number-IsShort digits n end h small no_nul short = record {
  small = omega (arith, h.few n small, length-append (digits n) end, short);
  no_nul = has_nul-append (digits n) end (h.no_nul n) no_nul;
}

command-IsShort :
    (digits : ℕ → List ℕ) (start del : ℕ) (ls : Lines)
    → AreDigits digits
    → start + del + 1 < 2 ^ 63
    → IsShort (command digits start del ls)
command-IsShort digits start zero ls h small =
    one_number-IsShort digits start _ h (omega arith) (letter-has_nul zero ls) (omega arith)
command-IsShort digits start (suc zero) ls h small =
    one_number-IsShort digits (start + 1) _ h (omega arith) (letter-has_nul 1 ls) (omega arith)
command-IsShort digits start (suc (suc n)) ls h small =
    let end = letter_of (suc (suc n)) ls ∷ newline ∷ [] in
    let last =
      one_number-IsShort digits (start + suc (suc n)) end h (omega arith)
        (letter-has_nul (suc (suc n)) ls) (omega arith) in
    let few = h.few (start + suc (suc n)) (omega arith) in
    one_number-IsShort digits (start + 1) (b',' ∷ (digits (start + suc (suc n)) ++ end)) h
      (omega arith) last.no_nul
      (omega (arith, few, length-append (digits (start + suc (suc n))) end))

-- Text that a script writes for lines with a result, with any places of the lines in memory.
pub record Scripted (digits : ℕ → List ℕ) (moved : Lines → Bool) (last : ℕ) (bytes : List ℕ)
    (o : Lines) (result : List ℕ) : Type 0 where
  pub ls : Lines
  pub es : List Edit
  pub bytes_lem : bytes ≡ flat ls
  pub lines : All IsLine ls
  pub short : All IsShort ls
  pub marks : script digits es ≡ with_moves moved ls
  pub fits : Descends last es (flat o)
  pub effect : apply_each (map edit_change es) (flat o) ≡ result

pub Scripted-edit :
    (digits : ℕ → List ℕ) (moved : Lines → Bool) (last start del : ℕ) (text o : Lines)
    (bytes result : List ℕ)
    → AreDigits digits
    → All IsTextLine text
    → All IsLine o
    → 0 < del + length text
    → del < 2 ^ 31
    → start + del + length text + 1 < 2 ^ 63
    → start + del ≤ length o
    → first_of start del ≤ last
    → (s : Scripted digits moved start bytes (edit_lines start del text o) result)
    → Scripted digits moved last
        (command digits start del text ++ flat (text_lines text s.ls))
        o
        result
unfolding flat
Scripted-edit digits moved last start del text o bytes result plain h lines some_change few bound
      within first s =
    let marked = mark_before moved text (dot_line ∷ s.ls) in
    let line = command digits start del text in
    let e : Edit = record {
      start = start;
      del = del;
      text = marked;
      command_moved = moved (line ∷ text_lines text s.ls);
      dot_moved = moved (dot_line ∷ s.ls);
    } in
    let text_lem : marked_text marked ≡ flat text =
      ap flat (marked-lines moved text (dot_line ∷ s.ls)) in
    let after : apply_against_file (edit_change e ∷ []) (lines_of (flat o))
        ≡ flat (edit_lines start del text o) =
      ap (apply_against_file (edit_change e ∷ [])) (lines_of-flat o lines)
      ∙ apply-one (edit_change e) o few
      ∙ ap (λ (t : Lines). flat (edit_lines start del t o))
          (ap lines_of text_lem ∙ lines_of-flat text (All-IsLine text h)) in
    let len = length-mark_before moved text (dot_line ∷ s.ls) in
    record {
      ls = line ∷ text_lines text s.ls;
      es = e ∷ s.es;
      bytes_lem = refl;
      lines = (
        command-IsLine digits start del text plain,
        All-text_lines IsLine dot-IsLine text s.ls (All-IsLine text h) s.lines,
      );
      short = (
        command-IsShort digits start del text plain (omega (arith, bound)),
        All-text_lines IsShort (record { small = omega arith; no_nul = refl }) text s.ls
            (All-IsShort text h) s.short,
      );
      marks =
          ap
            (λ (k : ℕ).
              (range_text digits start del (k ∷ newline ∷ []), e.command_moved)
              ∷ text_script e.dot_moved marked (script digits s.es))
            (letter-mark_before moved del text (dot_line ∷ s.ls))
          ∙ ap
              (λ (t : List (List ℕ × Bool)).
                (line, e.command_moved) ∷ text_script e.dot_moved marked t)
              s.marks
          ∙ ap (λ (t : List (List ℕ × Bool)). (line, e.command_moved) ∷ t)
              (text_script-with_moves moved text s.ls);
      fits = (
        mark_before-AllText moved text (dot_line ∷ s.ls) h,
        omega (arith, len, some_change),
        few,
        omega (arith, len, bound),
        omega (arith, within, ap length (lines_of-flat o lines)),
        first,
        subst (λ (t : List ℕ). Descends start s.es t) (sym after) s.fits,
      );
      effect = ap (apply_each (map edit_change s.es)) after ∙ s.effect;
    }
