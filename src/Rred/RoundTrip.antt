-- ===== src/Rred/RoundTrip.antt =====
-- write_diff of methods/rred.cc and read_diff on what it writes.
use aptum.Prelude.{
  ℕ, ◌+◌, ◌-◌, ◌^◌, ◌≤◌, ◌<◌, ◌≡◌, refl, sym, ap, ◌∙◌, inl, inr, Bool, true, false, not, ◌&&◌, ◌||◌,
  List, [], ◌∷◌, ◌++◌, arith, some, append_assoc, append-nil, ◌%◌, All, length, ltb, ◌==◌,
  Bool-cases,
}
use aptum.Rred.Changes.{
  Change, FileChanges, changes, apply_against_file, flat, no_changes, from_begin,
}
use aptum.Rred.Cursor.{IsSound}
use aptum.Rred.Sizes.{needs, all_add, needs-from_begin, all_add-from_begin}
use aptum.Rred.Lines.{out, lines_of, flat-lines_of, IsLine}
use aptum.Rred.Deleting.{Lines}
use aptum.Rred.Edits.{edit_lines, edit_lines-IsLine}
use aptum.Rred.Adding.{lines_of-apply}
use aptum.Rred.ReadDiff.{Number, read_diff}
use aptum.Rred.Reading.{IsTextLine}
use aptum.Rred.Script.{Reads, read_diff-script}
use aptum.Rred.FromEnd.{needs-append}
use aptum.Rred.Scripted.{AreDigits, Scripted, Scripted-edit, All-IsLine, command, text_lines}
use aptum.Rred.WriteDiff.{write_diff, write_changes, write_edit, input_lines}
use aptum.Rred.Written.{
  all_written, write_changes-passed, write_edit-added, write_edit-deleted, write_edit-nothing,
}
use aptum.Rred.Backwards.{
  back, edit_lines-nothing, All-both, Scripted-cast, Scripted-nothing, passed_test,
  all_written-passed, all_written-edit, flat-text, length-text, edited, out-edited, length-edited,
  write_changes-at, first_of-le, text-nothing, IsWritable,
}

module _ (digits : ℕ → List ℕ) (moved : Lines → Bool) (plain : AreDigits digits) where
  -- An edit that changes something.
  Scripted-change :
      (r : List Change) (c : Change) (line last : ℕ) (behind o : Lines) (p : Bool) (result : List ℕ)
      → (c.del_cnt == 0 && c.offset == 0) ≡ false
      → line ≡ needs (back r) + c.offset + c.del_cnt
      → line ≤ length o
      → line < 2 ^ 31
      → line ≤ last
      → All IsLine o
      → IsSound c
      → All IsTextLine (lines_of c.add ++ behind)
      → length (lines_of c.add ++ behind) < 2 ^ 62
      → (p ≡ false → behind ≡ [])
      → (not p || ltb 0 c.add_cnt) ≡ true
      → 0 < c.del_cnt + c.add_cnt
      → Scripted digits moved
          (needs (back r) + c.offset)
          (write_changes digits (needs (back r)) [] r)
          (edited r c behind o)
          result
      → Scripted digits moved last (write_changes digits line (flat behind) (c ∷ r)) o result
  Scripted-change r c line last behind o p result e place fit small le lines sound h few pending
        written some_change s =
      let text = lines_of c.add ++ behind in
      let start = needs (back r) + c.offset in
      let len = length-text c behind sound in
      let bytes =
        write_changes-at digits line start (needs (back r)) (flat behind) c r e
          (omega (arith, place)) (omega (arith, place))
        ∙ ap (λ (t : List ℕ). write_edit digits start c (flat behind) ++ t) s.bytes_lem in
      let edit =
        Scripted-edit digits moved last start c.del_cnt text o
          (write_changes digits (needs (back r)) [] r) result plain h lines
          (omega (arith, len, some_change)) (omega (arith, place, small))
          (omega (arith, place, small, few)) (omega (arith, place, fit))
          (first_of-le start c.del_cnt line last (omega (arith, place)) le) s in
      elim (Bool-cases (ltb 0 c.add_cnt)) [
        | inl adds ↦
            let some_added : 0 < c.add_cnt = ground arith in
            Scripted-cast digits moved last _ _ o result result
              (bytes
                ∙ write_edit-added digits start c (flat behind) text s.ls some_added
                    (omega (arith, len, some_added)) (flat-text c behind))
              refl edit
        | inr adds ↦
            let none_added : c.add_cnt ≡ 0 = ground arith in
            let none : text ≡ [] = text-nothing p c behind sound pending (ground arith) in
            Scripted-cast digits moved last _ _ o result result
              (bytes
                ∙ ap (λ (t : List ℕ). t ++ flat s.ls)
                    (write_edit-deleted digits start c (flat behind) none_added
                      (omega (arith, some_change, none_added)))
                ∙ ap (λ (t : Lines). command digits start c.del_cnt t ++ flat (text_lines t s.ls))
                    (sym none))
              refl edit
      ]

  from_end :
      (r : List Change) (line last : ℕ) (behind o : Lines) (p : Bool)
      → line ≡ needs (back r)
      → line ≤ length o
      → line < 2 ^ 31
      → line ≤ last
      → All IsLine o
      → All IsWritable r
      → All IsTextLine behind
      → (p ≡ false → behind ≡ [])
      → all_written p r ≡ true
      → length behind + all_add r < 2 ^ 62
      → Scripted digits moved last
          (write_changes digits line (flat behind) r)
          o
          (flat (out (back r) (edit_lines line 0 behind o)))
  unfolding all_add flat
  from_end [] line last behind o p at fit small le lines h hb pending written few =
      let none : behind ≡ [] = pending (unfold all_written in ground (arith, written)) in
      Scripted-cast digits moved last _ [] o _ (flat o) (unfold write_changes in refl)
        (unfold out in
          ap flat (ap (λ (t : Lines). edit_lines line 0 t o) none ∙ edit_lines-nothing line o))
        (Scripted-nothing digits moved last o)
  from_end (c ∷ r) line last behind o p at fit small le lines ((sound, hc), h) hb pending written
        few =
      let text = lines_of c.add ++ behind in
      let start = needs (back r) + c.offset in
      let place : line ≡ needs (back r) + c.offset + c.del_cnt = at ∙ needs-append (back r) c in
      let result = out-edited r c line behind o place fit in
      let len = length-text c behind sound in
      elim (Bool-cases (c.del_cnt == 0 && c.offset == 0)) [
        | inl e ↦
            let (no_del, no_offset) = passed_test c e in
            let here : edited r c behind o ≡ edit_lines line 0 text o =
              ap (λ (m : ℕ). edit_lines start m text o) no_del
              ∙ ap (λ (m : ℕ). edit_lines m 0 text o) (omega (arith, place, no_del, no_offset)) in
            Scripted-cast digits moved last _ _ o _ _
              (write_changes-passed digits line (flat behind) c r e
                ∙ ap (λ (t : List ℕ). write_changes digits line t r) (flat-text c behind))
              (ap flat (result ∙ ap (out (back r)) here))
              (from_end r line last text o (p || ltb 0 c.add_cnt)
                (omega (arith, place, no_del, no_offset)) fit small le lines h
                (All-both (lines_of c.add) behind hc hb) (text-nothing p c behind sound pending)
                (all_written-passed p c r e written) (omega (arith, few, len)))
        | inr e ↦
            let (kept, fresh) = all_written-edit p c r e written in
            let before = needs (back r) in
            elim (Bool-cases (ltb 0 (c.del_cnt + c.add_cnt))) [
              | inl some_change ↦
                  Scripted-cast digits moved last _ _ o _ _ refl
                    (ap flat (
                      result
                      ∙ ap (out (back r)) (sym (edit_lines-nothing before (edited r c behind o)))))
                    (Scripted-change r c line last behind o p _ e place fit small le lines sound
                      (All-both (lines_of c.add) behind hc hb) (omega (arith, few, len)) pending
                      kept (ground arith)
                      (from_end r before start [] (edited r c behind o) false refl
                        (length-edited r c behind o (omega (arith, place, fit)))
                        (omega (arith, place, small)) (omega arith)
                        (edit_lines-IsLine start c.del_cnt text o
                          (All-IsLine text (All-both (lines_of c.add) behind hc hb)) lines)
                        h tt (λ _. refl) fresh (omega (arith, few))))
              | inr nothing ↦
                  let none_deleted : c.del_cnt ≡ 0 = ground arith in
                  let none_added : c.add_cnt ≡ 0 = ground arith in
                  let none : text ≡ [] = text-nothing p c behind sound pending (ground arith) in
                  let same : edited r c behind o ≡ edit_lines before 0 [] o =
                    ap (λ (m : ℕ). edit_lines start m text o) none_deleted
                    ∙ ap (λ (t : Lines). edit_lines start 0 t o) none
                    ∙ edit_lines-nothing start o
                    ∙ sym (edit_lines-nothing before o) in
                  Scripted-cast digits moved last _ _ o _ _
                    (write_changes-at digits line start before (flat behind) c r e
                        (omega (arith, place)) (omega (arith, place))
                      ∙ ap (λ (t : List ℕ). t ++ write_changes digits before [] r)
                          (write_edit-nothing digits start c (flat behind) none_added none_deleted))
                    (ap flat (result ∙ ap (out (back r)) same))
                    (from_end r before last [] o false refl (omega (arith, place, fit))
                      (omega (arith, place, small)) (omega (arith, place, le)) lines h tt
                      (λ _. refl) fresh (omega (arith, few)))
            ]
      ]

back-from_begin : (cs ds : List Change) → back (from_begin cs ds) ≡ back ds ++ cs
unfolding from_begin
back-from_begin [] ds = sym (append-nil (back ds))
back-from_begin (c ∷ cs) ds = back-from_begin cs (c ∷ ds) ∙ append_assoc (back ds) (c ∷ []) cs

input_lines-needs :
    (line : ℕ) (cs : List Change) → line + needs cs < 2 ^ 64 → input_lines line cs ≡ line + needs cs
unfolding input_lines needs
input_lines-needs line [] h = omega arith
input_lines-needs line (c ∷ cs) h =
    let fits : (line + (c.offset + c.del_cnt)) % 2 ^ 64 ≡ line + (c.offset + c.del_cnt) =
      omega arith in
    ap (λ (m : ℕ). input_lines m cs) fits
    ∙ input_lines-needs (line + (c.offset + c.del_cnt)) cs (omega (arith, h))
    ∙ omega arith

All-reversed :
    (cs ds : List Change)
    → All IsWritable cs
    → All IsWritable ds
    → All IsWritable (from_begin cs ds)
unfolding from_begin
All-reversed [] ds h k = k
All-reversed (c ∷ cs) ds (h, hs) k = All-reversed cs (c ∷ ds) hs (h, k)

All-IsSound : (cs : List Change) → All IsWritable cs → All IsSound cs
All-IsSound [] h = tt
All-IsSound (c ∷ cs) (h, hs) = (h.0, All-IsSound cs hs)

write_diff-Scripted :
    (digits : ℕ → List ℕ) (moved : Lines → Bool) (cs : List Change) (input : Lines)
    → AreDigits digits
    → All IsLine input
    → length input < 2 ^ 31
    → All IsWritable cs
    → needs cs ≤ length input
    → all_add cs < 2 ^ 62
    → all_written false (from_begin cs []) ≡ true
    → Scripted digits moved (2 ^ 64 - 1) (write_diff digits cs) input (flat (out cs input))
unfolding write_diff flat
write_diff-Scripted digits moved cs input plain lines small h fit few written =
    let r = from_begin cs [] in
    let order : back r ≡ cs = back-from_begin cs [] in
    let size = needs-from_begin cs [] in
    let none : needs [] ≡ 0 = unfold needs in refl in
    let more : all_add [] ≡ 0 = unfold all_add in refl in
    let line : input_lines 0 r ≡ needs cs =
      input_lines-needs 0 r (omega (arith, size, fit, small, none)) ∙ omega (arith, size, none) in
    Scripted-cast digits moved (2 ^ 64 - 1) _ _ input _ _
      (ap (λ (m : ℕ). write_changes digits m [] r) line)
      (ap flat (
        ap (λ (x : List Change). out x input) (sym order)
        ∙ ap (out (back r)) (sym (edit_lines-nothing (needs cs) input))))
      (from_end digits moved plain r (needs cs) (2 ^ 64 - 1) [] input false (ap needs (sym order))
        fit (omega (arith, fit, small)) (omega (arith, fit, small)) lines (All-reversed cs [] h tt)
        tt (λ _. refl) written (omega (arith, few, more, all_add-from_begin cs [])))

-- For a file of fewer than 2 ^ 31 whole lines and changes that need no more lines than it has, and that add fewer
-- than 2 ^ 62 lines without NUL bytes, shorter than 2 ^ 19 bytes and none of them a dot alone, where a text
-- without lines in front of it or deleted ones comes behind another text (all_written): reading what
-- write_diff writes succeeds, wherever add_easy puts the lines, and the changes read write for the file
-- what the changes did. The numbers below 2 ^ 63 that are printed are to have at most 20 characters, no
-- newline or NUL byte among them, and strtoul and strtol are to read them back.
pub read_diff-write_diff :
    (strtoul strtol : Number) (digits : ℕ → List ℕ) (moved : Lines → Bool) (cs : List Change)
    (input : Lines)
    → Reads strtoul digits
    → Reads strtol digits
    → AreDigits digits
    → All IsLine input
    → length input < 2 ^ 31
    → All IsWritable cs
    → needs cs ≤ length input
    → all_add cs < 2 ^ 62
    → all_written false (from_begin cs []) ≡ true
    → (t : FileChanges) × (read_diff strtoul strtol moved (write_diff digits cs) no_changes
        ≡ some t)
      × (apply_against_file (changes t) input ≡ apply_against_file cs input)
read_diff-write_diff strtoul strtol digits moved cs input reads reads_end plain lines small h fit
      few written =
    let s = write_diff-Scripted digits moved cs input plain lines small h fit few written in
    let (t, read, same) =
      read_diff-script strtoul strtol digits moved s.es s.ls input reads reads_end s.lines s.short
        s.marks lines small s.fits in
    (
      t,
      ap (λ (b : List ℕ). read_diff strtoul strtol moved b no_changes) s.bytes_lem ∙ read,
      same
          ∙ s.effect
          ∙ ap flat (sym (lines_of-apply cs input (All-IsSound cs h) lines fit small))
          ∙ flat-lines_of (apply_against_file cs input),
    )
