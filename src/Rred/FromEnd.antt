-- ===== src/Rred/FromEnd.antt =====
-- Changes of methods/rred.cc that are made from the last to the first, as write_diff writes them.
use aptum.Prelude.{
  ℕ, zero, suc, ◌+◌, ◌≤◌, ◌≡◌, refl, sym, ap, ◌∙◌, List, [], ◌∷◌, ◌++◌, arith, append_assoc, take,
  drop, length, length-append,
}
use native.Mathlib.Nat.{zero-add, suc-add}
use aptum.Rred.Changes.{Change}
use aptum.Rred.Sizes.{needs}
use aptum.Rred.Lines.{out, lines_of}
use aptum.Rred.Deleting.{Lines, length-take, length-drop}
use aptum.Rred.Edits.{edit_lines}

-- An edit behind the first m lines.
edit_inside :
    (m n del : ℕ) (add o : Lines)
    → m ≤ length o
    → (take m (edit_lines (m + n) del add o) ≡ take m o)
      × (drop m (edit_lines (m + n) del add o) ≡ edit_lines n del add (drop m o))
edit_inside zero n del add o h = rw zero-add (refl, refl)
edit_inside (suc m) n del add [] h = absurd (omega arith)
edit_inside (suc m) n del add (l ∷ o) h =
    let (first, rest) = edit_inside m n del add o (omega arith) in
    rw suc-add (ap (λ (t : Lines). l ∷ t) first, rest)

-- The last change can be made first, on the lines of the input.
out-append_edit :
    (cs : List Change) (c : Change) (i : Lines)
    → needs cs + c.offset + c.del_cnt ≤ length i
    → out (cs ++ c ∷ []) i ≡ out cs (edit_lines (needs cs + c.offset) c.del_cnt (lines_of c.add) i)
unfolding out needs
out-append_edit [] c i h = rw zero-add refl
out-append_edit (d ∷ cs) c i h =
    let n = needs cs + c.offset in
    let add = lines_of c.add in
    let e = edit_lines (d.offset + (d.del_cnt + n)) c.del_cnt add i in
    let (first, rest) = edit_inside d.offset (d.del_cnt + n) c.del_cnt add i (omega arith) in
    let (_, last) =
      edit_inside d.del_cnt n c.del_cnt add (drop d.offset i)
        (omega (arith, length-drop d.offset i)) in
    let ih =
      out-append_edit cs c (drop d.del_cnt (drop d.offset i))
        (omega (arith, length-drop d.offset i, length-drop d.del_cnt (drop d.offset i))) in
    let place : d.offset + d.del_cnt + needs cs + c.offset ≡ d.offset + (d.del_cnt + n) =
      omega arith in
    rw place (
      ap (λ (t : Lines). take d.offset i ++ (lines_of d.add ++ t))
        (ih ∙ sym (ap (out cs) (ap (drop d.del_cnt) rest ∙ last)))
      ∙ ap (λ (t : Lines). t ++ (lines_of d.add ++ out cs (drop d.del_cnt (drop d.offset e))))
          (sym first))

-- Lines put behind those that an edit takes out join the lines that it puts there.
edit_lines-join :
    (n del : ℕ) (add behind o : Lines)
    → n + del ≤ length o
    → edit_lines n del add (edit_lines (n + del) 0 behind o) ≡ edit_lines n del (add ++ behind) o
edit_lines-join n del add behind o h =
    let (first, rest) = edit_inside n del 0 behind o (omega arith) in
    let (_, last) = edit_inside del 0 0 behind (drop n o) (omega (arith, length-drop n o)) in
    let e = edit_lines (n + del) 0 behind o in
    let same : edit_lines del 0 behind (drop n o) ≡ edit_lines (del + 0) 0 behind (drop n o) =
      ap (λ (m : ℕ). edit_lines m 0 behind (drop n o)) (omega arith) in
    ap (λ (t : Lines). t ++ (add ++ drop del (drop n e))) first
    ∙ ap (λ (t : Lines). take n o ++ (add ++ t)) (ap (drop del) (rest ∙ same) ∙ last)
    ∙ ap (λ (t : Lines). take n o ++ t) (sym (append_assoc add behind (drop del (drop n o))))

length-edit_lines :
    (n : ℕ) (behind o : Lines)
    → n ≤ length o
    → length (edit_lines n 0 behind o) ≡ length o + length behind
length-edit_lines n behind o h = omega (
  arith,
  h,
  length-take n o h,
  length-drop n o,
  length-append (take n o) (behind ++ drop 0 (drop n o)),
  length-append behind (drop 0 (drop n o)),
)

pub out-append_behind :
    (cs : List Change) (c : Change) (behind o : Lines)
    → needs cs + c.offset + c.del_cnt ≤ length o
    → out (cs ++ c ∷ []) (edit_lines (needs cs + c.offset + c.del_cnt) 0 behind o)
      ≡ out cs (edit_lines (needs cs + c.offset) c.del_cnt (lines_of c.add ++ behind) o)
out-append_behind cs c behind o h =
    out-append_edit cs c (edit_lines (needs cs + c.offset + c.del_cnt) 0 behind o)
      (omega (arith, h, length-edit_lines (needs cs + c.offset + c.del_cnt) behind o h))
    ∙ ap (out cs) (edit_lines-join (needs cs + c.offset) c.del_cnt (lines_of c.add) behind o h)

pub needs-append :
    (cs : List Change) (c : Change) → needs (cs ++ c ∷ []) ≡ needs cs + c.offset + c.del_cnt
unfolding needs
needs-append [] c = omega arith
needs-append (d ∷ cs) c = omega (arith, needs-append cs c)
