-- ===== src/Rred/Edits.antt =====
-- Edits of lines, and changes of methods/rred.cc before and at an edit.
use aptum.Prelude.{
  ℕ, zero, suc, ◌+◌, ◌≤◌, ◌≡◌, refl, sym, ap, ◌∙◌, List, [], ◌∷◌, ◌++◌, arith, append_assoc, take,
  drop, All, length, length-append,
}
use native.Mathlib.Nat.{zero-add, suc-add}
use aptum.Rred.Changes.{Change, from_begin}
use aptum.Rred.Cursor.{IsSound}
use aptum.Rred.Sizes.{needs, all_del, all_add, total}
use aptum.Rred.Lines.{out, lines_of, lines_of-IsText, IsLine}
use aptum.Rred.Deleting.{Lines, length-take, length-drop}

-- The first `line` lines, new ones, and the others but for the first `del` of them.
abbrev pub edit_lines : ℕ → ℕ → Lines → Lines → Lines
edit_lines line del add o = take line o ++ (add ++ drop del (drop line o))

take-append_add : (x o : Lines) (n : ℕ) → take (length x + n) (x ++ o) ≡ x ++ take n o
take-append_add [] o n = rw zero-add
take-append_add (l ∷ x) o n = rw suc-add (ap (λ (t : Lines). l ∷ t) (take-append_add x o n))

drop-append_add : (x o : Lines) (n : ℕ) → drop (length x + n) (x ++ o) ≡ drop n o
drop-append_add [] o n = rw zero-add
drop-append_add (l ∷ x) o n = rw suc-add (drop-append_add x o n)

-- An edit behind the lines x.
pub edit_lines-append :
    (x o add : Lines) (n del : ℕ)
    → edit_lines (length x + n) del add (x ++ o) ≡ x ++ edit_lines n del add o
edit_lines-append x o add n del =
    rw (take-append_add x o n, drop-append_add x o n)
      (append_assoc x (take n o) (add ++ drop del (drop n o)))

out-cons_edit :
    (c : Change) (cs ds : List Change) (add : Lines) (n del : ℕ) (i : Lines)
    → IsSound c
    → c.offset ≤ length i
    → out ds (drop c.del_cnt (drop c.offset i))
      ≡ edit_lines n del add (out cs (drop c.del_cnt (drop c.offset i)))
    → out (c ∷ ds) i ≡ edit_lines (c.offset + c.add_cnt + n) del add (out (c ∷ cs) i)
unfolding out
out-cons_edit c cs ds add n del i h fit e =
    let x = take c.offset i in
    let y = lines_of c.add in
    let j = drop c.del_cnt (drop c.offset i) in
    let front : c.offset + c.add_cnt + n ≡ length x + (length y + n) =
      omega (arith, length-take c.offset i fit, (lines_of-IsText c.add_cnt c.add h.text).0) in
    ap (λ (t : Lines). x ++ (y ++ t)) e
    ∙ sym (ap (λ (t : Lines). x ++ t) (edit_lines-append y (out cs j) add n del))
    ∙ sym (edit_lines-append x (y ++ out cs j) add (length y + n) del)
    ∙ ap (λ (m : ℕ). edit_lines m del add (x ++ (y ++ out cs j))) (sym front)

-- An edit behind the changes before the cursor.
pub out-from_begin_edit :
    (b : List Change) (cs ds : List Change) (add : Lines) (n del : ℕ)
    → All IsSound b
    → ((i : Lines) → needs cs ≤ length i → out ds i ≡ edit_lines n del add (out cs i))
    → (i : Lines) → needs (from_begin b cs) ≤ length i
    → out (from_begin b ds) i ≡ edit_lines (total b + n) del add (out (from_begin b cs) i)
unfolding from_begin total
out-from_begin_edit [] cs ds add n del h step i fit =
    step i fit ∙ ap (λ (m : ℕ). edit_lines m del add (out cs i)) (omega arith)
out-from_begin_edit (c ∷ b) cs ds add n del (h, hs) step i fit =
    out-from_begin_edit b (c ∷ cs) (c ∷ ds) add (c.offset + c.add_cnt + n) del hs
      (λ j f.
        let needed : c.offset + c.del_cnt + needs cs ≤ length j = unfold needs in f in
        out-cons_edit c cs ds add n del j h (omega arith) (
          step (drop c.del_cnt (drop c.offset j)) (
            omega
              (arith, needed, length-drop c.offset j, length-drop c.del_cnt (drop c.offset j)))))
      i fit
    ∙ ap (λ (m : ℕ). edit_lines m del add (out (from_begin b (c ∷ cs)) i)) (omega arith)

-- The number of lines that are left.
pub length-out :
    (cs : List Change) (i : Lines)
    → All IsSound cs
    → needs cs ≤ length i
    → length (out cs i) + all_del cs ≡ length i + all_add cs
unfolding out needs all_del all_add
length-out [] i h fit = refl
length-out (c ∷ cs) i (h, hs) fit =
    let j = drop c.del_cnt (drop c.offset i) in
    let rest =
      length-out cs j hs
        (omega (arith, fit, length-drop c.offset i, length-drop c.del_cnt (drop c.offset i))) in
    omega (
      arith,
      rest,
      fit,
      length-drop c.offset i,
      length-drop c.del_cnt (drop c.offset i),
      length-take c.offset i (omega (arith, fit)),
      (lines_of-IsText c.add_cnt c.add h.text).0,
      length-append (take c.offset i) (lines_of c.add ++ out cs j),
      length-append (lines_of c.add) (out cs j),
    )

All-append : (a b : Lines) → All IsLine a → All IsLine b → All IsLine (a ++ b)
All-append [] b h k = k
All-append (l ∷ a) b (h, hs) k = (h, All-append a b hs k)

All-take : (n : ℕ) (a : Lines) → All IsLine a → All IsLine (take n a)
All-take zero a h = tt
All-take (suc n) [] h = tt
All-take (suc n) (l ∷ a) (h, hs) = (h, All-take n a hs)

All-drop : (n : ℕ) (a : Lines) → All IsLine a → All IsLine (drop n a)
All-drop zero a h = h
All-drop (suc n) [] h = tt
All-drop (suc n) (l ∷ a) (h, hs) = All-drop n a hs

pub out-IsLine :
    (cs : List Change) (i : Lines) → All IsSound cs → All IsLine i → All IsLine (out cs i)
unfolding out
out-IsLine [] i h k = k
out-IsLine (c ∷ cs) i (h, hs) k = All-append (take c.offset i) _ (All-take c.offset i k) (
    All-append (lines_of c.add) _ (lines_of-IsText c.add_cnt c.add h.text).1 (
      out-IsLine cs (drop c.del_cnt (drop c.offset i)) hs
        (All-drop c.del_cnt _ (All-drop c.offset i k))))

pub edit_lines-IsLine :
    (n del : ℕ) (add o : Lines)
    → All IsLine add
    → All IsLine o
    → All IsLine (edit_lines n del add o)
edit_lines-IsLine n del add o h k =
    All-append (take n o) _ (All-take n o k) (All-append add _ h (All-drop del _ (All-drop n o k)))
