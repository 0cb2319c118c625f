-- ===== src/Rred/Adding.antt =====
-- add_change of methods/rred.cc acts like its change on what the changes before write.
use aptum.Prelude.{
  ℕ, zero, suc, ◌+◌, ◌-◌, ◌^◌, ◌≤◌, ◌<◌, ◌≡◌, refl, sym, ap, ◌∙◌, inl, inr, true, false, List, [],
  ◌∷◌, ◌++◌, arith, Option, some, take, drop, All, length, is_empty, ◌==◌, ltb, Bool-cases,
}
use aptum.Rred.Changes.{
  Change, FileChanges, changes, from_begin, apply_against_file, flat, insert_from,
}
use aptum.Rred.Texts.{IsText}
use aptum.Rred.Cursor.{cursor, IsSound, IsWell}
use aptum.Rred.Sizes.{
  needs, all_del, all_add, needs-from_begin, all_del-from_begin, all_add-from_begin, needs-total,
}
use aptum.Rred.Lines.{out, lines_of, lines_of-flat, IsLine, apply_against_file-out}
use mathlib.Core.Path.{subst}
use aptum.Rred.Deleting.{Lines, length-take, length-drop}
use aptum.Rred.Delete.{Deleted, delete_lines-Deleted}
use aptum.Rred.Edits.{edit_lines, edit_lines-append, out-from_begin_edit, length-out, out-IsLine}
use aptum.Rred.Merge.{merge, merge-SameEffect}
use aptum.Rred.Merged.{merge-IsWell}
use aptum.Rred.Seek.{go_to_change_for-Found}
use aptum.Rred.AddChange.{checked, then_delete, then_add, then_merge, add_change}

then_delete-Deleted :
    (cnt : ℕ) (b : List Change) (w : Change) (a : List Change) (p : ℕ)
    → w.del_cnt + cnt < 2 ^ 64
    → IsWell (cursor b (w ∷ a) p)
    → (t : FileChanges) × (then_delete cnt (some (cursor b (w ∷ a) p)) ≡ some t)
      × Deleted cnt w a (cursor b (w ∷ a) p) t
unfolding then_delete
then_delete-Deleted cnt b w a p small h = elim (Bool-cases (cnt == 0)) [
  | inl e ↦ (
    cursor b (w ∷ a) p,
    rw e refl,
    record {
      first = w;
      further = a;
      del = 0;
      at = refl;
      offset_lem = refl;
      del_lem = omega arith;
      well = h;
      balance = ground arith;
      room = λ n fits inside. fits;
      lines = λ i fits.
          let z : cnt ≡ 0 = ground arith in
          ap (λ (k : ℕ). drop k (lines_of w.add ++ out a (drop w.del_cnt i))) z;
    },
  )
  | inr e ↦ rw e (delete_lines-Deleted cnt b w a p small h)
]

-- What stands at the cursor when the text is in its place.
record Placed (c f : Change) (r : List Change) (b : List Change) (p : ℕ) : Type 0 where
  list : List Change
  result : then_add c (some (cursor b (f ∷ r) p)) ≡ some (cursor b list p)
  sound : All IsSound list
  on_change : is_empty list ≡ false
  needs_lem : needs list ≡ needs (f ∷ r)
  lines :
      (i : Lines)
      → out list i
        ≡ take f.offset i
          ++ (lines_of c.add ++ (lines_of f.add ++ out r (drop f.del_cnt (drop f.offset i))))

empty_text : (n : ℕ) (s : List ℕ) → IsText n s → is_empty s ≡ true → n ≡ 0
empty_text zero s h e = refl
empty_text (suc n) [] (l, r, q, no_nl, t) e = absurd (nonempty l r q)
  where
    nonempty : (l r : List ℕ) → [] ≡ l ++ 10 ∷ r → ⊥
    nonempty [] r e = cc
    nonempty (c ∷ l) r e = cc
empty_text (suc n) (c ∷ s) h e = cc

empty_nil : (s : List ℕ) → is_empty s ≡ true → s ≡ []
empty_nil [] e = refl
empty_nil (c ∷ s) e = cc

then_add-Placed :
    (c f : Change) (r b : List Change) (p : ℕ) → IsSound c → All IsSound (f ∷ r) → Placed c f r b p
unfolding then_add out needs insert_from
then_add-Placed c f r b p hc (hf, hr) = elim (Bool-cases (is_empty c.add)) [
  | inl e ↦ record {
    list = f ∷ r;
    result = rw e refl;
    sound = (hf, hr);
    on_change = refl;
    needs_lem = refl;
    lines = λ i. rw (empty_nil c.add e) (unfold lines_of in refl);
  }
  | inr e ↦ elim (Bool-cases (is_empty f.add)) [
    | inl g ↦
        let none_there : (f.add_cnt == 0) ≡ true =
          ground (arith, empty_text f.add_cnt f.add hf.text g) in
        record {
          list = record f { add_cnt = c.add_cnt; add = c.add } ∷ r;
          result = rw (e, g, none_there) (rw g refl);
          sound = (record { text = hc.text; small = hc.small }, hr);
          on_change = refl;
          needs_lem = refl;
          lines = λ i. rw (empty_nil f.add g) (unfold lines_of in refl);
        }
    | inr g ↦
        let inside : ltb f.offset f.offset ≡ false = ground arith in
        let gone : f.offset - f.offset ≡ 0 = omega arith in
        record {
          list =
              record { offset = f.offset; del_cnt = 0; add_cnt = c.add_cnt; add = c.add }
              ∷ record f { offset = 0 }
              ∷ r;
          result = rw (e, g, inside) (rw gone refl);
          sound = (
            record { text = hc.text; small = hc.small },
            (record { text = hf.text; small = hf.small }, hr),
          );
          on_change = refl;
          needs_lem = omega arith;
          lines = λ i. refl;
        }
  ]
]

edit_here :
    (c w : Change) (a b : List Change) (p : ℕ) (s t : FileChanges) (d : Deleted c.del_cnt w a s t)
    → (q : Placed c d.first d.further b p) → (i : Lines) → needs (w ∷ a) ≤ length i
    → out q.list i ≡ edit_lines w.offset c.del_cnt (lines_of c.add) (out (w ∷ a) i)
unfolding out needs
edit_here c w a b p s t d q i fit =
    let x = take w.offset i in
    let rest = lines_of w.add ++ out a (drop w.del_cnt (drop w.offset i)) in
    let front : length x + 0 ≡ w.offset =
      omega (arith, length-take w.offset i (omega (arith, fit))) in
    q.lines i
    ∙ ap
        (λ (o : ℕ).
          take o i
          ++ (lines_of c.add
              ++ (lines_of d.first.add ++ out d.further (drop d.first.del_cnt (drop o i)))))
        d.offset_lem
    ∙ ap (λ (r : Lines). x ++ (lines_of c.add ++ r))
        (sym (d.lines (drop w.offset i) (omega (arith, fit, length-drop w.offset i))))
    ∙ sym (edit_lines-append x rest (lines_of c.add) 0 c.del_cnt)
    ∙ ap (λ (m : ℕ). edit_lines m c.del_cnt (lines_of c.add) (x ++ rest)) front

-- The changes of add_change before they are merged.
record Edited (c : Change) (b : List Change) (w : Change) (a : List Change) (p : ℕ) : Type 0 where
  list : List Change
  result :
      then_add c
        (checked c.offset (then_delete c.del_cnt (checked c.offset (some (cursor b (w ∷ a) p)))))
      ≡ some (cursor b list p)
  well : IsWell (cursor b list p)
  on_change : is_empty list ≡ false
  room :
      (n : ℕ)
      → needs (from_begin b (w ∷ a)) ≤ n
      → c.offset + c.del_cnt + all_del (from_begin b (w ∷ a)) ≤ n + all_add (from_begin b (w ∷ a))
      → needs (from_begin b list) ≤ n
  lines :
      (i : Lines)
      → needs (from_begin b (w ∷ a)) ≤ length i
      → out (from_begin b list) i
        ≡ edit_lines c.offset c.del_cnt (lines_of c.add) (out (from_begin b (w ∷ a)) i)

checked_here :
    (line : ℕ) (b : List Change) (w : Change) (a : List Change) (p : ℕ)
    → p + w.offset ≡ line
    → checked line (some (cursor b (w ∷ a) p)) ≡ some (cursor b (w ∷ a) p)
unfolding checked
checked_here line b w a p e =
    let same : (p + w.offset == line) ≡ true = ground arith in rw same refl

edit_cursor :
    (c : Change) (b : List Change) (w : Change) (a : List Change) (p : ℕ)
    → IsSound c
    → w.del_cnt + c.del_cnt < 2 ^ 64
    → IsWell (cursor b (w ∷ a) p)
    → p + w.offset ≡ c.offset
    → Edited c b w a p
edit_cursor c b w a p hc small h e =
    let (t, gone, d) = then_delete-Deleted c.del_cnt b w a p small h in
    let well : IsWell (cursor b (d.first ∷ d.further) p) = subst IsWell d.at d.well in
    let q = then_add-Placed c d.first d.further b p hc well.texts_after in
    record {
      list = q.list;
      result =
          ap (λ (o : Option FileChanges). then_add c (checked c.offset (then_delete c.del_cnt o)))
            (checked_here c.offset b w a p e)
          ∙ ap (λ (o : Option FileChanges). then_add c (checked c.offset o)) (gone ∙ ap some d.at)
          ∙ ap (then_add c)
              (checked_here c.offset b d.first d.further p (omega (arith, e, d.offset_lem)))
          ∙ q.result;
      well = record {
        pos_lem = well.pos_lem;
        texts_before = well.texts_before;
        texts_after = q.sound;
      };
      on_change = q.on_change;
      room = λ n fits inside.
          let m = n - needs b in
          let wa = w ∷ a in
          let kept = d.room m (omega (arith, fits, needs-from_begin b wa)) (
            omega (
              arith,
              inside,
              fits,
              e,
              h.pos_lem,
              needs-total b,
              needs-from_begin b wa,
              all_del-from_begin b wa,
              all_add-from_begin b wa,
            )) in
          omega (arith, kept, q.needs_lem, needs-from_begin b q.list, fits, needs-from_begin b wa);
      lines = λ i fits.
          out-from_begin_edit b (w ∷ a) q.list (lines_of c.add) w.offset c.del_cnt well.texts_before
            (λ j f. edit_here c w a b p (cursor b (w ∷ a) p) t d q j f) i fits
          ∙ ap (λ (m : ℕ). edit_lines m c.del_cnt (lines_of c.add) (out (from_begin b (w ∷ a)) i))
              (omega (arith, h.pos_lem, e));
    }

pub All-from_begin :
    (b cs : List Change) → All IsSound b → All IsSound cs → All IsSound (from_begin b cs)
unfolding from_begin
All-from_begin [] cs h k = k
All-from_begin (c ∷ b) cs (h, hs) k = All-from_begin b (c ∷ cs) hs (h, k)

all_del-le : (cs : List Change) → all_del cs ≤ needs cs
unfolding all_del needs
all_del-le [] = omega arith
all_del-le (c ∷ cs) = omega (arith, all_del-le cs)

-- What is written, line by line.
pub lines_of-apply :
    (cs : List Change) (input : Lines)
    → All IsSound cs
    → All IsLine input
    → needs cs ≤ length input
    → length input < 2 ^ 31
    → lines_of (apply_against_file cs input) ≡ out cs input
lines_of-apply cs input h lines fit small =
    ap lines_of (apply_against_file-out cs input (omega (arith, all_del-le cs)))
    ∙ lines_of-flat (out cs input) (out-IsLine cs input h lines)

-- One change against lines.
pub apply-one :
    (c : Change) (o : Lines)
    → c.del_cnt < 2 ^ 31
    → apply_against_file (c ∷ []) o ≡ flat (edit_lines c.offset c.del_cnt (lines_of c.add) o)
apply-one c o small =
    apply_against_file-out (c ∷ []) o (unfold all_del in omega arith) ∙ (unfold out in refl)

here_small :
    (b : List Change) (w : Change) (a : List Change) {cnt : ℕ}
    → needs (from_begin b (w ∷ a)) < 2 ^ 31
    → cnt < 2 ^ 31
    → w.del_cnt + cnt < 2 ^ 64
here_small b w a few more =
    let here : needs (w ∷ a) ≡ w.offset + w.del_cnt + needs a = unfold needs in refl in
    omega (arith, few, more, needs-from_begin b (w ∷ a), here)

-- On a well-formed list, with the cursor on a change or not behind the line, and for a file of fewer than 2 ^ 31
-- whole lines that has all lines that the changes need, add_change with a change that lies within the
-- output succeeds. The changes then write for the file what the one change writes for the output of the
-- changes before; the list stays well formed with the cursor on a change, and needs no more lines than the
-- file has.
pub add_change-edit :
    (c : Change) (s : FileChanges) (input : List (List ℕ))
    → IsSound c
    → c.del_cnt < 2 ^ 31
    → IsWell s
    → (is_empty s.after ≡ true → s.pos ≤ c.offset)
    → All IsLine input
    → length input < 2 ^ 31
    → needs (changes s) ≤ length input
    → c.offset + c.del_cnt ≤ length (lines_of (apply_against_file (changes s) input))
    → (t : FileChanges) × (add_change c s ≡ some t)
      × IsWell t
      × (is_empty t.after ≡ false)
      × (needs (changes t) ≤ length input)
      × (apply_against_file (changes t) input
          ≡ apply_against_file (c ∷ []) (lines_of (apply_against_file (changes s) input)))
unfolding add_change then_merge changes
add_change-edit c s input hc few h ready lines small fit within =
    let (t, sought, f) =
      go_to_change_for-Found c.offset s h ready (suc (length s.before + length s.after))
        (omega arith) in
    let e = ap (λ (x : List Change). cursor t.before x t.pos) f.at in
    let well : IsWell (cursor t.before (f.here ∷ f.behind) t.pos) = subst IsWell e f.well in
    let cs = from_begin t.before (f.here ∷ f.behind) in
    let all_s = All-from_begin s.before s.after h.texts_before h.texts_after in
    let out_s = lines_of-apply (changes s) input all_s lines fit small in
    let inside : c.offset + c.del_cnt + all_del (changes s) ≤ length input + all_add (changes s) =
      omega (arith, length-out (changes s) input all_s fit, within, ap length out_s) in
    let same : changes t ≡ cs = ap (from_begin t.before) f.at in
    let fit_t : needs cs ≤ length input =
      omega (arith, f.room (length input) fit (omega (arith, inside)), ap needs same) in
    let all_t = All-from_begin t.before (f.here ∷ f.behind) well.texts_before well.texts_after in
    let few_here : f.here.del_cnt + c.del_cnt < 2 ^ 64 =
      here_small t.before f.here f.behind (omega (arith, fit_t, small)) few in
    let d = edit_cursor c t.before f.here f.behind t.pos hc few_here well f.line_lem in
    let out_t : out cs input ≡ out (changes s) input =
      sym (lines_of-apply cs input all_t lines fit_t small)
      ∙ ap (λ (x : List Change). lines_of (apply_against_file x input)) (sym same)
      ∙ ap lines_of (f.same.on input)
      ∙ out_s in
    let fit_d : needs (from_begin t.before d.list) ≤ length input =
      d.room (length input) fit_t (
        omega (arith, length-out cs input all_t fit_t, within, ap length out_s, ap length out_t)) in
    let (merged, needed, on_change) = merge-IsWell (cursor t.before d.list t.pos) d.well in
    (
      merge (cursor t.before d.list t.pos),
      ap
            (λ (o : Option FileChanges).
              then_merge
                (then_add c (checked c.offset (then_delete c.del_cnt (checked c.offset o)))))
            (sought ∙ ap some e)
          ∙ ap then_merge d.result,
      merged,
      on_change d.on_change,
      omega (arith, fit_d, needed),
      (merge-SameEffect (cursor t.before d.list t.pos)
              (omega (arith, all_del-le (from_begin t.before d.list)))).on
            input
          ∙ apply_against_file-out (from_begin t.before d.list) input
              (omega (arith, all_del-le (from_begin t.before d.list)))
          ∙ ap flat (d.lines input fit_t)
          ∙ ap (λ (o : Lines). flat (edit_lines c.offset c.del_cnt (lines_of c.add) o))
              (out_t ∙ sym out_s)
          ∙ sym (apply-one c (lines_of (apply_against_file (changes s) input)) few),
    )
