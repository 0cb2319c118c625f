-- ===== src/Rred/Delete.antt =====
-- FileChanges::delete_lines of methods/rred.cc.
use aptum.Prelude.{
  ℕ, ◌+◌, ◌-◌, ◌≤◌, ◌≡◌, refl, inl, inr, List, [], ◌∷◌, Option, none, some, arith, All, ltb, tests,
  ◌==◌, if◌then◌else◌, Bool-cases, sym, ap, ◌∙◌, ◌++◌, length, drop, ◌^◌, ◌%◌, ◌<◌,
}
use aptum.Rred.Changes.{Change, FileChanges, skip_lines}
use aptum.Rred.Texts.{skip_lines_lem, IsText}
use aptum.Rred.Sizes.{all_add, all_del, needs}
use aptum.Rred.Lines.{out, lines_of, lines_of-IsText, drop-lines_of}
use aptum.Rred.Deleting.{Lines, IsLeast, drop-change, drop-next, length-drop}
use aptum.Rred.Meaning.{drop_add}
use aptum.Rred.Cursor.{IsSound, IsWell}

abbrev pub least : ℕ → ℕ → ℕ
least del cnt = if ltb cnt del then cnt else del

-- What the rounds from a change on add to the deletion of `where`, and what becomes of the changes.
pub record Deletion : Type 0 where
  pub del : ℕ
  pub first : Change
  pub further : List Change

unfoldable pub delete_further : Change → ℕ → Option Deletion → Option Deletion
delete_further x del none = none
delete_further x del (some r) =
    some (record { del = del + r.del; first = x; further = r.first ∷ r.further })

-- The rounds of the loop from the change `x` on.
unfoldable pub delete_from : ℕ → Change → List Change → Option Deletion
delete_from cnt x [] =
    if cnt == 0
    then some (record { del = 0; first = x; further = [] })
    else elim (skip_lines (least x.add_cnt cnt) x) [
      | none ↦ none
      | some x' ↦ some (record { del = cnt - least x.add_cnt cnt; first = x'; further = [] })
    ]
delete_from cnt x (y ∷ a) =
    if cnt == 0
    then some (record { del = 0; first = x; further = y ∷ a })
    else elim (skip_lines (least x.add_cnt cnt) x) [
      | none ↦ none
      | some x' ↦
          let left_over = cnt - least x.add_cnt cnt in
          let del = least y.offset left_over in
          delete_further x' del
            (delete_from (left_over - del) (record y { offset = y.offset - del }) a)
    ]

unfoldable pub delete_where : FileChanges → Option Deletion → Option FileChanges
delete_where s none = none
delete_where s (some r) = some (record s {
  after = record r.first { del_cnt = (r.first.del_cnt + r.del) % 2 ^ 64 } ∷ r.further;
})

unfoldable pub delete_lines : ℕ → FileChanges → Option FileChanges
delete_lines cnt s = elim s.after [ [] ↦ none | w ∷ a ↦ delete_where s (delete_from cnt w a) ]

least-IsLeast : (del cnt : ℕ) → IsLeast (least del cnt) del cnt
least-IsLeast del cnt = elim (Bool-cases (ltb cnt del)) [
  | inl e ↦ rw e (inr (refl, omega (tests, e)))
  | inr e ↦ rw e (inl (refl, ground arith))
]

least-le : (del cnt : ℕ) → (least del cnt ≤ del) × (least del cnt ≤ cnt)
least-le del cnt = elim (Bool-cases (ltb cnt del)) [
  | inl e ↦ rw e (ground arith)
  | inr e ↦ rw e (ground arith)
]

-- Each line to delete is an added line that is skipped, or a line of the input.
pub record Deletes (cnt : ℕ) (x : Change) (a : List Change) (r : Option Deletion) : Type 0 where
  pub got : Deletion
  pub result : r ≡ some got
  pub offset_lem : got.first.offset ≡ x.offset
  pub del_lem : got.first.del_cnt ≡ x.del_cnt
  pub first_sound : IsSound got.first
  pub further_sound : All IsSound got.further
  pub balance : all_add (got.first ∷ got.further) + cnt ≡ all_add (x ∷ a) + got.del
  pub del_le : got.del ≤ cnt
  pub none_left : cnt ≡ 0 → (got.del ≡ 0) × (needs (got.first ∷ got.further) ≡ needs (x ∷ a))
  pub room :
      (n : ℕ)
      → needs (x ∷ a) ≤ n
      → x.offset + cnt + all_del (x ∷ a) ≤ n + all_add (x ∷ a)
      → needs (got.first ∷ got.further) + got.del ≤ n
  pub lines :
      (i : List (List ℕ))
      → x.del_cnt + needs a ≤ length i
      → drop cnt (lines_of x.add ++ out a (drop x.del_cnt i))
        ≡ lines_of got.first.add ++ out got.further (drop (x.del_cnt + got.del) i)

further_balance :
    (x y : Change) (a : List Change) (k del cnt : ℕ) (r : Deletion)
    → k ≤ x.add_cnt
    → k ≤ cnt
    → del ≤ cnt - k
    → all_add (r.first ∷ r.further) + (cnt - k - del)
      ≡ all_add (record y { offset = y.offset - del } ∷ a) + r.del
    → (x.add_cnt - k + all_add (r.first ∷ r.further)) + cnt ≡ all_add (x ∷ y ∷ a) + (del + r.del)
unfolding all_add
further_balance x y a k del cnt r low high le ih = omega (arith, low, high, le, ih)

end_room :
    (x : Change) (cnt k n : ℕ)
    → IsLeast k x.add_cnt cnt
    → x.offset + x.del_cnt ≤ n
    → x.offset + cnt + x.del_cnt ≤ n + x.add_cnt
    → x.offset + x.del_cnt + (cnt - k) ≤ n
end_room x cnt k n (inl (e, le)) h g = omega arith
end_room x cnt k n (inr (e, le)) h g = omega arith

cut_lines :
    (x : Change) (k : ℕ) (front rest : List ℕ)
    → x.add ≡ front ++ rest
    → IsText k front
    → drop k (lines_of x.add) ≡ lines_of rest
cut_lines x k front rest cut text =
    ap (λ (s : List ℕ). drop k (lines_of s)) cut ∙ drop-lines_of k front rest text

end_lines :
    (x : Change) (cnt k : ℕ) (front rest : List ℕ) (i : Lines)
    → IsSound x
    → IsLeast k x.add_cnt cnt
    → x.add ≡ front ++ rest
    → IsText k front
    → drop cnt (lines_of x.add ++ out [] (drop x.del_cnt i))
      ≡ lines_of rest ++ out [] (drop (x.del_cnt + (cnt - k)) i)
unfolding out
end_lines x cnt k front rest i h first_least cut text =
    drop-change k x.add_cnt cnt (lines_of x.add) (lines_of rest) (drop x.del_cnt i)
      (lines_of-IsText x.add_cnt x.add h.text).0 first_least (cut_lines x k front rest cut text)
    ∙ ap (λ (t : Lines). lines_of rest ++ t) (sym (drop_add x.del_cnt (cnt - k) i))

next_room :
    (x y : Change) (a : List Change) (cnt k del n : ℕ) (r : Deletion)
    → IsLeast k x.add_cnt cnt
    → IsLeast del y.offset (cnt - k)
    → (cnt - k - del ≡ 0
        → (r.del ≡ 0)
          × (needs (r.first ∷ r.further) ≡ needs (record y { offset = y.offset - del } ∷ a)))
    → ((m : ℕ)
        → needs (record y { offset = y.offset - del } ∷ a) ≤ m
        → y.offset - del + (cnt - k - del) + all_del (y ∷ a) ≤ m + all_add (y ∷ a)
        → needs (r.first ∷ r.further) + r.del ≤ m)
    → needs (x ∷ y ∷ a) ≤ n
    → x.offset + cnt + all_del (x ∷ y ∷ a) ≤ n + all_add (x ∷ y ∷ a)
    → x.offset + x.del_cnt + needs (r.first ∷ r.further) + (del + r.del) ≤ n
unfolding needs all_del all_add
next_room x y a cnt k del n r (inl (e, le)) (inl (f, lf)) left_none ih fits inside = omega (
  arith,
  ih (n - (x.offset + x.del_cnt + del)) (omega (arith, fits)) (omega (arith, inside, fits)),
  fits,
)
next_room x y a cnt k del n r (inr (e, le)) (inl (f, lf)) left_none ih fits inside =
    omega (arith, left_none (omega arith), fits)
next_room x y a cnt k del n r first_least (inr (f, lf)) left_none ih fits inside =
    omega (arith, left_none (omega arith), fits)

next_lines :
    (x y : Change) (a : List Change) (cnt k del : ℕ) (front rest : List ℕ) (r : Deletion)
    (i : Lines)
    → IsSound x
    → IsLeast k x.add_cnt cnt
    → IsLeast del y.offset (cnt - k)
    → x.add ≡ front ++ rest
    → IsText k front
    → r.first.offset ≡ y.offset - del
    → r.first.del_cnt ≡ y.del_cnt
    → (cnt - k - del ≡ 0 → r.del ≡ 0)
    → ((j : Lines)
        → y.del_cnt + needs a ≤ length j
        → drop (cnt - k - del) (lines_of y.add ++ out a (drop y.del_cnt j))
          ≡ lines_of r.first.add ++ out r.further (drop (y.del_cnt + r.del) j))
    → x.del_cnt + needs (y ∷ a) ≤ length i
    → drop cnt (lines_of x.add ++ out (y ∷ a) (drop x.del_cnt i))
      ≡ lines_of rest ++ out (r.first ∷ r.further) (drop (x.del_cnt + (del + r.del)) i)
unfolding needs
next_lines x y a cnt k del front rest r i h first_least least_y cut text off dc left_none ih fits =
    let i' = drop x.del_cnt i in
    drop-change k x.add_cnt cnt (lines_of x.add) (lines_of rest) (out (y ∷ a) i')
      (lines_of-IsText x.add_cnt x.add h.text).0 first_least (cut_lines x k front rest cut text)
    ∙ ap (λ (t : Lines). lines_of rest ++ t)
        (drop-next y r.first a r.further (cnt - k) del (cnt - k - del) r.del i' least_y refl off dc
            (omega (arith, fits, length-drop x.del_cnt i)) left_none
            (ih (drop y.offset i')
              (omega (arith, fits, length-drop x.del_cnt i, length-drop y.offset i')))
          ∙ ap (out (r.first ∷ r.further)) (sym (drop_add x.del_cnt (del + r.del) i)))

nothing :
    (cnt : ℕ) (x : Change) (a : List Change) (i : Lines)
    → cnt ≡ 0
    → drop cnt (lines_of x.add ++ out a (drop x.del_cnt i))
      ≡ lines_of x.add ++ out a (drop (x.del_cnt + 0) i)
nothing cnt x a i e =
    ap (λ (c : ℕ). drop c (lines_of x.add ++ out a (drop x.del_cnt i))) e
    ∙ ap (λ (c : ℕ). lines_of x.add ++ out a (drop c i)) (omega arith)

delete_from-Deletes :
    (a : List Change) (cnt : ℕ) (x : Change)
    → IsSound x
    → All IsSound a
    → Deletes cnt x a (delete_from cnt x a)
unfolding delete_from delete_further all_add all_del needs
delete_from-Deletes [] cnt x h ha = elim (Bool-cases (cnt == 0)) [
  | inl e ↦ rw e (record {
    got = record { del = 0; first = x; further = [] };
    result = refl;
    offset_lem = refl;
    del_lem = refl;
    first_sound = h;
    further_sound = tt;
    balance = ground arith;
    del_le = omega arith;
    none_left = λ _. (refl, refl);
    room = λ n fits inside. omega (arith, fits);
    lines = λ i fits. nothing cnt x [] i (ground arith);
  })
  | inr e ↦
      let (low, high) = least-le x.add_cnt cnt in
      let k = least x.add_cnt cnt in
      let cut = skip_lines_lem x.offset x.del_cnt x.add_cnt x.add k h.text h.small low in
      rw (e, cut.result)
        (record {
          got = _;
          result = refl;
          offset_lem = refl;
          del_lem = refl;
          first_sound = record { text = cut.rest_text; small = omega (arith, h.small) };
          further_sound = tt;
          balance = omega (arith, low, high);
          del_le = omega arith;
          none_left = λ z. absurd (ground arith);
          room = λ n fits inside. omega (
            arith,
            end_room x cnt k n (least-IsLeast x.add_cnt cnt) (omega (arith, fits))
                (omega (arith, inside)),
          );
          lines = λ i fits.
              end_lines x cnt k cut.front cut.rest i h (least-IsLeast x.add_cnt cnt) cut.cut
                cut.front_text;
        })
]
delete_from-Deletes (y ∷ a) cnt x h ha = elim (Bool-cases (cnt == 0)) [
  | inl e ↦ rw e (record {
    got = record { del = 0; first = x; further = y ∷ a };
    result = refl;
    offset_lem = refl;
    del_lem = refl;
    first_sound = h;
    further_sound = ha;
    balance = ground arith;
    del_le = omega arith;
    none_left = λ _. (refl, refl);
    room = λ n fits inside. omega (arith, fits);
    lines = λ i fits. nothing cnt x (y ∷ a) i (ground arith);
  })
  | inr e ↦
      let (low, high) = least-le x.add_cnt cnt in
      let k = least x.add_cnt cnt in
      let cut = skip_lines_lem x.offset x.del_cnt x.add_cnt x.add k h.text h.small low in
      let (within, del_high) = least-le y.offset (cnt - k) in
      let del = least y.offset (cnt - k) in
      let y' : Change = record y { offset = y.offset - del } in
      let ih =
        delete_from-Deletes a (cnt - k - del) y' (record { text = ha.0.text; small = ha.0.small })
          ha.1 in
      rw (e, cut.result)
        (rw ih.result (record {
          got = record {
            del = del + ih.got.del;
            first = record x { add_cnt = x.add_cnt - k; add = cut.rest };
            further = ih.got.first ∷ ih.got.further;
          };
          result = refl;
          offset_lem = refl;
          del_lem = refl;
          first_sound = record { text = cut.rest_text; small = omega (arith, h.small) };
          further_sound = (ih.first_sound, ih.further_sound);
          balance = further_balance x y a k del cnt ih.got low high del_high ih.balance;
          del_le = omega (arith, high, del_high, ih.del_le);
          none_left = λ z. absurd (ground arith);
          room = λ n fits inside.
              next_room x y a cnt k del n ih.got (least-IsLeast x.add_cnt cnt)
                (least-IsLeast y.offset (cnt - k)) ih.none_left ih.room fits inside;
          lines = λ i fits.
              next_lines x y a cnt k del cut.front cut.rest ih.got i h (least-IsLeast x.add_cnt cnt)
                (least-IsLeast y.offset (cnt - k)) cut.cut cut.front_text ih.offset_lem ih.del_lem
                (λ z. (ih.none_left z).0) ih.lines fits;
        }))
]

-- `where` becomes `first`, which deletes `del` lines more, and the balance holds for the changes from
-- it on. The lines behind its offset are those of before but for the first cnt, and no more lines are needed
-- than the input has, if it has those.
pub record Deleted (cnt : ℕ) (w : Change) (a : List Change) (s t : FileChanges) : Type 0 where
  pub first : Change
  pub further : List Change
  pub del : ℕ
  pub at : t ≡ record s { after = first ∷ further }
  pub offset_lem : first.offset ≡ w.offset
  pub del_lem : first.del_cnt ≡ w.del_cnt + del
  pub well : IsWell t
  pub balance : all_add t.after + cnt ≡ all_add s.after + del
  pub room :
      (n : ℕ)
      → needs (w ∷ a) ≤ n
      → w.offset + cnt + all_del (w ∷ a) ≤ n + all_add (w ∷ a)
      → needs (first ∷ further) ≤ n
  pub lines :
      (i : List (List ℕ))
      → w.del_cnt + needs a ≤ length i
      → drop cnt (lines_of w.add ++ out a (drop w.del_cnt i))
        ≡ lines_of first.add ++ out further (drop first.del_cnt i)

-- On a well-formed list with the cursor on a change, delete_lines succeeds where the lines to go and those that
-- the change deletes are fewer than 2 ^ 64 in all: `where` keeps its place, the list stays well formed, and each of the lines is either an
-- added line that is added no more or one more deleted line of the input; the lines behind the place of the
-- cursor's change are those of before but for the first of them.
pub delete_lines-Deleted :
    (cnt : ℕ) (b : List Change) (w : Change) (a : List Change) (p : ℕ)
    → w.del_cnt + cnt < 2 ^ 64
    → IsWell (record { before = b; after = w ∷ a; pos = p })
    → (t : FileChanges) × (delete_lines cnt (record { before = b; after = w ∷ a; pos = p })
        ≡ some t)
      × Deleted cnt w a (record { before = b; after = w ∷ a; pos = p }) t
unfolding delete_lines delete_where all_add needs
delete_lines-Deleted cnt b w a p small h =
    let r = delete_from-Deletes a cnt w h.texts_after.0 h.texts_after.1 in
    let fits : (r.got.first.del_cnt + r.got.del) % 2 ^ 64 ≡ r.got.first.del_cnt + r.got.del =
      omega (arith, small, r.del_lem, r.del_le) in
    let w' : Change = record r.got.first { del_cnt = (r.got.first.del_cnt + r.got.del) % 2 ^ 64 } in
    let t : FileChanges = record { before = b; after = w' ∷ r.got.further; pos = p } in
    (
      t,
      rw r.result refl,
      record {
        first = w';
        further = r.got.further;
        del = r.got.del;
        at = refl;
        offset_lem = r.offset_lem;
        del_lem = omega (arith, fits, r.del_lem);
        well = record {
          pos_lem = h.pos_lem;
          texts_before = h.texts_before;
          texts_after =
              (record { text = r.first_sound.text; small = r.first_sound.small }, r.further_sound);
        };
        balance = r.balance;
        room = λ n within inside. omega (arith, fits, r.room n within inside);
        lines = λ i within.
            r.lines i within
            ∙ ap (λ (k : ℕ). lines_of r.got.first.add ++ out r.got.further (drop k i))
                (omega (arith, fits, r.del_lem));
      },
    )
