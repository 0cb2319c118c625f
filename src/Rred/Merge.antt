-- ===== src/Rred/Merge.antt =====
-- FileChanges::merge of methods/rred.cc, and that it changes no file.
use aptum.Prelude.{
  ℕ, ◌+◌, ◌-◌, ◌^◌, ◌<◌, ◌≡◌, refl, sym, ap, ◌∙◌, inl, inr, true, List, [], ◌∷◌, ◌++◌, arith,
  append_assoc, append-nil, ◌==◌, ◌||◌, take, if◌then◌else◌, is_empty, drop, Bool-cases,
}
use mathlib.Core.Path.{subst}
use aptum.Rred.Changes.{
  Change, FileChanges, flat, skip_count, apply_against_file, changes, from_begin,
}
use aptum.Rred.Sizes.{all_del, all_del-from_begin}
use aptum.Rred.Meaning.{SameEffect, SameEffect-refl, SameEffect-from_begin, drop_add}

-- `where` steps to the left while it keeps no line of the input.
unfoldable pub merge_left : List Change → List Change → ℕ → FileChanges
merge_left [] a pos = record { before = []; after = a; pos = pos }
merge_left (c ∷ b) [] pos = record { before = c ∷ b; after = []; pos = pos }
merge_left (c ∷ b) (w ∷ a) pos =
    let moved = merge_left b (c ∷ w ∷ a) (pos - (c.offset + c.add_cnt)) in
    if w.offset == 0 then moved else record { before = c ∷ b; after = w ∷ a; pos = pos }

-- The change `where` takes over the change `next`, whose text it takes if it has none.
abbrev pub take_over : Change → Change → Change
take_over w n =
    if is_empty n.add
    then record w { del_cnt = w.del_cnt + n.del_cnt }
    else record n { offset = w.offset; del_cnt = w.del_cnt + n.del_cnt }

-- `where`, and the changes behind it from `next` on.
unfoldable pub merge_next : Change → List Change → Change × List Change
merge_next w [] = (w, [])
merge_next w (n ∷ a) =
    let erased = merge_next (take_over w n) a in
    let skipped = merge_next (record w { del_cnt = w.del_cnt + n.del_cnt }) a in
    if n.offset == 0
    then if is_empty n.add || is_empty w.add
      then erased
      else (skipped.0, record n { del_cnt = 0 } ∷ skipped.1)
    else (w, n ∷ a)

unfoldable pub merge_behind : FileChanges → FileChanges
merge_behind s = elim s.after [
  | [] ↦ s
  | w ∷ a ↦ record s { after = (merge_next w a).0 ∷ (merge_next w a).1 }
]

unfoldable pub merge : FileChanges → FileChanges
merge s = merge_behind (merge_left s.before s.after s.pos)

-- What is written from a change on, with a text behind its own.
abbrev written : Change → List ℕ → List Change → List (List ℕ) → List ℕ
written w t a input =
    flat (take w.offset input)
    ++ (w.add ++ (t ++ apply_against_file a (drop (skip_count w.del_cnt) (drop w.offset input))))

skip_count-add : (m n : ℕ) → m + n < 2 ^ 31 → skip_count (m + n) ≡ skip_count m + skip_count n
unfolding skip_count
skip_count-add m n h = ground arith

-- A change that keeps no line is skipped and added behind the one before it.
written-next :
    (w n : Change) (t : List ℕ) (a : List Change) (input : List (List ℕ))
    → n.offset ≡ 0
    → w.del_cnt + n.del_cnt < 2 ^ 31
    → written w t (n ∷ a) input
      ≡ written (record w { del_cnt = w.del_cnt + n.del_cnt }) (t ++ n.add) a input
unfolding apply_against_file flat
written-next w n t a input e h =
    rw (e, skip_count-add w.del_cnt n.del_cnt h, drop_add, append_assoc)

written-text :
    (w n : Change) (t : List ℕ) (a : List Change) (input : List (List ℕ))
    → n.offset ≡ 0
    → written w t (record n { del_cnt = 0 } ∷ a) input ≡ written w (t ++ n.add) a input
unfolding apply_against_file flat skip_count
written-text w n t a input e = rw (e, append_assoc)

empty-nil : (s : List ℕ) → is_empty s ≡ true → s ≡ []
empty-nil [] e = refl
empty-nil (c ∷ s) e = cc

take_over-written :
    (w n : Change) (t : List ℕ) (a : List Change) (input : List (List ℕ))
    → (is_empty w.add ≡ true → t ≡ [])
    → (is_empty n.add || is_empty w.add) ≡ true
    → written (record w { del_cnt = w.del_cnt + n.del_cnt }) (t ++ n.add) a input
      ≡ written (take_over w n) t a input
take_over-written w n t a input h e = elim (Bool-cases (is_empty n.add)) [
  | inl m ↦ rw m (rw (empty-nil n.add m, append-nil))
  | inr m ↦ let v : is_empty w.add ≡ true = ground arith in rw m (rw (empty-nil w.add v, h v))
]

take_over_del : (w n : Change) → (take_over w n).del_cnt ≡ w.del_cnt + n.del_cnt
take_over_del w n = elim (Bool-cases (is_empty n.add)) [ inl m ↦ rw m | inr m ↦ rw m ]

take_over_text :
    (w n : Change) (t : List ℕ)
    → (is_empty w.add ≡ true → t ≡ [])
    → is_empty (take_over w n).add ≡ true
    → t ≡ []
take_over_text w n t h = elim (Bool-cases (is_empty n.add)) [
  | inl m ↦ rw m h
  | inr m ↦ rw m (λ (q : is_empty n.add ≡ true). cc)
]

merge_next-written :
    (a : List Change) (w : Change) (t : List ℕ) (input : List (List ℕ))
    → (is_empty w.add ≡ true → t ≡ [])
    → w.del_cnt + all_del a < 2 ^ 31
    → written w t a input ≡ written (merge_next w a).0 t (merge_next w a).1 input
unfolding merge_next all_del
merge_next-written [] w t input h lt = refl
merge_next-written (n ∷ a) w t input h lt = elim (Bool-cases (n.offset == 0)) [
  | inl e ↦
      let z : n.offset ≡ 0 = ground arith in
      let step = written-next w n t a input z (omega (arith, lt)) in
      elim (Bool-cases (is_empty n.add || is_empty w.add)) [
        | inl v ↦
            rw (e, v)
              (step
                ∙ take_over-written w n t a input h v
                ∙ merge_next-written a (take_over w n) t input (take_over_text w n t h)
                    (omega (arith, lt, take_over_del w n)))
        | inr v ↦
            let w' : Change = record w { del_cnt = w.del_cnt + n.del_cnt } in
            let texts : is_empty w.add ≡ true → t ++ n.add ≡ [] = λ q. absurd (ground arith) in
            rw (e, v)
              (step
                ∙ merge_next-written a w' (t ++ n.add) input texts (omega (arith, lt))
                ∙ sym (written-text (merge_next w' a).0 n t (merge_next w' a).1 input z))
      ]
  | inr e ↦ rw e
]

merge_behind-SameEffect :
    (b a : List Change) (p : ℕ)
    → all_del a < 2 ^ 31
    → SameEffect
        (changes (merge_behind (record { before = b; after = a; pos = p })))
        (from_begin b a)
unfolding merge_behind changes apply_against_file all_del
merge_behind-SameEffect b [] p h = SameEffect-refl (from_begin b [])
merge_behind-SameEffect b (w ∷ a) p h =
    SameEffect-from_begin b
      (record { on = λ input. sym (merge_next-written a w [] input (λ e. refl) h) })

changes-merge_left : (b a : List Change) (p : ℕ) → changes (merge_left b a p) ≡ from_begin b a
unfolding merge_left changes from_begin
changes-merge_left [] a p = refl
changes-merge_left (c ∷ b) [] p = refl
changes-merge_left (c ∷ b) (w ∷ a) p = elim (Bool-cases (w.offset == 0)) [
  | inl e ↦ rw e (changes-merge_left b (c ∷ w ∷ a) (p - (c.offset + c.add_cnt)))
  | inr e ↦ rw e
]

-- Where fewer than 2 ^ 31 lines are deleted in all, merge leaves a list of changes that does to every
-- file what the list did before.
pub merge-SameEffect :
    (s : FileChanges) → all_del (changes s) < 2 ^ 31 → SameEffect (changes (merge s)) (changes s)
unfolding merge
merge-SameEffect s h =
    let m = merge_left s.before s.after s.pos in
    let e : from_begin m.before m.after ≡ changes s =
      unfold changes in changes-merge_left s.before s.after s.pos in
    let small : all_del m.after < 2 ^ 31 =
      omega (arith, h, all_del-from_begin m.before m.after, ap all_del e) in
    subst (λ (cs : List Change). SameEffect (changes (merge_behind m)) cs) e
      (merge_behind-SameEffect m.before m.after m.pos small)
