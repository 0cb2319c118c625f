-- ===== src/Rred/Meaning.antt =====
-- What apply_against_file of methods/rred.cc writes does not depend on how the changes are cut up.
use aptum.Prelude.{
  ℕ, zero, suc, ◌+◌, ◌-◌, ◌≤◌, ◌≡◌, refl, ap, ◌∙◌, List, [], ◌∷◌, ◌++◌, append_assoc, arith, take,
  drop,
}
use native.Mathlib.Nat.{zero-add, suc-add}
use aptum.Rred.Changes.{Change, change_at, flat, skip_count, apply_against_file, from_begin}

-- Two lists of changes do the same to every file.
pub record SameEffect (cs ds : List Change) : Type 0 where
  pub on : (input : List (List ℕ)) → apply_against_file cs input ≡ apply_against_file ds input

pub SameEffect-refl : (cs : List Change) → SameEffect cs cs
SameEffect-refl cs = record { on = λ input. refl }

pub SameEffect-trans :
    {cs ds es : List Change} → SameEffect cs ds → SameEffect ds es → SameEffect cs es
SameEffect-trans h k = record { on = λ input. h.on input ∙ k.on input }

pub SameEffect-cons :
    (c : Change) {cs ds : List Change} → SameEffect cs ds → SameEffect (c ∷ cs) (c ∷ ds)
unfolding apply_against_file
SameEffect-cons c h = record {
  on = λ input.
      ap (λ (t : List ℕ). flat (take c.offset input) ++ (c.add ++ t))
        (h.on (drop (skip_count c.del_cnt) (drop c.offset input)));
}

-- The changes before the cursor stay as they are.
pub SameEffect-from_begin :
    (b : List Change) {cs ds : List Change}
    → SameEffect cs ds
    → SameEffect (from_begin b cs) (from_begin b ds)
unfolding from_begin
SameEffect-from_begin [] h = h
SameEffect-from_begin (c ∷ b) h = SameEffect-from_begin b (SameEffect-cons c h)

pub flat-append : (xs ys : List (List ℕ)) → flat (xs ++ ys) ≡ flat xs ++ flat ys
unfolding flat
flat-append [] ys = refl
flat-append (x ∷ xs) ys = rw (flat-append xs ys, append_assoc)

take_add : (m n : ℕ) (xs : List (List ℕ)) → take (m + n) xs ≡ take m xs ++ take n (drop m xs)
take_add zero n xs = rw zero-add
take_add (suc m) zero [] = rw suc-add
take_add (suc m) (suc n) [] = rw suc-add
take_add (suc m) n (x ∷ xs) = rw suc-add (ap (λ (t : List (List ℕ)). x ∷ t) (take_add m n xs))

pub drop_add : (m n : ℕ) (xs : List (List ℕ)) → drop (m + n) xs ≡ drop n (drop m xs)
drop_add zero n xs = rw zero-add
drop_add (suc m) zero [] = rw suc-add
drop_add (suc m) (suc n) [] = rw suc-add
drop_add (suc m) n (x ∷ xs) = rw suc-add (drop_add m n xs)

flat-take-drop : (n : ℕ) (xs : List (List ℕ)) → flat (take n xs) ++ flat (drop n xs) ≡ flat xs
unfolding flat
flat-take-drop zero xs = refl
flat-take-drop (suc n) [] = refl
flat-take-drop (suc n) (x ∷ xs) = rw (append_assoc, flat-take-drop n xs)

-- An empty change in front of the end.
pub effect_end : (o : ℕ) → SameEffect (change_at o ∷ []) []
unfolding apply_against_file skip_count
effect_end o = record { on = λ input. flat-take-drop o input }

kept :
    (o n : ℕ) (rest : List (List ℕ) → List ℕ) (input : List (List ℕ))
    → flat (take o input) ++ (flat (take n (drop o input)) ++ rest (drop n (drop o input)))
      ≡ flat (take (o + n) input) ++ rest (drop (o + n) input)
kept o n rest input = rw (take_add o n input, drop_add o n input, flat-append, append_assoc)

-- A change cut within its kept lines.
pub effect_insert :
    (o : ℕ) (w : Change) (a : List Change)
    → o ≤ w.offset
    → SameEffect (change_at o ∷ record w { offset = w.offset - o } ∷ a) (w ∷ a)
unfolding apply_against_file skip_count
effect_insert o w a h = record {
  on = λ input.
      let rest =
        λ (i : List (List ℕ)). w.add ++ apply_against_file a (drop (skip_count w.del_cnt) i) in
      kept o (w.offset - o) rest input
      ∙ ap (λ (m : ℕ). flat (take m input) ++ rest (drop m input)) (omega arith);
}

-- A change cut within its added text.
pub effect_split :
    (w : Change) (front rest : List ℕ) (k n : ℕ) (a : List Change)
    → w.add ≡ front ++ rest
    → SameEffect
        (record w { add_cnt = k; add = front }
          ∷ record { offset = 0; del_cnt = 0; add_cnt = n; add = rest }
          ∷ a)
        (w ∷ a)
unfolding apply_against_file skip_count
effect_split w front rest k n a e = record {
  on = λ input.
      ap (λ (t : List ℕ). flat (take w.offset input) ++ t) (unfold flat in rw (e, append_assoc));
}
