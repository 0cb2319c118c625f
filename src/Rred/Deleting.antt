-- ===== src/Rred/Deleting.antt =====
-- What the rounds of delete_lines of methods/rred.cc do to the lines that are written.
use aptum.Prelude.{
  ℕ, zero, suc, ◌+◌, ◌-◌, ◌≤◌, ◌≡◌, refl, sym, ap, ◌∙◌, inl, inr, ◌⊎◌, List, [], ◌∷◌, ◌++◌, arith,
  take, drop, length,
}
use aptum.Rred.Changes.{Change}
use aptum.Rred.Lines.{out, lines_of}
use aptum.Rred.Meaning.{drop_add}

abbrev pub Lines : Type 0
Lines = List (List ℕ)

drop_count : (m n : ℕ) (a : Lines) → m ≡ n → drop m a ≡ drop n a
drop_count m n a e = ap (λ (k : ℕ). drop k a) e

pub drop-append : (n : ℕ) (a b : Lines) → drop n (a ++ b) ≡ drop n a ++ drop (n - length a) b
drop-append zero [] b = drop_count 0 (0 - 0) b (omega arith)
drop-append zero (x ∷ a) b =
    ap (λ (t : Lines). (x ∷ a) ++ t) (drop_count 0 (0 - suc (length a)) b (omega arith))
drop-append (suc n) [] b = drop_count (suc n) (suc n - 0) b (omega arith)
drop-append (suc n) (x ∷ a) b =
    drop-append n a b
    ∙ ap (λ (t : Lines). drop n a ++ t)
        (drop_count (n - length a) (suc n - suc (length a)) b (omega arith))

pub length-take : (n : ℕ) (a : Lines) → n ≤ length a → length (take n a) ≡ n
length-take zero a h = refl
length-take (suc n) [] h = absurd (omega arith)
length-take (suc n) (x ∷ a) h = omega (arith, length-take n a (omega arith))

pub length-drop : (n : ℕ) (a : Lines) → length (drop n a) ≡ length a - n
length-drop zero a = omega arith
length-drop (suc n) [] = omega arith
length-drop (suc n) (x ∷ a) = omega (arith, length-drop n a)

pub drop_all : (n : ℕ) (a : Lines) → length a ≤ n → drop n a ≡ []
drop_all zero [] h = refl
drop_all zero (x ∷ a) h = absurd (omega arith)
drop_all (suc n) [] h = refl
drop_all (suc n) (x ∷ a) h = drop_all n a (omega arith)

take-nil : (n : ℕ) (a : Lines) → a ≡ [] → take n a ≡ []
take-nil zero a e = refl
take-nil (suc n) a e = rw e refl

drop-take : (d o : ℕ) (a : Lines) → d ≤ o → drop d (take o a) ≡ take (o - d) (drop d a)
drop-take zero o a h = ap (λ (k : ℕ). take k a) (omega arith)
drop-take (suc d) zero a h = absurd (omega arith)
drop-take (suc d) (suc o) [] h = sym (take-nil (suc o - suc d) [] refl)
drop-take (suc d) (suc o) (x ∷ a) h =
    drop-take d o a (omega arith) ∙ ap (λ (k : ℕ). take k (drop d a)) (omega arith)

-- k is the least of n and cnt, as the code takes it.
abbrev pub IsLeast : ℕ → ℕ → ℕ → Type 0
IsLeast k n cnt = ((k ≡ n) × (n ≤ cnt)) ⊎ ((k ≡ cnt) × (cnt ≤ n))

drop-IsLeast : (k n cnt : ℕ) (a : Lines) → length a ≡ n → IsLeast k n cnt → drop cnt a ≡ drop k a
drop-IsLeast k n cnt a len (inl (e, le)) =
    drop_all cnt a (omega (arith, len)) ∙ sym (drop_all k a (omega (arith, len)))
drop-IsLeast k n cnt a len (inr (e, le)) = drop_count cnt k a (sym e)

-- The lines of a change go first, and then those behind it.
pub drop-change :
    (k n cnt : ℕ) (a a' b : Lines)
    → length a ≡ n
    → IsLeast k n cnt
    → drop k a ≡ a'
    → drop cnt (a ++ b) ≡ a' ++ drop (cnt - k) b
drop-change k n cnt a a' b len least cut =
    drop-append cnt a b
    ∙ ap (λ (t : Lines). t ++ drop (cnt - length a) b) (drop-IsLeast k n cnt a len least ∙ cut)
    ∙ ap (λ (t : Lines). a' ++ t) (drop_count (cnt - length a) (cnt - k) b (counts least))
  where
    counts : IsLeast k n cnt → cnt - length a ≡ cnt - k
    counts (inl (e, le)) = omega (arith, len)
    counts (inr (e, le)) = omega (arith, len)

-- The kept lines of the next change go, which are lines of the input, and then the rest of it.
pub drop-next :
    (y first : Change) (a further : List Change) (left del m del' : ℕ) (i : Lines)
    → IsLeast del y.offset left
    → m ≡ left - del
    → first.offset ≡ y.offset - del
    → first.del_cnt ≡ y.del_cnt
    → y.offset ≤ length i
    → (m ≡ 0 → del' ≡ 0)
    → drop m (lines_of y.add ++ out a (drop y.del_cnt (drop y.offset i)))
      ≡ lines_of first.add ++ out further (drop (y.del_cnt + del') (drop y.offset i))
    → drop left (out (y ∷ a) i) ≡ out (first ∷ further) (drop (del + del') i)
unfolding out
drop-next y first a further left del m del' i least em off dc fit none ih =
    drop-append left (take y.offset i) body
    ∙ ap (λ (t : Lines). t ++ drop (left - length (take y.offset i)) body) (kept least)
    ∙ ap (λ (t : Lines). take first.offset (drop (del + del') i) ++ t)
        (drop_count (left - length (take y.offset i)) m body (counts least)
          ∙ ih
          ∙ ap (λ (t : Lines). lines_of first.add ++ out further t) behind)
  where
    body : Lines
    body = lines_of y.add ++ out a (drop y.del_cnt (drop y.offset i))

    counts : IsLeast del y.offset left → left - length (take y.offset i) ≡ m
    counts (inl (e, le)) = omega (arith, em, length-take y.offset i fit)
    counts (inr (e, le)) = omega (arith, em, length-take y.offset i fit)

    kept :
        IsLeast del y.offset left
        → drop left (take y.offset i) ≡ take first.offset (drop (del + del') i)
    kept (inl (e, le)) =
        let gone : first.offset ≡ 0 = omega (arith, off) in
        drop_all left (take y.offset i) (omega (arith, length-take y.offset i fit))
        ∙ sym (ap (λ (k : ℕ). take k (drop (del + del') i)) gone)
    kept (inr (e, le)) =
        drop_count left del (take y.offset i) (sym e)
        ∙ drop-take del y.offset i (omega arith)
        ∙ ap (λ (k : ℕ). take k (drop del i)) (sym off)
        ∙ ap (λ (t : Lines). take first.offset t)
            (drop_count del (del + del') i (omega (arith, none (omega (arith, em)))))

    small : IsLeast del y.offset left → del ≤ y.offset
    small (inl (e, le)) = omega arith
    small (inr (e, le)) = omega arith

    behind :
        drop (y.del_cnt + del') (drop y.offset i)
        ≡ drop first.del_cnt (drop first.offset (drop (del + del') i))
    behind =
        sym (drop_add y.offset (y.del_cnt + del') i)
        ∙ drop_count (y.offset + (y.del_cnt + del')) (del + del' + first.offset + first.del_cnt) i
            (omega (arith, off, dc, small least))
        ∙ drop_add (del + del' + first.offset) first.del_cnt i
        ∙ ap (drop first.del_cnt) (drop_add (del + del') first.offset i)
