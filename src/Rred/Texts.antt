-- ===== src/Rred/Texts.antt =====
-- Change::skip_lines of methods/rred.cc on texts that hold the lines they are said to hold.
use aptum.Prelude.{
  ℕ, zero, suc, ◌-◌, ◌^◌, ◌≤◌, ◌<◌, ◌≡◌, refl, ap, ◌∙◌, Bool, true, false, ◌||◌, List, [], ◌∷◌,
  ◌++◌, append_assoc, some, arith, ◌==◌,
}
use native.Mathlib.Nat.{sub-zero, suc-sub-suc}
use aptum.Rred.Changes.{newline, after_newline, counts_agree, pred_size, skip_lines}

unfoldable pub has_newline : List ℕ → Bool
has_newline [] = false
has_newline (c ∷ s) = c == newline || has_newline s

-- The text is n lines, each ended by its newline.
abbrev pub IsText : ℕ → List ℕ → Type 0
IsText zero s = s ≡ []
IsText (suc n) s =
    (l : List ℕ) × (r : List ℕ) × (s ≡ l ++ newline ∷ r) × (has_newline l ≡ false) × IsText n r

after_newline-line :
    (l r : List ℕ) → has_newline l ≡ false → after_newline (l ++ newline ∷ r) ≡ some r
unfolding after_newline has_newline
after_newline-line [] r h = refl
after_newline-line (c ∷ l) r h = ground (arith, after_newline-line l r)

agree :
    (off del k n : ℕ) (r : List ℕ)
    → IsText n r
    → k ≤ n
    → counts_agree k (record { offset = off; del_cnt = del; add_cnt = n; add = r }) ≡ true
unfolding counts_agree
agree off del k zero r t h = rw t (ground arith)
agree off del k (suc n) [] (l, r, e, no_nl, t) h = absurd (nonempty l r e)
  where
    nonempty : (l r : List ℕ) → [] ≡ l ++ newline ∷ r → ⊥
    nonempty [] r e = cc
    nonempty (c ∷ l) r e = cc
agree off del k (suc n) (c ∷ s) t h = ground arith

skip_one :
    (off del n : ℕ) (s r : List ℕ) (k : ℕ)
    → after_newline s ≡ some r
    → suc n < 2 ^ 64
    → counts_agree k (record { offset = off; del_cnt = del; add_cnt = n; add = r }) ≡ true
    → skip_lines (suc k) (record { offset = off; del_cnt = del; add_cnt = suc n; add = s })
      ≡ skip_lines k (record { offset = off; del_cnt = del; add_cnt = n; add = r })
unfolding skip_lines
skip_one off del n s r k e lt ok =
    let p : pred_size (suc n) ≡ n = omega arith in rw (e, skip_lines) (rw p (rw ok))

-- What is left behind k skipped lines, and the skipped text in front of it.
pub record Skipped (off del n : ℕ) (s : List ℕ) (k : ℕ) : Type 0 where
  pub front : List ℕ
  pub rest : List ℕ
  pub result :
      skip_lines k (record { offset = off; del_cnt = del; add_cnt = n; add = s })
      ≡ some (record { offset = off; del_cnt = del; add_cnt = n - k; add = rest })
  pub cut : s ≡ front ++ rest
  pub front_text : IsText k front
  pub rest_text : IsText (n - k) rest

-- skip_lines of at most as many lines as there are succeeds and skips exactly those.
pub skip_lines_lem :
    (off del n : ℕ) (s : List ℕ) (k : ℕ) → IsText n s → n < 2 ^ 64 → k ≤ n → Skipped off del n s k
skip_lines_lem off del n s zero t lt h = record {
  front = [];
  rest = s;
  result = rw sub-zero (unfold skip_lines in refl);
  cut = refl;
  front_text = refl;
  rest_text = rw sub-zero t;
}
skip_lines_lem off del zero s (suc k) t lt h = elim h [ ]
skip_lines_lem off del (suc n) s (suc k) (l, r, e, no_nl, t) lt h =
    let ih = skip_lines_lem off del n r k t (omega arith) (omega arith) in
    record {
      front = l ++ newline ∷ ih.front;
      rest = ih.rest;
      result =
          skip_one off del n s r k (ap after_newline e ∙ after_newline-line l r no_nl) lt
            (agree off del k n r t (omega arith))
          ∙ ih.result
          ∙ rw suc-sub-suc;
      cut = e ∙ rw (append_assoc, ← ih.cut);
      front_text = (l, ih.front, refl, no_nl, ih.front_text);
      rest_text = rw suc-sub-suc ih.rest_text;
    }
