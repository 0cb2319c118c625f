-- ===== src/Strings/WordLaws.antt =====
-- ParseQuoteWord reads what QuoteString wrote (apt-pkg/contrib/strutl.cc).
use aptum.Prelude.{
  ℕ, zero, suc, ◌+◌, ◌*◌, ◌<◌, ◌≡◌, ◌≢◌, refl, sym, ap, ◌∙◌, inl, inr, Bool, true, false, ◌&&◌,
  List, [], ◌∷◌, ◌++◌, Option, none, some, arith, All, ◌==◌, if◌then◌else◌, is_empty, if-elim,
}
use aptum.Chars.{isspace_ascii}
use aptum.Strings.Quote.{quote_string, de_quote_string, must_quote, isxdigit, hex_value, in_set}
use aptum.Strings.QuoteLaws.{de_quote_string-quote_string, quote_string-IsClean, IsClean}
use aptum.Strings.Split.{one_later}
use aptum.Strings.Words.{
  skip_blanks, word_cut, opened, push_unquoted, de_quote_word, skip_space, word_from,
  parse_quote_word,
}

abbrev pub blanks : ℕ → List ℕ
blanks zero = []
blanks (suc n) = b' ' ∷ blanks n

-- The end of the text, or white space.
abbrev pub ends_word : List ℕ → Bool
ends_word [] = true
ends_word (c ∷ s) = isspace_ascii c

abbrev IsPlain : ℕ → Type 0
IsPlain c = (isspace_ascii c ≡ false) × (c ≢ b'"') × (c ≢ b'[')

skip_blanks-blanks :
    (n c : ℕ) (s : List ℕ) → c ≢ b' ' → skip_blanks (blanks n ++ c ∷ s) ≡ (blanks n, c ∷ s)
unfolding skip_blanks
skip_blanks-blanks zero c s h =
    if-elim (λ (r : List ℕ × List ℕ). r ≡ ([], c ∷ s)) (c == b' ') (λ e. absurd (ground arith))
      (λ e. refl)
skip_blanks-blanks (suc n) c s h =
    ap (λ (r : List ℕ × List ℕ). (b' ' ∷ r.0, r.1)) (skip_blanks-blanks n c s h)

opened_plain : (c : ℕ) → IsPlain c → opened c ≡ none
opened_plain c (h, k, l) = ground arith

word_cut-plain :
    (w rest : List ℕ)
    → All IsPlain w
    → ends_word rest ≡ true
    → word_cut none (w ++ rest) ≡ some (w, rest)
unfolding word_cut
word_cut-plain [] [] h e = refl
word_cut-plain [] (c ∷ rest) h e = rw e refl
word_cut-plain (c ∷ w) rest (h, hs) e = rw (h.0) (
    ap (λ (q : Option ℕ). one_later c (word_cut q (w ++ rest))) (opened_plain c h)
    ∙ ap (λ (o : Option (List ℕ × List ℕ)). one_later c o) (word_cut-plain w rest hs e))

push_plain : (c : ℕ) (s : List ℕ) → IsPlain c → push_unquoted c s ≡ c ∷ s
push_plain c s (h, k, l) = ground arith

de_quote_word-plain : (w : List ℕ) → All IsPlain w → de_quote_word w ≡ de_quote_string w
unfolding de_quote_word de_quote_string
de_quote_word-plain [] h = refl
de_quote_word-plain (c ∷ []) h = push_plain c [] h.0
de_quote_word-plain (c ∷ x ∷ []) h =
    push_plain c (push_unquoted x []) h.0 ∙ ap (λ (s : List ℕ). c ∷ s) (push_plain x [] h.1.0)
de_quote_word-plain (c ∷ x ∷ y ∷ s) (h, hs) =
    let quoted =
      ap (λ (t : List ℕ). (hex_value x * 16 + hex_value y) ∷ t) (de_quote_word-plain s hs.1.1) in
    let plain =
      push_plain c (de_quote_word (x ∷ y ∷ s)) h
      ∙ ap (λ (t : List ℕ). c ∷ t) (de_quote_word-plain (x ∷ y ∷ s) hs) in
    by_test (c == b'%' && isxdigit x && isxdigit y) quoted plain
  where
    by_test :
        (b : Bool) {p q p2 q2 : List ℕ}
        → p ≡ p2
        → q ≡ q2
        → (if b then p else q) ≡ (if b then p2 else q2)
    by_test true e f = e
    by_test false e f = f

de_quote_word-blank : (s : List ℕ) → de_quote_word (b' ' ∷ s) ≡ b' ' ∷ de_quote_word s
unfolding de_quote_word
de_quote_word-blank [] = refl
de_quote_word-blank (x ∷ []) = refl
de_quote_word-blank (x ∷ y ∷ s) = refl

de_quote_word-blanks :
    (n : ℕ) (s : List ℕ) → de_quote_word (blanks n ++ s) ≡ blanks n ++ de_quote_word s
de_quote_word-blanks zero s = refl
de_quote_word-blanks (suc n) s =
    de_quote_word-blank (blanks n ++ s) ∙ ap (λ (t : List ℕ). b' ' ∷ t) (de_quote_word-blanks n s)

module _ (bad : List ℕ) (has_quote : in_set b'"' bad ≡ true)
    (has_bracket : in_set b'[' bad ≡ true) where
  unquoted : (c : ℕ) → must_quote bad c ≡ false → (in_set c bad ≡ false) × (isspace_ascii c ≡ false)
  unfolding must_quote isspace_ascii
  unquoted c h = ground arith

  IsClean-IsPlain : (c : ℕ) → IsClean bad c → IsPlain c
  unfolding isxdigit isspace_ascii
  IsClean-IsPlain c (inl e) =
      let (outside, visible) = unquoted c e in
      (
        visible,
        (λ q. absurd (clash (sym has_quote ∙ ap (λ (x : ℕ). in_set x bad) (sym q) ∙ outside))),
        (λ q. absurd (clash (sym has_bracket ∙ ap (λ (x : ℕ). in_set x bad) (sym q) ∙ outside))),
      )
    where
      clash : true ≡ false → ⊥
      clash e = cc
  IsClean-IsPlain c (inr (inl e)) = ground arith
  IsClean-IsPlain c (inr (inr e)) = ground arith

  All-IsPlain : (w : List ℕ) → All (IsClean bad) w → All IsPlain w
  All-IsPlain [] h = tt
  All-IsPlain (c ∷ w) (h, hs) = (IsClean-IsPlain c h, All-IsPlain w hs)

blank_space : (c : ℕ) → isspace_ascii c ≡ false → c ≢ b' '
unfolding isspace_ascii
blank_space c h = ground arith

parse_quote_word-plain :
    (n : ℕ) (w rest : List ℕ)
    → is_empty w ≡ false
    → All IsPlain w
    → ends_word rest ≡ true
    → parse_quote_word (blanks n ++ (w ++ rest))
      ≡ some (blanks n ++ de_quote_string w, skip_space rest)
unfolding parse_quote_word
parse_quote_word-plain n [] rest k h e = cc
parse_quote_word-plain n (c ∷ w) rest k h e =
    ap (λ (r : List ℕ × List ℕ). if is_empty r.1 then none else word_from r.0 (word_cut none r.1))
      (skip_blanks-blanks n c (w ++ rest) (blank_space c h.0.0))
    ∙ ap (λ (o : Option (List ℕ × List ℕ)). word_from (blanks n) o)
        (word_cut-plain (c ∷ w) rest h e)
    ∙ ap (λ (t : List ℕ). some (t, skip_space rest)) (de_quote_word-blanks n (c ∷ w))
    ∙ ap (λ (t : List ℕ). some (blanks n ++ t, skip_space rest)) (de_quote_word-plain (c ∷ w) h)

quote_string-nonempty :
    (bad s : List ℕ) → is_empty s ≡ false → is_empty (quote_string bad s) ≡ false
unfolding quote_string
quote_string-nonempty bad [] h = h
quote_string-nonempty bad (c ∷ s) h =
    if-elim (λ (r : List ℕ). is_empty r ≡ false) (must_quote bad c) (λ e. refl) (λ e. refl)

-- ParseQuoteWord reads a text of bytes that is not empty from what QuoteString made of it, if quotes and
-- opening brackets were to be quoted and the text ends there or white space follows, which it skips. Blanks
-- in front of the word are part of the result.
pub parse_quote_word-quote_string :
    (bad s rest : List ℕ) (n : ℕ)
    → in_set b'"' bad ≡ true
    → in_set b'[' bad ≡ true
    → All (λ (c : ℕ). c < 256) s
    → is_empty s ≡ false
    → ends_word rest ≡ true
    → parse_quote_word (blanks n ++ (quote_string bad s ++ rest))
      ≡ some (blanks n ++ s, skip_space rest)
parse_quote_word-quote_string bad s rest n q b h k e =
    parse_quote_word-plain n (quote_string bad s) rest (quote_string-nonempty bad s k)
      (All-IsPlain bad q b (quote_string bad s) (quote_string-IsClean bad s h)) e
    ∙ ap (λ (t : List ℕ). some (blanks n ++ t, skip_space rest))
        (de_quote_string-quote_string bad s h)
