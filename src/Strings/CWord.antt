-- ===== src/Strings/CWord.antt =====
-- ParseCWord joins what stands in quotes (apt-pkg/contrib/strutl.cc).
use aptum.Prelude.{
  ℕ, zero, suc, ◌≡◌, refl, ap, ◌∙◌, true, false, List, [], ◌∷◌, ◌++◌, Option, none, some, arith,
  All, ◌==◌,
}
use aptum.Strings.Words.{c_word_loop, push_after, parse_c_word}
use aptum.Strings.WordLaws.{blanks}
use aptum.Strings.Parts.{is_free}

-- Parts in quotes, with one blank before each and as many more as the number beside it.
abbrev pub c_text : List (ℕ × List ℕ) → List ℕ
c_text [] = []
c_text ((n, p) ∷ parts) = blanks (suc n) ++ (b'"' ∷ (p ++ (b'"' ∷ c_text parts)))

abbrev pub spaced : List (ℕ × List ℕ) → List ℕ
spaced [] = []
spaced ((n, p) ∷ parts) = b' ' ∷ (p ++ spaced parts)

abbrev pub AllUnquoted : List (ℕ × List ℕ) → Type 0
AllUnquoted parts = All (λ (x : ℕ × List ℕ). is_free b'"' x.1 ≡ true) parts

abbrev push_all : List ℕ → Option (List ℕ) → Option (List ℕ)
push_all [] o = o
push_all (c ∷ p) o = push_after c (push_all p o)

push_all-some : (p s : List ℕ) → push_all p (some s) ≡ some (p ++ s)
push_all-some [] s = refl
push_all-some (c ∷ p) s = ap (λ (o : Option (List ℕ)). push_after c o) (push_all-some p s)

inside_lem :
    (p rest : List ℕ) (before : Option ℕ)
    → is_free b'"' p ≡ true
    → c_word_loop true before (p ++ (b'"' ∷ rest)) ≡ push_all p (c_word_loop false (some b'"') rest)
unfolding c_word_loop
inside_lem [] rest before h = refl
inside_lem (c ∷ p) rest before h =
    let other : (c == b'"') ≡ false = ground arith in
    rw other
      (ap (λ (o : Option (List ℕ)). push_after c o) (inside_lem p rest (some c) (ground arith)))

more_blanks :
    (n : ℕ) (rest : List ℕ)
    → c_word_loop false (some b' ') (blanks n ++ (b'"' ∷ rest)) ≡ c_word_loop true (some b'"') rest
unfolding c_word_loop
more_blanks zero rest = refl
more_blanks (suc n) rest = more_blanks n rest

c_word_loop-c_text :
    (parts : List (ℕ × List ℕ))
    → AllUnquoted parts
    → c_word_loop false (some b'"') (c_text parts) ≡ some (spaced parts)
unfolding c_word_loop
c_word_loop-c_text [] h = refl
c_word_loop-c_text ((n, p) ∷ parts) (h, hs) =
    ap (λ (o : Option (List ℕ)). push_after b' ' o)
      (more_blanks n (p ++ (b'"' ∷ c_text parts))
        ∙ inside_lem p (c_text parts) (some b'"') h
        ∙ ap (λ (o : Option (List ℕ)). push_all p o) (c_word_loop-c_text parts hs)
        ∙ push_all-some p (spaced parts))

-- ParseCWord of parts in quotes, with one blank or more between them, is the parts with one blank between
-- them, if no part has a quote in it.
pub parse_c_word-c_text :
    (p : List ℕ) (parts : List (ℕ × List ℕ))
    → is_free b'"' p ≡ true
    → AllUnquoted parts
    → parse_c_word (b'"' ∷ (p ++ (b'"' ∷ c_text parts))) ≡ some (p ++ spaced parts)
unfolding parse_c_word
parse_c_word-c_text p parts h hs =
    inside_lem p (c_text parts) (some b'"') h
    ∙ ap (λ (o : Option (List ℕ)). push_all p o) (c_word_loop-c_text parts hs)
    ∙ push_all-some p (spaced parts)

-- Of a text that opens a quote and has no other one, ParseCWord fails.
parse_c_word-unclosed : (p : List ℕ) → is_free b'"' p ≡ true → parse_c_word (b'"' ∷ p) ≡ none
unfolding parse_c_word
parse_c_word-unclosed p h = unclosed p (some b'"') h
  where
    unclosed :
        (q : List ℕ) (before : Option ℕ) → is_free b'"' q ≡ true → c_word_loop true before q ≡ none
    unclosed [] before h = refl
    unclosed (c ∷ q) before h =
        let other : (c == b'"') ≡ false = ground arith in
        rw other (ap (λ (o : Option (List ℕ)). push_after c o) (unclosed q (some c) (ground arith)))
