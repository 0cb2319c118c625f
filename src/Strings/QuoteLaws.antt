-- ===== src/Strings/QuoteLaws.antt =====
-- DeQuoteString undoes QuoteString (apt-pkg/contrib/strutl.cc).
use aptum.Prelude.{
  ℕ, ◌/◌, ◌%◌, ◌<◌, ◌≡◌, ◌≢◌, refl, true, false, List, [], ◌∷◌, arith, All, Bool-cases, inl, inr,
  ap, ◌⊎◌, ◌∙◌,
}
use aptum.Strings.Quote.{quote_string, de_quote_string, must_quote, hex_digit, isxdigit, hex_value}

hex_round : (n : ℕ) → n < 16 → (isxdigit (hex_digit n) ≡ true) × (hex_value (hex_digit n) ≡ n)
unfolding isxdigit hex_digit hex_value
hex_round n h = ground arith

quoted :
    (c : ℕ) (s : List ℕ)
    → c < 256
    → de_quote_string (b'%' ∷ hex_digit (c / 16) ∷ hex_digit (c % 16) ∷ s) ≡ c ∷ de_quote_string s
unfolding de_quote_string
quoted c s h =
    let (hi, hi_value) = hex_round (c / 16) (omega arith) in
    let (lo, lo_value) = hex_round (c % 16) (omega arith) in
    rw (hi, lo, hi_value, lo_value) (ap (λ (n : ℕ). n ∷ de_quote_string s) (omega arith))

plain : (c : ℕ) (s : List ℕ) → c ≢ b'%' → de_quote_string (c ∷ s) ≡ c ∷ de_quote_string s
unfolding de_quote_string
plain c [] h = refl
plain c (x ∷ []) h = refl
plain c (x ∷ y ∷ s) h = ground arith

percent_quoted : (bad : List ℕ) (c : ℕ) → must_quote bad c ≡ false → c ≢ b'%'
unfolding must_quote
percent_quoted bad c h = ground arith

quote_round :
    (bad : List ℕ) (c : ℕ) (s : List ℕ)
    → c < 256
    → de_quote_string (quote_string bad (c ∷ s)) ≡ c ∷ de_quote_string (quote_string bad s)
unfolding quote_string
quote_round bad c s h = elim (Bool-cases (must_quote bad c)) [
  | inl e ↦ rw e (quoted c (quote_string bad s) h)
  | inr e ↦ rw e (plain c (quote_string bad s) (percent_quoted bad c e))
]

-- Every text of bytes is read back from its quoted form, whatever characters are to be quoted.
pub de_quote_string-quote_string :
    (bad s : List ℕ) → All (λ c. c < 256) s → de_quote_string (quote_string bad s) ≡ s
de_quote_string-quote_string bad [] h = unfold quote_string de_quote_string in refl
de_quote_string-quote_string bad (c ∷ s) (hc, hs) =
    quote_round bad c s hc ∙ ap (λ (t : List ℕ). c ∷ t) (de_quote_string-quote_string bad s hs)

-- Not to be quoted, or part of an escape.
abbrev pub IsClean : List ℕ → ℕ → Type 0
IsClean bad c = (must_quote bad c ≡ false) ⊎ (c ≡ b'%') ⊎ (isxdigit c ≡ true)

IsClean-step :
    (bad : List ℕ) (c : ℕ) (s : List ℕ)
    → All (IsClean bad) (quote_string bad s)
    → isxdigit (hex_digit (c / 16)) ≡ true
    → isxdigit (hex_digit (c % 16)) ≡ true
    → All (IsClean bad) (quote_string bad (c ∷ s))
unfolding quote_string
IsClean-step bad c s ih hi lo = elim (Bool-cases (must_quote bad c)) [
  | inl e ↦ rw e (inr (inl refl), (inr (inr hi), (inr (inr lo), ih)))
  | inr e ↦ rw e (inl e, ih)
]

-- Every character of a quoted text is one that need not be quoted, a `%` or a hexadecimal digit.
pub quote_string-IsClean :
    (bad s : List ℕ) → All (λ c. c < 256) s → All (IsClean bad) (quote_string bad s)
quote_string-IsClean bad [] h = unfold quote_string in tt
quote_string-IsClean bad (c ∷ s) (hc, hs) =
    let ih = quote_string-IsClean bad s hs in
    let hi = (hex_round (c / 16) (omega arith)).0 in
    let lo = (hex_round (c % 16) (omega arith)).0 in IsClean-step bad c s ih hi lo
