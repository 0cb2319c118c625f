-- ===== src/Strings/Parts.antt =====
-- VectorizeString of apt-pkg/contrib/strutl.cc.
use aptum.Prelude.{
  ℕ, ◌≡◌, refl, sym, ap, ◌∙◌, ◌⊎◌, inl, inr, Bool, true, false, not, ◌&&◌, List, [], ◌∷◌, ◌++◌,
  append_assoc, append-nil, arith, All, ◌==◌, if◌then◌else◌, is_empty, if-elim,
}
use mathlib.Core.Path.{subst}
use aptum.Strings.Split.{following, join}

-- The loop of VectorizeString, with the part that was begun.
unfoldable pub pieces : ℕ → List ℕ → List ℕ → List (List ℕ)
pieces split part [] = part ∷ []
pieces split part (c ∷ s) =
    let next = pieces split [] s in
    let longer = pieces split (part ++ c ∷ []) s in
    if c == split then part ∷ (if is_empty s then [] else next) else longer

unfoldable pub vectorize_string : List ℕ → ℕ → List (List ℕ)
unfolding pieces
vectorize_string s split = if is_empty s then [] else pieces split [] s

abbrev pub is_free : ℕ → List ℕ → Bool
is_free split [] = true
is_free split (c ∷ s) = not (c == split) && is_free split s

abbrev Cut : ℕ → List ℕ → List (List ℕ) → Type 0
Cut split s parts = (join (split ∷ []) parts ≡ s) ⊎ (join (split ∷ []) parts ++ split ∷ [] ≡ s)

pieces-nonempty : (split : ℕ) (part s : List ℕ) → is_empty (pieces split part s) ≡ false
unfolding pieces
pieces-nonempty split part [] = refl
pieces-nonempty split part (c ∷ s) =
    if-elim (λ (r : List (List ℕ)). is_empty r ≡ false) (c == split) (λ e. refl)
      (λ e. pieces-nonempty split (part ++ c ∷ []) s)

following-join :
    (sep : List ℕ) (parts : List (List ℕ))
    → is_empty parts ≡ false
    → following sep parts ≡ sep ++ join sep parts
following-join sep [] h = cc
following-join sep (a ∷ parts) h = refl

pieces-Cut : (split : ℕ) (part s : List ℕ) → Cut split (part ++ s) (pieces split part s)
unfolding pieces
pieces-Cut split part [] = inl refl
pieces-Cut split part (c ∷ s) =
    let rest = pieces-Cut split [] s in
    let longer = pieces-Cut split (part ++ c ∷ []) s in
    if-elim (Cut split (part ++ c ∷ s)) (c == split) (λ e. cut s (same e) rest)
      (λ e.
        subst (λ (x : List ℕ). Cut split x (pieces split (part ++ c ∷ []) s))
          (append_assoc part (c ∷ []) s) longer)
  where
    same : (c == split) ≡ true → c ≡ split
    same e = ground arith

    cut :
        (t : List ℕ)
        → c ≡ split
        → Cut split t (pieces split [] t)
        → Cut split (part ++ c ∷ t) (part ∷ (if is_empty t then [] else pieces split [] t))
    cut [] e h = inr (rw (append-nil, e) refl)
    cut (d ∷ t) e (inl h) = inl (
        ap (λ (x : List ℕ). part ++ x)
          (following-join (split ∷ []) (pieces split [] (d ∷ t)) (pieces-nonempty split [] (d ∷ t))
            ∙ ap (λ (x : List ℕ). split ∷ x) h
            ∙ ap (λ (x : ℕ). x ∷ d ∷ t) (sym e)))
    cut (d ∷ t) e (inr h) = inr (
        append_assoc part (following (split ∷ []) (pieces split [] (d ∷ t))) (split ∷ [])
        ∙ ap (λ (x : List ℕ). part ++ x)
            (ap (λ (x : List ℕ). x ++ split ∷ [])
                (following-join (split ∷ []) (pieces split [] (d ∷ t))
                  (pieces-nonempty split [] (d ∷ t)))
              ∙ ap (λ (x : List ℕ). split ∷ x) h
              ∙ ap (λ (x : ℕ). x ∷ d ∷ t) (sym e)))

is_free-append :
    (split : ℕ) (a b : List ℕ)
    → is_free split a ≡ true
    → is_free split b ≡ true
    → is_free split (a ++ b) ≡ true
is_free-append split [] b h k = k
is_free-append split (c ∷ a) b h k = ground (arith, is_free-append split a b)

pieces-free :
    (split : ℕ) (part s : List ℕ)
    → is_free split part ≡ true
    → All (λ (p : List ℕ). is_free split p ≡ true) (pieces split part s)
unfolding pieces
pieces-free split part [] h = (h, tt)
pieces-free split part (c ∷ s) h =
    if-elim (All (λ (p : List ℕ). is_free split p ≡ true)) (c == split)
      (λ e. (
        h,
        if-elim (All (λ (p : List ℕ). is_free split p ≡ true)) (is_empty s) (λ _. tt)
            (λ _. pieces-free split [] s refl),
      ))
      (λ e. pieces-free split (part ++ c ∷ []) s (is_free-append split part (c ∷ []) h (rw e refl)))

-- VectorizeString cuts a text that is not empty into parts without the separator; the parts with the
-- separator between them are the text, or the text without a separator at its end.
vectorize_string-join :
    (s : List ℕ) (split : ℕ)
    → is_empty s ≡ false
    → All (λ (p : List ℕ). is_free split p ≡ true) (vectorize_string s split)
      × ((join (split ∷ []) (vectorize_string s split) ≡ s)
          ⊎ (join (split ∷ []) (vectorize_string s split) ++ split ∷ [] ≡ s))
unfolding vectorize_string
vectorize_string-join s split h =
    if-elim (λ (r : List (List ℕ)). All (λ (p : List ℕ). is_free split p ≡ true) r × Cut split s r)
      (is_empty s) (λ e. absurd (clash (sym h ∙ e)))
      (λ e. (pieces-free split [] s refl, pieces-Cut split [] s))
  where
    clash : false ≡ true → ⊥
    clash e = cc
