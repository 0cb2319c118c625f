-- ===== src/Strings/Affixes.antt =====
-- Startswith, Endswith and Strip of apt-pkg/contrib/strutl.cc. isspace is that of the C locale.
use aptum.Prelude.{
  ℕ, zero, suc, ◌-◌, ◌≡◌, refl, ap, ◌∙◌, ◌↔◌, Bool, true, false, not, ◌&&◌, List, [], ◌∷◌, ◌++◌,
  arith, All, ltb, ◌==◌, if◌then◌else◌, is_empty, length, length-append, take, drop, if-elim,
}
use aptum.Chars.{isspace_ascii}
use aptum.Strings.Words.{skip_space}

-- `compare(...) == 0`
unfoldable pub same_text : List ℕ → List ℕ → Bool
same_text [] [] = true
same_text [] (y ∷ b) = false
same_text (x ∷ a) [] = false
same_text (x ∷ a) (y ∷ b) = x == y && same_text a b

unfoldable pub endswith : List ℕ → List ℕ → Bool
unfolding same_text
endswith s end =
    if ltb (length s) (length end) then false else same_text (drop (length s - length end) s) end

unfoldable pub startswith : List ℕ → List ℕ → Bool
unfolding same_text
startswith s start =
    if ltb (length s) (length start) then false else same_text (take (length start) s) start

-- The loop that takes white space from the back.
unfoldable pub strip_back : List ℕ → List ℕ
unfolding isspace_ascii
strip_back [] = []
strip_back (c ∷ s) =
    let rest = strip_back s in if is_empty rest && isspace_ascii c then [] else c ∷ rest

unfoldable pub strip : List ℕ → List ℕ
unfolding skip_space strip_back
strip s = strip_back (skip_space s)

same_text-eq : (a b : List ℕ) → same_text a b ≡ true → a ≡ b
unfolding same_text
same_text-eq [] [] h = refl
same_text-eq [] (y ∷ b) h = cc
same_text-eq (x ∷ a) [] h = cc
same_text-eq (x ∷ a) (y ∷ b) h = ground (arith, same_text-eq a b)

same_text_refl : (a : List ℕ) → same_text a a ≡ true
unfolding same_text
same_text_refl [] = refl
same_text_refl (x ∷ a) = ground (arith, same_text_refl a)

pub take-drop : (n : ℕ) (s : List ℕ) → s ≡ take n s ++ drop n s
take-drop zero s = refl
take-drop (suc n) [] = refl
take-drop (suc n) (c ∷ s) = ap (λ (t : List ℕ). c ∷ t) (take-drop n s)

pub drop-append : (n : ℕ) (a b : List ℕ) → n ≡ length a → drop n (a ++ b) ≡ b
drop-append zero [] b h = refl
drop-append (suc n) [] b h = absurd (ground arith)
drop-append zero (c ∷ a) b h = absurd (ground arith)
drop-append (suc n) (c ∷ a) b h = drop-append n a b (omega arith)

take-append : (n : ℕ) (a b : List ℕ) → n ≡ length a → take n (a ++ b) ≡ a
take-append zero [] b h = refl
take-append (suc n) [] b h = absurd (ground arith)
take-append zero (c ∷ a) b h = absurd (ground arith)
take-append (suc n) (c ∷ a) b h = ap (λ (t : List ℕ). c ∷ t) (take-append n a b (omega arith))

clash : false ≡ true → ⊥
clash e = cc

-- Endswith holds exactly of the texts that are some text and the end, and Startswith of those that are the
-- start and some text.
endswith-startswith :
    (s t : List ℕ)
    → ((endswith s t ≡ true) ↔ ((a : List ℕ) × (s ≡ a ++ t)))
      × ((startswith s t ≡ true) ↔ ((b : List ℕ) × (s ≡ t ++ b)))
unfolding endswith startswith
endswith-startswith s t = ((end_cut, end_joined), (start_cut, start_joined))
  where
    end_cut : endswith s t ≡ true → (a : List ℕ) × (s ≡ a ++ t)
    end_cut =
        if-elim (λ (r : Bool). r ≡ true → (a : List ℕ) × (s ≡ a ++ t)) (ltb (length s) (length t))
          (λ e h. absurd (clash h))
          (λ e h. (
            take (length s - length t) s,
            take-drop (length s - length t) s
                ∙ ap (λ (x : List ℕ). take (length s - length t) s ++ x) (same_text-eq _ t h),
          ))

    end_joined : ((a : List ℕ) × (s ≡ a ++ t)) → endswith s t ≡ true
    end_joined (a, e) =
        if-elim (λ (r : Bool). r ≡ true) (ltb (length s) (length t))
          (λ l. absurd (ground (arith, ap length e, length-append a t)))
          (λ l.
            ap (λ (x : List ℕ). same_text x t)
              (ap (λ (x : List ℕ). drop (length s - length t) x) e
                ∙ drop-append (length s - length t) a t
                    (omega (arith, ap length e, length-append a t)))
            ∙ same_text_refl t)

    start_cut : startswith s t ≡ true → (b : List ℕ) × (s ≡ t ++ b)
    start_cut =
        if-elim (λ (r : Bool). r ≡ true → (b : List ℕ) × (s ≡ t ++ b)) (ltb (length s) (length t))
          (λ e h. absurd (clash h))
          (λ e h. (
            drop (length t) s,
            take-drop (length t) s
                ∙ ap (λ (x : List ℕ). x ++ drop (length t) s) (same_text-eq _ t h),
          ))

    start_joined : ((b : List ℕ) × (s ≡ t ++ b)) → startswith s t ≡ true
    start_joined (b, e) =
        if-elim (λ (r : Bool). r ≡ true) (ltb (length s) (length t))
          (λ l. absurd (ground (arith, ap length e, length-append t b)))
          (λ l.
            ap (λ (x : List ℕ). same_text x t)
              (ap (λ (x : List ℕ). take (length t) x) e ∙ take-append (length t) t b refl)
            ∙ same_text_refl t)

abbrev pub AllSpace : List ℕ → Type 0
AllSpace s = All (λ (c : ℕ). isspace_ascii c ≡ true) s

abbrev pub bare_front : List ℕ → Bool
bare_front [] = true
bare_front (c ∷ s) = not (isspace_ascii c)

abbrev pub bare_back : List ℕ → Bool
bare_back [] = true
bare_back (c ∷ []) = not (isspace_ascii c)
bare_back (c ∷ d ∷ s) = bare_back (d ∷ s)

skip_space-cut :
    (s : List ℕ)
    → (a : List ℕ) × (s ≡ a ++ skip_space s) × AllSpace a × (bare_front (skip_space s) ≡ true)
unfolding skip_space
skip_space-cut [] = ([], refl, tt, refl)
skip_space-cut (c ∷ s) =
    let (a, e, all, bare) = skip_space-cut s in
    if-elim (λ (r : List ℕ). (a : List ℕ) × (c ∷ s ≡ a ++ r) × AllSpace a × (bare_front r ≡ true))
      (isspace_ascii c) (λ h. (c ∷ a, ap (λ (x : List ℕ). c ∷ x) e, (h, all), bare))
      (λ h. ([], refl, tt, rw h refl))

-- What strip_back makes of a text.
abbrev Back : List ℕ → List ℕ → Type 0
Back t r =
    (b : List ℕ) × (t ≡ r ++ b)
    × AllSpace b
    × (bare_back r ≡ true)
    × (bare_front t ≡ true → bare_front r ≡ true)

Back-step :
    (c : ℕ) (t r : List ℕ)
    → Back t r
    → Back (c ∷ t) (if is_empty r && isspace_ascii c then [] else c ∷ r)
Back-step c t [] (b, e, all, bare, front) =
    if-elim (Back (c ∷ t)) (isspace_ascii c)
      (λ h. (c ∷ b, ap (λ (x : List ℕ). c ∷ x) e, (h, all), refl, λ _. refl))
      (λ h. (b, ap (λ (x : List ℕ). c ∷ x) e, all, rw h refl, λ _. rw h refl))
Back-step c t (d ∷ r) (b, e, all, bare, front) =
    (b, ap (λ (x : List ℕ). c ∷ x) e, all, bare, λ h. h)

strip_back-Back : (t : List ℕ) → Back t (strip_back t)
unfolding strip_back
strip_back-Back [] = ([], refl, tt, refl, λ h. h)
strip_back-Back (c ∷ t) = Back-step c t (strip_back t) (strip_back-Back t)

-- Strip takes only white space from the front and the back of a text, and leaves none at either.
strip-bare :
    (s : List ℕ)
    → (a : List ℕ) × (b : List ℕ) × (s ≡ a ++ (strip s ++ b))
      × AllSpace a
      × AllSpace b
      × (bare_front (strip s) ≡ true)
      × (bare_back (strip s) ≡ true)
unfolding strip
strip-bare s =
    let (a, e, all, bare) = skip_space-cut s in
    let (b, f, all_b, back, front) = strip_back-Back (skip_space s) in
    (a, b, e ∙ ap (λ (x : List ℕ). a ++ x) f, all, all_b, front bare, back)
