-- ===== src/Strings/Split.antt =====
-- Join, StringSplit and SubstVar of apt-pkg/contrib/strutl.cc. `find` is std::string::find, as the text
-- before the first place where the sought text stands and the text behind it.
use aptum.Prelude.{
  ℕ, zero, suc, ◌+◌, ◌≤◌, ◌<◌, ◌≡◌, refl, sym, ap, ◌∙◌, inl, inr, true, false, List, [], ◌∷◌, ◌++◌,
  append-nil, Option, none, some, arith, leb, ◌==◌, if◌then◌else◌, is_empty, length, length-append,
  Bool-cases, if-elim, some_inj, ◌-◌,
}
use mathlib.Core.Path.{subst}

-- The text behind a prefix.
unfoldable pub strip_prefix : List ℕ → List ℕ → Option (List ℕ)
strip_prefix [] s = some s
strip_prefix (p ∷ ps) [] = none
strip_prefix (p ∷ ps) (c ∷ s) = let rest = strip_prefix ps s in if p == c then rest else none

abbrev pub one_later : ℕ → Option (List ℕ × List ℕ) → Option (List ℕ × List ℕ)
one_later c none = none
one_later c (some (a, b)) = some (c ∷ a, b)

abbrev pub found_or : Option (List ℕ) → Option (List ℕ × List ℕ) → Option (List ℕ × List ℕ)
found_or none later = later
found_or (some b) later = some ([], b)

unfoldable pub find : List ℕ → List ℕ → Option (List ℕ × List ℕ)
unfolding strip_prefix
find sep [] = found_or (strip_prefix sep []) none
find sep (c ∷ s) = found_or (strip_prefix sep (c ∷ s)) (one_later c (find sep s))

-- The loop of StringSplit from a position on, where `size` parts are there already.
unfoldable pub split_loop : ℕ → List ℕ → ℕ → ℕ → List ℕ → List (List ℕ)
unfolding find
split_loop zero sep maxsplit size s = []
split_loop (suc fuel) sep maxsplit size s =
    if leb maxsplit (suc size) then s ∷ [] else elim (find sep s) [
      | none ↦ s ∷ []
      | some (a, b) ↦ a ∷ split_loop fuel sep maxsplit (suc size) b
    ]

unfoldable pub string_split : List ℕ → List ℕ → ℕ → List (List ℕ)
unfolding split_loop
string_split s sep maxsplit =
    if is_empty sep then [] else split_loop (suc (length s)) sep maxsplit 0 s

-- The parts with the separator before each.
abbrev pub following : List ℕ → List (List ℕ) → List ℕ
following sep [] = []
following sep (a ∷ parts) = sep ++ (a ++ following sep parts)

-- Join.
abbrev pub join : List ℕ → List (List ℕ) → List ℕ
join sep [] = []
join sep (a ∷ parts) = a ++ following sep parts

strip_prefix-cut : (p s b : List ℕ) → strip_prefix p s ≡ some b → s ≡ p ++ b
unfolding strip_prefix
strip_prefix-cut [] s b h = some_inj h
strip_prefix-cut (p ∷ ps) [] b h = cc
strip_prefix-cut (p ∷ ps) (c ∷ s) b h = elim (Bool-cases (p == c)) [
  | inl e ↦
      ap (λ (x : ℕ). x ∷ s) (same p c e)
      ∙ ap (λ (t : List ℕ). p ∷ t) (strip_prefix-cut ps s b (rw e at h))
  | inr e ↦ absurd (none_some (rw e at h))
]
  where
    same : (p c : ℕ) → (p == c) ≡ true → c ≡ p
    same p c e = ground arith

    none_some : none ≡ some b → ⊥
    none_some e = cc

cut_or :
    (sep s : List ℕ) (o : Option (List ℕ)) (later : Option (List ℕ × List ℕ))
    → strip_prefix sep s ≡ o
    → ((a b : List ℕ) → later ≡ some (a, b) → s ≡ a ++ (sep ++ b))
    → (a b : List ℕ) → found_or o later ≡ some (a, b)
    → s ≡ a ++ (sep ++ b)
cut_or sep s none later e f a b h = f a b h
cut_or sep s (some r) later e f a b h =
    strip_prefix-cut sep s r e ∙ ap (λ (x : List ℕ × List ℕ). x.0 ++ (sep ++ x.1)) (some_inj h)

later_cut :
    (sep s : List ℕ) (c : ℕ) (o : Option (List ℕ × List ℕ))
    → ((a b : List ℕ) → o ≡ some (a, b) → s ≡ a ++ (sep ++ b))
    → (a b : List ℕ) → one_later c o ≡ some (a, b)
    → c ∷ s ≡ a ++ (sep ++ b)
later_cut sep s c none f a b h = cc
later_cut sep s c (some (x, y)) f a b h =
    ap (λ (t : List ℕ). c ∷ t) (f x y refl)
    ∙ ap (λ (z : List ℕ × List ℕ). z.0 ++ (sep ++ z.1)) (some_inj h)

find-cut : (sep s a b : List ℕ) → find sep s ≡ some (a, b) → s ≡ a ++ (sep ++ b)
unfolding find
find-cut sep [] a b h = cut_or sep [] (strip_prefix sep []) none refl (λ a b e. cc) a b h
find-cut sep (c ∷ s) a b h =
    cut_or sep (c ∷ s) (strip_prefix sep (c ∷ s)) (one_later c (find sep s)) refl
      (later_cut sep s c (find sep s) (λ x y e. find-cut sep s x y e)) a b h

find-shorter :
    (sep s a b : List ℕ) → is_empty sep ≡ false → find sep s ≡ some (a, b) → length b < length s
find-shorter [] s a b n h = cc
find-shorter (p ∷ sep) s a b n h = omega (
  arith,
  ap length (find-cut (p ∷ sep) s a b h),
  length-append a ((p ∷ sep) ++ b),
  length-append (p ∷ sep) b,
)

cancel : (p x y : List ℕ) → p ++ x ≡ p ++ y → x ≡ y
cancel [] x y e = e
cancel (c ∷ p) x y e = cancel p x y (cc)

module _ (sep : List ℕ) (some_sep : is_empty sep ≡ false) (maxsplit : ℕ) where
  split_loop-following :
      (fuel size : ℕ) (s : List ℕ)
      → length s < fuel
      → following sep (split_loop fuel sep maxsplit size s) ≡ sep ++ s
  unfolding split_loop
  split_loop-following zero size s h = elim h [ ]
  split_loop-following (suc fuel) size s h =
      if-elim (λ (r : List (List ℕ)). following sep r ≡ sep ++ s) (leb maxsplit (suc size))
        (λ e. ap (λ (t : List ℕ). sep ++ t) (append-nil s))
        (λ e. parts (find sep s) refl (λ b l. split_loop-following fuel (suc size) b l))
    where
      parts :
          (o : Option (List ℕ × List ℕ))
          → find sep s ≡ o
          → ((b : List ℕ)
              → length b < fuel
              → following sep (split_loop fuel sep maxsplit (suc size) b) ≡ sep ++ b)
          → following sep (elim o [
            | none ↦ s ∷ []
            | some (a, b) ↦ a ∷ split_loop fuel sep maxsplit (suc size) b
          ])
            ≡ sep ++ s
      parts none e rec = ap (λ (t : List ℕ). sep ++ t) (append-nil s)
      parts (some (a, b)) e rec =
          ap (λ (t : List ℕ). sep ++ (a ++ t))
            (rec b (omega (arith, find-shorter sep s a b some_sep e)))
          ∙ ap (λ (t : List ℕ). sep ++ t) (sym (find-cut sep s a b e))

  split_loop-join :
      (fuel size : ℕ) (s : List ℕ)
      → length s < fuel
      → join sep (split_loop fuel sep maxsplit size s) ≡ s
  split_loop-join fuel size s h =
      first (split_loop fuel sep maxsplit size s) (split_loop-following fuel size s h)
    where
      nonempty : (p : List ℕ) → is_empty p ≡ false → [] ≡ p ++ s → ⊥
      nonempty [] n e = cc
      nonempty (c ∷ p) n e = cc

      first : (parts : List (List ℕ)) → following sep parts ≡ sep ++ s → join sep parts ≡ s
      first [] e = absurd (nonempty sep some_sep e)
      first (x ∷ parts) e = cancel sep _ _ e

  split_loop-length :
      (fuel size : ℕ) (s : List ℕ)
      → suc size ≤ maxsplit
      → size + length (split_loop fuel sep maxsplit size s) ≤ maxsplit
  unfolding split_loop
  split_loop-length zero size s h = omega arith
  split_loop-length (suc fuel) size s h =
      if-elim (λ (r : List (List ℕ)). size + length r ≤ maxsplit) (leb maxsplit (suc size))
        (λ e. omega arith)
        (λ e. parts (find sep s) (λ b. split_loop-length fuel (suc size) b (ground arith)))
    where
      parts :
          (o : Option (List ℕ × List ℕ))
          → ((b : List ℕ)
              → suc size + length (split_loop fuel sep maxsplit (suc size) b) ≤ maxsplit)
          → size
              + length (elim o [
                | none ↦ s ∷ []
                | some (a, b) ↦ a ∷ split_loop fuel sep maxsplit (suc size) b
              ])
            ≤ maxsplit
      parts none rec = omega arith
      parts (some (a, b)) rec = omega (arith, rec b)

-- Where `left` parts were allowed, no part holds the separator but the last of as many.
abbrev pub IsSplit : List ℕ → ℕ → List (List ℕ) → Type 0
IsSplit sep left [] = ⊥
IsSplit sep left (p ∷ []) = 1 < left → find sep p ≡ none
IsSplit sep left (p ∷ q ∷ parts) = (find sep p ≡ none) × IsSplit sep (left - 1) (q ∷ parts)

strip_prefix-append :
    (p x y r : List ℕ) → strip_prefix p x ≡ some r → strip_prefix p (x ++ y) ≡ some (r ++ y)
unfolding strip_prefix
strip_prefix-append [] x y r h = ap (λ (t : List ℕ). some (t ++ y)) (some_inj h)
strip_prefix-append (p ∷ ps) [] y r h = cc
strip_prefix-append (p ∷ ps) (c ∷ x) y r h = elim (Bool-cases (p == c)) [
  | inl e ↦ rw e (strip_prefix-append ps x y r (rw e at h))
  | inr e ↦ absurd (none_some (rw e at h))
]
  where
    none_some : none ≡ some r → ⊥
    none_some e = cc

no_prefix :
    (sep s x y : List ℕ) (c : ℕ) (o : Option (List ℕ))
    → strip_prefix sep (c ∷ x) ≡ o
    → strip_prefix sep (c ∷ s) ≡ none
    → s ≡ x ++ (sep ++ y)
    → o ≡ none
no_prefix sep s x y c none e h cut = refl
no_prefix sep s x y c (some r) e h cut = absurd (
    none_some (
      sym h
      ∙ ap (λ (t : List ℕ). strip_prefix sep (c ∷ t)) cut
      ∙ strip_prefix-append sep (c ∷ x) (sep ++ y) r e))
  where
    none_some : {t : List ℕ} → none ≡ some t → ⊥
    none_some e = cc

free_step :
    (p : ℕ) (ps s a b : List ℕ) (c : ℕ) (o : Option (List ℕ)) (later : Option (List ℕ × List ℕ))
    → strip_prefix (p ∷ ps) (c ∷ s) ≡ o
    → find (p ∷ ps) s ≡ later
    → ((x y : List ℕ) → later ≡ some (x, y) → find (p ∷ ps) x ≡ none)
    → found_or o (one_later c later) ≡ some (a, b)
    → find (p ∷ ps) a ≡ none
unfolding find
free_step p ps s a b c (some r) later e f ih h =
    ap (λ (z : List ℕ × List ℕ). find (p ∷ ps) z.0) (sym (some_inj h))
    ∙ (unfold strip_prefix in refl)
free_step p ps s a b c none none e f ih h = cc
free_step p ps s a b c none (some (x, y)) e f ih h =
    let sep = p ∷ ps in
    let clear = no_prefix sep s x y c (strip_prefix sep (c ∷ x)) refl e (find-cut sep s x y f) in
    ap (λ (z : List ℕ × List ℕ). find sep z.0) (sym (some_inj h))
    ∙ ap (λ (o : Option (List ℕ)). found_or o (one_later c (find sep x))) clear
    ∙ ap (one_later c) (ih x y refl)

-- The part before the first separator holds none.
find-free : (p : ℕ) (ps s a b : List ℕ) → find (p ∷ ps) s ≡ some (a, b) → find (p ∷ ps) a ≡ none
unfolding find strip_prefix
find-free p ps [] a b h = cc
find-free p ps (c ∷ s) a b h =
    free_step p ps s a b c (strip_prefix (p ∷ ps) (c ∷ s)) (find (p ∷ ps) s) refl refl
      (λ x y e. find-free p ps s x y e) h

find_free :
    (sep s a b : List ℕ) → is_empty sep ≡ false → find sep s ≡ some (a, b) → find sep a ≡ none
find_free [] s a b n h = cc
find_free (p ∷ ps) s a b n h = find-free p ps s a b h

IsSplit-cons :
    (sep a : List ℕ) (left : ℕ) (parts : List (List ℕ))
    → find sep a ≡ none
    → IsSplit sep (left - 1) parts
    → IsSplit sep left (a ∷ parts)
IsSplit-cons sep a left [] free h = elim h [ ]
IsSplit-cons sep a left (q ∷ parts) free h = (free, h)

module _ (sep : List ℕ) (some_sep : is_empty sep ≡ false) (maxsplit : ℕ) where
  split_loop-IsSplit :
      (fuel size : ℕ) (s : List ℕ)
      → length s < fuel
      → suc size ≤ maxsplit
      → IsSplit sep (maxsplit - size) (split_loop fuel sep maxsplit size s)
  unfolding split_loop
  split_loop-IsSplit zero size s h k = absurd (omega arith)
  split_loop-IsSplit (suc fuel) size s h k =
      if-elim (IsSplit sep (maxsplit - size)) (leb maxsplit (suc size))
        (λ e l. absurd (ground arith))
        (λ e.
          parts (find sep s) refl (λ b l. split_loop-IsSplit fuel (suc size) b l (ground arith)))
    where
      parts :
          (o : Option (List ℕ × List ℕ))
          → find sep s ≡ o
          → ((b : List ℕ)
              → length b < fuel
              → IsSplit sep (maxsplit - suc size) (split_loop fuel sep maxsplit (suc size) b))
          → IsSplit sep (maxsplit - size) (elim o as (λ _. List (List ℕ)) [
            | none ↦ s ∷ []
            | some (a, b) ↦ a ∷ split_loop fuel sep maxsplit (suc size) b
          ])
      parts none e rec = λ _. e
      parts (some (a, b)) e rec =
          IsSplit-cons sep a (maxsplit - size) (split_loop fuel sep maxsplit (suc size) b)
            (find_free sep s a b some_sep e)
            (subst (λ (n : ℕ). IsSplit sep n (split_loop fuel sep maxsplit (suc size) b))
              {x = maxsplit - suc size} (omega arith)
              (rec b (omega (arith, find-shorter sep s a b some_sep e))))

-- StringSplit with a separator cuts a text into at most `maxsplit` parts, which are the text again with the separator
-- between them. No part holds the separator but the last one, and that only where there are
-- `maxsplit` of them.
pub string_split-join :
    (s sep : List ℕ) (maxsplit : ℕ)
    → is_empty sep ≡ false
    → 0 < maxsplit
    → (join sep (string_split s sep maxsplit) ≡ s)
      × (length (string_split s sep maxsplit) ≤ maxsplit)
      × IsSplit sep maxsplit (string_split s sep maxsplit)
unfolding string_split
string_split-join s sep maxsplit some_sep h =
    if-elim
      (λ (r : List (List ℕ)). (join sep r ≡ s) × (length r ≤ maxsplit) × IsSplit sep maxsplit r)
      (is_empty sep) (λ e. absurd (clash (sym some_sep ∙ e)))
      (λ e. (
        split_loop-join sep some_sep maxsplit (suc (length s)) 0 s (omega arith),
        omega (arith, split_loop-length sep some_sep maxsplit (suc (length s)) 0 s (omega arith)),
        subst (λ (n : ℕ). IsSplit sep n (split_loop (suc (length s)) sep maxsplit 0 s))
            {x = maxsplit - 0} (omega arith)
            (split_loop-IsSplit sep some_sep maxsplit (suc (length s)) 0 s (omega arith)
              (omega arith)),
      ))
  where
    clash : false ≡ true → ⊥
    clash e = cc

-- The loop of SubstVar from a position on.
unfoldable pub subst_loop : ℕ → List ℕ → List ℕ → List ℕ → List ℕ
unfolding find
subst_loop zero subst contents s = []
subst_loop (suc fuel) subst contents s = if is_empty s then [] else elim (find subst s) [
  | none ↦ s
  | some (a, b) ↦ a ++ (contents ++ subst_loop fuel subst contents b)
]

unfoldable pub subst_var : List ℕ → List ℕ → List ℕ → List ℕ
unfolding subst_loop
subst_var s subst contents =
    if is_empty subst then s else subst_loop (suc (length s)) subst contents s

find-empty : (sub s : List ℕ) → is_empty sub ≡ false → is_empty s ≡ true → find sub s ≡ none
unfolding find strip_prefix
find-empty [] s n e = cc
find-empty (p ∷ ps) [] n e = refl
find-empty (p ∷ ps) (c ∷ s) n e = cc

empty_lem : (s : List ℕ) → is_empty s ≡ true → s ≡ []
empty_lem [] e = refl
empty_lem (c ∷ s) e = cc

module _ (sub contents : List ℕ) (some_sub : is_empty sub ≡ false) (maxsplit : ℕ) where
  subst_loop-join :
      (fuel size : ℕ) (s : List ℕ)
      → length s < fuel
      → size + length s + 1 < maxsplit
      → following contents (split_loop fuel sub maxsplit size s)
        ≡ contents ++ subst_loop fuel sub contents s
  unfolding split_loop subst_loop
  subst_loop-join zero size s h k = elim h [ ]
  subst_loop-join (suc fuel) size s h k =
      if-elim
        (λ (r : List (List ℕ)).
          following contents r ≡ contents ++ subst_loop (suc fuel) sub contents s)
        (leb maxsplit (suc size)) (λ e. absurd (ground arith))
        (λ e. whole (parts (find sub s) refl (λ b l m. subst_loop-join fuel (suc size) b l m)))
    where
      pieces : Option (List ℕ × List ℕ) → List (List ℕ)
      pieces o = elim o [
        | none ↦ s ∷ []
        | some (a, b) ↦ a ∷ split_loop fuel sub maxsplit (suc size) b
      ]

      replaced : Option (List ℕ × List ℕ) → List ℕ
      replaced o = elim o [
        | none ↦ s
        | some (a, b) ↦ a ++ (contents ++ subst_loop fuel sub contents b)
      ]

      parts :
          (o : Option (List ℕ × List ℕ))
          → find sub s ≡ o
          → ((b : List ℕ)
              → length b < fuel
              → suc size + length b + 1 < maxsplit
              → following contents (split_loop fuel sub maxsplit (suc size) b)
                ≡ contents ++ subst_loop fuel sub contents b)
          → following contents (pieces o) ≡ contents ++ replaced o
      parts none e rec = ap (λ (t : List ℕ). contents ++ t) (append-nil s)
      parts (some (a, b)) e rec =
          let shorter = find-shorter sub s a b some_sub e in
          ap (λ (t : List ℕ). contents ++ (a ++ t))
            (rec b (omega (arith, shorter)) (omega (arith, shorter)))

      whole :
          following contents (pieces (find sub s)) ≡ contents ++ replaced (find sub s)
          → following contents (pieces (find sub s))
            ≡ contents ++ (if is_empty s then [] else replaced (find sub s))
      whole r =
          if-elim (λ (x : List ℕ). following contents (pieces (find sub s)) ≡ contents ++ x)
            (is_empty s)
            (λ e.
              r
              ∙ ap (λ (o : Option (List ℕ × List ℕ)). contents ++ replaced o)
                  (find-empty sub s some_sub e)
              ∙ ap (λ (t : List ℕ). contents ++ t) (empty_lem s e))
            (λ e. r)

-- SubstVar cuts the text at each place of the sought text, as StringSplit does with no limit on the parts,
-- and joins the parts with the contents between them.
pub subst_var-split :
    (s subst contents : List ℕ)
    → is_empty subst ≡ false
    → subst_var s subst contents ≡ join contents (string_split s subst (length s + 2))
unfolding subst_var string_split split_loop
subst_var-split s subst contents some_sub =
    if-elim
      (λ (r : List ℕ).
        r
        ≡ join contents
            (if is_empty subst then [] else split_loop (suc (length s)) subst (length s + 2) 0 s))
      (is_empty subst) (λ e. absurd (clash (sym some_sub ∙ e)))
      (λ e.
        if-elim
          (λ (r : List (List ℕ)). subst_loop (suc (length s)) subst contents s ≡ join contents r)
          (is_empty subst) (λ e. absurd (clash (sym some_sub ∙ e)))
          (λ e. sym (
            joined (split_loop (suc (length s)) subst (length s + 2) 0 s)
              (split_loop-nonempty (length s) s)
              (subst_loop-join subst contents some_sub (length s + 2) (suc (length s)) 0 s
                (omega arith) (omega arith)))))
  where
    clash : false ≡ true → ⊥
    clash e = cc

    joined :
        (parts : List (List ℕ))
        → is_empty parts ≡ false
        → following contents parts ≡ contents ++ subst_loop (suc (length s)) subst contents s
        → join contents parts ≡ subst_loop (suc (length s)) subst contents s
    joined [] n e = cc
    joined (x ∷ parts) n e = cancel contents _ _ e

    split_loop-nonempty :
        (fuel : ℕ) (t : List ℕ) → is_empty (split_loop (suc fuel) subst (length s + 2) 0 t) ≡ false
    split_loop-nonempty fuel t =
        if-elim (λ (r : List (List ℕ)). is_empty r ≡ false) (leb (length s + 2) 1) (λ e. refl)
          (λ e. by_find (find subst t))
      where
        by_find :
            (o : Option (List ℕ × List ℕ))
            → is_empty (elim o as (λ x. List (List ℕ)) [
              | none ↦ t ∷ []
              | some (a, b) ↦ a ∷ split_loop fuel subst (length s + 2) 1 b
            ])
              ≡ false
        by_find none = refl
        by_find (some (a, b)) = refl
