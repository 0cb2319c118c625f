-- ===== src/Config/Lookups.antt =====
-- How the functions that change one item of the configuration tree (apt-pkg/contrib/configuration.cc) act on
-- every later lookup below the same item.
use aptum.Prelude.{
  Bool-cases, inl, inr, ℕ, ◌≡◌, refl, sym, ap, ◌∙◌, ◌↔◌, Bool, true, false, not, ◌&&◌, ◌||◌, List,
  [], ◌∷◌, arith, ◌==◌, if◌then◌else◌, length, is_empty,
}
use aptum.Prelude.Int.{is_zero}
use aptum.Strings.Order.{stringcasecmp-zero, lower, length-lower, is_zero-eq}
use aptum.Config.Items.{Items, item, cell, same_tag, lookup_item, create_item, change_item, nil}

and_both : (a b : Bool) → (a && b) ≡ true → (a ≡ true) × (b ≡ true)
and_both true b h = (refl, h)
and_both false b h = cc

iff_eq : (a b : Bool) → (a ≡ true → b ≡ true) → (b ≡ true → a ≡ true) → a ≡ b
iff_eq true b f g = sym (f refl)
iff_eq false true f g = g refl
iff_eq false false f g = refl

-- A tag is found by the texts that are not empty and equal it in lower case.
pub same_tag-lower :
    (s tag : List ℕ) → (same_tag s tag ≡ true) ↔ ((is_empty s ≡ false) × (lower s ≡ lower tag))
unfolding same_tag
same_tag-lower [] tag = (λ h. cc, λ h. cc)
same_tag-lower (c ∷ s) tag = (to, from)
  where
    to : same_tag (c ∷ s) tag ≡ true → (is_empty (c ∷ s) ≡ false) × (lower (c ∷ s) ≡ lower tag)
    to h =
        let further = (and_both (not (length (c ∷ s) == 0)) _ h).1 in
        let last = (and_both (length (c ∷ s) == length tag) _ further).1 in
        (refl, sym ((stringcasecmp-zero tag (c ∷ s)).0 (is_zero-eq _ last)))

    from : (is_empty (c ∷ s) ≡ false) × (lower (c ∷ s) ≡ lower tag) → same_tag (c ∷ s) tag ≡ true
    from (_, e) =
        let equal : (length (c ∷ s) == length tag) ≡ true =
          ground (arith, length-lower (c ∷ s) tag e) in
        let some_text : (length (c ∷ s) == 0) ≡ false = ground arith in
        rw (some_text, equal) (ap is_zero ((stringcasecmp-zero tag (c ∷ s)).1 (sym e)))

same_tag-same : (s t tag : List ℕ) → same_tag s tag ≡ true → same_tag t tag ≡ same_tag t s
same_tag-same s t tag h =
    let (_, e) = (same_tag-lower s tag).0 h in
    iff_eq (same_tag t tag) (same_tag t s)
      (λ k. let (n, f) = (same_tag-lower t tag).0 k in (same_tag-lower t s).1 (n, f ∙ sym e))
      (λ k. let (n, f) = (same_tag-lower t s).0 k in (same_tag-lower t tag).1 (n, f ∙ e))

-- The cell of an item that was found, with its value and its child changed.
abbrev pub changed :
    (List ℕ → List ℕ) → (Items → Items) → Bool → Bool × List ℕ × Items → Bool × List ℕ × Items
changed f g made (there, value, child) = (made || there, f value, g child)

nonempty_lower : (s t : List ℕ) → lower t ≡ lower s → is_empty t ≡ false → is_empty s ≡ false
nonempty_lower [] [] e h = h
nonempty_lower [] (c ∷ t) e h = cc
nonempty_lower (c ∷ s) t e h = refl

same_tag-other :
    (s t tag : List ℕ) → same_tag s tag ≡ false → same_tag t tag ≡ true → same_tag t s ≡ false
same_tag-other s t tag h k = elim (Bool-cases (same_tag t s)) [
  | inl e ↦
      let (n, same) = (same_tag-lower t s).0 e in
      let (_, found) = (same_tag-lower t tag).0 k in
      absurd (clash ((same_tag-lower s tag).1 (nonempty_lower s t same n, sym same ∙ found)))
  | inr e ↦ e
]
  where
    clash : same_tag s tag ≡ true → ⊥
    clash e = cc

module _ (s t : List ℕ) (f : List ℕ → List ℕ) (g : Items → Items) where
  -- A lookup where the item that was changed is the first one.
  found_here :
      (made b : Bool) (tag value : List ℕ) (child next : Items)
      → cell (if b then item tag (f value) (g child) next else lookup_item t next) ≡ (
          if b
          then changed f g made (cell (if b then item tag value child next else lookup_item t next))
          else cell (if b then item tag value child next else lookup_item t next))
  found_here true true tag value child next = refl
  found_here false true tag value child next = refl
  found_here made false tag value child next = refl

  -- One where it is behind an item that stays.
  found_later :
      (made : Bool) (tag value : List ℕ) (child next later : Items)
      → same_tag s tag ≡ false
      → cell (lookup_item t later) ≡ (
          if same_tag t s
          then changed f g made (cell (lookup_item t next))
          else cell (lookup_item t next))
      → (b : Bool) → same_tag t tag ≡ b
      → cell (if b then item tag value child later else lookup_item t later) ≡ (
          if same_tag t s
          then changed f g made (cell (if b then item tag value child next else lookup_item t next))
          else cell (if b then item tag value child next else lookup_item t next))
  found_later made tag value child next later h ih true k = rw (same_tag-other s t tag h k) refl
  found_later made tag value child next later h ih false k = ih

  pub create_item-cell :
      (items : Items)
      → cell (lookup_item t (create_item s f g items)) ≡ (
          if same_tag t s
          then changed f g true (cell (lookup_item t items))
          else cell (lookup_item t items))
  unfolding create_item lookup_item
  create_item-cell nil = new_item (same_tag t s)
    where
      new_item :
          (b : Bool)
          → cell (if b then item s (f []) (g nil) nil else nil)
            ≡ (if b then (true, f [], g nil) else (false, [], nil))
      new_item true = refl
      new_item false = refl
  create_item-cell (item tag value child next) =
      let ih = create_item-cell next in
      elim (Bool-cases (same_tag s tag)) [
        | inl e ↦
            rw (e, same_tag-same s t tag e) (found_here true (same_tag t s) tag value child next)
        | inr e ↦ rw e (
            found_later true tag value child next (create_item s f g next) e ih (same_tag t tag)
              refl)
      ]

  -- Without `Create`, where nothing is made of an empty value and no children.
  pub change_item-cell :
      (items : Items)
      → f [] ≡ []
      → g nil ≡ nil
      → cell (lookup_item t (change_item s f g items)) ≡ (
          if same_tag t s
          then changed f g false (cell (lookup_item t items))
          else cell (lookup_item t items))
  unfolding change_item lookup_item
  change_item-cell nil p q = absent (same_tag t s)
    where
      absent :
          (b : Bool)
          → ◌≡◌ {A = Bool × List ℕ × Items}
              (false, [], nil)
              (if b then (false, f [], g nil) else (false, [], nil))
      absent true = rw (p, q) refl
      absent false = refl
  change_item-cell (item tag value child next) p q =
      let ih = change_item-cell next p q in
      elim (Bool-cases (same_tag s tag)) [
        | inl e ↦
            rw (e, same_tag-same s t tag e) (found_here false (same_tag t s) tag value child next)
        | inr e ↦ rw e (
            found_later false tag value child next (change_item s f g next) e ih (same_tag t tag)
              refl)
      ]
