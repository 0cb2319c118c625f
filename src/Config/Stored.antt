-- ===== src/Config/Stored.antt =====
-- What Find and Exists answer behind Set, CndSet and Clear (apt-pkg/contrib/configuration.cc): the tree is a map
-- from names, in lower case and cut into tags, to values.
use aptum.Prelude.{
  ◌≡◌, refl, ap, ◌∙◌, Bool, true, false, ◌&&◌, ◌||◌, List, [], ◌∷◌, ℕ, if◌then◌else◌,
}
use aptum.Config.Items.{
  Items, nil, cell, same_tag, lookup_item, lookup_tags, create_tags, change_tags, name_tags,
}
use aptum.Config.Access.{find, exists, set, cnd_set, clear, value_or}
use aptum.Config.Lookups.{changed, create_item-cell, change_item-cell}

-- A name in its tags.
abbrev pub tags_of : List ℕ → List (List ℕ)
tags_of name = (name_tags name).0 ∷ (name_tags name).1

-- The tags ts find what the tags ss name, something below it, or something above it.
abbrev pub same_tags : List (List ℕ) → List (List ℕ) → Bool
same_tags [] [] = true
same_tags [] (s ∷ ss) = false
same_tags (t ∷ ts) [] = false
same_tags (t ∷ ts) (s ∷ ss) = same_tag t s && same_tags ts ss

abbrev pub below_tags : List (List ℕ) → List (List ℕ) → Bool
below_tags ts [] = true
below_tags [] (s ∷ ss) = false
below_tags (t ∷ ts) (s ∷ ss) = same_tag t s && below_tags ts ss

abbrev pub above_tags : List (List ℕ) → List (List ℕ) → Bool
above_tags [] ss = true
above_tags (t ∷ ts) [] = false
above_tags (t ∷ ts) (s ∷ ss) = same_tag t s && above_tags ts ss

module _ (f : List ℕ → List ℕ) (g : Items → Items) (made : Bool) where
  cell-value :
      (b : Bool) (r r' : Bool × List ℕ × Items)
      → r' ≡ (if b then changed f g made r else r)
      → r'.1 ≡ (if b then f r.1 else r.1)
  cell-value true r r' e = ap (λ (x : Bool × List ℕ × Items). x.1) e
  cell-value false r r' e = ap (λ (x : Bool × List ℕ × Items). x.1) e

  cell-child :
      (b : Bool) (r r' : Bool × List ℕ × Items)
      → r' ≡ (if b then changed f g made r else r)
      → r'.2 ≡ (if b then g r.2 else r.2)
  cell-child true r r' e = ap (λ (x : Bool × List ℕ × Items). x.2) e
  cell-child false r r' e = ap (λ (x : Bool × List ℕ × Items). x.2) e

  cell-there :
      (b : Bool) (r r' : Bool × List ℕ × Items)
      → r' ≡ (if b then changed f g made r else r)
      → r'.0 ≡ (if b then made || r.0 else r.0)
  cell-there true r r' e = ap (λ (x : Bool × List ℕ × Items). x.0) e
  cell-there false r r' e = ap (λ (x : Bool × List ℕ × Items). x.0) e

if-same {ℓ} : {A : Type ℓ} (b : Bool) (x : A) → (if b then x else x) ≡ x
if-same true x = refl
if-same false x = refl

if-and-true {ℓ} :
    {A : Type ℓ} (b : Bool) (x y : A) → (if b then x else y) ≡ (if b && true then x else y)
if-and-true true x y = refl
if-and-true false x y = refl

if-and-false {ℓ} : {A : Type ℓ} (b : Bool) (x y : A) → y ≡ (if b && false then x else y)
if-and-false true x y = refl
if-and-false false x y = refl

-- One tag further down.
module _ {ℓ} {A : Type ℓ} (look : Items → A) where
  step_down :
      (b q : Bool) (x y : A) (c c' d : Items)
      → c' ≡ (if b then d else c)
      → look d ≡ (if q then x else y)
      → look c ≡ y
      → look c' ≡ (if b && q then x else y)
  step_down true q x y c c' d e h k = ap look e ∙ h
  step_down false q x y c c' d e h k = ap look e ∙ k

abbrev pub value_at : List ℕ → List (List ℕ) → Items → List ℕ
value_at t ts c = (cell (lookup_tags t ts c)).1

abbrev pub there_at : List ℕ → List (List ℕ) → Items → Bool
there_at t ts c = (cell (lookup_tags t ts c)).0

create_tags-value :
    (s : List ℕ) (ss : List (List ℕ)) (t : List ℕ) (ts : List (List ℕ)) (f : List ℕ → List ℕ)
    (c : Items)
    → value_at t ts (create_tags s ss f c)
      ≡ (if same_tags (t ∷ ts) (s ∷ ss) then f (value_at t ts c) else value_at t ts c)
unfolding lookup_tags create_tags
create_tags-value s [] t [] f c =
    cell-value f (λ x. x) true (same_tag t s) _ _ (create_item-cell s t f (λ x. x) c)
    ∙ if-and-true (same_tag t s) _ _
create_tags-value s [] t (t' ∷ ts) f c =
    ap (value_at t' ts) (
      cell-child f (λ x. x) true (same_tag t s) _ _ (create_item-cell s t f (λ x. x) c)
      ∙ if-same (same_tag t s) _)
    ∙ if-and-false (same_tag t s) _ _
create_tags-value s (s' ∷ ss) t [] f c =
    cell-value (λ v. v) (create_tags s' ss f) true (same_tag t s) _ _
      (create_item-cell s t (λ v. v) (create_tags s' ss f) c)
    ∙ if-same (same_tag t s) _
    ∙ if-and-false (same_tag t s) _ _
create_tags-value s (s' ∷ ss) t (t' ∷ ts) f c =
    step_down (value_at t' ts) (same_tag t s) (same_tags (t' ∷ ts) (s' ∷ ss)) _ _
      (cell (lookup_item t c)).2 _ (create_tags s' ss f (cell (lookup_item t c)).2)
      (cell-child (λ v. v) (create_tags s' ss f) true (same_tag t s) _ _
        (create_item-cell s t (λ v. v) (create_tags s' ss f) c))
      (create_tags-value s' ss t' ts f (cell (lookup_item t c)).2) refl

create_tags-there :
    (s : List ℕ) (ss : List (List ℕ)) (t : List ℕ) (ts : List (List ℕ)) (f : List ℕ → List ℕ)
    (c : Items)
    → there_at t ts (create_tags s ss f c)
      ≡ (if above_tags (t ∷ ts) (s ∷ ss) then true else there_at t ts c)
unfolding lookup_tags create_tags
create_tags-there s [] t [] f c =
    cell-there f (λ x. x) true (same_tag t s) _ _ (create_item-cell s t f (λ x. x) c)
    ∙ if-and-true (same_tag t s) _ _
create_tags-there s [] t (t' ∷ ts) f c =
    ap (there_at t' ts) (
      cell-child f (λ x. x) true (same_tag t s) _ _ (create_item-cell s t f (λ x. x) c)
      ∙ if-same (same_tag t s) _)
    ∙ if-and-false (same_tag t s) _ _
create_tags-there s (s' ∷ ss) t [] f c =
    cell-there (λ v. v) (create_tags s' ss f) true (same_tag t s) _ _
      (create_item-cell s t (λ v. v) (create_tags s' ss f) c)
    ∙ if-and-true (same_tag t s) _ _
create_tags-there s (s' ∷ ss) t (t' ∷ ts) f c =
    step_down (there_at t' ts) (same_tag t s) (above_tags (t' ∷ ts) (s' ∷ ss)) _ _
      (cell (lookup_item t c)).2 _ (create_tags s' ss f (cell (lookup_item t c)).2)
      (cell-child (λ v. v) (create_tags s' ss f) true (same_tag t s) _ _
        (create_item-cell s t (λ v. v) (create_tags s' ss f) c))
      (create_tags-there s' ss t' ts f (cell (lookup_item t c)).2) refl

value_at-nil : (t : List ℕ) (ts : List (List ℕ)) → value_at t ts nil ≡ []
unfolding lookup_tags
value_at-nil t [] = refl
value_at-nil t (t' ∷ ts) = value_at-nil t' ts

clear_tags : List ℕ → List (List ℕ) → Items → Items
clear_tags s ss c = change_tags s ss (λ _. []) (λ _. nil) c

clear_tags-nil : (s : List ℕ) (ss : List (List ℕ)) → clear_tags s ss nil ≡ nil
unfolding clear_tags change_tags
clear_tags-nil s [] = refl
clear_tags-nil s (s' ∷ ss) = refl

clear_tags-value :
    (s : List ℕ) (ss : List (List ℕ)) (t : List ℕ) (ts : List (List ℕ)) (c : Items)
    → value_at t ts (clear_tags s ss c)
      ≡ (if below_tags (t ∷ ts) (s ∷ ss) then [] else value_at t ts c)
unfolding lookup_tags clear_tags change_tags
clear_tags-value s [] t [] c =
    cell-value (λ _. []) (λ _. nil) false (same_tag t s) _ _
      (change_item-cell s t (λ _. []) (λ _. nil) c refl refl)
    ∙ if-and-true (same_tag t s) _ _
clear_tags-value s [] t (t' ∷ ts) c =
    step_down (value_at t' ts) (same_tag t s) true _ _ (cell (lookup_item t c)).2 _ nil
      (cell-child (λ _. []) (λ _. nil) false (same_tag t s) _ _
        (change_item-cell s t (λ _. []) (λ _. nil) c refl refl))
      (value_at-nil t' ts) refl
clear_tags-value s (s' ∷ ss) t [] c =
    cell-value (λ v. v) (clear_tags s' ss) false (same_tag t s) _ _
      (change_item-cell s t (λ v. v) (clear_tags s' ss) c refl (clear_tags-nil s' ss))
    ∙ if-same (same_tag t s) _
    ∙ if-and-false (same_tag t s) _ _
clear_tags-value s (s' ∷ ss) t (t' ∷ ts) c =
    step_down (value_at t' ts) (same_tag t s) (below_tags (t' ∷ ts) (s' ∷ ss)) _ _
      (cell (lookup_item t c)).2 _ (clear_tags s' ss (cell (lookup_item t c)).2)
      (cell-child (λ v. v) (clear_tags s' ss) false (same_tag t s) _ _
        (change_item-cell s t (λ v. v) (clear_tags s' ss) c refl (clear_tags-nil s' ss)))
      (clear_tags-value s' ss t' ts (cell (lookup_item t c)).2) refl

ap-if {ℓ κ} :
    {A : Type ℓ} {B : Type κ} (f : A → B) (b : Bool) {x y : A} {z w : B}
    → f x ≡ z
    → f y ≡ w
    → f (if b then x else y) ≡ (if b then z else w)
ap-if f true h k = h
ap-if f false h k = k

value_or_or :
    (default value old : List ℕ)
    → value_or default (value_or value old) ≡ value_or (value_or default value) old
value_or_or default value [] = refl
value_or_or default value (c ∷ old) = refl

-- Find behind Set gives the value that was set where the tags of the names are not empty and equal but for the
-- case of their letters; behind CndSet it gives there the value from before, or the new one where that was
-- empty. For every other name it gives what it gave before.
pub find-set :
    (name other value default : List ℕ) (items : Items)
    → (find other default (set name value items) ≡ (
        if same_tags (tags_of other) (tags_of name)
        then value_or default value
        else find other default items))
      × (find other default (cnd_set name value items) ≡ (
          if same_tags (tags_of other) (tags_of name)
          then find other (value_or default value) items
          else find other default items))
unfolding find set cnd_set
find-set name other value default items = (
  ap (value_or default) (at (λ _. value))
      ∙ ap-if (value_or default) (same_tags (tags_of other) (tags_of name)) refl refl,
  ap (value_or default) (at (value_or value))
      ∙ ap-if (value_or default) (same_tags (tags_of other) (tags_of name))
          (value_or_or default value (value_at (name_tags other).0 (name_tags other).1 items)) refl,
)
  where
    at :
        (f : List ℕ → List ℕ)
        → value_at
            (name_tags other).0
            (name_tags other).1
            (create_tags (name_tags name).0 (name_tags name).1 f items)
          ≡ (if same_tags (tags_of other) (tags_of name)
              then f (value_at (name_tags other).0 (name_tags other).1 items)
              else value_at (name_tags other).0 (name_tags other).1 items)
    at f =
        create_tags-value (name_tags name).0 (name_tags name).1 (name_tags other).0
          (name_tags other).1 f items

-- Behind Set those names exist that existed, and the name that was set with all above it.
exists-set :
    (name other value : List ℕ) (items : Items)
    → exists other (set name value items)
      ≡ (if above_tags (tags_of other) (tags_of name) then true else exists other items)
unfolding exists set
exists-set name other value items =
    create_tags-there (name_tags name).0 (name_tags name).1 (name_tags other).0 (name_tags other).1
      (λ _. value) items

-- Behind Clear of a tree Find gives the default for the name and all below it, and for every other name what it
-- gave before.
pub find-clear :
    (name other default : List ℕ) (items : Items)
    → find other default (clear name items)
      ≡ (if below_tags (tags_of other) (tags_of name) then default else find other default items)
unfolding find clear clear_tags
find-clear name other default items =
    ap (value_or default) (
      clear_tags-value (name_tags name).0 (name_tags name).1 (name_tags other).0 (name_tags other).1
        items)
    ∙ ap-if (value_or default) (below_tags (tags_of other) (tags_of name)) refl refl
