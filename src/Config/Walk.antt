-- ===== src/Config/Walk.antt =====
-- FullTag and the walk of Dump over all items (apt-pkg/contrib/configuration.cc), which the loop of
-- LoadConfigurationIndex shares.
use aptum.Prelude.{
  ℕ, zero, suc, ◌+◌, ◌<◌, ◌≡◌, refl, sym, ap, ◌∙◌, Bool, true, not, ◌||◌, List, [], ◌∷◌, ◌++◌,
  append_assoc, append-nil, map, Option, none, some, arith, ◌==◌, if◌then◌else◌, is_empty,
}
use mathlib.Core.Path.{fun_ext}
use aptum.Chars.{codes}
use aptum.Strings.Quote.{quote_string}
use aptum.Strings.Parts.{vectorize_string}
use aptum.Config.Items.{Items, nil, item}

-- FullTag, from the tag and those of the items above it, the nearest first; `Root` has none.
unfoldable pub full_tag : List ℕ → List (List ℕ) → List ℕ
full_tag tag [] = tag
full_tag tag (parent ∷ above) = full_tag parent above ++ (b':' ∷ b':' ∷ tag)

pub record Entry : Type 0 where
  pub above : List (List ℕ)
  pub tag : List ℕ
  pub value : List ℕ

-- The items above `Top`, each with its tag and its `Next`.
abbrev pub Parents : Type 0
Parents = List (List ℕ × Items)

-- The loop that goes up until there is a next item.
unfoldable pub climb : Items → Parents → Option (Items × Parents)
climb (item tag value child next) above = some (item tag value child next, above)
climb nil [] = none
climb nil ((tag, next) ∷ above) = climb next above

abbrev pub after_item : List ℕ → Items → Items → Parents → Option (Items × Parents)
after_item tag nil next above = climb next above
after_item tag (item t v c n) next above = some (item t v c n, (tag, next) ∷ above)

abbrev pub tags_above : Parents → List (List ℕ)
tags_above above = map (λ (p : List ℕ × Items). p.0) above

-- The loop of Dump, as the items that it looks at.
unfoldable pub walk : ℕ → Items → Parents → List Entry
unfolding climb
walk zero top above = []
walk (suc fuel) nil above = []
walk (suc fuel) (item t v child next) above =
    record { above = tags_above above; tag = t; value = v }
    ∷ elim (after_item t child next above) [ none ↦ [] | some (top, above') ↦ walk fuel top above' ]

-- What one directive of the format writes.
unfoldable pub directive : ℕ → Entry → List ℕ
unfolding full_tag quote_string
directive type e =
    if type == b'f'
    then full_tag e.tag e.above
    else if type == b't'
    then e.tag
    else if type == b'v'
    then e.value
    else if type == b'F'
    then quote_string (codes "=\"\n") (full_tag e.tag e.above)
    else if type == b'T'
    then quote_string (codes "=\"\n") e.tag
    else if type == b'V'
    then quote_string (codes "=\"\n") e.value
    else if type == b'n'
    then codes "\n"
    else if type == b'N'
    then codes "\t"
    else b'%' ∷ type ∷ []

-- The parts of the format behind the first; one that is empty at the end would be followed outside of them.
unfoldable pub format_loop : List (List ℕ) → Entry → List ℕ
unfolding directive
format_loop [] e = []
format_loop ([] ∷ []) e = []
format_loop ([] ∷ f ∷ format) e = (b'%' ∷ f) ++ format_loop format e
format_loop ((type ∷ f) ∷ format) e = directive type e ++ (f ++ format_loop format e)

unfoldable pub write_entry : List (List ℕ) → Entry → List ℕ
unfolding format_loop
write_entry [] e = []
write_entry (f ∷ format) e = f ++ format_loop format e

unfoldable pub write_all : (Entry → List ℕ) → Bool → List Entry → List ℕ
write_all write empty_value [] = []
write_all write empty_value (e ∷ entries) =
    (if empty_value || not (is_empty e.value) then write e else [])
    ++ write_all write empty_value entries

abbrev pub count : Items → ℕ
count nil = 0
count (item t v child next) = suc (count child + count next)

-- Dump of the whole tree.
unfoldable pub dump : List ℕ → Bool → Items → List ℕ
unfolding walk write_entry write_all vectorize_string
dump format empty_value items =
    write_all (write_entry (vectorize_string format b'%')) empty_value
      (walk (suc (count items)) items [])

-- Every item before what is below it, and that before what follows.
abbrev pub preorder : List (List ℕ) → Items → List Entry
preorder a nil = []
preorder a (item t v child next) =
    record { above = a; tag = t; value = v } ∷ (preorder (t ∷ a) child ++ preorder a next)

left_over : Parents → List Entry
left_over [] = []
left_over ((t, next) ∷ above) = preorder (tags_above above) next ++ left_over above

parents_count : Parents → ℕ
parents_count [] = 0
parents_count ((t, next) ∷ above) = count next + parents_count above

-- What is left to walk from a place, or from none.
abbrev rest_of : Option (Items × Parents) → List Entry
rest_of none = []
rest_of (some (top, above)) = preorder (tags_above above) top ++ left_over above

abbrev rest_count : Option (Items × Parents) → ℕ
rest_count none = 0
rest_count (some (top, above)) = count top + parents_count above

climb_rest :
    (next : Items) (above : Parents)
    → (rest_of (climb next above) ≡ preorder (tags_above above) next ++ left_over above)
      × (rest_count (climb next above) ≡ count next + parents_count above)
unfolding climb left_over parents_count
climb_rest (item t v c n) above = (refl, refl)
climb_rest nil [] = (refl, omega arith)
climb_rest nil ((t, next) ∷ above) = let (e, k) = climb_rest next above in (e, omega (arith, k))

after_item_rest :
    (t : List ℕ) (child next : Items) (above : Parents)
    → (rest_of (after_item t child next above)
        ≡ preorder (t ∷ tags_above above) child
          ++ (preorder (tags_above above) next ++ left_over above))
      × (rest_count (after_item t child next above)
          ≡ count child + count next + parents_count above)
unfolding left_over parents_count
after_item_rest t nil next above = let (e, k) = climb_rest next above in (e, omega (arith, k))
after_item_rest t (item t' v c n) next above = (refl, omega arith)

abbrev IsPlace : Option (Items × Parents) → Type 0
IsPlace none = Unit
IsPlace (some (nil, above)) = ⊥
IsPlace (some (item t v c n, above)) = Unit

climb-IsPlace : (next : Items) (above : Parents) → IsPlace (climb next above)
unfolding climb
climb-IsPlace (item t v c n) above = tt
climb-IsPlace nil [] = tt
climb-IsPlace nil ((t, next) ∷ above) = climb-IsPlace next above

after_item-IsPlace :
    (t : List ℕ) (child next : Items) (above : Parents) → IsPlace (after_item t child next above)
after_item-IsPlace t nil next above = climb-IsPlace next above
after_item-IsPlace t (item t' v c n) next above = tt

walk_rest :
    (fuel : ℕ) (t v : List ℕ) (child next : Items) (above : Parents)
    → count (item t v child next) + parents_count above < fuel
    → walk fuel (item t v child next) above
      ≡ preorder (tags_above above) (item t v child next) ++ left_over above
unfolding walk
walk_rest zero t v child next above h = absurd (omega arith)
walk_rest (suc fuel) t v child next above h =
    let (e, k) = after_item_rest t child next above in
    ap (λ (r : List Entry). record { above = tags_above above; tag = t; value = v } ∷ r)
      (onward (after_item t child next above) (after_item-IsPlace t child next above)
          (omega (arith, k)) (λ t' v' c n a l. walk_rest fuel t' v' c n a l)
        ∙ e
        ∙ sym (
            append_assoc (preorder (t ∷ tags_above above) child) (preorder (tags_above above) next)
              (left_over above)))
  where
    onward :
        (o : Option (Items × Parents))
        → IsPlace o
        → rest_count o < fuel
        → ((t' v' : List ℕ) (c n : Items) (a : Parents)
            → count (item t' v' c n) + parents_count a < fuel
            → walk fuel (item t' v' c n) a
              ≡ preorder (tags_above a) (item t' v' c n) ++ left_over a)
        → (elim o as (λ x. List Entry) [ none ↦ [] | some (top, a) ↦ walk fuel top a ]) ≡ rest_of o
    onward none p l ih = refl
    onward (some (nil, a)) p l ih = absurd p
    onward (some (item t' v' c n, a)) p l ih = ih t' v' c n a l

walk-preorder : (items : Items) → walk (suc (count items)) items [] ≡ preorder [] items
unfolding left_over parents_count
walk-preorder nil = unfold walk in refl
walk-preorder (item t v child next) =
    walk_rest (suc (count (item t v child next))) t v child next [] (omega arith)
    ∙ append-nil (preorder [] (item t v child next))

-- A line of the default format: the quoted full tag and the value.
abbrev pub dump_line : Entry → List ℕ
dump_line e =
    quote_string (codes "=\"\n") (full_tag e.tag e.above)
    ++ (codes " \"" ++ (e.value ++ codes "\";\n"))

-- With the default format Dump writes a line for every item of the tree, once, and each item before what is below
-- it and that before what follows.
pub dump-preorder :
    (items : Items)
    → dump (codes "%F \"%v\";\n") true items ≡ write_all dump_line true (preorder [] items)
unfolding dump
dump-preorder items =
    ap
      (λ (es : List Entry).
        write_all (write_entry (vectorize_string (codes "%F \"%v\";\n") b'%')) true es)
      (walk-preorder items)
    ∙ each (preorder [] items)
  where
    line : (e : Entry) → write_entry (vectorize_string (codes "%F \"%v\";\n") b'%') e ≡ dump_line e
    line e = refl

    each :
        (es : List Entry)
        → write_all (write_entry (vectorize_string (codes "%F \"%v\";\n") b'%')) true es
          ≡ write_all dump_line true es
    each es = ap (λ (w : Entry → List ℕ). write_all w true es) (fun_ext line)
