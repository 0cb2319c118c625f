-- ===== src/Config/Items.antt =====
-- Configuration::Item and the two Lookup of apt-pkg/contrib/configuration.cc, below `Root`.
--
-- A pointer to an item is the list of the item and those that follow it by `Next`; `nil` is the null pointer.
-- `Parent` is left to the functions that go down.
use aptum.Prelude.{
  ℕ, Bool, true, false, not, ◌&&◌, List, [], ◌∷◌, ◌++◌, ◌==◌, if◌then◌else◌, length,
}
use aptum.Prelude.Int.{is_zero}
use aptum.Strings.Order.{stringcasecmp}

pub data Items : Type 0 where
  nil : Items
  item : (tag value : List ℕ) (child next : Items) → Items

-- `Len != 0 && Len == I->Tag.length() && stringcasecmp(...) == 0`: no tag is found by the empty text.
unfoldable pub same_tag : List ℕ → List ℕ → Bool
same_tag s tag = not (length s == 0) && (length s == length tag && is_zero (stringcasecmp tag s))

-- The loop of Lookup of a single item.
unfoldable pub lookup_item : List ℕ → Items → Items
unfolding same_tag
lookup_item s nil = nil
lookup_item s (item tag value child next) =
    let later = lookup_item s next in if same_tag s tag then item tag value child next else later

-- Whether a pointer is not null, with the value and the child there.
abbrev pub cell : Items → Bool × List ℕ × Items
cell nil = (false, [], nil)
cell (item tag value child next) = (true, value, child)

-- Lookup with `Create` of a single item, which is made behind the others, and what is then done to its
-- value and its child.
unfoldable pub create_item : List ℕ → (List ℕ → List ℕ) → (Items → Items) → Items → Items
unfolding same_tag
create_item s f g nil = item s (f []) (g nil) nil
create_item s f g (item tag value child next) =
    let later = create_item s f g next in
    if same_tag s tag then item tag (f value) (g child) next else item tag value child later

-- The same without `Create`.
unfoldable pub change_item : List ℕ → (List ℕ → List ℕ) → (Items → Items) → Items → Items
unfolding same_tag
change_item s f g nil = nil
change_item s f g (item tag value child next) =
    let later = change_item s f g next in
    if same_tag s tag then item tag (f value) (g child) next else item tag value child later

-- Lookup of a name in its tags, the first and the further ones.
unfoldable pub lookup_tags : List ℕ → List (List ℕ) → Items → Items
unfolding lookup_item
lookup_tags s [] items = lookup_item s items
lookup_tags s (t ∷ ts) items = lookup_tags t ts (cell (lookup_item s items)).2

unfoldable pub create_tags : List ℕ → List (List ℕ) → (List ℕ → List ℕ) → Items → Items
unfolding create_item
create_tags s [] f items = create_item s f (λ c. c) items
create_tags s (t ∷ ts) f items = create_item s (λ v. v) (create_tags t ts f) items

unfoldable pub change_tags :
    List ℕ → List (List ℕ) → (List ℕ → List ℕ) → (Items → Items) → Items → Items
unfolding change_item
change_tags s [] f g items = change_item s f g items
change_tags s (t ∷ ts) f g items = change_item s (λ v. v) (change_tags t ts f g) items

-- The loop that cuts a name at `::`, with the part that was begun and whether the next place is passed over, as
-- it is behind a cut.
unfoldable pub tags_loop : List ℕ → Bool → List ℕ → List ℕ × List (List ℕ)
tags_loop part skip [] = (part, [])
tags_loop part skip (c ∷ []) = (part ++ c ∷ [], [])
tags_loop part skip (c ∷ d ∷ name) =
    let cut = tags_loop [] true name in
    let further = tags_loop (part ++ c ∷ []) false (d ∷ name) in
    if not skip && c == b':' && d == b':' then (part, cut.0 ∷ cut.1) else further

unfoldable pub name_tags : List ℕ → List ℕ × List (List ℕ)
unfolding tags_loop
name_tags name = tags_loop [] false name
