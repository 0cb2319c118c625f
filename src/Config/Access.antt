-- ===== src/Config/Access.antt =====
-- Find, Exists, Set, CndSet, Clear and FindVector of apt-pkg/contrib/configuration.cc, on the items below `Root`.
-- checkFindConfigOptionType, which only warns, is left out.
use aptum.Prelude.{ℕ, Bool, true, false, List, [], ◌∷◌, Option, none, some, if◌then◌else◌, is_empty}
use aptum.Config.Items.{Items, nil, item, cell, lookup_tags, create_tags, change_tags, name_tags}
use aptum.Strings.Parts.{vectorize_string}
use aptum.Strings.Affixes.{same_text}

unfoldable pub lookup : List ℕ → Items → Items
unfolding lookup_tags name_tags
lookup name items = lookup_tags (name_tags name).0 (name_tags name).1 items

abbrev pub value_or : List ℕ → List ℕ → List ℕ
value_or default value = if is_empty value then default else value

-- The value at a null pointer is the empty text.
unfoldable pub find : List ℕ → List ℕ → Items → List ℕ
unfolding lookup
find name default items = value_or default (cell (lookup name items)).1

unfoldable pub exists : List ℕ → Items → Bool
unfolding lookup
exists name items = (cell (lookup name items)).0

unfoldable pub set : List ℕ → List ℕ → Items → Items
unfolding create_tags name_tags
set name value items = create_tags (name_tags name).0 (name_tags name).1 (λ _. value) items

unfoldable pub cnd_set : List ℕ → List ℕ → Items → Items
unfolding create_tags name_tags
cnd_set name value items = create_tags (name_tags name).0 (name_tags name).1 (value_or value) items

-- Clear of a tree: the value goes, and all that is below the item.
unfoldable pub clear : List ℕ → Items → Items
unfolding change_tags name_tags
clear name items = change_tags (name_tags name).0 (name_tags name).1 (λ _. []) (λ _. nil) items

abbrev pub item_texts : Bool → Items → List (List ℕ)
item_texts keys nil = []
item_texts keys (item tag value child next) = (if keys then tag else value) ∷ item_texts keys next

abbrev pub vector_of : List ℕ → List (List ℕ) → List (List ℕ)
vector_of default texts = if is_empty texts then vectorize_string default b',' else texts

abbrev pub vector_at : Items → List ℕ → Bool → List (List ℕ)
vector_at nil default keys = vectorize_string default b','
vector_at (item tag value child next) default keys =
    if is_empty value
    then vector_of default (item_texts keys child)
    else vectorize_string value b','

unfoldable pub find_vector : List ℕ → List ℕ → Bool → Items → List (List ℕ)
unfolding lookup
find_vector name default keys items = vector_at (lookup name items) default keys

-- `Prev` in the loop of Clear of a value: the item looked at, an item that was deleted, or one that stays.
pub data Prev : Type 0 where
  itself deleted kept : Prev

-- `none` is the write to an item that was deleted.
unfoldable pub unlink : Prev → Option Prev
unlink itself = some deleted
unlink deleted = none
unlink kept = some kept

abbrev pub keep_item : List ℕ → List ℕ → Items → Option Items → Option Items
keep_item tag value child none = none
keep_item tag value child (some next) = some (item tag value child next)

unfoldable pub clear_loop : List ℕ → Prev → Items → Option Items
unfolding unlink same_text
clear_loop v prev nil = some nil
clear_loop v prev (item tag value child next) = elim (same_text value v) [
  | true ↦ elim (unlink prev) [ none ↦ none | some p ↦ clear_loop v p next ]
  | false ↦ keep_item tag value child (clear_loop v kept next)
]

-- What is left where the item has children.
abbrev pub with_children : List ℕ → Items → Option Items → Option Items
with_children name items none = none
with_children name items (some children) =
    some (change_tags (name_tags name).0 (name_tags name).1 (λ v. v) (λ _. children) items)

-- Clear of a value in a list.
unfoldable pub clear_value : List ℕ → List ℕ → Items → Option Items
unfolding lookup clear_loop change_tags name_tags
clear_value name v items =
    with_children name items (clear_loop v itself (cell (lookup name items)).2)
