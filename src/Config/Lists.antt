-- ===== src/Config/Lists.antt =====
-- Clear of a value in a list (apt-pkg/contrib/configuration.cc).
use aptum.Prelude.{
  ℕ, ◌≡◌, refl, ap, Bool, true, false, ◌&&◌, List, Option, none, some, if◌then◌else◌,
}
use aptum.Strings.Affixes.{same_text}
use aptum.Config.Items.{Items, nil, item}
use aptum.Config.Access.{itself, deleted, kept, keep_item, clear_loop}

-- The children whose value is another one.
abbrev pub without : List ℕ → Items → Items
without v nil = nil
without v (item tag value child next) =
    let rest = without v next in if same_text value v then rest else item tag value child rest

abbrev pub begins_with : List ℕ → Items → Bool
begins_with v nil = false
begins_with v (item tag value child next) = same_text value v

abbrev pub begins_twice : List ℕ → Items → Bool
begins_twice v nil = false
begins_twice v (item tag value child next) = same_text value v && begins_with v next

clear_loop-kept : (v : List ℕ) (items : Items) → clear_loop v kept items ≡ some (without v items)
unfolding clear_loop
clear_loop-kept v nil = refl
clear_loop-kept v (item tag value child next) =
    let ih = clear_loop-kept v next in by_test (same_text value v) ih
  where
    by_test :
        (b : Bool)
        → clear_loop v kept next ≡ some (without v next)
        → (elim b as (λ x. Option Items) [
          | true ↦ clear_loop v kept next
          | false ↦ keep_item tag value child (clear_loop v kept next)
        ])
          ≡ some (if b then without v next else item tag value child (without v next))
    by_test true e = e
    by_test false e = ap (keep_item tag value child) e

clear_loop-deleted :
    (v : List ℕ) (items : Items)
    → clear_loop v deleted items ≡ (if begins_with v items then none else some (without v items))
unfolding clear_loop
clear_loop-deleted v nil = refl
clear_loop-deleted v (item tag value child next) =
    by_test (same_text value v) (clear_loop-kept v next)
  where
    by_test :
        (b : Bool)
        → clear_loop v kept next ≡ some (without v next)
        → (elim b as (λ x. Option Items) [
          | true ↦ none
          | false ↦ keep_item tag value child (clear_loop v kept next)
        ])
          ≡ (if b
              then none
              else some (if b then without v next else item tag value child (without v next)))
    by_test true e = refl
    by_test false e = ap (keep_item tag value child) e

-- Clear of a value takes the items with that value out of a list and keeps the others, but for a list that begins
-- with two such items, where it writes to the first one after it was deleted.
pub clear_loop-without :
    (v : List ℕ) (items : Items)
    → clear_loop v itself items ≡ (if begins_twice v items then none else some (without v items))
unfolding clear_loop
clear_loop-without v nil = refl
clear_loop-without v (item tag value child next) =
    by_test (same_text value v) (clear_loop-deleted v next) (clear_loop-kept v next)
  where
    by_test :
        (b : Bool)
        → clear_loop v deleted next ≡ (if begins_with v next then none else some (without v next))
        → clear_loop v kept next ≡ some (without v next)
        → (elim b as (λ x. Option Items) [
          | true ↦ clear_loop v deleted next
          | false ↦ keep_item tag value child (clear_loop v kept next)
        ])
          ≡ (if b && begins_with v next
              then none
              else some (if b then without v next else item tag value child (without v next)))
    by_test true e k = e
    by_test false e k = ap (keep_item tag value child) k
