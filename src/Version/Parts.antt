-- ===== src/Version/Parts.antt =====
-- A reference for DoCmpVersion of apt-pkg/deb/debversion.cc: the epoch, the upstream version and the
-- revision of a version, and the comparison of all three by their keys.
use aptum.Prelude.{ℕ, Ordering, List, [], ◌∷◌, Option, none, some, ◌==◌, if◌then◌else◌}
use aptum.Prelude.Compare.{◌then_cmp◌}
use aptum.Version.Key.{cmp_key}

-- The text before and behind the first c.
unfoldable pub split_first : ℕ → List ℕ → Option (List ℕ × List ℕ)
split_first c [] = none
split_first c (x ∷ s) =
    let later = elim (split_first c s) as (λ _. Option (List ℕ × List ℕ)) [
      | none ↦ none
      | some (p, r) ↦ some (x ∷ p, r)
    ] in
    if x == c then some ([], s) else later

-- The text before and behind the last c.
unfoldable pub split_last : ℕ → List ℕ → Option (List ℕ × List ℕ)
split_last c [] = none
split_last c (x ∷ s) = elim (split_last c s) [
  | some (p, r) ↦ some (x ∷ p, r)
  | none ↦ if x == c then some ([], s) else none
]

-- The number before the first colon without its leading zeros; a version with no colon, or with
-- nothing before it, has none.
unfoldable pub no_zeros : List ℕ → List ℕ
no_zeros [] = []
no_zeros (c ∷ s) = let rest = no_zeros s in if c == b'0' then rest else c ∷ s

pub record Parts : Type 0 where
  pub epoch : List ℕ
  pub upstream : List ℕ
  pub revision : List ℕ

abbrev pub with_epoch : List ℕ → Option (List ℕ × List ℕ) → List ℕ × List ℕ
with_epoch s none = ([], s)
with_epoch s (some ([], r)) = ([], s)
with_epoch s (some (c ∷ p, r)) = (no_zeros (c ∷ p), r)

-- A missing revision is a 0; a `-` in front of the whole rest makes none.
abbrev pub with_revision : List ℕ → Option (List ℕ × List ℕ) → List ℕ × List ℕ
with_revision s none = (s, b'0' ∷ [])
with_revision s (some ([], r)) = ([], b'0' ∷ [])
with_revision s (some (c ∷ p, r)) = (c ∷ p, r)

unfoldable pub split_epoch : List ℕ → List ℕ × List ℕ
split_epoch s = with_epoch s (split_first b':' s)

unfoldable pub split_revision : List ℕ → List ℕ × List ℕ
split_revision s = with_revision s (split_last b'-' s)

unfoldable pub parts : List ℕ → Parts
parts s =
    let (e, r) = split_epoch s in
    let (u, v) = split_revision r in record { epoch = e; upstream = u; revision = v }

unfoldable pub cmp_parts : List ℕ → List ℕ → Ordering
cmp_parts a b =
    let p = parts a in
    let q = parts b in
    cmp_key p.epoch q.epoch
    then_cmp cmp_key p.upstream q.upstream
    then_cmp cmp_key p.revision q.revision
