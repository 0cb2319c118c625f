-- ===== src/Version/Check.antt =====
-- `CheckDep` and `UpstreamVersion` of apt-pkg/deb/debversion.cc.
use aptum.Prelude.{
  ℕ, suc, ◌+◌, ◌%◌, ◌≡◌, ◌≢◌, refl, ◌∙◌, ap, inl, inr, Bool, true, false, not, ◌||◌, ◌&&◌, Ordering,
  List, [], ◌∷◌, ◌++◌, Option, none, some, arith, ◌==◌, if◌then◌else◌, length, take, Bool-cases,
  ◌^◌, ◌<◌, ◌≤◌, length-append,
}
use aptum.Prelude.Int.{ℤ, is_zero, is_neg, sign}
use aptum.Chars.{deref}
use aptum.Version.Compare.{do_cmp_version}
use aptum.Version.Parts.{
  cmp_parts, parts, split_epoch, split_revision, split_first, split_last, with_epoch, with_revision,
}
use aptum.Version.Pointers.{IsVersion, FoundAt, missing, found, first_at, last_at}
use native.Mathlib.Nat.{zero-add}
use aptum.Version.Total.{do_cmp_version-parts, cmp_parts_refl}

-- The comparison operators of pkgCache::Dep.
abbrev pub less_eq : ℕ
less_eq = 1

abbrev pub greater_eq : ℕ
greater_eq = 2

abbrev pub less : ℕ
less = 3

abbrev pub greater : ℕ
greater = 4

abbrev pub equals : ℕ
equals = 5

abbrev pub not_equals : ℕ
not_equals = 6

-- `Ver == 0 || Ver[0] == 0`
abbrev pub no_version : Option (List ℕ) → Bool
no_version none = true
no_version (some s) = deref s == 0

-- The switch on the operator.
unfoldable pub holds : ℕ → ℤ → Bool
holds op res =
    if op == less_eq
    then is_neg res || is_zero res
    else if op == greater_eq
    then not (is_neg res)
    else if op == less
    then is_neg res
    else if op == greater
    then not (is_neg res) && not (is_zero res)
    else if op == equals
    then is_zero res
    else if op == not_equals
    then not (is_zero res)
    else false

-- `same_place` is `PkgVer == DepVer`: the two texts are one text in memory.
unfoldable pub check_dep : ℕ → Option (List ℕ) → ℕ → ℕ → Option (List ℕ) → Bool → Bool
unfolding holds
check_dep mp pkg_ver op md dep_ver same_place =
    let op' = op % 16 in
    let fast = op' == equals || op' == less_eq || op' == greater_eq in
    elim dep_ver [
      | none ↦ true
      | some dep ↦ if no_version (some dep) then true else elim pkg_ver [
        | none ↦ false
        | some pkg ↦
            if no_version (some pkg)
            then false
            else if same_place
            then fast
            else holds op' (do_cmp_version mp pkg md dep)
      ]
    ]

-- `I` from the start to the first `:` or the end, and `Ver` behind it.
unfoldable pub behind_colon : List ℕ → List ℕ → List ℕ
behind_colon ver [] = ver
behind_colon ver (c ∷ s) = let further = behind_colon ver s in if c == b':' then s else further

-- The index of the last `-`, an unsigned of 32 bits, over the indices from i on.
unfoldable pub last_dash : ℕ → ℕ → List ℕ → ℕ
last_dash i last [] = last
last_dash i last (c ∷ s) = last_dash (suc i) (if c == b'-' then i % 2 ^ 32 else last) s

unfoldable pub upstream_version : List ℕ → List ℕ
unfolding behind_colon last_dash
upstream_version ver = let v = behind_colon ver ver in take (last_dash 0 (length v % 2 ^ 32) v) v

-- What an operator means between two versions that compare so.
unfoldable pub satisfies : ℕ → Ordering → Bool
satisfies op Ordering.lt = op == less_eq || op == less || op == not_equals
satisfies op Ordering.eq = op == less_eq || op == greater_eq || op == equals
satisfies op Ordering.gt = op == greater_eq || op == greater || op == not_equals

holds-satisfies : (op : ℕ) (z : ℤ) → holds op z ≡ satisfies op (sign z)
unfolding holds satisfies
holds-satisfies op z = ground arith

nonempty : (s : List ℕ) → IsVersion s → (deref s == 0) ≡ false
nonempty [] v = cc (v.proper)
nonempty (c ∷ s) v = ground (arith, v.bytes)

-- CheckDep on two versions holds exactly when the operator, of which the low four bits count, is
-- satisfied by the comparison of their parts; also where the texts are one, then they are equal.
pub check_dep-satisfies :
    (mp md op : ℕ) (pkg dep : List ℕ) (same_place : Bool)
    → IsVersion pkg
    → IsVersion dep
    → (same_place ≡ true → pkg ≡ dep)
    → check_dep mp (some pkg) op md (some dep) same_place ≡ satisfies (op % 16) (cmp_parts pkg dep)
unfolding check_dep
check_dep-satisfies mp md op pkg dep true vp vd one =
    rw (nonempty pkg vp, nonempty dep vd, one refl, cmp_parts_refl dep)
      (unfold satisfies in ground arith)
check_dep-satisfies mp md op pkg dep false vp vd one =
    rw (nonempty pkg vp, nonempty dep vd)
      (holds-satisfies (op % 16) (do_cmp_version mp pkg md dep)
        ∙ ap (satisfies (op % 16)) (do_cmp_version-parts mp md pkg dep vp vd))

-- `behind_colon` against the split at the first colon.
behind : List ℕ → Option (List ℕ × List ℕ) → List ℕ
behind ver none = ver
behind ver (some (p, r)) = r

behind-cons :
    (ver : List ℕ) (x : ℕ) (o : Option (List ℕ × List ℕ))
    → behind ver o
      ≡ behind ver (elim o as (λ _. Option (List ℕ × List ℕ)) [
        | none ↦ none
        | some (p, r) ↦ some (x ∷ p, r)
      ])
unfolding behind
behind-cons ver x none = refl
behind-cons ver x (some (p, r)) = refl

behind_colon-split : (ver s : List ℕ) → behind_colon ver s ≡ behind ver (split_first b':' s)
unfolding behind_colon split_first
behind_colon-split ver [] = unfold behind in refl
behind_colon-split ver (c ∷ s) = elim (Bool-cases (c == b':')) [
  | inl e ↦ rw e (unfold behind in refl)
  | inr e ↦ rw e (behind_colon-split ver s ∙ behind-cons ver c (split_first b':' s))
]

-- The index of the last `-`, against the split there.
index_of : ℕ → ℕ → Option (List ℕ × List ℕ) → ℕ
index_of i last none = last
index_of i last (some (p, r)) = i + length p

index_of-cons :
    (i last c : ℕ) (s : List ℕ) (o : Option (List ℕ × List ℕ))
    → index_of (suc i) (if c == b'-' then i else last) o
      ≡ index_of i last (elim o as (λ _. Option (List ℕ × List ℕ)) [
        | some (p, r) ↦ some (c ∷ p, r)
        | none ↦ if c == b'-' then some ([], s) else none
      ])
unfolding index_of
index_of-cons i last c s none = ground arith
index_of-cons i last c s (some (p, r)) = omega arith

last_dash-split :
    (i last : ℕ) (s : List ℕ)
    → i + length s < 2 ^ 32
    → last_dash i last s ≡ index_of i last (split_last b'-' s)
unfolding last_dash split_last
last_dash-split i last [] h = unfold index_of in refl
last_dash-split i last (c ∷ s) h =
    let fits : i % 2 ^ 32 ≡ i = omega (arith, h) in
    ap (λ (k : ℕ). last_dash (suc i) (if c == b'-' then k else last) s) fits
    ∙ last_dash-split (suc i) (if c == b'-' then i else last) s (omega (arith, h))
    ∙ index_of-cons i last c s (split_last b'-' s)

take_all : (s : List ℕ) → take (length s) s ≡ s
take_all [] = refl
take_all (c ∷ s) = ap (λ (t : List ℕ). c ∷ t) (take_all s)

take_front : (p r : List ℕ) → take (length p) (p ++ r) ≡ p
take_front [] r = refl
take_front (c ∷ p) r = ap (λ (t : List ℕ). c ∷ t) (take_front p r)

take-index_of :
    (v : List ℕ) {o : Option (List ℕ × List ℕ)} {q : Option (List ℕ)}
    → FoundAt b'-' v o q
    → take (index_of 0 (length v) o) v ≡ (with_revision v o).0
unfolding index_of
take-index_of v missing = take_all v
take-index_of v (found [] r e) = refl
take-index_of v (found (c ∷ p) r e) = rw (e, zero-add) (take_front (c ∷ p) (b'-' ∷ r))

behind-rest :
    (s : List ℕ) {o : Option (List ℕ × List ℕ)} {q : Option (List ℕ)}
    → FoundAt b':' s o q
    → deref s ≢ b':'
    → behind s o ≡ (with_epoch s o).1
unfolding behind
behind-rest s missing h = refl
behind-rest s (found [] r e) h = absurd (h (ap deref e))
behind-rest s (found (c ∷ p) r e) h = refl

length-with_epoch :
    (s : List ℕ) {o : Option (List ℕ × List ℕ)} {q : Option (List ℕ)}
    → FoundAt b':' s o q
    → length (with_epoch s o).1 ≤ length s
length-with_epoch s missing = omega arith
length-with_epoch s (found [] r e) = omega arith
length-with_epoch s (found (c ∷ p) r e) =
    omega (arith, ap length e, length-append (c ∷ p) (b':' ∷ r))

-- UpstreamVersion of a version of fewer than 2 ^ 32 bytes that does not begin with a colon is the upstream
-- version that DoCmpVersion compares.
pub upstream_version-parts :
    (s : List ℕ) → length s < 2 ^ 32 → deref s ≢ b':' → upstream_version s ≡ (parts s).upstream
unfolding upstream_version parts split_epoch split_revision
upstream_version-parts s small h =
    let v = (with_epoch s (split_first b':' s)).1 in
    let shorter = length-with_epoch s (first_at b':' s) in
    let size : length v % 2 ^ 32 ≡ length v = omega (arith, small, shorter) in
    rw
      (
        behind_colon-split s s,
        behind-rest s (first_at b':' s) h,
        size,
        last_dash-split 0 (length v) v (omega (arith, small, shorter)),
      )
      (take-index_of (with_epoch s (split_first b':' s)).1
        (last_at b'-' (with_epoch s (split_first b':' s)).1))
