-- ===== src/Version/Compare.antt =====
-- `DoCmpVersion`, `CheckDep` and `UpstreamVersion` of apt-pkg/deb/debversion.cc.
--
-- A version is the list of its bytes and ends with its NUL (`AEnd`). `ma` and `mb` are the bytes that
-- stand in memory before the two texts: the code reads them when a version is empty or begins with
-- its only `-`.
use aptum.Prelude.{
  ℕ, Bool, true, false, not, List, [], ◌∷◌, Option, none, some, ◌==◌, if◌then◌else◌, length,
}
use aptum.Prelude.Int.{ℤ, pos, is_zero}
use aptum.Chars.{deref}
use aptum.Version.Fragment.{skip_zeros, cmp_fragment}

-- memchr and memrchr up to the end of the text, as the pointer found.
unfoldable pub memchr : ℕ → List ℕ → Option (List ℕ)
memchr c [] = none
memchr c (x ∷ s) = let next = memchr c s in if x == c then some (x ∷ s) else next

unfoldable pub memrchr : ℕ → List ℕ → Option (List ℕ)
memrchr c [] = none
memrchr c (x ∷ s) = elim (memrchr c s) [
  | some p ↦ some p
  | none ↦ if x == c then some (x ∷ s) else none
]

abbrev pub or_else : Option (List ℕ) → List ℕ → List ℕ
or_else none q = q
or_else (some p) q = p

-- Two pointers into one text.
abbrev pub same : List ℕ → List ℕ → Bool
same p q = length p == length q

abbrev pub next : List ℕ → List ℕ
next [] = []
next (c ∷ s) = s

-- `p[-1]` for a pointer p into `whole`, behind the byte m in memory.
unfoldable pub before : ℕ → List ℕ → List ℕ → ℕ
before m [] p = m
before m (c ∷ s) p = let further = before c s p in if same (c ∷ s) p then m else further

-- `A` and `lhs` once an epoch of zeros is removed.
unfoldable pub strip_from : List ℕ → List ℕ → List ℕ × List ℕ
strip_from text lhs =
    let stripped = skip_zeros text in
    if not (same lhs text)
    then (if same stripped lhs then (next stripped, next lhs) else (stripped, lhs))
    else (text, lhs)

unfoldable pub strip_epoch : List ℕ → List ℕ × List ℕ
unfolding strip_from memchr
strip_epoch text = strip_from text (or_else (memchr b':' text) text)

-- Skip the `:`.
unfoldable pub skip_colon : List ℕ × List ℕ → List ℕ
skip_colon (text, lhs) = if not (same lhs text) then next lhs else lhs

-- `dlhs`: the last `-` or the end.
unfoldable pub find_dash : List ℕ → List ℕ
find_dash lhs = or_else (memrchr b'-' lhs) []

-- Behind the main version: whether `*(dlhs - 1)` is `-`, and the revision.
unfoldable pub skip_dash : ℕ → List ℕ → List ℕ → Bool × List ℕ
skip_dash m lhs dlhs =
    if not (same dlhs lhs) then (deref dlhs == b'-', next dlhs) else (m == b'-', dlhs)

abbrev null_revision : List ℕ
null_revision = b'0' ∷ []

unfoldable pub cmp_revision : Bool × List ℕ → Bool × List ℕ → ℤ
cmp_revision (true, l) (true, r) = cmp_fragment l 0 r 0
cmp_revision (true, l) (false, r) = cmp_fragment l 0 null_revision 0
cmp_revision (false, l) (true, r) = cmp_fragment null_revision 0 r 0
cmp_revision (false, l) (false, r) = pos 0

unfoldable pub do_cmp_version : ℕ → List ℕ → ℕ → List ℕ → ℤ
do_cmp_version ma a mb b =
    let ea = strip_epoch a in
    let eb = strip_epoch b in
    let epoch = cmp_fragment ea.0 (length ea.1) eb.0 (length eb.1) in
    let lhs = skip_colon ea in
    let rhs = skip_colon eb in
    let dlhs = find_dash lhs in
    let drhs = find_dash rhs in
    let main = cmp_fragment lhs (length dlhs) rhs (length drhs) in
    let revision =
      cmp_revision (skip_dash (before ma a lhs) lhs dlhs) (skip_dash (before mb b rhs) rhs drhs) in
    if not (is_zero epoch) then epoch else if not (is_zero main) then main else revision
