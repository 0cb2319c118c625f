-- ===== src/Version/Pointers.antt =====
-- The pointers that DoCmpVersion (apt-pkg/deb/debversion.cc) computes into one version delimit the
-- parts of `Version.Parts`.
use aptum.Prelude.{
  ℕ, ◌≡◌, refl, sym, ap, ◌⊎◌, inl, inr, true, false, ◌||◌, List, [], ◌∷◌, ◌++◌, append-nil, Option,
  none, some, arith, ◌==◌, if◌then◌else◌, length-append, is_empty, All, Bool-cases,
}
use aptum.Chars.{deref}
use aptum.Version.Fragment.{skip_zeros}
use aptum.Version.Numbers.{NoDigit, skip_zeros-append}
use aptum.Version.Texts.{IsByte}
use aptum.Version.Compare.{
  memchr, memrchr, or_else, same, before, strip_from, strip_epoch, skip_colon, find_dash, skip_dash,
}
use aptum.Version.Parts.{
  split_first, split_last, no_zeros, with_epoch, with_revision, split_epoch, split_revision,
}

-- A search by pointer against a search by splitting.
pub data FoundAt (c : ℕ) (s : List ℕ) : Option (List ℕ × List ℕ) → Option (List ℕ) → Type 0 where
  missing : FoundAt c s none none
  found : (p r : List ℕ) → s ≡ p ++ c ∷ r → FoundAt c s (some (p, r)) (some (c ∷ r))

first_step :
    (c x : ℕ) (s : List ℕ) {o : Option (List ℕ × List ℕ)} {q : Option (List ℕ)}
    → FoundAt c s o q
    → FoundAt c
        (x ∷ s)
        (elim o as (λ _. Option (List ℕ × List ℕ)) [ none ↦ none | some (p, r) ↦ some (x ∷ p, r) ])
        q
first_step c x s missing = missing
first_step c x s (found p r e) = found (x ∷ p) r (ap (λ (t : List ℕ). x ∷ t) e)

pub first_at : (c : ℕ) (s : List ℕ) → FoundAt c s (split_first c s) (memchr c s)
unfolding split_first memchr
first_at c [] = missing
first_at c (x ∷ s) = elim (Bool-cases (x == c)) [
  | inl e ↦ let same_byte : x ≡ c = ground arith in rw (e, same_byte) (found [] s refl)
  | inr e ↦ rw e (first_step c x s (first_at c s))
]

last_step :
    (c x : ℕ) (s : List ℕ) {o : Option (List ℕ × List ℕ)} {q : Option (List ℕ)}
    → FoundAt c s o q
    → FoundAt c
        (x ∷ s)
        (elim o as (λ _. Option (List ℕ × List ℕ)) [
          | some (p, r) ↦ some (x ∷ p, r)
          | none ↦ if x == c then some ([], s) else none
        ])
        (elim q as (λ _. Option (List ℕ)) [
          | some p ↦ some p
          | none ↦ if x == c then some (x ∷ s) else none
        ])
last_step c x s missing = elim (Bool-cases (x == c)) [
  | inl e ↦ let same_byte : x ≡ c = ground arith in rw (e, same_byte) (found [] s refl)
  | inr e ↦ rw e missing
]
last_step c x s (found p r e) = found (x ∷ p) r (ap (λ (t : List ℕ). x ∷ t) e)

pub last_at : (c : ℕ) (s : List ℕ) → FoundAt c s (split_last c s) (memrchr c s)
unfolding split_last memrchr
last_at c [] = missing
last_at c (x ∷ s) = last_step c x s (last_at c s)

before_self : (m : ℕ) (s : List ℕ) → before m s s ≡ m
unfolding before
before_self m [] = refl
before_self m (c ∷ s) = ground arith

before-append : (m : ℕ) (p : List ℕ) (c : ℕ) (r : List ℕ) → before m (p ++ c ∷ r) r ≡ c
unfolding before
before-append m [] c r = ground (arith, before_self c r)
before-append m (x ∷ p) c r = ground (arith, length-append p (c ∷ r), before-append x p c r)

All-append : (p r : List ℕ) → All IsByte (p ++ r) → All IsByte p × All IsByte r
All-append [] r h = (tt, h)
All-append (x ∷ p) r h = let (hp, hr) = All-append p r h.1 in ((h.0, hp), hr)

skip_zeros-eq : (s : List ℕ) → skip_zeros s ≡ no_zeros s
unfolding skip_zeros no_zeros
skip_zeros-eq [] = refl
skip_zeros-eq (c ∷ s) = ground (arith, skip_zeros-eq s)

skip_zeros-IsByte : (s : List ℕ) → All IsByte s → All IsByte (skip_zeros s)
unfolding skip_zeros
skip_zeros-IsByte [] h = tt
skip_zeros-IsByte (c ∷ s) h = ground (arith, skip_zeros-IsByte s)

same_refl : (s : List ℕ) → same s s ≡ true
same_refl s = ground arith

same-append : (x : ℕ) (p s : List ℕ) → same s (x ∷ p ++ s) ≡ false
same-append x p s = ground (arith, length-append p s)

same-append' : (x : ℕ) (p s : List ℕ) → same (x ∷ p ++ s) s ≡ false
same-append' x p s = ground (arith, length-append p s)

-- The pointers at the epoch, against the reference split (epoch, rest).
pub record EpochAt (s : List ℕ) (ptr : List ℕ × List ℕ) (epoch rest : List ℕ) : Type 0 where
  pub behind : List ℕ
  pub start : ptr.0 ≡ epoch ++ behind
  pub end : ptr.1 ≡ behind
  pub rest_lem : skip_colon ptr ≡ rest
  pub stops : (is_empty epoch ≡ true) ⊎ NoDigit behind
  pub prev : (m : ℕ) → (rest ≡ s) ⊎ (before m s rest ≡ b':')
  pub epoch_bytes : All IsByte epoch
  pub rest_bytes : All IsByte rest

whole : (s : List ℕ) → All IsByte s → EpochAt s (s, s) [] s
unfolding skip_colon
whole s h = record {
  behind = s;
  start = refl;
  end = refl;
  rest_lem = rw (same_refl s);
  stops = inl refl;
  prev = λ m. inl refl;
  epoch_bytes = tt;
  rest_bytes = h;
}

zero_epoch : (x : ℕ) (p r : List ℕ) → All IsByte r → EpochAt (x ∷ p ++ b':' ∷ r) (r, r) [] r
unfolding skip_colon
zero_epoch x p r h = record {
  behind = r;
  start = refl;
  end = refl;
  rest_lem = rw (same_refl r);
  stops = inl refl;
  prev = λ m. inr (before-append m (x ∷ p) b':' r);
  epoch_bytes = tt;
  rest_bytes = h;
}

some_epoch :
    (x : ℕ) (p : List ℕ) (y : ℕ) (q r : List ℕ)
    → All IsByte (y ∷ q)
    → All IsByte r
    → EpochAt (x ∷ p ++ b':' ∷ r) (y ∷ q ++ b':' ∷ r, b':' ∷ r) (y ∷ q) r
unfolding skip_colon
some_epoch x p y q r hq hr = record {
  behind = b':' ∷ r;
  start = refl;
  end = refl;
  rest_lem = rw (same-append y q (b':' ∷ r));
  stops = inr refl;
  prev = λ m. inr (before-append m (x ∷ p) b':' r);
  epoch_bytes = hq;
  rest_bytes = hr;
}

stripped_epoch :
    (x : ℕ) (p r z : List ℕ)
    → skip_zeros (x ∷ p) ≡ z
    → All IsByte z
    → All IsByte r
    → EpochAt (x ∷ p ++ b':' ∷ r) (strip_from (x ∷ p ++ b':' ∷ r) (b':' ∷ r)) z r
unfolding strip_from
stripped_epoch x p r [] e hz hr =
    rw
      (
        same-append x p (b':' ∷ r),
        skip_zeros-append (x ∷ p) (b':' ∷ r) refl,
        e,
        same_refl (b':' ∷ r),
      )
      (zero_epoch x p r hr)
stripped_epoch x p r (y ∷ q) e hz hr =
    rw
      (
        same-append x p (b':' ∷ r),
        skip_zeros-append (x ∷ p) (b':' ∷ r) refl,
        e,
        same-append' y q (b':' ∷ r),
      )
      (some_epoch x p y q r hz hr)

found_epoch :
    (s : List ℕ) {o : Option (List ℕ × List ℕ)} {q : Option (List ℕ)}
    → FoundAt b':' s o q
    → All IsByte s
    → EpochAt s (strip_from s (or_else q s)) (with_epoch s o).0 (with_epoch s o).1
found_epoch s missing h = unfold strip_from in rw (same_refl s) (whole s h)
found_epoch s (found [] r e) h = rw (← e) (unfold strip_from in rw (same_refl s) (whole s h))
found_epoch s (found (x ∷ p) r e) h =
    let h' = All-append (x ∷ p) (b':' ∷ r) (rw e at h) in
    rw (e, ← skip_zeros-eq (x ∷ p))
      (stripped_epoch x p r (skip_zeros (x ∷ p)) refl (skip_zeros-IsByte (x ∷ p) h'.0) h'.1.1)

pub epoch_at :
    (s : List ℕ) → All IsByte s → EpochAt s (strip_epoch s) (split_epoch s).0 (split_epoch s).1
unfolding strip_epoch split_epoch
epoch_at s h = found_epoch s (first_at b':' s) h

-- The pointers at the revision, against the reference split (upstream, revision).
pub record DashAt (m : ℕ) (s ptr upstream revision : List ℕ) : Type 0 where
  pub upstream_lem : s ≡ upstream ++ ptr
  pub stops : NoDigit ptr
  pub upstream_bytes : All IsByte upstream
  pub revision_bytes : All IsByte revision
  pub tail :
      (skip_dash m s ptr ≡ (true, revision))
      ⊎ ((t : List ℕ) × (skip_dash m s ptr ≡ (false, t)) × (revision ≡ b'0' ∷ []))

-- The byte before the rest is no `-`, or the rest neither is empty nor begins with `-`.
abbrev pub Proper : ℕ → List ℕ → Type 0
Proper m s = ((m == b'-') ≡ false) ⊎ ((is_empty s || (deref s == b'-')) ≡ false)

skip_dash_end : (m : ℕ) (s : List ℕ) → Proper m s → skip_dash m s [] ≡ (false, [])
unfolding skip_dash
skip_dash_end m [] h = ground arith
skip_dash_end m (x ∷ s) h = ground arith

skip_dash_front :
    (m : ℕ) (r : List ℕ)
    → Proper m (b'-' ∷ r)
    → skip_dash m (b'-' ∷ r) (b'-' ∷ r) ≡ (false, b'-' ∷ r)
unfolding skip_dash
skip_dash_front m r h = rw (same_refl (b'-' ∷ r)) (ground arith)

skip_dash_inside : (m x : ℕ) (p r : List ℕ) → skip_dash m (x ∷ p ++ b'-' ∷ r) (b'-' ∷ r) ≡ (true, r)
unfolding skip_dash
skip_dash_inside m x p r = rw (same-append x p (b'-' ∷ r))

found_dash :
    (m : ℕ) (s : List ℕ) {o : Option (List ℕ × List ℕ)} {q : Option (List ℕ)}
    → FoundAt b'-' s o q
    → Proper m s
    → All IsByte s
    → DashAt m s (or_else q []) (with_revision s o).0 (with_revision s o).1
found_dash m s missing hm h = record {
  upstream_lem = sym (append-nil s);
  stops = refl;
  upstream_bytes = h;
  revision_bytes = (omega arith);
  tail = inr ([], skip_dash_end m s hm, refl);
}
found_dash m s (found [] r e) hm h = record {
  upstream_lem = e;
  stops = refl;
  upstream_bytes = tt;
  revision_bytes = (omega arith);
  tail = inr (b'-' ∷ r, rw e (skip_dash_front m r (rw e at hm)), refl);
}
found_dash m s (found (x ∷ p) r e) hm h =
    let h' = All-append (x ∷ p) (b'-' ∷ r) (rw e at h) in
    record {
      upstream_lem = e;
      stops = refl;
      upstream_bytes = h'.0;
      revision_bytes = h'.1.1;
      tail = inl (rw e (skip_dash_inside m x p r));
    }

pub dash_at :
    (m : ℕ) (s : List ℕ)
    → Proper m s
    → All IsByte s
    → DashAt m s (find_dash s) (split_revision s).0 (split_revision s).1
unfolding find_dash split_revision
dash_at m s hm h = found_dash m s (last_at b'-' s) hm h

-- A version that is not empty and does not begin with `-`, of bytes other than NUL.
pub record IsVersion (s : List ℕ) : Type 0 where
  pub bytes : All IsByte s
  pub proper : (is_empty s || (deref s == b'-')) ≡ false

-- Then the code reads no byte before the text, and the rest is proper.
pub rest-Proper :
    (m : ℕ) (s : List ℕ)
    → IsVersion s
    → (ptr : List ℕ × List ℕ) (e r : List ℕ) → EpochAt s ptr e r
    → Proper (before m s r) r
rest-Proper m s v ptr e r h = elim (h.prev m) [
  | inl same_text ↦ inr (rw same_text v.proper)
  | inr colon ↦ inl (rw colon refl)
]
