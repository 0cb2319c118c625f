-- ===== src/Version/Total.antt =====
-- DoCmpVersion of apt-pkg/deb/debversion.cc compares the parts of `Version.Parts`, and is a total
-- preorder on versions.
use aptum.Prelude.{
  ℕ, ◌≡◌, refl, sym, ◌∙◌, ◌⊎◌, inl, inr, Bool, true, false, not, Ordering, List, [], ◌∷◌, ◌++◌,
  append-nil, arith, if◌then◌else◌, length, is_empty, All,
}
use aptum.Prelude.Int.{ℤ, sign, is_zero}
use aptum.Prelude.Compare.{
  ◌then_cmp◌, flip_cmp, flip-then, lex_refl, flip-lex, Composes, then-Composes, lex-Composes,
}
use aptum.Version.Fragment.{cmp_fragment}
use aptum.Version.Key.{fragment_key, cmp_key}
use aptum.Version.Texts.{IsByte}
use aptum.Version.Numbers.{NoDigit}
use aptum.Version.Refines.{cmp_fragment-key, cmp_fragment-key_empty}
use aptum.Version.Compare.{do_cmp_version, strip_epoch, find_dash, skip_dash, cmp_revision, before}
use aptum.Version.Parts.{parts, cmp_parts, split_epoch, split_revision}
use aptum.Version.Pointers.{EpochAt, epoch_at, DashAt, dash_at, IsVersion, rest-Proper}

sign_first :
    (e m r : ℤ)
    → sign (if not (is_zero e) then e else if not (is_zero m) then m else r)
      ≡ (sign e then_cmp sign m then_cmp sign r)
sign_first e m r = ground arith

-- Whole texts as fragments.
whole_key : (l r : List ℕ) → All IsByte l → All IsByte r → sign (cmp_fragment l 0 r 0) ≡ cmp_key l r
whole_key l r hl hr =
    let h = cmp_fragment-key [] [] refl refl l r hl hr in rw (append-nil l, append-nil r) at h

cmp_key_refl : (a : List ℕ) → cmp_key a a ≡ Ordering.eq
unfolding cmp_key
cmp_key_refl a = lex_refl 2 (fragment_key a)

abbrev RevisionAt : Bool × List ℕ → List ℕ → Type 0
RevisionAt x v = (x ≡ (true, v)) ⊎ ((t : List ℕ) × (x ≡ (false, t)) × (v ≡ b'0' ∷ []))

revision_key :
    (x y : Bool × List ℕ) (v w : List ℕ)
    → RevisionAt x v
    → RevisionAt y w
    → All IsByte v
    → All IsByte w
    → sign (cmp_revision x y) ≡ cmp_key v w
unfolding cmp_revision
revision_key x y v w (inl hx) (inl hy) bv bw = rw (hx, hy) (whole_key v w bv bw)
revision_key x y v w (inl hx) (inr (t, hy, z)) bv bw =
    rw (hx, hy, z) (whole_key v (b'0' ∷ []) bv (omega arith))
revision_key x y v w (inr (t, hx, z)) (inl hy) bv bw =
    rw (hx, hy, z) (whole_key (b'0' ∷ []) w (omega arith) bw)
revision_key x y v w (inr (t, hx, z)) (inr (u, hy, z')) bv bw =
    rw (hx, hy, z, z') (sym (cmp_key_refl (b'0' ∷ [])))

epoch_key :
    (a b : List ℕ) (p q : List ℕ × List ℕ) (e f r s : List ℕ)
    → EpochAt a p e r
    → EpochAt b q f s
    → sign (cmp_fragment p.0 (length p.1) q.0 (length q.1)) ≡ cmp_key e f
epoch_key a b p q e f r s h k = rw (h.start, h.end, k.start, k.end) (split h.stops k.stops)
  where
    split :
        (is_empty e ≡ true) ⊎ NoDigit h.behind
        → (is_empty f ≡ true) ⊎ NoDigit k.behind
        → sign (cmp_fragment (e ++ h.behind) (length h.behind) (f ++ k.behind) (length k.behind))
          ≡ cmp_key e f
    split (inl x) y =
        cmp_fragment-key_empty h.behind k.behind e f h.epoch_bytes k.epoch_bytes (ground arith)
    split (inr x) (inl y) =
        cmp_fragment-key_empty h.behind k.behind e f h.epoch_bytes k.epoch_bytes (ground arith)
    split (inr x) (inr y) = cmp_fragment-key h.behind k.behind x y e f h.epoch_bytes k.epoch_bytes

main_key :
    (m n : ℕ) (r s p q u v w z : List ℕ)
    → DashAt m r p u w
    → DashAt n s q v z
    → sign (cmp_fragment r (length p) s (length q)) ≡ cmp_key u v
main_key m n r s p q u v w z h k =
    rw (h.upstream_lem, k.upstream_lem)
      (cmp_fragment-key p q h.stops k.stops u v h.upstream_bytes k.upstream_bytes)

-- The sign of DoCmpVersion on two versions is the comparison of their epochs, then of their upstream
-- versions, then of their revisions, whatever bytes stand before the texts.
pub do_cmp_version-parts :
    (ma mb : ℕ) (a b : List ℕ)
    → IsVersion a
    → IsVersion b
    → sign (do_cmp_version ma a mb b) ≡ cmp_parts a b
unfolding do_cmp_version cmp_parts parts
do_cmp_version-parts ma mb a b va vb =
    let ha = epoch_at a va.bytes in
    let hb = epoch_at b vb.bytes in
    let pa = rest-Proper ma a va (strip_epoch a) (split_epoch a).0 (split_epoch a).1 ha in
    let pb = rest-Proper mb b vb (strip_epoch b) (split_epoch b).0 (split_epoch b).1 hb in
    let da = dash_at (before ma a (split_epoch a).1) (split_epoch a).1 pa ha.rest_bytes in
    let db = dash_at (before mb b (split_epoch b).1) (split_epoch b).1 pb hb.rest_bytes in
    rw (
      ha.rest_lem,
      hb.rest_lem,
      sign_first,
      epoch_key a b (strip_epoch a) (strip_epoch b) (split_epoch a).0 (split_epoch b).0
          (split_epoch a).1 (split_epoch b).1 ha hb,
      main_key (before ma a (split_epoch a).1) (before mb b (split_epoch b).1) (split_epoch a).1
          (split_epoch b).1 (find_dash (split_epoch a).1) (find_dash (split_epoch b).1)
          (split_revision (split_epoch a).1).0 (split_revision (split_epoch b).1).0
          (split_revision (split_epoch a).1).1 (split_revision (split_epoch b).1).1 da db,
      revision_key
          (skip_dash (before ma a (split_epoch a).1) (split_epoch a).1
            (find_dash (split_epoch a).1))
          (skip_dash (before mb b (split_epoch b).1) (split_epoch b).1
            (find_dash (split_epoch b).1))
          (split_revision (split_epoch a).1).1 (split_revision (split_epoch b).1).1 da.tail db.tail
          da.revision_bytes db.revision_bytes,
    )

cmp_key_flip : (a b : List ℕ) → flip_cmp (cmp_key a b) ≡ cmp_key b a
unfolding cmp_key
cmp_key_flip a b = flip-lex 2 (fragment_key a) (fragment_key b)

cmp_key_trans : (a b c : List ℕ) → Composes (cmp_key a b) (cmp_key b c) (cmp_key a c)
unfolding cmp_key
cmp_key_trans a b c = lex-Composes 2 (fragment_key a) (fragment_key b) (fragment_key c)

pub cmp_parts_refl : (a : List ℕ) → cmp_parts a a ≡ Ordering.eq
unfolding cmp_parts
cmp_parts_refl a =
    let p = parts a in rw (cmp_key_refl p.epoch, cmp_key_refl p.upstream, cmp_key_refl p.revision)

cmp_parts_flip : (a b : List ℕ) → flip_cmp (cmp_parts a b) ≡ cmp_parts b a
unfolding cmp_parts
cmp_parts_flip a b = simp (flip-then, cmp_key_flip)

cmp_parts_trans : (a b c : List ℕ) → Composes (cmp_parts a b) (cmp_parts b c) (cmp_parts a c)
unfolding cmp_parts
cmp_parts_trans a b c =
    let p = parts a in
    let q = parts b in
    let r = parts c in
    then-Composes _ _ _ _ _ _ (cmp_key_trans p.epoch q.epoch r.epoch) (
      then-Composes _ _ _ _ _ _ (cmp_key_trans p.upstream q.upstream r.upstream)
        (cmp_key_trans p.revision q.revision r.revision))

-- A version compares equal to itself.
pub do_cmp_version_refl :
    (ma mb : ℕ) (a : List ℕ) → IsVersion a → sign (do_cmp_version ma a mb a) ≡ Ordering.eq
do_cmp_version_refl ma mb a v = do_cmp_version-parts ma mb a a v v ∙ cmp_parts_refl a

-- Exchanging two versions flips the sign of the comparison.
pub do_cmp_version_flip :
    (ma mb : ℕ) (a b : List ℕ)
    → IsVersion a
    → IsVersion b
    → sign (do_cmp_version mb b ma a) ≡ flip_cmp (sign (do_cmp_version ma a mb b))
do_cmp_version_flip ma mb a b va vb =
    rw (do_cmp_version-parts mb ma b a vb va, do_cmp_version-parts ma mb a b va vb)
      (sym (cmp_parts_flip a b))

-- The comparison of versions is transitive: where a ? b and b ? c decide a ? c, the code agrees.
pub do_cmp_version_trans :
    (ma mb mc : ℕ) (a b c : List ℕ)
    → IsVersion a
    → IsVersion b
    → IsVersion c
    → Composes
        (sign (do_cmp_version ma a mb b))
        (sign (do_cmp_version mb b mc c))
        (sign (do_cmp_version ma a mc c))
do_cmp_version_trans ma mb mc a b c va vb vc =
    rw
      (
        do_cmp_version-parts ma mb a b va vb,
        do_cmp_version-parts mb mc b c vb vc,
        do_cmp_version-parts ma mc a c va vc,
      )
      (cmp_parts_trans a b c)
