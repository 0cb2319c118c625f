-- ===== src/Version/Tests.antt =====
-- Runs of the version comparison (apt-pkg/deb/debversion.cc), and its theorems at concrete versions.
use aptum.Prelude.{ℕ, ◌≡◌, refl, ◌++◌, List, [], false, some, arith, ◌%◌, ◌+◌}
use aptum.Prelude.Int.{pos, negsuc, sign}
use aptum.Prelude.Compare.{flip_cmp, Composes}
use aptum.Chars.{codes}
use aptum.Version.Fragment.{cmp_fragment}
use aptum.Version.Key.{cmp_key}
use aptum.Version.Refines.{cmp_fragment-key}
use aptum.Version.Compare.{
  do_cmp_version, strip_epoch, skip_colon, find_dash, skip_dash, cmp_revision, before, memchr,
  memrchr,
}
use aptum.Version.Parts.{cmp_parts, parts}
use aptum.Version.Pointers.{IsVersion}
use aptum.Version.Total.{do_cmp_version-parts, do_cmp_version_flip, do_cmp_version_trans}
use aptum.Version.Check.{
  check_dep, satisfies, check_dep-satisfies, greater_eq, upstream_version, upstream_version-parts,
}

numbers : cmp_fragment (codes "1.10") 0 (codes "1.9-1") 2 ≡ pos 1
unfolding cmp_fragment
numbers = refl

tilde : cmp_fragment (codes "1.0~rc1") 0 (codes "1.0") 0 ≡ negsuc 0
unfolding cmp_fragment
tilde = refl

zeros : cmp_fragment (codes "01.002a") 0 (codes "1.2a0") 0 ≡ pos 0
unfolding cmp_fragment
zeros = refl

epochs : do_cmp_version 0 (codes "1:1.0-1") 0 (codes "2.0-1") ≡ pos 1
unfolding do_cmp_version strip_epoch skip_colon find_dash skip_dash cmp_revision before memchr
    memrchr cmp_fragment
epochs = refl

zero_epoch : do_cmp_version 0 (codes "00:1.0") 0 (codes "1.0-0") ≡ pos 0
unfolding do_cmp_version strip_epoch skip_colon find_dash skip_dash cmp_revision before memchr
    memrchr cmp_fragment
zero_epoch = refl

-- On empty versions the code reads the bytes before the texts.
empty_versions : do_cmp_version b'-' [] 0 [] ≡ negsuc 0
unfolding do_cmp_version strip_epoch skip_colon find_dash skip_dash cmp_revision before memchr
    memrchr cmp_fragment
empty_versions = refl

abbrev old : List ℕ
old = codes "1:2.0~rc1-3"

abbrev new : List ℕ
new = codes "1:2.0-1"

abbrev newest : List ℕ
newest = codes "2:0.1"

old-IsVersion : IsVersion old
old-IsVersion = record { bytes = omega arith; proper = refl }

new-IsVersion : IsVersion new
new-IsVersion = record { bytes = omega arith; proper = refl }

newest-IsVersion : IsVersion newest
newest-IsVersion = record { bytes = omega arith; proper = refl }

cmp_fragment-key_example :
    sign (cmp_fragment (codes "2.10" ++ codes "-1") 2 (codes "2.9" ++ []) 0)
    ≡ cmp_key (codes "2.10") (codes "2.9")
cmp_fragment-key_example =
    cmp_fragment-key (codes "-1") [] refl refl (codes "2.10") (codes "2.9") (omega arith)
      (omega arith)

do_cmp_version-parts_example : sign (do_cmp_version 0 old 7 new) ≡ cmp_parts old new
do_cmp_version-parts_example = do_cmp_version-parts 0 7 old new old-IsVersion new-IsVersion

do_cmp_version_flip_example :
    sign (do_cmp_version 7 new 0 old) ≡ flip_cmp (sign (do_cmp_version 0 old 7 new))
do_cmp_version_flip_example = do_cmp_version_flip 0 7 old new old-IsVersion new-IsVersion

do_cmp_version_trans_example :
    Composes
      (sign (do_cmp_version 0 old 0 new))
      (sign (do_cmp_version 0 new 0 newest))
      (sign (do_cmp_version 0 old 0 newest))
do_cmp_version_trans_example =
    do_cmp_version_trans 0 0 0 old new newest old-IsVersion new-IsVersion newest-IsVersion

check_dep-satisfies_example :
    check_dep 0 (some new) (16 + greater_eq) 0 (some old) false
    ≡ satisfies ((16 + greater_eq) % 16) (cmp_parts new old)
check_dep-satisfies_example =
    check_dep-satisfies 0 0 (16 + greater_eq) new old false new-IsVersion old-IsVersion (cc)

upstream_version-parts_example : upstream_version old ≡ (parts old).upstream
upstream_version-parts_example = upstream_version-parts old (omega arith) (omega arith)
