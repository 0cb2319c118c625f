-- ===== src/Version.antt =====
-- Debian version numbers: apt-pkg/deb/debversion.cc. `Fragment` has CmpFragment, `Compare` has
-- DoCmpVersion and CheckDep; the modules below them have their proofs.
pub mod Fragment
pub mod Compare
pub mod Parts
pub mod Pointers
pub mod Total
pub mod Check
pub mod Key
pub mod Numbers
pub mod Texts
pub mod Refines
mod Tests
