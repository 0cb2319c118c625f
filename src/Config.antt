-- ===== src/Config.antt =====
-- The configuration tree of apt-pkg/contrib/configuration.h and apt-pkg/contrib/configuration.cc.
pub mod Items
pub mod Names
pub mod Access
pub mod Lookups
pub mod Stored
pub mod Walk
pub mod Lists
mod Tests
