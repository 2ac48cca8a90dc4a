-- ===== src/Tests.antt =====
-- Concrete inputs for the theorems, and runs of the definitions.
pub mod Tables
pub mod Pools
pub mod Calls
pub mod Words
pub mod Trees
pub mod Sharing
pub mod Lists
pub mod Loads
use hafnium_verification.Prelude.{ℕ}
