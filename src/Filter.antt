-- ===== src/Filter.antt =====
-- internal/filter: the rules that block names and addresses.
pub mod Rules
pub mod Parse
pub mod State
pub mod Engine
pub mod Decide
pub mod Parents
pub mod Verdict
pub mod Loads
pub mod Invariant
pub mod Runs
pub mod History
pub mod Survives
pub mod UserLists
pub mod Precedence
pub mod Lists
pub mod Reload
pub mod Fetch
pub mod Rewrite
pub mod Local
mod Tests
