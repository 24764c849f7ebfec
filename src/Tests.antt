-- ===== src/Tests.antt =====
-- Runs of the modelled code on small inputs.
pub mod Trees
pub mod Merges
pub mod Diffs
pub mod Perms
pub mod Blooms
pub mod Store
pub mod Edits
pub mod Commits
pub mod Renames
