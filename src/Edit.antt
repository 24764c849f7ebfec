-- ===== src/Edit.antt =====
-- Changes of one directory in a library, server/repo-op.c: the recursions that post, replace, rename
-- and delete entries. Each goes down a path, makes the target directory anew, and saves every
-- directory above it anew on the way back.
pub mod Names
pub mod Walk
pub mod Targets
pub mod Recursions
pub mod Paths
pub mod Spec
pub mod Entries
pub mod Ordered
pub mod Effects
pub mod Frame
pub mod Lookup
use seafile_server.Base.{ℕ, Bool, Option, List, CString}
use seafile_server.Fs.{Dirent}

-- The outside world: SHA-1 of the serialised entries of a directory of some version, whether the
-- back end stores an object when asked to, the version of the repository, and `time (NULL)` when the
-- entry on the way down to a path is touched.
pub record EditEnv : Type 0 where
  pub version : ℕ
  pub checksum : ℕ → List Dirent → CString
  pub write_ok : CString → Bool
  -- the strings that Jansson takes for a JSON string
  pub is_text : CString → Bool
  pub now : List CString → ℕ
