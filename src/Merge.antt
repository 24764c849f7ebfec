-- ===== src/Merge.antt =====
-- The three-way merge of directory trees, common/merge-new.c: the options and the state of a
-- merge, and what it takes from elsewhere.
pub mod Conflict
pub mod Entries
pub mod Dirs
pub mod Trees
pub mod Names
pub mod OneSided
pub mod Unchanged
pub mod Store
pub mod Root
pub mod Depth
pub mod Ends
pub mod ThreeWay
pub mod Copies
use seafile_server.Base.{ℕ, Bool, true, false, Option, List, CString}
use seafile_server.Fs.{Dirent, Objects}
use seafile_server.Walk.{Dents}
pub use seafile_server.Walk.{Rc, success, failure, out_of_fuel}

-- The arguments and the options that stay fixed during a merge, and the outside world.
pub record MergeEnv : Type 1 where
  -- `n` and `opt->do_merge`
  pub n : ℕ
  pub do_merge : Bool
  -- the version of the repository
  pub version : ℕ
  -- `opt->data` and `opt->callback`; the flag is false where the callback returns less than 0
  pub CallbackData : Type 0
  pub callback : CString → Dents → CallbackData → Bool × CallbackData
  -- SHA-1 of the serialised entries of a directory of some version
  pub checksum : ℕ → List Dirent → CString
  -- whether the back end stores an object when asked to
  pub write_ok : CString → Bool
  -- `get_file_modifier_mtime` at the remote head: the last modifier of a path, and the time
  pub modifier_mtime : CString → Option (Option CString × ℕ)
  -- the creator of the remote head commit, if that commit can be read
  pub head_creator : Option (Option CString)
  -- `time (NULL)` when the entry at a path is merged, and `strftime` of a local time
  pub now : CString → ℕ
  pub format_time : ℕ → CString

-- What a merge changes: fields of `MergeOptions`, and the object store.
pub record MergeState (E : MergeEnv) : Type 0 where
  pub conflict : Bool
  pub visit_dirs : ℕ
  pub merged_tree_root : CString
  pub data_of_callback : E.CallbackData
  pub objects : Objects
