-- ===== src/Diff.antt =====
-- The comparison of directory trees, common/diff-simple.c: entries of a diff, the walk over two or
-- three trees with its two callbacks, and the callbacks that the server gives to it.
pub mod Trees
pub mod Callbacks
pub mod Same
pub mod Flat
pub mod Ends
pub mod Renames
pub mod EmptyDirs
pub mod RenameLaws
pub mod Describe
pub mod Description
use seafile_server.Base.{
  ℕ, Bool, true, false, ◌&&◌, Option, none, some, List, [], ◌∷◌, ◌++◌, CString, str_eq, ◌==◌,
  if◌then◌else◌,
}
use seafile_server.Fs.{Dirent, SeafDir, Objects}
use seafile_server.Hex.{hex_to_rawdata}
use seafile_server.Walk.{Three, Dents}
pub use seafile_server.Walk.{Rc, success, failure, out_of_fuel}

-- `DIFF_STATUS_…`
pub data Status : Type 0 where
  added deleted modified renamed unmerged dir_added dir_deleted dir_renamed : Status

-- `DiffEntry` of the type DIFF_TYPE_COMMITS, the only one that is made here. `sha1` is the raw id;
-- an id that is no text of 40 digits would leave it unset in C, and makes it empty here.
pub record DiffEntry : Type 0 where
  pub status : Status
  pub sha1 : List ℕ
  pub name : CString
  pub new_name : Option CString
  pub size : ℕ
  pub origin_size : ℕ

abbrev or_unset : Option (List ℕ) → List ℕ
or_unset none = []
or_unset (some rawdata) = rawdata

-- `diff_entry_new_from_dirent`
unfoldable pub diff_entry_new_from_dirent : Status → Dirent → CString → DiffEntry
unfolding hex_to_rawdata
diff_entry_new_from_dirent status dent basedir = record {
  status = status;
  sha1 = or_unset (hex_to_rawdata dent.id 20);
  name = basedir ++ dent.name;
  new_name = none;
  size = dent.size;
  origin_size = 0;
}

-- `diff_entry_new`, with the new name of a rename.
unfoldable pub diff_entry_new : Status → List ℕ → CString → CString → DiffEntry
diff_entry_new status sha1 name new_name = record {
  status = status;
  sha1 = sha1;
  name = name;
  new_name = some new_name;
  size = 0;
  origin_size = 0;
}

unfoldable pub dirent_same : Dirent → Dirent → Bool
dirent_same a b = str_eq b.id a.id && (a.mode == b.mode && a.mtime == b.mtime)

-- `DiffOptions`, with the number of trees and the object store, which a diff only reads. The flags
-- are false where a callback returns less than 0; `dir_cb` also returns `recurse`.
pub record DiffEnv : Type 1 where
  pub n : ℕ
  pub version : ℕ
  pub objects : Objects
  pub CallbackData : Type 0
  pub file_cb : CString → Dents → CallbackData → Bool × CallbackData
  pub dir_cb : CString → Dents → CallbackData → Bool × Bool × CallbackData
